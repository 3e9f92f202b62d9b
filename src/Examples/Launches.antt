-- ===== src/Examples/Launches.antt =====
-- src/domain/launch.ts and launch-arguments.ts at concrete inputs.
use codevo_runner.Prelude.{◌≡◌, refl, true, false, none, some, any, codes, text_eq}
use codevo_runner.Json.{Fields, lookup, str, obj, end, field}
use codevo_runner.Contracts.{ok}
use codevo_runner.Launch.{
  LaunchOptions, is_model_id, model_id, parse_launch_options, launch_identity, provider_claude,
  bypass_permissions, claude_high, claude_code,
}
use codevo_runner.Launch.Arguments.{launch_arguments}
use codevo_runner.Launch.Arguments.Bypass.{identity_launches, dangerous, is_bypass, parsed_bypass}
use codevo_runner.Launch.Parsing.{IsParsed, parse_launch_options-IsParsed}

abbrev bypassing : Fields
bypassing = field (codes "provider") (str (codes "claudeCode")) (
    field (codes "model") (str (codes "opus")) (
      field (codes "mode") (str (codes "bypassPermissions"))
        (field (codes "effort") (str (codes "high")) end)))

abbrev options : LaunchOptions
options = claude_code (record {
  model = codes "opus";
  mode = bypass_permissions;
  effort = claude_high;
  context = none;
  fast_mode = some false;
  thinking_mode = some false;
})

parses : parse_launch_options (obj bypassing) (some provider_claude) ≡ ok options
unfolding parse_launch_options text_eq is_model_id model_id lookup
parses = refl

parsed_bypass_example : any dangerous (launch_arguments options true) ≡ is_bypass options
parsed_bypass_example = parsed_bypass bypassing (some provider_claude) options true parses

identity_launches_example :
    (launch_arguments (launch_identity options) true ≡ launch_arguments options true)
    × (launch_identity (launch_identity options) ≡ launch_identity options)
identity_launches_example = identity_launches options true

parse_launch_options-IsParsed_example : IsParsed (some provider_claude) bypassing options
parse_launch_options-IsParsed_example =
    parse_launch_options-IsParsed bypassing (some provider_claude) options parses
