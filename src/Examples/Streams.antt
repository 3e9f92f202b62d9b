-- ===== src/Examples/Streams.antt =====
-- src/domain/provider-output.ts at a concrete input; `parse_json` is a function that knows one line.
use codevo_runner.Prelude.{
  ◌≡◌, Option, none, some, ◌++◌, arith, if◌then◌else◌, Text, codes, text_eq,
}
use codevo_runner.Prelude.Utf8.{encode}
use codevo_runner.Json.{Value, str, obj, end, field}
use codevo_runner.Provider.Output.{new, push, codex}
use codevo_runner.Provider.Output.Stream.{Fits, push-append}

abbrev one_line : Text → Option Value
one_line s =
    if text_eq s (codes "{\"type\":\"turn.completed\"}")
    then some (obj (field (codes "type") (str (codes "turn.completed")) end))
    else none

new-Fits : Fits (new codex none)
new-Fits = record { bound = unfold new encode in omega arith }

push-append_example :
    push one_line (codes "{\"type\":\"turn" ++ codes ".completed\"}\n") (new codex none)
    ≡ push one_line
        (codes ".completed\"}\n")
        (push one_line (codes "{\"type\":\"turn") (new codex none))
push-append_example =
    push-append one_line (codes "{\"type\":\"turn") (codes ".completed\"}\n") (new codex none)
      new-Fits
