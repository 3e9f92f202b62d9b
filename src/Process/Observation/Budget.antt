-- ===== src/Process/Observation/Budget.antt =====
-- How long a failing observation goes on, and how much of it is reported.
use codevo_runner.Prelude.{
  ℕ, ◌+◌, ◌≤◌, ◌<◌, ◌≡◌, refl, Option, none, some, List, [], ◌∷◌, ◌++◌, arith, length,
  length-append,
}
use codevo_runner.Process.Observation.{
  diagnostic, decide_transient, decided, FailureKind, ProcessFailure, Outcome, ObservationState,
  Thrown, classify, decide, Tracker, tick, transient, permanent, limit, unexpected, retrying,
  failed, exhausted,
}

unfoldable pub ticks : List (Option (Option Thrown)) → Tracker → Tracker
ticks [] t = t
ticks (e ∷ es) t = ticks es (tick e t)

abbrev InBudget : Option ObservationState → ℕ → ℕ → Type 0
InBudget none reports fails = (reports ≤ 9) × (fails ≡ 1)
InBudget (some s) reports fails =
    (s.streak ≤ s.failed)
    × (s.streak < 50)
    × (s.failed < 600)
    × (reports ≡ s.reported)
    × (s.reported ≤ 8)
    × (fails ≡ 0)

abbrev pub Within : Tracker → Type 0
Within t = InBudget t.state (length t.reports) t.fails

decide-Within :
    (s : ObservationState) (f : Option ProcessFailure) (t : Tracker)
    → InBudget (some s) (length t.reports) t.fails
    → Within (decided (decide s f) t)
unfolding decided decide decide_transient
decide-Within s none t h = ground arith
decide-Within s (some f) t h = go f.kind refl
  where
    one :
        (o : Outcome)
        → length (t.reports ++ diagnostic f.cause o (s.streak + 1) (s.failed + 1) ∷ [])
          ≡ length t.reports + 1
    one o = length-append t.reports (diagnostic f.cause o (s.streak + 1) (s.failed + 1) ∷ [])

    go : (k : FailureKind) → f.kind ≡ k → Within (decided (decide s (some f)) t)
    go transient e = ground (arith, one failed, one exhausted, one retrying)
    go permanent e = ground (arith, one failed, one exhausted, one retrying)
    go limit e = ground (arith, one failed, one exhausted, one retrying)
    go unexpected e = ground (arith, one failed, one exhausted, one retrying)

tick-Within : (e : Option (Option Thrown)) (t : Tracker) → Within t → Within (tick e t)
unfolding tick
tick-Within e t h = go t.state refl
  where
    go : (o : Option ObservationState) → t.state ≡ o → Within (tick e t)
    go none q = ground arith
    go (some s) q = ground (
      arith,
      decide-Within s
          (elim e as (λ _. Option ProcessFailure) [ none ↦ none | some f ↦ some (classify f) ]) t,
    )

-- A tracker within its bounds stays within them, however its observations go: while it observes, it
-- has reported at most eight failures and has not called `fail`; once it has stopped, it has
-- reported at most nine and has called `fail` once.
pub ticks-Within :
    (es : List (Option (Option Thrown))) (t : Tracker) → Within t → Within (ticks es t)
unfolding ticks
ticks-Within [] t h = h
ticks-Within (e ∷ es) t h = ticks-Within es (tick e t) (tick-Within e t h)
