-- ===== src/Git/Keyed/Entering.antt =====
-- What the `acquire` of a run does to the gates of a `KeyedGate` of src/application/git-coordination.ts.
use mathlib.Core.Path.{subst}
use codevo_runner.Prelude.{
  ℕ, ◌≡◌, refl, sym, ap, ◌∙◌, Bool, true, false, List, [], ◌∷◌, arith, if◌then◌else◌, any, All,
  Text, text_eq, eq_of_text_eq, text_eq_sym,
}
use codevo_runner.Git.Gate.{Gate, new, grant, acquire}
use codevo_runner.Git.Gate.Laws.{acquire-Inv}
use codevo_runner.Git.Keyed.{Entry, holds, clean, admit, enter}
use codevo_runner.Git.Keyed.Spec.{
  unheld, Action, apply, perform, of_gate, merge, view, lock, nothing,
}
use codevo_runner.Git.Keyed.Quiet.{Sound, Alone, merge-unheld, view-quiet, clean-Sound}
use codevo_runner.Git.Keyed.Acts.{acquire-effect}
use codevo_runner.Git.Keyed.Refines.{cons-view}

unfoldable pub enter_action : Bool → ℕ → Action
enter_action true w = nothing
enter_action false w = lock w

capacity-acquire :
    (w : ℕ) (aborted : Bool) (g : Gate) → (acquire w aborted g).0.capacity ≡ g.capacity
unfolding acquire grant
capacity-acquire w aborted g = ground arith

admit-key : (w : ℕ) (aborted : Bool) (e : Entry) → (admit w aborted e).key ≡ e.key
unfolding admit clean
admit-key w true e = refl
admit-key w false e = refl

admit-Sound :
    (w : ℕ) (aborted : Bool) (e : Entry) → Sound e → e.mapped ≡ true → Sound (admit w aborted e)
unfolding admit
admit-Sound w true e h m =
    clean-Sound (record e { gate = (acquire w true e.gate).0 })
      (capacity-acquire w true e.gate ∙ h.one) (acquire-Inv w true e.gate h.valid)
      (λ n. absurd (ground (arith, m, n)))
admit-Sound w false e h m = record {
  one = capacity-acquire w false e.gate ∙ h.one;
  valid = acquire-Inv w false e.gate h.valid;
  quiet = λ n. absurd (ground (arith, m, n));
}

admit-effect :
    (w : ℕ) (aborted : Bool) (e : Entry)
    → Sound e
    → of_gate (admit w aborted e).gate ≡ apply (enter_action aborted w) (of_gate e.gate)
unfolding admit enter_action
admit-effect w true e h = unfold acquire clean in refl
admit-effect w false e h = acquire-effect w e.gate h.one

abbrev made : Text → Entry
made key = record { key = key; gate = new 1; mapped = true }

made-Sound : (key : Text) → Sound (made key)
made-Sound key = record { one = refl; valid = omega arith; quiet = λ n. refl }

-- Other keys do not notice.
any-enter :
    (key k : Text) (w : ℕ) (aborted : Bool) (es : List Entry)
    → text_eq key k ≡ false
    → any (holds k) es ≡ false
    → any (holds k) (enter key w aborted es) ≡ false
unfolding enter
any-enter key k w aborted [] t n =
    ground (arith, ap (λ i. text_eq i k) (admit-key w aborted (made key)), t)
any-enter key k w aborted (e ∷ es) t n =
    go (holds key e) refl (any-enter key k w aborted es t (ground arith))
  where
    go :
        (b : Bool)
        → holds key e ≡ b
        → any (holds k) (enter key w aborted es) ≡ false
        → any (holds k) (if b then admit w aborted e ∷ es else e ∷ enter key w aborted es) ≡ false
    go false p ih = ground (arith, ih)
    go true p ih =
        let same : e.key ≡ key = eq_of_text_eq e.key key (ground arith) in
        let far : text_eq (admit w aborted e).key k ≡ false =
          ap (λ i. text_eq i k) (admit-key w aborted e ∙ same) ∙ t in
        ground (arith, far)

pub enter-Sound :
    (key : Text) (w : ℕ) (aborted : Bool) (es : List Entry)
    → All Sound es
    → All Sound (enter key w aborted es)
unfolding enter
enter-Sound key w aborted [] h = (admit-Sound w aborted (made key) (made-Sound key) refl, tt)
enter-Sound key w aborted (e ∷ es) h = go (holds key e) refl (enter-Sound key w aborted es h.1)
  where
    go :
        (b : Bool)
        → holds key e ≡ b
        → All Sound (enter key w aborted es)
        → All Sound (if b then admit w aborted e ∷ es else e ∷ enter key w aborted es)
    go false p ih = (h.0, ih)
    go true p ih = (admit-Sound w aborted e h.0 (ground arith), h.1)

pub enter-Alone :
    (key : Text) (w : ℕ) (aborted : Bool) (es : List Entry)
    → Alone es
    → Alone (enter key w aborted es)
unfolding enter
enter-Alone key w aborted [] n = (λ m. refl, tt)
enter-Alone key w aborted (e ∷ es) n = go (holds key e) refl (enter-Alone key w aborted es n.1)
  where
    go :
        (b : Bool)
        → holds key e ≡ b
        → Alone (enter key w aborted es)
        → Alone (if b then admit w aborted e ∷ es else e ∷ enter key w aborted es)
    go false p ih =
        (λ m. any-enter key e.key w aborted es (text_eq_sym key e.key ∙ ground arith) (n.0 m), ih)
    go true p ih = (
      λ m. subst (λ k. any (holds k) es ≡ false) (sym (admit-key w aborted e)) (n.0 (ground arith)),
      n.1,
    )

pub enter-view :
    (key : Text) (w : ℕ) (aborted : Bool) (es : List Entry) (k : Text)
    → All Sound es
    → Alone es
    → view (enter key w aborted es) k ≡ perform key (enter_action aborted w) (view es) k
unfolding enter
enter-view key w aborted [] k h n = rw (admit-key w aborted (made key)) (go (text_eq key k))
  where
    go :
        (b : Bool)
        → (if b then merge (of_gate (admit w aborted (made key)).gate) unheld else unheld)
          ≡ (if b then apply (enter_action aborted w) unheld else unheld)
    go false = refl
    go true =
        merge-unheld (of_gate (admit w aborted (made key)).gate)
        ∙ admit-effect w aborted (made key) (made-Sound key)
enter-view key w aborted (e ∷ es) k h n =
    go (holds key e) refl (enter-view key w aborted es k h.1 n.1)
  where
    act : Action
    act = enter_action aborted w

    go :
        (b : Bool)
        → holds key e ≡ b
        → view (enter key w aborted es) k ≡ perform key act (view es) k
        → view (if b then admit w aborted e ∷ es else e ∷ enter key w aborted es) k
          ≡ perform key act (view (e ∷ es)) k
    go false p ih = cons-view e es k key act (view (enter key w aborted es) k) h.0 ih (λ m q t.
        absurd
          (ground (arith, ap (λ i. text_eq i key) (eq_of_text_eq e.key k q), text_eq_sym key k, t)))
    go true p ih =
        let same : e.key ≡ key = eq_of_text_eq e.key key (ground arith) in
        let alone : any (holds e.key) es ≡ false = n.0 (ground arith) in
        front (text_eq e.key k) refl same alone
      where
        front :
            (b : Bool)
            → text_eq e.key k ≡ b
            → e.key ≡ key
            → any (holds e.key) es ≡ false
            → view (admit w aborted e ∷ es) k ≡ perform key act (view (e ∷ es)) k
        front false q same alone =
            let far : text_eq key k ≡ false = ap (λ i. text_eq i k) (sym same) ∙ q in
            rw (admit-key w aborted e, q, far) refl
        front true q same alone =
            let near : text_eq key k ≡ true = ap (λ i. text_eq i k) (sym same) ∙ q in
            let i : view es k ≡ unheld =
              view-quiet es k h.1
                (subst (λ k. any (holds k) es ≡ false) (eq_of_text_eq e.key k q) alone) in
            rw (admit-key w aborted e, q, near)
              (ap (merge (of_gate (admit w aborted e).gate)) i
                ∙ merge-unheld (of_gate (admit w aborted e).gate)
                ∙ admit-effect w aborted e h.0
                ∙ ap (apply act)
                    (sym (ap (merge (of_gate e.gate)) i ∙ merge-unheld (of_gate e.gate))))
