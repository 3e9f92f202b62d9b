-- ===== src/Git/Keyed/Refines.antt =====
-- `KeyedGate` of src/application/git-coordination.ts: one gate changed among all, as one key changed.
use mathlib.Core.Path.{subst}
use codevo_runner.Prelude.{
  ℕ, zero, suc, ◌≡◌, refl, sym, ap, ◌∙◌, Bool, true, false, List, [], ◌∷◌, arith, if◌then◌else◌,
  any, All, Text, text_eq, eq_of_text_eq,
}
use codevo_runner.Git.Gate.{Gate}
use codevo_runner.Git.Keyed.{Entry, holds, update}
use codevo_runner.Git.Keyed.Spec.{
  Mutex, unheld, Action, apply, perform, of_gate, merge, view, at, nothing,
}
use codevo_runner.Git.Keyed.Quiet.{Sound, Alone, Acts, merge-unheld, unheld-merge, view-quiet}

-- A gate in front of those that have taken an action.
pub cons-view :
    (e : Entry) (es : List Entry) (k key : Text) (a : Action) (v : Mutex)
    → Sound e
    → v ≡ perform key a (view es) k
    → (e.mapped ≡ true → text_eq e.key k ≡ true → text_eq key k ≡ true → a ≡ nothing)
    → (if text_eq e.key k then merge (of_gate e.gate) v else v) ≡ perform key a (view (e ∷ es)) k
cons-view e es k key a v h ih n = go (text_eq e.key k) refl (text_eq key k) refl e.mapped refl
  where
    g : Mutex
    g = of_gate e.gate

    go :
        (b : Bool)
        → text_eq e.key k ≡ b
        → (c : Bool) → text_eq key k ≡ c
        → (m : Bool) → e.mapped ≡ m
        → (if text_eq e.key k then merge g v else v) ≡ perform key a (view (e ∷ es)) k
    go false p c s m q = rw p ih
    go true p false s m q = let same : v ≡ view es k = rw s at ih in rw (p, s) (ap (merge g) same)
    go true p true s true q =
        let i : a ≡ nothing = n q p s in
        let same : v ≡ apply a (view es k) = rw s at ih in
        rw (p, s)
          (ap (merge g) (same ∙ ap (λ c. apply c (view es k)) i)
            ∙ sym (ap (λ c. apply c (merge g (view es k))) i))
    go true p true s false q =
        let i : g ≡ unheld = h.quiet q in
        let same : v ≡ apply a (view es k) = rw s at ih in
        rw (p, s)
          (ap (λ m. merge m v) i
            ∙ unheld-merge v
            ∙ same
            ∙ ap (apply a) (sym (ap (λ m. merge m (view es k)) i ∙ unheld-merge (view es k))))

module _ {f : Entry → Entry} {a : Gate → Action} (acts : Acts f a) where
  any-update :
      (k : Text) (i : ℕ) (es : List Entry)
      → any (holds k) es ≡ false
      → any (holds k) (update i f es) ≡ false
  any-update k i [] n = refl
  any-update k zero (e ∷ es) n = go (text_eq e.key k) refl e.mapped refl
    where
      go :
          (b : Bool)
          → text_eq e.key k ≡ b
          → (m : Bool) → e.mapped ≡ m
          → any (holds k) (f e ∷ es) ≡ false
      go false p m q = ground (arith, ap (λ i. text_eq i k) (acts.key e))
      go true p true q = absurd (ground arith)
      go true p false q = ground (arith, acts.unmapped e q)
  any-update k (suc i) (e ∷ es) n = ground (arith, any-update k i es)

  pub update-Sound : (i : ℕ) (es : List Entry) → All Sound es → All Sound (update i f es)
  update-Sound i [] h = tt
  update-Sound zero (e ∷ es) h = (acts.sound e h.0, h.1)
  update-Sound (suc i) (e ∷ es) h = (h.0, update-Sound i es h.1)

  pub update-Alone : (i : ℕ) (es : List Entry) → Alone es → Alone (update i f es)
  update-Alone i [] h = tt
  update-Alone zero (e ∷ es) h =
      (λ m. subst (λ k. any (holds k) es ≡ false) (sym (acts.key e)) (h.0 (was m)), h.1)
    where
      was : (f e).mapped ≡ true → e.mapped ≡ true
      was m = go e.mapped refl
        where
          go : (b : Bool) → e.mapped ≡ b → e.mapped ≡ true
          go true p = p
          go false p = absurd (ground (arith, acts.unmapped e p))
  update-Alone (suc i) (e ∷ es) h = (λ m. any-update e.key i es (h.0 m), update-Alone i es h.1)

  -- The gate at an index under a key that is mapped elsewhere is idle.
  at-quiet :
      (k : Text) (i : ℕ) (es : List Entry)
      → All Sound es
      → any (holds k) es ≡ false
      → text_eq (at i a es).0 k ≡ true
      → (at i a es).1 ≡ nothing
  at-quiet k i [] h n t = refl
  at-quiet k zero (e ∷ es) h n t =
      let m : e.mapped ≡ false = ground arith in acts.idle_nothing e h.0 (h.0.quiet m)
  at-quiet k (suc i) (e ∷ es) h n t = at-quiet k i es h.1 (ground arith) t

  pub update-view :
      (i : ℕ) (es : List Entry) (k : Text)
      → All Sound es
      → Alone es
      → view (update i f es) k ≡ perform (at i a es).0 (at i a es).1 (view es) k
  update-view i [] k h n = go (text_eq [] k)
    where
      go : (b : Bool) → unheld ≡ (if b then unheld else unheld)
      go true = refl
      go false = refl
  update-view zero (e ∷ es) k h n = go (text_eq e.key k) refl e.mapped refl
    where
      effect : of_gate (f e).gate ≡ apply (a e.gate) (of_gate e.gate)
      effect = acts.effect e h.0

      go :
          (b : Bool)
          → text_eq e.key k ≡ b
          → (m : Bool) → e.mapped ≡ m
          → view (f e ∷ es) k ≡ perform e.key (a e.gate) (view (e ∷ es)) k
      go false p m q = rw (acts.key e, p) refl
      go true p true q =
          let i : view es k ≡ unheld =
            view-quiet es k h.1
              (subst (λ k. any (holds k) es ≡ false) (eq_of_text_eq e.key k p) (n.0 q)) in
          rw (acts.key e, p)
            (ap (merge (of_gate (f e).gate)) i
              ∙ merge-unheld (of_gate (f e).gate)
              ∙ effect
              ∙ ap (apply (a e.gate))
                  (sym (ap (merge (of_gate e.gate)) i ∙ merge-unheld (of_gate e.gate))))
      go true p false q =
          let i : a e.gate ≡ nothing = acts.idle_nothing e h.0 (h.0.quiet q) in
          let same : of_gate (f e).gate ≡ of_gate e.gate =
            effect ∙ ap (λ c. apply c (of_gate e.gate)) i in
          rw (acts.key e, p)
            (ap (λ m. merge m (view es k)) same
              ∙ sym (ap (λ c. apply c (merge (of_gate e.gate) (view es k))) i))
  update-view (suc i) (e ∷ es) k h n =
      cons-view e es k (at i a es).0 (at i a es).1 (view (update i f es) k) h.0
        (update-view i es k h.1 n.1)
        (λ m p t.
          at-quiet k i es h.1
            (subst (λ k. any (holds k) es ≡ false) (eq_of_text_eq e.key k p) (n.0 m)) t)
