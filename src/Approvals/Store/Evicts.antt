-- ===== src/Approvals/Store/Evicts.antt =====
-- src/infrastructure/sqlite/approval-database.ts: which rows the evictions delete.
use codevo_runner.Approvals.Store.{
  max_settled, max_bytes, Row, Dependencies, is_pending, is_settled, count, evict_settled,
  evict_oldest, stored_bytes, make_room,
}
use mathlib.Core.Path.{subst}
use codevo_runner.Prelude.{
  ℕ, zero, suc, ◌+◌, ◌≡◌, refl, sym, ◌⊎◌, inl, inr, Bool, true, false, ◌&&◌, Option, none, some,
  List, [], ◌∷◌, arith, ltb, leb, if◌then◌else◌, Text, text_eq_iff,
}
use codevo_runner.Sqlite.{refuse, other, done, failed}
use codevo_runner.Contracts.{quota_exceeded}
use codevo_runner.Approvals.Store.Counts.{evict_oldest-cases}

-- Rows of the task that are not pending are gone, and all others are left, in order.
abbrev pub Evicts : Text → List Row → List Row → Type 0
Evicts task [] [] = Unit
Evicts task [] (_ ∷ _) = ⊥
Evicts task (r ∷ rows) kept =
    ((r.task_id ≡ task) × (is_pending r.status ≡ false) × Evicts task rows kept)
    ⊎ ((rest : List Row) × (kept ≡ r ∷ rest) × Evicts task rows rest)

pub Evicts-refl : (task : Text) (rows : List Row) → Evicts task rows rows
Evicts-refl task [] = tt
Evicts-refl task (r ∷ rows) = inr (rows, refl, Evicts-refl task rows)

pub Evicts-trans :
    (task : Text) (rows kept left : List Row)
    → Evicts task rows kept
    → Evicts task kept left
    → Evicts task rows left
Evicts-trans task [] [] left h k = k
Evicts-trans task [] (_ ∷ _) left h k = absurd h
Evicts-trans task (r ∷ rows) kept left (inl (a, b, h)) k =
    inl (a, b, Evicts-trans task rows kept left h k)
Evicts-trans task (r ∷ rows) kept left (inr (rest, e, h)) k =
    elim (subst (λ l. Evicts task l left) e k) [
      | inl c ↦ inl (c.0, c.1, Evicts-trans task rows rest left h c.2)
      | inr c ↦ inr (c.0, c.1, Evicts-trans task rows rest c.0 h c.2)
    ]

settled-of :
    (task : Text) (r : Row)
    → is_settled task r ≡ true
    → (r.task_id ≡ task) × (is_pending r.status ≡ false)
settled-of task r h = ground (arith, text_eq_iff r.task_id task)

pub evict_settled-Evicts :
    (task : Text) (rows : List Row) → Evicts task rows (evict_settled task rows)
unfolding evict_settled
evict_settled-Evicts task [] = tt
evict_settled-Evicts task (r ∷ rows) =
    go (is_settled task r) refl (leb max_settled (count (is_settled task) rows))
      (evict_settled-Evicts task rows)
  where
    go :
        (a : Bool)
        → is_settled task r ≡ a
        → (b : Bool) → Evicts task rows (evict_settled task rows)
        → Evicts task
            (r ∷ rows)
            (if a && b then evict_settled task rows else r ∷ evict_settled task rows)
    go true e true h = let (x, y) = settled-of task r e in inl (x, y, h)
    go true e false h = inr (evict_settled task rows, refl, h)
    go false e b h = inr (evict_settled task rows, refl, h)

evict_oldest-Evicts :
    (task : Text) (rows kept : List Row)
    → evict_oldest task rows ≡ some kept
    → Evicts task rows kept
evict_oldest-Evicts task [] kept e = unfold evict_oldest in absurd (ground (arith, e))
evict_oldest-Evicts task (r ∷ rows) kept e = elim (evict_oldest-cases task r rows kept e) [
  | inl c ↦
      let (x, y) = settled-of task r c.0 in
      inl (x, y, subst (Evicts task rows) (sym c.1) (Evicts-refl task rows))
  | inr c ↦ inr (c.0, c.2, evict_oldest-Evicts task rows c.0 c.1)
]

module _ (deps : Dependencies) where
  pub make_room-Evicts :
      (fuel : ℕ) (task : Text) (extra : ℕ) (rows kept : List Row)
      → make_room deps fuel task extra rows ≡ done kept
      → Evicts task rows kept
  unfolding make_room
  make_room-Evicts zero task extra rows kept e =
      go (ltb max_bytes (stored_bytes deps task rows + extra)) (evict_oldest task rows) e
    where
      go :
          (b : Bool) (o : Option (List Row))
          → elim b [
            | false ↦ done rows
            | true ↦ elim o [ none ↦ refuse quota_exceeded | some left ↦ failed other ]
          ]
            ≡ done kept
          → Evicts task rows kept
      go false o e =
          let same : rows ≡ kept = ground (arith, e) in
          subst (Evicts task rows) same (Evicts-refl task rows)
      go true none e = absurd (ground (arith, e))
      go true (some left) e = absurd (ground (arith, e))
  make_room-Evicts (suc n) task extra rows kept e =
      go (ltb max_bytes (stored_bytes deps task rows + extra)) (evict_oldest task rows) refl
        (λ left. make_room-Evicts n task extra left kept) e
    where
      go :
          (b : Bool) (o : Option (List Row))
          → evict_oldest task rows ≡ o
          → ((left : List Row)
              → make_room deps n task extra left ≡ done kept
              → Evicts task left kept)
          → elim b [
            | false ↦ done rows
            | true ↦ elim o [
              | none ↦ refuse quota_exceeded
              | some left ↦ make_room deps n task extra left
            ]
          ]
            ≡ done kept
          → Evicts task rows kept
      go false o f ih e =
          let same : rows ≡ kept = ground (arith, e) in
          subst (Evicts task rows) same (Evicts-refl task rows)
      go true none f ih e = absurd (ground (arith, e))
      go true (some left) f ih e =
          Evicts-trans task rows left kept (evict_oldest-Evicts task rows left f) (ih left e)
