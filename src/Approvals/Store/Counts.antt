-- ===== src/Approvals/Store/Counts.antt =====
-- How the writes of src/infrastructure/sqlite/approval-database.ts change the number of rows.
use codevo_runner.Approvals.Store.{
  max_settled, max_bytes, Row, Dependencies, is_pending, of_task, is_waiting, is_settled, count,
  evict_settled, evict_oldest, settle_rows, stored_bytes, make_room,
}
use codevo_runner.Prelude.{
  ℕ, zero, suc, ◌+◌, ◌≤◌, ◌≡◌, refl, ◌⊎◌, inl, inr, Bool, true, false, Option, none, some, List, [],
  ◌∷◌, ◌++◌, arith, ltb, if◌then◌else◌, Bool-cases, length, Text,
}
use codevo_runner.Sqlite.{refuse, other, done, failed}
use codevo_runner.Contracts.{quota_exceeded}
use codevo_runner.Approvals.{Status}

-- A task's rows are pending or settled.
pub count-split :
    (task : Text) (rows : List Row)
    → count (of_task task) rows ≡ count (is_waiting task) rows + count (is_settled task) rows
count-split task [] = refl
count-split task (r ∷ rows) = ground (arith, count-split task rows)

pub count-evict_settled :
    (p : Row → Bool) (task : Text) (rows : List Row)
    → count p (evict_settled task rows) ≤ count p rows
unfolding evict_settled
count-evict_settled p task [] = omega arith
count-evict_settled p task (r ∷ rows) = ground (arith, count-evict_settled p task rows)

-- At most 32 settled rows are kept.
pub evict_settled-few :
    (task : Text) (rows : List Row)
    → count (is_settled task) (evict_settled task rows) ≤ max_settled
unfolding evict_settled
evict_settled-few task [] = omega arith
evict_settled-few task (r ∷ rows) =
    ground (arith, evict_settled-few task rows, count-evict_settled (is_settled task) task rows)

-- The first row, if it is settled, or one after it.
pub evict_oldest-cases :
    (task : Text) (r : Row) (rows kept : List Row)
    → evict_oldest task (r ∷ rows) ≡ some kept
    → ((is_settled task r ≡ true) × (kept ≡ rows))
      ⊎ ((rest : List Row) × (evict_oldest task rows ≡ some rest) × (kept ≡ r ∷ rest))
unfolding evict_oldest
evict_oldest-cases task r rows kept e =
    go (evict_oldest task rows) refl (Bool-cases (is_settled task r))
  where
    go :
        (o : Option (List Row))
        → evict_oldest task rows ≡ o
        → (is_settled task r ≡ true) ⊎ (is_settled task r ≡ false)
        → ((is_settled task r ≡ true) × (kept ≡ rows))
          ⊎ ((rest : List Row) × (evict_oldest task rows ≡ some rest) × (kept ≡ r ∷ rest))
    go o f (inl t) = inl (t, ground arith)
    go none f (inr t) = absurd (ground arith)
    go (some rest) f (inr t) = inr (rest, f, ground arith)

pub count-evict_oldest :
    (p : Row → Bool) (task : Text) (rows kept : List Row)
    → evict_oldest task rows ≡ some kept
    → count p kept ≤ count p rows
count-evict_oldest p task [] kept e = unfold evict_oldest in absurd (ground (arith, e))
count-evict_oldest p task (r ∷ rows) kept e = elim (evict_oldest-cases task r rows kept e) [
  | inl c ↦ rw (c.1) (ground arith)
  | inr c ↦ rw (c.2) (ground (arith, count-evict_oldest p task rows c.0 c.1))
]

pub length-evict_oldest :
    (task : Text) (rows kept : List Row)
    → evict_oldest task rows ≡ some kept
    → suc (length kept) ≡ length rows
length-evict_oldest task [] kept e = unfold evict_oldest in absurd (ground (arith, e))
length-evict_oldest task (r ∷ rows) kept e = elim (evict_oldest-cases task r rows kept e) [
  | inl c ↦ rw (c.1) refl
  | inr c ↦ rw (c.2) (omega (arith, length-evict_oldest task rows c.0 c.1))
]

pub count-settle_rows :
    (q : Row → Bool) (s : Status) (task : Text) (rows : List Row)
    → is_pending s ≡ false
    → (count (of_task task) (settle_rows q s rows) ≡ count (of_task task) rows)
      × (count (is_waiting task) (settle_rows q s rows) ≤ count (is_waiting task) rows)
unfolding settle_rows
count-settle_rows q s task [] h = (refl, omega arith)
count-settle_rows q s task (r ∷ rows) h = ground (arith, count-settle_rows q s task rows h)

pub count-snoc :
    (p : Row → Bool) (rows : List Row) (r : Row)
    → count p (rows ++ r ∷ []) ≡ count p rows + (if p r then 1 else 0)
count-snoc p [] r = ground arith
count-snoc p (q ∷ rows) r = ground (arith, count-snoc p rows r)

module _ (deps : Dependencies) where
  pub count-make_room :
      (p : Row → Bool) (fuel : ℕ) (task : Text) (extra : ℕ) (rows kept : List Row)
      → make_room deps fuel task extra rows ≡ done kept
      → count p kept ≤ count p rows
  unfolding make_room
  count-make_room p zero task extra rows kept e =
      go (ltb max_bytes (stored_bytes deps task rows + extra)) (evict_oldest task rows) refl e
    where
      go :
          (b : Bool) (o : Option (List Row))
          → evict_oldest task rows ≡ o
          → elim b [
            | false ↦ done rows
            | true ↦ elim o [ none ↦ refuse quota_exceeded | some left ↦ failed other ]
          ]
            ≡ done kept
          → count p kept ≤ count p rows
      go false o f e = ground (arith, e)
      go true none f e = absurd (ground (arith, e))
      go true (some left) f e = absurd (ground (arith, e))
  count-make_room p (suc n) task extra rows kept e =
      go (ltb max_bytes (stored_bytes deps task rows + extra)) (evict_oldest task rows) refl
        (λ left. count-make_room p n task extra left kept) e
    where
      go :
          (b : Bool) (o : Option (List Row))
          → evict_oldest task rows ≡ o
          → ((left : List Row)
              → make_room deps n task extra left ≡ done kept
              → count p kept ≤ count p left)
          → elim b [
            | false ↦ done rows
            | true ↦ elim o [
              | none ↦ refuse quota_exceeded
              | some left ↦ make_room deps n task extra left
            ]
          ]
            ≡ done kept
          → count p kept ≤ count p rows
      go false o f ih e = ground (arith, e)
      go true none f ih e = absurd (ground (arith, e))
      go true (some left) f ih e = omega (arith, ih left e, count-evict_oldest p task rows left f)

  -- The loop ends by itself: with a pass for each row it never runs out of passes, and more change
  -- nothing.
  pub make_room-enough :
      (m n : ℕ) (task : Text) (extra : ℕ) (rows : List Row)
      → length rows ≤ n
      → n ≤ m
      → make_room deps m task extra rows ≡ make_room deps n task extra rows
  unfolding make_room
  make_room-enough zero zero task extra rows h k = refl
  make_room-enough (suc m) zero task extra [] h k = unfold evict_oldest in refl
  make_room-enough (suc m) zero task extra (r ∷ rows) h k = absurd (ground arith)
  make_room-enough zero (suc n) task extra rows h k = absurd (ground arith)
  make_room-enough (suc m) (suc n) task extra rows h k =
      go (ltb max_bytes (stored_bytes deps task rows + extra)) (evict_oldest task rows) refl
        (λ left l. make_room-enough m n task extra left l (omega (arith, k)))
    where
      go :
          (b : Bool) (o : Option (List Row))
          → evict_oldest task rows ≡ o
          → ((left : List Row)
              → length left ≤ n
              → make_room deps m task extra left ≡ make_room deps n task extra left)
          → elim b [
            | false ↦ done rows
            | true ↦ elim o [
              | none ↦ refuse quota_exceeded
              | some left ↦ make_room deps m task extra left
            ]
          ]
            ≡ elim b [
              | false ↦ done rows
              | true ↦ elim o [
                | none ↦ refuse quota_exceeded
                | some left ↦ make_room deps n task extra left
              ]
            ]
      go false o f ih = refl
      go true none f ih = refl
      go true (some left) f ih = ih left (omega (arith, length-evict_oldest task rows left f, h))
