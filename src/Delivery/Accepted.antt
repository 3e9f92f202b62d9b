-- ===== src/Delivery/Accepted.antt =====
-- What `acceptSteer` of src/infrastructure/sqlite/steering-database.ts does to the claims and messages.
use mathlib.Core.Path.{subst}
use codevo_runner.Prelude.{
  ◌≡◌, refl, sym, ap, ◌∙◌, ◌⊎◌, inl, inr, Bool, true, false, Option, none, some, List, [], ◌∷◌,
  arith, Bool-cases, any, find, All, Text, text_eq, text_eq_refl, eq_of_text_eq, text_eq_sym,
}
use codevo_runner.Delivery.{Message, Row, SteerRow, set_payload, dispatched}
use codevo_runner.Delivery.Rows.{
  lookup, lookup-set_payload, lookup-set_payload-same, Unique-set_payload,
}
use codevo_runner.Delivery.Settling.{is_claim, set_accepted}
use codevo_runner.Delivery.Claims.{
  HasClaim, ClaimOf, Claimed, Distinct, Inv, Keeps, Good, collide, collide-sym,
}

-- The message that an accepted claim is for, written by the acceptance.
abbrev pub written : Message → Text → Message
written m task = record m { status = dispatched; task_id = some task }

-- Other claims are for other messages.
Claimed-other :
    (rows : List Row) (m : Message) (s t : SteerRow)
    → s.pending_id ≡ some m.id
    → collide s t ≡ false
    → Claimed rows t
    → Claimed (set_payload m m.id rows) t
Claimed-other rows m s t e c h = go t.pending_id refl h
  where
    go :
        (q : Option Text)
        → t.pending_id ≡ q
        → ClaimOf q t.accepted t.task_id rows
        → ClaimOf q t.accepted t.task_id (set_payload m m.id rows)
    go none f k = tt
    go (some q) f k = rw (lookup-set_payload m m.id q rows (ground (arith, text_eq_sym m.id q))) k

-- The rows after the acceptance of a claim, under what every other claim keeps.
set_accepted-All :
    (rows rows1 : List Row) (s : SteerRow) (ss : List SteerRow)
    → ((t : SteerRow) → collide s t ≡ false → Claimed rows t → Claimed rows1 t)
    → any (collide s) ss ≡ false
    → All (Claimed rows) ss
    → All (Claimed rows1) (set_accepted s.id ss)
unfolding set_accepted
set_accepted-All rows rows1 s [] f n h = tt
set_accepted-All rows rows1 s (t ∷ ss) f n h =
    let e : text_eq t.id s.id ≡ false = ground arith in
    let n0 : collide s t ≡ false = ground arith in
    let n1 : any (collide s) ss ≡ false = ground arith in
    rw e (f t n0 h.0, set_accepted-All rows rows1 s ss f n1 h.1)

any-find :
    {A : Type 0} (p q : A → Bool) (xs : List A) (x : A)
    → find p xs ≡ some x
    → any q xs ≡ false
    → q x ≡ false
any-find p q [] x e n = cc
any-find p q (y ∷ xs) x e n = go (Bool-cases (p y)) (λ f k. any-find p q xs x f k)
  where
    go :
        (p y ≡ true) ⊎ (p y ≡ false)
        → (find p xs ≡ some x → any q xs ≡ false → q x ≡ false)
        → q x ≡ false
    go (inl t) ih = let e1 : y ≡ x = ground arith in subst (λ y. q y ≡ false) e1 (ground arith)
    go (inr t) ih = ih (ground arith) (ground arith)

pub accepted-All :
    (rows rows1 : List Row) (id : Text) (s : SteerRow) (ss : List SteerRow)
    → find (is_claim id s.id) ss ≡ some s
    → ((t : SteerRow) → collide s t ≡ false → Claimed rows t → Claimed rows1 t)
    → Claimed rows1 (record s { accepted = true })
    → Distinct ss
    → All (Claimed rows) ss
    → All (Claimed rows1) (set_accepted s.id ss)
unfolding set_accepted
accepted-All rows rows1 id s [] e f k d h = tt
accepted-All rows rows1 id s (t ∷ ss) e f k d h =
    go (Bool-cases (is_claim id s.id t)) (λ g. accepted-All rows rows1 id s ss g f k d.1 h.1)
  where
    go :
        (is_claim id s.id t ≡ true) ⊎ (is_claim id s.id t ≡ false)
        → (find (is_claim id s.id) ss ≡ some s → All (Claimed rows1) (set_accepted s.id ss))
        → All (Claimed rows1) (set_accepted s.id (t ∷ ss))
    go (inl c) ih =
        let e1 : t ≡ s = ground arith in
        let n : any (collide s) ss ≡ false = subst (λ t. any (collide t) ss ≡ false) e1 d.0 in
        subst (λ t. All (Claimed rows1) (set_accepted s.id (t ∷ ss))) (sym e1)
          (rw (text_eq_refl s.id) (k, set_accepted-All rows rows1 s ss f n h.1))
    go (inr c) ih =
        let e1 : find (is_claim id s.id) ss ≡ some s = ground arith in
        let n : collide t s ≡ false = any-find (is_claim id s.id) (collide t) ss s e1 d.0 in
        let n1 : collide s t ≡ false = collide-sym t s n in
        let e2 : text_eq t.id s.id ≡ false = ground arith in rw e2 (f t n1 h.0, ih e1)

Distinct-set_accepted :
    (id : Text) (ss : List SteerRow) → Distinct ss → Distinct (set_accepted id ss)
unfolding set_accepted
Distinct-set_accepted id [] h = tt
Distinct-set_accepted id (s ∷ ss) h =
    go (Bool-cases (text_eq s.id id)) (Distinct-set_accepted id ss h.1)
  where
    same :
        (rs : List SteerRow)
        → any (collide s) rs ≡ false
        → any (collide s) (set_accepted id rs) ≡ false
    same [] e = refl
    same (r ∷ rs) e = ground (arith, same rs)

    go :
        (text_eq s.id id ≡ true) ⊎ (text_eq s.id id ≡ false)
        → Distinct (set_accepted id ss)
        → Distinct (set_accepted id (s ∷ ss))
    go (inl e) k = rw e (same ss h.0, k)
    go (inr e) k = rw e (same ss h.0, k)

All-find :
    {A : Type 0} (P : A → Type 0) (p : A → Bool) (xs : List A) (x : A)
    → find p xs ≡ some x
    → All P xs
    → P x
All-find P p [] x e h = cc
All-find P p (y ∷ xs) x e h = go (Bool-cases (p y)) (λ f. All-find P p xs x f h.1)
  where
    go : (p y ≡ true) ⊎ (p y ≡ false) → (find p xs ≡ some x → P x) → P x
    go (inl t) ih = let e1 : y ≡ x = ground arith in subst P e1 h.0
    go (inr t) ih = ih (ground arith)

-- Accepting a claim that is for no message.
pub accept_input-Good :
    (rows : List Row) (id : Text) (s : SteerRow) (ss : List SteerRow)
    → find (is_claim id s.id) ss ≡ some s
    → s.pending_id ≡ none
    → Inv rows ss
    → Good rows rows (set_accepted s.id ss)
accept_input-Good rows id s ss f i h = (
  record {
    unique = h.unique;
    distinct = Distinct-set_accepted s.id ss h.distinct;
    claims =
        accepted-All rows rows id s ss f (λ t n c. c)
          (subst (λ p. ClaimOf p true s.task_id rows) (sym i) tt) h.distinct h.claims;
  },
  λ p m e d. e,
)

-- Accepting the claim on a message.
pub accept_message-Good :
    (rows : List Row) (id : Text) (s : SteerRow) (ss : List SteerRow) (m : Message)
    → find (is_claim id s.id) ss ≡ some s
    → s.task_id ≡ id
    → s.pending_id ≡ some m.id
    → lookup m.id rows ≡ some m
    → Inv rows ss
    → Good rows (set_payload (written m id) m.id rows) (set_accepted s.id ss)
accept_message-Good rows id s ss m f t i l h = (
  record {
    unique = Unique-set_payload (written m id) rows h.unique;
    distinct = Distinct-set_accepted s.id ss h.distinct;
    claims =
        accepted-All rows rows1 id s ss f (λ r n c. Claimed-other rows (written m id) s r i n c)
          (subst (λ p. ClaimOf p true s.task_id rows1) (sym i) (rw now (refl, ap some (sym t))))
          h.distinct h.claims;
  },
  keeps,
)
  where
    rows1 : List Row
    rows1 = set_payload (written m id) m.id rows

    now : lookup m.id rows1 ≡ some (written m id)
    now = lookup-set_payload-same (written m id) m m.id rows l

    -- The claim, as it was.
    was : HasClaim (some m) s.accepted s.task_id
    was =
        subst (λ o. HasClaim o s.accepted s.task_id) l
          (subst (λ p. ClaimOf p s.accepted s.task_id rows) i
            (All-find (Claimed rows) (is_claim id s.id) ss s f h.claims))

    again : (b : Bool) → HasClaim (some m) b s.task_id → m.status ≡ dispatched → written m id ≡ m
    again true c d = ground (arith, c.1, t)
    again false c d = absurd (ground arith)

    keeps : Keeps rows rows1
    keeps p n e d = go (Bool-cases (text_eq m.id p))
      where
        go : (text_eq m.id p ≡ true) ⊎ (text_eq m.id p ≡ false) → lookup p rows1 ≡ some n
        go (inr k) = lookup-set_payload (written m id) m.id p rows k ∙ e
        go (inl k) =
            let same : m.id ≡ p = eq_of_text_eq m.id p k in
            let e1 : m ≡ n = ground (arith, e, l, same) in
            subst (λ p. lookup p rows1 ≡ some n) same
              (now
                ∙ ap some
                    (again s.accepted was (subst (λ n. n.status ≡ dispatched) (sym e1) d) ∙ e1))
