-- ===== src/Delivery/Claims.antt =====
-- The claims of the running turn on waiting messages, of src/infrastructure/sqlite/steering-database.ts,
-- and what one write to either table does to them.
use mathlib.Core.Path.{subst}
use codevo_runner.Prelude.{
  ◌≡◌, refl, ◌∙◌, ◌⊎◌, inl, inr, Bool, true, false, Option, none, some, List, [], ◌∷◌, ◌++◌, arith,
  Bool-cases, any, keep, All, Text, text_eq, eq_of_text_eq, text_eq_sym,
}
use codevo_runner.Delivery.{
  Message, Row, SteerRow, is_dispatched, is_for, is_claimed, set_payload, dispatched,
}
use codevo_runner.Delivery.Rows.{
  lookup, Unique, lookup-set_payload, lookup-set_payload-same, Unique-set_payload, lookup-append,
  Unique-append,
}
use codevo_runner.Delivery.Steering.{steer_collides}

-- What the table of messages says of a claimed one.
abbrev pub HasClaim : Option Message → Bool → Text → Type 0
HasClaim none accepted task = ⊥
HasClaim (some m) true task = (m.status ≡ dispatched) × (m.task_id ≡ some task)
HasClaim (some m) false task = is_dispatched m.status ≡ false

abbrev pub ClaimOf : Option Text → Bool → Text → List Row → Type 0
ClaimOf none accepted task rows = Unit
ClaimOf (some p) accepted task rows = HasClaim (lookup p rows) accepted task

abbrev pub Claimed : List Row → SteerRow → Type 0
Claimed rows s = ClaimOf s.pending_id s.accepted s.task_id rows

-- Ids, and the messages that claims are for, are UNIQUE.
abbrev pub Distinct : List SteerRow → Type 0
Distinct [] = Unit
Distinct (s ∷ ss) = (any (steer_collides s.id s.key s.pending_id) ss ≡ false) × Distinct ss

pub record Inv (rows : List Row) (steering : List SteerRow) : Type 0 where
  pub unique : Unique rows
  pub distinct : Distinct steering
  pub claims : All (Claimed rows) steering

-- A message that has been dispatched is never written again.
abbrev pub Keeps : List Row → List Row → Type 0
Keeps rows rows1 =
    (p : Text) (m : Message)
    → lookup p rows ≡ some m
    → m.status ≡ dispatched
    → lookup p rows1 ≡ some m

abbrev pub Good : List Row → List Row → List SteerRow → Type 0
Good rows rows1 steering = Inv rows1 steering × Keeps rows rows1

pub unchanged :
    {rows : List Row} {steering : List SteerRow} → Inv rows steering → Good rows rows steering
unchanged h = (h, λ p m e d. e)

-- A new message.
ClaimOf-append :
    (p : Option Text) (accepted : Bool) (task : Text) (rows : List Row) (r : Row)
    → ClaimOf p accepted task rows
    → ClaimOf p accepted task (rows ++ r ∷ [])
ClaimOf-append none accepted task rows r h = h
ClaimOf-append (some p) accepted task rows r h = go (lookup p rows) refl h
  where
    go :
        (o : Option Message)
        → lookup p rows ≡ o
        → HasClaim o accepted task
        → HasClaim (lookup p (rows ++ r ∷ [])) accepted task
    go none e k = elim k [ ]
    go (some m) e k = rw (lookup-append p rows (r ∷ []) m e) k

All-ClaimOf-append :
    (ss : List SteerRow) (rows : List Row) (r : Row)
    → All (Claimed rows) ss
    → All (Claimed (rows ++ r ∷ [])) ss
All-ClaimOf-append [] rows r h = tt
All-ClaimOf-append (s ∷ ss) rows r h =
    (ClaimOf-append s.pending_id s.accepted s.task_id rows r h.0, All-ClaimOf-append ss rows r h.1)

pub append-Good :
    (rows : List Row) (steering : List SteerRow) (r : Row)
    → any (λ q. text_eq q.id r.id) rows ≡ false
    → r.payload.id ≡ r.id
    → Inv rows steering
    → Good rows (rows ++ r ∷ []) steering
append-Good rows steering r n e h = (
  record {
    unique = Unique-append rows r n e h.unique;
    distinct = h.distinct;
    claims = All-ClaimOf-append steering rows r h.claims;
  },
  λ p m l d. lookup-append p rows (r ∷ []) m l,
)

-- A message that is written anew: it was not dispatched, and is so now only if nobody has a claim.
ClaimOf-write :
    (p : Option Text) (accepted : Bool) (task : Text) (rows : List Row) (m old : Message)
    → lookup m.id rows ≡ some old
    → is_dispatched old.status ≡ false
    → (is_dispatched m.status ≡ false) ⊎ (is_for m.id p ≡ false)
    → ClaimOf p accepted task rows
    → ClaimOf p accepted task (set_payload m m.id rows)
ClaimOf-write none accepted task rows m old l d f h = tt
ClaimOf-write (some p) accepted task rows m old l d f h =
    go (Bool-cases (text_eq m.id p)) f accepted h
  where
    go :
        (text_eq m.id p ≡ true) ⊎ (text_eq m.id p ≡ false)
        → (is_dispatched m.status ≡ false) ⊎ (text_eq p m.id ≡ false)
        → (accepted : Bool) → HasClaim (lookup p rows) accepted task
        → HasClaim (lookup p (set_payload m m.id rows)) accepted task
    go (inr e) f a k = rw (lookup-set_payload m m.id p rows e) k
    go (inl e) (inr n) a k = absurd (ground (arith, text_eq_sym m.id p))
    go (inl e) (inl n) a k =
        subst
          (λ p.
            HasClaim (lookup p rows) a task → HasClaim (lookup p (set_payload m m.id rows)) a task)
          (eq_of_text_eq m.id p e)
          (λ c.
            rw (lookup-set_payload-same m old m.id rows l)
              (fresh a (subst (λ o. HasClaim o a task) l c)))
          k
      where
        fresh : (a : Bool) → HasClaim (some old) a task → HasClaim (some m) a task
        fresh true c = absurd (ground (arith, c.0))
        fresh false c = n

All-ClaimOf-write :
    (ss : List SteerRow) (rows : List Row) (m old : Message)
    → lookup m.id rows ≡ some old
    → is_dispatched old.status ≡ false
    → (is_dispatched m.status ≡ false) ⊎ (is_claimed ss m.id ≡ false)
    → All (Claimed rows) ss
    → All (Claimed (set_payload m m.id rows)) ss
unfolding is_claimed
All-ClaimOf-write [] rows m old l d f h = tt
All-ClaimOf-write (s ∷ ss) rows m old l d f h = (
  ClaimOf-write s.pending_id s.accepted s.task_id rows m old l d (split f).0 h.0,
  All-ClaimOf-write ss rows m old l d (split f).1 h.1,
)
  where
    split :
        (is_dispatched m.status ≡ false) ⊎ (any (λ s. is_for m.id s.pending_id) (s ∷ ss) ≡ false)
        → ((is_dispatched m.status ≡ false) ⊎ (is_for m.id s.pending_id ≡ false))
          × ((is_dispatched m.status ≡ false) ⊎ (any (λ s. is_for m.id s.pending_id) ss ≡ false))
    split (inl e) = (inl e, inl e)
    split (inr e) = (inr (ground arith), inr (ground arith))

pub write-Good :
    (rows : List Row) (steering : List SteerRow) (m old : Message)
    → lookup m.id rows ≡ some old
    → is_dispatched old.status ≡ false
    → (is_dispatched m.status ≡ false) ⊎ (is_claimed steering m.id ≡ false)
    → Inv rows steering
    → Good rows (set_payload m m.id rows) steering
write-Good rows steering m old l d f h = (
  record {
    unique = Unique-set_payload m rows h.unique;
    distinct = h.distinct;
    claims = All-ClaimOf-write steering rows m old l d f h.claims;
  },
  keeps,
)
  where
    keeps : Keeps rows (set_payload m m.id rows)
    keeps p n e k = go (Bool-cases (text_eq m.id p))
      where
        go :
            (text_eq m.id p ≡ true) ⊎ (text_eq m.id p ≡ false)
            → lookup p (set_payload m m.id rows) ≡ some n
        go (inr t) = lookup-set_payload m m.id p rows t ∙ e
        go (inl t) =
            let l1 : lookup p rows ≡ some old =
              subst (λ p. lookup p rows ≡ some old) (eq_of_text_eq m.id p t) l in
            absurd (ground (arith, e, l1, k, d))

-- A new claim.
is_for-sym : (p q : Text) → is_for p (some q) ≡ is_for q (some p)
is_for-sym p q = text_eq_sym q p

abbrev pub collide : SteerRow → SteerRow → Bool
collide s t = steer_collides s.id s.key s.pending_id t

pub collide-sym : (s t : SteerRow) → collide s t ≡ false → collide t s ≡ false
collide-sym s t h = go s.pending_id t.pending_id refl refl
  where
    go : (p q : Option Text) → s.pending_id ≡ p → t.pending_id ≡ q → collide t s ≡ false
    go none none e f = ground (arith, text_eq_sym s.id t.id, text_eq_sym s.key t.key)
    go none (some q) e f = ground (arith, text_eq_sym s.id t.id, text_eq_sym s.key t.key)
    go (some p) none e f = ground (arith, text_eq_sym s.id t.id, text_eq_sym s.key t.key)
    go (some p) (some q) e f =
        ground (arith, text_eq_sym s.id t.id, text_eq_sym s.key t.key, text_eq_sym p q)

Distinct-append :
    (ss : List SteerRow) (t : SteerRow)
    → any (collide t) ss ≡ false
    → Distinct ss
    → Distinct (ss ++ t ∷ [])
Distinct-append [] t n h = (refl, tt)
Distinct-append (s ∷ ss) t n h =
    let n0 : collide t s ≡ false = ground arith in
    let n1 : any (collide t) ss ≡ false = ground arith in
    (any_append ss h.0 (collide-sym t s n0), Distinct-append ss t n1 h.1)
  where
    any_append :
        (rs : List SteerRow)
        → any (collide s) rs ≡ false
        → collide s t ≡ false
        → any (collide s) (rs ++ t ∷ []) ≡ false
    any_append [] e k = ground arith
    any_append (r ∷ rs) e k = ground (arith, any_append rs)

All-append :
    (P : SteerRow → Type 0) (ss : List SteerRow) (t : SteerRow)
    → All P ss
    → P t
    → All P (ss ++ t ∷ [])
All-append P [] t h k = (k, tt)
All-append P (s ∷ ss) t h k = (h.0, All-append P ss t h.1 k)

pub claim-Good :
    (rows : List Row) (steering : List SteerRow) (t : SteerRow)
    → any (collide t) steering ≡ false
    → Claimed rows t
    → Inv rows steering
    → Good rows rows (steering ++ t ∷ [])
claim-Good rows steering t n c h = (
  record {
    unique = h.unique;
    distinct = Distinct-append steering t n h.distinct;
    claims = All-append (Claimed rows) steering t h.claims c;
  },
  λ p m e d. e,
)

-- A claim that is given back.
any-keep :
    {A : Type 0} (p q : A → Bool) (xs : List A) → any p xs ≡ false → any p (keep q xs) ≡ false
any-keep p q [] h = refl
any-keep p q (x ∷ xs) h = ground (arith, any-keep p q xs)

All-keep : {A : Type 0} (P : A → Type 0) (q : A → Bool) (xs : List A) → All P xs → All P (keep q xs)
All-keep P q [] h = tt
All-keep P q (x ∷ xs) h = go (q x) (All-keep P q xs h.1)
  where
    go :
        (b : Bool) → All P (keep q xs) → All P (elim b [ true ↦ x ∷ keep q xs | false ↦ keep q xs ])
    go true k = (h.0, k)
    go false k = k

Distinct-keep : (q : SteerRow → Bool) (ss : List SteerRow) → Distinct ss → Distinct (keep q ss)
Distinct-keep q [] h = tt
Distinct-keep q (s ∷ ss) h = go (q s) (Distinct-keep q ss h.1)
  where
    go :
        (b : Bool)
        → Distinct (keep q ss)
        → Distinct (elim b [ true ↦ s ∷ keep q ss | false ↦ keep q ss ])
    go true k = (any-keep (collide s) q ss h.0, k)
    go false k = k

pub keep-Good :
    (rows : List Row) (steering : List SteerRow) (q : SteerRow → Bool)
    → Inv rows steering
    → Good rows rows (keep q steering)
keep-Good rows steering q h = (
  record {
    unique = h.unique;
    distinct = Distinct-keep q steering h.distinct;
    claims = All-keep (Claimed rows) q steering h.claims;
  },
  λ p m e d. e,
)
