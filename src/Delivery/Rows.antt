-- ===== src/Delivery/Rows.antt =====
-- The table of messages of src/infrastructure/sqlite/pending-database.ts as a map from ids: what its
-- writes do to it.
use mathlib.Core.Path.{subst}
use codevo_runner.Prelude.{
  ◌≡◌, refl, sym, ap, ◌∙◌, ◌⊎◌, inl, inr, Bool, true, false, Option, none, some, List, [], ◌∷◌,
  ◌++◌, arith, if◌then◌else◌, Bool-cases, any, find, Text, text_eq, text_eq_refl, eq_of_text_eq,
  text_eq_sym,
}
use codevo_runner.Delivery.{Message, Row, set_payload}

-- The payload of the row with an id.
unfoldable pub lookup : Text → List Row → Option Message
lookup p [] = none
lookup p (r ∷ rows) = let rest = lookup p rows in if text_eq r.id p then some r.payload else rest

-- Ids are UNIQUE, and a payload has its row's.
abbrev pub Unique : List Row → Type 0
Unique [] = Unit
Unique (r ∷ rows) = (lookup r.id rows ≡ none) × (r.payload.id ≡ r.id) × Unique rows

pub lookup-set_payload :
    (m : Message) (q p : Text) (rows : List Row)
    → text_eq q p ≡ false
    → lookup p (set_payload m q rows) ≡ lookup p rows
unfolding lookup set_payload
lookup-set_payload m q p [] h = refl
lookup-set_payload m q p (r ∷ rows) h = elim (Bool-cases (text_eq r.id q)) [
  | inl e ↦
      let same : r.id ≡ q = eq_of_text_eq r.id q e in
      ground (arith, lookup-set_payload m q p rows h, ap (λ i. text_eq i p) same)
  | inr e ↦ ground (arith, lookup-set_payload m q p rows h)
]

pub lookup-set_payload-same :
    (m n : Message) (q : Text) (rows : List Row)
    → lookup q rows ≡ some n
    → lookup q (set_payload m q rows) ≡ some m
unfolding lookup set_payload
lookup-set_payload-same m n q [] h = cc
lookup-set_payload-same m n q (r ∷ rows) h = ground (arith, lookup-set_payload-same m n q rows)

pub lookup-set_payload-none :
    (m : Message) (q p : Text) (rows : List Row)
    → lookup p rows ≡ none
    → lookup p (set_payload m q rows) ≡ none
unfolding lookup set_payload
lookup-set_payload-none m q p [] h = refl
lookup-set_payload-none m q p (r ∷ rows) h = ground (arith, lookup-set_payload-none m q p rows)

pub Unique-set_payload :
    (m : Message) (rows : List Row) → Unique rows → Unique (set_payload m m.id rows)
unfolding set_payload
Unique-set_payload m [] h = tt
Unique-set_payload m (r ∷ rows) h =
    go (Unique-set_payload m rows h.2) (Bool-cases (text_eq r.id m.id))
  where
    go :
        Unique (set_payload m m.id rows)
        → (text_eq r.id m.id ≡ true) ⊎ (text_eq r.id m.id ≡ false)
        → Unique (set_payload m m.id (r ∷ rows))
    go ih (inl e) =
        rw e (lookup-set_payload-none m m.id r.id rows h.0, sym (eq_of_text_eq r.id m.id e), ih)
    go ih (inr e) = rw e (lookup-set_payload-none m m.id r.id rows h.0, h.1, ih)

pub lookup-append :
    (p : Text) (rows more : List Row) (m : Message)
    → lookup p rows ≡ some m
    → lookup p (rows ++ more) ≡ some m
unfolding lookup
lookup-append p [] more m h = cc
lookup-append p (r ∷ rows) more m h = ground (arith, lookup-append p rows more m)

lookup-append-none :
    (p : Text) (rows : List Row) (r : Row)
    → lookup p rows ≡ none
    → text_eq r.id p ≡ false
    → lookup p (rows ++ r ∷ []) ≡ none
unfolding lookup
lookup-append-none p [] r h e = ground arith
lookup-append-none p (q ∷ rows) r h e = ground (arith, lookup-append-none p rows r)

pub Unique-append :
    (rows : List Row) (r : Row)
    → any (λ q. text_eq q.id r.id) rows ≡ false
    → r.payload.id ≡ r.id
    → Unique rows
    → Unique (rows ++ r ∷ [])
unfolding lookup
Unique-append [] r n e h = (refl, e, tt)
Unique-append (q ∷ rows) r n e h =
    let n1 : text_eq q.id r.id ≡ false = ground arith in
    let n2 : any (λ q. text_eq q.id r.id) rows ≡ false = ground arith in
    (
      lookup-append-none q.id rows r h.0 (text_eq_sym r.id q.id ∙ n1),
      h.1,
      Unique-append rows r n2 e h.2,
    )

-- A row that a query finds is the one its id has.
pub lookup-find :
    (p : Row → Bool) (rows : List Row) (r : Row)
    → find p rows ≡ some r
    → Unique rows
    → (lookup r.id rows ≡ some r.payload) × (r.payload.id ≡ r.id)
unfolding lookup
lookup-find p [] r e h = cc
lookup-find p (q ∷ rows) r e h =
    go (λ e1. lookup-find p rows r e1 h.2) (Bool-cases (p q)) (Bool-cases (text_eq q.id r.id))
  where
    go :
        (find p rows ≡ some r → (lookup r.id rows ≡ some r.payload) × (r.payload.id ≡ r.id))
        → (p q ≡ true) ⊎ (p q ≡ false)
        → (text_eq q.id r.id ≡ true) ⊎ (text_eq q.id r.id ≡ false)
        → (lookup r.id (q ∷ rows) ≡ some r.payload) × (r.payload.id ≡ r.id)
    go ih (inl t) same =
        let e1 : q ≡ r = ground arith in
        subst (λ r. (lookup r.id (q ∷ rows) ≡ some r.payload) × (r.payload.id ≡ r.id)) e1
          (rw (text_eq_refl q.id) refl, h.1)
    go ih (inr t) (inl s) =
        let e1 : find p rows ≡ some r = ground arith in
        let e2 : lookup r.id rows ≡ none =
          subst (λ i. lookup i rows ≡ none) (eq_of_text_eq q.id r.id s) h.0 in
        let e3 = (ih e1).0 in absurd (ground arith)
    go ih (inr t) (inr s) =
        let e1 : find p rows ≡ some r = ground arith in (rw s (ih e1).0, (ih e1).1)

pub find-true : {A : Type 0} (p : A → Bool) (xs : List A) (x : A) → find p xs ≡ some x → p x ≡ true
find-true p [] x e = cc
find-true p (y ∷ xs) x e = go (Bool-cases (p y)) (find-true p xs x)
  where
    go : (p y ≡ true) ⊎ (p y ≡ false) → (find p xs ≡ some x → p x ≡ true) → p x ≡ true
    go (inl t) ih = let e1 : y ≡ x = ground arith in subst (λ y. p y ≡ true) e1 t
    go (inr t) ih = ih (ground arith)
