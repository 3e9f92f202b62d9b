-- ===== src/Process/Ownership/Collect.antt =====
-- What the registry collects, against the leases that were opened.
use mathlib.Core.List.{append_assoc}
use codevo_runner.Prelude.{
  ℕ, zero, suc, ◌+◌, ◌≤◌, ◌<◌, ◌≡◌, refl, sym, ap, ◌∙◌, Bool, true, not, ◌&&◌, Option, none, some,
  List, [], ◌∷◌, ◌++◌, arith, ◌==◌, if◌then◌else◌, length, get_elem?, set, length-append, all, keep,
  length-keep, All,
}
use codevo_runner.Process.Ownership.{
  unowned, attach_to, at, selected, all_trees, Scope, Lease, Registry, empty, open_lease, insert,
  without, attach, detach, release, collect, worktree,
}

pub data Op : Type 0 where
  op_open : Scope → Op
  op_attach op_detach : ℕ → ℕ → Op
  op_release : ℕ → Op

unfoldable pub step : Op → Registry → Registry
step (op_open scope) r = (open_lease scope r).0
step (op_attach i tree) r = attach i tree r
step (op_detach i tree) r = detach i tree r
step (op_release i) r = release i r

unfoldable pub run : List Op → Registry → Registry
run [] r = r
run (o ∷ os) r = run os (step o r)

-- The leases that are not released, in the order in which they were opened.
abbrev pub owned : (Scope → Bool) → List Lease → List Lease
owned p heap = keep (λ l. not l.released && p l.scope) heap

abbrev live_from : ℕ → List Lease → List ℕ
live_from n [] = []
live_from n (l ∷ ls) = let rest = live_from (suc n) ls in if l.released then rest else n ∷ rest

pub record Inv (r : Registry) : Type 0 where
  pub live : r.leases ≡ live_from 0 r.heap
  pub sizes : All (λ l. length l.trees ≤ 4) r.heap

live_from-append :
    (n : ℕ) (ls : List Lease) (scope : Scope)
    → live_from n (ls ++ unowned scope ∷ []) ≡ live_from n ls ++ (n + length ls) ∷ []
live_from-append n [] scope = ap (λ k. k ∷ []) {x = n} (omega arith)
live_from-append n (l ∷ ls) scope = go l.released refl (live_from-append (suc n) ls scope)
  where
    eq : suc n + length ls ≡ n + suc (length ls)
    eq = omega arith

    go :
        (b : Bool)
        → l.released ≡ b
        → live_from (suc n) (ls ++ unowned scope ∷ [])
          ≡ live_from (suc n) ls ++ (suc n + length ls) ∷ []
        → live_from n ((l ∷ ls) ++ unowned scope ∷ [])
          ≡ live_from n (l ∷ ls) ++ (n + suc (length ls)) ∷ []
    go b q ih = ground (arith, eq, ap (λ k. live_from (suc n) ls ++ k ∷ []) eq)

-- A lease that changes, and stays as it is in the set.
live_from-set :
    (n : ℕ) (ls : List Lease) (i : ℕ) (l m : Lease)
    → get_elem? ls i ≡ some l
    → m.released ≡ l.released
    → live_from n (set ls i m) ≡ live_from n ls
live_from-set n [] i l m h e = refl
live_from-set n (k ∷ ls) zero l m h e = ground arith
live_from-set n (k ∷ ls) (suc i) l m h e = ground (arith, live_from-set (suc n) ls i l m h e)

without-above : (i n : ℕ) (ls : List Lease) → i < n → without i (live_from n ls) ≡ live_from n ls
without-above i n [] lt = refl
without-above i n (l ∷ ls) lt = ground (arith, without-above i (suc n) ls (omega arith))

live_from-release :
    (n : ℕ) (ls : List Lease) (i : ℕ) (m : Lease)
    → m.released ≡ true
    → live_from n (set ls i m) ≡ without (n + i) (live_from n ls)
live_from-release n [] i m e = refl
live_from-release n (k ∷ ls) zero m e =
    ground (arith, without-above (n + 0) (suc n) ls (omega arith))
live_from-release n (k ∷ ls) (suc i) m e = ground (
  arith,
  live_from-release (suc n) ls i m e,
  ap (λ j. without j (live_from (suc n) ls)) {x = suc n + i} {y = n + suc i} (omega arith),
)

live_from-release_front :
    (ls : List Lease) (i : ℕ) (m : Lease)
    → m.released ≡ true
    → live_from 0 (set ls i m) ≡ without i (live_from 0 ls)
live_from-release_front ls i m e =
    live_from-release 0 ls i m e
    ∙ ap (λ k. without k (live_from 0 ls)) {x = 0 + i} {y = i} (omega arith)

sizes-set :
    (ls : List Lease) (i : ℕ) (m : Lease)
    → length m.trees ≤ 4
    → All (λ l. length l.trees ≤ 4) ls
    → All (λ l. length l.trees ≤ 4) (set ls i m)
sizes-set [] i m h hs = tt
sizes-set (l ∷ ls) zero m h hs = (h, hs.1)
sizes-set (l ∷ ls) (suc i) m h hs = (hs.0, sizes-set ls i m h hs.1)

sizes-get :
    (ls : List Lease) (i : ℕ) (l : Lease)
    → All (λ l. length l.trees ≤ 4) ls
    → get_elem? ls i ≡ some l
    → length l.trees ≤ 4
sizes-get [] i l hs h = cc
sizes-get (k ∷ ls) zero l hs h = ground arith
sizes-get (k ∷ ls) (suc i) l hs h = sizes-get ls i l hs.1 h

sizes-append :
    (ls : List Lease) (scope : Scope)
    → All (λ l. length l.trees ≤ 4) ls
    → All (λ l. length l.trees ≤ 4) (ls ++ unowned scope ∷ [])
sizes-append [] scope h = (omega arith, tt)
sizes-append (l ∷ ls) scope h = (h.0, sizes-append ls scope h.1)

length-insert : (x : ℕ) (xs : List ℕ) → length (insert x xs) ≤ length xs + 1
length-insert x xs = ground (arith, length-append xs (x ∷ []))

-- A lease that changes as `f` says, which keeps it released or not and within its size.
at-Inv :
    (f : Lease → Lease) (i : ℕ) (r : Registry)
    → ((l : Lease) → length l.trees ≤ 4 → (length (f l).trees ≤ 4) × ((f l).released ≡ l.released))
    → Inv r
    → Inv (at f i r)
at-Inv f i r hf h = go (get_elem? r.heap i) refl
  where
    go :
        (o : Option Lease)
        → get_elem? r.heap i ≡ o
        → Inv (elim o as (λ _. Registry) [
          | none ↦ r
          | some l ↦ record r { heap = set r.heap i (f l) }
        ])
    go none e = h
    go (some l) e =
        let kept = hf l (sizes-get r.heap i l h.sizes e) in
        record {
          live = h.live ∙ sym (live_from-set 0 r.heap i l (f l) e kept.1);
          sizes = sizes-set r.heap i (f l) kept.0 h.sizes;
        }

set-none : (ls : List Lease) (i : ℕ) (m : Lease) → get_elem? ls i ≡ none → set ls i m ≡ ls
set-none [] i m h = refl
set-none (l ∷ ls) zero m h = ground arith
set-none (l ∷ ls) (suc i) m h = ap (λ r. l ∷ r) (set-none ls i m h)

abbrev dead : Lease → Lease
dead l = record l { released = true; trees = [] }

release-Inv : (i : ℕ) (r : Registry) → Inv r → Inv (release i r)
unfolding release
release-Inv i r h = go (get_elem? r.heap i) refl
  where
    gone : Lease
    gone = dead (unowned (record { conversation_id = []; project_id = []; isolation = worktree }))

    go :
        (o : Option Lease)
        → get_elem? r.heap i ≡ o
        → let r1 : Registry = elim o as (λ _. Registry) [
          | none ↦ r
          | some l ↦ record r { heap = set r.heap i (dead l) }
        ] in
          Inv (record r1 { leases = without i r1.leases })
    go none e = record {
      live =
          ap (without i) h.live
          ∙ sym (live_from-release_front r.heap i gone refl)
          ∙ ap (live_from 0) (set-none r.heap i gone e);
      sizes = h.sizes;
    }
    go (some l) e = record {
      live = ap (without i) h.live ∙ sym (live_from-release_front r.heap i (dead l) refl);
      sizes = sizes-set r.heap i (dead l) (omega arith) h.sizes;
    }

pub step-Inv : (o : Op) (r : Registry) → Inv r → Inv (step o r)
unfolding step open_lease attach detach
step-Inv (op_open scope) r h = record {
  live =
      ap (λ is. is ++ length r.heap ∷ []) h.live
      ∙ ap (λ k. live_from 0 r.heap ++ k ∷ []) {x = length r.heap} {y = 0 + length r.heap}
          (omega arith)
      ∙ sym (live_from-append 0 r.heap scope);
  sizes = sizes-append r.heap scope h.sizes;
}
step-Inv (op_attach i tree) r h =
    at-Inv (attach_to tree) i r
      (λ l hl. unfold attach_to in ground (arith, length-insert tree l.trees)) h
step-Inv (op_detach i tree) r h =
    at-Inv (λ l. record l { trees = without tree l.trees }) i r
      (λ l hl. (ground (arith, length-keep (λ y. not (y == tree)) l.trees), refl)) h
step-Inv (op_release i) r h = release-Inv i r h

get_elem?-length :
    (before : List Lease) (l : Lease) (ls : List Lease)
    → get_elem? (before ++ l ∷ ls) (length before) ≡ some l
get_elem?-length [] l ls = refl
get_elem?-length (k ∷ before) l ls = get_elem?-length before l ls

selected-live :
    (p : Scope → Bool) (before ls : List Lease)
    → selected p (before ++ ls) (live_from (length before) ls) ≡ owned p ls
selected-live p before [] = refl
selected-live p before (l ∷ ls) =
    let ih : selected p (before ++ l ∷ ls) (live_from (suc (length before)) ls) ≡ owned p ls =
      sym (
        ap (λ b. selected p b (live_from (suc (length before)) ls))
          (append_assoc before (l ∷ []) ls))
      ∙ ap (λ k. selected p ((before ++ l ∷ []) ++ ls) (live_from k ls)) {x = suc (length before)}
          (omega (arith, length-append before (l ∷ [])))
      ∙ selected-live p (before ++ l ∷ []) ls in
    ground (arith, ih, get_elem?-length before l ls)

run-Inv : (os : List Op) (r : Registry) → Inv r → Inv (run os r)
unfolding run
run-Inv [] r h = h
run-Inv (o ∷ os) r h = run-Inv os (step o r) (step-Inv o r h)

empty-Inv : Inv empty
unfolding empty
empty-Inv = record { live = refl; sizes = tt }

-- After any sequence of calls, what is collected is exactly what the leases that match and are not
-- released hold, in the order in which they were opened; it is complete exactly when none of them
-- has overflowed; and no lease holds more than four trees.
pub collect-owned :
    (os : List Op) (p : Scope → Bool)
    → let r = run os empty in
      ((collect p r).trees ≡ all_trees (owned p r.heap))
      × ((collect p r).complete ≡ all (λ l. not l.overflow) (owned p r.heap))
      × All (λ l. length l.trees ≤ 4) r.heap
unfolding collect
collect-owned os p =
    let h = run-Inv os empty empty-Inv in
    let r = run os empty in
    let e = ap (selected p r.heap) h.live ∙ selected-live p [] r.heap in
    (ap all_trees e, ap (all (λ l. not l.overflow)) e, h.sizes)
