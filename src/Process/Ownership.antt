-- ===== src/Process/Ownership.antt =====
-- src/application/process-ownership.ts: `ProcessOwnershipRegistry`. A lease is an object, so the
-- model keeps every lease that was opened in `heap`, at the index that stands for its identity; the
-- registry's set holds such indices in the order of insertion. A tree is known by its identity.
pub mod Collect
use codevo_runner.Prelude.{
  ℕ, Bool, true, false, not, ◌&&◌, none, some, List, [], ◌∷◌, ◌++◌, ltb, leb, ◌==◌, if◌then◌else◌,
  length, get_elem?, set, any, all, keep, Text, text_eq,
}

abbrev trees_per_lease : ℕ
trees_per_lease = 4

pub data Isolation : Type 0 where
  in_place worktree : Isolation

pub record Scope : Type 0 where
  pub conversation_id : Text
  pub project_id : Text
  pub isolation : Isolation

pub record Lease : Type 0 where
  pub scope : Scope
  pub trees : List ℕ
  pub overflow : Bool
  pub released : Bool

pub record Registry : Type 0 where
  pub heap : List Lease
  pub leases : List ℕ

pub record OwnedTrees : Type 0 where
  pub trees : List ℕ
  pub complete : Bool

unfoldable pub empty : Registry
empty = record { heap = []; leases = [] }

abbrev unowned : Scope → Lease
unowned scope = record { scope = scope; trees = []; overflow = false; released = false }

-- `open`; the lease's identity is returned.
unfoldable pub open_lease : Scope → Registry → Registry × ℕ
open_lease scope r =
    let i = length r.heap in
    (record { heap = r.heap ++ unowned scope ∷ []; leases = r.leases ++ i ∷ [] }, i)

-- `Set.add` and `Set.delete`.
abbrev pub insert : ℕ → List ℕ → List ℕ
insert x xs = if any (λ y. y == x) xs then xs else xs ++ x ∷ []

abbrev pub without : ℕ → List ℕ → List ℕ
without x xs = keep (λ y. not (y == x)) xs

attach_to : ℕ → Lease → Lease
attach_to tree l =
    if l.released
    then l
    else if leb trees_per_lease (length l.trees)
    then record l { overflow = true }
    else record l { trees = insert tree l.trees }

abbrev at : (Lease → Lease) → ℕ → Registry → Registry
at f i r = elim (get_elem? r.heap i) [ none ↦ r | some l ↦ record r { heap = set r.heap i (f l) } ]

-- `attach`.
unfoldable pub attach : ℕ → ℕ → Registry → Registry
unfolding attach_to
attach i tree r = at (attach_to tree) i r

-- Whether the closure that `attach` returns detaches the tree, and does not do nothing.
unfoldable pub detaches : ℕ → Registry → Bool
detaches i r = elim (get_elem? r.heap i) [
  | none ↦ false
  | some l ↦ not l.released && ltb (length l.trees) trees_per_lease
]

-- The closure that `attach` returns when it has added the tree.
unfoldable pub detach : ℕ → ℕ → Registry → Registry
detach i tree r = at (λ l. record l { trees = without tree l.trees }) i r

-- `release` of a lease.
unfoldable pub release : ℕ → Registry → Registry
release i r =
    let r1 = at (λ l. record l { released = true; trees = [] }) i r in
    record r1 { leases = without i r1.leases }

abbrev selected : (Scope → Bool) → List Lease → List ℕ → List Lease
selected p heap [] = []
selected p heap (i ∷ is) =
    let rest = selected p heap is in
    elim (get_elem? heap i) [ none ↦ rest | some l ↦ if p l.scope then l ∷ rest else rest ]

abbrev pub all_trees : List Lease → List ℕ
all_trees [] = []
all_trees (l ∷ ls) = l.trees ++ all_trees ls

-- `collect`.
unfoldable pub collect : (Scope → Bool) → Registry → OwnedTrees
collect p r =
    let ls = selected p r.heap r.leases in
    record { trees = all_trees ls; complete = all (λ l. not l.overflow) ls }

abbrev is_in_place : Isolation → Bool
is_in_place in_place = true
is_in_place worktree = false

-- `conversation`.
unfoldable pub conversation : Text → Registry → OwnedTrees
conversation id r = collect (λ s. text_eq s.conversation_id id) r

-- `inPlaceProject`.
unfoldable pub in_place_project : Text → Registry → OwnedTrees
in_place_project id r = collect (λ s. text_eq s.project_id id && is_in_place s.isolation) r
