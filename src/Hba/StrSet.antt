-- ===== src/Hba/StrSet.antt =====
-- `struct StrSet`: a set of names, an array of ten and a tree when there are more.
pub mod Refines
use self_db_mini.Base.{
  ℕ, ◌+◌, ◌≡◌, Bool, true, false, ◌||◌, Option, none, some, List, [], ◌∷◌, ◌++◌, ltb, if◌then◌else◌,
  take, length,
}
use self_db_mini.Hba.Text.{Str, equal}

-- The operations of the tree (`struct CBTree` of libusual); `none` is their failure.
pub record CbTree (Tree : Type 0) : Type 0 where
  pub cbtree_create : Option Tree
  pub cbtree_insert : Str → Tree → Option Tree
  pub cbtree_lookup : Str → Tree → Bool

-- What is relied on: a new tree is empty, and an insertion adds one key.
pub record IsTree {Tree : Type 0} (cb : CbTree Tree) : Type 0 where
  pub create_empty : (t : Tree) (y : Str) → cb.cbtree_create ≡ some t → cb.cbtree_lookup y t ≡ false
  pub insert_key :
      (t t' : Tree) (x y : Str)
      → cb.cbtree_insert x t ≡ some t'
      → cb.cbtree_lookup y t' ≡ (equal x y || cb.cbtree_lookup y t)

pub record StrSet (Tree : Type 0) : Type 0 where
  pub count : ℕ
  pub alloc : ℕ
  pub nodes : List Str
  pub cbtree : Option Tree

-- the loop over the array
unfoldable pub among_nodes : Str → List Str → Bool
among_nodes str [] = false
among_nodes str (node ∷ nodes) = equal node str || among_nodes str nodes

module _ {Tree : Type 0} where
  -- `none` where one of the three allocations fails; the argument tells whether they succeed.
  unfoldable pub strset_new : Bool → Option (StrSet Tree)
  strset_new ok =
      if ok then some (record { count = 0; alloc = 10; nodes = []; cbtree = none }) else none

  unfoldable pub strset_contains : CbTree Tree → Str → StrSet Tree → Bool
  unfolding among_nodes
  strset_contains cb str set = elim set.cbtree [
    | some t ↦ cb.cbtree_lookup str t
    | none ↦ among_nodes str (take set.count set.nodes)
  ]

  -- the loop that moves the array into the tree
  unfoldable pub insert_nodes : CbTree Tree → List Str → Tree → Option Tree
  insert_nodes cb [] t = some t
  insert_nodes cb (node ∷ nodes) t = elim (cb.cbtree_insert node t) [
    | none ↦ none
    | some t' ↦ insert_nodes cb nodes t'
  ]

  unfoldable pub tree_of : CbTree Tree → StrSet Tree → Option Tree
  unfolding insert_nodes
  tree_of cb set = elim set.cbtree [
    | some t ↦ some t
    | none ↦ elim cb.cbtree_create [
      | none ↦ none
      | some t ↦ insert_nodes cb (take set.count set.nodes) t
    ]
  ]

  -- `none` is the result false. The set may then lack names; the callers free it.
  unfoldable pub strset_add : (ℕ → Bool) → CbTree Tree → Str → StrSet Tree → Option (StrSet Tree)
  unfolding strset_contains tree_of
  strset_add mem cb str set =
      if strset_contains cb str set
      then some set
      else if mem (4 + length str + 1)
      then if ltb set.count set.alloc
        then some (record set { count = set.count + 1; nodes = set.nodes ++ str ∷ [] })
        else elim (tree_of cb set) [
          | none ↦ none
          | some t ↦ elim (cb.cbtree_insert str t) [
            | none ↦ none
            | some t' ↦ some (record set { count = set.count + 1; cbtree = some t' })
          ]
        ]
      else none
