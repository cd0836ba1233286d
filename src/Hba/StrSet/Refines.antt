-- ===== src/Hba/StrSet/Refines.antt =====
-- The set of names, as the names that it is asked for.
use self_db_mini.Base.{
  ℕ, ◌+◌, ◌≡◌, refl, subst, Bool, true, false, ◌||◌, none, some, List, [], ◌∷◌, ◌++◌, ltb, take,
  take_all, length, length-append, arith, Bool-cases, Option-cases, inl, inr,
}
use self_db_mini.Hba.Text.{Str, equal, equal→eq}
use self_db_mini.Hba.StrSet.{
  CbTree, IsTree, StrSet, strset_new, among_nodes, strset_contains, insert_nodes, tree_of,
  strset_add,
}

module _ {Tree : Type 0} (mem : ℕ → Bool) (cb : CbTree Tree) where
  -- The set is, for those who ask, the names with `has`.
  pub record Represents (set : StrSet Tree) (has : Str → Bool) : Type 0 where
    -- While there is no tree, the array is as long as the count says; there is one past `alloc`.
    pub in_step : set.cbtree ≡ none → set.count ≡ length set.nodes
    pub small : ltb set.count set.alloc ≡ true → set.cbtree ≡ none
    pub contains_iff : (y : Str) → strset_contains cb y set ≡ has y

  pub strset_new-Represents :
      {set : StrSet Tree} → strset_new true ≡ some set → Represents set (λ y. false)
  unfolding strset_new strset_contains
  strset_new-Represents h = record {
    in_step = λ e. ground arith;
    small = λ e. ground arith;
    contains_iff = λ y. ground arith;
  }

  among_nodes-append :
      (y x : Str) (nodes : List Str)
      → among_nodes y (nodes ++ x ∷ []) ≡ (equal x y || among_nodes y nodes)
  unfolding among_nodes
  among_nodes-append y x [] = refl
  among_nodes-append y x (n ∷ nodes) = ground (arith, among_nodes-append y x nodes)

  module _ (laws : IsTree cb) where
    insert_nodes-lookup :
        (nodes : List Str) (t : Tree) {t' : Tree} (y : Str)
        → insert_nodes cb nodes t ≡ some t'
        → cb.cbtree_lookup y t' ≡ (among_nodes y nodes || cb.cbtree_lookup y t)
    unfolding insert_nodes among_nodes
    insert_nodes-lookup [] t y h = ground arith
    insert_nodes-lookup (n ∷ nodes) t {t' = t'} y h = elim (Option-cases (cb.cbtree_insert n t)) [
      | inl e ↦ absurd (ground arith)
      | inr (u, e) ↦ ground (
        arith,
        insert_nodes-lookup nodes u {t' = t'} y (rw (e, insert_nodes) at h),
        laws.insert_key t u n y e,
      )
    ]

    tree_of-lookup :
        (set : StrSet Tree) {t : Tree} (y : Str)
        → tree_of cb set ≡ some t
        → cb.cbtree_lookup y t ≡ strset_contains cb y set
    unfolding tree_of strset_contains
    tree_of-lookup set {t = t} y h = elim (Option-cases set.cbtree) [
      | inr (u, e) ↦ ground arith
      | inl e ↦ elim (Option-cases cb.cbtree_create) [
        | inl f ↦ absurd (cc (rw (e, f) at h))
        | inr (u, f) ↦ ground (
          arith,
          insert_nodes-lookup (take set.count set.nodes) u {t' = t} y (rw (e, f) at h),
          laws.create_empty u y f,
        )
      ]
    ]

    module _ (str : Str) (set : StrSet Tree) (has : Str → Bool) (r : Represents set has) where
      abbrev with_name : Str → Bool
      with_name y = equal str y || has y

      contained : strset_contains cb str set ≡ true → Represents set with_name
      contained e = record {
        in_step = r.in_step;
        small = r.small;
        contains_iff = λ y. elim (Bool-cases (equal str y)) [
          | inl same ↦ ground (arith, equal→eq str y same, r.contains_iff str)
          | inr other ↦ ground (arith, r.contains_iff y)
        ];
      }

      in_array :
          ltb set.count set.alloc ≡ true
          → Represents
              (record set { count = set.count + 1; nodes = set.nodes ++ str ∷ [] })
              with_name
      unfolding strset_contains
      in_array room = record {
        in_step = λ e. omega (arith, r.in_step e, length-append set.nodes (str ∷ []));
        small = λ e. r.small room;
        contains_iff = λ y. ground (
          arith,
          r.small room,
          r.in_step (r.small room),
          take_all set.count set.nodes (omega (arith, r.in_step (r.small room))),
          take_all (set.count + 1) (set.nodes ++ str ∷ [])
              (omega (arith, r.in_step (r.small room), length-append set.nodes (str ∷ []))),
          among_nodes-append y str set.nodes,
          r.contains_iff y,
        );
      }

      in_tree :
          {t t' : Tree}
          → ltb set.count set.alloc ≡ false
          → tree_of cb set ≡ some t
          → cb.cbtree_insert str t ≡ some t'
          → Represents (record set { count = set.count + 1; cbtree = some t' }) with_name
      unfolding strset_contains
      in_tree {t = t} {t' = t'} full et ei = record {
        in_step = λ e. absurd (cc e);
        small = λ e. absurd (ground arith);
        contains_iff = λ y.
            ground
              (arith, laws.insert_key t t' str y ei, tree_of-lookup set y et, r.contains_iff y);
      }

      -- strset_add refines the insertion into a set of names, in the array of ten as in the tree
      -- and where the one is moved into the other: where the set represents some names and the
      -- addition succeeds, the new set represents these and the one that was added; the tree is
      -- taken to be empty when it is made and to gain the key that is inserted.
      pub strset_add-Represents :
          {set' : StrSet Tree} → strset_add mem cb str set ≡ some set' → Represents set' with_name
      unfolding strset_add
      strset_add-Represents {set' = set'} h = elim (Bool-cases (strset_contains cb str set)) [
        | inl e ↦ subst (λ s. Represents s with_name) (ground arith) (contained e)
        | inr e ↦ elim (Bool-cases (ltb set.count set.alloc)) [
          | inl room ↦ subst (λ s. Represents s with_name) (ground arith) (in_array room)
          | inr full ↦ elim (Option-cases (tree_of cb set)) [
            | inl et ↦ absurd (ground arith)
            | inr (t, et) ↦ elim (Option-cases (cb.cbtree_insert str t)) [
              | inl ei ↦ absurd (ground arith)
              | inr (t', ei) ↦
                  subst (λ s. Represents s with_name) (ground arith) (in_tree full et ei)
            ]
          ]
        ]
      ]
