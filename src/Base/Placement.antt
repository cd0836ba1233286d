-- ===== src/Base/Placement.antt =====
-- Numbered objects that stand in linked lists: an object goes from one list to another, and
-- stands in the one list that its state names, once.
use self_db_mini.Base.{
  ℕ, ◌+◌, ◌<◌, ◌-◌, ◌≡◌, List, [], ◌∷◌, ◌++◌, Option, none, some, Bool, true, false, arith, ◌==◌,
  if◌then◌else◌, count, remove, count-append, count-remove, length, length-remove, Bool-cases, inl,
  inr,
}
use mathlib.Core.Logic.{ite}

module _ {L : Type 0} (same : Discrete L) where
  -- `statlist_remove(list, item)`; an object that stands nowhere is left.
  unfoldable pub detach : Option L → ℕ → (L → List ℕ) → L → List ℕ
  detach none a lists l = lists l
  detach (some m) a lists l = ite (same m l) (remove a (lists l)) (lists l)

  -- `statlist_prepend(list, item)` if `front`, else `statlist_append(list, item)`
  unfoldable pub attach : Bool → Option L → ℕ → (L → List ℕ) → L → List ℕ
  attach front none a lists l = lists l
  attach true (some m) a lists l = ite (same m l) (a ∷ lists l) (lists l)
  attach false (some m) a lists l = ite (same m l) (lists l ++ a ∷ []) (lists l)

  -- 1 at the list where the object stands, 0 elsewhere
  unfoldable pub holds : L → Option L → ℕ
  holds l none = 0
  holds l (some m) = ite (same m l) 1 0

  abbrev pub IsPlaced : (L → List ℕ) → (ℕ → Option L) → Type 0
  IsPlaced lists home = (a : ℕ) (l : L) → count a (lists l) ≡ holds l (home a)

  pub holds-pos : (l : L) (o : Option L) → 0 < holds l o → o ≡ some l
  unfolding holds
  holds-pos l none h = absurd (omega arith)
  holds-pos l (some m) h = ground arith

  count-detach :
      (from : Option L) (a b : ℕ) (lists : L → List ℕ) (l : L)
      → count b (detach from a lists l) ≡ count b (lists l) - (if b == a then holds l from else 0)
  unfolding detach holds
  count-detach none a b lists l = ground arith
  count-detach (some m) a b lists l = ground (arith, count-remove b a (lists l))

  count-attach :
      (front : Bool) (to : Option L) (a b : ℕ) (lists : L → List ℕ) (l : L)
      → count b (attach front to a lists l) ≡ count b (lists l) + (if b == a then holds l to else 0)
  unfolding attach holds
  count-attach front none a b lists l = ground arith
  count-attach true (some m) a b lists l = ground arith
  count-attach false (some m) a b lists l = ground (arith, count-append b (lists l) (a ∷ []))

  -- To move an object from its list to the list of its new state keeps every object placed.
  pub move-IsPlaced :
      (front : Bool) (to : Option L) (a : ℕ) (lists : L → List ℕ) (home home' : ℕ → Option L)
      → IsPlaced lists home
      → home' a ≡ to
      → ((b : ℕ) → (b == a) ≡ false → home' b ≡ home b)
      → IsPlaced (attach front to a (detach (home a) a lists)) home'
  move-IsPlaced front to a lists home home' placed e stay b l = elim (Bool-cases (b == a)) [
    | inl hit ↦ ground (
      arith,
      hit,
      count-attach front to a b (detach (home a) a lists) l,
      count-detach (home a) a b lists l,
      placed b l,
      e,
    )
    | inr miss ↦ ground (
      arith,
      miss,
      count-attach front to a b (detach (home a) a lists) l,
      count-detach (home a) a b lists l,
      placed b l,
      stay b miss,
    )
  ]

  -- The lists that the object does not go to have lost it, if it was there.
  pub length-move :
      (from to : Option L) (a : ℕ) (lists : L → List ℕ) (l : L)
      → count a (lists l) ≡ holds l from
      → holds l to ≡ 0
      → length (attach false to a (detach from a lists) l) + count a (lists l) ≡ length (lists l)
  unfolding attach detach holds
  length-move none none a lists l e h = ground arith
  length-move none (some m) a lists l e h = ground arith
  length-move (some n) none a lists l e h = ground (arith, length-remove a (lists l))
  length-move (some n) (some m) a lists l e h = ground (arith, length-remove a (lists l))
