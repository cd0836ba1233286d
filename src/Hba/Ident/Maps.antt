-- ===== src/Hba/Ident/Maps.antt =====
-- The maps of names as a list: what is found, and what is appended.
use self_db_mini.Base.{
  ◌≡◌, ◌∙◌, refl, sym, ap, Bool, true, false, ◌||◌, Option, none, some, List, [], ◌∷◌, ◌++◌,
  append-nil, if◌then◌else◌, Bool-cases, inl, inr, arith,
}
use self_db_mini.Hba.Text.{Str, equal, equal→eq}
use self_db_mini.Hba.Types.{Mapping, IdentMap, Ident}
use self_db_mini.Hba.Ident.{match_map, find_ident_map, append_mapping}

-- No name stands twice.
abbrev pub IsDistinct : Ident → Type 0
IsDistinct [] = Unit {0}
IsDistinct (map ∷ maps) = (find_ident_map maps map.map_name ≡ false) × IsDistinct maps

abbrev mappings_in : Option IdentMap → List Mapping
mappings_in none = []
mappings_in (some map) = map.mappings

-- What `match_map` finds for a name.
abbrev pub mappings_of : Ident → Str → List Mapping
mappings_of ident name = mappings_in (match_map (some ident) name)

equal_sym : (a b : Str) → equal a b ≡ equal b a
unfolding equal
equal_sym [] [] = refl
equal_sym [] (y ∷ ys) = refl
equal_sym (x ∷ xs) [] = refl
equal_sym (x ∷ xs) (y ∷ ys) = ground (arith, equal_sym xs ys)

find-append_mapping :
    (ident : Ident) (name other : Str) (m : Mapping)
    → find_ident_map (append_mapping ident name m) other ≡ find_ident_map ident other
unfolding find_ident_map append_mapping
find-append_mapping [] name other m = refl
find-append_mapping (map ∷ maps) name other m = elim (Bool-cases (equal map.map_name name)) [
  | inl e ↦ rw e
  | inr e ↦ rw e (ap (λ z. equal map.map_name other || z) (find-append_mapping maps name other m))
]

pub append_mapping-IsDistinct :
    (ident : Ident) (name : Str) (m : Mapping)
    → IsDistinct ident
    → IsDistinct (append_mapping ident name m)
unfolding append_mapping
append_mapping-IsDistinct [] name m d = tt
append_mapping-IsDistinct (map ∷ maps) name m d = elim (Bool-cases (equal map.map_name name)) [
  | inl e ↦ rw e d
  | inr e ↦ rw e (
    find-append_mapping maps name map.map_name m ∙ d.0,
    append_mapping-IsDistinct maps name m d.1,
  )
]

find-append :
    (ident : Ident) (map : IdentMap) (other : Str)
    → find_ident_map (ident ++ map ∷ []) other
      ≡ (find_ident_map ident other || equal map.map_name other)
unfolding find_ident_map
find-append [] map other = ground arith
find-append (x ∷ xs) map other = ground (arith, find-append xs map other)

pub append-IsDistinct :
    (ident : Ident) (map : IdentMap)
    → find_ident_map ident map.map_name ≡ false
    → IsDistinct ident
    → IsDistinct (ident ++ map ∷ [])
unfolding find_ident_map
append-IsDistinct [] map f d = (refl, tt)
append-IsDistinct (x ∷ xs) map f d = (
  ground (arith, find-append xs map x.map_name, equal_sym x.map_name map.map_name),
  append-IsDistinct xs map (ground arith) d.1,
)

same_as : (a b c : Str) → equal a b ≡ true → equal b c ≡ equal a c
same_as a b c e = ap (λ z. equal z c) (sym (equal→eq a b e))

or_left : (a b : Bool) → (a || b) ≡ false → a ≡ false
or_left true b h = absurd (cc h)
or_left false b h = refl

or_right : (a b : Bool) → (a || b) ≡ false → b ≡ false
or_right true b h = absurd (cc h)
or_right false b h = h

pub match_map-append_mapping :
    (ident : Ident) (name other : Str) (m : Mapping)
    → find_ident_map ident name ≡ true
    → mappings_of (append_mapping ident name m) other
      ≡ mappings_of ident other ++ (if equal name other then m ∷ [] else [])
unfolding find_ident_map append_mapping match_map
match_map-append_mapping [] name other m f = absurd (cc f)
match_map-append_mapping (x ∷ xs) name other m f = elim (Bool-cases (equal x.map_name name)) [
  | inl e ↦ elim (Bool-cases (equal x.map_name other)) [
    | inl o ↦ rw (e, o, same_as x.map_name name other e ∙ o) refl
    | inr o ↦
        rw (e, o, same_as x.map_name name other e ∙ o) (sym (append-nil (mappings_of xs other)))
  ]
  | inr e ↦ elim (Bool-cases (equal x.map_name other)) [
    | inl o ↦
        rw (e, o, equal_sym name other ∙ same_as x.map_name other name o ∙ e)
          (sym (append-nil x.mappings))
    | inr o ↦ rw (e, o) (match_map-append_mapping xs name other m (ground arith))
  ]
]

pub match_map-append :
    (ident : Ident) (map : IdentMap) (other : Str)
    → find_ident_map ident map.map_name ≡ false
    → mappings_of (ident ++ map ∷ []) other
      ≡ mappings_of ident other ++ (if equal map.map_name other then map.mappings else [])
unfolding find_ident_map match_map
match_map-append [] map other f = elim (Bool-cases (equal map.map_name other)) [
  | inl o ↦ rw o
  | inr o ↦ rw o
]
match_map-append (x ∷ xs) map other f = elim (Bool-cases (equal x.map_name other)) [
  | inl o ↦
      rw
        (
          o,
          equal_sym map.map_name other
              ∙ same_as x.map_name other map.map_name o
              ∙ or_left (equal x.map_name map.map_name) _ f,
        )
        (sym (append-nil x.mappings))
  | inr o ↦ rw o (match_map-append xs map other (or_right (equal x.map_name map.map_name) _ f))
]

-- What a line that is accepted does: nothing, or one mapping more for one name.
pub data Maps (ident ident' : Ident) : Type 0 where
  nothing : ident' ≡ ident → Maps ident ident'
  one :
      (name : Str) (m : Mapping)
      → ((other : Str)
          → mappings_of ident' other
            ≡ mappings_of ident other ++ (if equal name other then m ∷ [] else []))
      → (IsDistinct ident → IsDistinct ident')
      → Maps ident ident'
