-- ===== src/Hba/Ident.antt =====
-- The maps of names that identify a user: `ident_load_map`.
pub mod Maps
pub mod Distinct
use self_db_mini.Base.{
  ℕ, ◌+◌, Bool, true, false, Option, none, some, List, [], ◌∷◌, ◌++◌, ◌||◌, if◌then◌else◌,
}
use self_db_mini.Base.Outcome.{Outcome, done, abort, no_fuel}
use self_db_mini.Hba.Text.{Str, codes, equal, strdup}
use self_db_mini.Hba.Types.{Mapping, IdentMap, Ident, HbaEnv}
use self_db_mini.Hba.Tokens.{
  tok_string, tok_ident, tok_eol, TokParser, Parse, parsed, refused, out_of_fuel, Parser, pure,
  refuse, bind, ◌>>=◌, ◌>>◌, from_option, advance, eat, eat_kw, expect, init_parser,
  parse_from_string,
}

-- An allocation of a struct.
abbrev pub allocated : Bool → Parser (Unit {0})
allocated true = pure tt
allocated false = refuse

-- `match_map`: the first map of the name; `none` is the result false.
unfoldable pub match_map : Option Ident → Str → Option IdentMap
unfolding equal
match_map none mapname = none
match_map (some []) mapname = none
match_map (some (map ∷ maps)) mapname =
    let later = match_map (some maps) mapname in
    if equal map.map_name mapname then some map else later

unfoldable pub find_ident_map : Ident → Str → Bool
unfolding equal
find_ident_map [] mapname = false
find_ident_map (map ∷ maps) mapname = equal map.map_name mapname || find_ident_map maps mapname

-- `list_append` to the mappings of the map that is found.
unfoldable pub append_mapping : Ident → Str → Mapping → Ident
unfolding equal
append_mapping [] mapname mapping = []
append_mapping (map ∷ maps) mapname mapping =
    let later = append_mapping maps mapname mapping in
    if equal map.map_name mapname
    then record map { mappings = map.mappings ++ mapping ∷ [] } ∷ maps
    else map ∷ later

-- The pointer to what was made.
abbrev pub loaded {ℓ} : {A : Type ℓ} → Outcome A → Outcome (Option A)
loaded (done a) = done (some a)
loaded abort = abort
loaded no_fuel = no_fuel

module _ {Tree : Type 0} (env : HbaEnv Tree) where
  -- a name or a quoted text
  abbrev expect_text : Parser Str
  expect_text = do ident ← expect tok_ident; by_ident ident
    where
      by_ident : Option Str → Parser Str
      by_ident (some str) = pure str
      by_ident none = do string ← expect tok_string; from_option string

  -- `none` stands for `all`, which is read past.
  unfoldable pub parse_ident_name : Parser (Option Str)
  parse_ident_name = do
    all ← eat_kw env.mem (codes "all")
    if all then pure none else do str ← expect_text; pure (some str)

  -- `postgres_user_name` for what was read
  abbrev copy_name : Option Str → Parser (Option Str)
  copy_name none = pure none
  copy_name (some str) = do copy ← from_option (strdup env.mem str); pure (some copy)

  abbrev is_none : Option Str → Bool
  is_none none = true
  is_none (some str) = false

  unfoldable pub add_mapping : Ident → Str → Mapping → Parser Ident
  unfolding find_ident_map append_mapping
  add_mapping ident map_name mapping =
      if find_ident_map ident map_name then pure (append_mapping ident map_name mapping) else do
        allocated env.struct_mem
        pure (ident ++ (record { map_name = map_name; mappings = mapping ∷ [] }) ∷ [])

  -- What stands behind the test for an empty line.
  unfoldable pub parse_mapping : Ident → Parser Ident
  unfolding parse_ident_name add_mapping strdup
  parse_mapping ident = do
    allocated env.struct_mem
    name ← expect tok_ident
    map_name ← from_option name
    map_name_copy ← from_option (strdup env.mem map_name)
    advance env.mem
    system_user_name ← expect_text
    system_copy ← from_option (strdup env.mem system_user_name)
    advance env.mem
    postgres ← parse_ident_name
    postgres_copy ← copy_name postgres
    advance env.mem
    eol ← eat env.mem tok_eol
    if eol
        then add_mapping ident map_name_copy (record {
          system_user_name = system_copy;
          postgres_user_name = postgres_copy;
          all = is_none postgres;
        })
        else refuse

  unfoldable pub parse_ident_line : Ident → Parser Ident
  unfolding parse_mapping
  parse_ident_line ident = do
    eol ← eat env.mem tok_eol
    if eol then pure ident else parse_mapping ident

  -- The loop over the lines of the file; a line that is refused is passed over.
  unfoldable pub ident_lines : List Str → Ident → TokParser → Outcome Ident
  unfolding parse_ident_line
  ident_lines [] ident tp = done ident
  ident_lines (ln ∷ lns) ident tp =
      elim (parse_ident_line ident (parse_from_string env.mem ln tp)) [
        | parsed ident' tp' ↦ ident_lines lns ident' tp'
        | refused tp' ↦ ident_lines lns ident tp'
        | out_of_fuel ↦ no_fuel
      ]

  -- A result `none` is NULL. A file that is not opened leaves no maps.
  unfoldable pub ident_load_map : Option Str → Outcome (Option Ident)
  unfolding ident_lines
  ident_load_map none = done none
  ident_load_map (some fn) =
      if env.struct_mem
      then elim (env.files fn) [
        | none ↦ done (some [])
        | some lines ↦ loaded (ident_lines lines [] init_parser)
      ]
      else done none
