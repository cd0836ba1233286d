-- ===== src/Hba/Ident/Distinct.antt =====
-- The maps by their names: each name stands once, and has the mappings of its lines.
use self_db_mini.Base.{
  ◌≡◌, refl, subst, sym, ap, true, Option, none, some, List, [], ◌∷◌, Bool-cases, inl, inr,
}
use self_db_mini.Base.Outcome.{Outcome, done}
use self_db_mini.Hba.Text.{Str, codes, strdup}
use self_db_mini.Hba.Types.{Mapping, Ident, HbaEnv}
use self_db_mini.Hba.Tokens.{
  TokParser, tok_eol, tok_ident, tok_string, Parse, Parser, bind, parsed, refused, out_of_fuel,
  next_token, init_parser, parse_from_string,
}
use self_db_mini.Hba.Tokens.Steps.{
  Returns, giving, denying, Returns-bind, eat-bind, eat_kw-bind, expect-bind, from_option-bind,
}
use self_db_mini.Hba.Ident.Maps.{
  IsDistinct, append_mapping-IsDistinct, append-IsDistinct, match_map-append_mapping,
  match_map-append, Maps, nothing, one,
}
use self_db_mini.Hba.Ident.{
  allocated, loaded, find_ident_map, expect_text, parse_ident_name, copy_name, add_mapping,
  parse_mapping, parse_ident_line, ident_lines, ident_load_map,
}

module _ {Tree : Type 0} (env : HbaEnv Tree) where
  add_mapping-Returns :
      (ident : Ident) (name : Str) (m : Mapping) (tp : TokParser)
      → Returns (λ ident' t. Maps ident ident') (add_mapping env ident name m tp)
  unfolding add_mapping
  add_mapping-Returns ident name m tp = elim (Bool-cases (find_ident_map ident name)) [
    | inl e ↦
        rw (e, add_mapping)
          (giving (
            one name m (λ other. match_map-append_mapping ident name other m e)
              (append_mapping-IsDistinct ident name m)))
    | inr e ↦ elim (Bool-cases env.struct_mem) [
      | inl s ↦
          rw (e, s, add_mapping)
            (giving (
              one name m (λ other. match_map-append ident _ other e) (append-IsDistinct ident _ e)))
      | inr s ↦ rw (e, s, add_mapping) (denying tp)
    ]
  ]

  allocated-bind :
      (ident : Ident) (f : Unit {0} → Parser Ident) (tp : TokParser)
      → Returns (λ i t. Maps ident i) (f tt tp)
      → Returns (λ i t. Maps ident i) (bind (allocated env.struct_mem tp) f)
  allocated-bind ident f tp g = elim (Bool-cases env.struct_mem) [
    | inl e ↦ rw e g
    | inr e ↦ rw e (denying tp)
  ]

  abbrev Read : {A : Type 0} → A → TokParser → Type 0
  Read a tp = Unit {0}

  expect_text-Returns : (tp : TokParser) → Returns Read (expect_text env tp)
  expect_text-Returns tp =
      expect-bind (Returns Read) env.mem tp tok_ident _ (λ i. giving tt)
        λ i. expect-bind (Returns Read) env.mem tp tok_string _ (λ s. giving tt) (λ s. denying tp)

  parse_ident_name-Returns : (tp : TokParser) → Returns Read (parse_ident_name env tp)
  unfolding parse_ident_name
  parse_ident_name-Returns tp =
      eat_kw-bind (Returns Read) env.mem tp (codes "all") _ (λ e. giving tt)
        λ e. Returns-bind (expect_text-Returns tp) λ str t u. giving tt

  copy_name-Returns : (name : Option Str) (tp : TokParser) → Returns Read (copy_name env name tp)
  copy_name-Returns none tp = giving tt
  copy_name-Returns (some str) tp =
      from_option-bind (Returns Read) env.mem tp (strdup env.mem str) _ (λ c e. giving tt)
        (denying tp)

  parse_mapping-Returns :
      (ident : Ident) (tp : TokParser)
      → Returns (λ ident' t. Maps ident ident') (parse_mapping env ident tp)
  unfolding parse_mapping
  parse_mapping-Returns ident tp = allocated-bind ident _ tp (
      expect-bind (Returns _) env.mem tp tok_ident _
        (λ i.
          from_option-bind (Returns _) env.mem tp (strdup env.mem tp.buf) _
            (λ name e. Returns-bind (expect_text-Returns _) λ system t2 u.
              from_option-bind (Returns _) env.mem t2 (strdup env.mem system) _
                (λ copy g. Returns-bind (parse_ident_name-Returns _) λ postgres t3 v.
                  Returns-bind (copy_name-Returns postgres t3) λ name_copy t4 z.
                    eat-bind (Returns _) env.mem (next_token env.mem t4) tok_eol _
                      (λ s. add_mapping-Returns ident name _ _) (λ s. denying _))
                (denying t2))
            (denying tp))
        (λ i. denying tp))

  parse_ident_line-Returns :
      (ident : Ident) (tp : TokParser)
      → Returns (λ ident' t. Maps ident ident') (parse_ident_line env ident tp)
  unfolding parse_ident_line
  parse_ident_line-Returns ident tp =
      eat-bind (Returns _) env.mem tp tok_eol _ (λ e. giving (nothing refl))
        (λ e. parse_mapping-Returns ident tp)

  Maps-IsDistinct :
      {ident ident' : Ident} → Maps ident ident' → IsDistinct ident → IsDistinct ident'
  Maps-IsDistinct (nothing e) d = subst IsDistinct (sym e) d
  Maps-IsDistinct (one name m k keep) d = keep d

  -- The maps that the lines give.
  abbrev Gives : Outcome Ident → Type 0
  Gives o = (ident : Ident) × (o ≡ done ident) × IsDistinct ident

  ident_lines-Gives :
      (lines : List Str) (ident : Ident) (tp : TokParser)
      → IsDistinct ident
      → Gives (ident_lines env lines ident tp)
  unfolding ident_lines
  ident_lines-Gives [] ident tp d = (ident, refl, d)
  ident_lines-Gives (ln ∷ lns) ident tp d =
      by_line (parse_ident_line env ident (parse_from_string env.mem ln tp)) refl
        (parse_ident_line-Returns ident (parse_from_string env.mem ln tp))
        (λ ident' t d'. ident_lines-Gives lns ident' t d')
    where
      by_line :
          (m : Parse Ident)
          → parse_ident_line env ident (parse_from_string env.mem ln tp) ≡ m
          → Returns (λ ident' t. Maps ident ident') m
          → ((ident' : Ident) (t : TokParser)
              → IsDistinct ident'
              → Gives (ident_lines env lns ident' t))
          → Gives (ident_lines env (ln ∷ lns) ident tp)
      by_line (parsed ident' t) e (giving maps) next =
          rw (e, ident_lines) (next ident' t (Maps-IsDistinct maps d))
      by_line (refused t) e (denying _) next = rw (e, ident_lines) (next ident t d)
      by_line out_of_fuel e r next = elim r [ ]

  ident_load_map_opened :
      (fn : Str) (lines : List Str) (o : Outcome Ident)
      → env.struct_mem ≡ true
      → env.files fn ≡ some lines
      → ident_lines env lines [] init_parser ≡ o
      → ident_load_map env (some fn) ≡ loaded o
  unfolding ident_load_map
  ident_load_map_opened fn lines o m f e = rw (m, f) (ap loaded e)

  -- ident_load_map returns, for a file that can be opened and memory for the list, and no name
  -- stands twice among its maps.
  pub ident_load_map-IsDistinct :
      (fn : Str) (lines : List Str)
      → env.struct_mem ≡ true
      → env.files fn ≡ some lines
      → (ident : Ident) × (ident_load_map env (some fn) ≡ done (some ident)) × IsDistinct ident
  ident_load_map-IsDistinct fn lines m f =
      let (ident, e, d) = ident_lines-Gives lines [] init_parser tt in
      (ident, ident_load_map_opened fn lines (done ident) m f e, d)
