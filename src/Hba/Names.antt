-- ===== src/Hba/Names.antt =====
-- `parse_names`: the columns of databases and users, and the files that they name.
mod Cases
pub mod Ends
use self_db_mini.Base.{
  ℕ, zero, suc, ◌+◌, Bool, true, false, ◌&&◌, Option, none, some, List, [], ◌∷◌, ◌==◌,
  if◌then◌else◌, length, drop,
}
use self_db_mini.Hba.Text.{Str, codes, starts_with, path_join_dirname}
use self_db_mini.Hba.Types.{HbaName, HbaEnv}
use self_db_mini.Hba.StrSet.{StrSet, strset_new, strset_add}
use self_db_mini.Hba.Tokens.{
  TokType, tok_string, tok_ident, tok_comma, TokParser, Parse, parsed, refused, out_of_fuel, Parser,
  pure, refuse, bind, ◌>>=◌, ◌>>◌, from_option, advance, eat, eat_kw, expect, init_parser,
  parse_from_string,
}

module _ {Tree : Type 0} (env : HbaEnv Tree) where
  -- `hname->name_set`, made if it is NULL
  unfoldable pub set_of : HbaName Tree → Option (StrSet Tree)
  unfolding strset_new
  set_of hname = elim hname.name_set [ none ↦ strset_new env.set_mem | some set ↦ some set ]

  unfoldable pub add_name : Str → HbaName Tree → Option (HbaName Tree)
  unfolding set_of
  add_name tok hname = elim (set_of hname) [
    | none ↦ none
    | some set ↦ elim (strset_add env.mem env.tree tok set) [
      | none ↦ none
      | some set' ↦ some (record hname { name_set = some set' })
    ]
  ]

  plain_name : Str → HbaName Tree → Parser (HbaName Tree)
  plain_name tok hname = do hname' ← from_option (add_name tok hname); advance env.mem; pure hname'

  -- `tok[0] == '@'`: `included` reads the file.
  included_name :
      (Str → HbaName Tree → Parser (HbaName Tree))
      → Str
      → Str
      → HbaName Tree
      → Parser (HbaName Tree)
  included_name included parent tok hname = do
    fn ← from_option (path_join_dirname env.mem env.dirname parent (drop 1 tok))
    hname' ← included fn hname
    advance env.mem
    pure hname'

  -- `is_db` and a word
  eat_db : Bool → Str → Parser Bool
  unfolding eat_kw
  eat_db true kw = eat_kw env.mem kw
  eat_db false kw = pure false

  by_string : HbaName Tree → Option Str → Parser (HbaName Tree)
  unfolding plain_name
  by_string hname none = refuse
  by_string hname (some tok) = plain_name tok hname

  -- A name, or a text that is quoted.
  by_ident :
      (Str → HbaName Tree → Parser (HbaName Tree))
      → Str
      → HbaName Tree
      → Option Str
      → Parser (HbaName Tree)
  unfolding plain_name included_name by_string expect
  by_ident included parent hname (some tok) =
      if starts_with b'+' tok
      then refuse
      else if starts_with b'@' tok
      then included_name included parent tok hname
      else plain_name tok hname
  by_ident included parent hname none = do string ← expect tok_string; by_string hname string

  -- One round of the loop, as far as `eat_comma`.
  unfoldable pub parse_name :
      (Str → HbaName Tree → Parser (HbaName Tree))
      → HbaName Tree
      → Bool
      → Str
      → Parser (HbaName Tree)
  unfolding eat_kw eat_db by_ident expect
  parse_name included hname is_db parent = do
    all ← eat_kw env.mem (codes "all")
    if all then pure (record hname { all = true }) else do
      sameuser ← eat_db is_db (codes "sameuser")
      if sameuser then pure (record hname { sameuser = true }) else do
        samerole ← eat_db is_db (codes "samerole")
        if samerole then refuse else do
          samegroup ← eat_db is_db (codes "samegroup")
          if samegroup then refuse else do
            replication ← eat_db is_db (codes "replication")
            if replication
                then pure (record hname { replication = true })
                else do ident ← expect tok_ident; by_ident included parent hname ident

  -- The loop of `parse_names`. Each round reads on, so that a text is read in as many rounds as it
  -- has bytes and one more.
  unfoldable pub names_loop :
      ℕ
      → (Str → HbaName Tree → Parser (HbaName Tree))
      → HbaName Tree
      → Bool
      → Str
      → Parser (HbaName Tree)
  unfolding parse_name
  names_loop zero included hname is_db parent tp = out_of_fuel
  names_loop (suc rounds) included hname is_db parent tp =
      bind (parse_name included hname is_db parent tp) λ hname' tp'.
        bind (eat env.mem tok_comma tp') λ comma tp''.
          let rest = names_loop rounds included hname' is_db parent tp'' in
          if comma then rest else parsed hname' tp''

  -- The loop over the lines of a file, with a parser of its own.
  unfoldable pub lines_loop :
      (HbaName Tree → Parser (HbaName Tree)) → List Str → HbaName Tree → Parser (HbaName Tree)
  lines_loop names [] hname tp = parsed hname tp
  lines_loop names (ln ∷ lns) hname tp =
      bind (names hname (parse_from_string env.mem ln tp))
        λ hname' tp'. lines_loop names lns hname' tp'

  -- The result of the inner parser, for the outer one.
  abbrev in_file : TokParser → Parse (HbaName Tree) → Parse (HbaName Tree)
  in_file tp (parsed hname _) = parsed hname tp
  in_file tp (refused _) = refused tp
  in_file tp out_of_fuel = out_of_fuel

  unfoldable pub parse_namefile :
      (HbaName Tree → Parser (HbaName Tree)) → Str → HbaName Tree → Parser (HbaName Tree)
  unfolding lines_loop
  parse_namefile names fn hname tp = elim (env.files fn) [
    | none ↦ refused tp
    | some lines ↦ in_file tp (lines_loop names lines hname init_parser)
  ]

  -- The fuel is how deep files name files.
  unfoldable pub parse_names : ℕ → Bool → Str → HbaName Tree → Parser (HbaName Tree)
  unfolding names_loop parse_namefile
  parse_names zero is_db parent hname tp = out_of_fuel
  parse_names (suc depth) is_db parent hname tp =
      names_loop (length tp.pos + 1) (λ fn. parse_namefile (parse_names depth is_db fn) fn) hname
        is_db parent tp
