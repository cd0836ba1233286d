-- ===== src/Hba/Names/Cases.antt =====
-- One round of the loop of `parse_names`, case by case.
use self_db_mini.Base.{◌≡◌, Bool, true, false, some, Bool-cases, inl, inr, drop}
use self_db_mini.Hba.Text.{Str, codes, starts_with, path_join_dirname}
use self_db_mini.Hba.Types.{HbaName, HbaEnv}
use self_db_mini.Hba.Tokens.{
  TokParser, Parse, Parser, bind, parsed, refused, tok_string, tok_ident, next_token,
}
use self_db_mini.Hba.Tokens.Steps.{eat_kw-bind, expect-bind, from_option-bind}
use self_db_mini.Hba.Names.{add_name, plain_name, eat_db, by_ident, parse_name}

module _ {Tree : Type 0} (env : HbaEnv Tree) where
  module _ (included : Str → HbaName Tree → Parser (HbaName Tree)) (hname : HbaName Tree)
      (is_db : Bool) (parent : Str) (tp : TokParser) (Q : Parse (HbaName Tree) → Type 0)
      (refusal : (q : TokParser) → Q (refused q))
      (next : (h : HbaName Tree) → Q (parsed h (next_token env.mem tp))) where
    -- The file that the name in the buffer stands for.
    abbrev pub Reads : Type 0
    Reads =
        (fn : Str)
        → tp.cur_tok ≡ tok_ident
        → starts_with b'@' tp.buf ≡ true
        → path_join_dirname env.mem env.dirname parent (drop 1 tp.buf) ≡ some fn
        → Q (bind (included fn hname tp) λ h tp'. parsed h (next_token env.mem tp'))

    plain_name_cases : (tok : Str) → Q (plain_name env tok hname tp)
    unfolding plain_name
    plain_name_cases tok =
        from_option-bind Q env.mem tp (add_name env tok hname) _ (λ h e. next h) (refusal tp)

    eat_db_cases :
        (b : Bool) (kw : Str) (f : Bool → Parser (HbaName Tree))
        → Q (f true (next_token env.mem tp))
        → Q (f false tp)
        → Q (bind (eat_db env b kw tp) f)
    unfolding eat_db
    eat_db_cases true kw f g h = eat_kw-bind Q env.mem tp kw f (λ e. g) (λ e. h)
    eat_db_cases false kw f g h = h

    by_ident_cases :
        Reads → tp.cur_tok ≡ tok_ident → Q (by_ident env included parent hname (some tp.buf) tp)
    unfolding by_ident
    by_ident_cases reads e = elim (Bool-cases (starts_with b'+' tp.buf)) [
      | inl p ↦ rw p (refusal tp)
      | inr p ↦ elim (Bool-cases (starts_with b'@' tp.buf)) [
        | inl q ↦
            rw (p, q)
              (from_option-bind Q env.mem tp
                (path_join_dirname env.mem env.dirname parent (drop 1 tp.buf)) _
                (λ fn f. reads fn e q f) (refusal tp))
        | inr q ↦ rw (p, q) (plain_name_cases tp.buf)
      ]
    ]

    pub parse_name_cases : Reads → Q (parse_name env included hname is_db parent tp)
    unfolding parse_name
    parse_name_cases reads =
        eat_kw-bind Q env.mem tp (codes "all") _ (λ e. next _)
          λ e. eat_db_cases is_db (codes "sameuser") _ (next _) (
            eat_db_cases is_db (codes "samerole") _ (refusal _) (
              eat_db_cases is_db (codes "samegroup") _ (refusal _) (
                eat_db_cases is_db (codes "replication") _ (next _) (
                  expect-bind Q env.mem tp tok_ident _ (by_ident_cases reads) λ n.
                    expect-bind Q env.mem tp tok_string _ (λ s. plain_name_cases tp.buf)
                      λ m. refusal tp))))
