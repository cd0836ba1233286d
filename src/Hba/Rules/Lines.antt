-- ===== src/Hba/Rules/Lines.antt =====
-- The rules of a file: their order, and what a rule is.
use self_db_mini.Base.{
  ℕ, ◌+◌, ◌≡◌, ◌≤◌, subst, sym, ap, refl, true, Option, some, List, [], ◌∷◌, ◌++◌, arith, length,
}
use self_db_mini.Base.Outcome.{Outcome, done}
use self_db_mini.Hba.Text.{Str}
use self_db_mini.Hba.Types.{HbaRule, Hba, Ident, HbaEnv}
use self_db_mini.Hba.Tokens.{
  TokParser, Parse, parsed, refused, out_of_fuel, init_parser, parse_from_string,
}
use self_db_mini.Hba.Tokens.Steps.{Returns, giving, denying, parse_from_string-Within}
use self_db_mini.Hba.Names.Ends.{Every, Nested}
use self_db_mini.Hba.Ident.{loaded}
use self_db_mini.Hba.Rules.Line.{IsRule, Adds, nothing, one, parse_line-Returns}
use self_db_mini.Hba.Rules.{parse_line, rule_lines, hba_load_rules}

module _ {Tree : Type 0} (env : HbaEnv Tree) where
  -- The rules stand in the order of their lines, which are from `lo` on and before `hi`.
  abbrev pub Ascending : ℕ → ℕ → Hba Tree → Type 0
  Ascending lo hi [] = lo ≤ hi
  Ascending lo hi (rule ∷ rules) =
      (lo ≤ rule.hba_linenr)
      × IsRule rule.hba_linenr rule
      × Ascending (rule.hba_linenr + 1) hi rules

  Ascending-weaken : (lo hi : ℕ) (hba : Hba Tree) → Ascending lo hi hba → Ascending lo (hi + 1) hba
  Ascending-weaken lo hi [] h = omega arith
  Ascending-weaken lo hi (rule ∷ rules) h =
      (h.0, h.1, Ascending-weaken (rule.hba_linenr + 1) hi rules h.2)

  Ascending-append :
      (lo hi : ℕ) (hba : Hba Tree) (rule : HbaRule Tree)
      → Ascending lo hi hba
      → IsRule hi rule
      → Ascending lo (hi + 1) (hba ++ rule ∷ [])
  Ascending-append lo hi [] rule h r = (
    omega (arith, h, r.numbered),
    record { numbered = refl; address_fits = r.address_fits; options_of = r.options_of },
    omega (arith, r.numbered),
  )
  Ascending-append lo hi (x ∷ xs) rule h r =
      (h.0, h.1, Ascending-append (x.hba_linenr + 1) hi xs rule h.2 r)

  Ascending-Adds :
      (hi : ℕ) {hba hba' : Hba Tree}
      → Ascending 1 hi hba
      → Adds hi hba hba'
      → Ascending 1 (hi + 1) hba'
  Ascending-Adds hi {hba = hba} a (nothing e) =
      subst (Ascending 1 (hi + 1)) (sym e) (Ascending-weaken 1 hi hba a)
  Ascending-Adds hi {hba = hba} a (one rule e r) =
      subst (Ascending 1 (hi + 1)) (sym e) (Ascending-append 1 hi hba rule a r)

  -- The rules that are there after the lines up to `hi`.
  abbrev pub Loads : ℕ → Outcome (Hba Tree) → Type 0
  Loads hi o = (hba : Hba Tree) × (o ≡ done hba) × Ascending 1 hi hba

  rule_lines-Loads :
      (depth : ℕ) (ident : Option Ident) (fn : Str) (linenr : ℕ) (lines : List Str) (hba : Hba Tree)
      (tp : TokParser)
      → Every (Nested env depth fn) lines
      → Ascending 1 linenr hba
      → Loads (linenr + length lines) (rule_lines env depth ident fn linenr lines hba tp)
  unfolding rule_lines
  rule_lines-Loads depth ident fn linenr [] hba tp n a =
      (hba, refl, subst (λ k. Ascending 1 k hba) (omega arith) a)
  rule_lines-Loads depth ident fn linenr (ln ∷ lns) hba tp n a =
      by_line (parse_line env depth ident linenr fn hba (parse_from_string env.mem ln tp)) refl
        (parse_line-Returns env depth ident linenr fn ln hba _ n.0
          (parse_from_string-Within env.mem ln tp))
        (λ hba' t b. rule_lines-Loads depth ident fn (linenr + 1) lns hba' t n.1 b)
    where
      further :
          {o : Outcome (Hba Tree)}
          → Loads (linenr + 1 + length lns) o
          → Loads (linenr + length (ln ∷ lns)) o
      further (h, e, b) = (h, e, subst (λ k. Ascending 1 k h) (omega arith) b)

      by_line :
          (m : Parse (Hba Tree))
          → parse_line env depth ident linenr fn hba (parse_from_string env.mem ln tp) ≡ m
          → Returns (λ hba' t. Adds linenr hba hba') m
          → ((hba' : Hba Tree) (t : TokParser)
              → Ascending 1 (linenr + 1) hba'
              → Loads
                  (linenr + 1 + length lns)
                  (rule_lines env depth ident fn (linenr + 1) lns hba' t))
          → Loads
              (linenr + length (ln ∷ lns))
              (rule_lines env depth ident fn linenr (ln ∷ lns) hba tp)
      by_line (parsed hba' t) e (giving adds) next =
          rw (e, rule_lines) (further (next hba' t (Ascending-Adds linenr a adds)))
      by_line (refused t) e (denying _) next =
          rw (e, rule_lines) (further (next hba t (Ascending-weaken 1 linenr hba a)))
      by_line out_of_fuel e r next = elim r [ ]

  hba_load_rules_opened :
      (depth : ℕ) (ident : Option Ident) (fn : Str) (lines : List Str) (o : Outcome (Hba Tree))
      → env.struct_mem ≡ true
      → env.files fn ≡ some lines
      → rule_lines env depth ident fn 1 lines [] init_parser ≡ o
      → hba_load_rules env depth ident fn ≡ loaded o
  unfolding hba_load_rules
  hba_load_rules_opened depth ident fn lines o m f e = rw (m, f) (ap loaded e)

  -- hba_load_rules returns, for a file that can be opened and memory for the list, where the names
  -- of files in it are nested less deep than the fuel; the rules stand in the order of their
  -- lines, at most one for each line, with the numbers of these lines; each has the Unix family,
  -- all addresses, or one of the two families of the Internet with sixteen bytes of address and of
  -- mask, as its type asks, and options only for LDAP.
  pub hba_load_rules-Loads :
      (depth : ℕ) (ident : Option Ident) (fn : Str) (lines : List Str)
      → env.struct_mem ≡ true
      → env.files fn ≡ some lines
      → Every (Nested env depth fn) lines
      → (hba : Hba Tree) × (hba_load_rules env depth ident fn ≡ done (some hba))
        × Ascending 1 (1 + length lines) hba
  hba_load_rules-Loads depth ident fn lines m f n =
      let (hba, e, a) = rule_lines-Loads depth ident fn 1 lines [] init_parser n (omega arith) in
      (hba, hba_load_rules_opened depth ident fn lines (done hba) m f e, a)
