-- ===== src/Hba/Rules/Line.antt =====
-- One line of the file of rules: what it adds, and what a rule is.
use self_db_mini.Base.{
  ℕ, ◌≡◌, ◌≢◌, ◌∙◌, ◌⊎◌, refl, Bool, true, false, Option, none, some, List, [], ◌∷◌, ◌++◌,
  Bool-cases, inl, inr, drop,
}
use self_db_mini.Hba.Text.{Str, codes, strchr, has_prefix, strdup}
use self_db_mini.Hba.Types.{
  af_unix, RuleType, rule_local, AuthType, auth_ldap, HbaAddress, HbaName, HbaRule, Hba, Ident,
  HbaEnv,
}
use self_db_mini.Hba.Tokens.{
  TokParser, tok_eol, tok_ident, Parse, Parser, bind, refused, next_token, is_kw, check_kw,
}
use self_db_mini.Hba.Tokens.Steps.{
  Returns, giving, denying, Returns-bind, Returns-weaken, Yields-Returns, eat-bind, eat_kw-bind,
  expect-bind, from_option-bind, Within, next_token-Within,
}
use self_db_mini.Hba.Names.{parse_names}
use self_db_mini.Hba.Names.Ends.{Nested, parse_names-ne, parse_names-Within}
use self_db_mini.Hba.Address.{parse_addr, parse_nmask}
use self_db_mini.Hba.Address.Sizes.{IsInet, parse_nmask-IsInet, parse_addr-IsInet, length-overwrite}
use self_db_mini.Hba.Ident.{allocated, match_map}
use self_db_mini.Hba.Rules.{
  eat_one, no_address, split_slash, parse_mask, parse_address, parse_method, or_ldap, methods,
  rule_types, parse_auth_options, known_map, map_of, map_definition, parse_map_definition,
  parse_rule, rule_or_end, parse_line,
}

-- An address that suits the type of the rule.
pub data IsAddress : RuleType → HbaAddress → Type 0 where
  of_unix : {a : HbaAddress} → a.family ≡ af_unix → IsAddress rule_local a
  of_any :
      {rtype : RuleType} {a : HbaAddress} → rtype ≢ rule_local → a.all ≡ true → IsAddress rtype a
  of_inet : {rtype : RuleType} {a : HbaAddress} → rtype ≢ rule_local → IsInet a → IsAddress rtype a

pub record IsRule {Tree : Type 0} (linenr : ℕ) (rule : HbaRule Tree) : Type 0 where
  pub numbered : rule.hba_linenr ≡ linenr
  pub address_fits : IsAddress rule.rule_type rule.address
  pub options_of : (rule.rule_method ≡ auth_ldap) ⊎ (rule.auth_options ≡ none)

-- What a line does to the rules.
pub data Adds {Tree : Type 0} (linenr : ℕ) (hba hba' : Hba Tree) : Type 0 where
  nothing : hba' ≡ hba → Adds linenr hba hba'
  one : (rule : HbaRule Tree) → hba' ≡ hba ++ rule ∷ [] → IsRule linenr rule → Adds linenr hba hba'

module _ {Tree : Type 0} (env : HbaEnv Tree) where
  allocated-bind :
      {A : Type 0} (Q : Parse A → Type 0) (b : Bool) (f : Unit {0} → Parser A) (tp : TokParser)
      → Q (f tt tp)
      → Q (refused tp)
      → Q (bind (allocated b tp) f)
  allocated-bind Q true f tp g h = g
  allocated-bind Q false f tp g h = h

  eat_one-bind :
      {A B : Type 0} (Q : Parse B → Type 0) (kws : List (Str × A)) (f : Option A → Parser B)
      (tp : TokParser)
      → ((a : A) → Q (f (some a) (next_token env.mem tp)))
      → Q (f none tp)
      → Q (bind (eat_one env.mem kws tp) f)
  unfolding eat_one
  eat_one-bind Q [] f tp g h = h
  eat_one-bind Q ((kw, a) ∷ kws) f tp g h =
      eat_kw-bind (λ m. Q (bind m f)) env.mem tp kw _ (λ e. g a) (λ e. eat_one-bind Q kws f tp g h)

  parse_mask-Returns :
      (a : HbaAddress) (nmask : Option Str) (tp : TokParser)
      → IsInet a
      → Returns (λ a' t. IsInet a') (parse_mask env a nmask tp)
  unfolding parse_mask
  parse_mask-Returns a (some nmask) tp w =
      from_option-bind (Returns (λ a' t. IsInet a')) env.mem tp (parse_nmask a nmask) _
        (λ a' e. giving (parse_nmask-IsInet a a' nmask w e)) (denying _)
  parse_mask-Returns a none tp w =
      expect-bind (Returns (λ a' t. IsInet a')) env.mem (next_token env.mem tp) tok_ident _
        (λ i.
          from_option-bind (Returns (λ a' t. IsInet a')) env.mem (next_token env.mem tp)
            (env.inet_pton a.family _) _
            (λ bytes e. giving (record {
              of_family = w.of_family;
              addr_size = w.addr_size;
              mask_size = length-overwrite bytes a.mask ∙ w.mask_size;
            }))
            (denying _))
        (λ i. denying _)

  parse_address-Returns :
      (rtype : RuleType) (tp : TokParser)
      → Returns (λ a t. IsAddress rtype a) (parse_address env rtype tp)
  unfolding parse_address no_address
  parse_address-Returns rule_local tp = giving (of_unix refl)
  parse_address-Returns _ tp =
      eat_kw-bind (Returns _) env.mem tp _ _ (λ e. giving (of_any (λ z. absurd (cc z)) refl))
        λ e.
          expect-bind (Returns _) env.mem tp tok_ident _
            (λ i.
              from_option-bind (Returns _) env.mem tp
                (parse_addr env (split_slash tp.buf).0 no_address) _
                (λ a g.
                  Returns-weaken
                    (parse_mask-Returns a (split_slash tp.buf).1 tp
                      (parse_addr-IsInet env _ no_address a refl refl g))
                    λ a' t w. of_inet (λ z. absurd (cc z)) w)
                (denying _))
            (λ i. denying _)

  abbrev Returned : {A : Type 0} → A → TokParser → Type 0
  Returned a tp = Unit {0}

  or_ldap-Returns : (tp : TokParser) → Returns Returned (or_ldap env none tp)
  unfolding or_ldap check_kw
  or_ldap-Returns tp = elim (Bool-cases (is_kw (codes "ldap") tp)) [
    | inl e ↦ rw e (giving tt)
    | inr e ↦ rw e (denying tp)
  ]

  parse_method-Returns : (tp : TokParser) → Returns Returned (parse_method env tp)
  unfolding parse_method or_ldap check_kw
  parse_method-Returns tp =
      eat_one-bind (Returns Returned) methods (or_ldap env) tp (λ a. giving tt) (or_ldap-Returns tp)

  parse_auth_options-Returns :
      (method : AuthType) (tp : TokParser)
      → Returns (λ o t. (method ≡ auth_ldap) ⊎ (o ≡ none)) (parse_auth_options env method tp)
  unfolding parse_auth_options
  parse_auth_options-Returns auth_ldap tp =
      from_option-bind (Returns _) env.mem tp (strdup env.mem tp.pos) _ (λ o e. giving (inl refl))
        (denying tp)
  parse_auth_options-Returns _ tp = giving (inr refl)

  map_definition-Returns :
      (ident : Option Ident) (str : Str) (val : Option Str) (tp : TokParser)
      → Returns Returned (map_of env ident str val tp)
  unfolding map_of known_map
  map_definition-Returns ident str none tp = denying tp
  map_definition-Returns ident str (some val) tp =
      elim (Bool-cases (has_prefix (codes "map=") str)) [
        | inl e ↦ rw e (
            from_option-bind (Returns _) env.mem (next_token env.mem tp)
              (match_map ident (drop 1 val)) _ (λ m g. giving tt) (denying _))
        | inr e ↦ rw e (denying tp)
      ]

  parse_map_definition-Returns :
      (ident : Option Ident) (tp : TokParser) → Returns Returned (parse_map_definition env ident tp)
  unfolding parse_map_definition map_definition
  parse_map_definition-Returns ident tp =
      expect-bind (Returns _) env.mem tp tok_ident _
        (λ i. map_definition-Returns ident tp.buf (strchr b'=' tp.buf) tp) (λ i. giving tt)

  parse_names-Returns :
      (depth : ℕ) (parent text : Str) (hname : HbaName Tree) (tp : TokParser)
      → Nested env depth parent text
      → Within text tp
      → Returns (λ h t. Within text t) (parse_names env depth true parent hname tp)
  parse_names-Returns depth parent text hname tp n w =
      Yields-Returns (parse_names-Within env depth true parent text hname tp w)
        (parse_names-ne env depth true parent text hname tp n w)

  parse_rule-Returns :
      (depth : ℕ) (ident : Option Ident) (linenr : ℕ) (parent text : Str) (rtype : RuleType)
      (tp : TokParser)
      → Nested env depth parent text
      → Within text tp
      → Returns (λ rule t. IsRule linenr rule) (parse_rule env depth ident linenr parent rtype tp)
  unfolding parse_rule
  parse_rule-Returns depth ident linenr parent text rtype tp n w =
      allocated-bind (Returns _) env.struct_mem _ tp
        (Returns-bind (parse_names-Returns depth parent text _ tp n w) λ db t1 w1.
          Returns-bind (parse_names-Returns depth parent text _ t1 n w1) λ user t2 w2.
            Returns-bind (parse_address-Returns rtype t2) λ address t3 fits.
              Returns-bind (parse_method-Returns t3) λ method t4 u.
                Returns-bind (parse_auth_options-Returns method t4) λ options t5 o.
                  Returns-bind (parse_map_definition-Returns ident t5) λ map t6 v.
                    eat-bind (Returns _) env.mem t6 tok_eol _
                      (λ e.
                        giving (record { numbered = refl; address_fits = fits; options_of = o }))
                      (λ e. denying t6))
        (denying tp)

  pub parse_line-Returns :
      (depth : ℕ) (ident : Option Ident) (linenr : ℕ) (parent text : Str) (hba : Hba Tree)
      (tp : TokParser)
      → Nested env depth parent text
      → Within text tp
      → Returns (λ hba' t. Adds linenr hba hba') (parse_line env depth ident linenr parent hba tp)
  unfolding parse_line rule_or_end
  parse_line-Returns depth ident linenr parent text hba tp n w =
      eat_one-bind (Returns _) rule_types _ tp
        (λ rtype.
          Returns-bind
            (parse_rule-Returns depth ident linenr parent text rtype (next_token env.mem tp) n
              (next_token-Within env.mem text tp w))
            λ rule t r. giving (one rule refl r))
        (eat-bind (Returns _) env.mem tp tok_eol _ (λ e. giving (nothing refl)) (λ e. denying tp))
