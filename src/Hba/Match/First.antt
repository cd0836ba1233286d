-- ===== src/Hba/Match/First.antt =====
-- Which rule a client gets, told without a loop.
use self_db_mini.Base.{
  ◌≡◌, refl, subst, ◌↔◌, inl, inr, Bool, true, false, ◌&&◌, ◌||◌, not, some, [], ◌∷◌, if◌then◌else◌,
  Bool-cases, Option-cases, arith,
}
use self_db_mini.Hba.Text.{Str, equal, equal→eq, equal_self}
use self_db_mini.Hba.Types.{
  RuleType, rule_local, rule_host, rule_hostssl, rule_hostnossl, HbaName, HbaRule, Hba, PgAddr,
  pga_unix,
}
use self_db_mini.Hba.StrSet.{CbTree, StrSet, strset_contains}
use self_db_mini.Hba.Address.{address_match}
use self_db_mini.Hba.Match.{
  ReplicationType, is_physical, is_rule_type, pga_is_unix, name_match, matches_address,
  matches_names, eval_rules, hba_eval,
}

-- The kinds of connection that a rule of a type is for.
pub data TypeFits (type : RuleType) (addr : PgAddr) (is_tls : Bool) : Type 0 where
  over_unix : type ≡ rule_local → pga_is_unix addr ≡ true → TypeFits type addr is_tls
  over_net : type ≡ rule_host → pga_is_unix addr ≡ false → TypeFits type addr is_tls
  with_tls :
      type ≡ rule_hostssl → pga_is_unix addr ≡ false → is_tls ≡ true → TypeFits type addr is_tls
  without_tls :
      type ≡ rule_hostnossl → pga_is_unix addr ≡ false → is_tls ≡ false → TypeFits type addr is_tls

type_matches : RuleType → Bool → Bool → Bool
type_matches type is_unix is_tls =
    if is_unix
    then is_rule_type type rule_local
    else if is_rule_type type rule_local
    then false
    else if is_rule_type type rule_hostssl && not is_tls
    then false
    else if is_rule_type type rule_hostnossl && is_tls
    then false
    else true

type_matches→TypeFits :
    (type : RuleType) (addr : PgAddr) (is_tls : Bool)
    → type_matches type (pga_is_unix addr) is_tls ≡ true
    → TypeFits type addr is_tls
unfolding type_matches
type_matches→TypeFits rule_local pga_unix is_tls h = over_unix refl refl
type_matches→TypeFits rule_local _ is_tls h = absurd (cc h)
type_matches→TypeFits rule_host pga_unix is_tls h = absurd (cc h)
type_matches→TypeFits rule_host _ is_tls h = over_net refl refl
type_matches→TypeFits rule_hostssl pga_unix is_tls h = absurd (cc h)
type_matches→TypeFits rule_hostssl _ true h = with_tls refl refl refl
type_matches→TypeFits rule_hostssl _ false h = absurd (cc h)
type_matches→TypeFits rule_hostnossl pga_unix is_tls h = absurd (cc h)
type_matches→TypeFits rule_hostnossl _ false h = without_tls refl refl refl
type_matches→TypeFits rule_hostnossl _ true h = absurd (cc h)

TypeFits→type_matches :
    (type : RuleType) (addr : PgAddr) (is_tls : Bool)
    → TypeFits type addr is_tls
    → type_matches type (pga_is_unix addr) is_tls ≡ true
unfolding type_matches
TypeFits→type_matches type addr is_tls (over_unix e u) = rw (e, u)
TypeFits→type_matches type addr is_tls (over_net e u) = rw (e, u)
TypeFits→type_matches type addr is_tls (with_tls e u s) = rw (e, u, s)
TypeFits→type_matches type addr is_tls (without_tls e u s) = rw (e, u, s)

two_tests {ℓ} :
    {A : Type ℓ} (x y : A) (a b : Bool)
    → (if not a then y else if not b then y else x) ≡ (if a && b then x else y)
two_tests x y true true = refl
two_tests x y true false = refl
two_tests x y false b = refl

module _ {Tree : Type 0} (cb : CbTree Tree) where
  pub data NameFits (hname : HbaName Tree) (name pair : Str) : Type 0 where
    any_name : hname.all ≡ true → NameFits hname name pair
    same_name : hname.sameuser ≡ true → name ≡ pair → NameFits hname name pair
    listed :
        (set : StrSet Tree)
        → hname.name_set ≡ some set
        → strset_contains cb name set ≡ true
        → NameFits hname name pair

  -- A connection: how it came, whether it replicates, and its names.
  module _ (addr : PgAddr) (is_tls : Bool) (replication : ReplicationType)
      (dbname username : Str) where
    pub data DbFits (hname : HbaName Tree) : Type 0 where
      for_replication : is_physical replication ≡ true → hname.replication ≡ true → DbFits hname
      for_database : is_physical replication ≡ false → NameFits hname dbname username → DbFits hname

    pub record Fits (rule : HbaRule Tree) : Type 0 where
      pub type_fits : TypeFits rule.rule_type addr is_tls
      pub address_fits : pga_is_unix addr ≡ false → address_match rule.address addr ≡ true
      pub db_fits : DbFits rule.db_name
      pub user_fits : NameFits rule.user_name username dbname

    matches_address_lem :
        (rule : HbaRule Tree)
        → matches_address cb rule addr is_tls ≡ (
            type_matches rule.rule_type (pga_is_unix addr) is_tls
            && (pga_is_unix addr || address_match rule.address addr))
    unfolding matches_address type_matches
    matches_address_lem rule = ground arith

    name_match→NameFits :
        (hname : HbaName Tree) (name pair : Str)
        → name_match cb hname name pair ≡ true
        → NameFits hname name pair
    unfolding name_match
    name_match→NameFits hname name pair h = elim (Bool-cases hname.all) [
      | inl a ↦ any_name a
      | inr a ↦ elim (Bool-cases (hname.sameuser && equal name pair)) [
        | inl s ↦ same_name (ground arith) (equal→eq name pair (ground arith))
        | inr s ↦ elim (Option-cases hname.name_set) [
          | inl e ↦ absurd (ground arith)
          | inr (set, e) ↦ listed set e (ground arith)
        ]
      ]
    ]

    NameFits→name_match :
        (hname : HbaName Tree) (name pair : Str)
        → NameFits hname name pair
        → name_match cb hname name pair ≡ true
    unfolding name_match
    NameFits→name_match hname name pair (any_name a) = ground arith
    NameFits→name_match hname name pair (same_name s e) = ground (arith, equal_self name)
    NameFits→name_match hname name pair (listed set e c) = ground arith

    matches : HbaRule Tree → Bool
    matches rule =
        matches_address cb rule addr is_tls && matches_names cb rule replication dbname username

    matches→DbFits :
        (rule : HbaRule Tree)
        → matches_names cb rule replication dbname username ≡ true
        → DbFits rule.db_name
    unfolding matches_names
    matches→DbFits rule h = elim (Bool-cases (is_physical replication)) [
      | inl p ↦ for_replication p (ground arith)
      | inr p ↦ for_database p (name_match→NameFits rule.db_name dbname username (ground arith))
    ]

    DbFits-lem :
        (rule : HbaRule Tree)
        → DbFits rule.db_name
        → NameFits rule.user_name username dbname
        → matches_names cb rule replication dbname username ≡ true
    unfolding matches_names
    DbFits-lem rule (for_replication p r) u =
        ground (arith, NameFits→name_match rule.user_name username dbname u)
    DbFits-lem rule (for_database p n) u = ground (
      arith,
      NameFits→name_match rule.db_name dbname username n,
      NameFits→name_match rule.user_name username dbname u,
    )

    matches→Fits : (rule : HbaRule Tree) → matches rule ≡ true → Fits rule
    unfolding matches
    matches→Fits rule h = record {
      type_fits =
          type_matches→TypeFits rule.rule_type addr is_tls
            (ground (arith, matches_address_lem rule));
      address_fits = λ u. ground (arith, matches_address_lem rule);
      db_fits = matches→DbFits rule (ground arith);
      user_fits =
          name_match→NameFits rule.user_name username dbname (unfold matches_names in ground arith);
    }

    Fits→matches : (rule : HbaRule Tree) → Fits rule → matches rule ≡ true
    unfolding matches
    Fits→matches rule f = elim (Bool-cases (pga_is_unix addr)) [
      | inl u ↦ ground (
        arith,
        matches_address_lem rule,
        TypeFits→type_matches rule.rule_type addr is_tls f.type_fits,
        DbFits-lem rule f.db_fits f.user_fits,
      )
      | inr u ↦ ground (
        arith,
        f.address_fits u,
        matches_address_lem rule,
        TypeFits→type_matches rule.rule_type addr is_tls f.type_fits,
        DbFits-lem rule f.db_fits f.user_fits,
      )
    ]

    -- The rule is the first that fits.
    pub data First : Hba Tree → HbaRule Tree → Type 0 where
      at_head : {rule : HbaRule Tree} (rules : Hba Tree) → Fits rule → First (rule ∷ rules) rule
      behind :
          {rule first : HbaRule Tree} {rules : Hba Tree}
          → ¬ Fits rule
          → First rules first
          → First (rule ∷ rules) first

    eval_rules_lem :
        (rule : HbaRule Tree) (rules : Hba Tree)
        → eval_rules cb (rule ∷ rules) addr is_tls replication dbname username ≡ (
            if matches rule
            then some rule
            else eval_rules cb rules addr is_tls replication dbname username)
    unfolding eval_rules matches
    eval_rules_lem rule rules =
        two_tests _ _ (matches_address cb rule addr is_tls)
          (matches_names cb rule replication dbname username)

    eval_rules→First :
        (rules : Hba Tree) (found : HbaRule Tree)
        → eval_rules cb rules addr is_tls replication dbname username ≡ some found
        → First rules found
    eval_rules→First [] found h = absurd (unfold eval_rules in cc h)
    eval_rules→First (rule ∷ rules) found h = elim (Bool-cases (matches rule)) [
      | inl m ↦
          subst (λ r. First (rule ∷ rules) r) (ground (arith, eval_rules_lem rule rules))
            (at_head rules (matches→Fits rule m))
      | inr m ↦
          behind (λ f. absurd (cc (m, Fits→matches rule f)))
            (eval_rules→First rules found (ground (arith, eval_rules_lem rule rules)))
    ]

    First→eval_rules :
        {rules : Hba Tree} {found : HbaRule Tree}
        → First rules found
        → eval_rules cb rules addr is_tls replication dbname username ≡ some found
    First→eval_rules (at_head {rule = rule} rules f) =
        ground (arith, eval_rules_lem rule rules, Fits→matches rule f)
    First→eval_rules (behind {rule = rule} {rules = rules} n f) = elim (Bool-cases (matches rule)) [
      | inl m ↦ absurd (n (matches→Fits rule m))
      | inr m ↦ ground (arith, eval_rules_lem rule rules, First→eval_rules f)
    ]

    -- hba_eval gives a rule if and only if it is the first of the list that fits the connection:
    -- its type suits the socket and TLS, its address matches unless the client came by a Unix
    -- socket, its databases have the name or, for physical replication, the word replication, and
    -- its users have the name.
    pub hba_eval-First :
        (hba : Hba Tree) (rule : HbaRule Tree)
        → (hba_eval cb (some hba) addr is_tls replication dbname username ≡ some rule)
          ↔ First hba rule
    unfolding hba_eval
    hba_eval-First hba rule = (eval_rules→First hba rule, First→eval_rules)
