-- ===== src/Hba/Match.antt =====
-- `hba_eval`: the rule for a client.
pub mod First
use self_db_mini.Base.{
  Bool, true, false, ◌&&◌, not, Option, none, some, List, [], ◌∷◌, if◌then◌else◌,
}
use self_db_mini.Hba.Text.{Str, equal}
use self_db_mini.Hba.Types.{
  RuleType, rule_local, rule_host, rule_hostssl, rule_hostnossl, HbaName, HbaRule, Hba, PgAddr,
  pga_unix, HbaEnv,
}
use self_db_mini.Hba.StrSet.{CbTree, strset_contains}
use self_db_mini.Hba.Address.{address_match}

pub data ReplicationType : Type 0 where
  replication_none replication_logical replication_physical : ReplicationType

abbrev pub is_physical : ReplicationType → Bool
is_physical replication_physical = true
is_physical _ = false

abbrev pub is_rule_type : RuleType → RuleType → Bool
is_rule_type rule_local rule_local = true
is_rule_type rule_host rule_host = true
is_rule_type rule_hostssl rule_hostssl = true
is_rule_type rule_hostnossl rule_hostnossl = true
is_rule_type _ _ = false

abbrev pub pga_is_unix : PgAddr → Bool
pga_is_unix pga_unix = true
pga_is_unix _ = false

module _ {Tree : Type 0} (cb : CbTree Tree) where
  unfoldable pub name_match : HbaName Tree → Str → Str → Bool
  unfolding strset_contains equal
  name_match hname name pair =
      if hname.all
      then true
      else if hname.sameuser && equal name pair
      then true
      else elim hname.name_set [ none ↦ false | some set ↦ strset_contains cb name set ]

  -- What a rule asks of a connection, test by test; `false` is a `continue`.
  unfoldable pub matches_address : HbaRule Tree → PgAddr → Bool → Bool
  unfolding address_match
  matches_address rule addr is_tls =
      if pga_is_unix addr
      then is_rule_type rule.rule_type rule_local
      else if is_rule_type rule.rule_type rule_local
      then false
      else if is_rule_type rule.rule_type rule_hostssl && not is_tls
      then false
      else if is_rule_type rule.rule_type rule_hostnossl && is_tls
      then false
      else address_match rule.address addr

  unfoldable pub matches_names : HbaRule Tree → ReplicationType → Str → Str → Bool
  unfolding name_match
  matches_names rule replication dbname username =
      if (if is_physical replication
        then rule.db_name.replication
        else name_match rule.db_name dbname username)
      then name_match rule.user_name username dbname
      else false

  -- The loop over the rules.
  unfoldable pub eval_rules :
      Hba Tree → PgAddr → Bool → ReplicationType → Str → Str → Option (HbaRule Tree)
  unfolding matches_address matches_names
  eval_rules [] addr is_tls replication dbname username = none
  eval_rules (rule ∷ rules) addr is_tls replication dbname username =
      let later = eval_rules rules addr is_tls replication dbname username in
      if not (matches_address rule addr is_tls)
      then later
      else if not (matches_names rule replication dbname username)
      then later
      else some rule

  -- A result `none` is NULL, and so is a missing `hba`.
  unfoldable pub hba_eval :
      Option (Hba Tree) → PgAddr → Bool → ReplicationType → Str → Str → Option (HbaRule Tree)
  unfolding eval_rules
  hba_eval none addr is_tls replication dbname username = none
  hba_eval (some hba) addr is_tls replication dbname username =
      eval_rules hba addr is_tls replication dbname username
