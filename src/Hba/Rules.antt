-- ===== src/Hba/Rules.antt =====
-- `parse_line` and `hba_load_rules`: the rules of a file, in its order.
pub mod Line
pub mod Lines
use self_db_mini.Base.{
  ℕ, ◌+◌, Bool, true, false, Option, none, some, List, [], ◌∷◌, ◌++◌, ◌==◌, if◌then◌else◌, drop,
}
use self_db_mini.Base.Outcome.{Outcome, done, no_fuel}
use self_db_mini.Hba.Text.{Str, codes, strchr, has_prefix, strdup}
use self_db_mini.Hba.Types.{
  Family, af_unspec, af_unix, RuleType, rule_local, rule_host, rule_hostssl, rule_hostnossl,
  AuthType, auth_trust, auth_reject, auth_md5, auth_plain, auth_peer, auth_cert, auth_scram_sha_256,
  auth_ldap, HbaAddress, HbaName, HbaRule, Hba, IdentMap, Ident, HbaEnv,
}
use self_db_mini.Hba.Tokens.{
  tok_ident, tok_eol, TokParser, Parse, parsed, refused, out_of_fuel, Parser, pure, refuse, bind,
  ◌>>=◌, ◌>>◌, from_option, advance, eat_all, eat, eat_kw, check_kw, expect, init_parser,
  parse_from_string,
}
use self_db_mini.Hba.Names.{parse_names}
use self_db_mini.Hba.Address.{overwrite, zeros, parse_addr, parse_nmask}
use self_db_mini.Hba.Ident.{allocated, loaded, match_map}

-- A chain of `eat_kw`: the value of the first word that is there.
unfoldable pub eat_one {ℓ} : {A : Type ℓ} → (ℕ → Bool) → List (Str × A) → Parser (Option A)
unfolding eat_kw
eat_one mem [] = pure none
eat_one mem ((kw, a) ∷ kws) = do
  found ← eat_kw mem kw
  if found then pure (some a) else eat_one mem kws

abbrev pub rule_types : List (Str × RuleType)
rule_types =
    (codes "local", rule_local)
    ∷ (codes "host", rule_host)
    ∷ (codes "hostssl", rule_hostssl)
    ∷ (codes "hostnossl", rule_hostnossl)
    ∷ []

abbrev pub methods : List (Str × AuthType)
methods =
    (codes "trust", auth_trust)
    ∷ (codes "reject", auth_reject)
    ∷ (codes "md5", auth_md5)
    ∷ (codes "password", auth_plain)
    ∷ (codes "peer", auth_peer)
    ∷ (codes "cert", auth_cert)
    ∷ (codes "scram-sha-256", auth_scram_sha_256)
    ∷ []

-- `calloc`
unfoldable pub no_address : HbaAddress
unfolding zeros
no_address = record { all = false; family = af_unspec; addr = zeros 16; mask = zeros 16 }

abbrev pub no_name : {Tree : Type 0} → HbaName Tree
no_name = record { all = false; sameuser = false; replication = false; name_set = none }

-- `addr` up to its first '/', and what follows that.
unfoldable pub split_slash : Str → Str × Option Str
split_slash [] = ([], none)
split_slash (c ∷ s) =
    let (addr, nmask) = split_slash s in if c == b'/' then ([], some s) else (c ∷ addr, nmask)

module _ {Tree : Type 0} (env : HbaEnv Tree) where
  unfoldable pub parse_mask : HbaAddress → Option Str → Parser HbaAddress
  unfolding parse_nmask
  parse_mask address (some nmask) = do
    address' ← from_option (parse_nmask address nmask)
    advance env.mem
    pure address'
  parse_mask address none = do
    advance env.mem
    found ← expect tok_ident
    mask ← from_option found
    bytes ← from_option (env.inet_pton address.family mask)
    advance env.mem
    pure (record address { mask = overwrite bytes address.mask })

  -- The column of the address. A bad mask is a warning in the log.
  unfoldable pub parse_address : RuleType → Parser HbaAddress
  unfolding parse_mask split_slash parse_addr
  parse_address rule_local = pure (record no_address { family = af_unix })
  parse_address _ = do
    all ← eat_kw env.mem (codes "all")
    if all then pure (record no_address { all = true }) else do
      found ← expect tok_ident
      text ← from_option found
      let (addr, nmask) = split_slash text
      address ← from_option (parse_addr env addr no_address)
      parse_mask address nmask

  -- After the words of `methods`, `ldap` is only looked at.
  or_ldap : Option AuthType → Parser AuthType
  unfolding check_kw
  or_ldap (some method) = pure method
  or_ldap none = do ldap ← check_kw (codes "ldap"); if ldap then pure auth_ldap else refuse

  unfoldable pub parse_method : Parser AuthType
  unfolding eat_one or_ldap
  parse_method = do method ← eat_one env.mem methods; or_ldap method

  -- `auth_options`: the rest of the line, for LDAP.
  unfoldable pub parse_auth_options : AuthType → Parser (Option Str)
  unfolding strdup
  parse_auth_options auth_ldap tp =
      (do options ← from_option (strdup env.mem tp.pos); eat_all; pure (some options)) tp
  parse_auth_options _ tp = pure none tp

  known_map : Option Ident → Str → Parser (Option IdentMap)
  unfolding match_map
  known_map ident val = do advance env.mem; map ← from_option (match_map ident val); pure (some map)

  map_of : Option Ident → Str → Option Str → Parser (Option IdentMap)
  unfolding known_map has_prefix
  map_of ident str none = refuse
  map_of ident str (some val) =
      if has_prefix (codes "map=") str then known_map ident (drop 1 val) else refuse

  map_definition : Option Ident → Option Str → Parser (Option IdentMap)
  unfolding map_of strchr
  map_definition ident none = pure none
  map_definition ident (some str) = map_of ident str (strchr b'=' str)

  -- `val` points into the buffer, which `next_token` may write over. Then a token follows, for
  -- which `parse_line` refuses the line, whatever `match_map` makes of it.
  unfoldable pub parse_map_definition : Option Ident → Parser (Option IdentMap)
  unfolding map_definition expect
  parse_map_definition ident = do found ← expect tok_ident; map_definition ident found

  -- What stands behind the type of the rule.
  unfoldable pub parse_rule : ℕ → Option Ident → ℕ → Str → RuleType → Parser (HbaRule Tree)
  unfolding parse_names parse_address parse_method parse_auth_options parse_map_definition
  parse_rule depth ident linenr parent rtype = do
    allocated env.struct_mem
    db_name ← parse_names env depth true parent no_name
    user_name ← parse_names env depth true parent no_name
    address ← parse_address rtype
    method ← parse_method
    options ← parse_auth_options method
    map ← parse_map_definition ident
    eol ← eat env.mem tok_eol
    if eol
        then pure (record {
          rule_type = rtype;
          rule_method = method;
          address = address;
          db_name = db_name;
          user_name = user_name;
          identmap = map;
          hba_linenr = linenr;
          auth_options = options;
        })
        else refuse

  -- A rule, or an empty line.
  rule_or_end : ℕ → Option Ident → ℕ → Str → Hba Tree → Option RuleType → Parser (Hba Tree)
  unfolding parse_rule
  rule_or_end depth ident linenr parent hba (some rtype) = do
    rule ← parse_rule depth ident linenr parent rtype
    pure (hba ++ rule ∷ [])
  rule_or_end depth ident linenr parent hba none = do
    eol ← eat env.mem tok_eol
    if eol then pure hba else refuse

  unfoldable pub parse_line : ℕ → Option Ident → ℕ → Str → Hba Tree → Parser (Hba Tree)
  unfolding eat_one rule_or_end
  parse_line depth ident linenr parent hba = do
    rtype ← eat_one env.mem rule_types
    rule_or_end depth ident linenr parent hba rtype

  -- The loop over the lines of the file; a line that is refused is passed over.
  unfoldable pub rule_lines :
      ℕ → Option Ident → Str → ℕ → List Str → Hba Tree → TokParser → Outcome (Hba Tree)
  unfolding parse_line
  rule_lines depth ident fn linenr [] hba tp = done hba
  rule_lines depth ident fn linenr (ln ∷ lns) hba tp =
      elim (parse_line depth ident linenr fn hba (parse_from_string env.mem ln tp)) [
        | parsed hba' tp' ↦ rule_lines depth ident fn (linenr + 1) lns hba' tp'
        | refused tp' ↦ rule_lines depth ident fn (linenr + 1) lns hba tp'
        | out_of_fuel ↦ no_fuel
      ]

  -- A result `none` is NULL. A file that is not opened leaves no rules.
  unfoldable pub hba_load_rules : ℕ → Option Ident → Str → Outcome (Option (Hba Tree))
  unfolding rule_lines
  hba_load_rules depth ident fn =
      if env.struct_mem
      then elim (env.files fn) [
        | none ↦ done (some [])
        | some lines ↦ loaded (rule_lines depth ident fn 1 lines [] init_parser)
      ]
      else done none
