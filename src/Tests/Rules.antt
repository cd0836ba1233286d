-- ===== src/Tests/Rules.antt =====
-- A file of rules, its names and addresses, and the clients that it lets in.
use Prim.Native.String.{String}
use self_db_mini.Base.{
  ℕ, ◌^◌, ◌-◌, ◌≡◌, ◌≢◌, ◌↔◌, ◌≤◌, refl, true, false, ◌||◌, Option, none, some, List, [], ◌∷◌,
  if◌then◌else◌, arith, take,
}
use self_db_mini.Base.Outcome.{Outcome, done}
use self_db_mini.Hba.Text.{Str, codes, equal, is_space, starts_with}
use self_db_mini.Hba.StrSet.{CbTree, IsTree, StrSet, strset_new, strset_add, among_nodes}
use self_db_mini.Hba.StrSet.Refines.{Represents, strset_new-Represents, strset_add-Represents}
use self_db_mini.Hba.Types.{
  Family, af_inet, RuleType, rule_local, rule_host, AuthType, auth_trust, auth_md5, auth_peer,
  HbaAddress, HbaRule, Hba, HbaEnv, pga_inet, Ident,
}
use self_db_mini.Hba.Tokens.{
  TokParser, tok_comma, out_of_fuel, next_token, init_parser, parse_from_string, is_tok, eat,
}
use self_db_mini.Hba.Tokens.Quoted.{IsQuoted, next_token-quote}
use self_db_mini.Hba.Tokens.Room.{InBuffer, next_token-InBuffer}
use self_db_mini.Hba.Tokens.Steps.{parse_from_string-Within}
use self_db_mini.Hba.Names.{parse_names, add_name}
use self_db_mini.Hba.Names.Ends.{lacks-Nested, Nested, Every, parse_names-ne}
use self_db_mini.Hba.Address.{zeros, mask_of_bits, bad_mask, address_match}
use self_db_mini.Hba.Address.BadMask.{address_match-bad_mask}
use self_db_mini.Hba.Address.Ones.{number_of, mask_of_bits_lem}
use self_db_mini.Hba.Ident.{ident_load_map}
use self_db_mini.Hba.Ident.Maps.{IsDistinct}
use self_db_mini.Hba.Ident.Distinct.{ident_load_map-IsDistinct}
use self_db_mini.Hba.Rules.{no_name, hba_load_rules}
use self_db_mini.Hba.Rules.Lines.{Ascending, hba_load_rules-Loads}
use self_db_mini.Hba.Match.{replication_none, hba_eval}
use self_db_mini.Hba.Match.First.{First, hba_eval-First}

-- A tree that is a list.
abbrev cb : CbTree (List Str)
cb = record {
  cbtree_create = some [];
  cbtree_insert = λ x t. some (x ∷ t);
  cbtree_lookup = λ y t. among_nodes y t;
}

cb-IsTree : IsTree cb
unfolding among_nodes
cb-IsTree = record { create_empty = λ t y e. ground arith; insert_key = λ t t' x y e. ground arith }

abbrev rules_file : Str
rules_file = codes "/etc/hba"

abbrev rules_text : List Str
rules_text =
    codes "# rules\n"
    ∷ codes "local all all peer\n"
    ∷ codes "host \"q\"\"1\",db2 all net 255.0.0.0 md5\n"
    ∷ codes "host db1 all net/33 trust\n"
    ∷ codes "host all all net/8 trust # open\n"
    ∷ []

abbrev ident_text : List Str
ident_text = codes "m1 joe john\n" ∷ codes "m2 ann all\n" ∷ codes "m1 sue all john\n" ∷ []

abbrev text_of : Str → Option (List Str)
text_of fn =
    if equal fn rules_file
    then some rules_text
    else if equal fn (codes "/etc/users")
    then some (codes "bob,eve" ∷ [])
    else if equal fn (codes "/etc/ident")
    then some ident_text
    else none

abbrev pton : Family → Str → Option (List ℕ)
pton af_inet text =
    if equal text (codes "net")
    then some (10 ∷ 0 ∷ 0 ∷ 0 ∷ [])
    else if equal text (codes "255.0.0.0")
    then some (255 ∷ 0 ∷ 0 ∷ 0 ∷ [])
    else none
pton _ text = none

abbrev env : HbaEnv (List Str)
env = record {
  mem = λ n. true;
  set_mem = true;
  struct_mem = true;
  tree = cb;
  dirname = λ path. codes "/etc";
  files = text_of;
  inet_pton = pton;
}

abbrev start : String → TokParser
start text = record init_parser { pos = codes text; cur_tok = tok_comma }

abbrev empty_set : StrSet (List Str)
empty_set = record { count = 0; alloc = 10; nodes = []; cbtree = none }

abbrev one_name : StrSet (List Str)
one_name = record { count = 1; alloc = 10; nodes = codes "bob" ∷ []; cbtree = none }

strset_add-Represents_example : Represents env.mem cb one_name (λ y. equal (codes "bob") y || false)
strset_add-Represents_example =
    strset_add-Represents env.mem cb cb-IsTree (codes "bob") empty_set (λ y. false)
      (strset_new-Represents env.mem cb (unfold strset_new in refl))
      (unfold strset_add equal in refl)

next_token-quote_example :
    IsQuoted (codes "q\"1") (codes ",db2") (next_token env.mem (start " \"q\"\"1\",db2"))
next_token-quote_example =
    next_token-quote env.mem (start " \"q\"\"1\",db2") (codes " ") (codes "q\"1") (codes ",db2")
      (λ n. refl) (unfold is_tok in refl) (unfold is_space in refl, tt) (unfold starts_with in refl)
      refl

next_token-InBuffer_example : InBuffer (next_token env.mem (start "all all"))
next_token-InBuffer_example = next_token-InBuffer env.mem (start "all all") (λ str e. absurd (cc e))

mask_of_bits_lem_example :
    (number_of 0 (mask_of_bits 9 (zeros 16)) ≡ 2 ^ 128 - 2 ^ (128 - 9))
    × (9 ≤ 32 → number_of 0 (take 4 (mask_of_bits 9 (zeros 16))) ≡ 2 ^ 32 - 2 ^ (32 - 9))
mask_of_bits_lem_example = mask_of_bits_lem 9 (omega arith)

-- 10.1.0.0 under a mask of eight bits.
abbrev crooked : HbaAddress
crooked = record {
  all = false;
  family = af_inet;
  addr = 10 ∷ 1 ∷ 0 ∷ 0 ∷ [];
  mask = 255 ∷ 0 ∷ 0 ∷ 0 ∷ [];
}

address_match-bad_mask_example : address_match crooked (pga_inet (10 ∷ 1 ∷ 0 ∷ 0 ∷ [])) ≡ false
address_match-bad_mask_example =
    address_match-bad_mask crooked (pga_inet (10 ∷ 1 ∷ 0 ∷ 0 ∷ []))
      (omega arith, (omega arith, (omega arith, (omega arith, tt))))
      (omega arith, (omega arith, (omega arith, (omega arith, tt)))) refl (unfold bad_mask in refl)

abbrev rule_of : RuleType → AuthType → HbaAddress → ℕ → HbaRule (List Str)
rule_of type method address linenr = record {
  rule_type = type;
  rule_method = method;
  address = address;
  db_name = record no_name { all = true };
  user_name = record no_name { name_set = some one_name };
  identmap = none;
  hba_linenr = linenr;
  auth_options = none;
}

abbrev local_rule : HbaRule (List Str)
local_rule = rule_of rule_local auth_peer crooked 1

abbrev host_rule : HbaRule (List Str)
host_rule = rule_of rule_host auth_md5 (record crooked { all = true }) 2

hba_eval-First_example :
    (hba_eval cb
        (some (local_rule ∷ host_rule ∷ []))
        (pga_inet (10 ∷ 0 ∷ 0 ∷ 9 ∷ []))
        false
        replication_none
        (codes "db")
        (codes "bob")
      ≡ some host_rule)
    ↔ First cb
        (pga_inet (10 ∷ 0 ∷ 0 ∷ 9 ∷ []))
        false
        replication_none
        (codes "db")
        (codes "bob")
        (local_rule ∷ host_rule ∷ [])
        host_rule
hba_eval-First_example =
    hba_eval-First cb (pga_inet (10 ∷ 0 ∷ 0 ∷ 9 ∷ [])) false replication_none (codes "db")
      (codes "bob") (local_rule ∷ host_rule ∷ []) host_rule

rules_text-Nested : Every (Nested env 1 rules_file) rules_text
rules_text-Nested = (
  lacks-Nested env 0 rules_file _ refl,
  (
    lacks-Nested env 0 rules_file _ refl,
    (
      lacks-Nested env 0 rules_file _ refl,
      (lacks-Nested env 0 rules_file _ refl, (lacks-Nested env 0 rules_file _ refl, tt)),
    ),
  ),
)

hba_load_rules-Loads_example :
    (hba : Hba (List Str)) × (hba_load_rules env 1 none rules_file ≡ done (some hba))
    × Ascending env 1 6 hba
hba_load_rules-Loads_example =
    hba_load_rules-Loads env 1 none rules_file rules_text refl (unfold equal in refl)
      rules_text-Nested

abbrev methods_of : Outcome (Option (Hba (List Str))) → List (ℕ × AuthType)
methods_of (done (some [])) = []
methods_of (done (some (rule ∷ rules))) =
    (rule.hba_linenr, rule.rule_method) ∷ methods_of (done (some rules))
methods_of _ = []

-- The rule of line 4, which has too many bits, is passed over.
loaded_rules :
    methods_of (hba_load_rules env 1 none rules_file)
    ≡ (2, auth_peer) ∷ (3, auth_md5) ∷ (5, auth_trust) ∷ []
unfolding hba_load_rules parse_from_string eat add_name strset_add starts_with
loaded_rules = refl

ident_load_map-IsDistinct_example :
    (ident : Ident) × (ident_load_map env (some (codes "/etc/ident")) ≡ done (some ident))
    × IsDistinct ident
ident_load_map-IsDistinct_example =
    ident_load_map-IsDistinct env (codes "/etc/ident") ident_text refl (unfold equal in refl)

parse_names-ne_example :
    parse_names env 1 true rules_file no_name
      (parse_from_string env.mem (codes "joe,\"a b\" rest") init_parser)
    ≢ out_of_fuel
parse_names-ne_example =
    parse_names-ne env 1 true rules_file (codes "joe,\"a b\" rest") no_name
      (parse_from_string env.mem (codes "joe,\"a b\" rest") init_parser)
      (lacks-Nested env 0 rules_file _ refl)
      (parse_from_string-Within env.mem (codes "joe,\"a b\" rest") init_parser)
