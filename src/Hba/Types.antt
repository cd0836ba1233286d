-- ===== src/Hba/Types.antt =====
-- The structs of pgbouncer-1.25.0/include/hba.h, and what hba.c asks of the system.
use self_db_mini.Base.{ℕ, Bool, Option, List}
use self_db_mini.Hba.Text.{Str}
use self_db_mini.Hba.StrSet.{CbTree, StrSet}

-- 0 in a struct from calloc, AF_UNIX, AF_INET and AF_INET6
pub data Family : Type 0 where
  af_unspec af_unix af_inet af_inet6 : Family

pub data RuleType : Type 0 where
  rule_local rule_host rule_hostssl rule_hostnossl : RuleType

pub data AuthType : Type 0 where
  auth_trust auth_reject auth_md5 auth_plain auth_peer auth_cert auth_scram_sha_256 auth_ldap :
      AuthType

-- `all` is the flag ADDRESS_ALL; `addr` and `mask` are 16 bytes each.
pub record HbaAddress : Type 0 where
  pub all : Bool
  pub family : Family
  pub addr : List ℕ
  pub mask : List ℕ

-- The flags NAME_ALL, NAME_SAMEUSER and NAME_REPLICATION, and the names.
pub record HbaName (Tree : Type 0) : Type 0 where
  pub all : Bool
  pub sameuser : Bool
  pub replication : Bool
  pub name_set : Option (StrSet Tree)

-- `postgres_user_name` is NULL where the flag NAME_ALL, `all`, is set.
pub record Mapping : Type 0 where
  pub system_user_name : Str
  pub postgres_user_name : Option Str
  pub all : Bool

pub record IdentMap : Type 0 where
  pub map_name : Str
  pub mappings : List Mapping

abbrev pub Ident : Type 0
Ident = List IdentMap

-- `identmap` is the map that the pointer names: the maps are not changed while there are rules.
pub record HbaRule (Tree : Type 0) : Type 0 where
  pub rule_type : RuleType
  pub rule_method : AuthType
  pub address : HbaAddress
  pub db_name : HbaName Tree
  pub user_name : HbaName Tree
  pub identmap : Option IdentMap
  pub hba_linenr : ℕ
  pub auth_options : Option Str

abbrev pub Hba : Type 0 → Type 0
Hba Tree = List (HbaRule Tree)

-- A client's address: the bytes of `sin_addr` or `sin6_addr`.
pub data PgAddr : Type 0 where
  pga_unix : PgAddr
  pga_inet pga_inet6 : List ℕ → PgAddr

-- Functions of the system and of libusual. `mem n` tells whether an allocation of n bytes succeeds,
-- `set_mem` whether those of a new set do and `struct_mem` whether that of a struct does; `files` gives the lines of a file that can be opened.
pub record HbaEnv (Tree : Type 0) : Type 0 where
  pub mem : ℕ → Bool
  pub set_mem : Bool
  pub struct_mem : Bool
  pub tree : CbTree Tree
  pub dirname : Str → Str
  pub files : Str → Option (List Str)
  pub inet_pton : Family → Str → Option (List ℕ)
