-- ===== src/Settings.antt =====
-- pgbouncer-1.25.0/src/server.c: the settings of a pool, found on its user, its database or in the
-- configuration. -1 stands for a size that is not set.
use self_db_mini.Base.{ℕ, zero, suc, Bool, Option, none, some, if◌then◌else◌}
use self_db_mini.Base.Int.{ℤ, pos, negsuc, le_ℤ}
use self_db_mini.Base.Outcome.{Outcome, done, abort}
use self_db_mini.Bouncer.{World, GlobalUser, PoolMode, pool_session}

-- `x ? x->field : -1`
abbrev pub of_user : World → (GlobalUser → ℤ) → Option ℕ → ℤ
of_user w size none = negsuc 0
of_user w size (some u) = size (w.user u)

-- `a` where it is set, else `b`
abbrev pub if_set : ℤ → ℤ → ℤ
if_set (pos n) b = pos n
if_set (negsuc n) b = b

-- `a` where it is positive, else `b`
abbrev pub if_positive : ℤ → ℤ → ℤ
if_positive a b = if le_ℤ a (pos 0) then b else a

unfoldable pub pool_pool_size : World → ℕ → ℤ
pool_pool_size w p =
    if_set (of_user w (λ u. u.pool_size) (w.pool p).user)
      (if_set (w.db (w.pool p).db).pool_size w.config.default_pool_size)

unfoldable pub pool_res_pool_size : World → ℕ → ℤ
pool_res_pool_size w p =
    if_set (of_user w (λ u. u.res_pool_size) (w.pool p).user)
      (if_set (w.db (w.pool p).db).res_pool_size w.config.res_pool_size)

unfoldable pub database_min_pool_size : World → ℕ → ℤ
database_min_pool_size w d = if_set (w.db d).min_pool_size w.config.min_pool_size

unfoldable pub pool_min_pool_size : World → ℕ → ℤ
unfolding database_min_pool_size
pool_min_pool_size w p = database_min_pool_size w (w.pool p).db

unfoldable pub pool_server_lifetime : World → ℕ → ℕ
pool_server_lifetime w p = elim (w.db (w.pool p).db).server_lifetime [
  | zero ↦ w.config.server_lifetime
  | suc n ↦ suc n
]

unfoldable pub database_max_connections : World → ℕ → ℤ
unfolding le_ℤ
database_max_connections w d = if_positive (w.db d).max_db_connections w.config.max_db_connections

unfoldable pub user_max_connections : World → ℕ → ℤ
unfolding le_ℤ
user_max_connections w u = if_positive (w.user u).max_user_connections w.config.max_user_connections

-- `a == POOL_INHERIT ? b : a`
abbrev pub unless_inherited : Option PoolMode → PoolMode → PoolMode
unless_inherited none b = b
unless_inherited (some a) b = a

-- A pool with no user has no pool mode: the source reads through its NULL pointer.
unfoldable pub probably_wrong_pool_pool_mode : World → ℕ → Outcome PoolMode
probably_wrong_pool_pool_mode w p = elim (w.pool p).user [
  | none ↦ abort
  | some u ↦ done (
      unless_inherited (w.user u).pool_mode
        (unless_inherited (w.db (w.pool p).db).pool_mode w.config.pool_mode))
]

-- The second argument is whether the connection is a replication connection.
unfoldable pub connection_pool_mode : World → Bool → ℕ → Outcome PoolMode
unfolding probably_wrong_pool_pool_mode
connection_pool_mode w replication p =
    if replication then done pool_session else probably_wrong_pool_pool_mode w p
