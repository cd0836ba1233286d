-- ===== src/Objects/Env.antt =====
-- What the handlers of objects.c leave to the socket layer (sbuf.c), to DNS (dnslookup.c) and to
-- the cache of session variables (varcache.c), as the world stands when they are called.
use self_db_mini.Base.{ℕ, Bool, Option}
use self_db_mini.Base.Outcome.{Outcome}
use self_db_mini.Bouncer.{World}

pub record Env : Type 0 where
  -- `sbuf_pause(&client->sbuf)`: whether it succeeds
  pub sbuf_pause : ℕ → World → Bool
  -- `sbuf_close`, on the socket of a client and of a server connection: whether it succeeds
  pub sbuf_close_client : ℕ → World → Bool
  pub sbuf_close_server : ℕ → World → Bool
  -- `sbuf_continue(&client->sbuf)` reads what the client has sent, and handles it.
  pub sbuf_continue : ℕ → World → Outcome World
  -- whether the reset query can be sent to the server
  pub send_reset_query : ℕ → World → Bool
  -- `varcache_apply(server, client, &varchange)`: its result, and `varchange`
  pub varcache_apply : ℕ → ℕ → World → Bool × Bool
  -- `slab_alloc(server_cache)`: a server object that is not in use
  pub slab_alloc : World → Option ℕ
  -- `dns_connect(server)` looks the host up and starts to connect.
  pub dns_connect : ℕ → World → Outcome World

-- The three operations that call one another, as each of them sees the others.
pub record Calls : Type 0 where
  -- `disconnect_server(server, send_term, …)`
  pub disconnect_server : ℕ → Bool → World → Outcome World
  -- `disconnect_client(client, notify, …)` with a reason
  pub disconnect_client : ℕ → Bool → World → Outcome World
  pub release_server : ℕ → World → Outcome (Bool × World)
