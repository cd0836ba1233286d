-- ===== src/Objects/Links.antt =====
-- objects.c: the link between a client and the server connection that serves it, made and cut by
-- assignments to `client->link` and `server->link`.
pub mod Sound
use self_db_mini.Base.{ℕ, Option, none, some, ◌==◌, if◌then◌else◌}
use self_db_mini.Bouncer.{Client, Server, World, put, put_client, put_server}

-- `client->link = server; server->link = client;`
unfoldable pub link : ℕ → ℕ → World → World
link c s w = record w {
  client = put c (record (w.client c) { link = some s }) w.client;
  server = put s (record (w.server s) { link = some c }) w.server;
}

-- `server->link = NULL; client->link = NULL;`
unfoldable pub unlink : ℕ → ℕ → World → World
unlink c s w = record w {
  client = put c (record (w.client c) { link = none }) w.client;
  server = put s (record (w.server s) { link = none }) w.server;
}
