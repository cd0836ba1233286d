-- ===== src/Objects/Requests.antt =====
-- objects.c: the queue of the requests that a server connection has not yet answered.
pub mod Order
pub mod Fifo
use self_db_mini.Base.{
  ℕ, ◌+◌, Bool, true, false, not, ◌&&◌, ◌||◌, Option, none, some, List, [], ◌∷◌, ◌++◌, ◌==◌,
  is_empty, is_some, ltb, if◌then◌else◌,
}
use self_db_mini.Base.Outcome.{Outcome, done, abort, ◌>>=◌}
use self_db_mini.Bouncer.{
  ResponseAction, ra_forward, ra_skip, ra_fake, OutstandingRequest, Server, World, put_server,
}
use self_db_mini.Objects.Env.{Calls}

-- include/common/protocol.h: 'P' and 'C'
abbrev parse : ℕ
parse = 80

abbrev close : ℕ
close = 67

unfoldable pub is_fake : ResponseAction → Bool
is_fake ra_fake = true
is_fake _ = false

pub is_skip : ResponseAction → Bool
is_skip ra_skip = true
is_skip _ = false

-- `strchr(types, type) != NULL`: the zero at the end of the text is found too.
unfoldable pub among : ℕ → List ℕ → Bool
among type [] = type == 0
among type (t ∷ ts) = type == t || among type ts

pub with_requests : ℕ → List OutstandingRequest → World → World
with_requests s rs w = put_server s (record (w.server s) { outstanding_requests = rs }) w

-- What packets, memory and prepared statements do here: whether a response can be queued for a
-- client, by its request's type; whether there is memory for a request; and whether a prepared
-- statement is put back into the cache of its server.
pub record RequestEnv : Type 0 where
  pub queue_response : ℕ → ℕ → World → Bool
  pub has_memory : World → Bool
  pub add_prepared_statement : ℕ → ℕ → World → Bool

module _ (env : RequestEnv) where
  pub queue_fake_response : ℕ → ℕ → World → Outcome (Bool × World)
  queue_fake_response c type w = elim (w.client c).link [
    | none ↦ abort
    | some s ↦
        if type == parse || type == close then done (env.queue_response type c w, w) else abort
  ]

  pub add_outstanding_request : ℕ → ℕ → ResponseAction → World → Outcome (Bool × World)
  unfolding queue_fake_response is_fake with_requests
  add_outstanding_request c type action w = elim (w.client c).link [
    | none ↦ abort
    | some s ↦
        let rs = (w.server s).outstanding_requests in
        let r : OutstandingRequest = record {
          type = type;
          action = action;
          server_ps = none;
          server_ps_query_id = 0;
        } in
        if is_fake action && is_empty rs
        then queue_fake_response c type w
        else if env.has_memory w
        then done (true, with_requests s (rs ++ r ∷ []) w)
        else done (false, w)
  ]

  -- Whether the request was popped, and what `*skip` is set to then
  pub pop_outstanding_request : ℕ → List ℕ → World → Bool × Option Bool × World
  unfolding is_fake is_skip among with_requests
  pop_outstanding_request s types w = elim (w.server s).outstanding_requests [
    | [] ↦ (false, none, w)
    | r ∷ rs ↦
        if is_fake r.action
        then (false, none, w)
        else if not (among r.type types)
        then (false, none, w)
        else (true, some (is_skip r.action), with_requests s rs w)
  ]

  -- A closed statement that is not closed after all goes back to the cache: whether that succeeds.
  put_back : ℕ → OutstandingRequest → World → Bool
  put_back s r w =
      if r.type == close && not (r.type == parse && ltb 0 r.server_ps_query_id)
      then elim r.server_ps [ none ↦ true | some ps ↦ env.add_prepared_statement s ps w ]
      else true

  -- The loop over the requests
  clear_until : Calls → ℕ → List ℕ → List OutstandingRequest → World → Outcome (Bool × World)
  unfolding put_back among with_requests
  clear_until calls s types [] w = done (true, w)
  clear_until calls s types (r ∷ rs) w =
      if not (put_back s r w)
      then (do
        w1 ← elim (w.server s).link [ none ↦ done w | some c ↦ calls.disconnect_client c true w ]
        w2 ← calls.disconnect_server s true w1
        done (false, w2))
      else if among r.type types
      then done (true, with_requests s rs w)
      else clear_until calls s types rs (with_requests s rs w)

  pub clear_outstanding_requests_until : Calls → ℕ → List ℕ → World → Outcome (Bool × World)
  unfolding clear_until
  clear_outstanding_requests_until calls s types w =
      clear_until calls s types (w.server s).outstanding_requests w
