-- ===== src/Objects/Requests/Order.antt =====
-- objects.c, clear_outstanding_requests_until: what it leaves.
use self_db_mini.Base.{
  ℕ, ◌≡◌, refl, Bool, true, false, Option, none, some, List, [], ◌∷◌, arith, Bool-cases, inl, inr,
  if◌then◌else◌,
}
use self_db_mini.Base.Outcome.{Ensures, holds, done, Ensures->>=, Ensures-weaken, ◌>>=◌}
use self_db_mini.Bouncer.{OutstandingRequest, World}
use self_db_mini.Objects.Env.{Calls}
use self_db_mini.Objects.Links.Sound.{Inv}
use self_db_mini.Objects.Frame.{Frame, FrameFlag, Frame-refl, Frame-trans, put_server-Frame}
use self_db_mini.Objects.Disconnect.Clients.{KeepsOrder}
use self_db_mini.Objects.Requests

-- The requests after the first of one of the types, or none.
unfoldable pub after_first : List ℕ → List OutstandingRequest → List OutstandingRequest
after_first types [] = []
after_first types (r ∷ rs) = if Requests.among r.type types then rs else after_first types rs

with_requests-Frame :
    (s : ℕ) (rs : List OutstandingRequest) (w : World)
    → Inv w
    → Frame w (Requests.with_requests s rs w)
unfolding Requests.with_requests
with_requests-Frame s rs w v =
    put_server-Frame s (record (w.server s) { outstanding_requests = rs }) w refl refl refl refl v

-- The queue of the server connection after the loop, if it was not closed.
abbrev pub Cleared : ℕ → List OutstandingRequest → World → Bool × World → Type 0
Cleared s rs w r = FrameFlag w r × (r.0 ≡ true → (r.1.server s).outstanding_requests ≡ rs)

module _ (env : Requests.RequestEnv) (calls : Calls) (keeps : KeepsOrder calls) where
  -- The client goes, if there is one, and the server connection is closed.
  drop_both-Frame :
      (s : ℕ) (w : World)
      → Inv w
      → Ensures
          (λ (r : Bool × World). FrameFlag w r × (r.0 ≡ false))
          (elim (w.server s).link [ none ↦ done w | some c ↦ calls.disconnect_client c true w ]
            >>= λ w1. calls.disconnect_server s true w1 >>= λ w2. done (false, w2))
  drop_both-Frame s w v = Ensures->>= (client_gone (w.server s).link) λ w1 f.
      Ensures->>= (keeps.servers.server_frame s true w1 f.inv) λ w2 g. holds (Frame-trans f g, refl)
    where
      client_gone :
          (l : Option ℕ)
          → Ensures (Frame w) (elim l [ none ↦ done w | some c ↦ calls.disconnect_client c true w ])
      client_gone none = holds (Frame-refl v)
      client_gone (some c) = keeps.clients.client_frame c true w v

  with_requests-own :
      (s : ℕ) (rs : List OutstandingRequest) (w : World)
      → ((Requests.with_requests s rs w).server s).outstanding_requests ≡ rs
  unfolding Requests.with_requests
  with_requests-own s rs w = ground arith

  clear_until-Cleared :
      (s : ℕ) (types : List ℕ) (rs : List OutstandingRequest) (w : World)
      → (w.server s).outstanding_requests ≡ rs
      → Inv w
      → Ensures (Cleared s (after_first types rs) w) (Requests.clear_until env calls s types rs w)
  unfolding Requests.clear_until after_first
  clear_until-Cleared s types [] w e v = holds (Frame-refl v, λ _. e)
  clear_until-Cleared s types (r ∷ rs) w e v =
      let f = with_requests-Frame s rs w v in
      elim (Bool-cases (Requests.put_back env s r w)) [
        | inr h ↦
            rw (h, Requests.clear_until)
              (Ensures-weaken (drop_both-Frame s w v) λ q g. (g.0, λ k. absurd (cc (k, g.1))))
        | inl h ↦ elim (Bool-cases (Requests.among r.type types)) [
          | inl k ↦
              rw (h, k, Requests.clear_until, after_first)
                (holds (f, λ _. with_requests-own s rs w))
          | inr k ↦
              rw (h, k, Requests.clear_until, after_first)
                (Ensures-weaken
                  (clear_until-Cleared s types rs (Requests.with_requests s rs w)
                    (with_requests-own s rs w) f.inv)
                  λ q g. (Frame-trans f g.0, g.1))
        ]
      ]

  -- Given operations that keep order, clear_outstanding_requests_until keeps the invariant of the
  -- sockets and leaves every client alone that neither waits nor has a connection; if it returns
  -- true, the queue of the connection is what stood behind the first request of one of the types,
  -- or is empty if there is none.
  pub clear_outstanding_requests_until-Cleared :
      (s : ℕ) (types : List ℕ) (w : World)
      → Inv w
      → Ensures
          (Cleared s (after_first types (w.server s).outstanding_requests) w)
          (Requests.clear_outstanding_requests_until env calls s types w)
  unfolding Requests.clear_outstanding_requests_until
  clear_outstanding_requests_until-Cleared s types w v =
      clear_until-Cleared s types (w.server s).outstanding_requests w refl v
