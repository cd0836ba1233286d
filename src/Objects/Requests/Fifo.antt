-- ===== src/Objects/Requests/Fifo.antt =====
-- objects.c, add_outstanding_request and pop_outstanding_request: the order of requests.
use self_db_mini.Base.{
  ℕ, ◌≡◌, refl, true, false, ◌&&◌, none, some, List, [], ◌∷◌, ◌++◌, arith, is_empty,
}
use self_db_mini.Base.Outcome.{Ensures, holds}
use self_db_mini.Bouncer.{ResponseAction, OutstandingRequest, World}
use self_db_mini.Objects.Requests

abbrev pub request : ℕ → ResponseAction → OutstandingRequest
request type action = record {
  type = type;
  action = action;
  server_ps = none;
  server_ps_query_id = 0;
}

-- The first request of the queue is popped, and the rest are left.
abbrev pub Popped :
    Requests.RequestEnv → ℕ → List ℕ → OutstandingRequest → List OutstandingRequest → World → Type 0
Popped env s types first rest w =
    ((Requests.pop_outstanding_request env s types w).0 ≡ true)
    × ((Requests.pop_outstanding_request env s types w).1 ≡ some (Requests.is_skip first.action))
    × (((Requests.pop_outstanding_request env s types w).2.server s).outstanding_requests ≡ rest)

pop-Popped :
    (env : Requests.RequestEnv) (s : ℕ) (types : List ℕ) (first : OutstandingRequest)
    (rest : List OutstandingRequest) (w : World)
    → (w.server s).outstanding_requests ≡ first ∷ rest
    → Requests.is_fake first.action ≡ false
    → Requests.among first.type types ≡ true
    → Popped env s types first rest w
unfolding Requests.pop_outstanding_request Requests.with_requests
pop-Popped env s types first rest w e real h = (
  rw (e, real, h, Requests.pop_outstanding_request) refl,
  rw (e, real, h, Requests.pop_outstanding_request) refl,
  rw (e, real, h, Requests.pop_outstanding_request) (ground arith),
)

-- The queue of outstanding requests is first in first out: after add_outstanding_request for a
-- linked client, with memory for the request and where it is not a fake one that is answered at
-- once, pop_outstanding_request takes the first request of the queue, the new one included, if
-- that is not a fake one and is of one of the types, tells whether its response is skipped, and
-- leaves the rest.
pub pop-add :
    (env : Requests.RequestEnv) (c s type : ℕ) (action : ResponseAction) (types : List ℕ)
    (first : OutstandingRequest) (rest : List OutstandingRequest) (w : World)
    → (w.client c).link ≡ some s
    → env.has_memory w ≡ true
    → (Requests.is_fake action && is_empty (w.server s).outstanding_requests) ≡ false
    → (w.server s).outstanding_requests ++ request type action ∷ [] ≡ first ∷ rest
    → Requests.is_fake first.action ≡ false
    → Requests.among first.type types ≡ true
    → Ensures
        (λ r. (r.0 ≡ true) × Popped env s types first rest r.1)
        (Requests.add_outstanding_request env c type action w)
unfolding Requests.add_outstanding_request
pop-add env c s type action types first rest w l memory later e real h =
    rw (l, later, memory, Requests.add_outstanding_request)
      (holds (
        refl,
        pop-Popped env s types first rest _ (unfold Requests.with_requests in ground (arith, e))
            real h,
      ))
