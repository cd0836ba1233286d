-- ===== src/Objects/Find/Idle.antt =====
-- objects.c, find_server: the head of the idle list, and the link to it.
use self_db_mini.Base.{
  ℕ, ◌+◌, ◌%◌, ◌^◌, ◌⊎◌, ◌≡◌, refl, Bool, true, false, none, some, arith, Option-cases, inl, inr,
  count-head?,
}
use self_db_mini.Base.Placement.{holds-pos}
use self_db_mini.Bouncer.{
  ClientState, cl_active, cl_login, ServerState, sv_idle, sv_active, World, put_pool,
  idle_server_list, ServerList-discrete, first_server, sending_auth_query,
}
use self_db_mini.Objects.State.{change_server_state, list_of_server, is_waiting}
use self_db_mini.Objects.State.Placed.{server_home, change_server_state-ServersPlaced}
use self_db_mini.Objects.Links.{link}
use self_db_mini.Objects.Links.Sound.{Inv, states_match, owns_server}
use self_db_mini.Objects.Find

idle_of_home :
    (st : ServerState) (p q : ℕ) → list_of_server st q ≡ some (idle_server_list p) → st ≡ sv_idle
unfolding list_of_server
idle_of_home st p q e = ground arith

-- Where the invariant holds, the connection at the head of the idle list of a pool is idle.
pub first_idle :
    (p s : ℕ) (w : World)
    → first_server w (idle_server_list p) ≡ some s
    → Inv w
    → (w.server s).state ≡ sv_idle
first_idle p s w e v = idle_of_home (w.server s).state p (w.server s).pool (
    holds-pos ServerList-discrete (idle_server_list p) (server_home (w.server s)) (
      omega (
        arith,
        v.servers_placed s (idle_server_list p),
        count-head? s (w.server_list (idle_server_list p)) e,
      )))

pub idle_unlinked :
    (s : ℕ) (w : World) → (w.server s).state ≡ sv_idle → Inv w → (w.server s).link ≡ none
unfolding states_match
idle_unlinked s w e v = elim (Option-cases (w.server s).link) [
  | inl n ↦ n
  | inr (c, l) ↦ ground (arith, l, e, v.matching c s (v.to_client c s l))
]

pub assign-Inv :
    (c s : ℕ) (w : World)
    → (w.client c).link ≡ none
    → (w.server s).link ≡ none
    → ((owns own : Bool) → states_match (w.client c).state owns sv_active own ≡ true)
    → Inv w
    → Inv (Find.assign c s w)
unfolding Find.assign link change_server_state sending_auth_query
assign-Inv c s w e f m v =
    let w1 = link c s w in
    let p = (w1.server s).pool in
    record {
      clients_placed = λ a l. ground (arith, v.clients_placed a l);
      servers_placed =
          change_server_state-ServersPlaced s sv_active
            (put_pool p
              (record (w1.pool p) {
                server_assignment_count = ((w1.pool p).server_assignment_count + 1) % 2 ^ 64;
              })
              w1)
            (λ a l. ground (arith, v.servers_placed a l));
      to_server = λ c' s' h. ground (arith, v.to_server c' s', v.to_client c' s');
      to_client = λ c' s' h. ground (arith, v.to_client c' s', v.to_server c' s');
      matching = λ c' s' h. ground (
        arith,
        v.matching c' s',
        v.to_server c' s',
        m (owns_server (w.client c)) (w.server s).replication,
      );
    }

pub serving_cases :
    (st : ClientState) → Find.is_serving st ≡ true → (st ≡ cl_active) ⊎ (st ≡ cl_login)
unfolding Find.is_serving
serving_cases cl_active e = inl refl
serving_cases cl_login e = inr refl
serving_cases _ e = cc

pub serving_lem :
    (st : ClientState)
    → Find.is_serving st ≡ true
    → (is_waiting st ≡ false) × ((owns own : Bool) → states_match st owns sv_active own ≡ true)
unfolding Find.is_serving is_waiting states_match
serving_lem cl_active e = (refl, λ owns own. refl)
serving_lem cl_login e = (refl, λ owns own. refl)
serving_lem _ e = cc
