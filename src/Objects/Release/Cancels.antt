-- ===== src/Objects/Release/Cancels.antt =====
-- objects.c: the loops over `server->canceling_clients` of release_server and disconnect_server.
use self_db_mini.Base.{
  ℕ, ◌≡◌, refl, Bool, none, List, [], ◌∷◌, arith, Bool-cases, inl, inr, ap, ◌∙◌,
}
use self_db_mini.Bouncer.{ClientState, Server, World, put_client, sending_auth_query}
use self_db_mini.Objects.State.Placed.{server_home}
use self_db_mini.Objects.Links.Sound.{Inv}
use self_db_mini.Objects.Frame.{Frame, Frame-refl, Frame-trans, put_client-Frame, put_server-Frame}
use self_db_mini.Objects.Release.{unlink_cancels, forget_cancels}

-- The client's link and state are as they were.
abbrev pub SameClient : ℕ → World → World → Type 0
SameClient d w w' =
    ((w'.client d).link ≡ (w.client d).link) × ((w'.client d).state ≡ (w.client d).state)

abbrev forgetting : ℕ → World → World
forgetting c w = put_client c (record (w.client c) { canceled_server = none }) w

server-unlink_cancels :
    (drop : ClientState → Bool) (cs : List ℕ) (w : World)
    → (unlink_cancels drop cs w).1.server ≡ w.server
unfolding unlink_cancels
server-unlink_cancels drop [] w = refl
server-unlink_cancels drop (c ∷ cs) w = elim (Bool-cases (drop (w.client c).state)) [
  | inl e ↦ rw e (server-unlink_cancels drop cs (forgetting c w))
  | inr e ↦ rw e (server-unlink_cancels drop cs w)
]

client-unlink_cancels :
    (drop : ClientState → Bool) (cs : List ℕ) (w : World) (d : ℕ)
    → SameClient d w (unlink_cancels drop cs w).1
unfolding unlink_cancels
client-unlink_cancels drop [] w d = (refl, refl)
client-unlink_cancels drop (c ∷ cs) w d = elim (Bool-cases (drop (w.client c).state)) [
  | inl e ↦ rw e (
      let (l, st) = client-unlink_cancels drop cs (forgetting c w) d in
      (l ∙ ground arith, st ∙ ground arith))
  | inr e ↦ rw e (client-unlink_cancels drop cs w d)
]

unlink_cancels-Frame :
    (drop : ClientState → Bool) (cs : List ℕ) (w : World)
    → Inv w
    → Frame w (unlink_cancels drop cs w).1
unfolding unlink_cancels
unlink_cancels-Frame drop [] w v = Frame-refl v
unlink_cancels-Frame drop (c ∷ cs) w v = elim (Bool-cases (drop (w.client c).state)) [
  | inl e ↦
      let f : Frame w (forgetting c w) =
        unfold sending_auth_query in put_client-Frame c _ w refl refl refl refl v in
      rw e (Frame-trans f (unlink_cancels-Frame drop cs (forgetting c w) f.inv))
  | inr e ↦ rw e (unlink_cancels-Frame drop cs w v)
]

pub client-forget_cancels :
    (drop : ClientState → Bool) (s : ℕ) (w : World) (d : ℕ)
    → SameClient d w (forget_cancels drop s w)
unfolding forget_cancels
client-forget_cancels drop s w d = client-unlink_cancels drop (w.server s).canceling_clients w d

pub server_link-forget_cancels :
    (drop : ClientState → Bool) (s : ℕ) (w : World) (t : ℕ)
    → ((forget_cancels drop s w).server t).link ≡ (w.server t).link
unfolding forget_cancels
server_link-forget_cancels drop s w t =
    ground (arith, ap (λ (f : ℕ → Server). f s) kept, ap (λ (f : ℕ → Server). f t) kept)
  where
    kept : (unlink_cancels drop (w.server s).canceling_clients w).1.server ≡ w.server
    kept = server-unlink_cancels drop (w.server s).canceling_clients w

pub server_state-forget_cancels :
    (drop : ClientState → Bool) (s : ℕ) (w : World) (t : ℕ)
    → ((forget_cancels drop s w).server t).state ≡ (w.server t).state
unfolding forget_cancels
server_state-forget_cancels drop s w t =
    ground (arith, ap (λ (f : ℕ → Server). f s) kept, ap (λ (f : ℕ → Server). f t) kept)
  where
    kept : (unlink_cancels drop (w.server s).canceling_clients w).1.server ≡ w.server
    kept = server-unlink_cancels drop (w.server s).canceling_clients w

pub forget_cancels-Frame :
    (drop : ClientState → Bool) (s : ℕ) (w : World) → Inv w → Frame w (forget_cancels drop s w)
unfolding forget_cancels
forget_cancels-Frame drop s w v =
    let f = unlink_cancels-Frame drop (w.server s).canceling_clients w v in
    Frame-trans f (put_server-Frame s _ _ refl refl refl refl f.inv)

-- What is at hand of the lists after the loop: all of them.
lists-unlink_cancels :
    (drop : ClientState → Bool) (cs : List ℕ) (w : World)
    → ((unlink_cancels drop cs w).1.server_list ≡ w.server_list)
      × ((unlink_cancels drop cs w).1.pool_list ≡ w.pool_list)
unfolding unlink_cancels
lists-unlink_cancels drop [] w = (refl, refl)
lists-unlink_cancels drop (c ∷ cs) w = elim (Bool-cases (drop (w.client c).state)) [
  | inl e ↦ rw e (lists-unlink_cancels drop cs (forgetting c w))
  | inr e ↦ rw e (lists-unlink_cancels drop cs w)
]

pub lists-forget_cancels :
    (drop : ClientState → Bool) (s : ℕ) (w : World)
    → ((forget_cancels drop s w).server_list ≡ w.server_list)
      × ((forget_cancels drop s w).pool_list ≡ w.pool_list)
unfolding forget_cancels
lists-forget_cancels drop s w = lists-unlink_cancels drop (w.server s).canceling_clients w

pub server_home-forget_cancels :
    (drop : ClientState → Bool) (s : ℕ) (w : World) (t : ℕ)
    → server_home ((forget_cancels drop s w).server t) ≡ server_home (w.server t)
unfolding forget_cancels
server_home-forget_cancels drop s w t =
    ground (arith, ap (λ (f : ℕ → Server). f s) kept, ap (λ (f : ℕ → Server). f t) kept)
  where
    kept : (unlink_cancels drop (w.server s).canceling_clients w).1.server ≡ w.server
    kept = server-unlink_cancels drop (w.server s).canceling_clients w
