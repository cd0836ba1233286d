-- ===== src/Objects/Frame.antt =====
-- What the handlers of objects.c have in common: the invariant, and the clients that they leave
-- alone.
use self_db_mini.Base.{ℕ, ◌≡◌, Bool, true, false, Option, none, some, arith, ◌≢◌}
use self_db_mini.Base.Outcome.{Ensures->>=, ◌>>=◌, done, Outcome, Ensures, holds, aborted, starved}
use self_db_mini.Bouncer.{
  ClientState, ClientList, ServerState, sv_free, Client, Server, World, put_client, put_server,
}
use self_db_mini.Objects.State.{
  change_client_state, change_server_state, is_waiting, move_client, corrected,
}
use self_db_mini.Objects.State.Placed.{change_client_state_moves}
use self_db_mini.Objects.Links.{unlink}
use self_db_mini.Objects.Links.Sound.{
  Inv, unlink-Inv, put_client-Inv, put_server-Inv, change_server_state-Inv, move_client-Inv,
  states_match, owns_server, may_link,
}
use self_db_mini.Objects.Env.{Env}

-- The client has no server connection, and does not wait for one.
abbrev pub IsQuiet : ℕ → World → Type 0
IsQuiet c w = ((w.client c).link ≡ none) × (is_waiting (w.client c).state ≡ false)

pub record Frame (w w' : World) : Type 0 where
  pub inv : Inv w'
  pub quiet : (c : ℕ) → IsQuiet c w → IsQuiet c w'

-- What is handled in the socket layer and in DNS keeps the sockets in order, and concerns the one
-- client whose data is read.
pub record IsOrderly (env : Env) : Type 0 where
  pub continue_inv : (c : ℕ) (w : World) → Inv w → Ensures Inv (env.sbuf_continue c w)
  pub continue_quiet :
      (c d : ℕ) (w : World) → c ≢ d → IsQuiet d w → Ensures (IsQuiet d) (env.sbuf_continue c w)
  pub alloc_free : (w : World) (s : ℕ) → env.slab_alloc w ≡ some s → (w.server s).state ≡ sv_free
  pub connect_frame : (s : ℕ) (w : World) → Inv w → Ensures (Frame w) (env.dns_connect s w)

pub Frame-refl : {w : World} → Inv w → Frame w w
Frame-refl v = record { inv = v; quiet = λ c q. q }

pub Frame-trans : {u v w : World} → Frame u v → Frame v w → Frame u w
Frame-trans f g = record { inv = g.inv; quiet = λ c q. g.quiet c (f.quiet c q) }

abbrev pub FrameFlag : World → Bool × World → Type 0
FrameFlag w r = Frame w r.1

-- A step within its frame, then the rest.
pub then-Frame :
    {u v : World} {m : Outcome World} → Frame u v → Ensures (Frame v) m → Ensures (Frame u) m
then-Frame f (holds g) = holds (Frame-trans f g)
then-Frame f aborted = aborted
then-Frame f starved = starved

-- The same where a flag is returned too.
pub then-FrameFlag :
    {u v : World} {m : Outcome (Bool × World)}
    → Frame u v
    → Ensures (FrameFlag v) m
    → Ensures (FrameFlag u) m
then-FrameFlag f (holds g) = holds (Frame-trans f g)
then-FrameFlag f aborted = aborted
then-FrameFlag f starved = starved

-- A write to a client that the frame does not see.
pub put_client-Frame :
    (c : ℕ) (x : Client) (w : World)
    → x.link ≡ (w.client c).link
    → x.state ≡ (w.client c).state
    → x.pool ≡ (w.client c).pool
    → owns_server x ≡ owns_server (w.client c)
    → Inv w
    → Frame w (put_client c x w)
put_client-Frame c x w e f g h v = record {
  inv = put_client-Inv c x w e f g h v;
  quiet = λ d q. ground (arith, q);
}

pub put_server-Frame :
    (s : ℕ) (x : Server) (w : World)
    → x.link ≡ (w.server s).link
    → x.state ≡ (w.server s).state
    → x.pool ≡ (w.server s).pool
    → x.replication ≡ (w.server s).replication
    → Inv w
    → Frame w (put_server s x w)
put_server-Frame s x w e f g h v = record { inv = put_server-Inv s x w e f g h v; quiet = λ d q. q }

pub unlink-Frame :
    (c s : ℕ) (w : World) → (w.client c).link ≡ some s → Inv w → Frame w (unlink c s w)
unlink-Frame c s w e v = record { inv = unlink-Inv c s w e v; quiet = λ d q. unlink-IsQuiet d q }
  where
    unlink-IsQuiet : (d : ℕ) → IsQuiet d w → IsQuiet d (unlink c s w)
    unlink-IsQuiet d q = unfold unlink in ground (arith, q)

move_client-IsQuiet :
    (c : ℕ) (new : ClientState) (from to : Option ClientList) (w : World)
    → is_waiting new ≡ false
    → (d : ℕ) → IsQuiet d w
    → IsQuiet d (move_client c new from to w)
unfolding move_client
move_client-IsQuiet c new from to w e d q = ground (arith, q)

-- A connection may change its state if that suits the client that it serves.
pub restate_server-Frame :
    (s : ℕ) (new : ServerState) (w : World)
    → ((c : ℕ)
        → (w.client c).link ≡ some s
        → may_link (w.client c) (record (w.server s) { state = new }) ≡ true)
    → Inv w
    → Frame w (change_server_state s new w)
unfolding change_server_state
restate_server-Frame s new w m v = record {
  inv = unfold change_server_state in change_server_state-Inv s new w m v;
  quiet = λ d q. q;
}

-- No client is linked to a connection that has no link, so its state may change.
pub change_server_state-Frame :
    (s : ℕ) (new : ServerState) (w : World)
    → (w.server s).link ≡ none
    → Inv w
    → Frame w (change_server_state s new w)
change_server_state-Frame s new w e v =
    restate_server-Frame s new w (λ c h. ground (arith, v.to_server c s)) v

-- A client that has no link and is to wait no longer may change its state.
pub change_client_state-Frame :
    (c : ℕ) (new : ClientState) (w : World)
    → is_waiting (corrected (w.client c).state new) ≡ false
    → ((s : ℕ)
        → (w.client c).link ≡ some s
        → states_match
            (corrected (w.client c).state new)
            (owns_server (w.client c))
            (w.server s).state
            (w.server s).replication
          ≡ true)
    → Inv w
    → Ensures (Frame w) (change_client_state c new w)
change_client_state-Frame c new w e m v = change_client_state_moves c new w λ from to h h'. record {
  inv = move_client-Inv c _ from to w h h' m v;
  quiet = λ d q. move_client-IsQuiet c _ from to w e d q;
}

-- A call within the frame, and a flag beside its result.
pub with_flag :
    {w : World} {m : Outcome World} (b : Bool)
    → Ensures (Frame w) m
    → Ensures (FrameFlag w) (m >>= λ w'. done (b, w'))
with_flag b f = Ensures->>= f λ w' g. holds g
