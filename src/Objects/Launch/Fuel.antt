-- ===== src/Objects/Launch/Fuel.antt =====
-- objects.c, launch_new_connection: the fuel of its loops over connections to evict.
use self_db_mini.Base.{
  ℕ, zero, suc, ◌<◌, ◌≡◌, refl, Bool, true, false, Option, none, some, List, [], ◌∷◌, arith, inl,
  inr, ◌∙◌, subst, count-get_last?,
}
use self_db_mini.Base.Outcome.{
  Outcome, Ensures, holds, Ensures->>=, Ensures-both, Ensures-at, IsSettled, returned,
  IsSettled->>=, IsSettled-if,
}
use self_db_mini.Bouncer.{World, idle_server_list, last_server}
use self_db_mini.Objects.Links.Sound.{Inv}
use self_db_mini.Objects.Env.{Calls}
use self_db_mini.Objects.Frame.{FrameFlag}
use self_db_mini.Objects.Release.Sound.{ClosesServers}
use self_db_mini.Objects.Disconnect.Spare.{Without}
use self_db_mini.Objects.Launch
use self_db_mini.Objects.Launch.Spare.{
  count_spare, is_spare, count_spare_lem, evictable-without, oldest_connection_cases,
}
use self_db_mini.Objects.Launch.Sound.{evict-Frame}

-- Closing a spare connection returns, and takes it from its list.
abbrev pub ShutsSpare : Calls → Type 0
ShutsSpare calls =
    (s : ℕ) (term : Bool) (w : World)
    → is_spare (w.server s).state ≡ true
    → Ensures (Without s w) (calls.disconnect_server s term w)
      × IsSettled (calls.disconnect_server s term w)

-- After a round that evicted something, fewer connections of the pools `ps` are left to evict.
abbrev pub Fewer : List ℕ → World → Bool × World → Type 0
Fewer ps w r =
    r.0 ≡ true → (r.1.pool_list ≡ w.pool_list) × (Launch.evictable r.1 ps < Launch.evictable w ps)

pub evict_while-IsSettled :
    (fuel : ℕ) (over : World → Bool) (evict : World → Outcome (Bool × World)) (all ps : List ℕ)
    (w : World)
    → ((w' : World)
        → w'.pool_list ≡ all
        → Inv w'
        → Ensures (λ r. FrameFlag w' r × Fewer ps w' r) (evict w') × IsSettled (evict w'))
    → w.pool_list ≡ all
    → Inv w
    → Launch.evictable w ps < fuel
    → IsSettled (Launch.evict_while fuel over evict w)
unfolding Launch.evict_while
evict_while-IsSettled zero over evict all ps w step e v h = absurd (omega (arith, h))
evict_while-IsSettled (suc fuel) over evict all ps w step e v h =
    let (less, settled) = step w e v in
    IsSettled-if (over w)
      (λ _. IsSettled->>= settled λ r k.
        IsSettled-if r.0
          (λ hit.
            let (f, g) = Ensures-at less k in
            let (same, fewer) = g hit in
            evict_while-IsSettled fuel over evict all ps r.1 step (same ∙ e) f.inv
              (omega (arith, h, fewer)))
          (λ _. returned))
      (λ _. returned)

module _ (calls : Calls) (closes : ClosesServers calls) (shuts : ShutsSpare calls) where
  evict_lem :
      (o : Option ℕ) (ps : List ℕ) (w : World)
      → ((s : ℕ) → o ≡ some s → 0 < count_spare s w ps)
      → Inv w
      → Ensures (λ r. FrameFlag w r × Fewer ps w r) (Launch.evict calls o w)
        × IsSettled (Launch.evict calls o w)
  evict_lem none ps w h v = (
    Ensures-both (evict-Frame calls closes none w v)
        (unfold Launch.evict in holds {a = (false, w)} (λ k. absurd (cc k))),
    unfold Launch.evict in returned,
  )
  evict_lem (some s) ps w h v =
      let (without, settled) =
        shuts s true w (count_spare_lem s w ps v.servers_placed (h s refl)) in
      (
        Ensures-both (evict-Frame calls closes (some s) w v) (
            unfold Launch.evict in
            Ensures->>= without λ w' u. holds (λ _.
              (u.1, omega (arith, evictable-without s w w' ps u.0 v.servers_placed, h s refl)))),
        unfold Launch.evict in IsSettled->>= settled λ w' _. returned,
      )

  -- The oldest connection of the chosen pools is evicted.
  pub evict_oldest :
      (chosen : World → ℕ → Bool) (all : List ℕ) (w : World)
      → w.pool_list ≡ all
      → Inv w
      → Ensures
          (λ r. FrameFlag w r × Fewer all w r)
          (Launch.evict calls (Launch.oldest_connection w (chosen w) none w.pool_list) w)
        × IsSettled (Launch.evict calls (Launch.oldest_connection w (chosen w) none w.pool_list) w)
  evict_oldest chosen all w e v =
      evict_lem (Launch.oldest_connection w (chosen w) none w.pool_list) all w
        (λ s h. elim (oldest_connection_cases w (chosen w) w.pool_list none s h) [
          | inl k ↦ absurd (cc k)
          | inr k ↦ subst (λ ps. 0 < count_spare s w ps) e k
        ])
        v

  pub evict_last :
      (p : ℕ) (w : World)
      → Inv w
      → Ensures (λ r. FrameFlag w r × Fewer (p ∷ []) w r) (Launch.evict_pool_connection calls p w)
        × IsSettled (Launch.evict_pool_connection calls p w)
  unfolding Launch.evict_pool_connection
  evict_last p w v =
      evict_lem (last_server w (idle_server_list p)) (p ∷ []) w
        (λ s h.
          unfold count_spare in
          omega (arith, count-get_last? s (w.server_list (idle_server_list p)) h))
        v
