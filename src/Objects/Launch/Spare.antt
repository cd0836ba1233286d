-- ===== src/Objects/Launch/Spare.antt =====
-- objects.c, evict_connection: the spare connections of a pool, those that are idle, used or
-- tested, and how many there are.
use self_db_mini.Base.{
  ℕ, ◌+◌, ◌<◌, ◌≡◌, refl, Bool, true, false, Option, none, some, List, [], ◌∷◌, arith, length,
  count, count-get_last?, is_empty, Bool-cases, inl, inr, ◌⊎◌, ltb, ◌∙◌, ap,
}
use self_db_mini.Base.Placement.{detach, attach, holds, length-move}
use self_db_mini.Bouncer.{
  World, ServerState, sv_idle, sv_used, sv_tested, ServerList, justfree_server_list,
  idle_server_list, used_server_list, tested_server_list, ServerList-discrete, last_server,
  waiting_client_list,
}
use self_db_mini.Objects.State.{list_of_server}
use self_db_mini.Objects.State.Placed.{server_home, ServersPlaced}
use self_db_mini.Objects.Launch

-- The lists after a connection is closed.
abbrev pub lists_without : ℕ → World → ServerList → List ℕ
lists_without s w =
    attach ServerList-discrete false (some justfree_server_list) s
      (detach ServerList-discrete (server_home (w.server s)) s w.server_list)

unfoldable pub is_spare : ServerState → Bool
is_spare sv_idle = true
is_spare sv_used = true
is_spare sv_tested = true
is_spare _ = false

-- How often a connection stands in a spare list of one of the pools.
unfoldable pub count_spare : ℕ → World → List ℕ → ℕ
count_spare s w [] = 0
count_spare s w (p ∷ ps) =
    count s (w.server_list (idle_server_list p))
    + count s (w.server_list (used_server_list p))
    + count s (w.server_list (tested_server_list p))
    + count_spare s w ps

pub length-without :
    (s : ℕ) (l : ServerList) (w w' : World)
    → holds ServerList-discrete l (some justfree_server_list) ≡ 0
    → w'.server_list ≡ lists_without s w
    → ServersPlaced w
    → length (w'.server_list l) + count s (w.server_list l) ≡ length (w.server_list l)
length-without s l w w' h e placed =
    ap (λ (lists : ServerList → List ℕ). length (lists l) + count s (w.server_list l)) e
    ∙ length-move ServerList-discrete (server_home (w.server s)) (some justfree_server_list) s
        w.server_list l (placed s l) h

-- Closing a connection takes it from the spare ones.
pub evictable-without :
    (s : ℕ) (w w' : World) (ps : List ℕ)
    → w'.server_list ≡ lists_without s w
    → ServersPlaced w
    → Launch.evictable w' ps + count_spare s w ps ≡ Launch.evictable w ps
unfolding Launch.evictable count_spare holds ServerList-discrete
evictable-without s w w' [] e placed = refl
evictable-without s w w' (p ∷ ps) e placed = omega (
  arith,
  length-without s (idle_server_list p) w w' refl e placed,
  length-without s (used_server_list p) w w' refl e placed,
  length-without s (tested_server_list p) w w' refl e placed,
  evictable-without s w w' ps e placed,
)

compare_cases :
    (w : World) (a b : Option ℕ) (s : ℕ)
    → Launch.compare_connections_by_time w a b ≡ some s
    → (a ≡ some s) ⊎ (b ≡ some s)
unfolding Launch.compare_connections_by_time
compare_cases w none b s e = inr e
compare_cases w (some a) none s e = inl e
compare_cases w (some a) (some b) s e =
    elim (Bool-cases (ltb (w.server a).request_time (w.server b).request_time)) [
      | inl h ↦ inl (ground (arith, h, e))
      | inr h ↦ inr (ground (arith, h, e))
    ]

compare_last :
    (w : World) (o : Option ℕ) (l : ServerList) (s : ℕ)
    → Launch.compare_connections_by_time w o (last_server w l) ≡ some s
    → (o ≡ some s) ⊎ (0 < count s (w.server_list l))
compare_last w o l s e = elim (compare_cases w o (last_server w l) s e) [
  | inl h ↦ inl h
  | inr h ↦ inr (count-get_last? s (w.server_list l) h)
]

-- The oldest connection of a pool is a spare one of it, or the oldest so far.
oldest_of_pool_cases :
    (w : World) (o : Option ℕ) (p s : ℕ)
    → Launch.oldest_of_pool w o p ≡ some s
    → (o ≡ some s) ⊎ (0 < count_spare s w (p ∷ []))
unfolding Launch.oldest_of_pool count_spare
oldest_of_pool_cases w o p s e =
    elim (Bool-cases (is_empty (w.client_list (waiting_client_list p)))) [
      | inr h ↦ elim (compare_last w o (idle_server_list p) s (ground (arith, h, e))) [
        | inl k ↦ inl k
        | inr k ↦ inr (omega (arith, k))
      ]
      | inl h ↦ elim (compare_last w _ (tested_server_list p) s (ground (arith, h, e))) [
        | inr k ↦ inr (omega (arith, k))
        | inl k ↦ elim (compare_last w _ (used_server_list p) s k) [
          | inr k' ↦ inr (omega (arith, k'))
          | inl k' ↦ elim (compare_last w o (idle_server_list p) s k') [
            | inl k'' ↦ inl k''
            | inr k'' ↦ inr (omega (arith, k''))
          ]
        ]
      ]
    ]

-- The oldest connection is a spare one of the pools.
pub oldest_connection_cases :
    (w : World) (chosen : ℕ → Bool) (ps : List ℕ) (o : Option ℕ) (s : ℕ)
    → Launch.oldest_connection w chosen o ps ≡ some s
    → (o ≡ some s) ⊎ (0 < count_spare s w ps)
unfolding Launch.oldest_connection count_spare
oldest_connection_cases w chosen [] o s e = inl e
oldest_connection_cases w chosen (p ∷ ps) o s e = elim (oldest_connection_cases w chosen ps _ s e) [
  | inr h ↦ inr (omega (arith, h))
  | inl h ↦ elim (Bool-cases (chosen p)) [
    | inr miss ↦ inl (ground (arith, miss, h))
    | inl hit ↦ elim (oldest_of_pool_cases w o p s (ground (arith, hit, h))) [
      | inl k ↦ inl k
      | inr k ↦ inr (unfold count_spare in omega (arith, k))
    ]
  ]
]

not_spare_home :
    (st : ServerState) (p q : ℕ)
    → is_spare st ≡ false
    → (holds ServerList-discrete (idle_server_list p) (list_of_server st q) ≡ 0)
      × (holds ServerList-discrete (used_server_list p) (list_of_server st q) ≡ 0)
      × (holds ServerList-discrete (tested_server_list p) (list_of_server st q) ≡ 0)
unfolding is_spare list_of_server holds ServerList-discrete
not_spare_home st p q e = ground arith

not_spare_count :
    (s : ℕ) (w : World) (ps : List ℕ)
    → ServersPlaced w
    → is_spare (w.server s).state ≡ false
    → count_spare s w ps ≡ 0
unfolding count_spare
not_spare_count s w [] placed e = refl
not_spare_count s w (p ∷ ps) placed e =
    let (i, u, t) = not_spare_home (w.server s).state p (w.server s).pool e in
    omega (
      arith,
      i,
      u,
      t,
      placed s (idle_server_list p),
      placed s (used_server_list p),
      placed s (tested_server_list p),
      not_spare_count s w ps placed e,
    )

-- A connection that stands in a spare list is a spare one.
pub count_spare_lem :
    (s : ℕ) (w : World) (ps : List ℕ)
    → ServersPlaced w
    → 0 < count_spare s w ps
    → is_spare (w.server s).state ≡ true
count_spare_lem s w ps placed h = elim (Bool-cases (is_spare (w.server s).state)) [
  | inl e ↦ e
  | inr e ↦ absurd (omega (arith, h, not_spare_count s w ps placed e))
]
