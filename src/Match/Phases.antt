-- ===== src/Match/Phases.antt =====
-- The timers of src/server_state.c that close the lobby and the setup.
use rock_paper_scissors_batt.Base.{
  ℕ, ◌+◌, ◌≤◌, ◌≡◌, ◌≢◌, refl, ap, ◌⊎◌, inl, inr, List, [], ◌∷◌, Option, some, Bool, true, false,
  not, ltb, ◌&&◌, ◌||◌, ◌==◌, ◌>>=◌, if◌then◌else◌, arith, Bool-cases,
}
use rock_paper_scissors_batt.State.{
  Player, ServerState, Phase, lobby_open, setup, round_active, game_over, player, slots,
  setup_seconds, player_is_admitted,
}
use rock_paper_scissors_batt.Text.Bytes.{text}
use rock_paper_scissors_batt.Game.{admitted_count, all_admitted_ready, start_round}
use rock_paper_scissors_batt.Game.Counts.{all_admitted_ready_iff}
use rock_paper_scissors_batt.Server.Lines.{setup_open_line}
use rock_paper_scissors_batt.Server.Slots.{Inv, Goes, PhaseGoes, connected_count}
use rock_paper_scissors_batt.Server.Queue.{end_game-Goes, end_game-phase}
use rock_paper_scissors_batt.Server.Knot.{
  Settles, queue_broadcast-Yields, start_round-Goes, round_broadcast-Yields,
}
use rock_paper_scissors_batt.Server.{Step, queue_broadcast, end_game, start_active_round}
use rock_paper_scissors_batt.Match.Moves.{
  Moves-refl, Moves-of_Goes, fields-Moves, Ends, ends, Any, Ends-after, Ends-bind, Ends_of_Yields,
}
use rock_paper_scissors_batt.Match.{
  is_lobby, is_setup, lobby_closed, close_lobby_if_needed, expire_each, setup_expired,
  expire_unready_setup_players,
}

admitted_parts :
    (p : Player) → player_is_admitted p ≡ true → (p.connected ≡ true) × (p.admitted ≡ true)
unfolding player_is_admitted
admitted_parts p h = (ground arith, ground arith)

admitted_ready :
    (s : ServerState) (k : ℕ)
    → Inv s
    → player_is_admitted (player s k) ≡ true
    → ((player s k).choice_chosen ≡ true) × ((player s k).spawn_chosen ≡ true)
admitted_ready s k v h =
    let (on, adm) = admitted_parts (player s k) h in
    let (_, c, d) = (v.each k on).admitted_ready adm in (c, d)

-- Where the slots are in order, two admitted players are enough for `all_admitted_ready`.
pub all_ready :
    (s : ServerState) → Inv s → ltb (admitted_count s) 2 ≡ false → all_admitted_ready s ≡ true
all_ready s v few = (all_admitted_ready_iff s).1 (ground arith, λ k. admitted_ready s k v)

-- The match is on, or over.
abbrev pub IsStarted : ServerState → Type 0
IsStarted t = (t.phase ≡ round_active) ⊎ (t.phase ≡ game_over)

start_round-phase : (s : ServerState) → (start_round s).phase ≡ round_active
unfolding start_round
start_round-phase s = refl

IsStarted-of_PhaseGoes :
    (a : Phase) (t : ServerState) → a ≡ round_active → PhaseGoes a t.phase → IsStarted t
IsStarted-of_PhaseGoes a t e g = ground arith

forget :
    {s : ServerState} {P : ServerState → Type 0} {r : Option ServerState}
    → Ends s P r
    → Ends s Any r
forget (ends m p) = ends m tt

-- Nobody is dropped: everyone admitted has a kind and a spawn.
pub expire_each_none :
    (re : Step) (is : List ℕ) (s : ServerState) → Inv s → expire_each re is s ≡ some s
unfolding expire_each
expire_each_none re [] s v = refl
expire_each_none re (i ∷ is) s v = rw (keeps, expire_each) (expire_each_none re is s v)
  where
    keeps :
        (player_is_admitted (player s i)
          && (not (player s i).choice_chosen || not (player s i).spawn_chosen))
        ≡ false
    keeps = elim (Bool-cases (player_is_admitted (player s i))) [
      | inr no_player ↦ rw no_player refl
      | inl is_in ↦ let (a, b) = admitted_ready s i v is_in in rw (is_in, a, b) refl
    ]

module _ (re : Step) (n : ℕ) (settles : Settles re n) where
  pub start_active_round-IsStarted :
      (s : ServerState) → Inv s → connected_count s ≤ n → Ends s IsStarted (start_active_round re s)
  start_active_round-IsStarted s v few = Ends-after (Moves-of_Goes (start_round-Goes s v)) (
      Ends_of_Yields (round_broadcast-Yields re n settles s v few)
        λ t g. IsStarted-of_PhaseGoes (start_round s).phase t (start_round-phase s) g.phase)

  lobby_closed-IsStarted :
      (s : ServerState) → Inv s → connected_count s ≤ n → Ends s IsStarted (lobby_closed re s)
  unfolding lobby_closed
  lobby_closed-IsStarted s v few = split (ltb (admitted_count s) 2) refl
    where
      split :
          (a : Bool)
          → ltb (admitted_count s) 2 ≡ a
          → Ends s IsStarted (
              if a
              then some (end_game s)
              else if all_admitted_ready s
              then start_active_round re s
              else queue_broadcast re (text "WAITING_FOR_OTHERS") s)
      split true e = ends (Moves-of_Goes (end_game-Goes s v)) (inr (end_game-phase s))
      split false e = rw (all_ready s v e) (start_active_round-IsStarted s v few)

  -- The lobby's time is up.
  closes :
      (s : ServerState)
      → Inv s
      → connected_count s ≤ n
      → Ends s IsStarted (
          queue_broadcast re
            (text "LOBBY_CLOSED")
            (record s { phase = setup; setup_deadline = s.now + setup_seconds })
          >>= λ t. queue_broadcast re (setup_open_line setup_seconds) t >>= lobby_closed re)
  closes s v few =
      let t : ServerState = record s { phase = setup; setup_deadline = s.now + setup_seconds } in
      let m = fields-Moves s t v refl (λ h e. cc) in
      let f = m.fewer in
      Ends-after m (
        Ends-bind {P = λ u. Goes t u} _ _
          (Ends_of_Yields
            (queue_broadcast-Yields re n settles (text "LOBBY_CLOSED") t m.inv (omega arith))
            (λ u g. g))
          λ u _ g.
            let f' = g.fewer in
            Ends-bind {P = λ w. Goes u w} _ (lobby_closed re)
              (Ends_of_Yields
                (queue_broadcast-Yields re n settles (setup_open_line setup_seconds) u g.inv
                  (omega arith))
                (λ w h. h))
              λ w _ h. let f'' = h.fewer in lobby_closed-IsStarted w h.inv (omega arith))

  -- Once the lobby's time is up, `close_lobby_if_needed` starts the match or ends it.
  pub close_lobby-IsStarted :
      (s : ServerState)
      → Inv s
      → connected_count s ≤ n
      → s.phase ≡ lobby_open
      → s.join_deadline ≢ 0
      → s.join_deadline ≤ s.now
      → Ends s IsStarted (close_lobby_if_needed re s)
  unfolding close_lobby_if_needed
  close_lobby-IsStarted s v few lobby timed late =
      rw (ap is_lobby lobby) (rw (not_zero, not_early) (closes s v few))
    where
      not_zero : (s.join_deadline == 0) ≡ false
      not_zero = ground arith

      not_early : ltb s.now s.join_deadline ≡ false
      not_early = ground arith

  pub close_lobby-Ends :
      (s : ServerState) → Inv s → connected_count s ≤ n → Ends s Any (close_lobby_if_needed re s)
  unfolding close_lobby_if_needed
  close_lobby-Ends s v few =
      split (not (is_lobby s.phase)) (s.join_deadline == 0) (ltb s.now s.join_deadline)
    where
      split :
          (a b c : Bool)
          → Ends s Any (
              if a
              then some s
              else if b
              then some s
              else if c
              then some s
              else (queue_broadcast re
                    (text "LOBBY_CLOSED")
                    (record s { phase = setup; setup_deadline = s.now + setup_seconds })
                  >>= λ t.
                      queue_broadcast re (setup_open_line setup_seconds) t >>= lobby_closed re))
      split true b c = ends (Moves-refl v) tt
      split false true c = ends (Moves-refl v) tt
      split false false true = ends (Moves-refl v) tt
      split false false false = forget (closes s v few)

  setup_expired-IsStarted :
      (s : ServerState) → Inv s → connected_count s ≤ n → Ends s IsStarted (setup_expired re s)
  unfolding setup_expired
  setup_expired-IsStarted s v few = split (ltb (admitted_count s) 2) refl
    where
      split :
          (a : Bool)
          → ltb (admitted_count s) 2 ≡ a
          → Ends s IsStarted (
              if a
              then some (end_game s)
              else if all_admitted_ready s
              then start_active_round re s
              else some s)
      split true e = ends (Moves-of_Goes (end_game-Goes s v)) (inr (end_game-phase s))
      split false e = rw (all_ready s v e) (start_active_round-IsStarted s v few)

  pub expire-Ends :
      (s : ServerState)
      → Inv s
      → connected_count s ≤ n
      → Ends s Any (expire_unready_setup_players re s)
  unfolding expire_unready_setup_players
  expire-Ends s v few =
      rw (expire_each_none re slots s v)
        (split (not (is_setup s.phase)) (s.setup_deadline == 0) (ltb s.now s.setup_deadline))
    where
      split :
          (a b c : Bool)
          → Ends s Any
              (if a then some s else if b then some s else if c then some s else setup_expired re s)
      split true b c = ends (Moves-refl v) tt
      split false true c = ends (Moves-refl v) tt
      split false false true = ends (Moves-refl v) tt
      split false false false = forget (setup_expired-IsStarted s v few)
