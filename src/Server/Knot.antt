-- ===== src/Server/Knot.antt =====
-- The mutual recursion of src/server_state.c between broadcasts and `reevaluate_state`.
use rock_paper_scissors_batt.Base.{
  ℕ, zero, suc, ◌<◌, ◌≤◌, ◌≡◌, refl, sym, ◌∙◌, ◌⊎◌, inl, inr, List, [], ◌∷◌, Option, none, some,
  Bool, true, false, ◌&&◌, ◌||◌, ltb, leb, ◌==◌, if◌then◌else◌, ◌>>=◌, arith, get_or, map,
  Bool-cases,
}
use mathlib.Core.List.{append-nil}
use rock_paper_scissors_batt.State.{
  Player, ServerState, Phase, lobby_open, setup, round_active, repick, game_over, player, slots,
  empty_slot, player_is_alive, player_is_admitted, max_players,
}
use rock_paper_scissors_batt.State.Slots.{alive-empty, count_if-le}
use rock_paper_scissors_batt.Text.Bytes.{Bytes, text}
use rock_paper_scissors_batt.Game.{
  enter_round, start_round, admitted_count, active_alive_count, all_admitted_ready,
}
use rock_paper_scissors_batt.Server.Lines.{broadcast_text, player_line, round_start_line, left_line}
use rock_paper_scissors_batt.Server.Slots.{
  SlotInv, Inv, SameSlot, Goes, Goes-refl, Goes-trans, map-Goes, fields-Goes, drop_slot-Goes,
  connected_count,
}
use rock_paper_scissors_batt.Server.Queue.{broadcast_drops, snapshot_each-Goes, end_game-Goes}
use rock_paper_scissors_batt.Server.{
  Step, queue_each, drop_slot, drop_all, is_empty, snapshot_each, end_game, take_repick,
  repicked_loop, all_alive_repicked, queue_broadcast, broadcast_game_state, positions_loop,
  broadcast_positions, start_active_round, finish_repicks, drop_player, reevaluate_lobby_open,
  reevaluate_round_active, reevaluate_setup, reevaluate_repick, reevaluate_phase, reevaluate_state,
  reevaluate_at, count_alive_choice_types,
}

-- The run ends, in a state that `Goes` allows.
pub data Yields (s : ServerState) : Option ServerState → Type 0 where
  yields : {t : ServerState} → Goes s t → Yields s (some t)

pub Yields-after : {s t : ServerState} {r : Option ServerState} → Goes s t → Yields t r → Yields s r
Yields-after g (yields h) = yields (Goes-trans g h)

pub Yields-bind :
    {s : ServerState} (r : Option ServerState) (f : Step)
    → Yields s r
    → ((t : ServerState) → Goes s t → Yields t (f t))
    → Yields s (r >>= f)
Yields-bind none f y next = elim y [ ]
Yields-bind (some t) f (yields g) next = Yields-after g (next t g)

enter_round-SameSlot : (p : Player) → SameSlot p (enter_round p)
unfolding enter_round
enter_round-SameSlot p = record {
  connected = ground arith;
  fd = ground arith;
  rest = ground arith;
  grows = ([], same ∙ sym (append-nil p.outbuf));
}
  where
    same : (enter_round p).outbuf ≡ p.outbuf
    same = ground arith

enter_round-SlotInv : (p : Player) → SlotInv p → SlotInv (enter_round p)
unfolding enter_round player_is_admitted
enter_round-SlotInv p v = ground arith

enter_round-empty : enter_round empty_slot ≡ empty_slot
unfolding enter_round player_is_admitted empty_slot
enter_round-empty = refl

pub start_round-Goes : (s : ServerState) → Inv s → Goes s (start_round s)
unfolding start_round
start_round-Goes s v =
    let g =
      map-Goes enter_round s enter_round-SameSlot (λ k. enter_round-SlotInv (player s k))
        enter_round-empty v in
    Goes-trans g (fields-Goes _ (start_round s) g.inv refl (inr (inl refl)))

repicked_loop_sound :
    (seen : Bool) (ps : List Player) (k : ℕ)
    → repicked_loop seen ps ≡ true
    → player_is_alive (get_or ps k empty_slot) ≡ true
    → (get_or ps k empty_slot).repick_submitted ≡ true
unfolding repicked_loop
repicked_loop_sound seen [] k h a = cc alive-empty
repicked_loop_sound seen (p ∷ ps) zero h a = ground arith
repicked_loop_sound seen (p ∷ ps) (suc k) h a =
    repicked_loop_sound (seen || player_is_alive p) ps k (ground arith) a

take_repick-SameSlot : (p : Player) → SameSlot p (take_repick p)
unfolding take_repick
take_repick-SameSlot p = record {
  connected = ground arith;
  fd = ground arith;
  rest = ground arith;
  grows = ([], same ∙ sym (append-nil p.outbuf));
}
  where
    same : (take_repick p).outbuf ≡ p.outbuf
    same = ground arith

take_repick-SlotInv :
    (p : Player)
    → (player_is_alive p ≡ true → p.repick_submitted ≡ true)
    → SlotInv p
    → SlotInv (take_repick p)
unfolding take_repick
take_repick-SlotInv p submitted v = ground arith

take_repick-empty : take_repick empty_slot ≡ empty_slot
unfolding take_repick player_is_alive empty_slot
take_repick-empty = refl

repicks-Goes :
    (s : ServerState)
    → all_alive_repicked s ≡ true
    → Inv s
    → Goes s (record s { players = map take_repick s.players })
unfolding all_alive_repicked
repicks-Goes s all v =
    map-Goes take_repick s take_repick-SameSlot
      (λ k. take_repick-SlotInv (player s k) (repicked_loop_sound false s.players k all))
      take_repick-empty v

reevaluate_lobby_open-Goes : (s : ServerState) → Inv s → Goes s (reevaluate_lobby_open s)
unfolding reevaluate_lobby_open
reevaluate_lobby_open-Goes s v = elim (Bool-cases (admitted_count s == 0)) [
  | inl e ↦ rw e (fields-Goes s (record s { join_deadline = 0 }) v refl (inl refl))
  | inr e ↦ rw e (Goes-refl v)
]

reevaluate_round_active-Goes : (s : ServerState) → Inv s → Goes s (reevaluate_round_active s)
unfolding reevaluate_round_active
reevaluate_round_active-Goes s v =
    split (leb (active_alive_count s) 1 || leb (count_alive_choice_types s) 1)
  where
    split : (b : Bool) → Goes s (if b then end_game s else s)
    split true = end_game-Goes s v
    split false = Goes-refl v

-- `re` ends on every state with fewer than `n` connections, and keeps the slots in order.
abbrev pub Settles : Step → ℕ → Type 0
Settles re n = (s : ServerState) → Inv s → connected_count s < n → Yields s (re s)

module _ (re : Step) (n : ℕ) (settles : Settles re n) where
  pub queue_broadcast-Yields :
      (line : Bytes) (s : ServerState)
      → Inv s
      → connected_count s ≤ n
      → Yields s (queue_broadcast re line s)
  unfolding queue_broadcast
  queue_broadcast-Yields line s v few =
      go (queue_each (broadcast_text line) slots s)
        (broadcast_drops (broadcast_text line) slots s v)
    where
      go :
          (r : List ℕ × ServerState)
          → Goes s r.1
            × (is_empty r.0 ≡ false
                → Goes s (drop_all r.0 r.1)
                  × (connected_count (drop_all r.0 r.1) < connected_count s))
          → Yields s (if is_empty r.0 then some r.1 else re (drop_all r.0 r.1))
      go ([], t) (g, d) = yields g
      go (i ∷ is, t) (g, d) =
          let (h, less) = d refl in
          Yields-after h (settles (drop_all (i ∷ is) t) h.inv (omega arith))

  pub broadcast_game_state-Yields :
      (s : ServerState) → Inv s → connected_count s ≤ n → Yields s (broadcast_game_state re s)
  unfolding broadcast_game_state
  broadcast_game_state-Yields s v few =
      go (snapshot_each slots false s) (snapshot_each-Goes slots false s v)
    where
      go :
          (r : Bool × ServerState)
          → Goes s r.1 × (r.0 ≡ true → (false ≡ true) ⊎ (connected_count r.1 < connected_count s))
          → Yields s (if r.0 then re r.1 else some r.1)
      go (false, t) (g, less) = yields g
      go (true, t) (g, less) = elim (less refl) [
        | inl e ↦ absurd (cc)
        | inr f ↦ Yields-after g (settles t g.inv (omega arith))
      ]

  positions_loop-Yields :
      (is : List ℕ) (s : ServerState)
      → Inv s
      → connected_count s ≤ n
      → Yields s (positions_loop re is s)
  unfolding positions_loop
  positions_loop-Yields [] s v few = yields (Goes-refl v)
  positions_loop-Yields (i ∷ is) s v few =
      Yields-bind _ (positions_loop re is) (first (player_is_admitted (player s i)))
        λ t g. let f = g.fewer in positions_loop-Yields is t g.inv (omega arith)
    where
      first :
          (b : Bool)
          → Yields s (if b then queue_broadcast re (player_line (player s i)) s else some s)
      first true = queue_broadcast-Yields (player_line (player s i)) s v few
      first false = yields (Goes-refl v)

  pub broadcast_positions-Yields :
      (s : ServerState) → Inv s → connected_count s ≤ n → Yields s (broadcast_positions re s)
  unfolding broadcast_positions
  broadcast_positions-Yields s v few = positions_loop-Yields slots s v few

  pub round_broadcast-Yields :
      (s : ServerState)
      → Inv s
      → connected_count s ≤ n
      → Yields (start_round s) (start_active_round re s)
  unfolding start_active_round
  round_broadcast-Yields s v few =
      let g = start_round-Goes s v in
      let f = g.fewer in
      Yields-bind _ (broadcast_positions re)
        (queue_broadcast-Yields (round_start_line (start_round s).round_no) (start_round s) g.inv
          (omega arith))
        λ t h. let f' = h.fewer in broadcast_positions-Yields t h.inv (omega arith)

  pub start_active_round-Yields :
      (s : ServerState) → Inv s → connected_count s ≤ n → Yields s (start_active_round re s)
  start_active_round-Yields s v few =
      Yields-after (start_round-Goes s v) (round_broadcast-Yields s v few)

  pub finish_repicks-Yields :
      (s : ServerState)
      → all_alive_repicked s ≡ true
      → Inv s
      → connected_count s ≤ n
      → Yields s (finish_repicks re s)
  unfolding finish_repicks
  finish_repicks-Yields s all v few =
      let g = repicks-Goes s all v in
      let f = g.fewer in
      Yields-after g (
        Yields-bind _ _ (queue_broadcast-Yields (text "REPICK_DONE") _ g.inv (omega arith)) λ t h.
          let f' = h.fewer in
          Yields-bind _ (start_active_round re) (broadcast_positions-Yields t h.inv (omega arith))
            λ u k. let f'' = k.fewer in start_active_round-Yields u k.inv (omega arith))

  pub drop_player-Yields :
      (s : ServerState) (i : ℕ) (announce : Bool)
      → Inv s
      → connected_count s ≤ n
      → Yields s (drop_player re s i announce)
  unfolding drop_player
  drop_player-Yields s i announce v few =
      go (announce && ((player s i).connected && (player s i).registered))
    where
      dropped : Goes s (drop_slot s i)
      dropped = drop_slot-Goes s i v

      go :
          (b : Bool)
          → Yields s (
              if b
              then (queue_broadcast re (left_line (player s i).name) (drop_slot s i)
                  >>= broadcast_game_state re)
              else some (drop_slot s i))
      go false = yields dropped
      go true =
          let f = dropped.fewer in
          Yields-after dropped (
            Yields-bind _ (broadcast_game_state re)
              (queue_broadcast-Yields (left_line (player s i).name) (drop_slot s i) dropped.inv
                (omega arith))
              λ t h. let f' = h.fewer in broadcast_game_state-Yields t h.inv (omega arith))

  reevaluate_setup-Yields :
      (s : ServerState) → Inv s → connected_count s ≤ n → Yields s (reevaluate_setup re s)
  unfolding reevaluate_setup
  reevaluate_setup-Yields s v few = go (ltb (admitted_count s) 2) (all_admitted_ready s)
    where
      go :
          (b c : Bool)
          → Yields s
              (if b then some (end_game s) else if c then start_active_round re s else some s)
      go true c = yields (end_game-Goes s v)
      go false true = start_active_round-Yields s v few
      go false false = yields (Goes-refl v)

  reevaluate_repick-Yields :
      (s : ServerState) → Inv s → connected_count s ≤ n → Yields s (reevaluate_repick re s)
  unfolding reevaluate_repick
  reevaluate_repick-Yields s v few = go (leb (active_alive_count s) 1) (all_alive_repicked s) refl
    where
      go :
          (b c : Bool)
          → all_alive_repicked s ≡ c
          → Yields s (if b then some (end_game s) else if c then finish_repicks re s else some s)
      go true c e = yields (end_game-Goes s v)
      go false true e = finish_repicks-Yields s e v few
      go false false e = yields (Goes-refl v)

  pub reevaluate_state-Yields :
      (s : ServerState) → Inv s → connected_count s ≤ n → Yields s (reevaluate_state re s)
  unfolding reevaluate_state reevaluate_phase
  reevaluate_state-Yields s v few = go s.phase
    where
      go : (ph : Phase) → Yields s (reevaluate_phase re ph s)
      go lobby_open = yields (reevaluate_lobby_open-Goes s v)
      go setup = reevaluate_setup-Yields s v few
      go repick = reevaluate_repick-Yields s v few
      go round_active = yields (reevaluate_round_active-Goes s v)
      go game_over = yields (Goes-refl v)

-- Nested calls of `reevaluate_state` end: `n` levels are enough below `n` connections.
pub reevaluate_at-Settles : (n : ℕ) → Settles (reevaluate_at n) n
unfolding reevaluate_at
reevaluate_at-Settles zero s v few = absurd (omega arith)
reevaluate_at-Settles (suc n) s v few =
    reevaluate_state-Yields (reevaluate_at n) n (reevaluate_at-Settles n) s v (omega arith)

-- From any state in which all connected slots are in order, `reevaluate_state` returns, though the
-- broadcasts that it makes call it again: 32 nested levels are enough. The state that it returns
-- is in order too, has no more connections, holds in each slot the same player with its setup and
-- its queued output kept or nobody, has closed exactly the sockets that it no longer holds, and is
-- in the same phase, in a round, or over.
pub reevaluate_state_ends :
    (s : ServerState)
    → Inv s
    → (t : ServerState) × (reevaluate_state (reevaluate_at max_players) s ≡ some t) × Goes s t
reevaluate_state_ends s v =
    let size = v.size in
    result (
      reevaluate_state-Yields (reevaluate_at max_players) max_players
        (reevaluate_at-Settles max_players) s v
        (omega (arith, count_if-le (λ p. p.connected) s.players)))
  where
    result : {r : Option ServerState} → Yields s r → (t : ServerState) × (r ≡ some t) × Goes s t
    result (yields {t} g) = (t, refl, g)
