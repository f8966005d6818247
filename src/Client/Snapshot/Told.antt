-- ===== src/Client/Snapshot/Told.antt =====
-- What the lines of `phase_lines` tell a client.
use rock_paper_scissors_batt.Base.{
  ◌≡◌, refl, inl, inr, List, [], ◌∷◌, ◌++◌, true, not, ◌||◌, ◌==◌, if◌then◌else◌, Bool-cases, ◌-◌,
  false, arith,
}
use rock_paper_scissors_batt.Base.Int.{pos, negsuc, ltb_ℤ}
use rock_paper_scissors_batt.Float.{Float}
use rock_paper_scissors_batt.State.{
  Player, ServerState, Phase, lobby_open, setup, round_active, repick, game_over,
  player_is_admitted, zero_float,
}
use rock_paper_scissors_batt.Text.Bytes.{Bytes, text}
use rock_paper_scissors_batt.Server.Lines.{
  phase_lines, game_over_lines, seconds_left, player_won_match,
}
use rock_paper_scissors_batt.Client.{ClientState, set_status, clear_players}
use rock_paper_scissors_batt.Client.Dispatch.{handle_server_line}
use rock_paper_scissors_batt.Client.Snapshot.{handle_all}
use rock_paper_scissors_batt.Client.Snapshot.Phases.{
  lobby_opened, setup_opened, round_started, lobby_shut, lobby_waiting, finished, handle-lobby_open,
  handle-setup_open, handle-round_start, handle_lobby_lines, handle_game_over_lines,
  handle_repick_start, int_of,
}
use rock_paper_scissors_batt.Text.Scan.{to_long}
use rock_paper_scissors_batt.Client.Messages.{end_time}

pub handle_all-append :
    (now : Float) (c : ClientState) (xs ys : List Bytes)
    → handle_all now c (xs ++ ys) ≡ handle_all now (handle_all now c xs) ys
unfolding handle_all
handle_all-append now c [] ys = refl
handle_all-append now c (x ∷ xs) ys = handle_all-append now (handle_server_line now c x) xs ys

-- What the client of `dst` is told at the end of a match.
unfoldable pub after_end : Player → ClientState → ClientState
after_end dst c =
    if not dst.connected || not dst.registered
    then c
    else if player_won_match dst
    then set_status (finished (pos 1) c) (text "You won. Press M for rematch.")
    else if player_is_admitted dst
    then set_status (finished (negsuc 0) c) (text "You lost. Press M for rematch.")
    else c

unfoldable pub after_phase : Phase → Float → ServerState → Player → ClientState → ClientState
after_phase lobby_open now s dst c =
    if s.join_deadline == 0
    then lobby_waiting c
    else lobby_opened now (seconds_left s s.join_deadline) c
after_phase setup now s dst c = setup_opened now (seconds_left s s.setup_deadline) (lobby_shut c)
after_phase round_active now s dst c =
    round_started now (seconds_left s s.round_deadline) (lobby_shut c)
after_phase repick now s dst c =
    set_status (record (lobby_shut c) { repick_phase = true })
      (text "Repick phase. Press R, P, or S.")
after_phase game_over now s dst c = after_end dst c

handle_end_lines :
    (now : Float) (dst : Player) (c : ClientState)
    → handle_all now c (game_over_lines dst) ≡ after_end dst c
unfolding handle_all game_over_lines after_end
handle_end_lines now dst c = elim (Bool-cases (not dst.connected || not dst.registered)) [
  | inl e ↦ rw e refl
  | inr e ↦ elim (Bool-cases (player_won_match dst)) [
    | inl w ↦ rw (e, w) (handle_game_over_lines now c).0
    | inr w ↦ elim (Bool-cases (player_is_admitted dst)) [
      | inl a ↦ rw (e, w, a) (handle_game_over_lines now c).1
      | inr a ↦ rw (e, w, a) (handle_game_over_lines now c).2
    ]
  ]
]

pub handle-phase_lines :
    (ph : Phase) (now : Float) (s : ServerState) (dst : Player) (c : ClientState)
    → handle_all now c (phase_lines ph s dst) ≡ after_phase ph now s dst c
unfolding handle_all phase_lines after_phase
handle-phase_lines lobby_open now s dst c = elim (Bool-cases (s.join_deadline == 0)) [
  | inl e ↦ rw e (handle_lobby_lines now c).1
  | inr e ↦ rw e (handle-lobby_open now _ c)
]
handle-phase_lines setup now s dst c =
    rw (handle_lobby_lines now c).0 (handle-setup_open now _ (lobby_shut c))
handle-phase_lines round_active now s dst c =
    rw (handle_lobby_lines now c).0 (handle-round_start now _ _ (lobby_shut c))
handle-phase_lines repick now s dst c =
    rw (handle_lobby_lines now c).0 (handle_repick_start now (lobby_shut c))
handle-phase_lines game_over now s dst c = handle_end_lines now dst c

-- The phase's lines leave the table as it was.
pub after_phase-players :
    (ph : Phase) (now : Float) (s : ServerState) (dst : Player) (c : ClientState)
    → (after_phase ph now s dst c).players ≡ c.players
unfolding after_phase after_end lobby_waiting lobby_opened lobby_shut setup_opened round_started
    finished set_status
after_phase-players lobby_open now s dst c = ground arith
after_phase-players setup now s dst c = refl
after_phase-players round_active now s dst c = refl
after_phase-players repick now s dst c = refl
after_phase-players game_over now s dst c = ground arith

-- What a client is told of the phase: `t` is its state behind the snapshot, `c` that before.
abbrev pub Tells : Phase → Float → ServerState → Player → ClientState → ClientState → Type 0
Tells lobby_open now s dst c t =
    (t.can_attempt_join ≡ true)
    × (t.lobby_end_time ≡ (
        if s.join_deadline == 0
        then zero_float
        else end_time now (to_long false (s.join_deadline - s.now))))
    × (t.game_over ≡ c.game_over)
Tells setup now s dst c t =
    (t.can_attempt_join ≡ false)
    × (t.setup_end_time ≡ end_time now (int_of (s.setup_deadline - s.now)))
    × (t.game_over ≡ c.game_over)
Tells round_active now s dst c t =
    (t.can_attempt_join ≡ false)
    × (t.repick_phase ≡ false)
    × (t.setup_end_time ≡ zero_float)
    × (t.round_end_time ≡ (
        if ltb_ℤ (pos 0) (int_of (s.round_deadline - s.now))
        then end_time now (int_of (s.round_deadline - s.now))
        else zero_float))
    × (t.game_over ≡ c.game_over)
Tells repick now s dst c t =
    (t.can_attempt_join ≡ false) × (t.repick_phase ≡ true) × (t.game_over ≡ c.game_over)
Tells game_over now s dst c t =
    (player_is_admitted dst ≡ true
      → (t.game_over ≡ true)
        × (t.match_result ≡ (if dst.alive || dst.waiting then pos 1 else negsuc 0)))
    × (player_is_admitted dst ≡ false
        → (t.game_over ≡ c.game_over) × (t.match_result ≡ c.match_result))

pub after_phase-Tells :
    (ph : Phase) (now : Float) (s : ServerState) (dst : Player) (c : ClientState)
    → Tells ph now s dst c (after_phase ph now s dst (clear_players c))
unfolding after_phase after_end lobby_waiting lobby_opened lobby_shut setup_opened round_started
    finished set_status clear_players seconds_left player_is_admitted player_won_match
after_phase-Tells lobby_open now s dst c = ground arith
after_phase-Tells setup now s dst c = (refl, refl, refl)
after_phase-Tells round_active now s dst c = (refl, refl, refl, refl, refl)
after_phase-Tells repick now s dst c = (refl, refl, refl)
after_phase-Tells game_over now s dst c =
    (λ a. (ground arith, ground arith), λ a. (ground arith, ground arith))
