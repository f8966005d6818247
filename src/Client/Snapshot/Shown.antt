-- ===== src/Client/Snapshot/Shown.antt =====
-- A whole snapshot: what a client shows after the lines of `state_lines`.
use rock_paper_scissors_batt.Base.{
  ℕ, suc, ◌-◌, ◌≡◌, refl, sym, ap, subst, ◌∙◌, inl, inr, List, [], ◌∷◌, ◌++◌, true, false, ◌||◌,
  ◌==◌, arith, length, replicate, Bool-cases,
}
use rock_paper_scissors_batt.Float.{Float}
use rock_paper_scissors_batt.State.{
  Player, ServerState, Phase, lobby_open, setup, round_active, repick, game_over, player,
  max_players, player_is_admitted,
}
use rock_paper_scissors_batt.Text.Bytes.{text, bytes_eq, is_space}
use rock_paper_scissors_batt.Text.Clean.{is_clean}
use rock_paper_scissors_batt.Server.Lines.{player_line, player_lines, phase_lines, state_lines}
use rock_paper_scissors_batt.Chase.Choice.{IsChoice}
use rock_paper_scissors_batt.Server.Slots.{Inv}
use rock_paper_scissors_batt.Match.Moves.{NamesDiffer}
use rock_paper_scissors_batt.Client.{ClientState, cleared, clear_players, zero_client}
use rock_paper_scissors_batt.Client.Messages.{PlayerLine, own_choice}
use rock_paper_scissors_batt.Client.Dispatch.{handle_server_line}
use rock_paper_scissors_batt.Client.PlayerLine.{IsWord, shown_choice}
use rock_paper_scissors_batt.Client.Snapshot.{
  handle_all, with_line, views, shown_line, handle_begin, handle_end,
}
use rock_paper_scissors_batt.Client.Snapshot.Players.{AllShown, players_shown}
use rock_paper_scissors_batt.Client.Snapshot.Told.{
  handle_all-append, after_phase, handle-phase_lines, after_phase-players, Tells, after_phase-Tells,
}

-- All but the table and the choice is as in `c`.
abbrev Rest : ClientState → ClientState → Type 0
Rest c t = t ≡ record c { players = t.players; selected_choice = t.selected_choice }

Rest-trans : (a b c : ClientState) → Rest a b → Rest b c → Rest a c
Rest-trans a b c f g =
    g
    ∙ ap
        (λ (u : ClientState). record u { players = c.players; selected_choice = c.selected_choice })
        f

own_choice-Rest : (l : PlayerLine) (c : ClientState) → Rest c (own_choice l (with_line c l))
unfolding own_choice with_line
own_choice-Rest l c = elim (Bool-cases (bytes_eq l.name c.my_name)) [
  | inr e ↦ rw e refl
  | inl e ↦ elim (Bool-cases (l.choice == b'R' || (l.choice == b'P' || l.choice == b'S'))) [
    | inr k ↦ rw (e, k) refl
    | inl k ↦ rw (e, k) refl
  ]
]

player_lines-Rest :
    (now : Float) (ps : List Player) (c : ClientState)
    → AllShown ps
    → Rest c (handle_all now c (player_lines ps))
unfolding handle_all player_lines
player_lines-Rest now [] c is = refl
player_lines-Rest now (p ∷ ps) c is = elim (Bool-cases (player_is_admitted p)) [
  | inr out ↦ rw out (player_lines-Rest now ps c (λ k. is (suc k)))
  | inl a ↦
      let shown = is 0 a in
      let d = handle_server_line now c (player_line p) in
      rw a (
        Rest-trans c d _
          (subst (Rest c) (sym (shown_line now c p shown.word shown.choice)) (own_choice-Rest _ c))
          (player_lines-Rest now ps d (λ k. is (suc k))))
]

-- The reading of a snapshot, in its parts.
snapshot_parts :
    (now : Float) (s : ServerState) (dst : Player) (c : ClientState)
    → handle_all now c (state_lines s dst)
      ≡ handle_all now (after_phase s.phase now s dst (clear_players c)) (player_lines s.players)
unfolding handle_all state_lines
snapshot_parts now s dst c =
    ap
      (λ (u : ClientState).
        handle_all now u
          (phase_lines s.phase s dst ++ (player_lines s.players ++ (text "STATE_END" ∷ []))))
      (handle_begin now c)
    ∙ handle_all-append now (clear_players c) (phase_lines s.phase s dst)
        (player_lines s.players ++ (text "STATE_END" ∷ []))
    ∙ ap (λ (u : ClientState). handle_all now u (player_lines s.players ++ (text "STATE_END" ∷ [])))
        (handle-phase_lines s.phase now s dst (clear_players c))
    ∙ handle_all-append now told (player_lines s.players) (text "STATE_END" ∷ [])
    ∙ handle_end now (handle_all now told (player_lines s.players))
  where
    told : ClientState
    told = after_phase s.phase now s dst (clear_players c)

admitted_parts :
    (p : Player)
    → player_is_admitted p ≡ true
    → (p.connected ≡ true) × (p.registered ≡ true) × (p.admitted ≡ true)
unfolding player_is_admitted
admitted_parts p h = (ground arith, ground arith, ground arith)

choice_shown :
    (p : Player)
    → p.choice_chosen ≡ true
    → IsChoice p.choice
    → (is_space (shown_choice p) ≡ false) × (is_clean (shown_choice p) ≡ true)
choice_shown p chosen (inl e) = rw (chosen, e) (refl, refl)
choice_shown p chosen (inr (inl e)) = rw (chosen, e) (refl, refl)
choice_shown p chosen (inr (inr e)) = rw (chosen, e) (refl, refl)

pub shown_of_Inv :
    (s : ServerState)
    → Inv s
    → ((k : ℕ) → player_is_admitted (player s k) ≡ true → IsWord (player s k).name)
    → AllShown s.players
shown_of_Inv s v words k a =
    let (on, _, adm) = admitted_parts (player s k) a in
    let slot = v.each k on in
    let (_, chosen, _) = slot.admitted_ready adm in
    let (visible, clean) = choice_shown (player s k) chosen (slot.chosen chosen) in
    record { word = words k a; choice = visible; choice_clean = clean }

-- After a whole snapshot the table of a client holds exactly the admitted players, one entry each in
-- the order of their slots and empty entries behind them, whatever it held before: with the name,
-- the kind, the flags, and the coordinates as %.3f prints them. The server's slots are in order, no
-- two registered players have one name, and a name is 1 to 31 bytes without blanks.
pub snapshot_shows :
    (now : Float) (s : ServerState) (dst : Player) (c : ClientState)
    → Inv s
    → NamesDiffer s
    → ((k : ℕ) → player_is_admitted (player s k) ≡ true → IsWord (player s k).name)
    → (handle_all now c (state_lines s dst)).players
      ≡ views s.players ++ replicate (max_players - length (views s.players)) zero_client
unfolding clear_players cleared
snapshot_shows now s dst c v d words =
    ap (λ (u : ClientState). u.players) (snapshot_parts now s dst c)
    ∙ players_shown now s.players _ [] max_players (omega (arith, v.size))
        (λ i j apart a b.
          let (on, reg, _) = admitted_parts (player s i) a in
          let (on', reg', _) = admitted_parts (player s j) b in d i j apart (on, reg) (on', reg'))
        (shown_of_Inv s v words) tt (after_phase-players s.phase now s dst (clear_players c))

-- After a whole snapshot the client of `dst` has been told of the phase: in the lobby that it can
-- join and how long, in SETUP and in a round how much time is left, and then that it cannot join; at
-- the end of the match an admitted player is told whether it won, and the client of a player who
-- was not admitted learns nothing. In the other phases the end of a match is not undone. The
-- server's slots are in order and a name is 1 to 31 bytes without blanks.
pub snapshot-Tells :
    (now : Float) (s : ServerState) (dst : Player) (c : ClientState)
    → Inv s
    → ((k : ℕ) → player_is_admitted (player s k) ≡ true → IsWord (player s k).name)
    → Tells s.phase now s dst c (handle_all now c (state_lines s dst))
snapshot-Tells now s dst c v words =
    subst (Tells s.phase now s dst c) (sym (snapshot_parts now s dst c)) (
      kept s.phase _ _ (player_lines-Rest now s.players _ (shown_of_Inv s v words))
        (after_phase-Tells s.phase now s dst c))
  where
    kept :
        (ph : Phase) (u t : ClientState)
        → Rest u t
        → Tells ph now s dst c u
        → Tells ph now s dst c t
    kept lobby_open u t r h = subst (Tells lobby_open now s dst c) (sym r) h
    kept setup u t r h = subst (Tells setup now s dst c) (sym r) h
    kept round_active u t r h = subst (Tells round_active now s dst c) (sym r) h
    kept repick u t r h = subst (Tells repick now s dst c) (sym r) h
    kept game_over u t r h = subst (Tells game_over now s dst c) (sym r) h
