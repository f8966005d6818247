-- ===== src/Client/Inv/Lines.antt =====
-- Every line of the server keeps the client's state in order.
use rock_paper_scissors_batt.Base.{
  ◌<◌, refl, inl, inr, List, [], ◌∷◌, Option, none, some, ◌||◌, ◌==◌, length, Bool-cases,
}
use rock_paper_scissors_batt.Float.{Float}
use rock_paper_scissors_batt.State.{max_name_length}
use rock_paper_scissors_batt.Text.Bytes.{Bytes, text, bytes_eq, starts_with}
use rock_paper_scissors_batt.Text.Scan.{scan_text, scan_int}
use rock_paper_scissors_batt.Client.{
  ClientPlayer, ClientState, clear_players, cleared, find_player, get_or_add_player,
}
use rock_paper_scissors_batt.Client.Messages.{
  scan_name_of, PlayerLine, scan_player, show_player, own_choice, player_branch, round_start_branch,
  PairLine, scan_pair, scan_winner, show_pair, winner_branch, tie_branch, pair_branch, bye_branch,
  game_over_result, game_over_branch, parse_state_snapshot_line,
}
use rock_paper_scissors_batt.Client.Dispatch.{
  LineParser, general, snapshot, DispatchEntry, dispatch_from, dispatch_table, line_matches,
  run_parser, handle_server_line,
}
use rock_paper_scissors_batt.Client.Inv.{
  TableInv, ClientInv, set_status-Inv, with_table, cleared-TableInv, update_player-TableInv,
  get_or_add_player-TableInv,
}
use rock_paper_scissors_batt.Client.Inv.General.{general_line-Inv}
use rock_paper_scissors_batt.Client.Inv.Branches.{
  Holds-bind, Holds-some, Good, first_branch-Inv, on-Good, scan_player-short,
}

show_player-TableInv :
    (l : PlayerLine) (ps : List ClientPlayer)
    → length l.name < max_name_length
    → TableInv ps
    → TableInv (show_player l ps)
unfolding show_player
show_player-TableInv l ps short v =
    let r = get_or_add_player ps l.name in
    update_player-TableInv r.0 _ r.1 (λ p. (refl, λ h. h))
      (get_or_add_player-TableInv ps l.name short v)

show_pair-TableInv :
    (l : PairLine) (loser : Bytes) (ps : List ClientPlayer)
    → TableInv ps
    → TableInv (show_pair l loser ps)
unfolding show_pair
show_pair-TableInv l loser ps v =
    update_player-TableInv (find_player ps loser) _ _ (λ p. (refl, λ h. h))
      (update_player-TableInv (find_player ps l.winner) _ ps (λ p. (refl, λ h. h)) v)

own_choice-Inv : (l : PlayerLine) (s : ClientState) → ClientInv s → ClientInv (own_choice l s)
unfolding own_choice
own_choice-Inv l s v = elim (Bool-cases (bytes_eq l.name s.my_name)) [
  | inr e ↦ rw e v
  | inl e ↦ elim (Bool-cases (l.choice == b'R' || (l.choice == b'P' || l.choice == b'S'))) [
    | inr k ↦ rw (e, k) v
    | inl k ↦ rw (e, k) v
  ]
]

game_over_result-Inv :
    (word : Bytes) (s : ClientState) → ClientInv s → ClientInv (game_over_result word s)
unfolding game_over_result
game_over_result-Inv word s v = elim (Bool-cases (bytes_eq word (text "WIN"))) [
  | inl e ↦ rw e (set_status-Inv _ _ v)
  | inr e ↦ elim (Bool-cases (bytes_eq word (text "LOSE"))) [
    | inl f ↦ rw (e, f) (set_status-Inv _ _ v)
    | inr f ↦ rw (e, f) (set_status-Inv _ _ v)
  ]
]

either-Good :
    (a b : Option ClientState) → Good a → Good b → Good (elim a [ some t ↦ some t | none ↦ b ])
either-Good none b ga gb = gb
either-Good (some t) b ga gb = ga

module _ (now : Float) (s : ClientState) (v : ClientInv s) (line : Bytes) where
  player-Good : Good (player_branch s line)
  unfolding player_branch
  player-Good = Holds-bind ClientInv (scan_player line) _ λ l e. own_choice-Inv l _ (
      with_table s (show_player l s.players)
        (show_player-TableInv l s.players
          (Holds-some _ (scan_player line) l (scan_player-short line) e) v.table)
        v)

  round_start-Good : Good (round_start_branch now s line)
  unfolding round_start_branch
  round_start-Good = Holds-bind ClientInv (scan_text (text "ROUND_START") line) _ λ rest _.
      Holds-bind ClientInv (scan_int rest) _ λ (round_no, rest) _.
        Holds-bind ClientInv (scan_int rest) _ λ (seconds, rest) _. set_status-Inv _ _ v

  winner-Good : Good (winner_branch s line)
  unfolding winner_branch
  winner-Good =
      Holds-bind ClientInv (scan_winner line) _
        λ l _. set_status-Inv _ _ (with_table s _ (show_pair-TableInv l _ s.players v.table) v)

  tie-Good : Good (tie_branch s line)
  unfolding tie_branch
  tie-Good = Holds-bind ClientInv (scan_pair line) _ λ r _. set_status-Inv s _ v

  pair-Good : Good (pair_branch s line)
  unfolding pair_branch
  pair-Good = elim (Bool-cases (starts_with (text "PAIR ") line)) [
    | inr e ↦ rw e tt
    | inl e ↦ rw e (either-Good (winner_branch s line) (tie_branch s line) winner-Good tie-Good)
  ]

  bye-Good : Good (bye_branch s line)
  unfolding bye_branch
  bye-Good = Holds-bind ClientInv (scan_name_of (text "BYE") line) _ λ n _. set_status-Inv s _ v

  game_over-Good : Good (game_over_branch s line)
  unfolding game_over_branch
  game_over-Good =
      Holds-bind ClientInv (scan_name_of (text "GAME_OVER") line) _
        λ w _. game_over_result-Inv w _ v

  snapshot_line-Inv : ClientInv (parse_state_snapshot_line now s line)
  unfolding parse_state_snapshot_line clear_players
  snapshot_line-Inv = first_branch-Inv s _ v (
    on-Good (bytes_eq line (text "STATE_BEGIN")) _ (with_table s cleared cleared-TableInv v),
    (
      on-Good (bytes_eq line (text "STATE_END")) s v,
      (
        player-Good,
        (
          round_start-Good,
          (
            on-Good (bytes_eq line (text "REPICK_START")) _ (set_status-Inv _ _ v),
            (
              on-Good (bytes_eq line (text "REPICK_DONE")) _ (set_status-Inv _ _ v),
              (pair-Good, (bye-Good, (game_over-Good, tt))),
            ),
          ),
        ),
      ),
    ),
  )

parser-Inv :
    (p : LineParser) (now : Float) (s : ClientState) (line : Bytes)
    → ClientInv s
    → ClientInv (run_parser p now s line)
unfolding run_parser
parser-Inv general now s line v = general_line-Inv now s v line
parser-Inv snapshot now s line v = snapshot_line-Inv now s v line

dispatch-Inv :
    (es : List DispatchEntry) (now : Float) (s : ClientState) (line : Bytes)
    → ClientInv s
    → ClientInv (dispatch_from es now s line)
unfolding dispatch_from
dispatch-Inv [] now s line v = v
dispatch-Inv (e ∷ es) now s line v = elim (Bool-cases (line_matches e line)) [
  | inl h ↦ rw h (parser-Inv e.parser now s line v)
  | inr h ↦ rw h (dispatch-Inv es now s line v)
]

-- Whatever line arrives, the client's table keeps 32 entries of names that fit, with no two entries
-- in use of one name, and every text of the state keeps fitting its buffer with its NUL.
pub handle_server_line-ClientInv :
    (now : Float) (s : ClientState) (line : Bytes)
    → ClientInv s
    → ClientInv (handle_server_line now s line)
unfolding handle_server_line
handle_server_line-ClientInv now s line v = dispatch-Inv dispatch_table now s line v
