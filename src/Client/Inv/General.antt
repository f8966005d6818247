-- ===== src/Client/Inv/General.antt =====
-- `parse_general_line` keeps the client's state in order.
use rock_paper_scissors_batt.Base.{
  refl, List, [], ◌∷◌, ◌++◌, Option, none, some, Bool, true, false, ◌||◌, All, arith, length-take,
  if◌then◌else◌,
}
use rock_paper_scissors_batt.Float.{Float}
use rock_paper_scissors_batt.Text.Bytes.{Bytes, text, bytes_eq, starts_with}
use rock_paper_scissors_batt.Text.Scan.{skip_spaces, scan_text, scan_char, scan_float, scan_long}
use rock_paper_scissors_batt.Client.{
  ClientState, set_status, clear_players, cleared, find_player, name_copy,
}
use rock_paper_scissors_batt.Client.Messages.{on, scan_int_of, scan_name_of}
use rock_paper_scissors_batt.Client.General.{
  is_set, welcomed, welcome_branch, match_was_reset, lobby_open_branch, setup_open_branch,
  choice_ok_branch, spawn_ok_branch, error_branches, joined_status, left_branch, match_branches,
  last_branches, parse_general_line,
}
use rock_paper_scissors_batt.Client.Inv.{
  ClientInv, set_status-Inv, with_table, cleared-TableInv, update_player-TableInv,
}
use rock_paper_scissors_batt.Client.Inv.Branches.{Holds-bind, Good, first_branch-Inv, on-Good}

All-append : (xs ys : List (Option ClientState)) → All Good xs → All Good ys → All Good (xs ++ ys)
All-append [] ys h k = k
All-append (x ∷ xs) ys (g, h) k = (g, All-append xs ys h k)

named-Inv :
    (s : ClientState) (b : Bool)
    → ClientInv s
    → ClientInv (record s { my_name = if b then name_copy s.pending_name else s.my_name })
named-Inv s false v = v
named-Inv s true v = record {
  table = v.table;
  status_fits = v.status_fits;
  input_fits = v.input_fits;
  pending_fits = v.pending_fits;
  mine_fits = omega (arith, length-take 31 s.pending_name);
}

welcomed-Inv : (s : ClientState) → ClientInv s → ClientInv (welcomed s)
unfolding welcomed
welcomed-Inv s v = set_status-Inv _ _ (named-Inv s (is_set s.pending_name) v)

joined-Inv :
    (s : ClientState) (name : Option Bytes) → ClientInv s → ClientInv (joined_status s name)
unfolding joined_status
joined-Inv s none v = v
joined-Inv s (some name) v = set_status-Inv s _ v

module _ (now : Float) (s : ClientState) (v : ClientInv s) (line : Bytes) where
  welcome-Good : Good (welcome_branch s line)
  unfolding welcome_branch
  welcome-Good = Holds-bind ClientInv (scan_int_of (text "WELCOME") line) _ λ id _. welcomed-Inv s v

  reset-Inv : ClientInv (match_was_reset s)
  unfolding match_was_reset clear_players
  reset-Inv = set_status-Inv _ _ (with_table s cleared cleared-TableInv v)

  lobby_open-Good : Good (lobby_open_branch now s line)
  unfolding lobby_open_branch
  lobby_open-Good =
      Holds-bind ClientInv (scan_text (text "LOBBY_OPEN") line) _
        λ rest _. Holds-bind ClientInv (scan_long rest) _ λ (n, rest) _. set_status-Inv _ _ v

  setup_open-Good : Good (setup_open_branch now s line)
  unfolding setup_open_branch
  setup_open-Good =
      Holds-bind ClientInv (scan_int_of (text "SETUP_OPEN") line) _ λ n _. set_status-Inv _ _ v

  choice_ok-Good : Good (choice_ok_branch s line)
  unfolding choice_ok_branch
  choice_ok-Good = Holds-bind ClientInv (scan_text (text "CHOICE_OK") line) _ λ rest _.
      Holds-bind ClientInv (scan_char (skip_spaces rest)) _ λ (c, rest) _. set_status-Inv _ _ v

  spawn_ok-Good : Good (spawn_ok_branch s line)
  unfolding spawn_ok_branch
  spawn_ok-Good = Holds-bind ClientInv (scan_text (text "SPAWN_OK") line) _ λ rest _.
      Holds-bind ClientInv (scan_float rest) _
        λ (x, rest) _. Holds-bind ClientInv (scan_float rest) _ λ (y, rest) _. set_status-Inv _ _ v

  left-Good : Good (left_branch s line)
  unfolding left_branch
  left-Good = Holds-bind ClientInv (scan_name_of (text "LEFT") line) _ λ name _.
      set_status-Inv _ _ (
        with_table s _
          (update_player-TableInv (find_player s.players name) _ s.players
            (λ p. (refl, λ h. absurd (cc))) v.table)
          v)

  status-Good : (b : Bool) (t : Bytes) → Good (on b (set_status s t))
  status-Good b t = on-Good b _ (set_status-Inv s t v)

  match-Good : All Good (match_branches now s line)
  unfolding match_branches
  match-Good = (
    welcome-Good,
    (
      on-Good (bytes_eq line (text "MATCH_RESET")) _ reset-Inv,
      (
        status-Good (bytes_eq line (text "SPECTATING")) _,
        (
          on-Good (bytes_eq line (text "LOBBY_WAITING")) _ (set_status-Inv _ _ v),
          (
            lobby_open-Good,
            (
              on-Good (bytes_eq line (text "LOBBY_CLOSED")) _ (set_status-Inv _ _ v),
              (
                setup_open-Good,
                (
                  on-Good
                      (bytes_eq line (text "CHOOSE_TYPE") || starts_with (text "CHOOSE_SPAWN") line)
                      _ v,
                  (
                    choice_ok-Good,
                    (
                      spawn_ok-Good,
                      (
                        on-Good (bytes_eq line (text "JOINED_MATCH")) _ (set_status-Inv _ _ v),
                        (status-Good (starts_with (text "WAITING_FOR_OTHERS") line) _, tt),
                      ),
                    ),
                  ),
                ),
              ),
            ),
          ),
        ),
      ),
    ),
  )

  error-Good : All Good (error_branches s line)
  unfolding error_branches
  error-Good = (
    on-Good (starts_with (text "ERROR spawn_taken") line) _ (set_status-Inv _ _ v),
    (
      on-Good (starts_with (text "ERROR lobby_closed") line) _ (set_status-Inv _ _ v),
      (
        status-Good (starts_with (text "ERROR already_joined") line) _,
        (
          status-Good (starts_with (text "ERROR rematch_not_available") line) _,
          (
            on-Good (starts_with (text "ERROR duplicate_name") line) _ (set_status-Inv _ _ v),
            (
              on-Good (starts_with (text "ERROR already_registered") line) _ (set_status-Inv _ _ v),
              (
                on-Good (starts_with (text "ERROR register_first") line) _ (set_status-Inv _ _ v),
                tt,
              ),
            ),
          ),
        ),
      ),
    ),
  )

  last-Good : All Good (last_branches s line)
  unfolding last_branches
  last-Good = (
    on-Good (starts_with (text "JOINED ") line) _
        (joined-Inv s (scan_name_of (text "JOINED") line) v),
    (left-Good, (status-Good (starts_with (text "ERROR ") line) line, tt)),
  )

  pub general_line-Inv : ClientInv (parse_general_line now s line)
  unfolding parse_general_line
  general_line-Inv = first_branch-Inv s _ v (
      All-append (match_branches now s line) _ match-Good
        (All-append (error_branches s line) _ error-Good last-Good))
