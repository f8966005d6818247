-- ===== src/Client/Snapshot.antt =====
-- A snapshot from the server's `state_lines` to the client's table of players.
pub mod Players
pub mod Phases
pub mod Told
pub mod Clean
pub mod Delivered
pub mod Shown
use rock_paper_scissors_batt.Base.{
  ℕ, zero, suc, ◌≤◌, ◌≡◌, refl, ap, ◌∙◌, List, [], ◌∷◌, ◌++◌, Option, some, Bool, true, false, not,
  ◌&&◌, ◌||◌, arith, length, take, get_or, All, sym, ◌≢◌, ◌⊎◌, replicate, if◌then◌else◌, Bool-cases,
  inl, inr, ◌==◌,
}
use rock_paper_scissors_batt.Float.{Float}
use rock_paper_scissors_batt.State.{Player, empty_slot, player_is_admitted}
use rock_paper_scissors_batt.Text.Numbers.Decimal.{printed_value}
use rock_paper_scissors_batt.Text.Bytes.{
  Bytes, text, bytes_eq, eq_of_bytes_eq, starts_with, is_space,
}
use rock_paper_scissors_batt.Server.Lines.{player_line}
use rock_paper_scissors_batt.Client.{ClientPlayer, ClientState, clear_players, new_player, cleared}
use rock_paper_scissors_batt.Client.Messages.{
  PlayerLine, first_branch, player_branch, show_player, own_choice, parse_state_snapshot_line,
}
use rock_paper_scissors_batt.Client.Dispatch.{
  dispatch_table, dispatch_from, line_matches, run_parser, handle_server_line,
}
use rock_paper_scissors_batt.Client.PlayerLine.{
  IsWord, shown_choice, flag_value, read_player, scan-player_line,
}
use rock_paper_scissors_batt.Client.Table.{Other, entry_of, show_player-new}

-- The lines of one reading, in order.
unfoldable pub handle_all : Float → ClientState → List Bytes → ClientState
handle_all now c [] = c
handle_all now c (l ∷ ls) = handle_all now (handle_server_line now c l) ls

pub own_choice-players : (l : PlayerLine) (c : ClientState) → (own_choice l c).players ≡ c.players
unfolding own_choice
own_choice-players l c = ground arith

taken_branch :
    (now : Float) (c t : ClientState) (rest : Bytes)
    → player_branch c (text "PLAYER " ++ rest) ≡ some t
    → handle_server_line now c (text "PLAYER " ++ rest) ≡ t
unfolding handle_server_line dispatch_table dispatch_from line_matches run_parser starts_with
    bytes_eq text parse_state_snapshot_line first_branch
taken_branch now c t rest e = rw e refl

unfoldable pub with_line : ClientState → PlayerLine → ClientState
with_line c l = record c { players = show_player l c.players }

branch-player_line :
    (c : ClientState) (p : Player)
    → IsWord p.name
    → is_space (shown_choice p) ≡ false
    → player_branch c (player_line p)
      ≡ some (own_choice (read_player p) (with_line c (read_player p)))
unfolding player_branch with_line
branch-player_line c p w h = rw (scan-player_line p w h) refl

-- A player's line shows that player, and their own kind to the player.
pub shown_line :
    (now : Float) (c : ClientState) (p : Player)
    → IsWord p.name
    → is_space (shown_choice p) ≡ false
    → handle_server_line now c (player_line p)
      ≡ own_choice (read_player p) (with_line c (read_player p))
unfolding player_line
shown_line now c p w h = taken_branch now c _ _ (branch-player_line c p w h)

pub handle-player_line :
    (now : Float) (c : ClientState) (p : Player)
    → IsWord p.name
    → is_space (shown_choice p) ≡ false
    → (handle_server_line now c (player_line p)).players ≡ show_player (read_player p) c.players
unfolding with_line
handle-player_line now c p w h =
    ap (λ (u : ClientState). u.players) (shown_line now c p w h)
    ∙ own_choice-players (read_player p) (with_line c (read_player p))

pub handle_begin :
    (now : Float) (c : ClientState)
    → handle_server_line now c (text "STATE_BEGIN") ≡ clear_players c
unfolding handle_server_line dispatch_table dispatch_from line_matches run_parser starts_with
    bytes_eq text parse_state_snapshot_line first_branch
handle_begin now c = refl

pub handle_end : (now : Float) (c : ClientState) → handle_server_line now c (text "STATE_END") ≡ c
unfolding handle_server_line dispatch_table dispatch_from line_matches run_parser starts_with
    bytes_eq text parse_state_snapshot_line first_branch
handle_end now c = refl

-- What the client holds of a player.
unfoldable pub view : Player → ClientPlayer
view p = record {
  used = true;
  name = p.name;
  choice = shown_choice p;
  x = printed_value p.x;
  y = printed_value p.y;
  alive = flag_value p.alive;
  waiting = flag_value p.waiting;
}

-- The admitted players, in the order of their slots.
unfoldable pub views : List Player → List ClientPlayer
views [] = []
views (p ∷ ps) = let rest = views ps in if player_is_admitted p then view p ∷ rest else rest
