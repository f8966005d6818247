-- ===== src/Client.antt =====
-- The client's view of the match: the structs of src/client_state.h, and the table of players and
-- `init_client_state` of src/client_text_messages.c and src/client_network.c. A C `int` that holds
-- a flag is a Bool, a buffer that holds a C string is the bytes before its NUL, and -1 for an index
-- is `none`. The flags of a player are what the server wrote in a line, so they stay integers.
pub mod Messages
pub mod General
pub mod Dispatch
pub mod Ui
pub mod Inv
pub mod Pump
pub mod Snapshot
pub mod Table
pub mod PlayerLine
pub mod Handshake
use rock_paper_scissors_batt.Base.{
  ℕ, suc, ◌-◌, List, [], ◌∷◌, Option, none, some, Bool, true, false, not, ◌&&◌, if◌then◌else◌,
  get_or, set, take, replicate,
}
use rock_paper_scissors_batt.Base.Int.{ℤ, pos}
use rock_paper_scissors_batt.Float.{Float}
use rock_paper_scissors_batt.State.{max_players, max_name_length, zero_float, minus_one}
use rock_paper_scissors_batt.Text.Bytes.{Bytes, text, bytes_eq}

pub record ClientPlayer : Type 0 where
  pub used : Bool
  pub name : Bytes
  pub choice : ℕ
  pub x : Float
  pub y : Float
  pub alive : ℤ
  pub waiting : ℤ

pub record ClientState : Type 0 where
  pub players : List ClientPlayer
  pub status_text : Bytes
  pub name_input : Bytes
  pub pending_name : Bytes
  pub my_name : Bytes
  pub match_result : ℤ
  pub name_registered : Bool
  pub name_check_pending : Bool
  pub state_request_sent : Bool
  pub name_box_active : Bool
  pub repick_phase : Bool
  pub game_over : Bool
  pub can_attempt_join : Bool
  pub joined_match : Bool
  pub choice_confirmed : Bool
  pub spawn_confirmed : Bool
  pub selected_choice : ℕ
  -- Values of the C type `double`.
  pub lobby_end_time : Float
  pub setup_end_time : Float
  pub round_end_time : Float

-- sizeof(state->status_text)
abbrev pub status_size : ℕ
status_size = 256

-- snprintf(state->status_text, sizeof(state->status_text), …)
unfoldable pub set_status : ClientState → Bytes → ClientState
set_status s line = record s { status_text = take (status_size - 1) line }

-- snprintf into a buffer of MAX_NAME_LENGTH bytes.
abbrev pub name_copy : Bytes → Bytes
name_copy name = take (max_name_length - 1) name

-- A slot after memset, the double 0.0 included.
abbrev pub zero_client : ClientPlayer
zero_client = record {
  used = false;
  name = [];
  choice = 0;
  x = zero_float;
  y = zero_float;
  alive = pos 0;
  waiting = pos 0;
}

unfoldable pub cleared : List ClientPlayer
cleared = replicate max_players zero_client

unfoldable pub clear_players : ClientState → ClientState
clear_players s = record s { players = cleared }

unfoldable pub init_client_state : Bytes → ClientState
init_client_state initial_name = record {
  players = cleared;
  status_text = text "Connected";
  name_input = name_copy initial_name;
  pending_name = [];
  my_name = [];
  match_result = pos 0;
  name_registered = false;
  name_check_pending = false;
  state_request_sent = false;
  name_box_active = false;
  repick_phase = false;
  game_over = false;
  can_attempt_join = false;
  joined_match = false;
  choice_confirmed = false;
  spawn_confirmed = false;
  selected_choice = 0;
  lobby_end_time = zero_float;
  setup_end_time = zero_float;
  round_end_time = zero_float;
}

abbrev pub next_index : Option ℕ → Option ℕ
next_index none = none
next_index (some i) = some (suc i)

unfoldable pub find_player : List ClientPlayer → Bytes → Option ℕ
find_player [] name = none
find_player (p ∷ ps) name =
    let rest = next_index (find_player ps name) in
    if p.used && bytes_eq p.name name then some 0 else rest

-- The second loop of `get_or_add_player`.
unfoldable pub first_unused : List ClientPlayer → Option ℕ
first_unused [] = none
first_unused (p ∷ ps) =
    let rest = next_index (first_unused ps) in if not p.used then some 0 else rest

unfoldable pub new_player : Bytes → ClientPlayer
new_player name = record zero_client {
  used = true;
  name = name_copy name;
  x = minus_one;
  y = minus_one;
  choice = b'?';
}

-- The index and the table with the player in it.
unfoldable pub get_or_add_player : List ClientPlayer → Bytes → Option ℕ × List ClientPlayer
get_or_add_player ps name = elim (find_player ps name) [
  | some i ↦ (some i, ps)
  | none ↦ elim (first_unused ps) [
    | some i ↦ (some i, set ps i (new_player name))
    | none ↦ (none, ps)
  ]
]

abbrev pub client_player : List ClientPlayer → ℕ → ClientPlayer
client_player ps i = get_or ps i zero_client

-- The writes to the fields of players[idx] by a function; none for -1.
unfoldable pub update_player :
    Option ℕ → (ClientPlayer → ClientPlayer) → List ClientPlayer → List ClientPlayer
update_player none f ps = ps
update_player (some i) f ps = set ps i (f (client_player ps i))
