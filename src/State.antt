-- ===== src/State.antt =====
-- The structs of src/common.h and the predicates of src/game.h. A C `int` that holds a flag is a
-- Bool, `char` and text are bytes, and a buffer with its `_used` count is the list of its used
-- bytes. `ServerState` has two fields more than the C struct, for the environment: the value that
-- `time(NULL)` has while one event is handled, and the sockets that CLOSESOCKET was called on.
pub mod Slots
use rock_paper_scissors_batt.Base.{
  ℕ, zero, suc, ◌+◌, ◌^◌, List, [], ◌∷◌, Bool, true, false, ◌&&◌, get_or, set,
}
use rock_paper_scissors_batt.Base.Int.{ℤ, negsuc}
use rock_paper_scissors_batt.Float.{Float, finite, of_ℕ, negate, single}
use rock_paper_scissors_batt.Text.Bytes.{Bytes}

abbrev pub max_players : ℕ
max_players = 32

abbrev pub max_name_length : ℕ
max_name_length = 32

abbrev pub max_line : ℕ
max_line = 256

abbrev pub inbuf_size : ℕ
inbuf_size = 1024

abbrev pub outbuf_size : ℕ
outbuf_size = 8192

abbrev pub grid_w : ℕ
grid_w = 10

abbrev pub grid_h : ℕ
grid_h = 10

abbrev pub join_window_seconds : ℕ
join_window_seconds = 60

abbrev pub setup_seconds : ℕ
setup_seconds = 20

abbrev pub round_seconds : ℕ
round_seconds = 5

pub data Phase : Type 0 where
  lobby_open setup round_active repick game_over : Phase

pub record Player : Type 0 where
  pub fd : ℕ
  pub id : ℕ
  pub connected : Bool
  pub registered : Bool
  pub admitted : Bool
  pub alive : Bool
  pub waiting : Bool
  pub in_round : Bool
  pub choice_chosen : Bool
  pub spawn_chosen : Bool
  pub repick_submitted : Bool
  pub repick_choice : ℕ
  pub name : Bytes
  pub choice : ℕ
  pub x : Float
  pub y : Float
  pub inbuf : Bytes
  pub outbuf : Bytes

pub record ServerState : Type 0 where
  pub players : List Player
  pub next_id : ℕ
  pub round_no : ℕ
  pub phase : Phase
  -- Deadlines in seconds; 0 stands for none.
  pub join_deadline : ℕ
  pub setup_deadline : ℕ
  pub round_deadline : ℕ
  -- The environment.
  pub now : ℕ
  pub closed : List ℕ

-- Indexes of a matchup.
pub record Pair : Type 0 where
  pub a : ℕ
  pub b : ℕ

abbrev pub zero_float : Float
zero_float = finite false 0

-- -1.0f: 2 ^ 149 units.
abbrev pub minus_one : Float
minus_one = finite true ((2 ^ 149))

-- A slot after memset(p, 0, sizeof(*p)).
abbrev pub zero_player : Player
zero_player = record {
  fd = 0;
  id = 0;
  connected = false;
  registered = false;
  admitted = false;
  alive = false;
  waiting = false;
  in_round = false;
  choice_chosen = false;
  spawn_chosen = false;
  repick_submitted = false;
  repick_choice = 0;
  name = [];
  choice = 0;
  x = zero_float;
  y = zero_float;
  inbuf = [];
  outbuf = [];
}

-- What a cleared slot holds: zeros, and a position off the grid.
unfoldable pub empty_slot : Player
empty_slot = record zero_player { x = minus_one; y = minus_one }

unfoldable pub player_is_registered : Player → Bool
player_is_registered p = p.connected && p.registered

unfoldable pub player_is_admitted : Player → Bool
player_is_admitted p = p.connected && (p.registered && p.admitted)

unfoldable pub player_is_alive : Player → Bool
player_is_alive p = p.connected && (p.registered && (p.admitted && p.alive))

-- s->players[i]
abbrev pub player : ServerState → ℕ → Player
player s i = get_or s.players i empty_slot

-- s->players[i] = p
abbrev pub put : ServerState → ℕ → Player → ServerState
put s i p = record s { players = set s.players i p }

-- i, i + 1, …, i + n - 1
abbrev pub range_from : ℕ → ℕ → List ℕ
range_from i zero = []
range_from i (suc n) = i ∷ range_from (i + 1) n

-- for (int i = 0; i < MAX_PLAYERS; i++)
abbrev pub slots : List ℕ
slots = range_from 0 max_players
