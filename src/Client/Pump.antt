-- ===== src/Client/Pump.antt =====
-- `pump_client_network` of src/client_network.c. What `select`, `recv` and the clock answer in each
-- round of the loop is an argument.
pub mod Ends
pub mod Stream
pub mod Chunks
use rock_paper_scissors_batt.Base.{
  ℕ, zero, suc, List, [], ◌∷◌, Option, none, some, Bool, true, false,
}
use rock_paper_scissors_batt.Base.Int.{pos, ltb_ℤ}
use rock_paper_scissors_batt.Float.{Float}
use rock_paper_scissors_batt.State.{Player, max_line, inbuf_size}
use rock_paper_scissors_batt.Text.Bytes.{text, c_string}
use rock_paper_scissors_batt.Protocol.{Recv, read_into_player_buffer, pop_line}
use rock_paper_scissors_batt.Client.{ClientState, set_status}
use rock_paper_scissors_batt.Client.Dispatch.{handle_server_line}

-- A round: `select` is interrupted, fails, finds nothing to read, or finds the socket readable;
-- then `recv` gives its answer, and the clock its value for the lines of the round.
pub data Ready : Type 0 where
  select_interrupted : Ready
  select_failed : Ready
  no_input : Ready
  input : Float → Recv → Ready

-- The loop over the lines of a buffer: at most `n` rounds, `none` where they do not suffice. The
-- parser sees what was copied to `line` as a C string.
unfoldable pub pop_lines : ℕ → Float → Player → ClientState → Option (Player × ClientState)
pop_lines zero now p s = none
pop_lines (suc n) now p s = elim (pop_line max_line p) [
  | none ↦ some (p, s)
  | some (line, q) ↦ pop_lines n now q (handle_server_line now s (c_string line))
]

unfoldable pub disconnected : ClientState → ClientState
disconnected s = record (set_status s (text "Disconnected from server")) { game_over = true }

-- `none` means that the answers ran out.
unfoldable pub pump_client_network :
    List Ready → Player → ClientState → Option (Player × ClientState)
pump_client_network [] p s = none
pump_client_network (select_interrupted ∷ rs) p s = pump_client_network rs p s
pump_client_network (select_failed ∷ rs) p s = some (p, s)
pump_client_network (no_input ∷ rs) p s = some (p, s)
pump_client_network (input now recv ∷ rs) p s =
    let r = read_into_player_buffer recv p in
    elim (ltb_ℤ (pos 0) r.0) [
      | false ↦ some (r.1, disconnected s)
      | true ↦ elim (pop_lines inbuf_size now r.1 s) [
        | none ↦ none
        | some (q, t) ↦ pump_client_network rs q t
      ]
    ]
