-- ===== src/Protocol.antt =====
-- src/protocol.c: the buffered, line-oriented transport. `send` and `recv` are the operating
-- system's: what their calls return is an argument, one result for each call. `connect_to_server` is not here.
pub mod Buffers
pub mod Framing
pub mod Flush
pub mod SendLine
use rock_paper_scissors_batt.Base.{
  ℕ, zero, suc, ◌+◌, ◌-◌, List, [], ◌∷◌, ◌++◌, Option, none, some, Bool, true, false, ◌&&◌, ltb,
  leb, ◌==◌, if◌then◌else◌, length, get_or, take, drop,
}
use rock_paper_scissors_batt.Base.Int.{ℤ, pos, negsuc}
use rock_paper_scissors_batt.State.{Player, max_line, inbuf_size, outbuf_size}
use rock_paper_scissors_batt.Text.Bytes.{Bytes}

abbrev pub newline : ℕ
newline = 10

abbrev pub carriage_return : ℕ
carriage_return = 13

-- The flag is true where the C function returns 0. `line` is what `vsnprintf` prints.
unfoldable pub queue_line : Player → Bytes → Bool × Player
queue_line p line =
    if leb (max_line - 2) (length line)
    then (false, p)
    else if ltb outbuf_size (length p.outbuf + (length line + 1))
    then (false, p)
    else (true, record p { outbuf = p.outbuf ++ (line ++ (newline ∷ [])) })

unfoldable pub player_has_pending_output : Player → Bool
player_has_pending_output p = ltb 0 (length p.outbuf)

-- What one call of `send` returns: a count, EAGAIN, or another error.
pub data Send : Type 0 where
  sent : ℕ → Send
  send_would_block : Send
  send_error : Send

-- 1, 0 and -1.
pub data Flushed : Type 0 where
  all_flushed would_block broken : Flushed

pub record FlushRun : Type 0 where
  pub result : Flushed
  pub after : Player
  -- The bytes that the calls of `send` took.
  pub wire : Bytes

abbrev pub on_wire : Bytes → FlushRun → FlushRun
on_wire bytes r = record r { wire = bytes ++ r.wire }

abbrev pub map_run : Bytes → Option FlushRun → Option FlushRun
map_run bytes none = none
map_run bytes (some r) = some (on_wire bytes r)

abbrev pub ends : Flushed → Player → Option FlushRun
ends result p = some (record { result = result; after = p; wire = [] })

-- The while loop, over the results of the calls to come; `none` means that these ran out.
unfoldable pub flush_player_output : List Send → Player → Option FlushRun
flush_player_output [] p = if player_has_pending_output p then none else ends all_flushed p
flush_player_output (rc ∷ rcs) p = elim (player_has_pending_output p) [
  | false ↦ ends all_flushed p
  | true ↦ elim rc [
    | sent n ↦ elim (ltb 0 n) [
      | true ↦
          map_run (take n p.outbuf)
            (flush_player_output rcs (record p { outbuf = drop n p.outbuf }))
      | false ↦ ends broken p
    ]
    | send_would_block ↦ ends would_block p
    | send_error ↦ ends broken p
  ]
]

-- What a call of `send_line` comes to: whether it returns 0, and the bytes that the calls of `send`
-- took.
pub record SendRun : Type 0 where
  pub ok : Bool
  pub wire : Bytes

abbrev pub gives : Bool → Option SendRun
gives ok = some (record { ok = ok; wire = [] })

abbrev pub map_send : Bytes → Option SendRun → Option SendRun
map_send bytes none = none
map_send bytes (some r) = some (record r { wire = bytes ++ r.wire })

-- The loop, over the answers of `send` to come, for the bytes that are left; `none` means that the
-- answers ran out.
unfoldable pub send_rest : List Send → Bytes → Option SendRun
send_rest rcs [] = gives true
send_rest [] (b ∷ bs) = none
send_rest (send_would_block ∷ rcs) (b ∷ bs) = gives false
send_rest (send_error ∷ rcs) (b ∷ bs) = gives false
send_rest (sent n ∷ rcs) (b ∷ bs) = elim (ltb 0 n) [
  | true ↦ map_send (take n (b ∷ bs)) (send_rest rcs (drop n (b ∷ bs)))
  | false ↦ gives false
]

-- `line` is what `vsnprintf` prints.
unfoldable pub send_line : List Send → Bytes → Option SendRun
send_line rcs line =
    if leb (max_line - 2) (length line) then gives false else send_rest rcs (line ++ (newline ∷ []))

-- What one call of `recv` returns: bytes (none at the end of the stream), EAGAIN, or an error.
pub data Recv : Type 0 where
  received : Bytes → Recv
  recv_would_block : Recv
  recv_error : Recv

unfoldable pub read_into_player_buffer : Recv → Player → ℤ × Player
read_into_player_buffer (received bytes) p =
    if length bytes == 0
    then (pos 0, p)
    else if leb inbuf_size (length p.inbuf + length bytes)
    then (negsuc 0, p)
    else (pos (length bytes), record p { inbuf = p.inbuf ++ bytes })
read_into_player_buffer recv_would_block p = (pos 1, p)
read_into_player_buffer recv_error p = (negsuc 0, p)

-- The index of the first newline, counted from `i`.
unfoldable pub find_newline : ℕ → Bytes → Option ℕ
find_newline i [] = none
find_newline i (c ∷ cs) = if c == newline then some i else find_newline (i + 1) cs

-- How much of the `i` bytes before the newline is copied.
unfoldable pub line_length : ℕ → Bytes → ℕ → ℕ
line_length out_sz inbuf i =
    let len = if ltb 0 i && (get_or inbuf (i - 1) 0 == carriage_return) then i - 1 else i in
    if leb out_sz len then out_sz - 1 else len

-- The line and the player without it; `none` where the C function returns 0.
unfoldable pub pop_line : ℕ → Player → Option (Bytes × Player)
pop_line out_sz p = elim (find_newline 0 p.inbuf) [
  | none ↦ none
  | some i ↦
      some (take (line_length out_sz p.inbuf i) p.inbuf, record p { inbuf = drop (i + 1) p.inbuf })
]
