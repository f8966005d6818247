-- ===== src/Protocol/Buffers.antt =====
-- The buffers of src/protocol.c and the sizes of their arrays.
use rock_paper_scissors_batt.Base.{
  ℕ, ◌+◌, ◌<◌, ◌≤◌, ◌≡◌, refl, [], ◌∷◌, ◌++◌, some, true, false, arith, length, length-append,
  length-drop, length-take, ◌⊎◌, inl, inr, Option-cases, Bool-cases, leb, ◌==◌,
}
use rock_paper_scissors_batt.Base.Int.{ℤ, pos, negsuc}
use rock_paper_scissors_batt.State.{Player, inbuf_size, outbuf_size}
use rock_paper_scissors_batt.Text.Bytes.{Bytes}
use rock_paper_scissors_batt.Protocol.{
  newline, queue_line, Recv, received, recv_would_block, recv_error, read_into_player_buffer,
  find_newline, line_length, pop_line,
}

-- The buffers fit their arrays; `inbuf` leaves a byte free, as the test of the read demands.
pub record FitsBuffers (p : Player) : Type 0 where
  pub in_fits : length p.inbuf < inbuf_size
  pub out_fits : length p.outbuf ≤ outbuf_size

-- `queue_line` either appends the whole line and its newline, or fails and changes nothing; it
-- succeeds exactly when the line is at most 253 bytes and the buffer has room; the buffers fit.
pub queue_line_lem :
    (p : Player) (line : Bytes)
    → let r = queue_line p line in
      ((r.0 ≡ true)
        × (length line < 254)
        × (length p.outbuf + length line < 8192)
        × (r.1 ≡ record p { outbuf = p.outbuf ++ (line ++ (newline ∷ [])) }))
      ⊎ ((r.0 ≡ false) × ((254 ≤ length line) ⊎ (8192 ≤ length p.outbuf + length line)) × (r.1 ≡ p))
unfolding queue_line
queue_line_lem p line = ground arith

pub queue_line-FitsBuffers :
    (p : Player) (line : Bytes) → FitsBuffers p → FitsBuffers (queue_line p line).1
unfolding queue_line
queue_line-FitsBuffers p line f =
    ground
      (arith, length-append p.outbuf (line ++ (newline ∷ [])), length-append line (newline ∷ []))

-- A read keeps the buffers within their sizes.
pub read_into_player_buffer-FitsBuffers :
    (r : Recv) (p : Player) → FitsBuffers p → FitsBuffers (read_into_player_buffer r p).1
unfolding read_into_player_buffer
read_into_player_buffer-FitsBuffers (received bytes) p f =
    ground (arith, length-append p.inbuf bytes)
read_into_player_buffer-FitsBuffers recv_would_block p f = f
read_into_player_buffer-FitsBuffers recv_error p f = f

-- What `read_into_player_buffer` makes of what `recv` returns: its result and the player.
pub data WasRead (r : Recv) (p : Player) : ℤ × Player → Type 0 where
  appended :
      (bytes : Bytes)
      → r ≡ received bytes
      → 0 < length bytes
      → length p.inbuf + length bytes < 1024
      → WasRead r p (pos (length bytes), record p { inbuf = p.inbuf ++ bytes })
  at_end : r ≡ received [] → WasRead r p (pos 0, p)
  later : r ≡ recv_would_block → WasRead r p (pos 1, p)
  failed : r ≡ recv_error → WasRead r p (negsuc 0, p)
  overflows :
      (bytes : Bytes)
      → r ≡ received bytes
      → 1024 ≤ length p.inbuf + length bytes
      → WasRead r p (negsuc 0, p)

-- A read appends what arrived, whole and in order, to a buffer that has room for it and a byte more,
-- and returns its length. Otherwise it changes nothing and returns 0 at the end of the stream, 1
-- where nothing has arrived, and -1 on an error or without room. In every case buffers that fit
-- still do.
pub read_into_player_buffer_lem :
    (r : Recv) (p : Player)
    → FitsBuffers p
    → WasRead r p (read_into_player_buffer r p) × FitsBuffers (read_into_player_buffer r p).1
unfolding read_into_player_buffer
read_into_player_buffer_lem r p f = (outcome r, read_into_player_buffer-FitsBuffers r p f)
  where
    outcome : (r : Recv) → WasRead r p (read_into_player_buffer r p)
    outcome recv_would_block = later refl
    outcome recv_error = failed refl
    outcome (received []) = at_end refl
    outcome (received (b ∷ bs)) =
        let bytes = b ∷ bs in
        let some : (length bytes == 0) ≡ false = ground arith in
        elim (Bool-cases (leb inbuf_size (length p.inbuf + length bytes))) [
          | inl e ↦ rw (some, e, read_into_player_buffer) (overflows bytes refl (ground arith))
          | inr e ↦
              rw (some, e, read_into_player_buffer)
                (appended bytes refl (omega arith) (ground arith))
        ]

pub find_newline-bound :
    (i n : ℕ) (cs : Bytes) → find_newline i cs ≡ some n → (i ≤ n) × (n < i + length cs)
unfolding find_newline
find_newline-bound i n [] e = cc
find_newline-bound i n (c ∷ cs) e = ground (arith, find_newline-bound (i + 1) n cs)

-- A line that `pop_line` returns fits the caller's buffer with its NUL, the input gets shorter, so
-- that the callers' loops end, and nothing else of the player changes.
pub pop_line_bounds :
    (out_sz : ℕ) (p q : Player) (line : Bytes)
    → 0 < out_sz
    → pop_line out_sz p ≡ some (line, q)
    → (length line < out_sz)
      × (length q.inbuf < length p.inbuf)
      × (q ≡ record p { inbuf = q.inbuf })
unfolding pop_line line_length
pop_line_bounds out_sz p q line room e = elim (Option-cases (find_newline 0 p.inbuf)) [
  | inl f ↦ absurd (ground arith)
  | inr (i, f) ↦ ground (
    arith,
    find_newline-bound 0 i p.inbuf f,
    length-drop (i + 1) p.inbuf,
    length-take (line_length out_sz p.inbuf i) p.inbuf,
  )
]

pub pop_line-FitsBuffers :
    (out_sz : ℕ) (p q : Player) (line : Bytes)
    → 0 < out_sz
    → pop_line out_sz p ≡ some (line, q)
    → FitsBuffers p
    → FitsBuffers q
pop_line-FitsBuffers out_sz p q line room e f =
    let (_, shorter, same) = pop_line_bounds out_sz p q line room e in
    let i = f.in_fits in
    let o = f.out_fits in record { in_fits = omega arith; out_fits = rw same o }
