-- ===== src/Loop/Reads.antt =====
-- The reads in a pass of the loop of src/server.c.
use rock_paper_scissors_batt.Base.{
  ℕ, zero, suc, ◌+◌, ◌<◌, ◌≡◌, refl, sym, ap, subst, ◌∙◌, inl, inr, List, [], ◌∷◌, ◌++◌, Option,
  none, some, Bool, true, false, not, ◌==◌, leb, if◌then◌else◌, ◌>>=◌, arith, length, get_or,
  get_or-set_self, Bool-cases, Option-cases,
}
use rock_paper_scissors_batt.Text.Bytes.{Bytes}
use rock_paper_scissors_batt.State.{
  Player, ServerState, player, put, empty_slot, max_players, max_line, inbuf_size,
}
use rock_paper_scissors_batt.State.Slots.{lt-length_of_connected}
use rock_paper_scissors_batt.Protocol.{
  Recv, received, recv_would_block, recv_error, read_into_player_buffer, pop_line,
}
use rock_paper_scissors_batt.Protocol.Buffers.{
  FitsBuffers, pop_line_bounds, pop_line-FitsBuffers, read_into_player_buffer-FitsBuffers,
}
use rock_paper_scissors_batt.Server.Slots.{SlotInv, Inv}
use rock_paper_scissors_batt.Server.Knot.{reevaluate_at-Settles}
use rock_paper_scissors_batt.Match.Moves.{
  Moves, Moves-refl, put-Moves, put_names, Ends, ends, Any, Ends-after, Ends-bind, few_connected,
}
use rock_paper_scissors_batt.Match.Live.{nested}
use rock_paper_scissors_batt.Commands.Dispatch.{command-Ends, quit-Ends}
use rock_paper_scissors_batt.Commands.{handle_command, handle_quit_command}
use rock_paper_scissors_batt.Loop.Served.{Served, Served-of_Moves, Served-trans, put-Served}
use rock_paper_scissors_batt.Loop.{
  Io, is_closed, handle_lines, after_read, read_slot, process_player_reads,
}

-- The part of a pass returns.
pub data Serves (opened : List ℕ) (s : ServerState) : Option ServerState → Type 0 where
  serves : {t : ServerState} → Served opened s t → Serves opened s (some t)

pub Serves-of_Ends : {s : ServerState} {r : Option ServerState} → Ends s Any r → Serves [] s r
Serves-of_Ends (ends m p) = serves (Served-of_Moves m)

pub Serves-after :
    {xs ys : List ℕ} {s t : ServerState} {r : Option ServerState}
    → Served xs s t
    → Serves ys t r
    → Serves (xs ++ ys) s r
Serves-after m (serves k) = serves (Served-trans m k)

pub stays : {s : ServerState} → Inv s → Serves [] s (some s)
stays v = serves (Served-of_Moves (Moves-refl v))

pub Serves-bind :
    {xs ys : List ℕ} {s : ServerState} (r : Option ServerState)
    (f : ServerState → Option ServerState)
    → Serves xs s r
    → ((t : ServerState) → Served xs s t → Serves ys t (f t))
    → Serves (xs ++ ys) s (r >>= f)
Serves-bind none f e next = elim e [ ]
Serves-bind (some t) f (serves m) next = Serves-after m (next t m)

has_input : (xs : List Player) (i : ℕ) → 0 < length (get_or xs i empty_slot).inbuf → i < length xs
unfolding empty_slot
has_input [] i h = absurd (omega arith)
has_input (x ∷ xs) zero h = omega arith
has_input (x ∷ xs) (suc i) h = omega (arith, has_input xs i h)

-- A slot's buffers change, and nothing else of it.
input-SlotInv :
    (p q : Player)
    → q ≡ record p { inbuf = q.inbuf; outbuf = q.outbuf }
    → (FitsBuffers p → FitsBuffers q)
    → SlotInv p
    → SlotInv q
input-SlotInv p q e fits v = subst SlotInv (sym e) (record {
  admitted_ready = v.admitted_ready;
  alive_admitted = v.alive_admitted;
  waiting_admitted = v.waiting_admitted;
  chosen = v.chosen;
  repicked = v.repicked;
  fits = let f = fits v.fits in record { in_fits = f.in_fits; out_fits = f.out_fits };
})

pub buffers-Served :
    (s : ServerState) (i : ℕ) (q : Player)
    → Inv s
    → q ≡ record (player s i) { inbuf = q.inbuf; outbuf = q.outbuf }
    → (FitsBuffers (player s i) → FitsBuffers q)
    → Served [] s (put s i q)
buffers-Served s i q v e fits =
    put-Served s i q v (ap (λ (u : Player). u.connected) e) (ap (λ (u : Player). u.fd) e)
      (put_names s i q (
        inr (
          ap (λ (u : Player). u.connected) e,
          ap (λ (u : Player). u.registered) e,
          ap (λ (u : Player). u.name) e,
        )))
      (input-SlotInv (player s i) q e fits)

-- The loop over the lines of a slot ends, since each line takes at least a byte of its input.
lines-Ends :
    (n : ℕ) (s : ServerState) (i : ℕ)
    → Inv s
    → length (player s i).inbuf < n
    → Ends s Any (handle_lines nested n s i)
unfolding handle_lines
lines-Ends zero s i v few = absurd (omega arith)
lines-Ends (suc n) s i v few = elim (Option-cases (pop_line max_line (player s i))) [
  | inl e ↦ rw (e, handle_lines) (ends (Moves-refl v) tt)
  | inr ((line, q), e) ↦
      rw (e, handle_lines)
        (line_handled line q (pop_line_bounds max_line (player s i) q line (omega arith) e)
          (pop_line-FitsBuffers max_line (player s i) q line (omega arith) e)
          λ t w l. lines-Ends n t i w l)
]
  where
    line_handled :
        (line : Bytes) (q : Player)
        → (length line < max_line)
          × (length q.inbuf < length (player s i).inbuf)
          × (q ≡ record (player s i) { inbuf = q.inbuf })
        → (FitsBuffers (player s i) → FitsBuffers q)
        → ((t : ServerState)
            → Inv t
            → length (player t i).inbuf < n
            → Ends t Any (handle_lines nested n t i))
        → Ends s Any (handle_command nested (put s i q) i line >>= λ t. handle_lines nested n t i)
    line_handled line q (_, shorter, e) fits next =
        let room = has_input s.players i (omega arith) in
        let here : player (put s i q) i ≡ q = get_or-set_self s.players i q empty_slot room in
        let e' : q ≡ record (player s i) { inbuf = q.inbuf; outbuf = q.outbuf } =
          e
          ∙ ap (λ (u : Bytes). record (player s i) { inbuf = q.inbuf; outbuf = u })
              (sym (ap (λ (u : Player). u.outbuf) e)) in
        let m : Moves s (put s i q) =
          put-Moves s i q v (ap (λ (u : Player). u.connected) e) (ap (λ (u : Player). u.fd) e)
            (omega arith)
            (put_names s i q (
              inr (
                ap (λ (u : Player). u.connected) e,
                ap (λ (u : Player). u.registered) e,
                ap (λ (u : Player). u.name) e,
              )))
            (λ on.
              input-SlotInv (player s i) q e' fits
                (v.each i (sym (ap (λ (u : Player). u.connected) e) ∙ on))) in
        Ends-after m (
          Ends-bind {P = Any} _ _
            (command-Ends nested max_players (reevaluate_at-Settles max_players) _ i line m.inv
              (few_connected _ m.inv))
            λ t k _.
              next t k.inv (omega (arith, k.inputs i, ap (λ (u : Player). length u.inbuf) here)))

-- What a read leaves.
read_same :
    (r : Recv) (p : Player)
    → let q = (read_into_player_buffer r p).1 in q ≡ record p { inbuf = q.inbuf; outbuf = q.outbuf }
unfolding read_into_player_buffer
read_same (received bytes) p = elim (Bool-cases (length bytes == 0)) [
  | inl e ↦ rw (e, read_into_player_buffer) refl
  | inr e ↦ elim (Bool-cases (leb inbuf_size (length p.inbuf + length bytes))) [
    | inl f ↦ rw (e, f, read_into_player_buffer) refl
    | inr f ↦ rw (e, f, read_into_player_buffer) refl
  ]
]
read_same recv_would_block p = refl
read_same recv_error p = refl

pub dropped-Serves :
    (s : ServerState) (i : ℕ) → Inv s → Serves [] s (handle_quit_command nested s i)
dropped-Serves s i v =
    Serves-of_Ends
      (quit-Ends nested max_players (reevaluate_at-Settles max_players) s i v (few_connected s v))

after_read-Serves :
    (s : ServerState) (i : ℕ) (closed : Bool)
    → Inv s
    → length (player s i).inbuf < inbuf_size
    → Serves [] s (after_read nested s i closed)
unfolding after_read handle_quit_command
after_read-Serves s i true v few = dropped-Serves s i v
after_read-Serves s i false v few = Serves-of_Ends (lines-Ends inbuf_size s i v few)

read_slot-Serves :
    (io : Io) (s : ServerState) (i : ℕ) → Inv s → Serves [] s (read_slot nested io s i)
unfolding read_slot
read_slot-Serves io s i v = split (player s i).connected (io.readable (player s i).fd) refl
  where
    q : Player
    q = (read_into_player_buffer (io.recv i) (player s i)).1

    m : Served [] s (put s i q)
    m =
        buffers-Served s i q v (read_same (io.recv i) (player s i))
          (read_into_player_buffer-FitsBuffers (io.recv i) (player s i))

    room : (player s i).connected ≡ true → length (player (put s i q) i).inbuf < inbuf_size
    room on =
        let here : player (put s i q) i ≡ q =
          get_or-set_self s.players i q empty_slot (lt-length_of_connected s.players i on) in
        let w = m.inv in
        let still : (player (put s i q) i).connected ≡ true =
          ap (λ (u : Player). u.connected) here
          ∙ ap (λ (u : Player). u.connected) (read_same (io.recv i) (player s i))
          ∙ on in
        let f = (w.each i still).fits in f.in_fits

    split :
        (a b : Bool)
        → (player s i).connected ≡ a
        → Serves [] s (
            if not a
            then some s
            else if not b
            then some s
            else after_read nested
                (put s i q)
                i
                (is_closed (read_into_player_buffer (io.recv i) (player s i)).0))
    split false b on = stays v
    split true false on = stays v
    split true true on = Serves-after m (after_read-Serves (put s i q) i _ m.inv (room on))

pub reads-Serves :
    (io : Io) (is : List ℕ) (s : ServerState)
    → Inv s
    → Serves [] s (process_player_reads nested io is s)
unfolding process_player_reads
reads-Serves io [] s v = stays v
reads-Serves io (i ∷ is) s v =
    Serves-bind (read_slot nested io s i) (process_player_reads nested io is)
      (read_slot-Serves io s i v) λ t m. reads-Serves io is t m.inv
