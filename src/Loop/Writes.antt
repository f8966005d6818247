-- ===== src/Loop/Writes.antt =====
-- The writes in a pass of the loop of src/server.c.
use rock_paper_scissors_batt.Base.{
  ℕ, zero, suc, ◌+◌, ◌≡◌, refl, sym, ap, ◌∙◌, List, [], ◌∷◌, Option, none, some, Bool, true, false,
  not, if◌then◌else◌, ◌>>=◌, arith, length, length-append,
}
use rock_paper_scissors_batt.Text.Bytes.{Bytes}
use rock_paper_scissors_batt.State.{Player, ServerState, player, put, outbuf_size}
use rock_paper_scissors_batt.Protocol.{FlushRun, flush_player_output, Send}
use rock_paper_scissors_batt.Protocol.Buffers.{FitsBuffers}
use rock_paper_scissors_batt.Protocol.Flush.{
  FlushSpec, flush_player_output-FlushSpec, flush_player_output_ends,
}
use rock_paper_scissors_batt.Server.Slots.{Inv}
use rock_paper_scissors_batt.Match.Live.{nested}
use rock_paper_scissors_batt.Commands.{handle_quit_command}
use rock_paper_scissors_batt.Loop.Served.{Served}
use rock_paper_scissors_batt.Loop.{
  Io, first_sends, is_broken, after_flush, write_slot, process_player_writes,
}
use rock_paper_scissors_batt.Loop.Reads.{
  Serves, serves, stays, Serves-after, Serves-bind, buffers-Served, dropped-Serves,
}

length-first_sends : (send : ℕ → Send) (k n : ℕ) → length (first_sends send k n) ≡ n
length-first_sends send k zero = refl
length-first_sends send k (suc n) = omega (arith, length-first_sends send (k + 1) n)

flush_fits : (p : Player) (r : FlushRun) → FlushSpec p r → FitsBuffers p → FitsBuffers r.after
flush_fits p r spec f =
    let i = f.in_fits in
    let o = f.out_fits in
    record {
      in_fits = omega (arith, ap (λ (u : Player). length u.inbuf) spec.same);
      out_fits = omega (arith, ap length spec.stream, length-append r.wire r.after.outbuf);
    }

after_flush-Serves :
    (s : ServerState) (i : ℕ) (r : FlushRun)
    → Inv s
    → FlushSpec (player s i) r
    → Serves [] s (after_flush nested s i r)
unfolding after_flush handle_quit_command
after_flush-Serves s i r v spec = split (is_broken r.result)
  where
    same : r.after ≡ record (player s i) { inbuf = r.after.inbuf; outbuf = r.after.outbuf }
    same =
        spec.same
        ∙ ap (λ (u : Bytes). record (player s i) { inbuf = u; outbuf = r.after.outbuf })
            (sym (ap (λ (u : Player). u.inbuf) spec.same))

    m : Served [] s (put s i r.after)
    m = buffers-Served s i r.after v same (flush_fits (player s i) r spec)

    split :
        (b : Bool)
        → Serves [] s
            (if b then handle_quit_command nested (put s i r.after) i else some (put s i r.after))
    split true = Serves-after m (dropped-Serves _ i m.inv)
    split false = serves m

write_slot-Serves :
    (io : Io) (s : ServerState) (i : ℕ) → Inv s → Serves [] s (write_slot nested io s i)
unfolding write_slot
write_slot-Serves io s i v = split (player s i).connected (io.writable (player s i).fd) refl
  where
    sends : List Send
    sends = first_sends (io.send i) 0 outbuf_size

    flushed :
        (o : Option FlushRun)
        → flush_player_output sends (player s i) ≡ o
        → (r : FlushRun) × (o ≡ some r)
        → Serves [] s (o >>= after_flush nested s i)
    flushed none e (r, f) = absurd (cc)
    flushed (some r) e _ =
        after_flush-Serves s i r v (flush_player_output-FlushSpec sends (player s i) r e)

    split :
        (a b : Bool)
        → (player s i).connected ≡ a
        → Serves [] s (
            if not a
            then some s
            else if not b
            then some s
            else (flush_player_output sends (player s i) >>= after_flush nested s i))
    split false b on = stays v
    split true false on = stays v
    split true true on =
        let fits = (v.each i on).fits in
        let out = fits.out_fits in
        flushed (flush_player_output sends (player s i)) refl (
          flush_player_output_ends sends (player s i)
            (omega (arith, length-first_sends (io.send i) 0 outbuf_size)))

pub writes-Serves :
    (io : Io) (is : List ℕ) (s : ServerState)
    → Inv s
    → Serves [] s (process_player_writes nested io is s)
unfolding process_player_writes
writes-Serves io [] s v = stays v
writes-Serves io (i ∷ is) s v =
    Serves-bind (write_slot nested io s i) (process_player_writes nested io is)
      (write_slot-Serves io s i v) λ t m. writes-Serves io is t m.inv
