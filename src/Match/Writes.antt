-- ===== src/Match/Writes.antt =====
-- The slots that `resolve_round` and `begin_repicks` of src/server_state.c write.
use rock_paper_scissors_batt.Base.{
  ℕ, ◌≡◌, refl, sym, ap, ◌∙◌, inr, [], Bool, true, false, if◌then◌else◌, arith, length,
}
use mathlib.Core.List.{append-nil}
use rock_paper_scissors_batt.Text.Bytes.{text}
use rock_paper_scissors_batt.State.{Player, ServerState, player, put, empty_slot}
use rock_paper_scissors_batt.State.Slots.{set-each}
use rock_paper_scissors_batt.Server.Lines.{queue_line_checked}
use rock_paper_scissors_batt.Server.Slots.{
  SlotInv, Inv, SameSlot, Goes, Goes-refl, Goes-trans, drop_slot-Goes,
}
use rock_paper_scissors_batt.Server.Queue.{queue_line_checked-Queued, put-Queued-Goes}
use rock_paper_scissors_batt.Server.{drop_slot, clear_repick}
use rock_paper_scissors_batt.Match.Moves.{Moves, Moves-trans, put-Moves, put_names}
use rock_paper_scissors_batt.Match.{move_to, lose, leave_round, tell_loser}

-- The same connection under the same name, with its input.
record SameClient (p q : Player) : Type 0 where
  connected : q.connected ≡ p.connected
  fd : q.fd ≡ p.fd
  registered : q.registered ≡ p.registered
  name : q.name ≡ p.name
  inbuf : q.inbuf ≡ p.inbuf

SameClient-refl : (p : Player) → SameClient p p
SameClient-refl p = record {
  connected = refl;
  fd = refl;
  registered = refl;
  name = refl;
  inbuf = refl;
}

move_to-SameClient : (w l : Player) → SameClient w (move_to w l)
unfolding move_to
move_to-SameClient w l = record {
  connected = refl;
  fd = refl;
  registered = refl;
  name = refl;
  inbuf = refl;
}

lose-SameClient : (p : Player) → SameClient p (lose p)
unfolding lose
lose-SameClient p = record {
  connected = refl;
  fd = refl;
  registered = refl;
  name = refl;
  inbuf = refl;
}

move_to-SlotInv : (w l : Player) → SlotInv w → SlotInv (move_to w l)
unfolding move_to
move_to-SlotInv w l v = record {
  admitted_ready = v.admitted_ready;
  alive_admitted = v.alive_admitted;
  waiting_admitted = v.waiting_admitted;
  chosen = v.chosen;
  repicked = v.repicked;
  fits = let f = v.fits in record { in_fits = f.in_fits; out_fits = f.out_fits };
}

lose-SlotInv : (p : Player) → SlotInv p → SlotInv (lose p)
unfolding lose
lose-SlotInv p v = record {
  admitted_ready = v.admitted_ready;
  alive_admitted = λ h. absurd (cc);
  waiting_admitted = v.waiting_admitted;
  chosen = v.chosen;
  repicked = v.repicked;
  fits = let f = v.fits in record { in_fits = f.in_fits; out_fits = f.out_fits };
}

client-Moves :
    (s : ServerState) (i : ℕ) (p : Player)
    → Inv s
    → SameClient (player s i) p
    → (p.connected ≡ true → SlotInv p)
    → Moves s (put s i p)
client-Moves s i p v c keep =
    put-Moves s i p v c.connected c.fd (omega (arith, ap length c.inbuf))
      (put_names s i p (inr (c.connected, c.registered, c.name))) keep

-- The two writes of a pair with a winner.
pub settled-Moves :
    (s : ServerState) (w l : ℕ)
    → Inv s
    → Moves s (put (put s w (move_to (player s w) (player s l))) l (lose (player s l)))
settled-Moves s w l v =
    let first =
      client-Moves s w (move_to (player s w) (player s l)) v (move_to-SameClient _ _) (λ on.
        let c = move_to-SameClient (player s w) (player s l) in
        move_to-SlotInv _ _ (v.each w (sym c.connected ∙ on))) in
    let back =
      set-each SameClient SameClient-refl s.players w (move_to (player s w) (player s l))
        (move_to-SameClient _ _) l in
    let gone = lose-SameClient (player s l) in
    Moves-trans first (
      client-Moves _ l (lose (player s l)) first.inv
        (record {
          connected = gone.connected ∙ sym back.connected;
          fd = gone.fd ∙ sym back.fd;
          registered = gone.registered ∙ sym back.registered;
          name = gone.name ∙ sym back.name;
          inbuf = gone.inbuf ∙ sym back.inbuf;
        })
        (λ on. lose-SlotInv _ (v.each l (sym gone.connected ∙ on))))

pub tell_loser-Goes : (s : ServerState) (i : ℕ) → Inv s → Goes s (tell_loser s i)
unfolding tell_loser
tell_loser-Goes s i v = split (player s i).connected r.0
  where
    r : Bool × Player
    r = queue_line_checked (player s i) (text "ELIMINATED lost")

    told : Goes s (put s i r.1)
    told =
        put-Queued-Goes s i r.1 v (queue_line_checked-Queued (player s i) (text "ELIMINATED lost"))

    split :
        (a b : Bool)
        → Goes s (if a then (if b then put s i r.1 else drop_slot (put s i r.1) i) else s)
    split false b = Goes-refl v
    split true true = told
    split true false = Goes-trans told (drop_slot-Goes _ i told.inv)

pub leave_round-SameSlot : (p : Player) → SameSlot p (leave_round p)
unfolding leave_round
leave_round-SameSlot p = record {
  connected = refl;
  fd = refl;
  rest = refl;
  grows = ([], sym (append-nil p.outbuf));
}

pub leave_round-SlotInv : (p : Player) → SlotInv p → SlotInv (leave_round p)
unfolding leave_round
leave_round-SlotInv p v = record {
  admitted_ready = v.admitted_ready;
  alive_admitted = v.alive_admitted;
  waiting_admitted = v.waiting_admitted;
  chosen = v.chosen;
  repicked = v.repicked;
  fits = let f = v.fits in record { in_fits = f.in_fits; out_fits = f.out_fits };
}

pub leave_round-empty : leave_round empty_slot ≡ empty_slot
unfolding leave_round empty_slot
leave_round-empty = refl

pub clear_repick-SameSlot : (p : Player) → SameSlot p (clear_repick p)
unfolding clear_repick
clear_repick-SameSlot p = record {
  connected = refl;
  fd = refl;
  rest = refl;
  grows = ([], sym (append-nil p.outbuf));
}

pub clear_repick-SlotInv : (p : Player) → SlotInv p → SlotInv (clear_repick p)
unfolding clear_repick
clear_repick-SlotInv p v = record {
  admitted_ready = v.admitted_ready;
  alive_admitted = v.alive_admitted;
  waiting_admitted = v.waiting_admitted;
  chosen = v.chosen;
  repicked = λ h. absurd (cc);
  fits = let f = v.fits in record { in_fits = f.in_fits; out_fits = f.out_fits };
}

pub clear_repick-empty : clear_repick empty_slot ≡ empty_slot
unfolding clear_repick empty_slot
clear_repick-empty = refl
