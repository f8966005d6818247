-- ===== src/Match/Deadline.antt =====
-- The lobby's deadline in src/server_state.c, when a broadcast drops a client before anybody is
-- admitted.
use rock_paper_scissors_batt.Base.{
  ℕ, ◌≤◌, ◌≡◌, refl, ap, ◌∙◌, inl, inr, List, [], ◌∷◌, some, Bool, true, false, if◌then◌else◌,
  arith, Bool-cases,
}
use rock_paper_scissors_batt.Text.Bytes.{Bytes}
use rock_paper_scissors_batt.State.{
  Player, ServerState, lobby_open, player, put, slots, empty_slot, player_is_admitted,
}
use rock_paper_scissors_batt.State.Slots.{
  count_if-set, count_if-set_same, admitted-empty, lt-length_of_connected,
}
use rock_paper_scissors_batt.Game.{admitted_count}
use rock_paper_scissors_batt.Protocol.{queue_line}
use rock_paper_scissors_batt.Server.Lines.{broadcast_text}
use rock_paper_scissors_batt.Server.Queue.{queue_line-Queued}
use rock_paper_scissors_batt.Server.{
  queue_each, drop_slot, drop_all, is_empty, queue_broadcast, reevaluate_at, reevaluate_state,
  reevaluate_phase, reevaluate_lobby_open,
}
use rock_paper_scissors_batt.Match.Live.{nested}

-- The phase is the same, and no more players are admitted.
record Quiet (s t : ServerState) : Type 0 where
  phase : t.phase ≡ s.phase
  admitted : admitted_count t ≤ admitted_count s

Quiet-refl : (s : ServerState) → Quiet s s
Quiet-refl s = record { phase = refl; admitted = omega arith }

Quiet-trans : {s t u : ServerState} → Quiet s t → Quiet t u → Quiet s u
Quiet-trans a b = record {
  phase = b.phase ∙ a.phase;
  admitted = let f = a.admitted in let g = b.admitted in omega arith;
}

admitted_same :
    (p : Player) (l : Bytes) → player_is_admitted (queue_line p l).1 ≡ player_is_admitted p
unfolding player_is_admitted
admitted_same p l =
    let same = (queue_line-Queued p l).same in ap (λ (u : Player). player_is_admitted u) same.rest

put_line-Quiet :
    (s : ServerState) (i : ℕ) (l : Bytes) → Quiet s (put s i (queue_line (player s i) l).1)
unfolding admitted_count
put_line-Quiet s i l = record {
  phase = refl;
  admitted =
      omega
        (arith, count_if-set_same player_is_admitted s.players i _ (admitted_same (player s i) l));
}

queue_each-Quiet : (line : Bytes) (is : List ℕ) (s : ServerState) → Quiet s (queue_each line is s).1
unfolding queue_each
queue_each-Quiet line [] s = Quiet-refl s
queue_each-Quiet line (i ∷ is) s = Quiet-trans (one (player s i).connected) (
    queue_each-Quiet line is
      (if (player s i).connected then put s i (queue_line (player s i) line).1 else s))
  where
    one : (b : Bool) → Quiet s (if b then put s i (queue_line (player s i) line).1 else s)
    one false = Quiet-refl s
    one true = put_line-Quiet s i line

drop_slot-Quiet : (s : ServerState) (i : ℕ) → Quiet s (drop_slot s i)
unfolding drop_slot admitted_count
drop_slot-Quiet s i = elim (Bool-cases (player s i).connected) [
  | inr off ↦ rw off (Quiet-refl s)
  | inl on ↦ rw on (record {
    phase = refl;
    admitted = ground (
      arith,
      admitted-empty,
      count_if-set player_is_admitted s.players i empty_slot
          (lt-length_of_connected s.players i on),
    );
  })
]

drop_all-Quiet : (is : List ℕ) (s : ServerState) → Quiet s (drop_all is s)
unfolding drop_all
drop_all-Quiet [] s = Quiet-refl s
drop_all-Quiet (i ∷ is) s = Quiet-trans (drop_slot-Quiet s i) (drop_all-Quiet is (drop_slot s i))

reevaluated :
    (s : ServerState)
    → s.phase ≡ lobby_open
    → admitted_count s ≡ 0
    → nested s ≡ some (record s { join_deadline = 0 })
unfolding reevaluate_at reevaluate_state reevaluate_phase reevaluate_lobby_open admitted_count
reevaluated s lobby nobody = rw (lobby, nobody) refl

-- In an open lobby in which nobody is admitted, a broadcast that cannot queue its line to every
-- connected client returns with the deadline cleared, so also the broadcast of LOBBY_OPEN by which
-- `maybe_admit_player` announces the deadline that it has just set, before it admits the player.
pub broadcast_clears_deadline :
    (s : ServerState) (line : Bytes)
    → s.phase ≡ lobby_open
    → admitted_count s ≡ 0
    → is_empty (queue_each (broadcast_text line) slots s).0 ≡ false
    → (t : ServerState) × (queue_broadcast nested line s ≡ some t)
      × (t.phase ≡ lobby_open)
      × (t.join_deadline ≡ 0)
unfolding queue_broadcast
broadcast_clears_deadline s line lobby nobody drops =
    let r = queue_each (broadcast_text line) slots s in
    let q = Quiet-trans (queue_each-Quiet (broadcast_text line) slots s) (drop_all-Quiet r.0 r.1) in
    let few = q.admitted in
    (
      record (drop_all r.0 r.1) { join_deadline = 0 },
      rw drops (reevaluated (drop_all r.0 r.1) (q.phase ∙ lobby) (omega arith)),
      q.phase ∙ lobby,
      refl,
    )
