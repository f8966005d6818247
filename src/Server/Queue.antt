-- ===== src/Server/Queue.antt =====
-- Queueing, snapshots and the end of a match (src/server_state.c): the parts of a broadcast that do
-- not call `reevaluate_state`.
use rock_paper_scissors_batt.Base.{
  ℕ, ◌<◌, ◌≡◌, refl, sym, ◌∙◌, ◌⊎◌, inl, inr, subst, List, [], ◌∷◌, ◌++◌, Bool, true, false, leb,
  not, ◌||◌, if◌then◌else◌, arith, length, All, Bool-cases,
}
use rock_paper_scissors_batt.State.{
  Player, ServerState, game_over, player, put, slots, player_is_registered, max_line,
}
use rock_paper_scissors_batt.State.Slots.{set-each, connected_of_registered}
use rock_paper_scissors_batt.Text.Bytes.{Bytes, c_string}
use rock_paper_scissors_batt.Protocol.{queue_line, newline}
use rock_paper_scissors_batt.Protocol.Buffers.{FitsBuffers, queue_line_lem, queue_line-FitsBuffers}
use rock_paper_scissors_batt.Server.Lines.{
  queue_line_checked, queue_lines, game_over_lines, state_lines,
}
use rock_paper_scissors_batt.Server.Slots.{
  SlotInv, Inv, SameSlot, Goes, SameSlot-refl, SameSlot-trans, Goes-refl, Goes-trans, put-Goes,
  drop_slot-Goes, drop_slot_fewer, fields-Goes, connected_count,
}
use rock_paper_scissors_batt.Server.{
  queue_each, drop_slot, drop_all, is_empty, queue_game_state_for_player, snapshot_slot,
  snapshot_each, end_game_slot, end_game_each, end_game,
}

-- Output was added to a slot, and nothing else changed.
pub record Queued (p q : Player) : Type 0 where
  pub same : SameSlot p q
  pub keeps : SlotInv p → SlotInv q

pub Queued-refl : (p : Player) → Queued p p
Queued-refl p = record { same = SameSlot-refl p; keeps = λ v. v }

pub Queued-trans : {p q r : Player} → Queued p q → Queued q r → Queued p r
Queued-trans a b = record { same = SameSlot-trans a.same b.same; keeps = λ v. b.keeps (a.keeps v) }

Queued-output :
    (p : Player) (b : Bytes)
    → (FitsBuffers p → FitsBuffers (record p { outbuf = p.outbuf ++ b }))
    → Queued p (record p { outbuf = p.outbuf ++ b })
Queued-output p b fits = record {
  same = record { connected = refl; fd = refl; rest = refl; grows = (b, refl) };
  keeps = λ v. record {
    admitted_ready = v.admitted_ready;
    alive_admitted = v.alive_admitted;
    waiting_admitted = v.waiting_admitted;
    chosen = v.chosen;
    repicked = v.repicked;
    fits = fits v.fits;
  };
}

pub queue_line-Queued : (p : Player) (l : Bytes) → Queued p (queue_line p l).1
queue_line-Queued p l = elim (queue_line_lem p l) [
  | inl (_, _, _, e) ↦ subst (Queued p) (sym e) (
      Queued-output p (l ++ (newline ∷ []))
        (λ f. subst FitsBuffers e (queue_line-FitsBuffers p l f)))
  | inr (_, _, e) ↦ subst (Queued p) (sym e) (Queued-refl p)
]

pub queue_line_checked-Queued : (p : Player) (l : Bytes) → Queued p (queue_line_checked p l).1
unfolding queue_line_checked
queue_line_checked-Queued p l = elim (Bool-cases (leb max_line (length l))) [
  | inl e ↦ rw e (Queued-refl p)
  | inr e ↦ rw e (queue_line-Queued p (c_string l))
]

pub queue_lines-Queued : (p : Player) (ls : List Bytes) → Queued p (queue_lines p ls).1
unfolding queue_lines
queue_lines-Queued p [] = Queued-refl p
queue_lines-Queued p (l ∷ ls) = elim (Bool-cases (queue_line_checked p l).0) [
  | inl e ↦ rw e (
      Queued-trans (queue_line_checked-Queued p l)
        (queue_lines-Queued (queue_line_checked p l).1 ls))
  | inr e ↦ rw e (queue_line_checked-Queued p l)
]

pub put-Queued-Goes :
    (s : ServerState) (i : ℕ) (p : Player) → Inv s → Queued (player s i) p → Goes s (put s i p)
put-Queued-Goes s i p v q = put-Goes s i p v q.same q.keeps

-- The same slots are connected.
abbrev SameConnected : ServerState → ServerState → Type 0
SameConnected s t = (k : ℕ) → (player t k).connected ≡ (player s k).connected

put-Queued_connected :
    (s : ServerState) (i : ℕ) (p : Player) → Queued (player s i) p → SameConnected s (put s i p)
put-Queued_connected s i p q =
    set-each (λ a b. b.connected ≡ a.connected) (λ a. refl) s.players i p q.same.connected

-- What the first loop of a broadcast does: every slot stays connected, and the ones to drop are.
record QueuedEach (s : ServerState) (r : List ℕ × ServerState) : Type 0 where
  goes : Goes s r.1
  same : SameConnected s r.1
  drops : All (λ i. (player r.1 i).connected ≡ true) r.0

Queued-slot :
    (s : ServerState) (i : ℕ) (p : Player) (failed : Bool) (r : List ℕ × ServerState)
    → Inv s
    → (player s i).connected ≡ true
    → Queued (player s i) p
    → (Inv (put s i p) → QueuedEach (put s i p) r)
    → QueuedEach s (if failed then i ∷ r.0 else r.0, r.1)
Queued-slot s i p failed r v on q rest =
    let first = put-Queued-Goes s i p v q in
    let more = rest first.inv in
    let same : SameConnected s r.1 = λ k. more.same k ∙ put-Queued_connected s i p q k in
    record {
      goes = Goes-trans first more.goes;
      same = same;
      drops = drops failed (same i ∙ on) more.drops;
    }
  where
    drops :
        (b : Bool)
        → (player r.1 i).connected ≡ true
        → All (λ k. (player r.1 k).connected ≡ true) r.0
        → All (λ k. (player r.1 k).connected ≡ true) (if b then i ∷ r.0 else r.0)
    drops true c all = (c, all)
    drops false c all = all

queue_each-QueuedEach :
    (line : Bytes) (is : List ℕ) (s : ServerState) → Inv s → QueuedEach s (queue_each line is s)
unfolding queue_each
queue_each-QueuedEach line [] s v = record { goes = Goes-refl v; same = λ k. refl; drops = tt }
queue_each-QueuedEach line (i ∷ is) s v = elim (Bool-cases (player s i).connected) [
  | inr off ↦ rw off (queue_each-QueuedEach line is s v)
  | inl on ↦ rw on (
      Queued-slot s i (queue_line (player s i) line).1 (not (queue_line (player s i) line).0)
        (queue_each line is (put s i (queue_line (player s i) line).1)) v on
        (queue_line-Queued (player s i) line)
        λ w. queue_each-QueuedEach line is (put s i (queue_line (player s i) line).1) w)
]

pub drop_all-Goes : (is : List ℕ) (s : ServerState) → Inv s → Goes s (drop_all is s)
unfolding drop_all
drop_all-Goes [] s v = Goes-refl v
drop_all-Goes (i ∷ is) s v =
    let g = drop_slot-Goes s i v in Goes-trans g (drop_all-Goes is (drop_slot s i) g.inv)

-- What the drops of a broadcast come to: nothing, or at least one connection less.
pub broadcast_drops :
    (line : Bytes) (is : List ℕ) (s : ServerState)
    → Inv s
    → let r = queue_each line is s in
      Goes s r.1
      × (is_empty r.0 ≡ false
          → Goes s (drop_all r.0 r.1) × (connected_count (drop_all r.0 r.1) < connected_count s))
unfolding drop_all
broadcast_drops line is s v = dropped (queue_each line is s) (queue_each-QueuedEach line is s v)
  where
    dropped :
        (r : List ℕ × ServerState)
        → QueuedEach s r
        → Goes s r.1
          × (is_empty r.0 ≡ false
              → Goes s (drop_all r.0 r.1)
                × (connected_count (drop_all r.0 r.1) < connected_count s))
    dropped ([], t) q = (q.goes, λ e. absurd (cc))
    dropped (i ∷ ds, t) q =
        let g = q.goes in
        let one = drop_slot-Goes t i g.inv in
        let rest = drop_all-Goes ds (drop_slot t i) one.inv in
        let f = g.fewer in
        let f' = rest.fewer in
        (g, λ e. (Goes-trans g (Goes-trans one rest), omega (arith, drop_slot_fewer t i q.drops.0)))

-- One slot of `broadcast_game_state`.
snapshot_slot-Goes :
    (s : ServerState) (i : ℕ)
    → Inv s
    → Goes s (snapshot_slot s i).1
      × ((snapshot_slot s i).0 ≡ true → connected_count (snapshot_slot s i).1 < connected_count s)
unfolding snapshot_slot queue_game_state_for_player
snapshot_slot-Goes s i v = split (player_is_registered (player s i)) refl r.0
  where
    r : Bool × Player
    r = queue_lines (player s i) (state_lines s (player s i))

    q : Queued (player s i) r.1
    q = queue_lines-Queued (player s i) _

    sent : Goes s (put s i r.1)
    sent = put-Queued-Goes s i r.1 v q

    split :
        (reg : Bool)
        → player_is_registered (player s i) ≡ reg
        → (ok : Bool)
        → let u : Bool × ServerState =
            if reg
            then (if ok then (false, put s i r.1) else (true, drop_slot (put s i r.1) i))
            else (false, s) in
          Goes s u.1 × (u.0 ≡ true → connected_count u.1 < connected_count s)
    split false e ok = (Goes-refl v, λ h. absurd (cc))
    split true e true = (sent, λ h. absurd (cc))
    split true e false =
        let f = sent.fewer in
        let on = put-Queued_connected s i r.1 q i ∙ connected_of_registered (player s i) e in
        (
          Goes-trans sent (drop_slot-Goes _ i sent.inv),
          λ h. omega (arith, drop_slot_fewer (put s i r.1) i on),
        )

pub snapshot_each-Goes :
    (is : List ℕ) (dropped : Bool) (s : ServerState)
    → Inv s
    → let r = snapshot_each is dropped s in
      Goes s r.1 × (r.0 ≡ true → (dropped ≡ true) ⊎ (connected_count r.1 < connected_count s))
unfolding snapshot_each
snapshot_each-Goes [] d s v = (Goes-refl v, λ e. inl e)
snapshot_each-Goes (i ∷ is) d s v =
    let (g, less) = snapshot_slot-Goes s i v in
    let (h, more) =
      snapshot_each-Goes is (d || (snapshot_slot s i).0) (snapshot_slot s i).1 g.inv in
    let f = g.fewer in
    let f' = h.fewer in
    (
      Goes-trans g h,
      λ e. elim (more e) [
        | inr few ↦ inr (omega arith)
        | inl either ↦ elim (Bool-cases d) [
          | inl was ↦ inl was
          | inr not_yet ↦ inr (let few = less (rw not_yet at either) in omega arith)
        ]
      ],
    )

end_game_slot-Goes : (s : ServerState) (i : ℕ) → Inv s → Goes s (end_game_slot s i)
unfolding end_game_slot
end_game_slot-Goes s i v =
    split (player s i).connected (queue_lines (player s i) (game_over_lines (player s i))).0
  where
    sent : Goes s (put s i (queue_lines (player s i) (game_over_lines (player s i))).1)
    sent = put-Queued-Goes s i _ v (queue_lines-Queued _ _)

    split :
        (on ok : Bool)
        → let t = put s i (queue_lines (player s i) (game_over_lines (player s i))).1 in
          Goes s (if on then (if ok then t else drop_slot t i) else s)
    split false ok = Goes-refl v
    split true true = sent
    split true false = Goes-trans sent (drop_slot-Goes _ i sent.inv)

end_game_each-Goes : (is : List ℕ) (s : ServerState) → Inv s → Goes s (end_game_each is s)
unfolding end_game_each
end_game_each-Goes [] s v = Goes-refl v
end_game_each-Goes (i ∷ is) s v =
    let g = end_game_slot-Goes s i v in
    Goes-trans g (end_game_each-Goes is (end_game_slot s i) g.inv)

pub end_game-Goes : (s : ServerState) → Inv s → Goes s (end_game s)
unfolding end_game
end_game-Goes s v =
    let g = fields-Goes s (record s { phase = game_over }) v refl (inr (inr refl)) in
    Goes-trans g (end_game_each-Goes slots _ g.inv)

drop_slot-phase : (s : ServerState) (i : ℕ) → (drop_slot s i).phase ≡ s.phase
unfolding drop_slot
drop_slot-phase s i = ground arith

end_game_slot-phase : (s : ServerState) (i : ℕ) → (end_game_slot s i).phase ≡ s.phase
unfolding end_game_slot
end_game_slot-phase s i =
    split (player s i).connected (queue_lines (player s i) (game_over_lines (player s i))).0
  where
    split :
        (a b : Bool)
        → let t = put s i (queue_lines (player s i) (game_over_lines (player s i))).1 in
          (if a then (if b then t else drop_slot t i) else s).phase ≡ s.phase
    split false b = refl
    split true true = refl
    split true false = drop_slot-phase _ i

end_game_each-phase : (is : List ℕ) (s : ServerState) → (end_game_each is s).phase ≡ s.phase
unfolding end_game_each
end_game_each-phase [] s = refl
end_game_each-phase (i ∷ is) s =
    end_game_each-phase is (end_game_slot s i) ∙ end_game_slot-phase s i

pub end_game-phase : (s : ServerState) → (end_game s).phase ≡ game_over
unfolding end_game
end_game-phase s = end_game_each-phase slots (record s { phase = game_over })
