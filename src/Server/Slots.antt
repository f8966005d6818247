-- ===== src/Server/Slots.antt =====
-- What the functions of src/server_state.c keep of the slots, and what they may change: an
-- invariant and a transitive relation between states.
use rock_paper_scissors_batt.Base.{
  ℕ, suc, ◌+◌, ◌≤◌, ◌≡◌, refl, sym, ap, ◌∙◌, ◌⊎◌, inl, inr, subst, [], ◌∷◌, ◌++◌, true, false, ◌&&◌,
  ◌==◌, map, arith, length, get_or, set, count_if, occurrences, length-set, Bool-cases,
}
use mathlib.Core.List.{append-nil, append_assoc}
use rock_paper_scissors_batt.State.{
  Player, ServerState, Phase, round_active, game_over, player, put, empty_slot, max_players,
}
use rock_paper_scissors_batt.State.Slots.{
  connected-empty, set-each, map-each, lt-length_of_connected, count_if-set, count_if-set_same,
  count_if-map_same, length-map, get_or-map,
}
use rock_paper_scissors_batt.Text.Bytes.{Bytes}
use rock_paper_scissors_batt.Chase.Choice.{IsChoice}
use rock_paper_scissors_batt.Protocol.Buffers.{FitsBuffers}
use rock_paper_scissors_batt.Server.{drop_slot}

-- A connected slot is in order.
pub record SlotInv (p : Player) : Type 0 where
  pub admitted_ready :
      p.admitted ≡ true → (p.registered ≡ true) × (p.choice_chosen ≡ true) × (p.spawn_chosen ≡ true)
  pub alive_admitted : p.alive ≡ true → p.admitted ≡ true
  pub waiting_admitted : p.waiting ≡ true → p.admitted ≡ true
  pub chosen : p.choice_chosen ≡ true → IsChoice p.choice
  pub repicked : p.repick_submitted ≡ true → IsChoice p.repick_choice
  pub fits : FitsBuffers p

-- Every connected slot is in order. (A slot that is not connected may hold anything.)
pub record Inv (s : ServerState) : Type 0 where
  pub size : length s.players ≡ max_players
  pub each : (k : ℕ) → (player s k).connected ≡ true → SlotInv (player s k)

-- The same connection, with its identity and setup untouched and its output only added to.
pub record SameSlot (p q : Player) : Type 0 where
  pub connected : q.connected ≡ p.connected
  pub fd : q.fd ≡ p.fd
  pub rest : q ≡ record p {
    alive = q.alive;
    waiting = q.waiting;
    in_round = q.in_round;
    repick_submitted = q.repick_submitted;
    repick_choice = q.repick_choice;
    choice = q.choice;
    outbuf = q.outbuf;
  }
  pub grows : (b : Bytes) × (q.outbuf ≡ p.outbuf ++ b)

-- A slot that is still connected holds the same connection.
abbrev pub SlotGoes : Player → Player → Type 0
SlotGoes p q = (q.connected ≡ false) ⊎ SameSlot p q

abbrev pub connected_count : ServerState → ℕ
connected_count s = count_if (λ p. p.connected) s.players

-- How often a socket is held by a connected slot or was closed.
abbrev pub fd_count : ℕ → ServerState → ℕ
fd_count v s = count_if (λ p. p.connected && (p.fd == v)) s.players + occurrences v s.closed

abbrev pub PhaseGoes : Phase → Phase → Type 0
PhaseGoes a b = (b ≡ a) ⊎ (b ≡ round_active) ⊎ (b ≡ game_over)

-- What is buffered of a slot's input is at most what was.
abbrev pub NoMoreInput : Player → Player → Type 0
NoMoreInput p q = length q.inbuf ≤ length p.inbuf

pub NoMoreInput-of_SameSlot : {p q : Player} → SameSlot p q → NoMoreInput p q
NoMoreInput-of_SameSlot same = omega (arith, ap (λ (u : Player). length u.inbuf) same.rest)

pub record Goes (s t : ServerState) : Type 0 where
  pub inv : Inv t
  pub fewer : connected_count t ≤ connected_count s
  pub slots : (k : ℕ) → SlotGoes (player s k) (player t k)
  pub sockets : (v : ℕ) → fd_count v t ≡ fd_count v s
  pub next_id : t.next_id ≡ s.next_id
  pub now : t.now ≡ s.now
  pub phase : PhaseGoes s.phase t.phase
  pub inputs : (k : ℕ) → NoMoreInput (player s k) (player t k)

pub SameSlot-refl : (p : Player) → SameSlot p p
SameSlot-refl p = record {
  connected = refl;
  fd = refl;
  rest = refl;
  grows = ([], sym (append-nil p.outbuf));
}

pub SameSlot-trans : {p q r : Player} → SameSlot p q → SameSlot q r → SameSlot p r
SameSlot-trans {p} {r} a b = record {
  connected = b.connected ∙ a.connected;
  fd = b.fd ∙ a.fd;
  rest =
      b.rest
      ∙ ap
          (λ (u : Player). record u {
            alive = r.alive;
            waiting = r.waiting;
            in_round = r.in_round;
            repick_submitted = r.repick_submitted;
            repick_choice = r.repick_choice;
            choice = r.choice;
            outbuf = r.outbuf;
          })
          a.rest;
  grows = (
    a.grows.0 ++ b.grows.0,
    b.grows.1 ∙ ap (λ o. o ++ b.grows.0) a.grows.1 ∙ append_assoc p.outbuf a.grows.0 b.grows.0,
  );
}

SlotGoes-refl : (p : Player) → SlotGoes p p
SlotGoes-refl p = inr (SameSlot-refl p)

SlotGoes-trans : {p q r : Player} → SlotGoes p q → SlotGoes q r → SlotGoes p r
SlotGoes-trans g (inl h) = inl h
SlotGoes-trans (inl g) (inr h) = inl (h.connected ∙ g)
SlotGoes-trans (inr g) (inr h) = inr (SameSlot-trans g h)

pub Goes-refl : {s : ServerState} → Inv s → Goes s s
Goes-refl i = record {
  inv = i;
  fewer = omega arith;
  slots = λ k. SlotGoes-refl _;
  sockets = λ v. refl;
  next_id = refl;
  now = refl;
  phase = inl refl;
  inputs = λ k. omega arith;
}

pub Goes-trans : {s t u : ServerState} → Goes s t → Goes t u → Goes s u
Goes-trans a b = record {
  inv = b.inv;
  fewer = let f = a.fewer in let g = b.fewer in omega arith;
  slots = λ k. SlotGoes-trans (a.slots k) (b.slots k);
  sockets = λ v. b.sockets v ∙ a.sockets v;
  next_id = b.next_id ∙ a.next_id;
  now = b.now ∙ a.now;
  phase = phases a.phase b.phase;
  inputs = λ k. let f = a.inputs k in let g = b.inputs k in omega arith;
}
  where
    phases : {x y z : Phase} → PhaseGoes x y → PhaseGoes y z → PhaseGoes x z
    phases (inl e) (inl f) = inl (f ∙ e)
    phases (inr (inl e)) (inl f) = inr (inl (f ∙ e))
    phases (inr (inr e)) (inl f) = inr (inr (f ∙ e))
    phases e (inr f) = inr f

abbrev IsOk : Player → Type 0
IsOk p = p.connected ≡ true → SlotInv p

-- One slot gets a new value for the same connection.
pub put-Goes :
    (s : ServerState) (i : ℕ) (p : Player)
    → Inv s
    → SameSlot (player s i) p
    → (SlotInv (player s i) → SlotInv p)
    → Goes s (put s i p)
put-Goes s i p v same keep = record {
  inv = record {
    size = length-set s.players i p ∙ v.size;
    each = λ k.
        set-each (λ q r. IsOk q → IsOk r) (λ q h. h) s.players i p
          (λ h c. keep (h (sym same.connected ∙ c))) k (v.each k);
  };
  fewer = omega (arith, count_if-set_same (λ q. q.connected) s.players i p same.connected);
  slots = set-each SlotGoes SlotGoes-refl s.players i p (inr same);
  sockets = λ w.
      ap (λ n. n + occurrences w s.closed)
        (count_if-set_same (λ q. q.connected && (q.fd == w)) s.players i p
          (rw (same.connected, same.fd)));
  next_id = refl;
  now = refl;
  phase = inl refl;
  inputs = set-each NoMoreInput (λ q. omega arith) s.players i p (NoMoreInput-of_SameSlot same);
}

-- The slots change by one function that keeps each connection.
pub map-Goes :
    (f : Player → Player) (s : ServerState)
    → ((p : Player) → SameSlot p (f p))
    → ((k : ℕ) → SlotInv (player s k) → SlotInv (f (player s k)))
    → f empty_slot ≡ empty_slot
    → Inv s
    → Goes s (record s { players = map f s.players })
map-Goes f s same keep e v = record {
  inv = record {
    size = length-map f s.players ∙ v.size;
    each = λ k.
        rw (get_or-map f s.players k e)
          (λ c. keep k (v.each k (sym (same (player s k)).connected ∙ c)));
  };
  fewer = omega (arith, count_if-map_same (λ q. q.connected) f s.players (λ p. (same p).connected));
  slots = map-each SlotGoes f (SlotGoes-refl _) (λ p. inr (same p)) s.players;
  sockets = λ w.
      ap (λ n. n + occurrences w s.closed)
        (count_if-map_same (λ q. q.connected && (q.fd == w)) f s.players
          (λ p. let c = (same p).connected in let d = (same p).fd in rw (c, d)));
  next_id = refl;
  now = refl;
  phase = inl refl;
  inputs = map-each NoMoreInput f (omega arith) (λ p. NoMoreInput-of_SameSlot (same p)) s.players;
}

-- A change of phase, round or deadlines.
pub fields-Goes :
    (s t : ServerState)
    → Inv s
    → t ≡ record s {
      phase = t.phase;
      round_no = t.round_no;
      join_deadline = t.join_deadline;
      setup_deadline = t.setup_deadline;
      round_deadline = t.round_deadline;
    }
    → PhaseGoes s.phase t.phase
    → Goes s t
fields-Goes s t v e ph = record {
  inv = record { size = ap length players ∙ v.size; each = λ k. rw players (v.each k) };
  fewer = rw players (omega arith);
  slots = λ k.
      subst (λ ps. SlotGoes (player s k) (get_or ps k empty_slot)) (sym players) (SlotGoes-refl _);
  sockets = λ w. ap (λ (u : ServerState). fd_count w u) e;
  next_id = ap (λ (u : ServerState). u.next_id) e;
  now = ap (λ (u : ServerState). u.now) e;
  phase = ph;
  inputs = λ k. rw players (omega arith);
}
  where
    players : t.players ≡ s.players
    players = ap (λ (u : ServerState). u.players) e

one_less :
    (s : ServerState) (i : ℕ)
    → (player s i).connected ≡ true
    → suc (count_if (λ p. p.connected) (set s.players i empty_slot)) ≡ connected_count s
one_less s i on = ground (
  arith,
  connected-empty,
  count_if-set (λ q. q.connected) s.players i empty_slot (lt-length_of_connected s.players i on),
)

one_moved :
    (s : ServerState) (i w : ℕ)
    → (player s i).connected ≡ true
    → count_if (λ p. p.connected && (p.fd == w)) (set s.players i empty_slot)
        + occurrences w ((player s i).fd ∷ s.closed)
      ≡ fd_count w s
unfolding occurrences
one_moved s i w on = ground (
  arith,
  connected-empty,
  count_if-set (λ q. q.connected && (q.fd == w)) s.players i empty_slot
      (lt-length_of_connected s.players i on),
)

no_input : (p : Player) → NoMoreInput p empty_slot
unfolding empty_slot
no_input p = omega arith

pub drop_slot-Goes : (s : ServerState) (i : ℕ) → Inv s → Goes s (drop_slot s i)
unfolding drop_slot
drop_slot-Goes s i v = elim (Bool-cases (player s i).connected) [
  | inr off ↦ rw off (Goes-refl v)
  | inl on ↦ rw on (record {
    inv = record {
      size = length-set s.players i empty_slot ∙ v.size;
      each = λ k.
          set-each (λ q r. IsOk q → IsOk r) (λ q h. h) s.players i empty_slot
            (λ h c. absurd (let e = connected-empty in cc)) k (v.each k);
    };
    fewer = omega (arith, one_less s i on);
    slots = set-each SlotGoes SlotGoes-refl s.players i empty_slot (inl connected-empty);
    sockets = λ w. one_moved s i w on;
    next_id = refl;
    now = refl;
    phase = inl refl;
    inputs = set-each NoMoreInput (λ q. omega arith) s.players i empty_slot (no_input (player s i));
  })
]

-- A drop of a connected player leaves one connection less.
pub drop_slot_fewer :
    (s : ServerState) (i : ℕ)
    → (player s i).connected ≡ true
    → suc (connected_count (drop_slot s i)) ≡ connected_count s
unfolding drop_slot
drop_slot_fewer s i on = rw on (one_less s i on)
