-- ===== src/Match/Rematch.antt =====
-- `reset_match` of src/server_state.c, slot by slot.
use rock_paper_scissors_batt.Base.{
  ℕ, zero, suc, ◌+◌, ◌<◌, ◌≤◌, ◌≡◌, refl, ap, subst, ◌∙◌, ◌⊎◌, inl, inr, List, [], ◌∷◌, Bool, true,
  false, if◌then◌else◌, arith, get_or-set_self, get_or-set_ne, ℕ_discrete, Bool-cases,
}
use rock_paper_scissors_batt.State.{
  Player, ServerState, lobby_open, player, put, slots, range_from, max_players, empty_slot,
  player_is_registered, player_is_admitted,
}
use rock_paper_scissors_batt.State.Slots.{
  admitted-empty, set-each, lt-length_of_connected, connected_of_registered,
}
use rock_paper_scissors_batt.Server.Lines.{queue_lines}
use rock_paper_scissors_batt.Server.Queue.{queue_lines-Queued}
use rock_paper_scissors_batt.Server.{drop_slot}
use rock_paper_scissors_batt.Match.{
  reset_player_progress, reset_lines, reset_slot, reset_each, reset_match,
}

-- Nobody is admitted in the slot.
abbrev IsOut : Player → Type 0
IsOut p = player_is_admitted p ≡ false

reset-IsOut : (p : Player) → IsOut (queue_lines (reset_player_progress p) reset_lines).1
unfolding player_is_admitted reset_player_progress
reset-IsOut p =
    let same = (queue_lines-Queued (reset_player_progress p) reset_lines).same in
    let out : (queue_lines (reset_player_progress p) reset_lines).1.admitted ≡ false =
      ap (λ (u : Player). u.admitted) same.rest in
    ground arith

drop_keeps_IsOut :
    (s : ServerState) (i k : ℕ) → IsOut (player s k) → IsOut (player (drop_slot s i) k)
unfolding drop_slot
drop_keeps_IsOut s i k out = elim (Bool-cases (player s i).connected) [
  | inr off ↦ rw off out
  | inl on ↦ rw on (
      set-each (λ p q. IsOut p → IsOut q) (λ p h. h) s.players i empty_slot (λ h. admitted-empty) k
        out)
]

unregistered-IsOut : (p : Player) → player_is_registered p ≡ false → IsOut p
unfolding player_is_registered player_is_admitted
unregistered-IsOut p h = ground arith

-- Slot `i` is cleared, and the others stay as cleared as they were.
reset_slot-IsOut :
    (s : ServerState) (i k : ℕ) → (i ≡ k) ⊎ IsOut (player s k) → IsOut (player (reset_slot s i) k)
unfolding reset_slot
reset_slot-IsOut s i k h = split (player_is_registered (player s i)) r.0 refl
  where
    r : Bool × Player
    r = queue_lines (reset_player_progress (player s i)) reset_lines

    written_out : player_is_registered (player s i) ≡ true → IsOut (player (put s i r.1) k)
    written_out on = elim (ℕ_discrete i k) [
      | yes e ↦
          subst (λ n. IsOut (player (put s i r.1) n)) e
            (ap player_is_admitted (
                get_or-set_self s.players i r.1 empty_slot
                  (lt-length_of_connected s.players i (connected_of_registered (player s i) on)))
              ∙ reset-IsOut (player s i))
      | no ne ↦ elim h [
        | inl e ↦ absurd (ne e)
        | inr out ↦ ap player_is_admitted (get_or-set_ne s.players i k r.1 empty_slot ne) ∙ out
      ]
    ]

    split :
        (a b : Bool)
        → player_is_registered (player s i) ≡ a
        → IsOut (player (if a then (if b then put s i r.1 else drop_slot (put s i r.1) i) else s) k)
    split false b e = elim h [
      | inl same ↦ subst (λ n. IsOut (player s n)) same (unregistered-IsOut (player s i) e)
      | inr out ↦ out
    ]
    split true true e = written_out e
    split true false e = drop_keeps_IsOut (put s i r.1) i k (written_out e)

reset_each-IsOut :
    (i n : ℕ) (s : ServerState) (k : ℕ)
    → ((i ≤ k) × (k < i + n)) ⊎ IsOut (player s k)
    → IsOut (player (reset_each (range_from i n) s) k)
unfolding reset_each
reset_each-IsOut i zero s k (inl (l, u)) = absurd (omega arith)
reset_each-IsOut i zero s k (inr out) = out
reset_each-IsOut i (suc n) s k h = reset_each-IsOut (i + 1) n (reset_slot s i) k (next h)
  where
    next :
        ((i ≤ k) × (k < i + suc n)) ⊎ IsOut (player s k)
        → ((i + 1 ≤ k) × (k < i + 1 + n)) ⊎ IsOut (player (reset_slot s i) k)
    next (inr out) = inr (reset_slot-IsOut s i k (inr out))
    next (inl (l, u)) = elim (ℕ_discrete i k) [
      | yes e ↦ inr (reset_slot-IsOut s i k (inl e))
      | no ne ↦ inl (omega arith, omega arith)
    ]

-- Only slots and sockets change.
abbrev OnlySlots : ServerState → ServerState → Type 0
OnlySlots s t = t ≡ record s { players = t.players; closed = t.closed }

drop-OnlySlots : (s : ServerState) (i : ℕ) → OnlySlots s (drop_slot s i)
unfolding drop_slot
drop-OnlySlots s i = elim (Bool-cases (player s i).connected) [
  | inr off ↦ rw off refl
  | inl on ↦ rw on refl
]

slot-OnlySlots : (s : ServerState) (i : ℕ) → OnlySlots s (reset_slot s i)
unfolding reset_slot
slot-OnlySlots s i = split (player_is_registered (player s i)) r.0
  where
    r : Bool × Player
    r = queue_lines (reset_player_progress (player s i)) reset_lines

    split :
        (a b : Bool)
        → OnlySlots s (if a then (if b then put s i r.1 else drop_slot (put s i r.1) i) else s)
    split false b = refl
    split true true = refl
    split true false = drop-OnlySlots (put s i r.1) i

each-OnlySlots : (is : List ℕ) (s : ServerState) → OnlySlots s (reset_each is s)
unfolding reset_each
each-OnlySlots [] s = refl
each-OnlySlots (i ∷ is) s =
    let t : ServerState = reset_each is (reset_slot s i) in
    each-OnlySlots is (reset_slot s i)
    ∙ ap (λ (u : ServerState). record u { players = t.players; closed = t.closed })
        (slot-OnlySlots s i)

-- After `reset_match` the lobby is open without a deadline, the rounds count from 0 again, and
-- nobody in any of the 32 slots is admitted, whoever was dropped on the way.
pub reset_match-IsOut :
    (s : ServerState)
    → let t = reset_match s in
      (t.phase ≡ lobby_open)
      × (t.join_deadline ≡ 0)
      × (t.setup_deadline ≡ 0)
      × (t.round_deadline ≡ 0)
      × (t.round_no ≡ 0)
      × ((k : ℕ) → k < max_players → player_is_admitted (player t k) ≡ false)
unfolding reset_match
reset_match-IsOut s =
    let opened : ServerState = record s {
      phase = lobby_open;
      join_deadline = 0;
      setup_deadline = 0;
      round_deadline = 0;
      round_no = 0;
    } in
    let e = each-OnlySlots slots opened in
    (
      ap (λ (u : ServerState). u.phase) e,
      ap (λ (u : ServerState). u.join_deadline) e,
      ap (λ (u : ServerState). u.setup_deadline) e,
      ap (λ (u : ServerState). u.round_deadline) e,
      ap (λ (u : ServerState). u.round_no) e,
      λ k l. reset_each-IsOut 0 max_players opened k (inl (omega arith, omega arith)),
    )
