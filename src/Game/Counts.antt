-- ===== src/Game/Counts.antt =====
-- The predicates and `start_round` of src/game.c against their meaning.
use rock_paper_scissors_batt.Base.{
  ap, length, map, ℕ, zero, suc, ◌+◌, ◌<◌, ◌≤◌, ◌≡◌, ◌↔◌, refl, sym, ◌∙◌, inl, inr, List, [], ◌∷◌,
  Bool, true, false, ◌&&◌, ◌||◌, le→leb, arith, get_or, count_if, if◌then◌else◌, Bool-cases,
}
use rock_paper_scissors_batt.State.{
  Player, ServerState, player, empty_slot, player_is_alive, player_is_admitted, round_active,
  round_seconds,
}
use rock_paper_scissors_batt.State.Slots.{alive-empty, admitted-empty, map-each}
use rock_paper_scissors_batt.Game.{
  admitted_count, active_alive_count, ready_loop, all_admitted_ready, same_loop,
  all_alive_same_choice, enter_round, start_round,
}

abbrev AllReady : List Player → Type 0
AllReady ps =
    (k : ℕ)
    → player_is_admitted (get_or ps k empty_slot) ≡ true
    → ((get_or ps k empty_slot).choice_chosen ≡ true)
      × ((get_or ps k empty_slot).spawn_chosen ≡ true)

ready_loop_sound :
    (n : ℕ) (ps : List Player)
    → ready_loop n ps ≡ true
    → (2 ≤ n + count_if player_is_admitted ps) × AllReady ps
unfolding ready_loop count_if
ready_loop_sound n [] h = (ground arith, λ k a. cc admitted-empty)
ready_loop_sound n (p ∷ ps) h =
    let rest = ready_loop_sound (if player_is_admitted p then n + 1 else n) ps (ground arith) in
    (ground (arith, rest.0), λ k. at k (rest.1))
  where
    at :
        (k : ℕ)
        → AllReady ps
        → player_is_admitted (get_or (p ∷ ps) k empty_slot) ≡ true
        → ((get_or (p ∷ ps) k empty_slot).choice_chosen ≡ true)
          × ((get_or (p ∷ ps) k empty_slot).spawn_chosen ≡ true)
    at zero r a = ground arith
    at (suc k) r a = r k a

ready_loop_complete :
    (n : ℕ) (ps : List Player)
    → 2 ≤ n + count_if player_is_admitted ps
    → AllReady ps
    → ready_loop n ps ≡ true
unfolding ready_loop count_if
ready_loop_complete n [] few r = ground arith
ready_loop_complete n (p ∷ ps) few r = ground (
  arith,
  r 0,
  ready_loop_complete (if player_is_admitted p then n + 1 else n) ps (ground arith)
      (λ k. r (suc k)),
)

-- `all_admitted_ready` holds exactly when at least two players are admitted and each of them has
-- chosen a kind and a spawn.
pub all_admitted_ready_iff :
    (s : ServerState)
    → (all_admitted_ready s ≡ true) ↔ (
        (2 ≤ admitted_count s)
        × ((k : ℕ)
            → player_is_admitted (player s k) ≡ true
            → ((player s k).choice_chosen ≡ true) × ((player s k).spawn_chosen ≡ true)))
unfolding all_admitted_ready admitted_count
all_admitted_ready_iff s = (
  λ h. let (enough, r) = ready_loop_sound 0 s.players h in (omega arith, r),
  λ h. ready_loop_complete 0 s.players (let few = h.0 in omega arith) h.1,
)

-- Every living player from here on is of kind `first`, where one was seen already.
abbrev AllOf : ℕ → List Player → Type 0
AllOf c ps =
    (k : ℕ) → player_is_alive (get_or ps k empty_slot) ≡ true → (get_or ps k empty_slot).choice ≡ c

same_loop_sound : (c : ℕ) (ps : List Player) → same_loop true c ps ≡ true → AllOf c ps
unfolding same_loop
same_loop_sound c [] h k a = cc alive-empty
same_loop_sound c (p ∷ ps) h zero a = ground arith
same_loop_sound c (p ∷ ps) h (suc k) a = same_loop_sound c ps (ground arith) k a

same_loop_complete : (c : ℕ) (ps : List Player) → AllOf c ps → same_loop true c ps ≡ true
unfolding same_loop
same_loop_complete c [] all = refl
same_loop_complete c (p ∷ ps) all =
    ground (arith, all 0, same_loop_complete c ps (λ k. all (suc k)))

abbrev SameKind : List Player → Type 0
SameKind ps =
    (j k : ℕ)
    → player_is_alive (get_or ps j empty_slot) ≡ true
    → player_is_alive (get_or ps k empty_slot) ≡ true
    → (get_or ps j empty_slot).choice ≡ (get_or ps k empty_slot).choice

SameKind-cons : (p : Player) (ps : List Player) → AllOf p.choice ps → SameKind (p ∷ ps)
SameKind-cons p ps all zero zero a b = refl
SameKind-cons p ps all zero (suc k) a b = sym (all k b)
SameKind-cons p ps all (suc j) zero a b = all j a
SameKind-cons p ps all (suc j) (suc k) a b = all j a ∙ sym (all k b)

SameKind-skip :
    (p : Player) (ps : List Player) → player_is_alive p ≡ false → SameKind ps → SameKind (p ∷ ps)
SameKind-skip p ps dead all zero k a b = absurd (cc)
SameKind-skip p ps dead all (suc j) zero a b = absurd (cc)
SameKind-skip p ps dead all (suc j) (suc k) a b = all j k a b

SameKind-sound : (c : ℕ) (ps : List Player) → same_loop false c ps ≡ true → SameKind ps
unfolding same_loop
SameKind-sound c [] h = cc
SameKind-sound c (p ∷ ps) h = elim (Bool-cases (player_is_alive p)) [
  | inl e ↦ SameKind-cons p ps (same_loop_sound p.choice ps (ground arith))
  | inr e ↦ SameKind-skip p ps e (SameKind-sound c ps (ground arith))
]

SameKind-complete :
    (c : ℕ) (ps : List Player)
    → 0 < count_if player_is_alive ps
    → SameKind ps
    → same_loop false c ps ≡ true
unfolding same_loop count_if
SameKind-complete c [] some_alive all = absurd (omega arith)
SameKind-complete c (p ∷ ps) some_alive all = elim (Bool-cases (player_is_alive p)) [
  | inl e ↦ rw e (same_loop_complete p.choice ps (λ k b. all (suc k) 0 b e))
  | inr e ↦ rw e (SameKind-complete c ps (ground arith) (λ j k. all (suc j) (suc k)))
]

-- `all_alive_same_choice` holds exactly when at least two players live and all who live are of one
-- kind.
pub all_alive_same_choice_iff :
    (s : ServerState)
    → (all_alive_same_choice s ≡ true) ↔ (
        (2 ≤ active_alive_count s)
        × ((j k : ℕ)
            → player_is_alive (player s j) ≡ true
            → player_is_alive (player s k) ≡ true
            → (player s j).choice ≡ (player s k).choice))
unfolding all_alive_same_choice active_alive_count
all_alive_same_choice_iff s = (
  λ h. (ground arith, SameKind-sound 0 s.players (ground arith)),
  λ h. let few = h.0 in rw (SameKind-complete 0 s.players (omega arith) h.1) (le→leb _ _ few),
)

-- Whether `start_round` puts a player into the round.
abbrev enters : Player → Bool
enters p = player_is_admitted p && (p.alive || p.waiting)

-- What `start_round` leaves in a slot.
pub record Entered (p q : Player) : Type 0 where
  pub alive : player_is_alive q ≡ enters p
  pub in_round : q.in_round ≡ enters p
  pub not_waiting : player_is_admitted p ≡ true → q.waiting ≡ false
  pub no_repick : (q.repick_submitted ≡ false) × (q.repick_choice ≡ 0)
  pub others : q ≡ record p {
    alive = q.alive;
    waiting = q.waiting;
    in_round = q.in_round;
    repick_submitted = q.repick_submitted;
    repick_choice = q.repick_choice;
  }

entered_length : (ps : List Player) → length (map enter_round ps) ≡ length ps
entered_length [] = refl
entered_length (p ∷ ps) = ap suc (entered_length ps)

enter_round-Entered : (p : Player) → Entered p (enter_round p)
unfolding enter_round player_is_admitted player_is_alive
enter_round-Entered p = ground arith

empty-Entered : Entered empty_slot empty_slot
unfolding empty_slot player_is_admitted player_is_alive
empty-Entered = ground arith

-- A new round: the next number, five seconds, and in every slot the admitted players who were alive
-- or waiting, and no others, are alive and in the round; nobody admitted waits on and no repick is
-- pending. Nothing else of a slot changes, and of the state only the phase, the round's number and
-- deadline and the slots do.
pub start_round-Entered :
    (s : ServerState)
    → let t = start_round s in
      (t.phase ≡ round_active)
      × (t.round_no ≡ s.round_no + 1)
      × (t.round_deadline ≡ s.now + round_seconds)
      × ((k : ℕ) → Entered (player s k) (player t k))
      × (length t.players ≡ length s.players)
      × (t ≡ record s {
        phase = t.phase;
        round_no = t.round_no;
        round_deadline = t.round_deadline;
        players = t.players;
      })
unfolding start_round
start_round-Entered s = (
  refl,
  refl,
  refl,
  map-each Entered enter_round empty-Entered enter_round-Entered s.players,
  entered_length s.players,
  refl,
)
