-- ===== src/Chase/Tick.antt =====
-- `simulate_chase_tick` of src/chase_simulation.c and what it does to the players.
use rock_paper_scissors_batt.Base.{
  ℕ, ◌≡◌, ◌≢◌, refl, sym, ap, subst, ◌∙◌, ◌⊎◌, inl, inr, List, [], ◌∷◌, Option, none, some, Bool,
  true, false, arith, length, ℕ_discrete, if◌then◌else◌, Bool-cases, get_or-set_self, get_or-set_ne,
  length-set,
}
use rock_paper_scissors_batt.Float.{Float}
use rock_paper_scissors_batt.State.{
  Player, ServerState, player, put, slots, empty_slot, player_is_alive,
}
use rock_paper_scissors_batt.State.Slots.{set-each, lt-length_of_alive}
use rock_paper_scissors_batt.Chase.{
  can_eat, find_nearest_prey, eliminate, advance, in_reach, chase, chase_target, hunt, hunt_all,
  simulate_chase_tick,
}
use rock_paper_scissors_batt.Chase.Prey.{is_prey_parts, Answer, nearest, find_nearest_prey-Answer}

-- A tick changes no slot but in `alive`, `x` and `y`, and brings nobody back to life.
pub record Chased (p q : Player) : Type 0 where
  pub same : q ≡ record p { alive = q.alive; x = q.x; y = q.y }
  pub stays_dead : player_is_alive q ≡ true → player_is_alive p ≡ true
  pub stays_down : q.alive ≡ true → p.alive ≡ true

Chased-refl : (p : Player) → Chased p p
Chased-refl p = record { same = refl; stays_dead = λ h. h; stays_down = λ h. h }

Chased-trans : {p q r : Player} → Chased p q → Chased q r → Chased p r
Chased-trans {r} c d = record {
  same = d.same ∙ ap (λ (t : Player). record t { alive = r.alive; x = r.x; y = r.y }) c.same;
  stays_dead = λ h. c.stays_dead (d.stays_dead h);
  stays_down = λ h. c.stays_down (d.stays_down h);
}

eliminate-Chased : (p : Player) → Chased p (eliminate p)
unfolding eliminate player_is_alive
eliminate-Chased p = record {
  same = refl;
  stays_dead = λ h. ground arith;
  stays_down = λ h. absurd (cc);
}

advance-Chased : (dt : Float) (p q : Player) → Chased p (advance dt p q)
unfolding advance player_is_alive
advance-Chased dt p q = record { same = refl; stays_dead = λ h. ground arith; stays_down = λ h. h }

choice_same : {p q : Player} → Chased p q → q.choice ≡ p.choice
choice_same c = ap (λ (t : Player). t.choice) c.same

-- What a hunt or a series of hunts does to the state.
pub record Hunted (s t : ServerState) : Type 0 where
  pub each : (k : ℕ) → Chased (player s k) (player t k)
  pub eaten :
      (k : ℕ)
      → player_is_alive (player s k) ≡ true
      → (player_is_alive (player t k) ≡ true)
        ⊎ ((m : ℕ) × (player_is_alive (player s m) ≡ true)
            × (can_eat (player s m).choice (player s k).choice ≡ true))
  pub left :
      (k : ℕ)
      → player_is_alive (player s k) ≡ true
      → (m : ℕ) × (player_is_alive (player t m) ≡ true)
  pub rest : t ≡ record s { players = t.players }
  pub size : length t.players ≡ length s.players

Hunted-refl : (s : ServerState) → Hunted s s
Hunted-refl s = record {
  each = λ k. Chased-refl _;
  eaten = λ k h. inl h;
  left = λ k h. (k, h);
  rest = refl;
  size = refl;
}

Hunted-trans : {s t u : ServerState} → Hunted s t → Hunted t u → Hunted s u
Hunted-trans {s} {t} {u} a b = record {
  each = λ k. Chased-trans (a.each k) (b.each k);
  eaten = λ k h. elim (a.eaten k h) [
    | inl on ↦ elim (b.eaten k on) [
      | inl on' ↦ inl on'
      | inr (m, lives, eats) ↦ inr (
        m,
        (a.each m).stays_dead lives,
        rw (choice_same (a.each m), choice_same (a.each k)) at eats,
      )
    ]
    | inr eater ↦ inr eater
  ];
  left = λ k h. let (m, on) = a.left k h in b.left m on;
  rest = b.rest ∙ ap (λ (v : ServerState). record v { players = u.players }) a.rest;
  size = b.size ∙ a.size;
}

-- A write that leaves the slot's life alone.
put-Hunted :
    (s : ServerState) (i : ℕ) (p : Player)
    → Chased (player s i) p
    → player_is_alive p ≡ player_is_alive (player s i)
    → Hunted s (put s i p)
put-Hunted s i p c e = record {
  each = set-each Chased Chased-refl s.players i p c;
  eaten = λ k h. inl (on k h);
  left = λ k h. (k, on k h);
  rest = refl;
  size = length-set s.players i p;
}
  where
    on :
        (k : ℕ)
        → player_is_alive (player s k) ≡ true
        → player_is_alive (player (put s i p) k) ≡ true
    on k h =
        set-each (λ q r. player_is_alive q ≡ true → player_is_alive r ≡ true) (λ q h. h) s.players i
          p (λ h. e ∙ h) k h

-- A capture: the prey at `j` dies, and the hunter at `i`, which eats it, stays.
capture-Hunted :
    (s : ServerState) (i j : ℕ)
    → player_is_alive (player s i) ≡ true
    → i ≢ j
    → can_eat (player s i).choice (player s j).choice ≡ true
    → Hunted s (put s j (eliminate (player s j)))
capture-Hunted s i j alive apart eats = record {
  each = set-each Chased Chased-refl s.players j _ (eliminate-Chased _);
  eaten = λ k h. elim (ℕ_discrete j k) [
    | yes e ↦
        inr (i, alive, subst (λ n. can_eat (player s i).choice (player s n).choice ≡ true) e eats)
    | no ne ↦ inl (rw (get_or-set_ne s.players j k (eliminate (player s j)) empty_slot ne) h)
  ];
  left = λ k h. (
    i,
    rw (get_or-set_ne s.players j i (eliminate (player s j)) empty_slot (λ e. apart (sym e))) alive,
  );
  rest = refl;
  size = length-set s.players j (eliminate (player s j));
}

pub advance-alive :
    (dt : Float) (p q : Player) → player_is_alive (advance dt p q) ≡ player_is_alive p
unfolding advance player_is_alive
advance-alive dt p q = refl

advance-choice : (dt : Float) (p q : Player) → (advance dt p q).choice ≡ p.choice
unfolding advance
advance-choice dt p q = refl

module _ (dt : Float) (s : ServerState) (i j : ℕ) (alive : player_is_alive (player s i) ≡ true)
    (apart : i ≢ j) (eats : can_eat (player s i).choice (player s j).choice ≡ true) where
  abbrev hunter' : Player
  hunter' = advance dt (player s i) (player s j)

  abbrev moved : ServerState
  moved = put s i hunter'

  moved-Hunted : Hunted s moved
  moved-Hunted =
      put-Hunted s i hunter' (advance-Chased dt (player s i) (player s j))
        (advance-alive dt (player s i) (player s j))

  moved_hunter : player moved i ≡ hunter'
  moved_hunter =
      get_or-set_self s.players i hunter' empty_slot (lt-length_of_alive s.players i alive)

  moved_prey : player moved j ≡ player s j
  moved_prey = get_or-set_ne s.players i j hunter' empty_slot apart

  moved_capture-Hunted : Hunted s (put moved j (eliminate (player moved j)))
  moved_capture-Hunted = Hunted-trans moved-Hunted (
      capture-Hunted moved i j
        (rw moved_hunter (advance-alive dt (player s i) (player s j) ∙ alive)) apart
        (rw (moved_hunter, moved_prey, advance-choice dt (player s i) (player s j)) eats))

  chase-Hunted : Hunted s (chase dt s i j)
  unfolding chase
  chase-Hunted =
      split (in_reach (player s i) (player s j)) (in_reach (player moved i) (player moved j))
    where
      split :
          (now later : Bool)
          → Hunted s (
              if now
              then put s j (eliminate (player s j))
              else if later
              then put moved j (eliminate (player moved j))
              else moved)
      split true later = capture-Hunted s i j alive apart eats
      split false true = moved_capture-Hunted
      split false false = moved-Hunted

target-Hunted :
    (dt : Float) (s : ServerState) (i : ℕ) (r : Option ℕ)
    → player_is_alive (player s i) ≡ true
    → Answer s i r
    → Hunted s (chase_target dt s i r)
unfolding chase_target
target-Hunted dt s i none alive a = Hunted-refl s
target-Hunted dt s i (some j) alive (nearest prey closest) =
    let (_, apart, eats) = is_prey_parts i (player s i) j (player s j) prey in
    chase-Hunted dt s i j alive (λ e. apart (sym e)) eats

hunt-Hunted : (dt : Float) (i : ℕ) (s : ServerState) → Hunted s (hunt dt i s)
unfolding hunt
hunt-Hunted dt i s = elim (Bool-cases (player_is_alive (player s i))) [
  | inr dead ↦ rw dead (Hunted-refl s)
  | inl alive ↦
      rw alive
        (target-Hunted dt s i (find_nearest_prey s i) alive (find_nearest_prey-Answer s i alive))
]

hunt_all-Hunted : (dt : Float) (is : List ℕ) (s : ServerState) → Hunted s (hunt_all dt is s)
unfolding hunt_all
hunt_all-Hunted dt [] s = Hunted-refl s
hunt_all-Hunted dt (i ∷ is) s =
    Hunted-trans (hunt-Hunted dt i s) (hunt_all-Hunted dt is (hunt dt i s))

-- A tick of the chase changes nothing but who lives and where players stand, brings nobody back,
-- eliminates only players for whom somebody alive at its start eats their kind, and leaves somebody
-- alive if anybody was.
pub simulate_chase_tick-Hunted :
    (s : ServerState) (dt : Float) → Hunted s (simulate_chase_tick s dt).1
unfolding simulate_chase_tick
simulate_chase_tick-Hunted s dt = hunt_all-Hunted _ slots s
