-- ===== src/Chase/Choice.antt =====
-- The kinds of players: `can_eat` of src/chase_simulation.c beside `rps_result` of src/game.c, and
-- what the count of living kinds says.
use rock_paper_scissors_batt.Base.{
  ℕ, zero, suc, ◌+◌, ◌≤◌, ◌≡◌, ◌≢◌, ◌↔◌, refl, sym, ◌∙◌, ◌⊎◌, inl, inr, List, [], ◌∷◌, Bool, true,
  false, leb→le, le→leb, ◌&&◌, ◌||◌, ◌==◌, arith, get_or, Bool-cases,
}
use rock_paper_scissors_batt.Base.Int.{pos, negsuc}
use rock_paper_scissors_batt.State.{Player, ServerState, player, empty_slot, player_is_alive}
use rock_paper_scissors_batt.State.Slots.{alive-empty}
use rock_paper_scissors_batt.Game.{rock, paper, scissors, rps_result}
use rock_paper_scissors_batt.Chase.{
  can_eat, Types, note_type, types_loop, one_if, count_choice_types_alive, simulate_chase_tick,
}
use rock_paper_scissors_batt.Float.{Float}

abbrev pub IsChoice : ℕ → Type 0
IsChoice c = (c ≡ rock) ⊎ (c ≡ paper) ⊎ (c ≡ scissors)

-- The two modules agree on who beats whom: on the three kinds `rps_result` is 1 where the first
-- eats the second, -1 where the second eats the first, and 0 where neither does.
pub rps_result-can_eat :
    (a b : ℕ)
    → IsChoice a
    → IsChoice b
    → ((rps_result a b ≡ pos 1) ↔ (can_eat a b ≡ true))
      × ((rps_result a b ≡ negsuc 0) ↔ (can_eat b a ≡ true))
      × ((rps_result a b ≡ pos 0) ↔ (a ≡ b))
unfolding rps_result can_eat
rps_result-can_eat a b ha hb = ground arith

-- Whether somebody alive is of kind `c`.
pub has_type : ℕ → List Player → Bool
has_type c [] = false
has_type c (p ∷ ps) = (player_is_alive p && (p.choice == c)) || has_type c ps

pub has_type_of_alive :
    (c : ℕ) (ps : List Player) (k : ℕ)
    → player_is_alive (get_or ps k empty_slot) ≡ true
    → (get_or ps k empty_slot).choice ≡ c
    → has_type c ps ≡ true
unfolding has_type
has_type_of_alive c [] k alive e = cc alive-empty
has_type_of_alive c (p ∷ ps) zero alive e = ground arith
has_type_of_alive c (p ∷ ps) (suc k) alive e = ground (arith, has_type_of_alive c ps k alive e)

pub has_type_found :
    (c : ℕ) (ps : List Player)
    → has_type c ps ≡ true
    → (k : ℕ) × (player_is_alive (get_or ps k empty_slot) ≡ true)
      × ((get_or ps k empty_slot).choice ≡ c)
unfolding has_type
has_type_found c [] h = absurd (cc)
has_type_found c (p ∷ ps) h = elim (Bool-cases (player_is_alive p && (p.choice == c))) [
  | inl e ↦ (0, ground arith, ground arith)
  | inr e ↦ let (k, alive, is) = has_type_found c ps (ground arith) in (suc k, alive, is)
]

types_loop_lem :
    (t : Types) (ps : List Player)
    → ((types_loop t ps).has_r ≡ (t.has_r || has_type rock ps))
      × ((types_loop t ps).has_s ≡ (t.has_s || has_type scissors ps))
      × ((types_loop t ps).has_p ≡ (t.has_p || has_type paper ps))
unfolding types_loop note_type has_type
types_loop_lem t [] = ground arith
types_loop_lem t (p ∷ ps) = ground (arith, types_loop_lem (note_type t p) ps)

pub count_choice_types_alive_lem :
    (s : ServerState)
    → count_choice_types_alive s
      ≡ one_if (has_type rock s.players)
        + one_if (has_type scissors s.players)
        + one_if (has_type paper s.players)
unfolding count_choice_types_alive
count_choice_types_alive_lem s =
    ground
      (arith, types_loop_lem (record { has_r = false; has_s = false; has_p = false }) s.players)

-- All living players of a valid kind are of the same kind.
abbrev pub OneKind : ServerState → Type 0
OneKind s =
    (j k : ℕ)
    → player_is_alive (player s j) ≡ true
    → player_is_alive (player s k) ≡ true
    → IsChoice (player s j).choice
    → IsChoice (player s k).choice
    → (player s j).choice ≡ (player s k).choice

not_both :
    (s : ServerState) (c d : ℕ)
    → IsChoice c
    → IsChoice d
    → c ≢ d
    → OneKind s
    → has_type c s.players ≡ true
    → has_type d s.players ≡ true
    → ⊥
not_both s c d hc hd ne one h k =
    let (i, alive, is) = has_type_found c s.players h in
    let (j, alive', is') = has_type_found d s.players k in
    ne (sym is ∙ one i j alive alive' (rw is hc) (rw is' hd) ∙ is')

pub count_choice_types_alive-OneKind :
    (s : ServerState) → (count_choice_types_alive s ≤ 1) ↔ OneKind s
count_choice_types_alive-OneKind s = (
  λ few j k alive alive' hj hk. ground (
    arith,
    count_choice_types_alive_lem s,
    has_type_of_alive (player s j).choice s.players j alive refl,
    has_type_of_alive (player s k).choice s.players k alive' refl,
  ),
  λ one. rw (count_choice_types_alive_lem s) (
      ground (
        arith,
        not_both s rock scissors (inl refl) (inr (inr refl)) (omega arith) one,
        not_both s rock paper (inl refl) (inr (inl refl)) (omega arith) one,
        not_both s paper scissors (inr (inl refl)) (inr (inr refl)) (omega arith) one,
      )),
)

-- The tick reports the end of the match exactly when, after it, all living players whose kind is
-- rock, paper or scissors are of one kind.
pub simulate_chase_tick-OneKind :
    (s : ServerState) (dt : Float)
    → ((simulate_chase_tick s dt).0 ≡ true) ↔ OneKind (simulate_chase_tick s dt).1
unfolding simulate_chase_tick
simulate_chase_tick-OneKind s dt = (
  λ h. (count_choice_types_alive-OneKind _).0 (leb→le _ _ h),
  λ one. le→leb _ _ ((count_choice_types_alive-OneKind _).1 one),
)
