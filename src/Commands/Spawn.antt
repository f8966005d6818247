-- ===== src/Commands/Spawn.antt =====
-- `spawn_taken` of src/server_commands.c.
use rock_paper_scissors_batt.Base.{
  ℕ, zero, suc, ◌+◌, ◌<◌, ◌≤◌, ◌≡◌, ◌≢◌, ◌↔◌, refl, sym, Bool, true, false, not, ◌&&◌, ◌==◌,
  if◌then◌else◌, arith, ℕ_discrete, subst,
}
use rock_paper_scissors_batt.Base.Int.{ℤ}
use rock_paper_scissors_batt.Float.{eq}
use rock_paper_scissors_batt.State.{
  ServerState, player, slots, range_from, max_players, player_is_admitted,
}
use rock_paper_scissors_batt.Commands.{of_int, spawn_taken}

-- An admitted player other than `ignore_idx` in slot `k` stands exactly on the grid point.
pub record Takes (s : ServerState) (x y : ℤ) (ignore_idx k : ℕ) : Type 0 where
  pub other : k ≢ ignore_idx
  pub is_in : player_is_admitted (player s k) ≡ true
  pub chosen : (player s k).spawn_chosen ≡ true
  pub at_x : eq (player s k).x (of_int x) ≡ true
  pub at_y : eq (player s k).y (of_int y) ≡ true

Takes-of_spawn_taken :
    (s : ServerState) (x y : ℤ) (ignore_idx i n : ℕ)
    → spawn_taken s x y ignore_idx (range_from i n) ≡ true
    → (k : ℕ) × (i ≤ k) × (k < i + n) × Takes s x y ignore_idx k
unfolding spawn_taken
Takes-of_spawn_taken s x y ignore_idx i zero h = absurd (cc)
Takes-of_spawn_taken s x y ignore_idx i (suc n) h =
    split (i == ignore_idx) (player_is_admitted (player s i)) (player s i).spawn_chosen
      (eq (player s i).x (of_int x)) (eq (player s i).y (of_int y)) refl refl refl refl refl h
      (λ r.
        let (k, l, u, t) = Takes-of_spawn_taken s x y ignore_idx (i + 1) n r in
        (k, omega arith, omega arith, t))
  where
    rest : Bool
    rest = spawn_taken s x y ignore_idx (range_from (i + 1) n)

    split :
        (a b c d e : Bool)
        → (i == ignore_idx) ≡ a
        → player_is_admitted (player s i) ≡ b
        → (player s i).spawn_chosen ≡ c
        → eq (player s i).x (of_int x) ≡ d
        → eq (player s i).y (of_int y) ≡ e
        → (if a
            then rest
            else if not b
            then rest
            else if not c
            then rest
            else if d && e
            then true
            else rest)
          ≡ true
        → (rest ≡ true → (k : ℕ) × (i ≤ k) × (k < i + suc n) × Takes s x y ignore_idx k)
        → (k : ℕ) × (i ≤ k) × (k < i + suc n) × Takes s x y ignore_idx k
    split true b c d e h1 h2 h3 h4 h5 r later = later r
    split false false c d e h1 h2 h3 h4 h5 r later = later r
    split false true false d e h1 h2 h3 h4 h5 r later = later r
    split false true true false e h1 h2 h3 h4 h5 r later = later r
    split false true true true false h1 h2 h3 h4 h5 r later = later r
    split false true true true true h1 h2 h3 h4 h5 r later = (
      i,
      omega arith,
      omega arith,
      record { other = λ same. ground arith; is_in = h2; chosen = h3; at_x = h4; at_y = h5 },
    )

spawn_taken_of_Takes :
    (s : ServerState) (x y : ℤ) (ignore_idx k i n : ℕ)
    → i ≤ k
    → k < i + n
    → Takes s x y ignore_idx k
    → spawn_taken s x y ignore_idx (range_from i n) ≡ true
unfolding spawn_taken
spawn_taken_of_Takes s x y ignore_idx k i zero l u t = absurd (omega arith)
spawn_taken_of_Takes s x y ignore_idx k i (suc n) l u t = elim (ℕ_discrete i k) [
  | yes here ↦ found here
  | no ne ↦ skips (spawn_taken_of_Takes s x y ignore_idx k (i + 1) n (omega arith) (omega arith) t)
]
  where
    rest : Bool
    rest = spawn_taken s x y ignore_idx (range_from (i + 1) n)

    skips : rest ≡ true → spawn_taken s x y ignore_idx (range_from i (suc n)) ≡ true
    skips h = rw h (ground arith)

    found : i ≡ k → spawn_taken s x y ignore_idx (range_from i (suc n)) ≡ true
    found here =
        let t' : Takes s x y ignore_idx i = subst (Takes s x y ignore_idx) (sym here) t in
        let ne : (i == ignore_idx) ≡ false = (let o = t'.other in ground arith) in
        rw (ne, t'.is_in, t'.chosen, t'.at_x, t'.at_y) refl

-- `spawn_taken` says yes exactly when one of the 32 slots, `ignore_idx` excepted, holds an admitted
-- player with a spawn whose coordinates are equal, as floats, to the two whole numbers.
pub spawn_taken_iff :
    (s : ServerState) (x y : ℤ) (ignore_idx : ℕ)
    → (spawn_taken s x y ignore_idx slots ≡ true)
      ↔ ((k : ℕ) × (k < max_players) × Takes s x y ignore_idx k)
spawn_taken_iff s x y ignore_idx = (
  λ h.
      let (k, _, u, t) = Takes-of_spawn_taken s x y ignore_idx 0 max_players h in
      (k, omega arith, t),
  λ (k, u, t). spawn_taken_of_Takes s x y ignore_idx k 0 max_players (omega arith) (omega arith) t,
)
