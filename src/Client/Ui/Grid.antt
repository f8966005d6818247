-- ===== src/Client/Ui/Grid.antt =====
-- What the grid of the terminal client shows in each cell.
use rock_paper_scissors_batt.Base.{
  ℕ, zero, suc, ◌+◌, ◌*◌, ◌<◌, ◌≡◌, ◌≢◌, ◌⊎◌, sym, subst, refl, ap, ◌∙◌, inl, inr, List, [], ◌∷◌,
  ◌++◌, true, false, not, ◌&&◌, ◌||◌, ◌==◌, arith, length, get_or, if◌then◌else◌, Bool-cases,
}
use rock_paper_scissors_batt.Base.Int.{ℤ, pos, eqb_ℤ}
use rock_paper_scissors_batt.State.{grid_w, grid_h}
use rock_paper_scissors_batt.Client.{ClientPlayer, ClientState, client_player}
use rock_paper_scissors_batt.Base.Int.{negsuc}
use rock_paper_scissors_batt.Float.{Float, single, lt, add, to_int, of_ratio}
use rock_paper_scissors_batt.State.{zero_float}
use rock_paper_scissors_batt.Text.Bytes.{Bytes, text}
use rock_paper_scissors_batt.Client.Ui.{to_grid_coord, one_half}
use rock_paper_scissors_batt.Client.Ui.Draw.{
  Drawn, is_true, is_at, marker_at, cell_text, draw_cell, draw_row, draw_rows, draw_grid,
}

-- A coordinate that is not below 0 and, with a half added in single precision, is cut to `n`.
abbrev pub Rounds : Float → ℕ → Type 0
Rounds v n =
    (lt v zero_float ≡ false) × (to_int single (add single v (of_ratio single false 1 2)) ≡ pos n)

-- A player of the table who is shown in a cell.
pub record Stands (x y : ℕ) (p : ClientPlayer) : Type 0 where
  pub used : p.used ≡ true
  pub shown : (p.alive ≢ pos 0) ⊎ (p.waiting ≢ pos 0)
  pub column : Rounds p.x x
  pub row : Rounds p.y y

eqb_ℤ-true : (a b : ℤ) → eqb_ℤ a b ≡ true → a ≡ b
eqb_ℤ-true (pos m) (pos n) h = ap pos (ground arith)
eqb_ℤ-true (pos m) (negsuc n) h = cc
eqb_ℤ-true (negsuc m) (pos n) h = cc
eqb_ℤ-true (negsuc m) (negsuc n) h = ap negsuc (ground arith)

eqb_ℤ-refl : (a b : ℤ) → a ≡ b → eqb_ℤ a b ≡ true
eqb_ℤ-refl a b e = subst (λ (c : ℤ). eqb_ℤ a c ≡ true) e (same a)
  where
    same : (a : ℤ) → eqb_ℤ a a ≡ true
    same (pos n) = ground arith
    same (negsuc n) = ground arith

coordinate-Rounds : (v : Float) (n : ℕ) → to_grid_coord v ≡ pos n → Rounds v n
unfolding to_grid_coord one_half
coordinate-Rounds v n e = elim (Bool-cases (lt v zero_float)) [
  | inr f ↦ (f, rw f at e)
  | inl f ↦ absurd (let below : negsuc 0 ≡ pos n = rw f at e in cc)
]

Rounds-coordinate : (v : Float) (n : ℕ) → Rounds v n → to_grid_coord v ≡ pos n
unfolding to_grid_coord one_half
Rounds-coordinate v n (low, cut) = rw low cut

not_zero : (a b : ℤ) → (is_true a || is_true b) ≡ true → (a ≢ pos 0) ⊎ (b ≢ pos 0)
not_zero a b h = elim (Bool-cases (eqb_ℤ a (pos 0))) [
  | inr e ↦ inl λ q. let zero = eqb_ℤ-refl a (pos 0) q in cc
  | inl e ↦ elim (Bool-cases (eqb_ℤ b (pos 0))) [
    | inr f ↦ inr λ q. let zero = eqb_ℤ-refl b (pos 0) q in cc
    | inl f ↦ absurd (let bad : false ≡ true = rw (e, f) at h in cc)
  ]
]

some_true : (a b : ℤ) → (a ≢ pos 0) ⊎ (b ≢ pos 0) → (is_true a || is_true b) ≡ true
some_true a b (inl ne) = elim (Bool-cases (eqb_ℤ a (pos 0))) [
  | inl e ↦ absurd (ne (eqb_ℤ-true a (pos 0) e))
  | inr e ↦ rw e refl
]
some_true a b (inr ne) = elim (Bool-cases (eqb_ℤ b (pos 0))) [
  | inl e ↦ absurd (ne (eqb_ℤ-true b (pos 0) e))
  | inr e ↦ ground arith
]

is_at-Stands : (x y : ℕ) (p : ClientPlayer) → is_at x y p ≡ true → Stands x y p
is_at-Stands x y p h = record {
  used = ground arith;
  shown = not_zero p.alive p.waiting (ground arith);
  column = coordinate-Rounds p.x x (eqb_ℤ-true (to_grid_coord p.x) (pos x) (ground arith));
  row = coordinate-Rounds p.y y (eqb_ℤ-true (to_grid_coord p.y) (pos y) (ground arith));
}

Stands-is_at : (x y : ℕ) (p : ClientPlayer) → Stands x y p → is_at x y p ≡ true
Stands-is_at x y p is =
    rw
      (
        is.used,
        some_true p.alive p.waiting is.shown,
        eqb_ℤ-refl (to_grid_coord p.x) (pos x) (Rounds-coordinate p.x x is.column),
        eqb_ℤ-refl (to_grid_coord p.y) (pos y) (Rounds-coordinate p.y y is.row),
      )
      refl

-- The mark of a cell: a dot where nobody stands, and otherwise the kind of the first who does.
pub data Marks (x y : ℕ) (ps : List ClientPlayer) : ℕ → Type 0 where
  nobody : ((k : ℕ) → Stands x y (client_player ps k) → ⊥) → Marks x y ps b'.'
  somebody :
      (k : ℕ)
      → Stands x y (client_player ps k)
      → ((j : ℕ) → j < k → Stands x y (client_player ps j) → ⊥)
      → Marks x y ps
          (if not ((client_player ps k).choice == 0) then (client_player ps k).choice else b'?')

later :
    {x y : ℕ} {p : ClientPlayer} {ps : List ClientPlayer} {m : ℕ}
    → (Stands x y p → ⊥)
    → Marks x y ps m
    → Marks x y (p ∷ ps) m
later {x} {y} {p} {ps} {m} e (nobody h) = nobody none
  where
    none : (k : ℕ) → Stands x y (client_player (p ∷ ps) k) → ⊥
    none zero = e
    none (suc k) = h k
later {x} {y} {p} {ps} {m} e (somebody k on first) = somebody (suc k) on before
  where
    before : (j : ℕ) → j < suc k → Stands x y (client_player (p ∷ ps) j) → ⊥
    before zero h = e
    before (suc j) h = first j (omega arith)

pub marker_at-Marks : (x y : ℕ) (ps : List ClientPlayer) → Marks x y ps (marker_at x y ps)
unfolding marker_at
marker_at-Marks x y [] = nobody λ k is. let u : false ≡ true = is.used in cc
marker_at-Marks x y (p ∷ ps) = elim (Bool-cases (is_at x y p)) [
  | inr e ↦
      rw (e, marker_at)
        (later (λ is. let on = Stands-is_at x y p is in cc) (marker_at-Marks x y ps))
  | inl e ↦ rw (e, marker_at) (somebody 0 (is_at-Stands x y p e) λ j h. absurd (omega arith))
]

-- The text of a cell with the mark `m`.
pub data CellText (x y : ℕ) (cx cy : ℤ) (m : ℕ) : Bytes → Type 0 where
  at_cursor : cx ≡ pos x → cy ≡ pos y → CellText x y cx cy m (b'[' ∷ (m ∷ (b']' ∷ [])))
  off_cursor : (cx ≢ pos x) ⊎ (cy ≢ pos y) → CellText x y cx cy m (32 ∷ (m ∷ (32 ∷ [])))

cell_text-CellText :
    (x y : ℕ) (cx cy : ℤ) (m : ℕ)
    → CellText x y cx cy m (cell_text (eqb_ℤ (pos x) cx && eqb_ℤ (pos y) cy) m)
unfolding cell_text text
cell_text-CellText x y cx cy m = elim (Bool-cases (eqb_ℤ (pos x) cx)) [
  | inr e ↦ rw e (off_cursor (inl λ q. let on = eqb_ℤ-refl (pos x) cx (sym q) in cc))
  | inl e ↦ elim (Bool-cases (eqb_ℤ (pos y) cy)) [
    | inr f ↦ rw (e, f) (off_cursor (inr λ q. let on = eqb_ℤ-refl (pos y) cy (sym q) in cc))
    | inl f ↦ rw (e, f) (at_cursor (sym (eqb_ℤ-true (pos x) cx e)) (sym (eqb_ℤ-true (pos y) cy f)))
  ]
]

get_or-front :
    (xs ys : List Drawn) (k : ℕ) (d : Drawn) → k < length xs → get_or (xs ++ ys) k d ≡ get_or xs k d
get_or-front [] ys k d h = absurd (omega arith)
get_or-front (x ∷ xs) ys zero d h = refl
get_or-front (x ∷ xs) ys (suc k) d h = get_or-front xs ys k d (omega arith)

get_or-behind :
    (xs ys : List Drawn) (n k : ℕ) (d : Drawn)
    → n ≡ length xs + k
    → get_or (xs ++ ys) n d ≡ get_or ys k d
get_or-behind [] ys n k d e = let same : n ≡ k = omega arith in ap (λ (i : ℕ). get_or ys i d) same
get_or-behind (x ∷ xs) ys zero k d e = absurd (omega arith)
get_or-behind (x ∷ xs) ys (suc n) k d e = get_or-behind xs ys n k d (omega arith)

module _ (ps : List ClientPlayer) (top left : ℕ) (cx cy : ℤ) where
  same_cell :
      (y y' x x' : ℕ)
      → y ≡ y'
      → x ≡ x'
      → draw_cell ps top left cx cy y x ≡ draw_cell ps top left cx cy y' x'
  same_cell y y' x x' e f = λ i. draw_cell ps top left cx cy (e i) (f i)

  length-draw_row : (y x n : ℕ) → length (draw_row ps top left cx cy y x n) ≡ n
  unfolding draw_row
  length-draw_row y x zero = refl
  length-draw_row y x (suc n) = ap suc (length-draw_row y (x + 1) n)

  nth_in_row :
      (y x n i : ℕ) (d : Drawn)
      → i < n
      → get_or (draw_row ps top left cx cy y x n) i d ≡ draw_cell ps top left cx cy y (x + i)
  unfolding draw_row
  nth_in_row y x zero i d h = absurd (omega arith)
  nth_in_row y x (suc n) zero d h = ap (draw_cell ps top left cx cy y) (omega arith)
  nth_in_row y x (suc n) (suc i) d h =
      nth_in_row y (x + 1) n i d (omega arith) ∙ ap (draw_cell ps top left cx cy y) (omega arith)

  nth_in_rows :
      (y n i j : ℕ) (d : Drawn)
      → j < n
      → i < grid_w
      → get_or (draw_rows ps top left cx cy y n) (j * 10 + i) d
        ≡ draw_cell ps top left cx cy (y + j) i
  unfolding draw_rows
  nth_in_rows y zero i j d h k = absurd (omega arith)
  nth_in_rows y (suc n) i zero d h k =
      ap (λ (k : ℕ). get_or (draw_rows ps top left cx cy y (suc n)) k d) (omega arith)
      ∙ get_or-front (draw_row ps top left cx cy y 0 grid_w) (draw_rows ps top left cx cy (y + 1) n)
          i d (let l = length-draw_row y 0 grid_w in omega arith)
      ∙ nth_in_row y 0 grid_w i d k
      ∙ same_cell _ _ _ _ (omega arith) (omega arith)
  nth_in_rows y (suc n) i (suc j) d h k =
      get_or-behind (draw_row ps top left cx cy y 0 grid_w) _ (suc j * 10 + i) (j * 10 + i) d
        (let l = length-draw_row y 0 grid_w in omega arith)
      ∙ nth_in_rows (y + 1) n i j d (omega arith) k
      ∙ same_cell _ _ _ _ (omega arith) (omega arith)

-- Call number 1 + 10 * y + x of the drawing of the grid prints the cell in column x and row y, at its
-- own place on the screen: a mark between brackets if the cursor is there, and otherwise between
-- blanks. The mark is a dot where no player in use, living or waiting, has coordinates that are not
-- below 0 and round to that cell, which is to add a half in single precision and cut, and otherwise
-- the kind of the first who has, a question mark for one without a kind.
pub draw_grid_cells :
    (c : ClientState) (top left x y : ℕ) (cx cy : ℤ) (d : Drawn)
    → x < grid_w
    → y < grid_h
    → (m : ℕ) × (line : Bytes) × (get_or (draw_grid c top left cx cy) (1 + (y * 10 + x)) d
        ≡ record { row = top + y; column = left + x * 3; shown = line })
      × CellText x y cx cy m line
      × Marks x y c.players m
unfolding draw_grid draw_cell
draw_grid_cells c top left x y cx cy d hx hy = (
  marker_at x y c.players,
  cell_text (eqb_ℤ (pos x) cx && eqb_ℤ (pos y) cy) (marker_at x y c.players),
  get_or-behind (heading ∷ []) _ (1 + (y * 10 + x)) (y * 10 + x) d refl
      ∙ nth_in_rows c.players top left cx cy 0 grid_h x y d hy hx
      ∙ ap (λ (r : ℕ). draw_cell c.players top left cx cy r x) (omega arith),
  cell_text-CellText x y cx cy (marker_at x y c.players),
  marker_at-Marks x y c.players,
)
  where
    heading : Drawn
    heading = get_or (draw_grid c top left cx cy) 0 d
