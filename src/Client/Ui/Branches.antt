-- ===== src/Client/Ui/Branches.antt =====
-- Branches of the key loop that keep the client in order.
use rock_paper_scissors_batt.Base.{
  ℕ, ◌<◌, ◌≡◌, inl, inr, ◌⊎◌, List, [], ◌∷◌, Option, none, some, Bool, true, false, All, arith,
  length, if◌then◌else◌, Bool-cases,
}
use rock_paper_scissors_batt.Base.Int.{ℤ, pos, negsuc, ltb_ℤ}
use rock_paper_scissors_batt.State.{max_name_length}
use rock_paper_scissors_batt.Text.Bytes.{Bytes, c_string}
use rock_paper_scissors_batt.Chase.Choice.{IsChoice}
use rock_paper_scissors_batt.Commands.{to_upper}
use rock_paper_scissors_batt.Client.Inv.{ClientInv}
use rock_paper_scissors_batt.Client.Ui.{Ui, Origin, clamp_int}
use rock_paper_scissors_batt.Client.Ui.Keys.{with_name, is_kind, spawn_line, when, first_key}
use rock_paper_scissors_batt.Client.Ui.Commands.{spawn-IsUnderstood, IsUnderstood}
use rock_paper_scissors_batt.Client.Ui.Inv.{IsCell, cell, UiInv, with_client-UiInv}

-- A branch that applies leaves the client in order.
abbrev pub Kept : Option Ui → Type 0
Kept none = Unit
Kept (some u) = UiInv u

pub first_key-UiInv :
    (u : Ui) (os : List (Option Ui)) → UiInv u → All Kept os → UiInv (first_key u os)
unfolding first_key
first_key-UiInv u [] v h = v
first_key-UiInv u (none ∷ os) v (_, h) = first_key-UiInv u os v h
first_key-UiInv u (some t ∷ os) v (g, _) = g

pub when-Kept : (b : Bool) (u : Ui) → UiInv u → Kept (when b u)
when-Kept true u v = v
when-Kept false u v = tt

pub clamp-IsCell : (z : ℤ) → IsCell (clamp_int z (pos 0) (pos 9))
unfolding clamp_int
clamp-IsCell (pos n) = elim (Bool-cases (ltb_ℤ (pos n) (pos 0))) [
  | inl e ↦ rw e (cell (omega arith))
  | inr e ↦ elim (Bool-cases (ltb_ℤ (pos 9) (pos n))) [
    | inl f ↦ rw (e, f) (cell (omega arith))
    | inr f ↦ rw (e, f) (cell (ground arith))
  ]
]
clamp-IsCell (negsuc n) = elim (Bool-cases (ltb_ℤ (negsuc n) (pos 0))) [
  | inl e ↦ rw e (cell (omega arith))
  | inr e ↦ absurd (ground arith)
]

pub with_name-UiInv :
    (u : Ui) (name : Bytes) → length name < max_name_length → UiInv u → UiInv (with_name u name)
with_name-UiInv u name h v = with_client-UiInv u _ renamed v
  where
    renamed : ClientInv (record u.client { name_input = name })
    renamed =
        let w = v.client in
        record {
          table = w.table;
          status_fits = w.status_fits;
          input_fits = h;
          pending_fits = w.pending_fits;
          mine_fits = w.mine_fits;
        }

pub upper-IsChoice : (c : ℕ) → is_kind c ≡ true → IsChoice (to_upper c)
upper-IsChoice c h = ground arith

pub if-Kept : (b : Bool) (o : Option Ui) → Kept o → Kept (if b then o else none)
if-Kept true o h = h
if-Kept false o h = tt

pub cells-IsUnderstood :
    {o : Origin} (x y : ℤ)
    → IsCell x
    → IsCell y
    → ((o.column ≡ x) × (o.row ≡ y)) ⊎ ((o.plan.spawn_x ≡ x) × (o.plan.spawn_y ≡ y))
    → IsUnderstood o (c_string (spawn_line x y))
cells-IsUnderstood (pos x) (pos y) (cell h) (cell k) from = spawn-IsUnderstood x y h k from
cells-IsUnderstood (pos x) (negsuc y) h k from = elim k [ ]
cells-IsUnderstood (negsuc x) y h k from = elim h [ ]
