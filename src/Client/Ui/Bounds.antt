-- ===== src/Client/Ui/Bounds.antt =====
-- Keys keep the terminal client in order.
use rock_paper_scissors_batt.Base.{
  refl, ◌≡◌, ℕ, Option, ◌-◌, inl, inr, List, [], ◌∷◌, ◌++◌, none, some, Bool, not, ◌&&◌, ◌||◌,
  arith, length, length-append, length-take, ltb, ltb→lt, if◌then◌else◌, Bool-cases,
}
use rock_paper_scissors_batt.Base.Int.{ℤ, pos}
use rock_paper_scissors_batt.State.{max_name_length}
use rock_paper_scissors_batt.Text.Bytes.{text}
use rock_paper_scissors_batt.Commands.{to_upper}
use rock_paper_scissors_batt.Client.Ui.{
  Key, code, key_left, key_right, key_up, key_down, key_backspace, key_enter, Ui,
  is_valid_name_char, clamp_int,
}
use rock_paper_scissors_batt.Client.Ui.Keys.{
  is_code, is_backspace, is_enter, next, previous, may_join, with_name, edit_name, move_cursor,
  is_kind, choose, place, is_letter, press, handle_keys,
}
use rock_paper_scissors_batt.Client.Ui.Commands.{
  rematch-IsUnderstood, choice-IsUnderstood, repick-IsUnderstood,
}
use rock_paper_scissors_batt.Client.Ui.Inv.{
  either-UiInv, UiInv, request_state-UiInv, refresh-UiInv, hello-UiInv,
}
use rock_paper_scissors_batt.Client.Ui.Branches.{
  Kept, first_key-UiInv, when-Kept, clamp-IsCell, with_name-UiInv, upper-IsChoice, if-Kept,
  cells-IsUnderstood,
}

module _ (sends : ℕ → Option ℕ) (u : Ui) (v : UiInv u) where
  moved_x : (z : ℤ) → UiInv (record u { cursor_x = clamp_int z (pos 0) (pos 9) })
  moved_x z = record {
    input_fits = v.input_fits;
    client = v.client;
    plan = v.plan;
    column = clamp-IsCell z;
    row = v.row;
    understood = v.understood;
  }

  moved_y : (z : ℤ) → UiInv (record u { cursor_y = clamp_int z (pos 0) (pos 9) })
  moved_y z = record {
    input_fits = v.input_fits;
    client = v.client;
    plan = v.plan;
    column = v.column;
    row = clamp-IsCell z;
    understood = v.understood;
  }

  append-UiInv :
      (c : ℕ)
      → UiInv (
          if ltb (length u.client.name_input) (max_name_length - 1)
          then with_name u (u.client.name_input ++ (c ∷ []))
          else u)
  append-UiInv c = elim (Bool-cases (ltb (length u.client.name_input) (max_name_length - 1))) [
    | inr e ↦ rw e v
    | inl e ↦ rw e (
        with_name-UiInv u _
          (let h = ltb→lt _ _ e in omega (arith, length-append u.client.name_input (c ∷ []))) v)
  ]

  typed-Kept :
      (k : Key)
      → Kept (elim k [
        | code c ↦
            if is_valid_name_char c
            then some (
                if ltb (length u.client.name_input) (max_name_length - 1)
                then with_name u (u.client.name_input ++ (c ∷ []))
                else u)
            else none
        | _ ↦ none
      ])
  typed-Kept (code c) = elim (Bool-cases (is_valid_name_char c)) [
    | inl e ↦ rw e (append-UiInv c)
    | inr e ↦ rw e tt
  ]
  typed-Kept key_left = tt
  typed-Kept key_right = tt
  typed-Kept key_up = tt
  typed-Kept key_down = tt
  typed-Kept key_backspace = tt
  typed-Kept key_enter = tt

  edit-Kept : (k : Key) → Kept (edit_name sends u k)
  unfolding edit_name
  edit-Kept k = elim (Bool-cases (is_code 27 k)) [
    | inl e ↦ rw e v
    | inr e ↦ elim (Bool-cases (is_backspace k)) [
      | inl f ↦
          rw (e, f)
            (with_name-UiInv u _
              (let h = v.client.input_fits in
                omega (arith, length-take (length u.client.name_input - 1) u.client.name_input))
              v)
      | inr f ↦ elim (Bool-cases (is_enter k)) [
        | inl g ↦ rw (e, f, g) (hello-UiInv sends u v)
        | inr g ↦ rw (e, f, g) (typed-Kept k)
      ]
    ]
  ]

  cursor-Kept : (k : Key) → Kept (move_cursor u k)
  unfolding move_cursor
  cursor-Kept key_left = moved_x (previous u.cursor_x)
  cursor-Kept key_right = moved_x (next u.cursor_x)
  cursor-Kept key_up = moved_y (previous u.cursor_y)
  cursor-Kept key_down = moved_y (next u.cursor_y)
  cursor-Kept (code c) = tt
  cursor-Kept key_backspace = tt
  cursor-Kept key_enter = tt

  choose-Kept : (k : Key) → u.ch ≡ some k → Kept (choose sends u k)
  unfolding choose
  choose-Kept (code c) here = elim (Bool-cases (is_kind c)) [
    | inr e ↦ rw e tt
    | inl e ↦ elim (Bool-cases (not u.client.game_over && u.client.repick_phase)) [
      | inl f ↦
          rw (e, f)
            (refresh-UiInv sends u _
              (repick-IsUnderstood (to_upper c) (upper-IsChoice c e) (c, here, refl)) v)
      | inr f ↦ elim (Bool-cases (may_join u.client)) [
        | inl g ↦
            rw (e, f, g)
              (refresh-UiInv sends u _
                (choice-IsUnderstood (to_upper c) (upper-IsChoice c e) (inr (c, here, refl))) v)
        | inr g ↦ rw (e, f, g) tt
      ]
    ]
  ]
  choose-Kept key_left here = tt
  choose-Kept key_right here = tt
  choose-Kept key_up here = tt
  choose-Kept key_down here = tt
  choose-Kept key_backspace here = tt
  choose-Kept key_enter here = tt

  place-Kept : (k : Key) → Kept (place sends u k)
  unfolding place
  place-Kept k = elim (Bool-cases ((is_code 32 k || is_enter k) && may_join u.client)) [
    | inr e ↦ rw e tt
    | inl e ↦ rw e (
        either-UiInv u.client.choice_confirmed _ u
          (refresh-UiInv sends u _
            (cells-IsUnderstood u.cursor_x u.cursor_y v.column v.row (inl (refl, refl))) v)
          v)
  ]

  press-UiInv : (k : Key) → u.ch ≡ some k → UiInv (press sends u k)
  unfolding press
  press-UiInv k here = first_key-UiInv u _ v (
    when-Kept (is_letter b'g' k) _ (request_state-UiInv sends u v),
    (
      when-Kept (new && is_letter b'u' k) _ v,
      (
        if-Kept (new && u.name_edit_active) (edit_name sends u k) (edit-Kept k),
        (
          cursor-Kept k,
          (
            when-Kept (is_letter b'h' k && new) _ (hello-UiInv sends u v),
            (
              when-Kept (is_letter b'm' k && u.client.game_over) _
                  (refresh-UiInv sends u (text "REMATCH") rematch-IsUnderstood v),
              (choose-Kept k here, (place-Kept k, tt)),
            ),
          ),
        ),
      ),
    ),
  )
    where
      new : Bool
      new = not u.client.name_registered

at_key : (u : Ui) (k : Key) → UiInv u → UiInv (record u { ch = some k })
at_key u k v = v

pub handle_keys-UiInv :
    (sends : ℕ → Option ℕ) (ks : List Key) (u : Ui) → UiInv u → UiInv (handle_keys sends ks u)
unfolding handle_keys
handle_keys-UiInv sends [] u v = v
handle_keys-UiInv sends (k ∷ ks) u v = elim (Bool-cases (is_letter b'q' k)) [
  | inl e ↦ rw (e, handle_keys) v
  | inr e ↦
      rw (e, handle_keys)
        (handle_keys-UiInv sends ks (press sends (record u { ch = some k }) k)
          (press-UiInv sends (record u { ch = some k }) (at_key u k v) k refl))
]
