-- ===== src/Commands/Slots.antt =====
-- `add_player` of src/server_commands.c.
use rock_paper_scissors_batt.Base.{
  ℕ, zero, suc, ◌+◌, ◌<◌, ◌≡◌, refl, subst, ◌⊎◌, inl, inr, List, [], ◌∷◌, none, some, true, false,
  arith, length, get_or, set, Bool-cases, Option-cases,
}
use rock_paper_scissors_batt.State.{Player, ServerState, player, empty_slot, zero_player, minus_one}
use rock_paper_scissors_batt.Commands.{free_slot, init_player_slot, add_player}

free_slot-some :
    (n i : ℕ) (ps : List Player)
    → free_slot n ps ≡ some i
    → (k : ℕ) × (i ≡ n + k)
      × (k < length ps)
      × ((get_or ps k empty_slot).connected ≡ false)
      × ((j : ℕ) → j < k → (get_or ps j empty_slot).connected ≡ true)
unfolding free_slot
free_slot-some n i [] h = absurd (cc)
free_slot-some n i (p ∷ ps) h = elim (Bool-cases p.connected) [
  | inr off ↦ (0, ground arith, omega arith, off, λ j l. absurd (omega arith))
  | inl on ↦
      let (k, e, l, off, taken) = free_slot-some (n + 1) i ps (rw on at h) in
      (suc k, omega arith, omega arith, off, before k on taken)
]
  where
    before :
        (k : ℕ)
        → p.connected ≡ true
        → ((j : ℕ) → j < k → (get_or ps j empty_slot).connected ≡ true)
        → (j : ℕ) → j < suc k
        → (get_or (p ∷ ps) j empty_slot).connected ≡ true
    before k on taken zero l = on
    before k on taken (suc j) l = taken j (omega arith)

free_slot-none :
    (n : ℕ) (ps : List Player)
    → free_slot n ps ≡ none
    → (k : ℕ) → k < length ps
    → (get_or ps k empty_slot).connected ≡ true
unfolding free_slot
free_slot-none n [] h k l = absurd (omega arith)
free_slot-none n (p ∷ ps) h zero l = ground arith
free_slot-none n (p ∷ ps) h (suc k) l = free_slot-none (n + 1) ps (ground arith) k (omega arith)

-- The same with the new player by the name of the function that fills it in.
pub add_player_slot :
    (s : ServerState) (fd : ℕ)
    → ((add_player s fd ≡ (none, s))
        × ((k : ℕ) → k < length s.players → (player s k).connected ≡ true))
      ⊎ ((i : ℕ) × (add_player s fd ≡ (
        some i,
        record s {
          players = set s.players i (init_player_slot fd s.next_id);
          next_id = s.next_id + 1;
        },
      ))
          × (i < length s.players)
          × ((player s i).connected ≡ false)
          × ((j : ℕ) → j < i → (player s j).connected ≡ true))
unfolding add_player
add_player_slot s fd = elim (Option-cases (free_slot 0 s.players)) [
  | inl e ↦ inl (rw (e, add_player) refl, free_slot-none 0 s.players e)
  | inr (i, e) ↦
      let (k, i_is, room, off, taken) = free_slot-some 0 i s.players e in
      let same : k ≡ i = omega arith in
      inr (
        i,
        rw (e, add_player) refl,
        omega arith,
        subst (λ n. (player s n).connected ≡ false) same off,
        subst (λ n. (j : ℕ) → j < n → (player s j).connected ≡ true) same taken,
      )
]

-- `add_player` answers -1 and changes nothing when every slot is connected. Otherwise it clears the
-- first slot that is not connected, puts it there as connected, with the socket, the next id and a
-- position off the grid, answers its index, and counts the id up.
pub add_player_first_free :
    (s : ServerState) (fd : ℕ)
    → ((add_player s fd ≡ (none, s))
        × ((k : ℕ) → k < length s.players → (player s k).connected ≡ true))
      ⊎ ((i : ℕ) × (add_player s fd ≡ (
        some i,
        record s {
          players = set s.players i (record zero_player {
            fd = fd;
            id = s.next_id;
            connected = true;
            x = minus_one;
            y = minus_one;
          });
          next_id = s.next_id + 1;
        },
      ))
          × (i < length s.players)
          × ((player s i).connected ≡ false)
          × ((j : ℕ) → j < i → (player s j).connected ≡ true))
unfolding init_player_slot empty_slot
add_player_first_free s fd = add_player_slot s fd
