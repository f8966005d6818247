-- ===== src/Client/Inv.antt =====
-- What holds of the client's state between two lines: the table of src/client_text_messages.c and
-- the buffers of src/client_state.h.
pub mod Branches
pub mod General
pub mod Lines
use rock_paper_scissors_batt.Base.{
  ℕ, zero, suc, ◌<◌, ◌≤◌, ◌≡◌, ◌≢◌, refl, sym, ap, subst, ◌∙◌, ◌⊎◌, inl, inr, List, [], ◌∷◌, Option,
  none, some, Bool, true, false, not, ◌&&◌, arith, length, take, get_or, set, replicate, length-set,
  length-take, get_or-set_cases, take_all, if◌then◌else◌, Bool-cases, Option-cases,
}
use rock_paper_scissors_batt.State.{max_players, max_name_length}
use rock_paper_scissors_batt.Text.Bytes.{Bytes, bytes_eq, bytes_eq_refl}
use rock_paper_scissors_batt.Client.{
  ClientPlayer, ClientState, zero_client, status_size, set_status, cleared, find_player,
  first_unused, new_player, get_or_add_player, client_player, update_player, next_index,
}

-- 32 entries; a name fits its buffer; no two entries in use have one name.
pub record TableInv (ps : List ClientPlayer) : Type 0 where
  pub size : length ps ≡ max_players
  pub short : (k : ℕ) → length (client_player ps k).name < max_name_length
  pub apart :
      (i j : ℕ)
      → i ≢ j
      → (client_player ps i).used ≡ true
      → (client_player ps j).used ≡ true
      → (client_player ps i).name ≢ (client_player ps j).name

pub record Fits (ps : List ClientPlayer) (status input pending mine : Bytes) : Type 0 where
  pub table : TableInv ps
  pub status_fits : length status < status_size
  pub input_fits : length input < max_name_length
  pub pending_fits : length pending < max_name_length
  pub mine_fits : length mine < max_name_length

abbrev pub ClientInv : ClientState → Type 0
ClientInv s = Fits s.players s.status_text s.name_input s.pending_name s.my_name

pub set_status-Inv : (s : ClientState) (line : Bytes) → ClientInv s → ClientInv (set_status s line)
unfolding set_status
set_status-Inv s line v = record {
  table = v.table;
  status_fits = omega (arith, length-take 255 line);
  input_fits = v.input_fits;
  pending_fits = v.pending_fits;
  mine_fits = v.mine_fits;
}

pub with_table :
    (s : ClientState) (ps : List ClientPlayer)
    → TableInv ps
    → ClientInv s
    → ClientInv (record s { players = ps })
with_table s ps t v = record {
  table = t;
  status_fits = v.status_fits;
  input_fits = v.input_fits;
  pending_fits = v.pending_fits;
  mine_fits = v.mine_fits;
}

blank_entry : (n k : ℕ) → client_player (replicate n zero_client) k ≡ zero_client
blank_entry zero k = refl
blank_entry (suc n) zero = refl
blank_entry (suc n) (suc k) = blank_entry n k

pub cleared-TableInv : TableInv cleared
unfolding cleared
cleared-TableInv = record {
  size = refl;
  short = λ k. rw (blank_entry max_players k) (omega arith);
  apart = λ i j e on. absurd (
      let off : (client_player (replicate max_players zero_client) i).used ≡ false =
        ap (λ (u : ClientPlayer). u.used) (blank_entry max_players i) in
      cc);
}

-- An entry keeps its name, and is not taken into use.
abbrev pub SameEntry : ClientPlayer → ClientPlayer → Type 0
SameEntry p q = (q.name ≡ p.name) × (q.used ≡ true → p.used ≡ true)

entries_kept :
    (ps : List ClientPlayer) (i : ℕ) (q : ClientPlayer)
    → SameEntry (client_player ps i) q
    → (k : ℕ) → SameEntry (client_player ps k) (client_player (set ps i q) k)
entries_kept ps i q (named, on) k = elim (get_or-set_cases ps i k q zero_client) [
  | inr e ↦ rw e (refl, λ h. h)
  | inl (e, f) ↦
      subst (SameEntry (client_player ps k)) (sym f)
        (subst (λ j. SameEntry (client_player ps j) q) (sym e) (named, on))
]

pub update_player-TableInv :
    (o : Option ℕ) (f : ClientPlayer → ClientPlayer) (ps : List ClientPlayer)
    → ((p : ClientPlayer) → SameEntry p (f p))
    → TableInv ps
    → TableInv (update_player o f ps)
unfolding update_player
update_player-TableInv none f ps same v = v
update_player-TableInv (some i) f ps same v =
    let kept = entries_kept ps i (f (client_player ps i)) (same (client_player ps i)) in
    record {
      size = length-set ps i (f (client_player ps i)) ∙ v.size;
      short = λ k. rw (kept k).0 (v.short k);
      apart = λ a b ne on on' e.
          v.apart a b ne ((kept a).1 on) ((kept b).1 on') (sym (kept a).0 ∙ e ∙ (kept b).0);
    }

passed :
    (b : Bool) (rest : Option ℕ)
    → (if b then some 0 else next_index rest) ≡ none
    → (b ≡ false) × (rest ≡ none)
passed true rest h = absurd (cc)
passed false none h = (refl, refl)
passed false (some i) h = absurd (cc)

-- A name that `find_player` does not find is that of no entry in use.
pub find_player-none :
    (ps : List ClientPlayer) (name : Bytes)
    → find_player ps name ≡ none
    → (k : ℕ) → (client_player ps k).used ≡ true
    → (client_player ps k).name ≢ name
unfolding find_player
find_player-none [] name h k on e = cc
find_player-none (p ∷ ps) name h zero on e =
    let (other, _) = passed (p.used && bytes_eq p.name name) (find_player ps name) h in
    let same : bytes_eq p.name name ≡ true =
      subst (λ m. bytes_eq p.name m ≡ true) e (bytes_eq_refl p.name) in
    cc (on, other, same)
find_player-none (p ∷ ps) name h (suc k) on e =
    let (_, rest) = passed (p.used && bytes_eq p.name name) (find_player ps name) h in
    find_player-none ps name rest k on e

-- A new entry of a name that no entry in use has.
new_entry-TableInv :
    (ps : List ClientPlayer) (i : ℕ) (name : Bytes)
    → length name < max_name_length
    → find_player ps name ≡ none
    → TableInv ps
    → TableInv (set ps i (new_player name))
unfolding new_player
new_entry-TableInv ps i name short new v = record {
  size = length-set ps i (new_player name) ∙ v.size;
  short = λ k. elim (get_or-set_cases ps i k (new_player name) zero_client) [
    | inr e ↦ rw e (v.short k)
    | inl (_, e) ↦ rw e (rw copy short)
  ];
  apart = λ a b ne on on' e. elim (get_or-set_cases ps i a (new_player name) zero_client) [
    | inl (ai, fa) ↦ elim (get_or-set_cases ps i b (new_player name) zero_client) [
      | inl (bi, fb) ↦ ne (ai ∙ sym bi)
      | inr fb ↦ find_player-none ps name new b (rw fb at on') (
          sym (ap (λ (u : ClientPlayer). u.name) fb)
          ∙ sym e
          ∙ ap (λ (u : ClientPlayer). u.name) fa
          ∙ copy)
    ]
    | inr fa ↦ elim (get_or-set_cases ps i b (new_player name) zero_client) [
      | inl (bi, fb) ↦ find_player-none ps name new a (rw fa at on) (
          sym (ap (λ (u : ClientPlayer). u.name) fa)
          ∙ e
          ∙ ap (λ (u : ClientPlayer). u.name) fb
          ∙ copy)
      | inr fb ↦
          v.apart a b ne (rw fa at on) (rw fb at on')
            (sym (ap (λ (u : ClientPlayer). u.name) fa) ∙ e ∙ ap (λ (u : ClientPlayer). u.name) fb)
    ]
  ];
}
  where
    copy : take 31 name ≡ name
    copy = take_all 31 name (omega arith)

-- `get_or_add_player` keeps the table in order, for a name that fits.
pub get_or_add_player-TableInv :
    (ps : List ClientPlayer) (name : Bytes)
    → length name < max_name_length
    → TableInv ps
    → TableInv (get_or_add_player ps name).1
unfolding get_or_add_player
get_or_add_player-TableInv ps name short v = elim (Option-cases (find_player ps name)) [
  | inr (i, e) ↦ rw (e, get_or_add_player) v
  | inl e ↦ elim (Option-cases (first_unused ps)) [
    | inl f ↦ rw (e, f, get_or_add_player) v
    | inr (i, f) ↦ rw (e, f, get_or_add_player) (new_entry-TableInv ps i name short e v)
  ]
]
