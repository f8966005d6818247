-- ===== src/Client/Table.antt =====
-- The client's table of players: `find_player` and `get_or_add_player` of
-- src/client_text_messages.c.
use rock_paper_scissors_batt.Base.{
  ℕ, zero, suc, ◌≡◌, refl, ap, List, [], ◌∷◌, ◌++◌, none, some, true, false, All, length, get_or,
  set, replicate,
}
use rock_paper_scissors_batt.Text.Bytes.{Bytes, bytes_eq}
use rock_paper_scissors_batt.Client.{
  ClientPlayer, zero_client, find_player, first_unused, new_player, get_or_add_player,
  update_player,
}
use rock_paper_scissors_batt.Client.Messages.{PlayerLine, show_player}

-- A used entry of another name.
abbrev pub Other : Bytes → ClientPlayer → Type 0
Other name v = (v.used ≡ true) × (bytes_eq v.name name ≡ false)

find_player-blank : (n : ℕ) (name : Bytes) → find_player (replicate n zero_client) name ≡ none
unfolding find_player
find_player-blank zero name = refl
find_player-blank (suc n) name = rw (find_player-blank n name) refl

find_player-Other :
    (vs : List ClientPlayer) (n : ℕ) (name : Bytes)
    → All (Other name) vs
    → find_player (vs ++ replicate n zero_client) name ≡ none
unfolding find_player
find_player-Other [] n name h = find_player-blank n name
find_player-Other (v ∷ vs) n name ((used, other), h) =
    rw (used, other, find_player-Other vs n name h) refl

first_unused-Other :
    (vs rest : List ClientPlayer) (name : Bytes)
    → All (Other name) vs
    → first_unused (vs ++ (zero_client ∷ rest)) ≡ some (length vs)
unfolding first_unused
first_unused-Other [] rest name h = refl
first_unused-Other (v ∷ vs) rest name ((used, other), h) =
    rw (used, first_unused-Other vs rest name h) refl

set-append :
    (vs rest : List ClientPlayer) (a b : ClientPlayer)
    → set (vs ++ (a ∷ rest)) (length vs) b ≡ vs ++ (b ∷ rest)
set-append [] rest a b = refl
set-append (v ∷ vs) rest a b = ap (◌∷◌ v) (set-append vs rest a b)

get_or-append :
    (vs rest : List ClientPlayer) (a d : ClientPlayer) → get_or (vs ++ (a ∷ rest)) (length vs) d ≡ a
get_or-append [] rest a d = refl
get_or-append (v ∷ vs) rest a d = get_or-append vs rest a d

-- The entry that a line of a new player makes.
abbrev pub entry_of : PlayerLine → ClientPlayer
entry_of l = record (new_player l.name) {
  choice = l.choice;
  x = l.x;
  y = l.y;
  alive = l.alive;
  waiting = l.waiting;
}

added :
    (vs : List ClientPlayer) (n : ℕ) (name : Bytes)
    → All (Other name) vs
    → get_or_add_player (vs ++ replicate (suc n) zero_client) name
      ≡ (some (length vs), vs ++ (new_player name ∷ replicate n zero_client))
unfolding get_or_add_player
added vs n name h =
    rw
      (
        find_player-Other vs (suc n) name h,
        first_unused-Other vs (replicate n zero_client) name h,
        get_or_add_player,
      )
      (ap (λ (t : List ClientPlayer). (some (length vs), t))
        (set-append vs (replicate n zero_client) zero_client (new_player name)))

-- A line of a new player takes the first free entry.
pub show_player-new :
    (vs : List ClientPlayer) (n : ℕ) (l : PlayerLine)
    → All (Other l.name) vs
    → show_player l (vs ++ replicate (suc n) zero_client)
      ≡ vs ++ (entry_of l ∷ replicate n zero_client)
unfolding show_player update_player
show_player-new vs n l h =
    rw
      (
        added vs n l.name h,
        get_or-append vs (replicate n zero_client) (new_player l.name) zero_client,
      )
      (set-append vs (replicate n zero_client) (new_player l.name) (entry_of l))
