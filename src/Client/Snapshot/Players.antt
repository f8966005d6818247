-- ===== src/Client/Snapshot/Players.antt =====
-- The players of a snapshot, line by line.
use rock_paper_scissors_batt.Base.{
  ℕ, zero, suc, ◌-◌, ◌≤◌, ◌≡◌, ◌≢◌, refl, sym, ap, ◌∙◌, ◌⊎◌, List, [], ◌∷◌, ◌++◌, true, false, All,
  arith, length, take_all, get_or, replicate, Bool-cases, inl, inr,
}
use mathlib.Core.List.{append_assoc}
use rock_paper_scissors_batt.Float.{Float}
use rock_paper_scissors_batt.State.{Player, empty_slot, player_is_admitted}
use rock_paper_scissors_batt.Text.Bytes.{Bytes, bytes_eq, eq_of_bytes_eq, is_space}
use rock_paper_scissors_batt.Text.Clean.{is_clean}
use rock_paper_scissors_batt.Server.Lines.{player_line, player_lines}
use rock_paper_scissors_batt.Client.{ClientPlayer, ClientState, zero_client, new_player}
use rock_paper_scissors_batt.Client.Messages.{show_player}
use rock_paper_scissors_batt.Client.Dispatch.{handle_server_line}
use rock_paper_scissors_batt.Client.PlayerLine.{IsWord, shown_choice, read_player}
use rock_paper_scissors_batt.Client.Table.{Other, entry_of, show_player-new}
use rock_paper_scissors_batt.Client.Snapshot.{handle_all, view, views, handle-player_line}

-- A player whose line can be read back.
pub record IsShown (p : Player) : Type 0 where
  pub word : IsWord p.name
  pub choice : is_space (shown_choice p) ≡ false
  pub choice_clean : is_clean (shown_choice p) ≡ true

-- Every player that the server tells of.
abbrev pub AllShown : List Player → Type 0
AllShown ps =
    (k : ℕ) → player_is_admitted (get_or ps k empty_slot) ≡ true → IsShown (get_or ps k empty_slot)

abbrev pub Apart : Bytes → List Player → Type 0
Apart name ps =
    (k : ℕ)
    → player_is_admitted (get_or ps k empty_slot) ≡ true
    → (get_or ps k empty_slot).name ≢ name

abbrev pub Differ : List Player → Type 0
Differ ps =
    (i j : ℕ)
    → i ≢ j
    → player_is_admitted (get_or ps i empty_slot) ≡ true
    → player_is_admitted (get_or ps j empty_slot) ≡ true
    → (get_or ps i empty_slot).name ≢ (get_or ps j empty_slot).name

-- An entry in use with a name of nobody in the list.
abbrev pub Held : List Player → ClientPlayer → Type 0
Held ps v = (v.used ≡ true) × Apart v.name ps

Held-rest :
    (vs : List ClientPlayer) (p : Player) (ps : List Player)
    → All (Held (p ∷ ps)) vs
    → All (Held ps) vs
Held-rest [] p ps h = tt
Held-rest (v ∷ vs) p ps ((used, apart), h) = ((used, λ k. apart (suc k)), Held-rest vs p ps h)

Other-of_Held :
    (vs : List ClientPlayer) (p : Player) (ps : List Player)
    → player_is_admitted p ≡ true
    → All (Held (p ∷ ps)) vs
    → All (Other p.name) vs
Other-of_Held [] p ps a h = tt
Other-of_Held (v ∷ vs) p ps a ((used, apart), h) =
    ((used, other (Bool-cases (bytes_eq v.name p.name))), Other-of_Held vs p ps a h)
  where
    other :
        (bytes_eq v.name p.name ≡ true) ⊎ (bytes_eq v.name p.name ≡ false)
        → bytes_eq v.name p.name ≡ false
    other (inr e) = e
    other (inl e) = absurd (apart 0 a (sym (eq_of_bytes_eq v.name p.name e)))

Held-snoc :
    (vs : List ClientPlayer) (v : ClientPlayer) (ps : List Player)
    → All (Held ps) vs
    → Held ps v
    → All (Held ps) (vs ++ (v ∷ []))
Held-snoc [] v ps h k = (k, tt)
Held-snoc (u ∷ vs) v ps (a, h) k = (a, Held-snoc vs v ps h k)

entry-view : (p : Player) → IsWord p.name → entry_of (read_player p) ≡ view p
unfolding read_player new_player view
entry-view p w = λ i. record (view p) { name = take_all 31 p.name w.fits i }

one_more :
    (now : Float) (c : ClientState) (p : Player) (vs : List ClientPlayer) (m : ℕ)
    → IsShown p
    → All (Other p.name) vs
    → c.players ≡ vs ++ replicate (suc m) zero_client
    → (handle_server_line now c (player_line p)).players
      ≡ (vs ++ (view p ∷ [])) ++ replicate m zero_client
unfolding read_player
one_more now c p vs m is other e =
    handle-player_line now c p is.word is.choice
    ∙ ap (show_player (read_player p)) e
    ∙ show_player-new vs m (read_player p) other
    ∙ ap (λ (v : ClientPlayer). vs ++ (v ∷ replicate m zero_client)) (entry-view p is.word)
    ∙ sym (append_assoc vs (view p ∷ []) (replicate m zero_client))

pub players_shown :
    (now : Float) (ps : List Player) (c : ClientState) (vs : List ClientPlayer) (n : ℕ)
    → length ps ≤ n
    → Differ ps
    → AllShown ps
    → All (Held ps) vs
    → c.players ≡ vs ++ replicate n zero_client
    → (handle_all now c (player_lines ps)).players
      ≡ vs ++ (views ps ++ replicate (n - length (views ps)) zero_client)
unfolding handle_all player_lines views view
players_shown now [] c vs n room d is held e = e ∙ λ i. vs ++ replicate (same i) zero_client
  where
    same : n ≡ n - 0
    same = omega arith
players_shown now (p ∷ ps) c vs zero room d is held e = absurd (omega arith)
players_shown now (p ∷ ps) c vs (suc m) room d is held e =
    elim (Bool-cases (player_is_admitted p)) [
      | inr out ↦ rw out (
          players_shown now ps c vs (suc m) (omega arith) rest_differ (λ k. is (suc k))
            (Held-rest vs p ps held) e)
      | inl a ↦ rw a (
          players_shown now ps (handle_server_line now c (player_line p)) (vs ++ (view p ∷ [])) m
            (omega arith) rest_differ (λ k. is (suc k))
            (Held-snoc vs (view p) ps (Held-rest vs p ps held)
              (refl, λ k b f. d (suc k) 0 (λ z. cc) b a f))
            (one_more now c p vs m (is 0 a) (Other-of_Held vs p ps a held) e)
          ∙ append_assoc vs (view p ∷ [])
              (views ps ++ replicate (m - length (views ps)) zero_client)
          ∙ λ i. vs ++ (view p ∷ (views ps ++ replicate (fewer (length (views ps)) i) zero_client)))
    ]
  where
    rest_differ : Differ ps
    rest_differ i j apart = d (suc i) (suc j) (λ z. apart (omega arith))

    fewer : (k : ℕ) → m - k ≡ suc m - suc k
    fewer k = omega arith
