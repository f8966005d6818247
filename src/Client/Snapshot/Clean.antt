-- ===== src/Client/Snapshot/Clean.antt =====
-- The lines of a snapshot hold nothing that would break them up.
use rock_paper_scissors_batt.Base.{
  suc, ◌<◌, ◌≡◌, ◌≢◌, refl, List, [], ◌∷◌, ◌++◌, true, false, not, ◌||◌, ◌==◌, All, arith, length,
  inl, inr, Bool-cases,
}
use rock_paper_scissors_batt.State.{
  Player, ServerState, Phase, lobby_open, setup, round_active, repick, game_over,
  player_is_admitted,
}
use rock_paper_scissors_batt.Text.Bytes.{Bytes, text, is_space}
use rock_paper_scissors_batt.Text.Print.{print_nat, print_flag, print_float}
use rock_paper_scissors_batt.Text.Clean.{
  all_clean, clean-append, print_nat-clean, print_flag-clean, print_float-clean, clean_bytes,
  get_or-All,
}
use rock_paper_scissors_batt.Server.Lines.{
  player_line, player_lines, phase_lines, game_over_lines, state_lines, lobby_open_line,
  setup_open_line, round_line, seconds_left, player_won_match,
}
use rock_paper_scissors_batt.Client.PlayerLine.{shown_choice}
use rock_paper_scissors_batt.Client.Pump.Stream.{IsText}
use rock_paper_scissors_batt.Client.Snapshot.Players.{IsShown, AllShown}

abbrev pub IsClean : Bytes → Type 0
IsClean l = all_clean l ≡ true

word-IsClean : (w : Bytes) → All (λ c. is_space c ≡ false) w → All (λ c. c ≢ 0) w → IsClean w
unfolding all_clean
word-IsClean [] a b = refl
word-IsClean (c ∷ cs) (f, a) (ne, b) = ground (arith, word-IsClean cs a b)

spaced : (xs ys : Bytes) → IsClean xs → IsClean ys → IsClean (xs ++ (32 ∷ ys))
unfolding all_clean
spaced xs ys h k = clean-append xs (32 ∷ ys) h k

player_line-IsClean : (p : Player) → IsShown p → IsClean (player_line p)
unfolding player_line text all_clean
player_line-IsClean p is =
    let flags = print_flag p.alive ++ (32 ∷ print_flag p.waiting) in
    let from_y = print_float 3 p.y ++ (32 ∷ flags) in
    let from_x = print_float 3 p.x ++ (32 ∷ from_y) in
    let from_choice = (shown_choice p ∷ []) ++ (32 ∷ from_x) in
    spaced p.name from_choice (word-IsClean p.name is.word.no_space is.word.no_nul) (
      spaced (shown_choice p ∷ []) from_x (rw is.choice_clean refl) (
        spaced (print_float 3 p.x) from_y (print_float-clean 3 p.x) (
          spaced (print_float 3 p.y) flags (print_float-clean 3 p.y) (
            spaced (print_flag p.alive) (print_flag p.waiting) (print_flag-clean p.alive)
              (print_flag-clean p.waiting)))))

player_lines-IsClean : (ps : List Player) → AllShown ps → All IsClean (player_lines ps)
unfolding player_lines
player_lines-IsClean [] is = tt
player_lines-IsClean (p ∷ ps) is = elim (Bool-cases (player_is_admitted p)) [
  | inr e ↦ rw e (player_lines-IsClean ps (λ k. is (suc k)))
  | inl e ↦ rw e (player_line-IsClean p (is 0 e), player_lines-IsClean ps (λ k. is (suc k)))
]

end_lines-IsClean : (dst : Player) → All IsClean (game_over_lines dst)
unfolding game_over_lines text all_clean
end_lines-IsClean dst = elim (Bool-cases (not dst.connected || not dst.registered)) [
  | inl e ↦ rw e tt
  | inr e ↦ elim (Bool-cases (player_won_match dst)) [
    | inl w ↦ rw (e, w) (refl, tt)
    | inr w ↦ elim (Bool-cases (player_is_admitted dst)) [
      | inl a ↦ rw (e, w, a) (refl, tt)
      | inr a ↦ rw (e, w, a) (refl, tt)
    ]
  ]
]

phase_lines-IsClean :
    (ph : Phase) (s : ServerState) (dst : Player) → All IsClean (phase_lines ph s dst)
unfolding phase_lines lobby_open_line setup_open_line round_line text all_clean
phase_lines-IsClean lobby_open s dst = elim (Bool-cases (s.join_deadline == 0)) [
  | inl e ↦ rw e (refl, tt)
  | inr e ↦ rw e (print_nat-clean (seconds_left s s.join_deadline), tt)
]
phase_lines-IsClean setup s dst = (refl, (print_nat-clean (seconds_left s s.setup_deadline), tt))
phase_lines-IsClean round_active s dst = (
  refl,
  (
    spaced (print_nat s.round_no) _ (print_nat-clean s.round_no)
        (print_nat-clean (seconds_left s s.round_deadline)),
    tt,
  ),
)
phase_lines-IsClean repick s dst = (refl, (refl, tt))
phase_lines-IsClean game_over s dst = end_lines-IsClean dst

All-append : (xs ys : List Bytes) → All IsClean xs → All IsClean ys → All IsClean (xs ++ ys)
All-append [] ys h k = k
All-append (x ∷ xs) ys (g, h) k = (g, All-append xs ys h k)

pub state_lines-IsClean :
    (s : ServerState) (dst : Player) → AllShown s.players → All IsClean (state_lines s dst)
unfolding state_lines text all_clean
state_lines-IsClean s dst is = (
  refl,
  All-append (phase_lines s.phase s dst) _ (phase_lines-IsClean s.phase s dst)
      (All-append (player_lines s.players) _ (player_lines-IsClean s.players is) (refl, tt)),
)

-- A clean line that `queue_line` takes arrives as it was sent.
pub clean-IsText : (l : Bytes) → IsClean l → length l < 254 → IsText l
clean-IsText l h short =
    let (no_nul, no_newline, no_return) = clean_bytes l h in
    record {
      is_line = record {
        no_newline = no_newline;
        no_return = λ k e. get_or-All l k no_return (omega arith);
        short = short;
      };
      no_nul = no_nul;
    }
