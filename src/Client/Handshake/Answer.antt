-- ===== src/Client/Handshake/Answer.antt =====
-- The server's answer to HELLO: `handle_hello_command` of src/server_commands.c on a name without
-- blanks.
use rock_paper_scissors_batt.Base.{
  ℕ, zero, suc, ◌+◌, ◌^◌, ◌<◌, ◌≤◌, ◌≡◌, refl, sym, ap, ◌∙◌, inl, inr, List, [], ◌∷◌, ◌++◌, none,
  some, true, false, arith, length, All, Bool-cases, length-append, Bool, ◌==◌, ◌-◌, if◌then◌else◌,
}
use mathlib.Core.List.{append-nil, append_assoc}
use rock_paper_scissors_batt.State.{Player, ServerState, player, put}
use rock_paper_scissors_batt.Text.Bytes.{Bytes, text, c_string, codes, bytes_eq, is_space}
use rock_paper_scissors_batt.Text.Print.{print_nat, print_digits}
use rock_paper_scissors_batt.Text.Scan.{scan_word, word_result, take_word, skip_spaces}
use rock_paper_scissors_batt.Text.Clean.{all_clean, clean-append, print_nat-clean}
use rock_paper_scissors_batt.Text.Numbers.Length.{length-print_nat}
use rock_paper_scissors_batt.Protocol.{newline, queue_line}
use rock_paper_scissors_batt.Protocol.Framing.{IsLine, frames, queue_line_fits}
use rock_paper_scissors_batt.Server.{Step}
use rock_paper_scissors_batt.Server.Lines.{seconds_left, lobby_open_line}
use rock_paper_scissors_batt.Match.{is_lobby, choose_spawn_line, reset_player_progress}
use rock_paper_scissors_batt.Commands.{
  handle_command, dispatch, handle_hello_command, tell, welcome, register, lobby_status_lines,
  find_name, reply, parse_command, split_at_blank, skip_blanks,
}
use rock_paper_scissors_batt.Client.PlayerLine.{IsWord}
use rock_paper_scissors_batt.Client.Pump.Stream.{IsText, c_string-no_nul}
use rock_paper_scissors_batt.Client.Snapshot.Clean.{clean-IsText}

take_last :
    (n : ℕ) (name : Bytes)
    → length name ≤ n
    → All (λ c. is_space c ≡ false) name
    → take_word n name ≡ (name, [])
unfolding take_word
take_last zero [] h a = refl
take_last zero (c ∷ cs) h a = absurd (omega arith)
take_last (suc n) [] h a = refl
take_last (suc n) (c ∷ cs) h a = rw (take_last n cs (omega arith) a.1, a.0) refl

-- A word at the end of a line, without a blank in front of it.
scan_last_word : (name : Bytes) → IsWord name → scan_word 31 name ≡ some (name, [])
unfolding scan_word skip_spaces word_result
scan_last_word [] w = absurd (w.some_byte refl)
scan_last_word (c ∷ cs) w = rw (w.no_space.0, take_last 31 (c ∷ cs) w.fits w.no_space) refl

pub hello_parsed :
    (re : Step) (s : ServerState) (idx : ℕ) (name : Bytes)
    → IsWord name
    → handle_command re s idx (text "HELLO " ++ name)
      ≡ some (handle_hello_command s idx (some name))
unfolding handle_command dispatch text bytes_eq c_string parse_command split_at_blank skip_blanks
hello_parsed re s idx [] w = absurd (w.some_byte refl)
hello_parsed re s idx (c ∷ cs) w =
    let not_blank : (c == 32) ≡ false = let sp = w.no_space.0 in ground arith in
    rw (c_string-no_nul (c ∷ cs) w.no_nul, not_blank) refl

tell-frames :
    (p : Player) (ls : List Bytes)
    → All IsLine ls
    → length p.outbuf + length (frames ls) ≤ 8192
    → tell p ls ≡ record p { outbuf = p.outbuf ++ frames ls }
unfolding tell frames
tell-frames p [] h room = λ i. record p { outbuf = sym (append-nil p.outbuf) i }
tell-frames p (l ∷ ls) (g, h) room =
    let n = length-append (l ++ (newline ∷ [])) (frames ls) in
    let m = length-append p.outbuf (l ++ (newline ∷ [])) in
    ap (λ (r : Bool × Player). tell r.1 ls) (queue_line_fits p l g (omega arith))
    ∙ tell-frames (record p { outbuf = p.outbuf ++ (l ++ (newline ∷ [])) }) ls h (omega arith)
    ∙ λ i. record p { outbuf = append_assoc p.outbuf (l ++ (newline ∷ [])) (frames ls) i }

-- What a client whose name is accepted is told.
abbrev pub welcome_lines : ServerState → ℕ → List Bytes
welcome_lines s id = (text "WELCOME " ++ print_nat id) ∷ (text "SPECTATING" ∷ lobby_status_lines s)

-- Whole lines that take at most `n` bytes together.
pub record Fit (ls : List Bytes) (n : ℕ) : Type 0 where
  pub lines : All IsLine ls
  pub texts : All IsText ls
  pub small : length (frames ls) ≤ n

Fit-cons :
    (l : Bytes) (ls : List Bytes) (k n : ℕ)
    → all_clean l ≡ true
    → length l ≤ k
    → k < 100
    → Fit ls n
    → Fit (l ∷ ls) (k + 1 + n)
unfolding frames
Fit-cons l ls k n clean short small fit = record {
  lines = ((clean-IsText l clean (omega arith)).is_line, fit.lines);
  texts = (clean-IsText l clean (omega arith), fit.texts);
  small =
      let m = length-append (l ++ (newline ∷ [])) (frames ls) in
      let o = length-append l (newline ∷ []) in let r = fit.small in omega arith;
}

Fit-none : Fit [] 0
unfolding frames
Fit-none = record { lines = tt; texts = tt; small = omega arith }

deadline_line-Fit :
    (s : ServerState)
    → s.join_deadline < 10 ^ 10
    → Fit
        ((if s.join_deadline == 0
            then text "LOBBY_WAITING"
            else lobby_open_line (seconds_left s s.join_deadline))
          ∷ [])
        25
unfolding lobby_open_line seconds_left text all_clean
deadline_line-Fit s h = elim (Bool-cases (s.join_deadline == 0)) [
  | inl e ↦
      rw e (Fit-cons (codes "LOBBY_WAITING") [] 24 0 refl (omega arith) (omega arith) Fit-none)
  | inr e ↦
      let n = s.join_deadline - s.now in
      let digits = length-print_nat 9 n (omega arith) in
      rw e (
        Fit-cons (codes "LOBBY_OPEN " ++ print_nat n) [] 24 0
          (clean-append (codes "LOBBY_OPEN ") (print_nat n) refl (print_nat-clean n)) (omega arith)
          (omega arith) Fit-none)
]

lobby_status_lines-Fit :
    (s : ServerState) → s.join_deadline < 10 ^ 10 → Fit (lobby_status_lines s) 80
unfolding lobby_status_lines text all_clean choose_spawn_line print_nat print_digits
lobby_status_lines-Fit s h = elim (Bool-cases (is_lobby s.phase)) [
  | inl e ↦ rw e (
      Fit-cons (codes "CHOOSE_TYPE") _ 26 53 refl (omega arith) (omega arith) (
        Fit-cons choose_spawn_line _ 27 25 refl (omega arith) (omega arith)
          (deadline_line-Fit s h)))
  | inr e ↦ rw e (Fit-cons (codes "LOBBY_CLOSED") [] 79 0 refl (omega arith) (omega arith) Fit-none)
]

pub welcome_lines-Fit :
    (s : ServerState) (id : ℕ)
    → id < 10 ^ 10
    → s.join_deadline < 10 ^ 10
    → Fit (welcome_lines s id) 120
unfolding text all_clean
welcome_lines-Fit s id h k =
    let digits = length-print_nat 9 id h in
    Fit-cons (codes "WELCOME " ++ print_nat id) _ 18 101
      (clean-append (codes "WELCOME ") (print_nat id) refl (print_nat-clean id)) (omega arith)
      (omega arith)
      (Fit-cons (codes "SPECTATING") _ 20 80 refl (omega arith) (omega arith)
        (lobby_status_lines-Fit s k))

-- The two outcomes of a HELLO from a client that is not registered, with room for the answer in its
-- buffer.
pub hello_accepted :
    (s : ServerState) (idx : ℕ) (name : Bytes)
    → IsWord name
    → (player s idx).registered ≡ false
    → (player s idx).id < 10 ^ 10
    → s.join_deadline < 10 ^ 10
    → length (player s idx).outbuf + 128 ≤ 8192
    → find_name name 0 s.players ≡ none
    → handle_hello_command s idx (some name)
      ≡ put s idx (record (register (player s idx) name) {
        outbuf = (player s idx).outbuf ++ frames (welcome_lines s (player s idx).id);
      })
unfolding handle_hello_command welcome register reset_player_progress
hello_accepted s idx name w new id deadline room free =
    let fit = welcome_lines-Fit s (player s idx).id id deadline in
    let small = fit.small in
    rw (new, scan_last_word name w, free)
      (ap (put s idx) (
        tell-frames (register (player s idx) name) (welcome_lines s (player s idx).id) fit.lines
          (omega arith)))

pub hello_refused :
    (s : ServerState) (idx : ℕ) (name : Bytes) (i : ℕ)
    → IsWord name
    → (player s idx).registered ≡ false
    → length (player s idx).outbuf + 128 ≤ 8192
    → find_name name 0 s.players ≡ some i
    → handle_hello_command s idx (some name)
      ≡ put s idx (record (player s idx) {
        outbuf = (player s idx).outbuf ++ frames (codes "ERROR duplicate_name" ∷ []);
      })
unfolding handle_hello_command reply text all_clean frames
hello_refused s idx name i w new room taken =
    replies
    ∙ ap (λ (r : Bool × Player). put s idx r.1)
        (queue_line_fits (player s idx) (codes "ERROR duplicate_name") refusal.is_line
          (omega arith))
  where
    refusal : IsText (codes "ERROR duplicate_name")
    refusal = clean-IsText (codes "ERROR duplicate_name") refl (omega arith)

    replies :
        handle_hello_command s idx (some name)
        ≡ put s idx (queue_line (player s idx) (codes "ERROR duplicate_name")).1
    replies = rw (new, scan_last_word name w, taken) refl
