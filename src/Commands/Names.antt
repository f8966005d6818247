-- ===== src/Commands/Names.antt =====
-- The handler of HELLO of src/server_commands.c, and the players' names.
use rock_paper_scissors_batt.Base.{
  ℕ, zero, suc, ◌+◌, ◌≡◌, ◌≢◌, refl, sym, ap, subst, ◌∙◌, ◌⊎◌, inl, inr, List, [], ◌∷◌, ◌++◌,
  Option, none, some, Bool, true, false, ◌&&◌, if◌then◌else◌, arith, get_or, get_or-set_cases, set,
  length, Bool-cases,
}
use rock_paper_scissors_batt.Text.Bytes.{Bytes, text, bytes_eq, bytes_eq_refl}
use rock_paper_scissors_batt.Text.Print.{print_nat}
use rock_paper_scissors_batt.State.{
  Player, ServerState, player, put, empty_slot, player_is_registered,
}
use rock_paper_scissors_batt.Protocol.{queue_line}
use rock_paper_scissors_batt.Server.Slots.{SlotInv, Inv, Goes}
use rock_paper_scissors_batt.Server.Queue.{
  Queued, Queued-refl, Queued-trans, queue_line-Queued, put-Queued-Goes,
}
use rock_paper_scissors_batt.Match.Moves.{
  IsNamed, NamesDiffer, Moves, Moves-of_Goes, put-Moves, Ends, ends, Any,
}
use rock_paper_scissors_batt.Match.{reset_player_progress}
use rock_paper_scissors_batt.Commands.{
  tell, reply, lobby_status_lines, find_name, hello_name, register, welcome, handle_hello_command,
}

tell-Queued : (p : Player) (ls : List Bytes) → Queued p (tell p ls)
unfolding tell
tell-Queued p [] = Queued-refl p
tell-Queued p (l ∷ ls) = Queued-trans (queue_line-Queued p l) (tell-Queued (queue_line p l).1 ls)

pub reply-Goes : (s : ServerState) (i : ℕ) (l : Bytes) → Inv s → Goes s (reply s i l)
unfolding reply
reply-Goes s i l v = put-Queued-Goes s i _ v (queue_line-Queued (player s i) l)

pub reply-Ends : (s : ServerState) (i : ℕ) (l : Bytes) → Inv s → Ends s Any (some (reply s i l))
reply-Ends s i l v = ends (Moves-of_Goes (reply-Goes s i l v)) tt

not_found :
    (name : Bytes) (n : ℕ) (p : Player) (rest : Option ℕ)
    → (if player_is_registered p && bytes_eq p.name name then some n else rest) ≡ none
    → ((player_is_registered p && bytes_eq p.name name) ≡ false) × (rest ≡ none)
not_found name n p rest h = elim (Bool-cases (player_is_registered p && bytes_eq p.name name)) [
  | inl found ↦ absurd (let clash : some n ≡ none = rw found at h in cc)
  | inr other ↦ (other, rw other at h)
]

-- A name that `find_name` does not find belongs to nobody.
find_name-none :
    (name : Bytes) (n : ℕ) (ps : List Player)
    → find_name name n ps ≡ none
    → (k : ℕ) → IsNamed (get_or ps k empty_slot)
    → (get_or ps k empty_slot).name ≢ name
unfolding find_name player_is_registered empty_slot
find_name-none name n [] h k (on, reg) e = cc
find_name-none name n (p ∷ ps) h zero (on, reg) e =
    let (other, _) = not_found name n p (find_name name (n + 1) ps) h in
    let same : bytes_eq p.name name ≡ true =
      subst (λ m. bytes_eq p.name m ≡ true) e (bytes_eq_refl p.name) in
    cc (on, reg, same, other)
find_name-none name n (p ∷ ps) h (suc k) named e =
    find_name-none name (n + 1) ps (not_found name n p (find_name name (n + 1) ps) h).1 k named e

register_lem :
    (p : Player) (name : Bytes)
    → ((register p name).connected ≡ p.connected)
      × ((register p name).fd ≡ p.fd)
      × ((register p name).inbuf ≡ p.inbuf)
      × ((register p name).name ≡ name)
      × (SlotInv p → SlotInv (register p name))
unfolding register reset_player_progress
register_lem p name = (refl, refl, refl, refl, λ v. keep v)
  where
    keep : SlotInv p → SlotInv (register p name)
    keep v = record {
      admitted_ready = λ h. absurd (cc);
      alive_admitted = λ h. absurd (cc);
      waiting_admitted = λ h. absurd (cc);
      chosen = λ h. absurd (cc);
      repicked = λ h. absurd (cc);
      fits = let f = v.fits in record { in_fits = f.in_fits; out_fits = f.out_fits };
    }

-- A slot of a written list is the one written, or is as it was.
pub written :
    (xs : List Player) (i : ℕ) (p : Player) (k : ℕ)
    → ((k ≡ i) × (get_or (set xs i p) k empty_slot ≡ p))
      ⊎ (get_or (set xs i p) k empty_slot ≡ get_or xs k empty_slot)
written xs i p k = get_or-set_cases xs i k p empty_slot

-- A name that nobody has keeps the names apart.
new_name :
    (s : ServerState) (i : ℕ) (q : Player) (name : Bytes)
    → q.name ≡ name
    → ((k : ℕ) → IsNamed (player s k) → (player s k).name ≢ name)
    → NamesDiffer s
    → NamesDiffer (put s i q)
new_name s i q name e fresh d a b apart na nb same = elim (written s.players i q a) [
  | inl (ai, fa) ↦ elim (written s.players i q b) [
    | inl (bi, fb) ↦ apart (ai ∙ sym bi)
    | inr fb ↦
        fresh b (rw fb at nb)
          (sym (ap (λ (u : Player). u.name) fb) ∙ sym same ∙ ap (λ (u : Player). u.name) fa ∙ e)
  ]
  | inr fa ↦ elim (written s.players i q b) [
    | inl (bi, fb) ↦
        fresh a (rw fa at na)
          (sym (ap (λ (u : Player). u.name) fa) ∙ same ∙ ap (λ (u : Player). u.name) fb ∙ e)
    | inr fb ↦
        d a b apart (rw fa at na) (rw fb at nb)
          (sym (ap (λ (u : Player). u.name) fa) ∙ same ∙ ap (λ (u : Player). u.name) fb)
  ]
]

welcome-Moves :
    (s : ServerState) (i : ℕ) (name : Bytes)
    → Inv s
    → find_name name 0 s.players ≡ none
    → Moves s (welcome s i name)
unfolding welcome
welcome-Moves s i name v new =
    let (on, fd, input, named, keep) = register_lem (player s i) name in
    let same = q.same in
    put-Moves s i _ v (same.connected ∙ on) (same.fd ∙ fd)
      (omega (arith, ap (λ (u : Player). length u.inbuf) same.rest, ap length input))
      (new_name s i _ name (ap (λ (u : Player). u.name) same.rest ∙ named)
        (find_name-none name 0 s.players new))
      (λ c. q.keeps (keep (v.each i (sym on ∙ sym same.connected ∙ c))))
  where
    q : Queued (register (player s i) name) (
        tell (register (player s i) name) (
          (text "WELCOME " ++ print_nat (register (player s i) name).id)
          ∷ (text "SPECTATING" ∷ lobby_status_lines s)))
    q = tell-Queued _ _

pub hello-Moves :
    (s : ServerState) (i : ℕ) (args : Option Bytes)
    → Inv s
    → Moves s (handle_hello_command s i args)
unfolding handle_hello_command
hello-Moves s i args v = split (player s i).registered (hello_name args)
  where
    named :
        (name : Bytes) (r : Option ℕ)
        → find_name name 0 s.players ≡ r
        → Moves s
            (elim r [ some k ↦ reply s i (text "ERROR duplicate_name") | none ↦ welcome s i name ])
    named name none e = welcome-Moves s i name v e
    named name (some k) e = Moves-of_Goes (reply-Goes s i _ v)

    split :
        (b : Bool) (name : Option Bytes)
        → Moves s (
            if b then reply s i (text "ERROR already_registered") else elim name [
              | none ↦ reply s i (text "ERROR usage_HELLO_name")
              | some name ↦ elim (find_name name 0 s.players) [
                | some k ↦ reply s i (text "ERROR duplicate_name")
                | none ↦ welcome s i name
              ]
            ])
    split true name = Moves-of_Goes (reply-Goes s i _ v)
    split false none = Moves-of_Goes (reply-Goes s i _ v)
    split false (some name) = named name (find_name name 0 s.players) refl
