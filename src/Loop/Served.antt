-- ===== src/Loop/Served.antt =====
-- What a part of the loop of src/server.c does to the match: sockets are accounted for, counting
-- those that were opened, and new clients come in.
use rock_paper_scissors_batt.Base.{
  ℕ, ◌+◌, ◌<◌, ◌≡◌, ◌≢◌, refl, sym, ap, ◌∙◌, inl, inr, List, [], ◌∷◌, ◌++◌, some, Bool, true, false,
  ◌&&◌, ◌==◌, if◌then◌else◌, arith, length, set, occurrences, length-set,
}
use rock_paper_scissors_batt.Text.Bytes.{text}
use rock_paper_scissors_batt.State.{Player, ServerState, repick, player, put, empty_slot}
use rock_paper_scissors_batt.State.Slots.{set-each, count_if-set, count_if-set_same}
use rock_paper_scissors_batt.Protocol.{queue_line}
use rock_paper_scissors_batt.Server.Slots.{SlotInv, Inv, Goes, drop_slot-Goes, fd_count}
use rock_paper_scissors_batt.Server.Queue.{queue_line-Queued, put-Queued-Goes}
use rock_paper_scissors_batt.Server.{drop_slot}
use rock_paper_scissors_batt.Match.Moves.{IsNamed, NamesDiffer, Moves, Moves-refl, Moves-of_Goes}
use rock_paper_scissors_batt.Commands.Names.{written}
use rock_paper_scissors_batt.Commands.{init_player_slot}
use rock_paper_scissors_batt.Commands.Slots.{add_player_slot}
use rock_paper_scissors_batt.Loop.{Accept, nobody, blocking, accepted, greet, accept_new_clients}

-- The slots are in order, each of the `opened` sockets is held by a slot or was closed, as often as
-- it was opened, REPICK is not entered, and names stay apart.
pub record Served (opened : List ℕ) (s t : ServerState) : Type 0 where
  pub inv : Inv t
  pub sockets : (v : ℕ) → fd_count v t ≡ fd_count v s + occurrences v opened
  pub no_repick : s.phase ≢ repick → t.phase ≢ repick
  pub names : NamesDiffer s → NamesDiffer t

pub Served-of_Moves : {s t : ServerState} → Moves s t → Served [] s t
unfolding occurrences
Served-of_Moves m = record {
  inv = m.inv;
  sockets = λ v. let e = m.sockets v in omega arith;
  no_repick = m.no_repick;
  names = m.names;
}

pub occurrences-append :
    (v : ℕ) (xs ys : List ℕ) → occurrences v (xs ++ ys) ≡ occurrences v xs + occurrences v ys
unfolding occurrences
occurrences-append v [] ys = omega arith
occurrences-append v (x ∷ xs) ys = omega (arith, occurrences-append v xs ys)

pub Served-trans :
    {xs ys : List ℕ} {s t u : ServerState} → Served xs s t → Served ys t u → Served (xs ++ ys) s u
Served-trans {xs} {ys} a b = record {
  inv = b.inv;
  sockets =
      λ v. let e = a.sockets v in let f = b.sockets v in omega (arith, occurrences-append v xs ys);
  no_repick = λ h. b.no_repick (a.no_repick h);
  names = λ h. b.names (a.names h);
}

-- One slot is rewritten for the same connection; its input may grow.
pub put-Served :
    (s : ServerState) (i : ℕ) (p : Player)
    → Inv s
    → p.connected ≡ (player s i).connected
    → p.fd ≡ (player s i).fd
    → (NamesDiffer s → NamesDiffer (put s i p))
    → (SlotInv (player s i) → SlotInv p)
    → Served [] s (put s i p)
unfolding occurrences
put-Served s i p v on fd names keep = record {
  inv = record {
    size = length-set s.players i p ∙ v.size;
    each = λ k.
        set-each (λ q r. (q.connected ≡ true → SlotInv q) → (r.connected ≡ true → SlotInv r))
          (λ q h. h) s.players i p (λ h c. keep (h (sym on ∙ c))) k (v.each k);
  };
  sockets = λ w.
      omega
        (arith, count_if-set_same (λ q. q.connected && (q.fd == w)) s.players i p (rw (on, fd)));
  no_repick = λ h. h;
  names = names;
}

pub now-Served : (s : ServerState) (n : ℕ) → Inv s → Served [] s (record s { now = n })
unfolding occurrences
now-Served s n v = record {
  inv = record { size = v.size; each = v.each };
  sockets = λ w. omega arith;
  no_repick = λ h. h;
  names = λ h. h;
}

closed-Served :
    (s : ServerState) (fd : ℕ) → Inv s → Served (fd ∷ []) s (record s { closed = fd ∷ s.closed })
unfolding occurrences
closed-Served s fd v = record {
  inv = record { size = v.size; each = v.each };
  sockets = λ w. omega arith;
  no_repick = λ h. h;
  names = λ h. h;
}

init-SlotInv : (fd id : ℕ) → SlotInv (init_player_slot fd id)
unfolding init_player_slot empty_slot
init-SlotInv fd id = record {
  admitted_ready = λ h. absurd (cc);
  alive_admitted = λ h. absurd (cc);
  waiting_admitted = λ h. absurd (cc);
  chosen = λ h. absurd (cc);
  repicked = λ h. absurd (cc);
  fits = record { in_fits = omega arith; out_fits = omega arith };
}

init_lem :
    (fd id : ℕ)
    → let p = init_player_slot fd id in (p.connected ≡ true) × (p.fd ≡ fd) × (p.registered ≡ false)
unfolding init_player_slot empty_slot
init_lem fd id = (refl, refl, refl)

new_slot-Served :
    (s : ServerState) (i fd : ℕ)
    → Inv s
    → i < length s.players
    → (player s i).connected ≡ false
    → Served (fd ∷ []) s (record s {
      players = set s.players i (init_player_slot fd s.next_id);
      next_id = s.next_id + 1;
    })
unfolding occurrences
new_slot-Served s i fd v room off = record {
  inv = record {
    size = length-set s.players i p ∙ v.size;
    each = λ k.
        set-each (λ q r. (q.connected ≡ true → SlotInv q) → (r.connected ≡ true → SlotInv r))
          (λ q h. h) s.players i p (λ h c. init-SlotInv fd s.next_id) k (v.each k);
  };
  sockets = λ w.
      let (on, same, _) = init_lem fd s.next_id in
      let c = count_if-set (λ q. q.connected && (q.fd == w)) s.players i p room in ground arith;
  no_repick = λ h. h;
  names = names;
}
  where
    p : Player
    p = init_player_slot fd s.next_id

    unnamed : (q : Player) → q ≡ p → IsNamed q → ⊥
    unnamed q e (on, reg) =
        let (_, _, r) = init_lem fd s.next_id in
        let reg' : p.registered ≡ true = sym (ap (λ (u : Player). u.registered) e) ∙ reg in cc

    names : NamesDiffer s → NamesDiffer (put s i p)
    names d a b apart na nb same = elim (written s.players i p a) [
      | inl (_, fa) ↦ unnamed _ fa na
      | inr fa ↦ elim (written s.players i p b) [
        | inl (_, fb) ↦ unnamed _ fb nb
        | inr fb ↦
            d a b apart (rw fa at na) (rw fb at nb)
              (sym (ap (λ (u : Player). u.name) fa) ∙ same ∙ ap (λ (u : Player). u.name) fb)
      ]
    ]

-- The socket that a pass opens.
abbrev pub opened_by : Accept → List ℕ
opened_by nobody = []
opened_by (blocking fd) = fd ∷ []
opened_by (accepted fd) = fd ∷ []

greeted-Served :
    (s t : ServerState) (i fd : ℕ)
    → Served (fd ∷ []) s t
    → Served (fd ∷ []) s (greet s (some i) t fd).1
unfolding greet
greeted-Served s t i fd m =
    split (queue_line (player t i) (text "INFO connected_send_HELLO_name")).0
  where
    q : Player
    q = (queue_line (player t i) (text "INFO connected_send_HELLO_name")).1

    g : Goes t (put t i q)
    g =
        put-Queued-Goes t i q m.inv
          (queue_line-Queued (player t i) (text "INFO connected_send_HELLO_name"))

    split : (b : Bool) → Served (fd ∷ []) s (if b then put t i q else drop_slot (put t i q) i)
    split true = Served-trans m (Served-of_Moves (Moves-of_Goes g))
    split false = Served-trans m (
        Served-trans (Served-of_Moves (Moves-of_Goes g))
          (Served-of_Moves (Moves-of_Goes (drop_slot-Goes _ i g.inv))))

pub accept-Served :
    (a : Accept) (s : ServerState) → Inv s → Served (opened_by a) s (accept_new_clients a s).1
unfolding accept_new_clients greet
accept-Served nobody s v = Served-of_Moves (Moves-refl v)
accept-Served (blocking fd) s v = closed-Served s fd v
accept-Served (accepted fd) s v = elim (add_player_slot s fd) [
  | inl (e, _) ↦ rw e (closed-Served s fd v)
  | inr (i, e, room, off, _) ↦ rw e (greeted-Served s _ i fd (new_slot-Served s i fd v room off))
]
