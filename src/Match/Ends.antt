-- ===== src/Match/Ends.antt =====
-- Admission and the reset of a slot in src/server_state.c.
use rock_paper_scissors_batt.Base.{
  ℕ, ◌+◌, ◌≤◌, ◌≡◌, refl, sym, ap, ◌∙◌, ◌⊎◌, inl, inr, some, Bool, true, false, not, leb, ◌||◌,
  ◌==◌, ◌>>=◌, if◌then◌else◌, arith, length,
}
use rock_paper_scissors_batt.State.{
  Player, ServerState, player, put, join_window_seconds, player_is_registered,
}
use rock_paper_scissors_batt.Text.Bytes.{Bytes, text}
use rock_paper_scissors_batt.Server.Lines.{
  queue_line_checked, queue_lines, lobby_open_line, joined_line,
}
use rock_paper_scissors_batt.Server.Slots.{
  SlotInv, Inv, SameSlot, Goes, Goes-trans, drop_slot-Goes, fields-Goes, connected_count,
}
use rock_paper_scissors_batt.Server.Queue.{
  Queued, queue_line_checked-Queued, queue_lines-Queued, put-Queued-Goes,
}
use rock_paper_scissors_batt.Server.Knot.{
  Yields, yields, Yields-after, Yields-bind, Settles, queue_broadcast-Yields,
  broadcast_game_state-Yields, reevaluate_state-Yields,
}
use rock_paper_scissors_batt.Server.{Step, drop_slot, queue_broadcast, broadcast_game_state}
use rock_paper_scissors_batt.Match.Moves.{
  Moves, Moves-refl, Moves-trans, Moves-of_Goes, put-Moves, put_names, Ends, ends, Any, Ends-after,
  Ends-bind, Ends_of_Yields,
}
use rock_paper_scissors_batt.Match.{
  is_lobby, reset_player_progress, reset_lines, reset_slot, drop_and_reevaluate, queue_or_drop,
  admit, admit_in_lobby, maybe_admit_player,
}

-- A slot that is still connected may be admitted.
abbrev pub Ready : ServerState → ℕ → Type 0
Ready s i =
    (player s i).connected ≡ true
    → ((player s i).registered ≡ true)
      × ((player s i).choice_chosen ≡ true)
      × ((player s i).spawn_chosen ≡ true)

Ready-Goes : (s t : ServerState) (i : ℕ) → Goes s t → Ready s i → Ready t i
Ready-Goes s t i g r on = same (g.slots i)
  where
    same :
        ((player t i).connected ≡ false) ⊎ SameSlot (player s i) (player t i)
        → ((player t i).registered ≡ true)
          × ((player t i).choice_chosen ≡ true)
          × ((player t i).spawn_chosen ≡ true)
    same (inl off) = absurd (cc)
    same (inr e) =
        let (a, b, c) = r (sym e.connected ∙ on) in
        (
          ap (λ (q : Player). q.registered) e.rest ∙ a,
          ap (λ (q : Player). q.choice_chosen) e.rest ∙ b,
          ap (λ (q : Player). q.spawn_chosen) e.rest ∙ c,
        )

admitted-SlotInv :
    (p : Player)
    → (p.registered ≡ true) × (p.choice_chosen ≡ true) × (p.spawn_chosen ≡ true)
    → SlotInv p
    → SlotInv (record p { admitted = true; waiting = true })
admitted-SlotInv p r v = record {
  admitted_ready = λ h. r;
  alive_admitted = λ h. refl;
  waiting_admitted = λ h. refl;
  chosen = v.chosen;
  repicked = v.repicked;
  fits = let f = v.fits in record { in_fits = f.in_fits; out_fits = f.out_fits };
}

pub reset-SlotInv : (p : Player) → SlotInv p → SlotInv (reset_player_progress p)
unfolding reset_player_progress
reset-SlotInv p v = record {
  admitted_ready = λ h. absurd (cc);
  alive_admitted = λ h. absurd (cc);
  waiting_admitted = λ h. absurd (cc);
  chosen = λ h. absurd (cc);
  repicked = λ h. absurd (cc);
  fits = let f = v.fits in record { in_fits = f.in_fits; out_fits = f.out_fits };
}

-- A slot is rewritten, and output is queued to it.
pub Queued-Moves :
    (s : ServerState) (i : ℕ) (p q : Player)
    → Inv s
    → p.connected ≡ (player s i).connected
    → p.fd ≡ (player s i).fd
    → p.inbuf ≡ (player s i).inbuf
    → (p.registered ≡ (player s i).registered) × (p.name ≡ (player s i).name)
    → ((player s i).connected ≡ true → SlotInv (player s i) → SlotInv p)
    → Queued p q
    → Moves s (put s i q)
Queued-Moves s i p q v on fd input (reg, name) keep queued =
    let same = queued.same in
    put-Moves s i q v (same.connected ∙ on) (same.fd ∙ fd)
      (omega (arith, ap (λ (u : Player). length u.inbuf) same.rest, ap length input))
      (put_names s i q (
        inr (
          same.connected ∙ on,
          ap (λ (u : Player). u.registered) same.rest ∙ reg,
          ap (λ (u : Player). u.name) same.rest ∙ name,
        )))
      λ c.
        let old : (player s i).connected ≡ true = sym on ∙ sym same.connected ∙ c in
        queued.keeps (keep old (v.each i old))

reset_connected :
    (p : Player)
    → ((reset_player_progress p).connected ≡ p.connected)
      × ((reset_player_progress p).fd ≡ p.fd)
      × ((reset_player_progress p).inbuf ≡ p.inbuf)
      × ((reset_player_progress p).registered ≡ p.registered)
      × ((reset_player_progress p).name ≡ p.name)
unfolding reset_player_progress
reset_connected p = (refl, refl, refl, refl, refl)

pub reset_slot-Moves : (s : ServerState) (i : ℕ) → Inv s → Moves s (reset_slot s i)
unfolding reset_slot
reset_slot-Moves s i v = split (player_is_registered (player s i)) r.0
  where
    r : Bool × Player
    r = queue_lines (reset_player_progress (player s i)) reset_lines

    q : Queued (reset_player_progress (player s i)) r.1
    q = queue_lines-Queued _ reset_lines

    cleared : Moves s (put s i r.1)
    cleared =
        let (on, fd, input, reg, name) = reset_connected (player s i) in
        Queued-Moves s i (reset_player_progress (player s i)) r.1 v on fd input (reg, name)
          (λ c. reset-SlotInv (player s i)) q

    split :
        (a b : Bool)
        → Moves s (if a then (if b then put s i r.1 else drop_slot (put s i r.1) i) else s)
    split false b = Moves-refl v
    split true true = cleared
    split true false = Moves-trans cleared (Moves-of_Goes (drop_slot-Goes _ i cleared.inv))

module _ (re : Step) (n : ℕ) (settles : Settles re n) where
  pub drop_and_reevaluate-Yields :
      (s : ServerState) (i : ℕ)
      → Inv s
      → connected_count s ≤ n
      → Yields s (drop_and_reevaluate re s i)
  unfolding drop_and_reevaluate
  drop_and_reevaluate-Yields s i v few =
      let g = drop_slot-Goes s i v in
      let f = g.fewer in
      Yields-after g (reevaluate_state-Yields re n settles (drop_slot s i) g.inv (omega arith))

  pub queue_or_drop-Yields :
      (s : ServerState) (i : ℕ) (line : Bytes)
      → Inv s
      → connected_count s ≤ n
      → Yields s (queue_or_drop re s i line)
  unfolding queue_or_drop
  queue_or_drop-Yields s i line v few = split (queue_line_checked (player s i) line).0
    where
      t : ServerState
      t = put s i (queue_line_checked (player s i) line).1

      g : Goes s t
      g = put-Queued-Goes s i _ v (queue_line_checked-Queued (player s i) line)

      split : (b : Bool) → Yields s (if b then some t else drop_and_reevaluate re t i)
      split true = yields g
      split false =
          let f = g.fewer in Yields-after g (drop_and_reevaluate-Yields t i g.inv (omega arith))

  admit-Ends :
      (s : ServerState) (i : ℕ)
      → Inv s
      → connected_count s ≤ n
      → Ready s i
      → Ends s Any (admit re s i)
  unfolding admit
  admit-Ends s i v few ready = split r.0
    where
      p : Player
      p = record (player s i) { admitted = true; waiting = true }

      r : Bool × Player
      r = queue_line_checked p (text "JOINED_MATCH")

      q : Queued p r.1
      q = queue_line_checked-Queued p (text "JOINED_MATCH")

      m : Moves s (put s i r.1)
      m =
          Queued-Moves s i p r.1 v refl refl refl (refl, refl)
            (λ c. admitted-SlotInv (player s i) (ready c)) q

      split :
          (b : Bool)
          → Ends s Any (
              if b
              then (queue_broadcast re (joined_line p.name) (put s i r.1)
                  >>= broadcast_game_state re)
              else drop_and_reevaluate re (put s i r.1) i)
      split true =
          let f = m.fewer in
          Ends-after m (
            Ends_of_Yields
              (Yields-bind _ (broadcast_game_state re)
                (queue_broadcast-Yields re n settles (joined_line p.name) _ m.inv (omega arith))
                λ t g.
                  let f' = g.fewer in
                  broadcast_game_state-Yields re n settles t g.inv (omega arith))
              (λ t g. tt))
      split false =
          let f = m.fewer in
          Ends-after m
            (Ends_of_Yields (drop_and_reevaluate-Yields _ i m.inv (omega arith)) (λ t g. tt))

  admit_in_lobby-Ends :
      (s : ServerState) (i : ℕ)
      → Inv s
      → connected_count s ≤ n
      → Ready s i
      → Ends s Any (admit_in_lobby re s i)
  unfolding admit_in_lobby
  admit_in_lobby-Ends s i v few ready = split (s.join_deadline == 0) (leb s.join_deadline s.now)
    where
      opened : ServerState
      opened = record s { join_deadline = s.now + join_window_seconds }

      o : Goes s opened
      o = fields-Goes s opened v refl (inl refl)

      split :
          (a b : Bool)
          → Ends s Any (
              if a
              then (queue_broadcast re (lobby_open_line join_window_seconds) opened >>= λ t.
                  admit re t i)
              else if b
              then queue_or_drop re s i (text "ERROR lobby_closed")
              else admit re s i)
      split true b =
          let f = o.fewer in
          Ends-after (Moves-of_Goes o) (
            Ends-bind {P = λ t. Goes s t} _ (λ t. admit re t i)
              (Ends_of_Yields
                (queue_broadcast-Yields re n settles (lobby_open_line join_window_seconds) opened
                  o.inv (omega arith))
                λ t g. Goes-trans o g)
              λ t m g.
                let f' = g.fewer in admit-Ends t i g.inv (omega arith) (Ready-Goes s t i g ready))
      split false true = Ends_of_Yields (queue_or_drop-Yields s i _ v few) (λ t g. tt)
      split false false = admit-Ends s i v few ready

  pub maybe_admit_player-Ends :
      (s : ServerState) (i : ℕ)
      → Inv s
      → connected_count s ≤ n
      → Ends s Any (maybe_admit_player re s i)
  unfolding maybe_admit_player
  maybe_admit_player-Ends s i v few =
      split (not p.connected || not p.registered) p.admitted
        (not p.choice_chosen || not p.spawn_chosen) (is_lobby s.phase) refl refl
    where
      p : Player
      p = player s i

      stay : Ends s Any (some s)
      stay = ends (Moves-refl v) tt

      split :
          (a b c d : Bool)
          → (not p.connected || not p.registered) ≡ a
          → (not p.choice_chosen || not p.spawn_chosen) ≡ c
          → Ends s Any (
              if a
              then some s
              else if b
              then some s
              else if c
              then some s
              else if d
              then admit_in_lobby re s i
              else queue_or_drop re s i (text "ERROR lobby_closed"))
      split true b c d e f = stay
      split false true c d e f = stay
      split false false true d e f = stay
      split false false false false e f =
          Ends_of_Yields (queue_or_drop-Yields s i _ v few) (λ t g. tt)
      split false false false true e f =
          admit_in_lobby-Ends s i v few (λ on. (ground arith, ground arith, ground arith))
