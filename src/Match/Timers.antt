-- ===== src/Match/Timers.antt =====
-- `advance_match_timers` of src/server_state.c, on every branch.
use rock_paper_scissors_batt.Base.{
  ℕ, ◌+◌, ◌≤◌, ◌≡◌, sym, ap, ◌∙◌, inr, Option, none, some, Bool, true, false, not, ◌&&◌, ◌||◌, ◌==◌,
  ◌>>=◌, if◌then◌else◌, arith, length, occurrences,
}
use rock_paper_scissors_batt.Float.{Float, double, sub, lt, to_single}
use rock_paper_scissors_batt.State.{Player, ServerState}
use rock_paper_scissors_batt.State.Slots.{count_if_pointwise}
use rock_paper_scissors_batt.Chase.{simulate_chase_tick}
use rock_paper_scissors_batt.Chase.Tick.{Chased, Hunted, simulate_chase_tick-Hunted}
use rock_paper_scissors_batt.Server.Slots.{SlotInv, Inv, Goes, connected_count, fd_count}
use rock_paper_scissors_batt.Server.Knot.{
  Settles, broadcast_positions-Yields, reevaluate_state-Yields,
}
use rock_paper_scissors_batt.Server.{Step, broadcast_positions, reevaluate_state}
use rock_paper_scissors_batt.Match.Moves.{
  Moves, names_kept, Moves-refl, Moves-trans, Ends, ends, Any, Ends-after, Ends-bind,
  Ends_of_Yields,
}
use rock_paper_scissors_batt.Match.Phases.{close_lobby-Ends, expire-Ends}
use rock_paper_scissors_batt.Match.{
  is_active, close_lobby_if_needed, expire_unready_setup_players, chase_tick, advance_match_timers,
}

Chased-SlotInv : (p q : Player) → Chased p q → SlotInv p → SlotInv q
Chased-SlotInv p q c v =
    let same = c.same in
    let fits = v.fits in
    record {
      admitted_ready = λ h.
          let (a, b, d) = v.admitted_ready (sym (ap (λ (u : Player). u.admitted) same) ∙ h) in
          (
            ap (λ (u : Player). u.registered) same ∙ a,
            ap (λ (u : Player). u.choice_chosen) same ∙ b,
            ap (λ (u : Player). u.spawn_chosen) same ∙ d,
          );
      alive_admitted =
          λ h. ap (λ (u : Player). u.admitted) same ∙ v.alive_admitted (c.stays_down h);
      waiting_admitted = λ h.
          ap (λ (u : Player). u.admitted) same
          ∙ v.waiting_admitted (sym (ap (λ (u : Player). u.waiting) same) ∙ h);
      chosen = λ h. rw same (v.chosen (sym (ap (λ (u : Player). u.choice_chosen) same) ∙ h));
      repicked = λ h. rw same (v.repicked (sym (ap (λ (u : Player). u.repick_submitted) same) ∙ h));
      fits = rw same (record { in_fits = fits.in_fits; out_fits = fits.out_fits });
    }

Chased-connected : {p q : Player} → Chased p q → (q.connected ≡ p.connected) × (q.fd ≡ p.fd)
Chased-connected c = (ap (λ (u : Player). u.connected) c.same, ap (λ (u : Player). u.fd) c.same)

Moves-of_Hunted : (s t : ServerState) → Inv s → Hunted s t → Moves s t
Moves-of_Hunted s t v h = record {
  inv = record {
    size = h.size ∙ v.size;
    each = λ k on.
        let c = h.each k in Chased-SlotInv _ _ c (v.each k (sym (Chased-connected c).0 ∙ on));
  };
  fewer = omega (
    arith,
    count_if_pointwise (λ p. p.connected) s.players t.players h.size
        (λ k. (Chased-connected (h.each k)).0),
  );
  sockets = λ w.
      ap (λ (u : ServerState). fd_count w (record u { players = t.players })) h.rest
      ∙ ap (λ n. n + occurrences w s.closed)
          (count_if_pointwise (λ p. p.connected && (p.fd == w)) s.players t.players h.size
            (λ k. let (a, b) = Chased-connected (h.each k) in rw (a, b)));
  next_id = ap (λ (u : ServerState). u.next_id) h.rest;
  now = ap (λ (u : ServerState). u.now) h.rest;
  no_repick = λ keep e. keep (sym (ap (λ (u : ServerState). u.phase) h.rest) ∙ e);
  names = names_kept s t (λ k.
      let c = h.each k in
      inr (
        (Chased-connected c).0,
        ap (λ (u : Player). u.registered) c.same,
        ap (λ (u : Player). u.name) c.same,
      ));
  inputs = λ k. let c = h.each k in omega (arith, ap (λ (u : Player). length u.inbuf) c.same);
}

-- The timers' result: the new value of *last_chase_tick, and the match.
pub data Advanced (s : ServerState) : Option (Float × ServerState) → Type 0 where
  advanced : {last : Float} {t : ServerState} → Moves s t → Advanced s (some (last, t))

module _ (re : Step) (n : ℕ) (settles : Settles re n) where
  chase_tick-Ends :
      (dt : Float) (s : ServerState)
      → Inv s
      → connected_count s ≤ n
      → Ends s Any (chase_tick re dt s)
  unfolding chase_tick
  chase_tick-Ends dt s v few =
      let f = m.fewer in
      Ends-after m (
        Ends-bind {P = λ u. Goes t u} (broadcast_positions re t) _
          (Ends_of_Yields (broadcast_positions-Yields re n settles t m.inv (omega arith))
            (λ u g. g))
          λ u _ g.
            let f' = g.fewer in split u g (omega arith) (simulate_chase_tick s (to_single dt)).0)
    where
      t : ServerState
      t = (simulate_chase_tick s (to_single dt)).1

      m : Moves s t
      m = Moves-of_Hunted s t v (simulate_chase_tick-Hunted s (to_single dt))

      split :
          (u : ServerState)
          → Goes t u
          → connected_count u ≤ n
          → (b : Bool) → Ends u Any (if b then reevaluate_state re u else some u)
      split u g l true = Ends_of_Yields (reevaluate_state-Yields re n settles u g.inv l) (λ w h. tt)
      split u g l false = ends (Moves-refl g.inv) tt

  ticked :
      {s t : ServerState} (clock : Float) (r : Option ServerState)
      → Moves s t
      → Ends t Any r
      → Advanced s (r >>= λ u. some (clock, u))
  ticked clock none m e = elim e [ ]
  ticked clock (some u) m (ends g p) = advanced (Moves-trans m g)

  waits :
      {s t : ServerState} (clock last seconds : Float)
      → Moves s t
      → connected_count t ≤ n
      → Advanced s (
          if not (is_active t.phase) || lt (sub double clock last) seconds
          then some (last, t)
          else (chase_tick re seconds t >>= λ u. some (clock, u)))
  waits {s} {t} clock last seconds m few =
      split (not (is_active t.phase) || lt (sub double clock last) seconds)
    where
      split :
          (b : Bool)
          → Advanced s
              (if b then some (last, t) else (chase_tick re seconds t >>= λ u. some (clock, u)))
      split true = advanced m
      split false = ticked clock _ m (chase_tick-Ends seconds t m.inv few)

  bind_Advanced :
      {s : ServerState} (r : Option ServerState) (f : ServerState → Option (Float × ServerState))
      → Ends s Any r
      → ((t : ServerState) → Moves s t → Advanced s (f t))
      → Advanced s (r >>= f)
  bind_Advanced none f e next = elim e [ ]
  bind_Advanced (some t) f (ends m p) next = next t m

  pub advance-Advanced :
      (clock last seconds : Float) (s : ServerState)
      → Inv s
      → connected_count s ≤ n
      → Advanced s (advance_match_timers re clock last seconds s)
  unfolding advance_match_timers
  advance-Advanced clock last seconds s v few =
      bind_Advanced (close_lobby_if_needed re s) _ (close_lobby-Ends re n settles s v few) λ t m.
        let f = m.fewer in
        bind_Advanced (expire_unready_setup_players re t) _
          (after m (expire-Ends re n settles t m.inv (omega arith)))
          λ u k. let f' = k.fewer in waits clock last seconds k (omega arith)
    where
      after : {t : ServerState} {r : Option ServerState} → Moves s t → Ends t Any r → Ends s Any r
      after m e = Ends-after m e
