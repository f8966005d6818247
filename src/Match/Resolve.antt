-- ===== src/Match/Resolve.antt =====
-- `resolve_round` of src/server_state.c and `begin_repicks`.
use rock_paper_scissors_batt.Base.{
  ℕ, zero, suc, ◌≤◌, ◌≡◌, refl, ◌∙◌, ◌⊎◌, inl, inr, List, [], ◌∷◌, Option, none, some, Bool, true,
  false, ◌>>=◌, if◌then◌else◌, arith, map, leb,
}
use rock_paper_scissors_batt.Base.Int.{ℤ, pos, negsuc}
use rock_paper_scissors_batt.Text.Bytes.{text}
use rock_paper_scissors_batt.State.{ServerState, Pair, repick, player, max_players}
use rock_paper_scissors_batt.Game.{active_alive_count, all_alive_same_choice, rps_result}
use rock_paper_scissors_batt.Game.Pairs.{build_pairs}
use rock_paper_scissors_batt.Server.Slots.{
  Inv, PhaseGoes, Goes, map-Goes, connected_count, fd_count,
}
use rock_paper_scissors_batt.Server.Queue.{end_game-Goes, end_game-phase}
use rock_paper_scissors_batt.Server.Knot.{
  Yields, yields, Settles, queue_broadcast-Yields, broadcast_positions-Yields,
  reevaluate_at-Settles, Yields-bind,
}
use rock_paper_scissors_batt.Server.{
  Step, clear_repick, queue_broadcast, broadcast_positions, begin_repicks, start_active_round,
  end_game,
}
use rock_paper_scissors_batt.Match.Moves.{
  NamesDiffer, Moves, Moves-refl, Moves-of_Goes, Ends, ends, Any, Ends-after, Ends-bind,
  Ends_of_Yields, few_connected,
}
use rock_paper_scissors_batt.Match.Phases.{IsStarted, start_active_round-IsStarted}
use rock_paper_scissors_batt.Match.Live.{nested}
use rock_paper_scissors_batt.Match.{
  pair_line, leave_round, settle_pair, resolve_pair, resolve_pairs, announce_bye, next_round,
  resolve_round,
}
use rock_paper_scissors_batt.Match.Writes.{
  settled-Moves, tell_loser-Goes, leave_round-SameSlot, leave_round-SlotInv, leave_round-empty,
  clear_repick-SameSlot, clear_repick-SlotInv, clear_repick-empty,
}

-- What `resolve_round` keeps, and the phases that it leads to.
pub record Resolved (s t : ServerState) : Type 0 where
  pub inv : Inv t
  pub fewer : connected_count t ≤ connected_count s
  pub sockets : (v : ℕ) → fd_count v t ≡ fd_count v s
  pub names : NamesDiffer s → NamesDiffer t
  pub phase : IsStarted t ⊎ (t.phase ≡ repick)

Resolved-of_Moves :
    {s t : ServerState} → Moves s t → IsStarted t ⊎ (t.phase ≡ repick) → Resolved s t
Resolved-of_Moves m ph = record {
  inv = m.inv;
  fewer = m.fewer;
  sockets = m.sockets;
  names = m.names;
  phase = ph;
}

Resolved-after : {s t u : ServerState} → Moves s t → Resolved t u → Resolved s u
Resolved-after m r = record {
  inv = r.inv;
  fewer = let f = m.fewer in let g = r.fewer in omega arith;
  sockets = λ v. r.sockets v ∙ m.sockets v;
  names = λ h. r.names (m.names h);
  phase = r.phase;
}

data Resolves (s : ServerState) : Option ServerState → Type 0 where
  resolves : {t : ServerState} → Resolved s t → Resolves s (some t)

Resolves-bind :
    {s : ServerState} (r : Option ServerState) (f : Step)
    → Ends s Any r
    → ((t : ServerState) → Moves s t → Resolves t (f t))
    → Resolves s (r >>= f)
Resolves-bind none f e next = elim e [ ]
Resolves-bind {s} (some t) f (ends m p) next = after (f t) (next t m)
  where
    after : (r : Option ServerState) → Resolves t r → Resolves s r
    after none e = elim e [ ]
    after (some u) (resolves k) = resolves (Resolved-after m k)

module _ (s : ServerState) (v : Inv s) where
  abbrev cleared : ServerState
  cleared = record s { players = map clear_repick s.players }

  abbrev repicking : ServerState
  repicking = record s { phase = repick; players = map clear_repick s.players }

  cleared-Goes : Goes s cleared
  cleared-Goes =
      map-Goes clear_repick s clear_repick-SameSlot (λ k. clear_repick-SlotInv (player s k))
        clear_repick-empty v

  repicking-Inv : Inv repicking
  repicking-Inv = let w = cleared-Goes.inv in record { size = w.size; each = w.each }

  repicks-Resolved : (t : ServerState) → Goes repicking t → Resolved s t
  repicks-Resolved t g =
      let m = Moves-of_Goes cleared-Goes in
      let k = Moves-of_Goes g in
      record {
        inv = g.inv;
        fewer = let f = m.fewer in let f' = g.fewer in omega arith;
        sockets = λ w. g.sockets w ∙ m.sockets w;
        names = λ h. k.names (m.names h);
        phase = phases g.phase;
      }
    where
      phases : PhaseGoes repick t.phase → IsStarted t ⊎ (t.phase ≡ repick)
      phases (inl e) = inr e
      phases (inr e) = inl e

module _ (re : Step) (n : ℕ) (settles : Settles re n) where
  settle_pair-Ends :
      (s : ServerState) (pair : Pair) (w l : ℕ)
      → Inv s
      → connected_count s ≤ n
      → Ends s Any (settle_pair re s pair w l)
  unfolding settle_pair
  settle_pair-Ends s pair w l v few =
      let m = settled-Moves s w l v in
      let f = m.fewer in
      Ends-after m (
        Ends-bind {P = λ u. Goes _ u} _ _
          (Ends_of_Yields (queue_broadcast-Yields re n settles _ _ m.inv (omega arith)) (λ u g. g))
          λ u _ g. ends (Moves-of_Goes (tell_loser-Goes u l g.inv)) tt)

  resolve_pair-Ends :
      (s : ServerState) (pair : Pair)
      → Inv s
      → connected_count s ≤ n
      → Ends s Any (resolve_pair re s pair)
  unfolding resolve_pair
  resolve_pair-Ends s pair v few =
      split (rps_result (player s pair.a).choice (player s pair.b).choice)
    where
      split :
          (r : ℤ)
          → Ends s Any (elim r [
            | negsuc k ↦ settle_pair re s pair pair.b pair.a
            | pos zero ↦
                queue_broadcast re (pair_line (player s pair.a) (player s pair.b) (text " TIE")) s
            | pos (suc k) ↦ settle_pair re s pair pair.a pair.b
          ])
      split (negsuc k) = settle_pair-Ends s pair pair.b pair.a v few
      split (pos zero) = Ends_of_Yields (queue_broadcast-Yields re n settles _ s v few) (λ u g. tt)
      split (pos (suc k)) = settle_pair-Ends s pair pair.a pair.b v few

  resolve_pairs-Ends :
      (ps : List Pair) (s : ServerState)
      → Inv s
      → connected_count s ≤ n
      → Ends s Any (resolve_pairs re ps s)
  unfolding resolve_pairs
  resolve_pairs-Ends [] s v few = ends (Moves-refl v) tt
  resolve_pairs-Ends (p ∷ ps) s v few =
      Ends-bind {P = Any} _ (resolve_pairs re ps) (resolve_pair-Ends s p v few)
        λ t m _. let f = m.fewer in resolve_pairs-Ends ps t m.inv (omega arith)

  announce_bye-Ends :
      (bye : Option ℕ) (s : ServerState)
      → Inv s
      → connected_count s ≤ n
      → Ends s Any (announce_bye re bye s)
  unfolding announce_bye
  announce_bye-Ends none s v few = ends (Moves-refl v) tt
  announce_bye-Ends (some i) s v few =
      Ends_of_Yields (queue_broadcast-Yields re n settles _ s v few) (λ u g. tt)

  positions-Ends :
      (s : ServerState)
      → Inv s
      → connected_count s ≤ n
      → Ends s Any (broadcast_positions re (record s { players = map leave_round s.players }))
  positions-Ends s v few =
      let g =
        map-Goes leave_round s leave_round-SameSlot (λ k. leave_round-SlotInv (player s k))
          leave_round-empty v in
      let f = g.fewer in
      Ends-after (Moves-of_Goes g)
        (Ends_of_Yields (broadcast_positions-Yields re n settles _ g.inv (omega arith)) (λ u h. tt))

  begin_repicks-Resolves :
      (s : ServerState) → Inv s → connected_count s ≤ n → Resolves s (begin_repicks re s)
  unfolding begin_repicks
  begin_repicks-Resolves s v few =
      let f = (cleared-Goes s v).fewer in
      result (
        Yields-bind _ (broadcast_positions re)
          (queue_broadcast-Yields re n settles (text "REPICK_START") _ (repicking-Inv s v)
            (omega arith))
          λ t g. let f' = g.fewer in broadcast_positions-Yields re n settles t g.inv (omega arith))
    where
      result : {r : Option ServerState} → Yields (repicking s v) r → Resolves s r
      result (yields {t} g) = resolves (repicks-Resolved s v t g)

  next_round-Resolves :
      (s : ServerState) → Inv s → connected_count s ≤ n → Resolves s (next_round re s)
  unfolding next_round
  next_round-Resolves s v few = split (leb (active_alive_count s) 1) (all_alive_same_choice s)
    where
      started : {r : Option ServerState} → Ends s IsStarted r → Resolves s r
      started (ends m p) = resolves (Resolved-of_Moves m (inl p))

      split :
          (a b : Bool)
          → Resolves s (
              if a
              then some (end_game s)
              else if b
              then begin_repicks re s
              else start_active_round re s)
      split true b =
          resolves
            (Resolved-of_Moves (Moves-of_Goes (end_game-Goes s v)) (inl (inr (end_game-phase s))))
      split false true = begin_repicks-Resolves s v few
      split false false = started (start_active_round-IsStarted re n settles s v few)

  resolve-Resolves :
      (s : ServerState) → Inv s → connected_count s ≤ n → Resolves s (resolve_round re s)
  unfolding resolve_round
  resolve-Resolves s v few =
      Resolves-bind _ _ (resolve_pairs-Ends (build_pairs s 16).0 s v few) λ t m.
        let f = m.fewer in
        Resolves-bind _ _ (announce_bye-Ends (build_pairs s 16).1 t m.inv (omega arith)) λ u k.
          let f' = k.fewer in
          Resolves-bind _ _ (positions-Ends u k.inv (omega arith))
            λ w h. let f'' = h.fewer in next_round-Resolves w h.inv (omega arith)

-- On slots that are in order `resolve_round` returns, whatever pairs it makes and whoever is dropped
-- by its broadcasts, in a round, in REPICK or with the game over. The slots stay in order, no
-- connection is added, each lost socket was closed once, and names stay apart.
pub resolve_round_ends :
    (s : ServerState) → Inv s → (t : ServerState) × (resolve_round nested s ≡ some t) × Resolved s t
resolve_round_ends s v = result (
    resolve-Resolves nested max_players (reevaluate_at-Settles max_players) s v (few_connected s v))
  where
    result :
        {r : Option ServerState} → Resolves s r → (t : ServerState) × (r ≡ some t) × Resolved s t
    result (resolves {t} k) = (t, refl, k)
