-- ===== src/Loop/Runs.antt =====
-- The loop of src/server.c from its start, pass by pass.
use rock_paper_scissors_batt.Base.{
  ℕ, zero, suc, ◌+◌, ◌≡◌, ◌≢◌, refl, sym, ap, subst, ◌∙◌, List, [], ◌∷◌, ◌++◌, Option, none, some,
  Bool, true, false, inl, inr, ◌⊎◌, ◌&&◌, ◌==◌, ◌>>=◌, arith, get_or, replicate, count_if,
  occurrences,
}
use mathlib.Core.List.{append-nil}
use rock_paper_scissors_batt.Float.{Float}
use rock_paper_scissors_batt.State.{
  ServerState, repick, zero_player, empty_slot, slots, max_players,
}
use rock_paper_scissors_batt.Game.{init_server_state}
use rock_paper_scissors_batt.Server.Slots.{Inv, fd_count}
use rock_paper_scissors_batt.Match.Moves.{NamesDiffer, Moves-refl}
use rock_paper_scissors_batt.Match.Live.{nested, advance_match_timers_ends}
use rock_paper_scissors_batt.Match.{advance_match_timers}
use rock_paper_scissors_batt.Loop.Served.{
  Served, Served-of_Moves, Served-trans, now-Served, opened_by, accept-Served,
}
use rock_paper_scissors_batt.Loop.Reads.{Serves, serves, reads-Serves}
use rock_paper_scissors_batt.Loop.Writes.{writes-Serves}
use rock_paper_scissors_batt.Loop.{
  Pass, interrupted, selected, chase_tick_seconds, process_player_reads, process_player_writes,
  serve, run, Main, after_pass, connected_player_count, leaves,
}

-- The sockets that `accept` returned in a series of passes.
abbrev pub opened_in : List Pass → List ℕ
opened_in [] = []
opened_in (interrupted ∷ ps) = opened_in ps
opened_in (selected io ∷ ps) = opened_by io.accept ++ opened_in ps

-- A part of a pass returns.
data Passed (opened : List ℕ) (s : ServerState) : Option Main → Type 0 where
  passed : {m : Main} → Served opened s m.state → Passed opened s (some m)

Passed-after :
    {xs ys : List ℕ} {s t : ServerState} {r : Option Main}
    → Served xs s t
    → Passed ys t r
    → Passed (xs ++ ys) s r
Passed-after m (passed k) = passed (Served-trans m k)

Passed-bind :
    {xs ys : List ℕ} {s : ServerState} (r : Option ServerState) (f : ServerState → Option Main)
    → Serves xs s r
    → ((t : ServerState) → Inv t → Passed ys t (f t))
    → Passed (xs ++ ys) s (r >>= f)
Passed-bind none f e next = elim e [ ]
Passed-bind (some t) f (serves m) next = Passed-after m (next t m.inv)

timers-Passed :
    (clock seconds : Float) (m : Main) (saw : Bool) (s : ServerState)
    → Inv s
    → Passed [] s (
        advance_match_timers nested clock m.last_chase_tick seconds s >>= λ u.
        some (after_pass m saw u))
timers-Passed clock seconds m saw s v =
    let (_, t, e, moves) = advance_match_timers_ends s clock m.last_chase_tick seconds v in
    subst (λ r. Passed [] s (r >>= λ u. some (after_pass m saw u))) (sym e)
      (passed (Served-of_Moves moves))

serve-Passed :
    (p : Pass) (m : Main) → Inv m.state → Passed (opened_in (p ∷ [])) m.state (serve nested p m)
unfolding serve
serve-Passed interrupted m v = passed (Served-of_Moves (Moves-refl v))
serve-Passed (selected io) m v =
    let n = now-Served m.state io.now v in
    let a = accept-Served io.accept (record m.state { now = io.now }) n.inv in
    Passed-after n (
      Passed-after a (
        Passed-bind (process_player_reads nested io slots _) _ (reads-Serves io slots _ a.inv)
          λ t w.
            Passed-bind (process_player_writes nested io slots t) _ (writes-Serves io slots t w)
              λ u x. timers-Passed io.clock chase_tick_seconds m _ u x))

-- Why the loop ends before the passes of a list do.
pub record Left (auto_exit : Bool) (m : Main) : Type 0 where
  pub asked : auto_exit ≡ true
  pub had_client : m.saw_client ≡ true
  pub nobody_left : connected_player_count m.state ≡ 0

-- The loop returns: the passes that it finished, those that it left, and why.
data Ran (auto_exit : Bool) (ps : List Pass) (s : ServerState) : Option Main → Type 0 where
  ran :
      {m : Main} (finished rest : List Pass)
      → finished ++ rest ≡ ps
      → (rest ≡ []) ⊎ Left auto_exit m
      → Served (opened_in finished) s m.state
      → Ran auto_exit ps s (some m)

leaves-Left :
    (auto_exit : Bool) (p : Pass) (m : Main) → leaves auto_exit p m ≡ true → Left auto_exit m
unfolding leaves
leaves-Left auto_exit interrupted m e = cc
leaves-Left auto_exit (selected io) m e = record {
  asked = ground arith;
  had_client = ground arith;
  nobody_left = ground arith;
}

opened_first : (p : Pass) (ps : List Pass) → opened_in (p ∷ []) ++ opened_in ps ≡ opened_in (p ∷ ps)
opened_first interrupted ps = refl
opened_first (selected io) ps = ap (λ xs. xs ++ opened_in ps) (append-nil (opened_by io.accept))

Ran-after :
    {auto_exit : Bool} {p : Pass} {ps : List Pass} {s t : ServerState} {r : Option Main}
    → Served (opened_in (p ∷ [])) s t
    → Ran auto_exit ps t r
    → Ran auto_exit (p ∷ ps) s r
Ran-after {p} {s} k (ran {m} finished rest whole why served) =
    ran (p ∷ finished) rest (ap (λ xs. p ∷ xs) whole) why
      (subst (λ xs. Served xs s m.state) (opened_first p finished) (Served-trans k served))

either-Ran :
    {auto_exit : Bool} {ps : List Pass} {s : ServerState} {x y : Option Main} (b : Bool)
    → (b ≡ true → Ran auto_exit ps s x)
    → Ran auto_exit ps s y
    → Ran auto_exit ps s (elim b [ true ↦ x | false ↦ y ])
either-Ran true stop go = stop refl
either-Ran false stop go = go

run-Ran :
    (auto_exit : Bool) (ps : List Pass) (m : Main)
    → Inv m.state
    → Ran auto_exit ps m.state (run nested auto_exit ps m)
unfolding run
run-Ran auto_exit [] m v = ran [] [] refl (inl refl) (Served-of_Moves (Moves-refl v))
run-Ran auto_exit (p ∷ ps) m v =
    then_run (serve nested p m) (serve-Passed p m v) (λ n w. run-Ran auto_exit ps n w)
  where
    then_run :
        (r : Option Main)
        → Passed (opened_in (p ∷ [])) m.state r
        → ((n : Main) → Inv n.state → Ran auto_exit ps n.state (run nested auto_exit ps n))
        → Ran auto_exit (p ∷ ps) m.state (
            r >>= λ n. elim (leaves auto_exit p n) [
              | true ↦ some n
              | false ↦ run nested auto_exit ps n
            ])
    then_run none e next = elim e [ ]
    then_run (some n) (passed k) next =
        either-Ran (leaves auto_exit p n)
          (λ e. ran (p ∷ []) ps refl (inr (leaves-Left auto_exit p n e)) k)
          (Ran-after k (next n k.inv))

-- Every slot of a server that has just started is empty.
started : (n : ℕ) (k : ℕ) → (get_or (replicate n zero_player) k empty_slot).connected ≡ false
unfolding empty_slot
started zero k = refl
started (suc n) zero = refl
started (suc n) (suc k) = started n k

nobody_connected :
    (w : ℕ) (n : ℕ) → count_if (λ p. p.connected && (p.fd == w)) (replicate n zero_player) ≡ 0
unfolding count_if
nobody_connected w zero = refl
nobody_connected w (suc n) = omega (arith, nobody_connected w n)

pub init-Inv : (now : ℕ) → Inv (init_server_state now)
unfolding init_server_state
init-Inv now = record { size = refl; each = λ k on. absurd (let off = started max_players k in cc) }

init-NamesDiffer : (now : ℕ) → NamesDiffer (init_server_state now)
unfolding init_server_state
init-NamesDiffer now i j apart (on, _) b e = let off = started max_players i in cc

init_fds : (now w : ℕ) → fd_count w (init_server_state now) ≡ 0
unfolding init_server_state occurrences
init_fds now w = omega (arith, nobody_connected w max_players)

-- The variables of `main` in front of the loop.
abbrev pub start_main : ℕ → Float → Main
start_main now clock = record {
  last_chase_tick = clock;
  saw_client = false;
  state = init_server_state now;
}

-- From its start the server never hangs in a pass of its loop and never fails to return, for every
-- series of passes, whatever the clocks, `select`, `accept`, `recv` and `send` answer, and it finishes
-- them all unless it was told to exit, has seen a client and nobody is connected any more. In the
-- state that it reaches every connected slot is in order, no two registered players have one name,
-- the phase is not REPICK, and each socket is held by a connected slot or was closed, together
-- exactly as often as `accept` returned it in the passes that were finished.
pub server_runs :
    (now : ℕ) (clock : Float) (auto_exit : Bool) (ps : List Pass)
    → (m : Main) × (finished : List Pass) × (rest : List Pass) × (run nested auto_exit ps
          (start_main now clock)
        ≡ some m)
      × (finished ++ rest ≡ ps)
      × ((rest ≡ []) ⊎ Left auto_exit m)
      × Inv m.state
      × NamesDiffer m.state
      × (m.state.phase ≢ repick)
      × ((v : ℕ) → fd_count v m.state ≡ occurrences v (opened_in finished))
unfolding init_server_state
server_runs now clock auto_exit ps =
    result (run-Ran auto_exit ps (start_main now clock) (init-Inv now))
  where
    result :
        {r : Option Main}
        → Ran auto_exit ps (init_server_state now) r
        → (m : Main) × (finished : List Pass) × (rest : List Pass) × (r ≡ some m)
          × (finished ++ rest ≡ ps)
          × ((rest ≡ []) ⊎ Left auto_exit m)
          × Inv m.state
          × NamesDiffer m.state
          × (m.state.phase ≢ repick)
          × ((v : ℕ) → fd_count v m.state ≡ occurrences v (opened_in finished))
    result (ran {m} finished rest whole why served) = (
      m,
      finished,
      rest,
      refl,
      whole,
      why,
      served.inv,
      served.names (init-NamesDiffer now),
      served.no_repick (λ e. cc),
      λ v.
          served.sockets v
          ∙ ap (λ n. n + occurrences v (opened_in finished)) (init_fds now v)
          ∙ omega arith,
    )
