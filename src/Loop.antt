-- ===== src/Loop.antt =====
-- src/server.c: the event loop. What `select`, `accept`, `recv`, `send` and the clocks answer in
-- one pass of the loop is an argument, `Io`; what is sent to a client that finds the server full is
-- left out. As in Server.antt, `re` stands for the calls of `reevaluate_state` from within
-- broadcasts.
pub mod Select
pub mod Served
pub mod Reads
pub mod Writes
pub mod Runs
use rock_paper_scissors_batt.Base.{
  ℕ, zero, suc, ◌+◌, List, [], ◌∷◌, ◌++◌, Option, none, some, Bool, true, false, not, ◌&&◌, ◌||◌,
  ltb, leb, ◌==◌, if◌then◌else◌, ◌>>=◌, count_if, length,
}
use rock_paper_scissors_batt.Base.Int.{ℤ, pos, negsuc}
use rock_paper_scissors_batt.Float.{Float, double, of_ratio}
use rock_paper_scissors_batt.State.{
  Player, ServerState, player, put, slots, max_line, inbuf_size, outbuf_size,
}
use rock_paper_scissors_batt.Text.Bytes.{Bytes, text}
use rock_paper_scissors_batt.Protocol.{
  queue_line, player_has_pending_output, Send, Flushed, all_flushed, would_block, broken, FlushRun,
  flush_player_output, Recv, read_into_player_buffer, pop_line,
}
use rock_paper_scissors_batt.Server.{Step, drop_slot, drop_player, reevaluate_state}
use rock_paper_scissors_batt.Match.{advance_match_timers}
use rock_paper_scissors_batt.Commands.{add_player, handle_command, handle_quit_command}

-- CHASE_TICK_SECONDS, 0.016667
unfoldable pub chase_tick_seconds : Float
chase_tick_seconds = of_ratio double false 16667 1000000

-- No connection is waiting or `accept` fails; the new socket cannot be made non-blocking; or it is
-- there.
pub data Accept : Type 0 where
  nobody : Accept
  blocking : ℕ → Accept
  accepted : ℕ → Accept

-- The environment in one pass: the value of time(NULL), that of now_seconds(), the outcome of
-- `accept`, the sets of readable and of writable sockets, and what `recv` and the calls of `send`
-- return for a slot.
pub record Io : Type 0 where
  pub now : ℕ
  pub clock : Float
  pub accept : Accept
  pub readable : ℕ → Bool
  pub writable : ℕ → Bool
  pub recv : ℕ → Recv
  pub send : ℕ → ℕ → Send

-- A pass in which `select` is interrupted does nothing.
pub data Pass : Type 0 where
  interrupted : Pass
  selected : Io → Pass

-- The answers of the first `n` calls of `send`, from call `k` on.
abbrev pub first_sends : (ℕ → Send) → ℕ → ℕ → List Send
first_sends send k zero = []
first_sends send k (suc n) = send k ∷ first_sends send (k + 1) n

-- What `build_select_sets` fills in and returns: the sockets to read, those to write, and the
-- greatest. A set is the list of the calls of FD_SET.
pub record SelectSets : Type 0 where
  pub readfds : List ℕ
  pub writefds : List ℕ
  pub maxfd : ℕ

unfoldable pub select_slot : Player → SelectSets → SelectSets
select_slot p sets = if not p.connected then sets else record {
  readfds = p.fd ∷ sets.readfds;
  writefds = if player_has_pending_output p then p.fd ∷ sets.writefds else sets.writefds;
  maxfd = if ltb sets.maxfd p.fd then p.fd else sets.maxfd;
}

unfoldable pub select_each : List Player → SelectSets → SelectSets
select_each [] sets = sets
select_each (p ∷ ps) sets = select_each ps (select_slot p sets)

unfoldable pub build_select_sets : ℕ → ServerState → SelectSets
build_select_sets listen_fd s =
    select_each s.players (record { readfds = listen_fd ∷ []; writefds = []; maxfd = listen_fd })

-- A new client's slot, or none.
unfoldable pub greet : ServerState → Option ℕ → ServerState → ℕ → Bool × ServerState
greet s none full fd = (false, record s { closed = fd ∷ s.closed })
greet s (some i) t fd =
    let r = queue_line (player t i) (text "INFO connected_send_HELLO_name") in
    (true, if r.0 then put t i r.1 else drop_slot (put t i r.1) i)

-- With the returned flag.
unfoldable pub accept_new_clients : Accept → ServerState → Bool × ServerState
accept_new_clients nobody s = (false, s)
accept_new_clients (blocking fd) s = (false, record s { closed = fd ∷ s.closed })
accept_new_clients (accepted fd) s = let r = add_player s fd in greet s r.0 r.1 fd

-- Whether the count that `read_into_player_buffer` returns is 0 or less.
abbrev pub is_closed : ℤ → Bool
is_closed (pos zero) = true
is_closed (pos (suc n)) = false
is_closed (negsuc n) = true

abbrev pub is_broken : Flushed → Bool
is_broken broken = true
is_broken _ = false

-- The variables of `main` that the loop changes.
pub record Main : Type 0 where
  pub last_chase_tick : Float
  pub saw_client : Bool
  pub state : ServerState

-- What a pass leaves; `saw` is what `accept_new_clients` returned.
abbrev pub after_pass : Main → Bool → Float × ServerState → Main
after_pass m saw (last, s) = record {
  last_chase_tick = last;
  saw_client = m.saw_client || saw;
  state = s;
}

unfoldable pub connected_player_count : ServerState → ℕ
connected_player_count s = count_if (λ p. p.connected) s.players

-- The break behind a pass; the `continue` of an interrupted one skips it.
unfoldable pub leaves : Bool → Pass → Main → Bool
leaves auto_exit interrupted m = false
leaves auto_exit (selected io) m =
    auto_exit && (m.saw_client && (connected_player_count m.state == 0))

module _ (re : Step) where
  -- while (pop_line(...)) handle_command(...): at most `n` rounds, `none` when they do not suffice.
  unfoldable pub handle_lines : ℕ → ServerState → ℕ → Option ServerState
  handle_lines zero s i = none
  handle_lines (suc n) s i = elim (pop_line max_line (player s i)) [
    | none ↦ some s
    | some (line, p) ↦ (do t ← handle_command re (put s i p) i line; handle_lines n t i)
  ]

  -- The rest of a slot's round in `process_player_reads`, behind the read.
  unfoldable pub after_read : ServerState → ℕ → Bool → Option ServerState
  after_read s i closed =
      if closed
      then (do t ← drop_player re s i true; reevaluate_state re t)
      else handle_lines inbuf_size s i

  unfoldable pub read_slot : Io → ServerState → ℕ → Option ServerState
  read_slot io s i =
      let p = player s i in
      let r = read_into_player_buffer (io.recv i) p in
      if not p.connected
      then some s
      else if not (io.readable p.fd)
      then some s
      else after_read (put s i r.1) i (is_closed r.0)

  unfoldable pub process_player_reads : Io → List ℕ → Step
  process_player_reads io [] s = some s
  process_player_reads io (i ∷ is) s = do t ← read_slot io s i; process_player_reads io is t

  unfoldable pub after_flush : ServerState → ℕ → FlushRun → Option ServerState
  after_flush s i r =
      if is_broken r.result
      then (do t ← drop_player re (put s i r.after) i true; reevaluate_state re t)
      else some (put s i r.after)

  unfoldable pub write_slot : Io → ServerState → ℕ → Option ServerState
  write_slot io s i =
      let p = player s i in
      if not p.connected
      then some s
      else if not (io.writable p.fd)
      then some s
      else (do r ← flush_player_output (first_sends (io.send i) 0 outbuf_size) p; after_flush s i r)

  unfoldable pub process_player_writes : Io → List ℕ → Step
  process_player_writes io [] s = some s
  process_player_writes io (i ∷ is) s = do t ← write_slot io s i; process_player_writes io is t

  -- One pass of the loop of `main` up to the test of its end.
  unfoldable pub serve : Pass → Main → Option Main
  serve interrupted m = some m
  serve (selected io) m = do
    let r = accept_new_clients io.accept (record m.state { now = io.now })
    t ← process_player_reads io slots r.1
    t ← process_player_writes io slots t
    u ← advance_match_timers re io.clock m.last_chase_tick chase_tick_seconds t
    some (after_pass m r.0 u)

  -- The loop, for the passes to come.
  unfoldable pub run : Bool → List Pass → Main → Option Main
  run auto_exit [] m = some m
  run auto_exit (p ∷ ps) m = do
    n ← serve p m
    elim (leaves auto_exit p n) [ true ↦ some n | false ↦ run auto_exit ps n ]
