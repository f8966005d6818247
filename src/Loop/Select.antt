-- ===== src/Loop/Select.antt =====
-- `build_select_sets` of src/server.c.
use rock_paper_scissors_batt.Base.{
  ℕ, ◌+◌, ◌<◌, ◌≤◌, ◌≡◌, inl, inr, List, [], ◌∷◌, ltb, if◌then◌else◌, arith, Bool-cases, count_if,
  occurrences, ◌==◌, ◌&&◌,
}
use rock_paper_scissors_batt.State.{Player, ServerState}
use rock_paper_scissors_batt.Protocol.{player_has_pending_output}
use rock_paper_scissors_batt.Loop.{SelectSets, select_slot, select_each, build_select_sets}

-- How many players in the list wait for socket `v`, to read and to write.
abbrev pub reads_on : ℕ → List Player → ℕ
reads_on v ps = count_if (λ p. p.connected && (p.fd == v)) ps

abbrev pub writes_on : ℕ → List Player → ℕ
writes_on v ps = count_if (λ p. p.connected && ((p.fd == v) && player_has_pending_output p)) ps

-- No socket of the set is greater than the bound.
abbrev pub Bounded : SelectSets → Type 0
Bounded sets = (v : ℕ) → 0 < occurrences v sets.readfds → v ≤ sets.maxfd

record Selected (ps : List Player) (before after : SelectSets) : Type 0 where
  reads : (v : ℕ) → occurrences v after.readfds ≡ occurrences v before.readfds + reads_on v ps
  writes : (v : ℕ) → occurrences v after.writefds ≡ occurrences v before.writefds + writes_on v ps
  bounded : Bounded before → Bounded after

slot-Selected : (p : Player) (sets : SelectSets) → Selected (p ∷ []) sets (select_slot p sets)
unfolding select_slot occurrences count_if
slot-Selected p sets = elim (Bool-cases p.connected) [
  | inr off ↦
      rw off (record { reads = λ v. omega arith; writes = λ v. omega arith; bounded = λ h. h })
  | inl on ↦ rw on (record {
    reads = λ v. omega arith;
    writes = λ v. ground arith;
    bounded = λ h v n. bound h v n;
  })
]
  where
    bound :
        Bounded sets
        → (v : ℕ) → 0 < occurrences v (p.fd ∷ sets.readfds)
        → v ≤ (if ltb sets.maxfd p.fd then p.fd else sets.maxfd)
    bound h v n = let k = h v in ground arith

each-Selected : (ps : List Player) (sets : SelectSets) → Selected ps sets (select_each ps sets)
unfolding select_each count_if
each-Selected [] sets = record {
  reads = λ v. omega arith;
  writes = λ v. omega arith;
  bounded = λ h. h;
}
each-Selected (p ∷ ps) sets =
    let one = slot-Selected p sets in
    let rest = each-Selected ps (select_slot p sets) in
    record {
      reads = λ v. let a = one.reads v in let b = rest.reads v in omega arith;
      writes = λ v. let a = one.writes v in let b = rest.writes v in omega arith;
      bounded = λ h. rest.bounded (one.bounded h);
    }

-- The sets that are passed to `select` hold, for each socket, the listening socket once and every
-- connected player's once to read, every connected player's with pending output once to write, and
-- no socket to read is greater than the returned maximum.
pub build_select_sets_lem :
    (listen_fd : ℕ) (s : ServerState)
    → let sets = build_select_sets listen_fd s in
      ((v : ℕ)
        → occurrences v sets.readfds ≡ (if listen_fd == v then 1 else 0) + reads_on v s.players)
      × ((v : ℕ) → occurrences v sets.writefds ≡ writes_on v s.players)
      × Bounded sets
unfolding build_select_sets occurrences
build_select_sets_lem listen_fd s =
    let sets =
      each-Selected s.players
        (record { readfds = listen_fd ∷ []; writefds = []; maxfd = listen_fd }) in
    (
      λ v. let r = sets.reads v in omega arith,
      λ v. let w = sets.writes v in omega arith,
      sets.bounded λ v h. ground arith,
    )
