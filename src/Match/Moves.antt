-- ===== src/Match/Moves.antt =====
-- What an operation of src/server_state.c on the whole match keeps: the relation `Moves`, wider
-- than `Goes`, since players are admitted and reset.
use rock_paper_scissors_batt.Base.{
  ℕ, ◌+◌, ◌≤◌, ◌≡◌, ◌≢◌, refl, sym, ap, ◌∙◌, ◌⊎◌, inl, inr, Option, none, some, true, false, ◌&&◌,
  ◌==◌, ◌>>=◌, arith, length, occurrences, length-set,
}
use rock_paper_scissors_batt.State.{Player, ServerState, Phase, repick, player, put, max_players}
use rock_paper_scissors_batt.State.Slots.{set-each, count_if-set_same, count_if-le}
use rock_paper_scissors_batt.Server.Slots.{
  SlotInv, Inv, SlotGoes, NoMoreInput, Goes, connected_count, fd_count, PhaseGoes,
}
use rock_paper_scissors_batt.Server.Knot.{Yields, yields}
use rock_paper_scissors_batt.Server.{Step}

-- The slot is connected and has its name.
abbrev pub IsNamed : Player → Type 0
IsNamed p = (p.connected ≡ true) × (p.registered ≡ true)

-- No two players are registered under one name.
abbrev pub NamesDiffer : ServerState → Type 0
NamesDiffer s =
    (i j : ℕ)
    → i ≢ j
    → IsNamed (player s i)
    → IsNamed (player s j)
    → (player s i).name ≢ (player s j).name

-- A slot that is still connected has the name that it had.
abbrev pub KeepsName : Player → Player → Type 0
KeepsName p q =
    (q.connected ≡ false)
    ⊎ ((q.connected ≡ p.connected) × (q.registered ≡ p.registered) × (q.name ≡ p.name))

IsNamed-before : (p q : Player) → KeepsName p q → IsNamed q → IsNamed p × (q.name ≡ p.name)
IsNamed-before p q (inl off) (on, reg) = absurd (cc)
IsNamed-before p q (inr (a, b, c)) (on, reg) = ((sym a ∙ on, sym b ∙ reg), c)

pub names_kept :
    (s t : ServerState)
    → ((k : ℕ) → KeepsName (player s k) (player t k))
    → NamesDiffer s
    → NamesDiffer t
names_kept s t keeps d i j apart a b e =
    let (a', ea) = IsNamed-before (player s i) (player t i) (keeps i) a in
    let (b', eb) = IsNamed-before (player s j) (player t j) (keeps j) b in
    d i j apart a' b' (sym ea ∙ e ∙ eb)

KeepsName-of_SlotGoes : (p q : Player) → SlotGoes p q → KeepsName p q
KeepsName-of_SlotGoes p q (inl off) = inl off
KeepsName-of_SlotGoes p q (inr same) = inr (
  same.connected,
  ap (λ (u : Player). u.registered) same.rest,
  ap (λ (u : Player). u.name) same.rest,
)

-- The slots are in order, connections are at most lost, and each lost socket was closed once.
pub record Moves (s t : ServerState) : Type 0 where
  pub inv : Inv t
  pub fewer : connected_count t ≤ connected_count s
  pub sockets : (v : ℕ) → fd_count v t ≡ fd_count v s
  pub next_id : t.next_id ≡ s.next_id
  pub now : t.now ≡ s.now
  pub no_repick : s.phase ≢ repick → t.phase ≢ repick
  pub names : NamesDiffer s → NamesDiffer t
  pub inputs : (k : ℕ) → NoMoreInput (player s k) (player t k)

pub Moves-refl : {s : ServerState} → Inv s → Moves s s
Moves-refl v = record {
  inv = v;
  fewer = omega arith;
  sockets = λ w. refl;
  next_id = refl;
  now = refl;
  no_repick = λ h. h;
  names = λ h. h;
  inputs = λ k. omega arith;
}

pub Moves-trans : {s t u : ServerState} → Moves s t → Moves t u → Moves s u
Moves-trans a b = record {
  inv = b.inv;
  fewer = let f = a.fewer in let g = b.fewer in omega arith;
  sockets = λ v. b.sockets v ∙ a.sockets v;
  next_id = b.next_id ∙ a.next_id;
  now = b.now ∙ a.now;
  no_repick = λ h. b.no_repick (a.no_repick h);
  names = λ h. b.names (a.names h);
  inputs = λ k. let f = a.inputs k in let g = b.inputs k in omega arith;
}

pub not-repick_of_PhaseGoes : (a b : Phase) → PhaseGoes a b → a ≢ repick → b ≢ repick
not-repick_of_PhaseGoes a b g h = ground arith

pub Moves-of_Goes : {s t : ServerState} → Goes s t → Moves s t
Moves-of_Goes {s} {t} g = record {
  inv = g.inv;
  fewer = g.fewer;
  sockets = g.sockets;
  next_id = g.next_id;
  now = g.now;
  no_repick = not-repick_of_PhaseGoes s.phase t.phase g.phase;
  names = names_kept s t (λ k. KeepsName-of_SlotGoes _ _ (g.slots k));
  inputs = g.inputs;
}

-- One slot is rewritten for the same connection.
pub put-Moves :
    (s : ServerState) (i : ℕ) (p : Player)
    → Inv s
    → p.connected ≡ (player s i).connected
    → p.fd ≡ (player s i).fd
    → NoMoreInput (player s i) p
    → (NamesDiffer s → NamesDiffer (put s i p))
    → (p.connected ≡ true → SlotInv p)
    → Moves s (put s i p)
put-Moves s i p v on fd less names keep = record {
  inv = record {
    size = length-set s.players i p ∙ v.size;
    each = λ k.
        set-each (λ q r. (q.connected ≡ true → SlotInv q) → (r.connected ≡ true → SlotInv r))
          (λ q h. h) s.players i p (λ h. keep) k (v.each k);
  };
  fewer = omega (arith, count_if-set_same (λ q. q.connected) s.players i p on);
  sockets = λ w.
      ap (λ n. n + occurrences w s.closed)
        (count_if-set_same (λ q. q.connected && (q.fd == w)) s.players i p (rw (on, fd)));
  next_id = refl;
  now = refl;
  no_repick = λ h. h;
  names = names;
  inputs = set-each NoMoreInput (λ q. omega arith) s.players i p less;
}

-- One slot is rewritten with its name kept.
pub put_names :
    (s : ServerState) (i : ℕ) (p : Player)
    → KeepsName (player s i) p
    → NamesDiffer s
    → NamesDiffer (put s i p)
put_names s i p keep =
    names_kept s (put s i p) (set-each KeepsName (λ q. inr (refl, refl, refl)) s.players i p keep)

-- A change of phase, to one that is not REPICK, of round or deadlines.
pub fields-Moves :
    (s t : ServerState)
    → Inv s
    → t ≡ record s {
      phase = t.phase;
      round_no = t.round_no;
      join_deadline = t.join_deadline;
      setup_deadline = t.setup_deadline;
      round_deadline = t.round_deadline;
    }
    → (s.phase ≢ repick → t.phase ≢ repick)
    → Moves s t
fields-Moves s t v e ph = record {
  inv = record { size = ap length players ∙ v.size; each = λ k. rw players (v.each k) };
  fewer = rw players (omega arith);
  sockets = λ w. ap (λ (u : ServerState). fd_count w u) e;
  next_id = ap (λ (u : ServerState). u.next_id) e;
  now = ap (λ (u : ServerState). u.now) e;
  no_repick = ph;
  names = names_kept s t (λ k. rw players (inr (refl, refl, refl)));
  inputs = λ k. rw players (omega arith);
}
  where
    players : t.players ≡ s.players
    players = ap (λ (u : ServerState). u.players) e

-- The run ends, in a state that `Moves` allows and in which `P` holds.
pub data Ends (s : ServerState) (P : ServerState → Type 0) : Option ServerState → Type 0 where
  ends : {t : ServerState} → Moves s t → P t → Ends s P (some t)

abbrev pub Any : ServerState → Type 0
Any t = Unit {0}

pub Ends-after :
    {s t : ServerState} {P : ServerState → Type 0} {r : Option ServerState}
    → Moves s t
    → Ends t P r
    → Ends s P r
Ends-after g (ends h p) = ends (Moves-trans g h) p

pub Ends-bind :
    {s : ServerState} {P Q : ServerState → Type 0} (r : Option ServerState) (f : Step)
    → Ends s P r
    → ((t : ServerState) → Moves s t → P t → Ends t Q (f t))
    → Ends s Q (r >>= f)
Ends-bind none f e next = elim e [ ]
Ends-bind (some t) f (ends g p) next = Ends-after g (next t g p)

pub Ends_of_Yields :
    {s : ServerState} {P : ServerState → Type 0} {r : Option ServerState}
    → Yields s r
    → ((t : ServerState) → Goes s t → P t)
    → Ends s P r
Ends_of_Yields (yields {t} g) p = ends (Moves-of_Goes g) (p t g)

pub Ends_some :
    {s : ServerState} {P : ServerState → Type 0} {r : Option ServerState}
    → Ends s P r
    → (t : ServerState) × (r ≡ some t) × Moves s t × P t
Ends_some (ends {t} g p) = (t, refl, g, p)

-- As many levels of nested calls as there are slots are enough.
pub few_connected : (s : ServerState) → Inv s → connected_count s ≤ max_players
few_connected s v = let size = v.size in omega (arith, count_if-le (λ p. p.connected) s.players)
