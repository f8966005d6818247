-- ===== src/Client/Ui/Runs.antt =====
-- The terminal client from its start, frame by frame.
use rock_paper_scissors_batt.Base.{
  ℕ, ◌≡◌, refl, ap, ◌∙◌, inl, inr, List, [], ◌∷◌, ◌++◌, Option, none, some, Bool, true, false, not,
  ◌&&◌, All, if◌then◌else◌, Bool-cases,
}
use rock_paper_scissors_batt.Text.Bytes.{Bytes, text}
use rock_paper_scissors_batt.Client.Inv.Branches.{Holds-some}
use rock_paper_scissors_batt.Client.Pump.{Ready, no_input}
use rock_paper_scissors_batt.Client.Pump.Ends.{pump_client_network_ends}
use rock_paper_scissors_batt.Client.Ui.{AutoJoinConfig, Ui, send_command_checked}
use rock_paper_scissors_batt.Client.Ui.Keys.{if_sent, may_join, handle_keys}
use rock_paper_scissors_batt.Client.Ui.Commands.{choice-IsUnderstood, quit-IsUnderstood}
use rock_paper_scissors_batt.Client.Ui.Inv.{
  either-UiInv, PlanInv, UiInv, send-UiInv, request_state-UiInv,
}
use rock_paper_scissors_batt.Client.Ui.Branches.{cells-IsUnderstood}
use rock_paper_scissors_batt.Client.Ui.Bounds.{handle_keys-UiInv}
use rock_paper_scissors_batt.Client.Ui.Main.{
  parse_args, start, auto_hello, plan_sent, auto_choice, auto_spawn, auto_join_step, ask_state,
  Frame, after_pump, frame, quit, run_frames,
}
use rock_paper_scissors_batt.Client.Ui.Plan.{
  parse_args-PlanInv, start-UiInv, plan_sent-UiInv, auto_hello-UiInv, auto_hello-enabled, send-plan,
  flags_kept,
}

auto_choice-UiInv :
    (sends : ℕ → Option ℕ) (u : Ui)
    → u.auto_join.enabled ≡ true
    → UiInv u
    → UiInv (auto_choice sends u)
unfolding auto_choice
auto_choice-UiInv sends u on v =
    either-UiInv (not u.auto_join.choice_sent) _ u
      (plan_sent-UiInv _ _ (λ a p. flags_kept a _ refl p)
        (send-UiInv sends u _ (choice-IsUnderstood u.auto_join.choice (v.plan.kind on) (inl refl))
          v))
      v

auto_spawn-UiInv :
    (sends : ℕ → Option ℕ) (u : Ui)
    → u.auto_join.enabled ≡ true
    → UiInv u
    → UiInv (auto_spawn sends u)
unfolding auto_spawn
auto_spawn-UiInv sends u on v =
    either-UiInv (u.client.choice_confirmed && not u.auto_join.spawn_sent) _ u
      (plan_sent-UiInv _ _ (λ a p. flags_kept a _ refl p)
        (send-UiInv sends u _
          (cells-IsUnderstood u.auto_join.spawn_x u.auto_join.spawn_y (v.plan.column on)
            (v.plan.row on) (inr (refl, refl)))
          v))
      v

plan_sent-enabled :
    (r : Bool × Ui)
    → (plan_sent (λ a. record a { choice_sent = true }) r).auto_join.enabled ≡ r.1.auto_join.enabled
unfolding plan_sent if_sent
plan_sent-enabled (false, u) = refl
plan_sent-enabled (true, u) = refl

auto_choice-enabled :
    (sends : ℕ → Option ℕ) (u : Ui) → (auto_choice sends u).auto_join.enabled ≡ u.auto_join.enabled
unfolding auto_choice
auto_choice-enabled sends u = either (not u.auto_join.choice_sent)
  where
    sent : Bool × Ui
    sent = send_command_checked sends u (text "CHOICE " ++ (u.auto_join.choice ∷ []))

    either :
        (b : Bool)
        → (if b then plan_sent (λ a. record a { choice_sent = true }) sent else u).auto_join.enabled
          ≡ u.auto_join.enabled
    either false = refl
    either true =
        plan_sent-enabled sent
        ∙ ap (λ (a : AutoJoinConfig). a.enabled)
            (send-plan sends u (text "CHOICE " ++ (u.auto_join.choice ∷ [])))

auto_join_step-UiInv : (sends : ℕ → Option ℕ) (u : Ui) → UiInv u → UiInv (auto_join_step sends u)
unfolding auto_join_step
auto_join_step-UiInv sends u v = elim (Bool-cases u.auto_join.enabled) [
  | inr e ↦ enabled_or_not u.auto_join.enabled λ on. absurd (cc)
  | inl e ↦ enabled_or_not u.auto_join.enabled λ _.
      (let w : Ui = auto_hello sends u in
        let on : w.auto_join.enabled ≡ true = auto_hello-enabled sends u ∙ e in
        let x = auto_hello-UiInv sends u v in
        either-UiInv (may_join w.client) _ w
          (auto_spawn-UiInv sends (auto_choice sends w) (auto_choice-enabled sends w ∙ on)
            (auto_choice-UiInv sends w on x))
          x)
]
  where
    stepped : Ui
    stepped =
        let w = auto_hello sends u in
        if may_join w.client then auto_spawn sends (auto_choice sends w) else w

    enabled_or_not : (b : Bool) → (b ≡ true → UiInv stepped) → UiInv (if b then stepped else u)
    enabled_or_not true h = h refl
    enabled_or_not false h = v

ask_state-UiInv : (sends : ℕ → Option ℕ) (u : Ui) → UiInv u → UiInv (ask_state sends u)
unfolding ask_state
ask_state-UiInv sends u v =
    either-UiInv (not u.client.state_request_sent) _ u (request_state-UiInv sends u v) v

-- A frame whose answers for the pump end in one that finds nothing to read.
abbrev pub Settles : Frame → Type 0
Settles f = (rs : List Ready) × (f.ready ≡ rs ++ (no_input ∷ []))

quit-UiInv : (sends : ℕ → Option ℕ) (u : Ui) → UiInv u → UiInv (quit sends u)
unfolding quit
quit-UiInv sends u v = send-UiInv sends u (text "QUIT") quit-IsUnderstood v

frame_ends :
    (sends : ℕ → Option ℕ) (f : Frame) (u : Ui)
    → Settles f
    → UiInv u
    → (t : Ui) × (frame sends f u ≡ some t) × UiInv t
unfolding frame after_pump
frame_ends sends f u (rs, e) v =
    let p = pump_client_network_ends rs u.net u.client v.input_fits v.client in
    let met : Ui = record u { net = p.after; client = p.state } in
    let w : UiInv met = record {
      input_fits = p.fits;
      client = p.inv;
      plan = v.plan;
      column = v.column;
      row = v.row;
      understood = v.understood;
    } in
    (
      handle_keys sends f.keys (ask_state sends (auto_join_step sends met)),
      rw (e, p.returns) refl,
      handle_keys-UiInv sends f.keys _ (ask_state-UiInv sends _ (auto_join_step-UiInv sends met w)),
    )

run_frames-next :
    (sends : ℕ → Option ℕ) (f : Frame) (fs : List Frame) (u w : Ui)
    → u.running ≡ true
    → frame sends f u ≡ some w
    → run_frames sends (f ∷ fs) u ≡ run_frames sends fs w
unfolding run_frames
run_frames-next sends f fs u w on e =
    ap
      (λ (b : Bool). elim b [
        | false ↦ some (quit sends u)
        | true ↦ elim (frame sends f u) [ none ↦ none | some v ↦ run_frames sends fs v ]
      ])
      on
    ∙ ap (λ (o : Option Ui). elim o [ none ↦ none | some v ↦ run_frames sends fs v ]) e

run_frames-quit :
    (sends : ℕ → Option ℕ) (f : Frame) (fs : List Frame) (u : Ui)
    → u.running ≡ false
    → run_frames sends (f ∷ fs) u ≡ some (quit sends u)
unfolding run_frames
run_frames-quit sends f fs u off =
    ap
      (λ (b : Bool). elim b [
        | false ↦ some (quit sends u)
        | true ↦ elim (frame sends f u) [ none ↦ none | some v ↦ run_frames sends fs v ]
      ])
      off

run_frames_ends :
    (sends : ℕ → Option ℕ) (fs : List Frame) (u : Ui)
    → All Settles fs
    → UiInv u
    → (t : Ui) × (run_frames sends fs u ≡ some t) × UiInv t
unfolding run_frames
run_frames_ends sends [] u h v =
    (_, refl, either-UiInv u.running u (quit sends u) v (quit-UiInv sends u v))
run_frames_ends sends (f ∷ fs) u (k, h) v = elim (Bool-cases u.running) [
  | inr e ↦ (quit sends u, run_frames-quit sends f fs u e, quit-UiInv sends u v)
  | inl e ↦
      let (w, same, x) = frame_ends sends f u k v in
      let (t, rest, y) = run_frames_ends sends fs w h x in
      (t, run_frames-next sends f fs u w e same ∙ rest, y)
]

-- From its start with accepted arguments the client returns from every series of frames in which the
-- pump meets an end of its input, whatever keys are pressed, whatever the server sends and however
-- the calls of `send_line` end. The cursor stays on the grid, every text fits its buffer, and the
-- table of players is in order. Each line that was handed to `send_line` is read by the server's
-- parser as one of these: GET_STATE, REMATCH or QUIT without arguments; HELLO whose arguments
-- are the first 31 bytes of the name field, behind its leading blanks and up to a NUL; CHOICE with
-- the kind of the plan or of the last key; REPICK with the kind of the last key; or SPAWN with the
-- column and the row of the cursor or of the plan, in this order, which the server's test for the
-- grid accepts. A kind is R, P or S, and the field, the plan, the key and the cursor are those at the
-- call.
pub client_runs :
    (sends : ℕ → Option ℕ) (fd : ℕ) (args : List Bytes) (name : Bytes) (plan : AutoJoinConfig)
    (fs : List Frame)
    → parse_args args ≡ some (name, plan)
    → All Settles fs
    → (t : Ui) × (run_frames sends fs (start sends fd name plan) ≡ some t) × UiInv t
client_runs sends fd args name plan fs e h = run_frames_ends sends fs (start sends fd name plan) h (
    start-UiInv sends fd name plan
      (Holds-some (λ r. PlanInv r.1) (parse_args args) (name, plan) (parse_args-PlanInv args) e))
