-- ===== src/Client/Ui/Plan.antt =====
-- The plan of the arguments: what `parse_args` accepts, and that the client keeps it.
use rock_paper_scissors_batt.Base.{
  leb, length, ℕ, ◌≡◌, refl, sym, ap, subst, ◌∙◌, inl, inr, List, [], ◌∷◌, Option, none, some, Bool,
  true, false, not, ◌&&◌, ◌||◌, arith, length-take, if◌then◌else◌, Bool-cases,
}
use rock_paper_scissors_batt.Base.Int.{ℤ, pos, negsuc}
use rock_paper_scissors_batt.State.{max_line, grid_w, grid_h}
use rock_paper_scissors_batt.Text.Bytes.{Bytes, text, c_string}
use rock_paper_scissors_batt.Text.Scan.{scan_long}
use rock_paper_scissors_batt.Chase.Choice.{IsChoice}
use rock_paper_scissors_batt.Commands.{to_upper}
use rock_paper_scissors_batt.Client.{ClientState, init_client_state}
use rock_paper_scissors_batt.Client.General.{is_set}
use rock_paper_scissors_batt.Client.Inv.{cleared-TableInv}
use rock_paper_scissors_batt.Client.Inv.Branches.{Holds, Holds-bind, Holds-some}
use rock_paper_scissors_batt.Client.Ui.{
  AutoJoinConfig, Ui, call_ended, send_command_checked, parse_choice_arg, in_range, parse_spawn_arg,
  maybe_send_hello, hello_result,
}
use rock_paper_scissors_batt.Client.Ui.Keys.{if_sent}
use rock_paper_scissors_batt.Client.Ui.Inv.{
  IsCell, cell, PlanInv, UiInv, if_sent-UiInv, request_state-UiInv, hello-UiInv,
}
use rock_paper_scissors_batt.Client.Ui.Main.{
  parse_auto_join, named, parse_args, no_auto_join, start, auto_hello, plan_sent,
}

guarded {ℓ} :
    {A : Type ℓ} (P : A → Type 0) (b : Bool) (a : A)
    → (b ≡ false → P a)
    → Holds P (if b then none else some a)
guarded P true a h = tt
guarded P false a h = h refl

parse_choice_arg-IsChoice : (value : Bytes) → Holds IsChoice (parse_choice_arg value)
unfolding parse_choice_arg
parse_choice_arg-IsChoice [] = tt
parse_choice_arg-IsChoice (c ∷ d ∷ ds) = tt
parse_choice_arg-IsChoice (c ∷ []) = guarded IsChoice _ (to_upper c) λ h. ground arith

in_range-IsCell : (r : ℤ × Bytes) → Holds IsCell (in_range (pos 10) r)
unfolding in_range
in_range-IsCell (z, c ∷ cs) = tt
in_range-IsCell (negsuc n, []) = guarded IsCell _ (negsuc n) λ h. absurd (ground arith)
in_range-IsCell (pos n, []) = guarded IsCell _ (pos n) λ h. cell (ground arith)

spawn_arg-IsCell : (value : Bytes) → Holds IsCell (parse_spawn_arg value (pos 10))
unfolding parse_spawn_arg
spawn_arg-IsCell value =
    Holds-bind IsCell (scan_long value) (in_range (pos 10)) λ r _. in_range-IsCell r

auto_join-PlanInv : (c x y : Bytes) → Holds PlanInv (parse_auto_join c x y)
unfolding parse_auto_join
auto_join-PlanInv c x y = Holds-bind PlanInv (parse_choice_arg c) _ λ kind ek.
    Holds-bind PlanInv (parse_spawn_arg x (pos grid_w)) _ λ column ex.
      Holds-bind PlanInv (parse_spawn_arg y (pos grid_h)) _ λ row ey. record {
        kind = λ _. Holds-some IsChoice (parse_choice_arg c) kind (parse_choice_arg-IsChoice c) ek;
        column = λ _. Holds-some IsCell (parse_spawn_arg x (pos 10)) column (spawn_arg-IsCell x) ex;
        row = λ _. Holds-some IsCell (parse_spawn_arg y (pos 10)) row (spawn_arg-IsCell y) ey;
      }

named-PlanInv :
    (name : Bytes) (o : Option AutoJoinConfig)
    → Holds PlanInv o
    → Holds (λ r. PlanInv r.1) (named name o)
named-PlanInv name none h = tt
named-PlanInv name (some a) h = h

none-PlanInv : PlanInv no_auto_join
none-PlanInv = record { kind = λ h. absurd (cc); column = λ h. absurd (cc); row = λ h. absurd (cc) }

pub parse_args-PlanInv : (args : List Bytes) → Holds (λ r. PlanInv r.1) (parse_args args)
unfolding parse_args
parse_args-PlanInv [] = none-PlanInv
parse_args-PlanInv (a ∷ []) = none-PlanInv
parse_args-PlanInv (a ∷ b ∷ []) = tt
parse_args-PlanInv (a ∷ b ∷ c ∷ []) =
    named-PlanInv (text "player") (parse_auto_join a b c) (auto_join-PlanInv a b c)
parse_args-PlanInv (a ∷ b ∷ c ∷ d ∷ []) =
    named-PlanInv a (parse_auto_join b c d) (auto_join-PlanInv b c d)
parse_args-PlanInv (a ∷ b ∷ c ∷ d ∷ e ∷ es) = tt

pub start-UiInv :
    (sends : ℕ → Option ℕ) (fd : ℕ) (name : Bytes) (plan : AutoJoinConfig)
    → PlanInv plan
    → UiInv (start sends fd name plan)
unfolding start init_client_state text
start-UiInv sends fd name plan p = request_state-UiInv sends _ (record {
  input_fits = omega arith;
  client = record {
    table = cleared-TableInv;
    status_fits = omega arith;
    input_fits = omega (arith, length-take 31 name);
    pending_fits = omega arith;
    mine_fits = omega arith;
  };
  plan = p;
  column = cell (omega arith);
  row = cell (omega arith);
  understood = tt;
})

with_plan : (u : Ui) (a : AutoJoinConfig) → PlanInv a → UiInv u → UiInv (record u { auto_join = a })
with_plan u a p v = record {
  input_fits = v.input_fits;
  client = v.client;
  plan = p;
  column = v.column;
  row = v.row;
  understood = v.understood;
}

-- The parts of a plan that its flags do not touch.
abbrev pub SamePlan : (AutoJoinConfig → AutoJoinConfig) → Type 0
SamePlan f = (a : AutoJoinConfig) → PlanInv a → PlanInv (f a)

pub flags_kept :
    (a b : AutoJoinConfig)
    → b ≡ record a {
      hello_sent = b.hello_sent;
      choice_sent = b.choice_sent;
      spawn_sent = b.spawn_sent;
    }
    → PlanInv a
    → PlanInv b
flags_kept a b e p =
    subst PlanInv (sym e) (record { kind = p.kind; column = p.column; row = p.row })

pub auto_hello-UiInv : (sends : ℕ → Option ℕ) (u : Ui) → UiInv u → UiInv (auto_hello sends u)
unfolding auto_hello
auto_hello-UiInv sends u v =
    elim (Bool-cases (
      not c.name_registered
      && (not c.name_check_pending && (not u.auto_join.hello_sent && is_set c.name_input)))) [
        | inr e ↦ rw e v
        | inl e ↦ rw e (
            let w = hello-UiInv sends u v in
            with_plan (maybe_send_hello sends u) _ (flags_kept _ _ refl w.plan) w)
      ]
  where
    c : ClientState
    c = u.client

pub plan_sent-UiInv :
    (f : AutoJoinConfig → AutoJoinConfig) (r : Bool × Ui)
    → SamePlan f
    → UiInv r.1
    → UiInv (plan_sent f r)
unfolding plan_sent
plan_sent-UiInv f (false, u) same v = v
plan_sent-UiInv f (true, u) same v =
    with_plan (if_sent false (true, u)) (f u.auto_join) (same u.auto_join v.plan)
      (if_sent-UiInv false (true, u) v)

call_ended-plan :
    (u : Ui) (l : Bytes) (ended : Option ℕ) → (call_ended u l ended).1.auto_join ≡ u.auto_join
unfolding call_ended
call_ended-plan u l none = refl
call_ended-plan u l (some n) = refl

pub send-plan :
    (sends : ℕ → Option ℕ) (u : Ui) (line : Bytes)
    → (send_command_checked sends u line).1.auto_join ≡ u.auto_join
unfolding send_command_checked
send-plan sends u line = elim (Bool-cases (leb max_line (length line))) [
  | inl e ↦ rw e refl
  | inr e ↦ rw e (call_ended-plan u (c_string line) _)
]

hello_result-plan : (r : Bool × Ui) → (hello_result r).auto_join ≡ r.1.auto_join
unfolding hello_result
hello_result-plan (false, u) = refl
hello_result-plan (true, u) = refl

hello-plan : (sends : ℕ → Option ℕ) (u : Ui) → (maybe_send_hello sends u).auto_join ≡ u.auto_join
unfolding maybe_send_hello
hello-plan sends u =
    elim (Bool-cases (c.name_registered || (c.name_check_pending || not (is_set c.name_input)))) [
      | inl e ↦ rw e refl
      | inr e ↦ rw e (hello_result-plan _ ∙ send-plan sends _ _)
    ]
  where
    c : ClientState
    c = u.client

pub auto_hello-enabled :
    (sends : ℕ → Option ℕ) (u : Ui) → (auto_hello sends u).auto_join.enabled ≡ u.auto_join.enabled
unfolding auto_hello
auto_hello-enabled sends u =
    elim (Bool-cases (
      not c.name_registered
      && (not c.name_check_pending && (not u.auto_join.hello_sent && is_set c.name_input)))) [
        | inr e ↦ rw e refl
        | inl e ↦ rw e (ap (λ (a : AutoJoinConfig). a.enabled) (hello-plan sends u))
      ]
  where
    c : ClientState
    c = u.client
