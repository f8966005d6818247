-- ===== src/Client/Ui/Inv.antt =====
-- What holds of the terminal client between two keys.
use rock_paper_scissors_batt.Base.{
  none, some, ℕ, Option, if◌then◌else◌, ◌<◌, ◌≡◌, inl, inr, List, [], ◌∷◌, ◌++◌, Bool, true, false,
  not, ◌||◌, All, arith, length, length-take, leb, Bool-cases,
}
use rock_paper_scissors_batt.Base.Int.{ℤ, pos}
use rock_paper_scissors_batt.State.{Player, max_line, inbuf_size}
use rock_paper_scissors_batt.Text.Bytes.{Bytes, text, c_string}
use rock_paper_scissors_batt.Chase.Choice.{IsChoice}
use rock_paper_scissors_batt.Client.{ClientState, name_copy}
use rock_paper_scissors_batt.Client.General.{is_set}
use rock_paper_scissors_batt.Client.Inv.{ClientInv, set_status-Inv}
use rock_paper_scissors_batt.Client.Ui.{
  AutoJoinConfig, Call, Ui, with_client, origin_of, with_call, call_ended, send_command_checked,
  hello_result, maybe_send_hello,
}
use rock_paper_scissors_batt.Client.Ui.Keys.{if_sent, request_state, send_and_refresh}
use rock_paper_scissors_batt.Client.Ui.Commands.{
  IsUnderstood, get_state-IsUnderstood, hello-IsUnderstood,
}

-- A value of a coordinate on the grid.
pub data IsCell : ℤ → Type 0 where
  cell : {n : ℕ} → n < 10 → IsCell (pos n)

-- A plan that is enabled has a kind and a cell.
pub record PlanInv (a : AutoJoinConfig) : Type 0 where
  pub kind : a.enabled ≡ true → IsChoice a.choice
  pub column : a.enabled ≡ true → IsCell a.spawn_x
  pub row : a.enabled ≡ true → IsCell a.spawn_y

pub record Parts (net : Player) (c : ClientState) (a : AutoJoinConfig) (x y : ℤ) (sent : List Call)
    : Type 0 where
  pub input_fits : length net.inbuf < inbuf_size
  pub client : ClientInv c
  pub plan : PlanInv a
  pub column : IsCell x
  pub row : IsCell y
  pub understood : All (λ (k : Call). IsUnderstood k.origin k.line) sent

abbrev pub UiInv : Ui → Type 0
UiInv u = Parts u.net u.client u.auto_join u.cursor_x u.cursor_y u.sent

All-snoc :
    (ls : List Call) (l : Call)
    → All (λ (k : Call). IsUnderstood k.origin k.line) ls
    → IsUnderstood l.origin l.line
    → All (λ (k : Call). IsUnderstood k.origin k.line) (ls ++ (l ∷ []))
All-snoc [] l h k = (k, tt)
All-snoc (x ∷ ls) l (g, h) k = (g, All-snoc ls l h k)

pub with_client-UiInv : (u : Ui) (c : ClientState) → ClientInv c → UiInv u → UiInv (with_client u c)
with_client-UiInv u c w v = record {
  input_fits = v.input_fits;
  client = w;
  plan = v.plan;
  column = v.column;
  row = v.row;
  understood = v.understood;
}

with_line_sent :
    (u : Ui) (l : Bytes) (ended : Option ℕ)
    → IsUnderstood (origin_of u) l
    → UiInv u
    → UiInv (with_call u l ended)
with_line_sent u l ended k v = record {
  input_fits = v.input_fits;
  client = v.client;
  plan = v.plan;
  column = v.column;
  row = v.row;
  understood = All-snoc u.sent _ v.understood k;
}

call_ended-UiInv :
    (u : Ui) (l : Bytes) (ended : Option ℕ)
    → IsUnderstood (origin_of u) l
    → UiInv u
    → UiInv (call_ended u l ended).1
unfolding call_ended
call_ended-UiInv u l none k v = with_line_sent u l none k v
call_ended-UiInv u l (some n) k v =
    with_client-UiInv (with_call u l (some n)) _ (set_status-Inv u.client _ v.client)
      (with_line_sent u l (some n) k v)

pub send-UiInv :
    (sends : ℕ → Option ℕ) (u : Ui) (line : Bytes)
    → IsUnderstood (origin_of u) (c_string line)
    → UiInv u
    → UiInv (send_command_checked sends u line).1
unfolding send_command_checked
send-UiInv sends u line k v = elim (Bool-cases (leb max_line (length line))) [
  | inl e ↦ rw e (with_client-UiInv u _ (set_status-Inv u.client _ v.client) v)
  | inr e ↦ rw e (call_ended-UiInv u (c_string line) _ k v)
]

pub if_sent-UiInv : (flag : Bool) (r : Bool × Ui) → UiInv r.1 → UiInv (if_sent flag r)
unfolding if_sent
if_sent-UiInv flag (false, u) v = v
if_sent-UiInv flag (true, u) v = with_client-UiInv u _ v.client v

pub request_state-UiInv : (sends : ℕ → Option ℕ) (u : Ui) → UiInv u → UiInv (request_state sends u)
unfolding request_state
request_state-UiInv sends u v =
    if_sent-UiInv true (send_command_checked sends u (text "GET_STATE"))
      (send-UiInv sends u (text "GET_STATE") get_state-IsUnderstood v)

pub refresh-UiInv :
    (sends : ℕ → Option ℕ) (u : Ui) (line : Bytes)
    → IsUnderstood (origin_of u) (c_string line)
    → UiInv u
    → UiInv (send_and_refresh sends u line)
unfolding send_and_refresh
refresh-UiInv sends u line k v =
    if_sent-UiInv false (send_command_checked sends u line) (send-UiInv sends u line k v)

hello_result-UiInv : (r : Bool × Ui) → UiInv r.1 → UiInv (hello_result r)
unfolding hello_result
hello_result-UiInv (false, u) v = v
hello_result-UiInv (true, u) v = with_client-UiInv u _ (set_status-Inv _ _ v.client) v

pub hello-UiInv : (sends : ℕ → Option ℕ) (u : Ui) → UiInv u → UiInv (maybe_send_hello sends u)
unfolding maybe_send_hello
hello-UiInv sends u v =
    elim (Bool-cases (c.name_registered || (c.name_check_pending || not (is_set c.name_input)))) [
      | inl e ↦ rw e v
      | inr e ↦ rw e (
          hello_result-UiInv
            (send_command_checked sends asked (text "HELLO " ++ asked.client.pending_name))
            (send-UiInv sends asked _ (hello-IsUnderstood (origin_of asked))
              (with_client-UiInv u _ asking v)))
    ]
  where
    c : ClientState
    c = u.client

    asked : Ui
    asked = with_client u (record c { pending_name = name_copy c.name_input })

    asking : ClientInv (record c { pending_name = name_copy c.name_input })
    asking =
        let w = v.client in
        record {
          table = w.table;
          status_fits = w.status_fits;
          input_fits = w.input_fits;
          pending_fits = omega (arith, length-take 31 c.name_input);
          mine_fits = w.mine_fits;
        }

pub either-UiInv : (b : Bool) (a c : Ui) → UiInv a → UiInv c → UiInv (if b then a else c)
either-UiInv true a c va vc = va
either-UiInv false a c va vc = vc
