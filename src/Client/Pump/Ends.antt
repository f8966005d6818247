-- ===== src/Client/Pump/Ends.antt =====
-- The loops of `pump_client_network` return.
use rock_paper_scissors_batt.Base.{
  ℕ, zero, suc, ◌<◌, ◌≡◌, refl, ap, ◌∙◌, inl, inr, List, [], ◌∷◌, ◌++◌, Option, some, arith, length,
  Bool-cases, length-append, Option-cases,
}
use rock_paper_scissors_batt.Base.Int.{pos, ltb_ℤ}
use rock_paper_scissors_batt.Float.{Float}
use rock_paper_scissors_batt.State.{Player, max_line, inbuf_size}
use rock_paper_scissors_batt.Text.Bytes.{c_string}
use rock_paper_scissors_batt.Protocol.{
  Recv, received, recv_would_block, recv_error, read_into_player_buffer, pop_line,
}
use rock_paper_scissors_batt.Protocol.Buffers.{pop_line_bounds}
use rock_paper_scissors_batt.Client.{ClientState}
use rock_paper_scissors_batt.Client.Dispatch.{handle_server_line}
use rock_paper_scissors_batt.Client.Inv.{ClientInv, set_status-Inv}
use rock_paper_scissors_batt.Client.Inv.Lines.{handle_server_line-ClientInv}
use rock_paper_scissors_batt.Client.Pump.{
  Ready, select_interrupted, select_failed, no_input, input, pop_lines, disconnected,
  pump_client_network,
}

-- A return with the connection as it was but for its input, and the state in order.
pub record Pumped (p : Player) (r : Option (Player × ClientState)) : Type 0 where
  pub after : Player
  pub state : ClientState
  pub returns : r ≡ some (after, state)
  pub same : after ≡ record p { inbuf = after.inbuf }
  pub fits : length after.inbuf < inbuf_size
  pub inv : ClientInv state

stopped :
    (p : Player) (s : ClientState)
    → length p.inbuf < inbuf_size
    → ClientInv s
    → Pumped p (some (p, s))
stopped p s f v = record { after = p; state = s; returns = refl; same = refl; fits = f; inv = v }

-- More rounds behind one that changed only the input.
Pumped-after :
    {p q : Player} {r : Option (Player × ClientState)}
    → q ≡ record p { inbuf = q.inbuf }
    → Pumped q r
    → Pumped p r
Pumped-after same k = record {
  after = k.after;
  state = k.state;
  returns = k.returns;
  same = k.same ∙ ap (λ (u : Player). record u { inbuf = k.after.inbuf }) same;
  fits = k.fits;
  inv = k.inv;
}

pub pop_lines_ends :
    (n : ℕ) (now : Float) (p : Player) (s : ClientState)
    → length p.inbuf < n
    → length p.inbuf < inbuf_size
    → ClientInv s
    → Pumped p (pop_lines n now p s)
unfolding pop_lines
pop_lines_ends zero now p s h f v = absurd (omega arith)
pop_lines_ends (suc n) now p s h f v = elim (Option-cases (pop_line max_line p)) [
  | inl e ↦ rw (e, pop_lines) (stopped p s f v)
  | inr ((line, q), e) ↦
      let (_, shorter, same) = pop_line_bounds max_line p q line (omega arith) e in
      let rest =
        pop_lines_ends n now q (handle_server_line now s (c_string line)) (omega arith)
          (omega arith) (handle_server_line-ClientInv now s (c_string line) v) in
      rw (e, pop_lines) (Pumped-after same rest)
]

read_same :
    (r : Recv) (p : Player)
    → (read_into_player_buffer r p).1 ≡ record p { inbuf = (read_into_player_buffer r p).1.inbuf }
unfolding read_into_player_buffer
read_same (received bytes) p = ground arith
read_same recv_would_block p = refl
read_same recv_error p = refl

read_fits :
    (r : Recv) (p : Player)
    → length p.inbuf < inbuf_size
    → length (read_into_player_buffer r p).1.inbuf < inbuf_size
unfolding read_into_player_buffer
read_fits (received bytes) p f = ground (arith, length-append p.inbuf bytes)
read_fits recv_would_block p f = f
read_fits recv_error p f = f

disconnected-ClientInv : (s : ClientState) → ClientInv s → ClientInv (disconnected s)
unfolding disconnected
disconnected-ClientInv s v = set_status-Inv s _ v

-- Where the answers end in one that finds nothing to read, whatever came before it, the loop of the
-- pump returns: with the connection as it was but for its input, which has room in its buffer, with
-- every text of the client's state in its own buffer, and with the table in order.
pub pump_client_network_ends :
    (rs : List Ready) (p : Player) (s : ClientState)
    → length p.inbuf < inbuf_size
    → ClientInv s
    → Pumped p (pump_client_network (rs ++ (no_input ∷ [])) p s)
unfolding pump_client_network
pump_client_network_ends [] p s f v = stopped p s f v
pump_client_network_ends (select_interrupted ∷ rs) p s f v = pump_client_network_ends rs p s f v
pump_client_network_ends (select_failed ∷ rs) p s f v = stopped p s f v
pump_client_network_ends (no_input ∷ rs) p s f v = stopped p s f v
pump_client_network_ends (input now recv ∷ rs) p s f v =
    Pumped-after (read_same recv p)
      (elim (Bool-cases (ltb_ℤ (pos 0) (read_into_player_buffer recv p).0)) [
        | inr e ↦
            rw (e, pump_client_network)
              (stopped q _ (read_fits recv p f) (disconnected-ClientInv s v))
        | inl e ↦
            let k = pop_lines_ends inbuf_size now q s (read_fits recv p f) (read_fits recv p f) v in
            rw (e, k.returns, pump_client_network)
              (Pumped-after k.same (pump_client_network_ends rs k.after k.state k.fits k.inv))
      ])
  where
    q : Player
    q = (read_into_player_buffer recv p).1
