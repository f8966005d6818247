-- ===== src/Protocol/SendLine.antt =====
-- The client's blocking `send_line` of src/protocol.c.
use rock_paper_scissors_batt.Base.{
  ℕ, zero, suc, ◌-◌, ◌<◌, ◌≤◌, ◌≡◌, refl, sym, ap, ◌∙◌, inl, inr, List, [], ◌∷◌, ◌++◌, Option, some,
  true, false, leb, ltb, ltb→lt, arith, length, length-append, length-drop, take, drop, Bool-cases,
}
use mathlib.Core.List.{append_assoc}
use rock_paper_scissors_batt.State.{max_line}
use rock_paper_scissors_batt.Text.Bytes.{Bytes}
use rock_paper_scissors_batt.Protocol.{
  newline, Send, sent, send_would_block, send_error, SendRun, gives, map_send, send_rest, send_line,
}

-- A run of the loop over `bs`: all of it was taken if it returns 0, and its beginning otherwise.
pub record Sends (bs : Bytes) (o : Option SendRun) : Type 0 where
  pub run : SendRun
  pub returns : o ≡ some run
  pub unsent : Bytes
  pub in_order : bs ≡ run.wire ++ unsent
  pub whole : run.ok ≡ true → unsent ≡ []

take-drop : (n : ℕ) (xs : Bytes) → xs ≡ take n xs ++ drop n xs
take-drop zero xs = refl
take-drop (suc n) [] = refl
take-drop (suc n) (x ∷ xs) = ap (◌∷◌ x) (take-drop n xs)

fails : (bs : Bytes) → Sends bs (gives false)
fails bs = record {
  run = record { ok = false; wire = [] };
  returns = refl;
  unsent = bs;
  in_order = refl;
  whole = λ h. absurd (cc);
}

more_sent :
    (n : ℕ) (bs : Bytes) {o : Option SendRun}
    → Sends (drop n bs) o
    → Sends bs (map_send (take n bs) o)
more_sent n bs s = record {
  run = record s.run { wire = take n bs ++ s.run.wire };
  returns = ap (map_send (take n bs)) s.returns;
  unsent = s.unsent;
  in_order =
      take-drop n bs
      ∙ ap (λ (r : Bytes). take n bs ++ r) s.in_order
      ∙ sym (append_assoc (take n bs) s.run.wire s.unsent);
  whole = s.whole;
}

send_rest-Sends :
    (rcs : List Send) (bs : Bytes) → length bs ≤ length rcs → Sends bs (send_rest rcs bs)
unfolding send_rest
send_rest-Sends rcs [] h = record {
  run = record { ok = true; wire = [] };
  returns = refl;
  unsent = [];
  in_order = refl;
  whole = λ _. refl;
}
send_rest-Sends [] (b ∷ bs) h = absurd (omega arith)
send_rest-Sends (send_would_block ∷ rcs) (b ∷ bs) h = fails (b ∷ bs)
send_rest-Sends (send_error ∷ rcs) (b ∷ bs) h = fails (b ∷ bs)
send_rest-Sends (sent n ∷ rcs) (b ∷ bs) h = elim (Bool-cases (ltb 0 n)) [
  | inr e ↦ rw (e, send_rest) (fails (b ∷ bs))
  | inl e ↦
      let positive = ltb→lt 0 n e in
      rw (e, send_rest)
        (more_sent n (b ∷ bs)
          (send_rest-Sends rcs (drop n (b ∷ bs)) (omega (arith, length-drop n (b ∷ bs)))))
]

-- `send_line` returns, after at most as many calls of `send` as there are bytes with the newline. If
-- it returns 0, the calls took the whole line and its newline, and otherwise a beginning of it, in
-- order and nothing else; a line of 254 bytes or more is refused before any byte is sent.
pub send_line-Sends :
    (rcs : List Send) (line : Bytes)
    → length line < length rcs
    → Sends (line ++ (newline ∷ [])) (send_line rcs line)
      × (254 ≤ length line → send_line rcs line ≡ gives false)
unfolding send_line
send_line-Sends rcs line h = elim (Bool-cases (leb (max_line - 2) (length line))) [
  | inl e ↦ rw e (fails (line ++ (newline ∷ [])), λ _. refl)
  | inr e ↦ rw e (
    send_rest-Sends rcs (line ++ (newline ∷ [])) (omega (arith, length-append line (newline ∷ []))),
    λ k. absurd (ground arith),
  )
]
