-- ===== src/Protocol/Flush.antt =====
-- `flush_player_output` of src/protocol.c and the bytes that it sends.
use rock_paper_scissors_batt.Base.{
  ℕ, zero, suc, ◌<◌, ◌≤◌, ◌≡◌, ◌≢◌, refl, ap, ◌∙◌, List, [], ◌∷◌, ◌++◌, Option, none, some, true,
  false, arith, ltb, length, take, drop, length-drop, Bool-cases, lt→ltb, inl, inr, subst,
}
use mathlib.Core.List.{append_assoc}
use rock_paper_scissors_batt.State.{Player}
use rock_paper_scissors_batt.Text.Bytes.{Bytes}
use rock_paper_scissors_batt.Protocol.{
  Send, sent, send_would_block, send_error, Flushed, all_flushed, would_block, broken, FlushRun,
  on_wire, map_run, ends, player_has_pending_output, flush_player_output,
}

-- How a run of the loop from player `p` ends.
pub record FlushSpec (p : Player) (r : FlushRun) : Type 0 where
  pub stream : r.wire ++ r.after.outbuf ≡ p.outbuf
  pub same : r.after ≡ record p { outbuf = r.after.outbuf }
  pub emptied : r.result ≡ all_flushed → r.after.outbuf ≡ []
  pub pending : r.result ≢ all_flushed → 0 < length r.after.outbuf

take-append-drop : (n : ℕ) (xs : Bytes) → take n xs ++ drop n xs ≡ xs
take-append-drop zero xs = refl
take-append-drop (suc n) [] = refl
take-append-drop (suc n) (x ∷ xs) = ap (λ ys. x ∷ ys) (take-append-drop n xs)

abbrev Holds : Player → Option FlushRun → Type 0
Holds p none = Unit
Holds p (some r) = FlushSpec p r

ends_flushed : (p : Player) → player_has_pending_output p ≡ false → Holds p (ends all_flushed p)
unfolding player_has_pending_output
ends_flushed p h = record {
  stream = refl;
  same = refl;
  emptied = λ e. nothing p.outbuf (ground arith);
  pending = λ ne. absurd (ne refl);
}
  where
    nothing : (xs : Bytes) → length xs ≡ 0 → xs ≡ []
    nothing [] e = refl
    nothing (x ∷ xs) e = absurd (omega arith)

ends_pending :
    (p : Player) (f : Flushed)
    → f ≢ all_flushed
    → player_has_pending_output p ≡ true
    → Holds p (ends f p)
unfolding player_has_pending_output
ends_pending p f ne h = record {
  stream = refl;
  same = refl;
  emptied = λ e. absurd (ne e);
  pending = λ _. ground arith;
}

map_run-Holds :
    (p : Player) (n : ℕ) (r : Option FlushRun)
    → Holds (record p { outbuf = drop n p.outbuf }) r
    → Holds p (map_run (take n p.outbuf) r)
map_run-Holds p n none h = tt
map_run-Holds p n (some r) h = record {
  stream =
      append_assoc (take n p.outbuf) r.wire r.after.outbuf
      ∙ ap (λ b. take n p.outbuf ++ b) h.stream
      ∙ take-append-drop n p.outbuf;
  same = h.same;
  emptied = h.emptied;
  pending = h.pending;
}

flush-Holds : (rcs : List Send) (p : Player) → Holds p (flush_player_output rcs p)
unfolding flush_player_output
flush-Holds [] p = elim (Bool-cases (player_has_pending_output p)) [
  | inl e ↦ rw e tt
  | inr e ↦ rw e (ends_flushed p e)
]
flush-Holds (sent zero ∷ rcs) p = elim (Bool-cases (player_has_pending_output p)) [
  | inl e ↦ rw (e, flush_player_output) (ends_pending p broken (λ e. cc) e)
  | inr e ↦ rw (e, flush_player_output) (ends_flushed p e)
]
flush-Holds (sent (suc n) ∷ rcs) p = elim (Bool-cases (player_has_pending_output p)) [
  | inl e ↦
      rw (e, flush_player_output)
        (rw (lt→ltb 0 (suc n) (omega arith)) (
          map_run-Holds p (suc n) _
            (flush-Holds rcs (record p { outbuf = drop (suc n) p.outbuf }))))
  | inr e ↦ rw (e, flush_player_output) (ends_flushed p e)
]
flush-Holds (send_would_block ∷ rcs) p = elim (Bool-cases (player_has_pending_output p)) [
  | inl e ↦ rw (e, flush_player_output) (ends_pending p would_block (λ e. cc) e)
  | inr e ↦ rw (e, flush_player_output) (ends_flushed p e)
]
flush-Holds (send_error ∷ rcs) p = elim (Bool-cases (player_has_pending_output p)) [
  | inl e ↦ rw (e, flush_player_output) (ends_pending p broken (λ e. cc) e)
  | inr e ↦ rw (e, flush_player_output) (ends_flushed p e)
]

-- Whatever `send` answers, the bytes that it took and those still buffered are, in order, the bytes
-- that were buffered; nothing else of the player changes; and the result is 1 exactly when nothing
-- is left.
pub flush_player_output-FlushSpec :
    (rcs : List Send) (p : Player) (r : FlushRun)
    → flush_player_output rcs p ≡ some r
    → FlushSpec p r
flush_player_output-FlushSpec rcs p r e = subst (Holds p) e (flush-Holds rcs p)

map_run-some :
    (b : Bytes) (m : Option FlushRun)
    → (r : FlushRun) × (m ≡ some r)
    → (r : FlushRun) × (map_run b m ≡ some r)
map_run-some b m (r, e) = (on_wire b r, ap (map_run b) e)

flush_done :
    (rcs : List Send) (p : Player)
    → player_has_pending_output p ≡ false
    → flush_player_output rcs p ≡ ends all_flushed p
unfolding flush_player_output
flush_done [] p e = rw (e, flush_player_output)
flush_done (rc ∷ rcs) p e = rw (e, flush_player_output)

length_pos : (p : Player) → player_has_pending_output p ≡ true → 0 < length p.outbuf
unfolding player_has_pending_output
length_pos p e = ground arith

-- The loop ends: with as many results of `send` as there are bytes it always returns, since each
-- round that goes on takes at least one byte off the buffer.
pub flush_player_output_ends :
    (rcs : List Send) (p : Player)
    → length p.outbuf ≤ length rcs
    → (r : FlushRun) × (flush_player_output rcs p ≡ some r)
unfolding flush_player_output
flush_player_output_ends [] p h = elim (Bool-cases (player_has_pending_output p)) [
  | inl e ↦ absurd (omega (arith, length_pos p e))
  | inr e ↦ (_, flush_done [] p e)
]
flush_player_output_ends (rc ∷ rcs) p h = elim (Bool-cases (player_has_pending_output p)) [
  | inr e ↦ (_, flush_done (rc ∷ rcs) p e)
  | inl e ↦
      rw (e, flush_player_output)
        (go rc λ n.
          flush_player_output_ends rcs (record p { outbuf = drop (suc n) p.outbuf })
            (omega (arith, length-drop (suc n) p.outbuf, length_pos p e)))
]
  where
    go :
        (rc : Send)
        → ((n : ℕ)
            → (r : FlushRun) × (flush_player_output rcs
                  (record p { outbuf = drop (suc n) p.outbuf })
                ≡ some r))
        → (r : FlushRun) × (elim rc [
          | sent n ↦ elim (ltb 0 n) [
            | true ↦
                map_run
                  (take n p.outbuf)
                  (flush_player_output rcs (record p { outbuf = drop n p.outbuf }))
            | false ↦ ends broken p
          ]
          | send_would_block ↦ ends would_block p
          | send_error ↦ ends broken p
        ]
            ≡ some r)
    go (sent zero) ih = (_, refl)
    go (sent (suc n)) ih =
        rw (lt→ltb 0 (suc n) (omega arith)) (map_run-some (take (suc n) p.outbuf) _ (ih n))
    go send_would_block ih = (_, refl)
    go send_error ih = (_, refl)
