-- ===== src/Server/Snapshot.antt =====
-- The snapshot that `queue_game_state_for_player` of src/server_state.c queues.
use rock_paper_scissors_batt.Base.{
  ℕ, suc, ◌<◌, ◌≤◌, ◌≡◌, refl, sym, ap, ◌∙◌, inl, inr, List, [], ◌∷◌, ◌++◌, map, Bool, true, false,
  leb, All, arith, length, take, Bool-cases,
}
use mathlib.Core.List.{append-nil, append_assoc}
use rock_paper_scissors_batt.State.{Player, ServerState, player, put, max_line}
use rock_paper_scissors_batt.Text.Bytes.{Bytes, c_string}
use rock_paper_scissors_batt.Protocol.{newline, queue_line}
use rock_paper_scissors_batt.Protocol.Buffers.{queue_line_lem}
use rock_paper_scissors_batt.Protocol.Framing.{frames}
use rock_paper_scissors_batt.Server.Lines.{queue_line_checked, queue_lines, state_lines}
use rock_paper_scissors_batt.Server.{queue_game_state_for_player}

-- `p` with whole lines added to its output.
abbrev pub with_lines : Player → List Bytes → Player
with_lines p ls = record p { outbuf = p.outbuf ++ frames ls }

-- The first `n` lines were queued, and all of them if the call succeeded.
pub record Whole (p : Player) (ls : List Bytes) (r : Bool × Player) : Type 0 where
  pub n : ℕ
  pub within : n ≤ length ls
  pub queued : r.1 ≡ with_lines p (take n (map c_string ls))
  pub all : r.0 ≡ true → n ≡ length ls

nothing_queued : (p : Player) → p ≡ with_lines p []
unfolding frames
nothing_queued p = λ i. record p { outbuf = sym (append-nil p.outbuf) i }

checked :
    (p : Player) (l : Bytes)
    → let r = queue_line_checked p l in
      (r.0 ≡ true → r.1 ≡ record p { outbuf = p.outbuf ++ (c_string l ++ (newline ∷ [])) })
      × (r.0 ≡ false → r.1 ≡ p)
unfolding queue_line_checked
checked p l = elim (Bool-cases (leb max_line (length l))) [
  | inl e ↦ rw e (λ h. absurd (cc), λ h. refl)
  | inr e ↦ rw e (elim (queue_line_lem p (c_string l)) [
    | inl (good, _, _, same) ↦ (λ h. same, λ h. absurd (cc))
    | inr (bad, _, same) ↦ (λ h. absurd (cc), λ h. same)
  ])
]

queue_lines-Whole : (p : Player) (ls : List Bytes) → Whole p ls (queue_lines p ls)
unfolding queue_lines frames
queue_lines-Whole p [] = record {
  n = 0;
  within = omega arith;
  queued = nothing_queued p;
  all = λ h. refl;
}
queue_lines-Whole p (l ∷ ls) = elim (Bool-cases (queue_line_checked p l).0) [
  | inr failed ↦ rw failed (record {
    n = 0;
    within = omega arith;
    queued = (checked p l).1 failed ∙ nothing_queued p;
    all = λ h. absurd (cc);
  })
  | inl ok ↦
      let q : Player = (queue_line_checked p l).1 in
      let rest = queue_lines-Whole q ls in
      rw ok (record {
        n = suc rest.n;
        within = let w = rest.within in omega arith;
        queued =
            rest.queued
            ∙ ap (λ (u : Player). with_lines u (take rest.n (map c_string ls))) ((checked p l).0 ok)
            ∙ (λ i. record p {
              outbuf =
                  append_assoc p.outbuf (c_string l ++ (newline ∷ []))
                    (frames (take rest.n (map c_string ls))) i;
            });
        all = λ h. ap suc (rest.all h);
      })
]

checked_short :
    (p : Player) (l : Bytes) → (queue_line_checked p l).0 ≡ true → length (c_string l) < 254
unfolding queue_line_checked
checked_short p l h = elim (Bool-cases (leb max_line (length l))) [
  | inl e ↦ absurd (let bad : false ≡ true = rw e at h in cc)
  | inr e ↦
      let ok : (queue_line p (c_string l)).0 ≡ true = rw e at h in
      elim (queue_line_lem p (c_string l)) [
        | inl (_, short, _, _) ↦ short
        | inr (bad, _, _) ↦ absurd (cc)
      ]
]

-- What was queued is short enough for the wire.
pub queue_lines-short :
    (p : Player) (ls : List Bytes)
    → (queue_lines p ls).0 ≡ true
    → All (λ l. length (c_string l) < 254) ls
unfolding queue_lines
queue_lines-short p [] h = tt
queue_lines-short p (l ∷ ls) h = elim (Bool-cases (queue_line_checked p l).0) [
  | inr failed ↦ absurd (let bad : false ≡ true = rw failed at h in cc)
  | inl ok ↦ (checked_short p l ok, queue_lines-short (queue_line_checked p l).1 ls (rw ok at h))
]

-- A snapshot adds whole lines to the player's output and changes nothing else of the match: all the
-- lines of the state, in order, if the call succeeds, and otherwise the first few of them.
pub queue_game_state-Whole :
    (s : ServerState) (i : ℕ)
    → let r = queue_game_state_for_player s i in
      (q : Player) × (r.1 ≡ put s i q) × Whole (player s i) (state_lines s (player s i)) (r.0, q)
unfolding queue_game_state_for_player
queue_game_state-Whole s i =
    let r = queue_lines (player s i) (state_lines s (player s i)) in
    let w = queue_lines-Whole (player s i) (state_lines s (player s i)) in
    (r.1, refl, record { n = w.n; within = w.within; queued = w.queued; all = w.all })
