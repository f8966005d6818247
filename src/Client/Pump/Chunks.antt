-- ===== src/Client/Pump/Chunks.antt =====
-- The lines that a stream carries, in whatever pieces `recv` hands it over.
use rock_paper_scissors_batt.Base.{
  ℕ, zero, suc, ◌<◌, ◌≤◌, ◌≡◌, refl, sym, ap, subst, ◌∙◌, List, [], ◌∷◌, ◌++◌, none, some, true,
  false, All, arith, length, length-append,
}
use mathlib.Core.List.{append_assoc, append-nil}
use rock_paper_scissors_batt.Base.Int.{ℤ, pos, ltb_ℤ}
use rock_paper_scissors_batt.Float.{Float}
use rock_paper_scissors_batt.State.{Player, max_line, inbuf_size}
use rock_paper_scissors_batt.Text.Bytes.{Bytes}
use rock_paper_scissors_batt.Protocol.{
  newline, Recv, received, read_into_player_buffer, find_newline,
}
use rock_paper_scissors_batt.Protocol.Framing.{frames, pop_line-frame, pop_line-none}
use rock_paper_scissors_batt.Client.{ClientState}
use rock_paper_scissors_batt.Client.Dispatch.{handle_server_line}
use rock_paper_scissors_batt.Client.Snapshot.{handle_all}
use rock_paper_scissors_batt.Client.Snapshot.Told.{handle_all-append}
use rock_paper_scissors_batt.Client.Pump.{
  Ready, no_input, input, pop_lines, disconnected, pump_client_network,
}
use rock_paper_scissors_batt.Client.Pump.Stream.{
  IsText, NoNewline, concat, c_string-no_nul, find_newline-none, Split, stream-Split, length-frames,
  no_line_left,
}

-- What `recv` can hand over in one call.
abbrev pub IsChunk : Bytes → Type 0
IsChunk c = (0 < length c) × (length c ≤ 256)

-- A round for each piece, and one that finds nothing more.
abbrev pub arrives : Float → List Bytes → List Ready
arrives now [] = no_input ∷ []
arrives now (c ∷ cs) = input now (received c) ∷ arrives now cs

-- The whole lines at the front of the buffer are handled, and the rest stays.
pop_lines-frames :
    (n : ℕ) (now : Float) (p : Player) (s : ClientState) (ls : List Bytes) (b : Bytes)
    → All IsText ls
    → NoNewline b
    → length ls < n
    → p.inbuf ≡ frames ls ++ b
    → pop_lines n now p s ≡ some (record p { inbuf = b }, handle_all now s ls)
unfolding pop_lines frames handle_all
pop_lines-frames zero now p s ls b t f h e = absurd (omega arith)
pop_lines-frames (suc n) now p s [] b t f h e =
    rw (pop_line-none max_line p (ap (find_newline 0) e ∙ find_newline-none 0 b f), pop_lines)
      (λ i. some (record p { inbuf = e i }, s))
pop_lines-frames (suc n) now p s (l ∷ ls) b (t, ts) f h e =
    let short = t.is_line.short in
    let q : Player = record p { inbuf = frames ls ++ b } in
    rw
      (
        pop_line-frame max_line p l (frames ls ++ b) t.is_line (omega arith) (e ∙ split),
        c_string-no_nul l t.no_nul,
        pop_lines,
      )
      (pop_lines-frames n now q (handle_server_line now s l) ls b ts f (omega arith) refl)
  where
    split : ((l ++ (newline ∷ [])) ++ frames ls) ++ b ≡ l ++ (newline ∷ (frames ls ++ b))
    split =
        append_assoc (l ++ (newline ∷ [])) (frames ls) b
        ∙ append_assoc l (newline ∷ []) (frames ls ++ b)

one_round :
    (now : Float) (recv : Recv) (rs : List Ready) (p q q' : Player) (s t : ClientState) (n : ℕ)
    → ltb_ℤ (pos 0) (pos n) ≡ true
    → read_into_player_buffer recv p ≡ (pos n, q)
    → pop_lines inbuf_size now q s ≡ some (q', t)
    → pump_client_network (input now recv ∷ rs) p s ≡ pump_client_network rs q' t
unfolding pump_client_network
one_round now recv rs p q q' s t n positive e popped =
    ap
      (λ (r : ℤ × Player). elim (ltb_ℤ (pos 0) r.0) [
        | false ↦ some (r.1, disconnected s)
        | true ↦ elim (pop_lines inbuf_size now r.1 s) [
          | none ↦ none
          | some (q, t) ↦ pump_client_network rs q t
        ]
      ])
      e
    ∙ rw (positive, popped) refl

read_chunk :
    (p : Player) (c : Bytes)
    → IsChunk c
    → length p.inbuf < 254
    → read_into_player_buffer (received c) p ≡ (pos (length c), record p { inbuf = p.inbuf ++ c })
unfolding read_into_player_buffer
read_chunk p c (some_byte, fits) short = ground (arith, length-append p.inbuf c)

-- Lines sent one after the other are handled whole, in order and once each, however `recv` cuts the
-- stream of their bytes into pieces of 1 to 256 bytes, while the clock stands: a line has at most
-- 253 bytes, no newline and no NUL, and does not end in a carriage return.
pub pump_chunks :
    (now : Float) (cs ls : List Bytes) (p : Player) (s : ClientState)
    → All IsChunk cs
    → All IsText ls
    → length p.inbuf < 254
    → NoNewline p.inbuf
    → p.inbuf ++ concat cs ≡ frames ls
    → pump_client_network (arrives now cs) p s ≡ some (record p { inbuf = [] }, handle_all now s ls)
unfolding pump_client_network handle_all frames
pump_chunks now [] ls p s c t short f e = λ i. some (record p { inbuf = emptied i }, handled i)
  where
    whole : p.inbuf ≡ frames ls
    whole = sym (append-nil p.inbuf) ∙ e

    none_left : ls ≡ []
    none_left = no_line_left ls (subst NoNewline whole f)

    emptied : p.inbuf ≡ []
    emptied = whole ∙ ap frames none_left

    handled : s ≡ handle_all now s ls
    handled = sym (ap (handle_all now s) none_left)
pump_chunks now (c ∷ cs) ls p s (k, ks) t short f e =
    one_round now (received c) (arrives now cs) p (record p { inbuf = p.inbuf ++ c }) q s
      (handle_all now s split.done) (length c) positive (read_chunk p c k short) popped
    ∙ (pump_chunks now cs split.left q (handle_all now s split.done) ks split.texts_left split.short
          split.open_line split.more
        ∙ λ i. some (record p { inbuf = [] }, handled i))
  where
    positive : ltb_ℤ (pos 0) (pos (length c)) ≡ true
    positive = let n = k.0 in ground arith

    split : Split (p.inbuf ++ c) (concat cs) ls
    split = stream-Split (p.inbuf ++ c) (concat cs) ls t (append_assoc p.inbuf c (concat cs) ∙ e)

    q : Player
    q = record p { inbuf = split.part }

    few : length split.done < inbuf_size
    few =
        let n : length (p.inbuf ++ c) ≡ length (frames split.done ++ split.part) =
          ap length split.read in
        let m = k.1 in
        omega (
          arith,
          length-append p.inbuf c,
          length-append (frames split.done) split.part,
          length-frames split.done,
        )

    popped :
        pop_lines inbuf_size now (record p { inbuf = p.inbuf ++ c }) s
        ≡ some (q, handle_all now s split.done)
    popped =
        pop_lines-frames inbuf_size now (record p { inbuf = p.inbuf ++ c }) s split.done split.part
          split.texts split.open_line few split.read

    handled : handle_all now (handle_all now s split.done) split.left ≡ handle_all now s ls
    handled =
        sym (handle_all-append now s split.done split.left)
        ∙ ap (handle_all now s) (sym split.lines)
