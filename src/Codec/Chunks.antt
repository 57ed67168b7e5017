-- ===== src/Codec/Chunks.antt =====
-- Streams that come in chunks.
use tmcp.Base.{
  ◌≤◌, ◌≡◌, refl, sym, ap, ◌∙◌, inl, inr, Option, none, some, List, [], ◌∷◌, ◌++◌, arith, ltb,
  nat_beq, ltb→lt, Bool-cases, length, take, length-append, nat_eq, Text, text_eq, Result, ok, err,
}
use tmcp.Errors.{Error}
use tmcp.Codec.{newline, newline_position, Codec, Frame, frame_of, max_frame_length}
use tmcp.Codec.Lines.{
  scan_lines, scan_lines_plain, scan_lines-append, newline_position-append, finish_line, add_lines,
}
use tmcp.Codec.Draining.{IsScanned, drain, awaiting, frames_of, drain-scan_lines}

-- New bytes arrive behind what the buffer holds.
abbrev pub feed : Codec → Text → Codec
feed c chunk = record c { src = c.src ++ chunk }

abbrev pub joined : List Text → Text
joined [] = []
joined (chunk ∷ chunks) = chunk ++ joined chunks

-- No unfinished line is over the maximum when a chunk ends.
abbrev pub AreShort : Text → List Text → Type 0
AreShort rest [] = length rest ≤ max_frame_length
AreShort rest (chunk ∷ chunks) =
    (length (scan_lines [] (rest ++ chunk)).1 ≤ max_frame_length)
    × AreShort (scan_lines [] (rest ++ chunk)).1 chunks

-- The codec between two chunks: the unfinished line, scanned to its end.
abbrev pub waiting : Text → Codec
waiting rest = record { next_scan_index = length rest; src = rest }

take_all : (s t : Text) → take (length s) (s ++ t) ≡ s
take_all [] t = refl
take_all (c ∷ s) t = ap (◌∷◌ c) (take_all s t)

feed-IsScanned :
    (rest chunk : Text) → newline_position rest ≡ none → IsScanned (feed (waiting rest) chunk)
feed-IsScanned rest chunk plain = record {
  within = omega (arith, length-append rest chunk);
  plain = rw (take_all rest chunk) plain;
}

pub finish_line-rest : (line : Text) (x : List Text × Text) → (finish_line line x).1 ≡ x.1
finish_line-rest [] x = refl
finish_line-rest (c ∷ s) x = refl

pub unfinished-plain :
    (line s : Text) → newline_position line ≡ none → newline_position (scan_lines line s).1 ≡ none
unfolding scan_lines
unfinished-plain line [] h = h
unfinished-plain line (c ∷ s) h = elim (Bool-cases (nat_beq c newline)) [
  | inl end ↦ rw end (
      ap newline_position (finish_line-rest line (scan_lines [] s))
      ∙ unfinished-plain [] s (unfold newline_position in refl))
  | inr other ↦ rw other (
      unfinished-plain (line ++ c ∷ []) s
        (newline_position-append line (c ∷ []) h (unfold newline_position in rw other refl)))
]

-- What came before a chunk has no newline, so it goes on.
pub scan_lines-rest :
    (rest s : Text) → newline_position rest ≡ none → scan_lines [] (rest ++ s) ≡ scan_lines rest s
scan_lines-rest rest s plain =
    scan_lines-append [] rest s ∙ rw (scan_lines_plain [] rest plain) refl

module _ {Message : Type 0} (parse : Text → Result Text Message) where
  abbrev pub prepend_frames :
      List (Frame Message)
      → Option (List (Frame Message) × Result Error Codec)
      → Option (List (Frame Message) × Result Error Codec)
  prepend_frames fs none = none
  prepend_frames fs (some (gs, end)) = some (fs ++ gs, end)

  abbrev received :
      (Codec → Option (List (Frame Message) × Result Error Codec))
      → Option (List (Frame Message) × Result Error Codec)
      → Option (List (Frame Message) × Result Error Codec)
  received next none = none
  received next (some (fs, err e)) = some (fs, err e)
  received next (some (fs, ok c)) = prepend_frames fs (next c)

  -- The chunks arrive one after the other, and the buffer is drained after each.
  unfoldable pub receive : List Text → Codec → Option (List (Frame Message) × Result Error Codec)
  receive [] c = some ([], ok c)
  receive (chunk ∷ chunks) c = received (receive chunks) (drain parse (feed c chunk))

  frames_of-append :
      (xs ys : List Text) → frames_of parse (xs ++ ys) ≡ frames_of parse xs ++ frames_of parse ys
  frames_of-append [] ys = refl
  frames_of-append (x ∷ xs) ys = ap (◌∷◌ (frame_of (parse x))) (frames_of-append xs ys)

  awaiting-waiting :
      (rest : Text) → length rest ≤ max_frame_length → awaiting parse rest ≡ ok (waiting rest)
  awaiting-waiting rest h = elim (Bool-cases (ltb max_frame_length (length rest))) [
    | inl over ↦ absurd (omega (arith, h, ltb→lt max_frame_length (length rest) over))
    | inr fits ↦ rw fits refl
  ]

  receive-scan_lines :
      (rest : Text) (chunks : List Text)
      → newline_position rest ≡ none
      → AreShort rest chunks
      → receive chunks (waiting rest)
        ≡ some (
          frames_of parse (scan_lines rest (joined chunks)).0,
          ok (waiting (scan_lines rest (joined chunks)).1),
        )
  unfolding receive
  receive-scan_lines rest [] plain short = unfold scan_lines in refl
  receive-scan_lines rest (chunk ∷ chunks) plain (short, shorts) =
      let first = scan_lines [] (rest ++ chunk) in
      let later = scan_lines first.1 (joined chunks) in
      let whole : scan_lines rest (chunk ++ joined chunks) ≡ add_lines first later =
        scan_lines-append rest chunk (joined chunks)
        ∙ ap (λ x. add_lines x (scan_lines x.1 (joined chunks)))
            (sym (scan_lines-rest rest chunk plain)) in
      ap (received (receive chunks)) (
        drain-scan_lines parse (feed (waiting rest) chunk) (feed-IsScanned rest chunk plain)
        ∙ ap (λ x. some (frames_of parse first.0, x)) (awaiting-waiting first.1 short))
      ∙ ap (prepend_frames (frames_of parse first.0)) (
          receive-scan_lines first.1 chunks
            (unfinished-plain [] (rest ++ chunk) (unfold newline_position in refl)) shorts)
      ∙ ap (λ x. some (x, ok (waiting later.1))) (sym (frames_of-append first.0 later.0))
      ∙ ap (λ x. some (frames_of parse x.0, ok (waiting x.1))) (sym whole)

-- However a stream is cut into chunks, a decoder that starts with an empty buffer gives the same
-- frames, those of the non-empty lines of the whole stream, and ends waiting for the rest of the
-- line that is unfinished; the condition is that no unfinished line is over the maximum when a
-- chunk ends.
pub receive-joined :
    {Message : Type 0} (parse : Text → Result Text Message) (chunks : List Text)
    → AreShort [] chunks
    → receive parse chunks (waiting [])
      ≡ some (
        frames_of parse (scan_lines [] (joined chunks)).0,
        ok (waiting (scan_lines [] (joined chunks)).1),
      )
receive-joined parse chunks short =
    receive-scan_lines parse [] chunks (unfold newline_position in refl) short
