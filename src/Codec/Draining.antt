-- ===== src/Codec/Draining.antt =====
-- Decoding a buffer until it holds no further frame, and a stream that comes in chunks.
use tmcp.Base.{
  ℕ, zero, suc, ◌+◌, ◌-◌, ◌≤◌, ◌<◌, ◌≡◌, refl, sym, ap, ◌∙◌, subst, inl, inr, Bool, true, false,
  Option, none, some, List, [], ◌∷◌, ◌++◌, map, arith, ltb, leb, if◌then◌else◌, Bool-cases,
  Option-cases, length, take, drop, is_empty, length-append, take-append-drop, nat_eq, Text,
  text_eq, Result, ok, err, decimal,
}
use mathlib.Core.List.{append_assoc}
use tmcp.Errors.{Error}
use tmcp.Codec.{
  newline, newline_position, Codec, Frame, frame_of, max_frame_length, oversized_incoming,
  decode_partial, decode_loop, decode, decode_line,
}
use tmcp.Codec.Lines.{
  scan_lines, scan_lines_plain, scan_lines_line, newline_position-append, newline_position-some,
}

-- The index is in the buffer, and no newline stands before it; so the slice never panics.
pub record IsScanned (c : Codec) : Type 0 where
  pub within : c.next_scan_index ≤ length c.src
  pub plain : newline_position (take c.next_scan_index c.src) ≡ none

length-take : (n : ℕ) (s : Text) → n ≤ length s → length (take n s) ≡ n
length-take zero s h = refl
length-take (suc n) [] h = absurd (omega (arith, h))
length-take (suc n) (c ∷ s) h = ap suc (length-take n s (omega (arith, h)))

take-length : (s t : Text) → take (length s) (s ++ t) ≡ s
take-length [] t = refl
take-length (c ∷ s) t = ap (◌∷◌ c) (take-length s t)

drop-length : (s t : Text) → drop (length s) (s ++ t) ≡ t
drop-length [] t = refl
drop-length (c ∷ s) t = drop-length s t

line_end :
    (c : Codec) (offset : ℕ) (first rest : Text)
    → c.src ≡ first ++ newline ∷ rest
    → length first ≡ c.next_scan_index + offset
    → (take (c.next_scan_index + offset + 1) c.src ≡ first ++ newline ∷ [])
      × (drop (c.next_scan_index + offset + 1) c.src ≡ rest)
line_end c offset first rest split size =
    let line = first ++ newline ∷ [] in
    let whole : c.src ≡ line ++ rest = split ∙ sym (append_assoc first (newline ∷ []) rest) in
    let end : length line ≡ c.next_scan_index + offset + 1 =
      omega (arith, size, length-append first (newline ∷ [])) in
    (
      subst (λ n. take n c.src ≡ line) end (rw whole (take-length line rest)),
      subst (λ n. drop n c.src ≡ rest) end (rw whole (drop-length line rest)),
    )

-- What is in a buffer: no newline, or a first line.
pub data Content (c : Codec) : Type 0 where
  unfinished :
      newline_position (drop c.next_scan_index c.src) ≡ none
      → newline_position c.src ≡ none
      → Content c
  first_line :
      (offset : ℕ) (first rest : Text)
      → newline_position (drop c.next_scan_index c.src) ≡ some offset
      → c.src ≡ first ++ newline ∷ rest
      → newline_position first ≡ none
      → length first ≡ c.next_scan_index + offset
      → Content c

pub content : (c : Codec) → IsScanned c → Content c
content c w =
    let before = take c.next_scan_index c.src in
    let behind = drop c.next_scan_index c.src in
    let whole : before ++ behind ≡ c.src = take-append-drop c.next_scan_index c.src in
    elim (Option-cases (newline_position behind)) [
      | inl absent ↦ unfinished absent (
          subst (λ s. newline_position s ≡ none) whole
            (newline_position-append before behind w.plain absent))
      | inr (offset, found) ↦
          let (tail, rest, split, size, plain) = newline_position-some behind offset found in
          first_line offset (before ++ tail) rest found
            (sym whole
              ∙ ap (λ s. before ++ s) split
              ∙ sym (append_assoc before tail (newline ∷ rest)))
            (newline_position-append before tail w.plain plain)
            (omega (
              arith,
              length-append before tail,
              size,
              length-take c.next_scan_index c.src w.within,
            ))
    ]

abbrev pub at_start : Text → Codec
at_start s = record { next_scan_index = 0; src = s }

at_start-IsScanned : (s : Text) → IsScanned (at_start s)
at_start-IsScanned s = record { within = omega arith; plain = unfold newline_position in refl }

module _ {Message : Type 0} (parse : Text → Result Text Message) where
  -- What a call of the decoder does to a buffer, by the reference.
  data Decoded (fuel : ℕ) (c : Codec) : Type 0 where
    stopped :
        (c' : Codec)
        → scan_lines [] c.src ≡ ([], c'.src)
        → IsScanned c'
        → newline_position c'.src ≡ none
        → decode_loop parse fuel c ≡ some (decode_partial c')
        → Decoded fuel c
    framed :
        (line rest : Text)
        → scan_lines [] c.src ≡ (line ∷ (scan_lines [] rest).0, (scan_lines [] rest).1)
        → length rest < length c.src
        → decode_loop parse fuel c ≡ some (ok (some (frame_of (parse line))), at_start rest)
        → Decoded fuel c

  decode_line_lem :
      (first : Text) (rest : Codec) (next : Option (Result Error (Option (Frame Message)) × Codec))
      → decode_line parse (first ++ newline ∷ []) rest next
        ≡ (if is_empty first then next else some (ok (some (frame_of (parse first))), rest))
  unfolding decode_line
  decode_line_lem [] rest next = refl
  decode_line_lem (b ∷ s) rest next =
      let line = (b ∷ s) ++ newline ∷ [] in
      let size : length line ≡ length (b ∷ s) + 1 = length-append (b ∷ s) (newline ∷ []) in
      let longer : leb (length line) 1 ≡ false = ground (arith, size) in
      let shorter : length (b ∷ s) ≡ length line - 1 = omega (arith, size) in
      let cut : take (length line - 1) line ≡ b ∷ s =
        subst (λ n. take n line ≡ b ∷ s) shorter (take-length (b ∷ s) (newline ∷ [])) in
      subst
        (λ z.
          (if z
            then next
            else some (ok (some (frame_of (parse (take (length line - 1) line)))), rest))
          ≡ some (ok (some (frame_of (parse (b ∷ s)))), rest))
        (sym longer) (ap (λ z. some (ok (some (frame_of (parse z))), rest)) cut)

  decode_first :
      (fuel : ℕ) (c : Codec) (offset : ℕ) (first rest : Text)
      → newline_position (drop c.next_scan_index c.src) ≡ some offset
      → c.src ≡ first ++ newline ∷ rest
      → length first ≡ c.next_scan_index + offset
      → decode_loop parse (suc fuel) c ≡ (
          if is_empty first
          then decode_loop parse fuel (at_start rest)
          else some (ok (some (frame_of (parse first))), at_start rest))
  unfolding decode_loop
  decode_first fuel c offset first rest found split size =
      let (taken, dropped) = line_end c offset first rest split size in
      rw (found, decode_loop)
        (subst2
          (λ line s. decode_line parse line (at_start s) (decode_loop parse fuel (at_start s)) ≡ (
            if is_empty first
            then decode_loop parse fuel (at_start rest)
            else some (ok (some (frame_of (parse first))), at_start rest)))
          (sym taken) (sym dropped)
          (decode_line_lem first (at_start rest) (decode_loop parse fuel (at_start rest))))
    where
      subst2 : (P : Text → Text → Type 0) {x x' y y' : Text} → x ≡ x' → y ≡ y' → P x y → P x' y'
      subst2 P {x} {x'} {y} {y'} e e' p = subst (λ z. P z y') e (subst (λ z. P x z) e' p)

  decode_loop-Decoded : (fuel : ℕ) (c : Codec) → IsScanned c → length c.src < fuel → Decoded fuel c
  unfolding decode_loop decimal
  decode_loop-Decoded zero c w h = absurd (omega (arith, h))
  decode_loop-Decoded (suc fuel) c w h = elim (content c w) [
    | unfinished absent plain ↦
        stopped c (scan_lines_plain [] c.src plain) w plain (rw (absent, decode_loop) refl)
    | first_line offset first rest found split plain size ↦
        let whole = ap (scan_lines []) split ∙ scan_lines_line [] first rest plain in
        let shorter : length rest < length c.src =
          omega (arith, ap length split, length-append first (newline ∷ rest)) in
        let run = decode_first fuel c offset first rest found split size in
        elim (Bool-cases (is_empty first)) [
          | inr full ↦ framed first rest (whole ∙ rw full refl) shorter (run ∙ rw full refl)
          | inl none_before ↦
              let whole' = whole ∙ rw none_before refl in
              let run' = run ∙ rw none_before refl in
              elim (decode_loop-Decoded fuel (at_start rest) (at_start-IsScanned rest)
                (omega (arith, h, shorter))) [
                  | stopped c' e w' p r ↦ stopped c' (whole' ∙ e) w' p (run' ∙ r)
                  | framed l rest' e lt r ↦
                      framed l rest' (whole' ∙ e) (omega (arith, lt, shorter)) (run' ∙ r)
                ]
        ]
  ]

  -- One frame in front of what is drained after it.
  abbrev pub prepend_frame :
      Frame Message
      → Option (List (Frame Message) × Result Error Codec)
      → Option (List (Frame Message) × Result Error Codec)
  prepend_frame f none = none
  prepend_frame f (some (fs, end)) = some (f ∷ fs, end)

  abbrev drained :
      (Codec → Option (List (Frame Message) × Result Error Codec))
      → Option (Result Error (Option (Frame Message)) × Codec)
      → Option (List (Frame Message) × Result Error Codec)
  drained next none = none
  drained next (some (err e, c)) = some ([], err e)
  drained next (some (ok none, c)) = some ([], ok c)
  drained next (some (ok (some f), c)) = prepend_frame f (next c)

  -- Decoding until the buffer holds no further frame: the frames, and the codec that waits for
  -- more bytes or the error that ends the stream. `none` means that fuel ran out.
  unfoldable pub drain_loop : ℕ → Codec → Option (List (Frame Message) × Result Error Codec)
  drain_loop zero c = none
  drain_loop (suc fuel) c = drained (drain_loop fuel) (decode parse c)

  unfoldable pub drain : Codec → Option (List (Frame Message) × Result Error Codec)
  unfolding drain_loop
  drain c = drain_loop (suc (length c.src)) c

  -- What the reference says of it.
  abbrev pub awaiting : Text → Result Error Codec
  awaiting rest =
      if ltb max_frame_length (length rest)
      then err (oversized_incoming (length rest))
      else ok (record { next_scan_index = length rest; src = rest })

  abbrev pub frames_of : List Text → List (Frame Message)
  frames_of lines = map (λ line. frame_of (parse line)) lines

  drained-awaiting :
      (next : Codec → Option (List (Frame Message) × Result Error Codec)) (b : Bool) (e : Error)
      (c c' : Codec)
      → drained next (some (if b then (err e, c) else (ok none, c')))
        ≡ some ([], if b then err e else ok c')
  drained-awaiting next true e c c' = refl
  drained-awaiting next false e c c' = refl

  drain_loop-scan_lines :
      (fuel : ℕ) (c : Codec)
      → IsScanned c
      → length c.src < fuel
      → drain_loop fuel c
        ≡ some (frames_of (scan_lines [] c.src).0, awaiting (scan_lines [] c.src).1)
  unfolding drain_loop decode
  drain_loop-scan_lines zero c w h = absurd (omega (arith, h))
  drain_loop-scan_lines (suc fuel) c w h =
      elim (decode_loop-Decoded (suc (length c.src)) c w (omega arith)) [
        | framed line rest e lt r ↦
            ap (drained (drain_loop fuel)) r
            ∙ ap (prepend_frame (frame_of (parse line))) (
                drain_loop-scan_lines fuel (at_start rest) (at_start-IsScanned rest)
                  (omega (arith, h, lt)))
            ∙ ap (λ x. some (frames_of x.0, awaiting x.1)) (sym e)
        | stopped c' e w' p r ↦
            ap (drained (drain_loop fuel)) r
            ∙ drained-awaiting (drain_loop fuel) (ltb max_frame_length (length c'.src)) _ c' _
            ∙ ap (λ x. some (frames_of x.0, awaiting x.1)) (sym e)
      ]

-- Decoding a buffer again and again always ends. It gives the frames of the non-empty lines that
-- the buffer completes, in order; then the decoder waits for the rest of the unfinished line, or
-- fails if that line is over the maximum. The condition is that the index from which the scan
-- resumes is in the buffer and no newline stands before it.
pub drain-scan_lines :
    {Message : Type 0} (parse : Text → Result Text Message) (c : Codec)
    → IsScanned c
    → drain parse c
      ≡ some (frames_of parse (scan_lines [] c.src).0, awaiting parse (scan_lines [] c.src).1)
unfolding drain
drain-scan_lines parse c w = drain_loop-scan_lines parse (suc (length c.src)) c w (omega arith)
