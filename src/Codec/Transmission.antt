-- ===== src/Codec/Transmission.antt =====
-- From the encoder of one side to the decoder of the other.
use tmcp.Base.{
  ℕ, ◌≤◌, ◌<◌, ◌≡◌, refl, sym, ap, ◌∙◌, subst, ◌⊎◌, inl, inr, false, none, some, List, [], ◌∷◌,
  ◌++◌, map, arith, leb, Bool-cases, length, drop, is_empty, length-append, nat_eq, Text, text_eq,
  Result, ok, err, Result-cases,
}
use mathlib.Core.List.{append_assoc, append-nil}
use tmcp.Errors.{Error}
use tmcp.Codec.{newline, newline_position, message, max_frame_length, encode}
use tmcp.Codec.Lines.{scan_lines, scan_lines_plain, scan_lines_line, plain_cons, scan_lines-append}
use tmcp.Codec.Draining.{frames_of}
use tmcp.Codec.Chunks.{
  joined, AreShort, waiting, receive, receive-joined, finish_line-rest, scan_lines-rest,
  unfinished-plain,
}

-- A text that starts a longer one ends in its first part or goes beyond it.
data Prefix (p q s t : Text) : Type 0 where
  inside : (s' : Text) → s ≡ p ++ s' → Prefix p q s t
  beyond : (p' : Text) → p ≡ s ++ p' → t ≡ p' ++ q → Prefix p q s t

tail_of : (a b : ℕ) (s t : Text) → a ∷ s ≡ b ∷ t → (a ≡ b) × (s ≡ t)
tail_of a b s t e = (ground arith, ap (drop 1) e)

split_prefix : (p q s t : Text) → p ++ q ≡ s ++ t → Prefix p q s t
split_prefix [] q s t e = inside s refl
split_prefix (a ∷ p) q [] t e = beyond (a ∷ p) refl (sym e)
split_prefix (a ∷ p) q (b ∷ s) t e =
    let (same, rest) = tail_of a b (p ++ q) (s ++ t) e in
    elim (split_prefix p q s t rest) [
      | inside s' k ↦ inside s' (ap (λ x. x ∷ s) (sym same) ∙ ap (◌∷◌ a) k)
      | beyond p' k l ↦ beyond p' (ap (λ x. x ∷ p) same ∙ ap (◌∷◌ b) k) l
    ]

plain_prefix : (p s : Text) → newline_position (p ++ s) ≡ none → newline_position p ≡ none
unfolding newline_position
plain_prefix [] s h = refl
plain_prefix (c ∷ p) s h =
    let (other, plain) = plain_cons c (p ++ s) h in rw other (rw (plain_prefix p s plain) refl)

start_empty : (p q : Text) → p ++ q ≡ [] → p ≡ []
start_empty [] q e = refl
start_empty (x ∷ p) q e = absurd (cc)

newline_prefix :
    (p q rest : Text)
    → newline ∷ rest ≡ p ++ q
    → (p ≡ []) ⊎ ((p' : Text) × (p ≡ newline ∷ p') × (rest ≡ p' ++ q))
newline_prefix [] q rest e = inl refl
newline_prefix (x ∷ p) q rest e =
    let (same, rest') = tail_of newline x rest (p ++ q) e in
    inr (p, ap (λ c. c ∷ p) (sym same), rest')

rejoin : (a b c : Text) → (a ++ b ++ newline ∷ []) ++ c ≡ a ++ (b ++ newline ∷ c)
rejoin [] [] c = refl
rejoin [] (x ∷ b) c = ap (◌∷◌ x) (rejoin [] b c)
rejoin (x ∷ a) b c = ap (◌∷◌ x) (rejoin a b c)

module _ {Message : Type 0} (parse : Text → Result Text Message)
    (serialize : Message → Result Error Text) where
  abbrev then_encode :
      (Text → Result Error (Unit {0}) × Text)
      → Result Error (Unit {0}) × Text
      → Result Error (Unit {0}) × Text
  then_encode next (err e, dst) = (err e, dst)
  then_encode next (ok u, dst) = next dst

  -- The messages are written one after the other, until one fails.
  unfoldable pub encode_all : List Message → Text → Result Error (Unit {0}) × Text
  encode_all [] dst = (ok tt, dst)
  encode_all (m ∷ ms) dst = then_encode (encode_all ms) (encode serialize m dst)

  -- The bytes of messages that were all written.
  data Wire : List Message → Text → Type 0 where
    nothing : Wire [] []
    one_more :
        {m : Message} {ms : List Message} {json rest : Text}
        → serialize m ≡ ok json
        → length json < max_frame_length
        → Wire ms rest
        → Wire (m ∷ ms) (json ++ newline ∷ rest)

  encode-ok :
      (m : Message) (dst dst' : Text)
      → encode serialize m dst ≡ (ok tt, dst')
      → (json : Text) × (serialize m ≡ ok json)
        × (length json < max_frame_length)
        × (dst' ≡ dst ++ json ++ newline ∷ [])
  unfolding encode
  encode-ok m dst dst' e = elim (Result-cases (serialize m)) [
    | inr (bad, failed) ↦ absurd (let h = rw (failed, encode) at e in cc)
    | inl (json, made) ↦ elim (Bool-cases (leb max_frame_length (length json))) [
      | inl over ↦ absurd (let h = rw (made, over, encode) at e in cc)
      | inr fits ↦
          let h = rw (made, fits, encode) at e in
          (json, made, ground (arith, fits), ap (λ x. x.1) (sym h))
    ]
  ]

  then_encode-ok :
      (next : Text → Result Error (Unit {0}) × Text) (x : Result Error (Unit {0}) × Text)
      (wire : Text)
      → then_encode next x ≡ (ok tt, wire)
      → (dst : Text) × (x ≡ (ok tt, dst)) × (next dst ≡ (ok tt, wire))
  then_encode-ok next (err e, dst) wire h = absurd (let k = ap (λ y. y.0) h in cc)
  then_encode-ok next (ok u, dst) wire h = (dst, refl, h)

  encode_all-Wire :
      (ms : List Message) (dst wire : Text)
      → encode_all ms dst ≡ (ok tt, wire)
      → (written : Text) × (wire ≡ dst ++ written) × Wire ms written
  unfolding encode_all
  encode_all-Wire [] dst wire e = ([], ap (λ x. x.1) (sym e) ∙ sym (append-nil dst), nothing)
  encode_all-Wire (m ∷ ms) dst wire e =
      let (mid, first, later) = then_encode-ok (encode_all ms) (encode serialize m dst) wire e in
      let (json, made, fits, grown) = encode-ok m dst mid first in
      let (written, whole, w) = encode_all-Wire ms mid wire later in
      let joins : (dst ++ json ++ newline ∷ []) ++ written ≡ dst ++ (json ++ newline ∷ written) =
        rejoin dst json written in
      (
        json ++ newline ∷ written,
        whole ∙ ap (λ x. x ++ written) grown ∙ joins,
        one_more made fits w,
      )

  module _ (parses : (m : Message) (json : Text) → serialize m ≡ ok json → parse json ≡ ok m)
      (one_line : (m : Message) (json : Text)
        → serialize m ≡ ok json
        → newline_position json ≡ none)
      (not_empty : (m : Message) (json : Text)
        → serialize m ≡ ok json
        → is_empty json ≡ false) where
    Wire-lines :
        (ms : List Message) (wire : Text)
        → Wire ms wire
        → (frames_of parse (scan_lines [] wire).0 ≡ map message ms) × ((scan_lines [] wire).1 ≡ [])
    Wire-lines [] wire nothing = unfold scan_lines in (refl, refl)
    Wire-lines (m ∷ ms) wire (one_more {json} {rest} made fits w) =
        let (frames, end) = Wire-lines ms rest w in
        let lines = scan_lines_line [] json rest (one_line m json made) in
        let after = scan_lines [] rest in
        let full : scan_lines [] (json ++ newline ∷ rest) ≡ (json ∷ after.0, after.1) =
          lines ∙ rw (not_empty m json made) refl in
        (
          ap (λ x. frames_of parse x.0) full
              ∙ rw (parses m json made) (ap (◌∷◌ (message m)) frames),
          ap (λ x. x.1) full ∙ end,
        )

    Wire-short :
        (ms : List Message) (wire p q : Text)
        → Wire ms wire
        → wire ≡ p ++ q
        → length (scan_lines [] p).1 ≤ max_frame_length
    Wire-short [] wire p q nothing e =
        let none_left : p ≡ [] = start_empty p q (sym e) in
        rw none_left (unfold scan_lines in omega arith)
    Wire-short (m ∷ ms) wire p q (one_more {json} {rest} made fits w) e =
        let plain = one_line m json made in
        elim (split_prefix p q json (newline ∷ rest) (sym e)) [
          | inside json' k ↦
              rw
                (scan_lines_plain [] p
                  (plain_prefix p json' (subst (λ x. newline_position x ≡ none) k plain)))
                (omega (arith, fits, ap length k, length-append p json'))
          | beyond p' k l ↦ elim (newline_prefix p' q rest l) [
            | inl at_end ↦
                let same : p ≡ json = k ∙ ap (λ x. json ++ x) at_end ∙ append-nil json in
                rw (same, scan_lines_plain [] json plain) (omega (arith, fits))
            | inr (p'', starts, rest') ↦
                let same : p ≡ json ++ newline ∷ p'' = k ∙ ap (λ x. json ++ x) starts in
                rw
                  (
                    same,
                    scan_lines_line [] json p'' plain,
                    finish_line-rest json (scan_lines [] p''),
                  )
                  (Wire-short ms rest p'' q w rest')
          ]
        ]

    Wire-AreShort :
        (ms : List Message) (wire p : Text) (chunks : List Text)
        → Wire ms wire
        → wire ≡ p ++ joined chunks
        → AreShort (scan_lines [] p).1 chunks
    Wire-AreShort ms wire p [] w e = Wire-short ms wire p [] w e
    Wire-AreShort ms wire p (chunk ∷ chunks) w e =
        let rest = (scan_lines [] p).1 in
        let plain = unfinished-plain [] p (unfold newline_position in refl) in
        let next : (scan_lines [] (p ++ chunk)).1 ≡ (scan_lines [] (rest ++ chunk)).1 =
          ap (λ x. x.1) (scan_lines-append [] p chunk)
          ∙ ap (λ x. x.1) (sym (scan_lines-rest rest chunk plain)) in
        let e' : wire ≡ (p ++ chunk) ++ joined chunks =
          e ∙ sym (append_assoc p chunk (joined chunks)) in
        (
          subst (λ x. length x ≤ max_frame_length) next
              (Wire-short ms wire (p ++ chunk) (joined chunks) w e'),
          subst (λ x. AreShort x chunks) next (Wire-AreShort ms wire (p ++ chunk) chunks w e'),
        )

-- Whatever messages the encoder accepts arrive: however the bytes are cut into chunks, a decoder
-- that starts with an empty buffer gives exactly these messages in order and ends with an empty
-- buffer. The conditions are that the JSON that is written for a message is not empty, has no
-- newline and is parsed to the message.
pub receive-encode_all :
    {Message : Type 0} (parse : Text → Result Text Message)
    (serialize : Message → Result Error Text) (ms : List Message) (wire : Text) (chunks : List Text)
    (parses : (m : Message) (json : Text) → serialize m ≡ ok json → parse json ≡ ok m)
    (one_line : (m : Message) (json : Text) → serialize m ≡ ok json → newline_position json ≡ none)
    (not_empty : (m : Message) (json : Text) → serialize m ≡ ok json → is_empty json ≡ false)
    → encode_all parse serialize ms [] ≡ (ok tt, wire)
    → joined chunks ≡ wire
    → receive parse chunks (waiting []) ≡ some (map message ms, ok (waiting []))
receive-encode_all parse serialize ms wire chunks parses one_line not_empty e cut =
    let (written, whole, w) = encode_all-Wire parse serialize ms [] wire e in
    let short =
      Wire-AreShort parse serialize parses one_line not_empty ms written [] chunks w
        (sym (cut ∙ whole)) in
    let (frames, end) = Wire-lines parse serialize parses one_line not_empty ms written w in
    let all_of : joined chunks ≡ written = cut ∙ whole in
    receive-joined parse chunks (unfold scan_lines in short)
    ∙ ap (λ x. some (frames_of parse (scan_lines [] x).0, ok (waiting (scan_lines [] x).1))) all_of
    ∙ rw (frames, end) refl
