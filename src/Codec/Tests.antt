-- ===== src/Codec/Tests.antt =====
-- The theorems on the codec at concrete streams. The messages are the two JSON booleans.
use tmcp.Base.{
  ◌≡◌, refl, subst, Bool, true, false, none, some, List, [], ◌∷◌, ◌++◌, map, arith, if◌then◌else◌,
  is_empty, nat_eq, Text, text, text_beq, text_eq, Result, ok, err,
}
use tmcp.Errors.{Error}
use tmcp.Codec.{newline, newline_position, Codec, message, encode}
use tmcp.Codec.Lines.{scan_lines}
use tmcp.Codec.Draining.{IsScanned, drain, awaiting, frames_of, drain-scan_lines}
use tmcp.Codec.Chunks.{joined, waiting, receive}
use tmcp.Codec.Transmission.{encode_all, receive-encode_all}

abbrev to_json : Bool → Result Error Text
to_json b = ok (if b then text "true" else text "false")

abbrev from_json : Text → Result Text Bool
from_json s =
    if text_beq s (text "true")
    then ok true
    else if text_beq s (text "false")
    then ok false
    else err (text "expected value")

runs : Unit {0}
unfolding text_beq scan_lines newline_position encode encode_all
runs = tt

-- The first byte was scanned before; an empty line follows the first, a malformed one comes last.
abbrev buffer : Codec
buffer = record {
  next_scan_index = 2;
  src = text "true" ++ newline ∷ newline ∷ text "flase" ++ newline ∷ text "tr";
}

buffer-IsScanned : IsScanned buffer
unfolding runs
buffer-IsScanned = record { within = omega arith; plain = refl }

drain-scan_lines_example :
    drain from_json buffer
    ≡ some (
      frames_of from_json (scan_lines [] buffer.src).0,
      awaiting from_json (scan_lines [] buffer.src).1,
    )
drain-scan_lines_example = drain-scan_lines from_json buffer buffer-IsScanned

two_lines : scan_lines [] buffer.src ≡ (text "true" ∷ text "flase" ∷ [], text "tr")
unfolding runs
two_lines = refl

abbrev chunks : List Text
chunks = text "tr" ∷ (text "ue" ++ newline ∷ text "fal") ∷ (text "se" ++ newline ∷ []) ∷ []

parses : (m : Bool) (json : Text) → to_json m ≡ ok json → from_json json ≡ ok m
unfolding runs
parses true json e = subst (λ s. from_json s ≡ ok true) (written true json e) refl
  where
    written :
        (m : Bool) (json : Text)
        → to_json m ≡ ok json
        → (if m then text "true" else text "false") ≡ json
    written true json e = ground arith
    written false json e = ground arith
parses false json e = subst (λ s. from_json s ≡ ok false) (written json e) refl
  where
    written : (json : Text) → to_json false ≡ ok json → text "false" ≡ json
    written json e = ground arith

one_line : (m : Bool) (json : Text) → to_json m ≡ ok json → newline_position json ≡ none
unfolding runs
one_line true json e = rw (← written) refl
  where
    written : text "true" ≡ json
    written = ground arith
one_line false json e = rw (← written) refl
  where
    written : text "false" ≡ json
    written = ground arith

not_empty : (m : Bool) (json : Text) → to_json m ≡ ok json → is_empty json ≡ false
not_empty true json e = ground arith
not_empty false json e = ground arith

encodes : encode_all from_json to_json (true ∷ false ∷ []) [] ≡ (ok tt, joined chunks)
unfolding runs
encodes = refl

receive-encode_all_example :
    receive from_json chunks (waiting []) ≡ some (map message (true ∷ false ∷ []), ok (waiting []))
receive-encode_all_example =
    receive-encode_all from_json to_json (true ∷ false ∷ []) (joined chunks) chunks parses one_line
      not_empty encodes refl
