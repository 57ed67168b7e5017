-- ===== src/Codec.antt =====
-- codec.rs: newline-delimited frames. `serde_json` is a parameter: `parse` of a line gives a message
-- or the text of the parser's error, `serialize` gives the bytes of a message or the crate's error.
pub mod Lines
pub mod Draining
pub mod Chunks
pub mod Transmission
pub mod Tests
use tmcp.Base.{
  ℕ, zero, suc, ◌+◌, ◌-◌, ◌*◌, true, false, Option, none, some, [], ◌∷◌, ◌++◌, arith, ltb, leb,
  nat_beq, if◌then◌else◌, length, take, drop, Eq, ◌==◌, nat_eq, Text, text, text_eq, Result, ok,
  err, ◌>>=◌, ◌>>◌, decimal,
}
use tmcp.Errors.{Error, invalid_message_format}

abbrev pub newline : ℕ
newline = 10

abbrev pub max_frame_length : ℕ
max_frame_length = 64 * 1024 * 1024

abbrev pub one_later : Option ℕ → Option ℕ
one_later none = none
one_later (some k) = some (suc k)

-- `iter().position(|b| *b == b'\n')`
unfoldable pub newline_position : Text → Option ℕ
newline_position [] = none
newline_position (c ∷ s) =
    let later = newline_position s in if nat_beq c newline then some 0 else one_later later

-- The codec with the buffer that `Framed` keeps for it.
pub record Codec : Type 0 where
  pub next_scan_index : ℕ
  pub src : Text

abbrev oversized_incoming : ℕ → Error
oversized_incoming n = invalid_message_format (
    text "Incoming frame reached "
    ++ decimal n
    ++ text " bytes with no newline, over the "
    ++ decimal max_frame_length
    ++ text " byte maximum")

abbrev oversized_outgoing : ℕ → Error
oversized_outgoing n = invalid_message_format (
    text "Outgoing message is "
    ++ decimal n
    ++ text " bytes, over the "
    ++ decimal max_frame_length
    ++ text " byte frame maximum")

pub data Frame (Message : Type 0) : Type 0 where
  message : Message → Frame Message
  malformed : Text → Frame Message

abbrev pub frame_of : {Message : Type 0} → Result Text Message → Frame Message
frame_of (ok m) = message m
frame_of (err e) = malformed (text "Invalid JSON: " ++ e)

-- No newline behind the index.
abbrev pub decode_partial :
    {Message : Type 0} → Codec → Result Error (Option (Frame Message)) × Codec
decode_partial c =
    if ltb max_frame_length (length c.src)
    then (err (oversized_incoming (length c.src)), c)
    else (ok none, record c { next_scan_index = length c.src })

module _ {Message : Type 0} (parse : Text → Result Text Message) where
  -- A line with its newline: an empty one is skipped, any other is a frame.
  unfoldable pub decode_line :
      Text
      → Codec
      → Option (Result Error (Option (Frame Message)) × Codec)
      → Option (Result Error (Option (Frame Message)) × Codec)
  decode_line line rest next =
      if leb (length line) 1
      then next
      else some (ok (some (frame_of (parse (take (length line - 1) line)))), rest)

  abbrev without_line : Codec → ℕ → Codec
  without_line c end = record { next_scan_index = 0; src = drop end c.src }

  -- The `loop` of `decode`. `none` means that the fuel ran out.
  unfoldable pub decode_loop : ℕ → Codec → Option (Result Error (Option (Frame Message)) × Codec)
  unfolding decode_line
  decode_loop zero c = none
  decode_loop (suc fuel) c = elim (newline_position (drop c.next_scan_index c.src)) [
    | none ↦ some (decode_partial c)
    | some offset ↦
        let end = c.next_scan_index + offset + 1 in
        let rest = without_line c end in decode_line (take end c.src) rest (decode_loop fuel rest)
  ]

  -- Each round takes a line off the buffer.
  unfoldable pub decode : Codec → Option (Result Error (Option (Frame Message)) × Codec)
  unfolding decode_loop
  decode c = decode_loop (suc (length c.src)) c

-- The result, and the buffer to write afterwards.
unfoldable pub encode :
    {Message : Type 0} (serialize : Message → Result Error Text)
    → Message
    → Text
    → Result Error (Unit {0}) × Text
encode serialize m dst = elim (serialize m) [
  | err e ↦ (err e, dst)
  | ok json ↦
      if leb max_frame_length (length json)
      then (err (oversized_outgoing (length json)), dst)
      else (ok tt, dst ++ json ++ newline ∷ [])
]
