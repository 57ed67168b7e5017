-- ===== src/Http/Streams/Tests.antt =====
-- The theorems on streams at concrete sessions. A message is a number.
use tmcp.Base.{
  ℕ, ◌+◌, ◌≡◌, refl, false, some, [], ◌∷◌, arith, drop, nat_eq, text, text_beq, text_eq,
}
use tmcp.Base.Map.{get, insert, remove}
use tmcp.Requests.{request_id_eq, request_id_beq, RequestId, string}
use tmcp.Http.Streams.{
  StreamState, SessionRoutes, default_stream, send_to_stream, attach_stream, deliver,
}
use tmcp.Http.Streams.Replay.{Represents, send_to_stream-Represents, attach_stream-resumes}
use tmcp.Http.Streams.Numbered.{numbered}

-- A bounded channel holds its buffer and one event for its sender.
abbrev slots : ℕ → ℕ
slots n = n + 1

default_stream-Represents : Represents {Message = ℕ} default_stream []
default_stream-Represents = record {
  counted = refl;
  recent = unfold numbered in refl;
  gapless = λ ch e. absurd (cc);
}

send_to_stream-Represents_example :
    Represents {Message = ℕ} (send_to_stream slots 5 default_stream) (5 ∷ [])
send_to_stream-Represents_example =
    send_to_stream-Represents slots default_stream [] 5 default_stream-Represents

abbrev two_sent : StreamState ℕ
two_sent = send_to_stream slots 7 (send_to_stream slots 5 default_stream)

two_sent-Represents : Represents two_sent (5 ∷ 7 ∷ [])
two_sent-Represents =
    send_to_stream-Represents slots (send_to_stream slots 5 default_stream) (5 ∷ []) 7
      (send_to_stream-Represents slots default_stream [] 5 default_stream-Represents)

attach_stream-resumes_example :
    ((attach_stream slots (some 1) two_sent).tx
      ≡ some (record { queue = drop 1 (numbered 0 (5 ∷ 7 ∷ [])); closed = false }))
    × Represents (attach_stream slots (some 1) two_sent) (5 ∷ 7 ∷ [])
attach_stream-resumes_example =
    attach_stream-resumes slots two_sent (5 ∷ 7 ∷ []) 1 (omega arith) two_sent-Represents
      (omega arith) (omega arith)

-- The second event alone is replayed.
missed : drop 1 (numbered {Message = ℕ} 0 (5 ∷ 7 ∷ [])) ≡ (2, 7) ∷ []
unfolding numbered
missed = refl

abbrev one : RequestId
one = string (text "1")

abbrev routes : SessionRoutes ℕ
routes = record { pending = (one, tt) ∷ []; answers = []; stream = default_stream }

-- The request that waits gets the response.
delivered : (deliver slots (some one) 9 routes).answers ≡ (one, 9) ∷ []
unfolding deliver get insert remove request_id_beq text_beq
delivered = refl
