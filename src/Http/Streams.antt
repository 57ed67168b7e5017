-- ===== src/Http/Streams.antt =====
-- http/server.rs: `SessionRoutes`, which routes the messages of a session to the request that waits
-- for them or to the standing SSE stream with its replay buffer.
-- A channel is a list of the events that its consumer has not taken; how many events a channel of
-- a given buffer size holds is a parameter.
pub mod Numbered
pub mod Replay
pub mod Tests
use tmcp.Base.{
  ℕ, zero, suc, ◌+◌, Bool, true, false, ◌||◌, Option, none, some, List, [], ◌∷◌, ◌++◌, arith, ltb,
  leb, if◌then◌else◌, length, drop, Eq, ◌==◌, nat_eq, text_eq, ◌>>=◌, ◌>>◌,
}
use tmcp.Base.Map.{get, contains_key, insert, remove}
use tmcp.Requests.{request_id_eq, RequestId}

abbrev pub sse_replay_capacity : ℕ
sse_replay_capacity = 256

abbrev pub sse_stream_capacity : ℕ
sse_stream_capacity = 1024

pub record Channel (Message : Type 0) : Type 0 where
  pub queue : List (ℕ × Message)
  pub closed : Bool

pub record StreamState (Message : Type 0) : Type 0 where
  pub tx : Option (Channel Message)
  pub last_id : ℕ
  pub replay : List (ℕ × Message)

-- `pending` with the responses that were sent to a request and wait for it.
pub record SessionRoutes (Message : Type 0) : Type 0 where
  pub pending : List (RequestId × Unit {0})
  pub answers : List (RequestId × Message)
  pub stream : StreamState Message

abbrev pub default_stream : {Message : Type 0} → StreamState Message
default_stream = record { tx = none; last_id = 0; replay = [] }

-- `.ok()`: a failure is ignored.
abbrev pub try_send_ok :
    {Message : Type 0} → Channel Message → Option (Channel Message) → Channel Message
try_send_ok ch none = ch
try_send_ok ch (some ch') = ch'

-- `push_back`, then `pop_front` over the capacity.
abbrev pub record_event : {Message : Type 0} → List (ℕ × Message) → ℕ × Message → List (ℕ × Message)
record_event replay event =
    let grown = replay ++ event ∷ [] in
    if ltb sse_replay_capacity (length grown) then drop 1 grown else grown

-- The answer, and the state with a slot that is cleared.
unfoldable pub stream_alive : {Message : Type 0} → StreamState Message → Bool × StreamState Message
stream_alive state = elim state.tx [
  | none ↦ (false, state)
  | some ch ↦ if ch.closed then (false, record state { tx = none }) else (true, state)
]

module _ {Message : Type 0} (slots : ℕ → ℕ) where
  -- `try_send`: the channel with the event, or `none` if it is full or its consumer is gone.
  unfoldable pub try_send : Channel Message → ℕ × Message → Option (Channel Message)
  try_send ch event =
      if ch.closed || leb (slots sse_stream_capacity) (length ch.queue)
      then none
      else some (record ch { queue = ch.queue ++ event ∷ [] })

  abbrev pub forward : Option (Channel Message) → ℕ × Message → Option (Channel Message)
  forward none event = none
  forward (some ch) event = try_send ch event

  unfoldable pub send_to_stream : Message → StreamState Message → StreamState Message
  unfolding try_send
  send_to_stream message state =
      let event : ℕ × Message = (state.last_id + 1, message) in
      record {
        last_id = state.last_id + 1;
        replay = record_event state.replay event;
        tx = forward state.tx event;
      }

  unfoldable pub replay_events : ℕ → List (ℕ × Message) → Channel Message → Channel Message
  unfolding try_send
  replay_events last [] ch = ch
  replay_events last (event ∷ rest) ch =
      replay_events last rest (if ltb last event.0 then try_send_ok ch (try_send ch event) else ch)

  abbrev opened : Option ℕ → List (ℕ × Message) → Channel Message
  opened none replay = record { queue = []; closed = false }
  opened (some last) replay = replay_events last replay (record { queue = []; closed = false })

  unfoldable pub attach_stream : Option ℕ → StreamState Message → StreamState Message
  unfolding replay_events
  attach_stream last_event_id state = record state { tx = some (opened last_event_id state.replay) }

  -- `response_id` is the id of a message that is a response, if it has one.
  unfoldable pub deliver :
      Option RequestId → Message → SessionRoutes Message → SessionRoutes Message
  deliver response_id message routes =
      let streamed = record routes { stream = send_to_stream message routes.stream } in
      elim response_id [
        | none ↦ streamed
        | some id ↦
            if contains_key id routes.pending
            then record routes {
              pending = remove id routes.pending;
              answers = insert id message routes.answers;
            }
            else streamed
      ]
