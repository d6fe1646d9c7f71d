-- ===== src/Tests/Streams.antt =====
-- A publisher's messages, and how they reach a subscriber.
use rpcmple.Common.{ℕ, ◌≤◌, ◌≡◌, refl, arith, List, [], ◌∷◌, ◌++◌, length, map, replicate, ◌⊎◌}
use rpcmple.Common.{some, Bool, true, false, ok}
use rpcmple.Signature.Received.{received}
use rpcmple.Header.{header_val}
use rpcmple.Manager.{State, make}
use rpcmple.Manager.Stream.{fresh, feed_all}
use rpcmple.Manager.Chunks.{IsSteady, Consumes, consume-Consumes}
use rpcmple.Manager.{consume}
use rpcmple.Manager.DataFlow.{closed, data_flow}
use rpcmple.Manager.Script.{Shows, data_flow-Shows}
use rpcmple.Manager.Inbox.{Script, script, join}
use rpcmple.Server.{Server, server}
use rpcmple.Server.Steady.{Waits, server-IsSteady}
use rpcmple.Publisher.{Publisher, write_message}
use rpcmple.Publisher.Frames.{frames, write_message_grouped}
use rpcmple.Subscriber.{Subscriber, subscriber, make_subscriber}
use rpcmple.Subscriber.Stream.{data_flow-delivers}
use rpcmple.Tests.Codecs.{ascii, ascii-IsUtf8}
use rpcmple.Tests.Calls.{
  call_args, seven, seven_bytes, seven_encodes, seven-IsVariant, seven-NoZero, doubling_server,
}

abbrev always : List (List ℕ) → Bool
always out = true

-- A request in three reads, one of them across the end of the header.
abbrev request : List (List ℕ)
request =
    (12 ∷ 0 ∷ []) ∷ (0 ∷ 0 ∷ 7 ∷ 0 ∷ 0 ∷ []) ∷ (0 ∷ 0 ∷ 0 ∷ 0 ∷ 0 ∷ 2 ∷ 0 ∷ 104 ∷ 105 ∷ []) ∷ []

abbrev on_request : Script
on_request = record { inbox = request; outbox = [] }

data_flow-Shows_example :
    Shows
      (server ascii true)
      always
      (data_flow
        (server ascii true)
        (script always)
        true
        (replicate 4 false)
        (make doubling_server on_request false))
      (feed_all
        (server ascii true)
        (script always)
        (fresh (server ascii true) (script always) (doubling_server, on_request))
        (join request))
data_flow-Shows_example =
    data_flow-Shows (server ascii true) always Waits (server-IsSteady ascii true (script always))
      true doubling_server request (omega arith)

server-IsSteady_example : IsSteady (server ascii true) (script always) Waits
server-IsSteady_example = server-IsSteady ascii true (script always)

-- The state behind the first two bytes of a header.
abbrev halfway : State Server Script
halfway = record {
  is_initialized = true;
  is_requester = false;
  stop_requested = false;
  message = 12 ∷ 0 ∷ 0 ∷ 0 ∷ [];
  message_last_idx = 2;
  message_length = 4;
  message_missing_bytes = 2;
  handler = doubling_server;
  conn = on_request;
}

consume-Consumes_example :
    Consumes
      (server ascii true)
      (script always)
      Waits
      (server-IsSteady ascii true (script always))
      halfway
      (0 ∷ 0 ∷ 7 ∷ [])
      (consume (server ascii true) (script always) 3 halfway (0 ∷ 0 ∷ 7 ∷ []))
consume-Consumes_example =
    consume-Consumes (server ascii true) (script always) Waits
      (server-IsSteady ascii true (script always)) 3 halfway (0 ∷ 0 ∷ 7 ∷ [])
      (record { sized = refl; split = refl; wanted = omega arith }, omega arith, refl) (omega arith)

-- Two messages, in reads of 20 and 12 bytes.
abbrev published : List (List ℕ)
published = (12 ∷ 0 ∷ 0 ∷ 1 ∷ seven_bytes ++ 12 ∷ 0 ∷ 0 ∷ 1 ∷ []) ∷ seven_bytes ∷ []

abbrev on_published : Script
on_published = record { inbox = published; outbox = [] }

data_flow-delivers_example :
    (s : State Subscriber Script) × (callback : Bool) × (data_flow
        (subscriber ascii true)
        (script always)
        true
        (replicate 3 false)
        (make (make_subscriber call_args true) on_published true)
      ≡ some (closed s callback))
    × (s.handler.delivered ≡ map (received ascii call_args) (seven ∷ seven ∷ []))
unfolding header_val
data_flow-delivers_example =
    data_flow-delivers ascii true always ascii-IsUtf8 true call_args (seven ∷ seven ∷ [])
      (seven_bytes ∷ seven_bytes ∷ []) published
      (
        (refl, seven-IsVariant, seven-NoZero, seven_encodes, omega arith, omega arith),
        ((refl, seven-IsVariant, seven-NoZero, seven_encodes, omega arith, omega arith), tt),
      )
      refl

abbrev two_messages : Bool → Publisher
two_messages group = record {
  signature = call_args;
  message_stack = seven_bytes ∷ (1 ∷ []) ∷ [];
  stop_wait = false;
  group_messages = group;
}

write_message_grouped_example :
    (taken : List (List ℕ)) × (rest : List (List ℕ)) × (taken ++ rest ≡ seven_bytes ∷ (1 ∷ []) ∷ [])
    × (write_message ascii true (two_messages true) []
        ≡ ok (record (two_messages true) { message_stack = rest }, frames taken))
    × ((rest ≡ []) ⊎ (1024 ≤ length (frames taken)))
write_message_grouped_example =
    write_message_grouped ascii true (two_messages true) refl refl (omega arith, (omega arith, tt))
