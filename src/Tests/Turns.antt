-- ===== src/Tests/Turns.antt =====
-- Turns at the locks: a publisher that sends one message and keeps another, and a client whose request
-- has been written.
use rpcmple.Common.{ℕ, ◌≡◌, refl, ap, ◌>>=◌, arith, List, [], ◌∷◌, ◌++◌, length, map, replicate}
use rpcmple.Common.{some, Bool, true, false, ok}
use rpcmple.Variant.{Variant}
use rpcmple.Signature.Received.{received}
use rpcmple.Signature.Exchange.{to_binary_ok}
use rpcmple.Manager.{State, make}
use rpcmple.Manager.DataFlow.{closed, data_flow}
use rpcmple.Manager.Inbox.{Script, script}
use rpcmple.Publisher.{Publisher, make_publisher, may_write, prepare, push, publish, write_message}
use rpcmple.Publisher.Frames.{frame, write_message_single}
use rpcmple.Publisher.Collect.{Writes, write_message-Writes}
use rpcmple.Publisher.Steps.{
  Publishing, begin, Reach, here, next, prepares, pushes, writes, Ordered, Reach-Ordered,
}
use rpcmple.Publisher.EndToEnd.{IsSendable, data_flow-publishes}
use rpcmple.Subscriber.{Subscriber, subscriber, make_subscriber}
use rpcmple.Tests.Codecs.{ascii, ascii-IsUtf8}
use rpcmple.Tests.Calls.{
  call_args, seven, seven_bytes, seven_encodes, seven-IsVariant, seven_fits, seven-NoZero,
}

abbrev always : List (List ℕ) → Bool
always out = true

abbrev with_stack : List (List ℕ) → Publisher
with_stack stack = record {
  signature = call_args;
  message_stack = stack;
  stop_wait = false;
  group_messages = false;
}

prepares_seven :
    (stack : List (List ℕ)) → prepare ascii true (with_stack stack) seven ≡ ok seven_bytes
unfolding prepare
prepares_seven stack =
    let made =
      to_binary_ok ascii true call_args seven seven_bytes (replicate 1024 0) refl seven-IsVariant
        seven_fits seven_encodes in
    rw made refl

-- The two parts of `publish` in a row.
publishes_seven :
    (stack : List (List ℕ))
    → publish ascii true (with_stack stack) seven ≡ ok (with_stack (stack ++ seven_bytes ∷ []))
unfolding publish push
publishes_seven stack =
    ap (λ o. o >>= λ message. ok (push ascii true (with_stack stack) message))
      (prepares_seven stack)

writes_seven :
    write_message ascii true (with_stack (seven_bytes ∷ seven_bytes ∷ [])) []
    ≡ ok (with_stack (seven_bytes ∷ []), frame seven_bytes)
writes_seven =
    write_message_single ascii true (with_stack (seven_bytes ∷ seven_bytes ∷ [])) seven_bytes
      (seven_bytes ∷ []) refl refl refl (omega arith)

-- Two calls of `publish`, the second of which pushes its message first, and then a message is written.
abbrev one_sent : Publishing
one_sent = record {
  publisher = with_stack (seven_bytes ∷ []);
  waiting = [];
  sent = frame seven_bytes;
  accepted = seven ∷ seven ∷ [];
  is_flowing = true;
}

turns : Reach ascii true (begin call_args false) one_sent
unfolding make_publisher may_write push
turns =
    let call : List Variant × List ℕ = (seven, seven_bytes) in
    let two_made =
      next (next here (prepares seven seven_bytes (prepares_seven [])))
        (prepares seven seven_bytes (prepares_seven [])) in
    let two_pushed =
      next (next two_made (pushes (call ∷ []) [] seven seven_bytes refl))
        (pushes [] [] seven seven_bytes refl) in
    next two_pushed
      (writes (with_stack (seven_bytes ∷ [])) (frame seven_bytes) refl refl writes_seven)

Reach-Ordered_example : Ordered ascii true call_args one_sent
Reach-Ordered_example = Reach-Ordered ascii true call_args false turns

write_message-Writes_example :
    Writes ascii true
      (with_stack (seven_bytes ∷ []))
      (write_message ascii true (with_stack (seven_bytes ∷ [])) [])
write_message-Writes_example = write_message-Writes ascii true (with_stack (seven_bytes ∷ []))

sendable : IsSendable ascii call_args seven
sendable = (
  seven_bytes,
  (refl, seven-IsVariant, seven-NoZero, seven_encodes, omega arith, omega arith),
  seven_fits,
)

-- In one read.
abbrev on_sent : Script
on_sent = record { inbox = frame seven_bytes ∷ []; outbox = [] }

data_flow-publishes_example :
    (first : List (List Variant)) × (rest : List (List Variant)) × (first ++ rest
      ≡ seven ∷ seven ∷ [])
    × (length rest ≡ 1)
    × (t : State Subscriber Script) × (callback' : Bool) × (data_flow
          (subscriber ascii false)
          (script always)
          true
          (replicate 2 false)
          (make (make_subscriber call_args true) on_sent true)
        ≡ some (closed t callback'))
    × (t.handler.delivered ≡ map (received ascii call_args) first)
data_flow-publishes_example =
    data_flow-publishes ascii true call_args ascii-IsUtf8 false always true false one_sent
      (frame seven_bytes ∷ []) turns refl (sendable, (sendable, tt)) refl
