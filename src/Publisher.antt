-- ===== src/Publisher.antt =====
-- rpcmple_cpp/include/rpcmple/dataPublisher.h: the class `dataPublisher`. `writeMessage` waits on a
-- condition variable: `may_write` is the condition, and `write_message` what is done behind it.
pub mod Frames
pub mod Collect
pub mod Steps
pub mod EndToEnd
use rpcmple.Common.{ℕ, ◌+◌, List, [], ◌∷◌, ◌++◌, length, replicate}
use rpcmple.Common.{Option, none, some, Outcome, ok, refused, thrown, fault, ◌>>=◌, or_fault}
use rpcmple.Common.{Bool, true, false, not, ltb, ◌==◌, ◌&&◌, ◌||◌, if◌then◌else◌}
use rpcmple.Variant.{Variant}
use rpcmple.Signature.{Codec}
use rpcmple.Signature.Writer.{to_binary}
use rpcmple.Header.{put_message}
use rpcmple.Manager.{Parser}

pub record Publisher : Type 0 where
  pub signature : List ℕ
  pub message_stack : List (List ℕ)
  pub stop_wait : Bool
  pub group_messages : Bool

unfoldable pub make_publisher : List ℕ → Bool → Publisher
make_publisher signature group = record {
  signature = signature;
  message_stack = [];
  stop_wait = false;
  group_messages = group;
}

abbrev is_empty : {A : Type 0} → List A → Bool
is_empty [] = true
is_empty (x ∷ xs) = false

unfoldable pub may_write : Publisher → Bool
may_write s = not (is_empty s.message_stack) || s.stop_wait

unfoldable pub stop_parser : Publisher → Publisher
stop_parser s = record s { stop_wait = true }

-- `waitPublishComplete` returns at once on an empty stack, and else when it is empty or a stop
-- has been asked for.
unfoldable pub publish_complete : Publisher → Bool
publish_complete s = is_empty s.message_stack || s.stop_wait

module _ (codec : Codec) (m : Bool) where
  abbrev prepared : Publisher → Outcome (List ℕ) (List ℕ) → Outcome Publisher (List ℕ)
  prepared s (ok message) = ok message
  prepared s (refused _) = refused s
  prepared s thrown = thrown
  prepared s fault = fault

  -- What `publish` does before it takes the lock: the message is made.
  unfoldable pub prepare : Publisher → List Variant → Outcome Publisher (List ℕ)
  prepare s values =
      if length values == length s.signature
      then prepared s (to_binary codec.to_bytes m s.signature values (replicate 1024 0))
      else refused s

  -- What it does under the lock.
  unfoldable pub push : Publisher → List ℕ → Publisher
  push s message = record s { message_stack = s.message_stack ++ message ∷ [] }

  unfoldable pub publish : Publisher → List Variant → Outcome Publisher Publisher
  publish s values = prepare s values >>= λ message. ok (push s message)

  -- The loop of `writeMessage` over the stack, with the vector and the offset. What it leaves is
  -- the vector and the rest of the stack; a message that is too long is lost with `return false`.
  unfoldable pub collect :
      Bool → Bool → ℕ → List ℕ → List (List ℕ) → Outcome (List (List ℕ)) (List ℕ × List (List ℕ))
  collect group grouping offset out [] = ok (out, [])
  collect group grouping offset out (message ∷ stack) =
      let rest = or_fault (put_message m 1 message offset out) >>= λ out'.
      collect group group (offset + 4 + length message) out' stack in
      if grouping && ltb (length out) 1024
      then (if ltb 16777216 (length message) then refused stack else rest)
      else ok (out, message ∷ stack)

  abbrev pub collected :
      Publisher
      → Outcome (List (List ℕ)) (List ℕ × List (List ℕ))
      → Outcome Publisher (Publisher × List ℕ)
  collected s (ok (out, stack)) = ok (record s { message_stack = stack }, out)
  collected s (refused stack) = refused (record s { message_stack = stack })
  collected s thrown = thrown
  collected s fault = fault

  unfoldable pub write_message : Publisher → List ℕ → Outcome Publisher (Publisher × List ℕ)
  write_message s out =
      if s.stop_wait
      then refused s
      else collected s (collect s.group_messages true 0 out s.message_stack)

  -- `parseMessage` accepts anything, and no message is expected.
  unfoldable pub publisher : Parser Publisher
  publisher = record {
    parse_message = λ s message. ok s;
    get_message_len = λ s. 0;
    write_message = write_message;
  }
