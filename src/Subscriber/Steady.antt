-- ===== src/Subscriber/Steady.antt =====
-- rpcmple_cpp/include/rpcmple/dataSubscriber.h under rpcmple_cpp/include/rpcmple/messageManager.h: what
-- message the subscriber waits for.
use rpcmple.Common.{ℕ, zero, suc, ◌<◌, arith, List, [], Bool, true, Bool-cases, inl, inr}
use rpcmple.Common.{Outcome, ok, refused, thrown, fault, or_fault, ltb, ◌==◌, length}
use rpcmple.Endian.{bytes_to_uint32}
use rpcmple.Variant.{Variant}
use rpcmple.Signature.{Codec}
use rpcmple.Signature.Reader.{from_binary}
use rpcmple.Header.{header_size}
use rpcmple.Manager.{Connection}
use rpcmple.Manager.Chunks.{IsSteady}
use rpcmple.Common.{Leaves, Leaves-bind, Leaves-any}
use rpcmple.Manager.Steady.{Leaves-keeps}
use rpcmple.Subscriber.{
  Subscriber, call_back, deliver_args, parsed, parse_header, parse_section, parse_message,
  subscriber,
}

abbrev pub Waits : Subscriber → Type 0
Waits s = 0 < s.section_len

module _ (codec : Codec) (m : Bool) where
  deliver_args-Waits :
      (s : Subscriber) (args : List Variant) → Leaves Waits (deliver_args codec m s args)
  unfolding deliver_args
  deliver_args-Waits s args =
      elim (Bool-cases (length (call_back s args).signature == length args)) [
        | inl same ↦ grind arith
        | inr other ↦ grind arith
      ]

  parsed-Waits :
      (s : Subscriber) (o : Outcome (List Variant) (List Variant))
      → Leaves Waits (parsed codec m s o)
  parsed-Waits s (ok args) = deliver_args-Waits s args
  parsed-Waits s (refused args) = deliver_args-Waits s args
  parsed-Waits s thrown = tt
  parsed-Waits s fault = tt

  parse_header-Waits : (s : Subscriber) (v : ℕ) → Leaves Waits (parse_header codec m s v)
  unfolding parse_header
  parse_header-Waits s v = elim (Bool-cases (ltb 0 (header_size v))) [
    | inl more ↦ rw more (ground arith)
    | inr done ↦ elim (Bool-cases (ltb 0 (length s.signature))) [
      | inl wanted ↦ rw (done, wanted) tt
      | inr none_ ↦ rw (done, none_) (omega arith)
    ]
  ]

  parse_section-Waits :
      (n : ℕ) (s : Subscriber) (message : List ℕ) → Leaves Waits (parse_section codec m n s message)
  unfolding parse_section
  parse_section-Waits zero s message =
      Leaves-bind (λ _. Unit {0}) Waits (or_fault (bytes_to_uint32 m message true))
        (parse_header codec m s) (Leaves-any (or_fault (bytes_to_uint32 m message true)))
        λ v _. parse_header-Waits s v
  parse_section-Waits (suc zero) s message =
      parsed-Waits s (from_binary codec.from_bytes m s.signature message [])
  parse_section-Waits (suc (suc n)) s message = tt

-- Over any connection, the subscriber waits for a message that is not empty whenever it comes back
-- to the loop.
pub subscriber-IsSteady :
    {C : Type 0} (codec : Codec) (m : Bool) (k : Connection C)
    → IsSteady (subscriber codec m) k Waits
unfolding subscriber parse_message
subscriber-IsSteady codec m k =
    Leaves-keeps k (subscriber codec m) Waits
      (λ s bytes w. parse_section-Waits codec m s.section_id s bytes) (λ s bytes w. w) (λ s w. w)
