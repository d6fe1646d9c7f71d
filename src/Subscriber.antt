-- ===== src/Subscriber.antt =====
-- rpcmple_cpp/include/rpcmple/dataSubscriber.h: the class `dataSubscriber`. The callback is the
-- user's: the calls of it are kept, with their arguments, in `delivered`.
pub mod Steady
pub mod Deliver
pub mod Stream
pub mod OverUdp
use rpcmple.Common.{ℕ, zero, suc, ◌+◌, List, [], ◌∷◌, ◌++◌, length}
use rpcmple.Common.{Option, none, some, Outcome, ok, refused, thrown, fault, ◌>>=◌, or_fault}
use rpcmple.Common.{Bool, true, false, ltb, ◌==◌, if◌then◌else◌}
use rpcmple.Endian.{bytes_to_uint32}
use rpcmple.Variant.{Variant}
use rpcmple.Signature.{Codec}
use rpcmple.Signature.Reader.{from_binary}
use rpcmple.Header.{header_size}
use rpcmple.Manager.{Parser}

pub record Subscriber : Type 0 where
  pub signature : List ℕ
  pub has_callback : Bool
  pub delivered : List (List Variant)
  pub section_len : ℕ
  pub section_id : ℕ

unfoldable pub make_subscriber : List ℕ → Bool → Subscriber
make_subscriber signature callback = record {
  signature = signature;
  has_callback = callback;
  delivered = [];
  section_len = 4;
  section_id = 0;
}

-- `if (callbackFunction) callbackFunction(args);`
unfoldable pub call_back : Subscriber → List Variant → Subscriber
call_back s args = if s.has_callback then record s { delivered = s.delivered ++ args ∷ [] } else s

abbrev pub rewound : Subscriber → Subscriber
rewound s = record s { section_id = 0; section_len = 4 }

module _ (codec : Codec) (m : Bool) where
  unfoldable pub parse_header : Subscriber → ℕ → Outcome Subscriber Subscriber
  parse_header s v =
      let s' = record s { section_len = header_size v } in
      if ltb 0 (header_size v)
      then ok (record s' { section_id = 1 })
      else (if ltb 0 (length s.signature) then refused s' else ok (rewound (call_back s' [])))

  -- The arguments go to the callback whether `fromBinary` returned true or false; only then is
  -- their number tested.
  unfoldable pub deliver_args : Subscriber → List Variant → Outcome Subscriber Subscriber
  deliver_args s args =
      let s' = call_back s args in
      if length s.signature == length args then ok (rewound s') else refused s'

  abbrev pub parsed :
      Subscriber → Outcome (List Variant) (List Variant) → Outcome Subscriber Subscriber
  parsed s (ok args) = deliver_args s args
  parsed s (refused args) = deliver_args s args
  parsed s thrown = thrown
  parsed s fault = fault

  unfoldable pub parse_section : ℕ → Subscriber → List ℕ → Outcome Subscriber Subscriber
  parse_section zero s message = or_fault (bytes_to_uint32 m message true) >>= parse_header s
  parse_section (suc zero) s message =
      parsed s (from_binary codec.from_bytes m s.signature message [])
  parse_section (suc (suc n)) s message = refused s

  unfoldable pub parse_message : Subscriber → List ℕ → Outcome Subscriber Subscriber
  parse_message s message = parse_section s.section_id s message

  unfoldable pub subscriber : Parser Subscriber
  subscriber = record {
    parse_message = parse_message;
    get_message_len = λ s. s.section_len;
    write_message = λ s message. ok (s, []);
  }
