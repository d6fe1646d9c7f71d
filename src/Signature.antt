-- ===== src/Signature.antt =====
-- rpcmple_cpp/include/rpcmple/dataSignature.h, class `dataSignature`: `toBinary` and `fromBinary`
-- in the children `Writer` and `Reader`, the wire format that they implement in `Wire`.
-- Here: the characters of a signature, and the conversion of wide strings that the code takes
-- from the standard library.
pub mod Cursor
pub mod Writer
pub mod Reader
pub mod Wire
pub mod Append
pub mod Pieces
pub mod Refine
pub mod Safety
pub mod Typing
pub mod Elements
pub mod RoundTrip
pub mod Received
pub mod Exchange
pub mod Limit
pub mod Overrun
use rpcmple.Common.{ℕ, ◌<◌, ◌≡◌, ◌≢◌, Option, none, some, List, All}
use rpcmple.Common.{Bool, true, false, ◌==◌, if◌then◌else◌}
use rpcmple.Bits.{IsBytes}
use rpcmple.Variant.{Variant, Text}
use rpcmple.Variant

-- `std::wstring_convert<std::codecvt_utf8<wchar_t>>`; `none` is a `std::range_error`.
pub record Codec : Type 0 where
  pub to_bytes : Text → Option Text
  pub from_bytes : Text → Option Text

-- What the standard library documents: a converted string is made of bytes, it has no zero byte
-- unless the string has a zero character, and converting back gives the string.
pub record IsUtf8 (codec : Codec) : Type 0 where
  pub makes_bytes : (w s : Text) → codec.to_bytes w ≡ some s → IsBytes s
  pub makes_no_zero :
      (w s : Text) → codec.to_bytes w ≡ some s → All (λ x. x ≢ 0) w → All (λ x. x ≢ 0) s
  pub converts_back : (w s : Text) → codec.to_bytes w ≡ some s → codec.from_bytes s ≡ some w

-- The types that a signature may name. `any` is 'v'.
pub data Kind : Type 0 where
  double doubles int64 int64s uint64 uint64s wstring wstrings string strings any : Kind

-- The labels of the `switch`; `none` is its `default`.
unfoldable pub classify : ℕ → Option Kind
classify c =
    if c == b'v'
    then some any
    else if c == b'd'
    then some double
    else if c == b'D'
    then some doubles
    else if c == b'i'
    then some int64
    else if c == b'I'
    then some int64s
    else if c == b'u'
    then some uint64
    else if c == b'U'
    then some uint64s
    else if c == b'w'
    then some wstring
    else if c == b'W'
    then some wstrings
    else if c == b's'
    then some string
    else if c == b'S'
    then some strings
    else none

-- The character that `toBinary` puts in front of a variant value: wide strings go as strings.
unfoldable pub wire_char : Kind → ℕ
wire_char double = b'd'
wire_char doubles = b'D'
wire_char int64 = b'i'
wire_char int64s = b'I'
wire_char uint64 = b'u'
wire_char uint64s = b'U'
wire_char wstring = b's'
wire_char wstrings = b'S'
wire_char string = b's'
wire_char strings = b'S'
wire_char any = b'v'

-- The type that a 'v' takes from the value it stands for.
unfoldable pub kind_of : Variant → Kind
kind_of (Variant.double w) = double
kind_of (Variant.doubles ws) = doubles
kind_of (Variant.int64 w) = int64
kind_of (Variant.int64s ws) = int64s
kind_of (Variant.uint64 w) = uint64
kind_of (Variant.uint64s ws) = uint64s
kind_of (Variant.string s) = string
kind_of (Variant.strings ss) = strings
kind_of (Variant.wstring w) = wstring
kind_of (Variant.wstrings ws) = wstrings
