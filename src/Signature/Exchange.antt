-- ===== src/Signature/Exchange.antt =====
-- rpcmple_cpp/include/rpcmple/dataSignature.h: `toBinary` on one machine and `fromBinary` on
-- another.
use rpcmple.Common.{ℕ, ◌≡◌, ap, subst, arith, List, ◌++◌, length, All, Bool}
use rpcmple.Common.{Outcome, ok, refused, thrown, fault}
use rpcmple.Variant.{Variant}
use rpcmple.Signature.{Codec, IsUtf8}
use rpcmple.Signature.Writer.{to_binary}
use rpcmple.Signature.Reader.{from_binary}
use rpcmple.Signature.Wire.{Encoded, encode, IsVariant, VariantFits}
use rpcmple.Signature.Refine.{Agrees, to_binary-encode}
use rpcmple.Signature.RoundTrip.{from_binary-encode}
use rpcmple.Signature.Received.{NoZero, received}

Agrees-ok :
    (o : Outcome (List ℕ) (List ℕ)) (e : Encoded) (bs : List ℕ) → Agrees o e → e ≡ ok bs → o ≡ ok bs
Agrees-ok o e bs h e' = decided o (subst (Agrees o) e' h)
  where
    decided : (o : Outcome (List ℕ) (List ℕ)) → Agrees o (ok bs) → o ≡ ok bs
    decided (ok out) h = ap ok h
    decided (refused _) h = absurd h
    decided thrown h = absurd h
    decided fault h = absurd h

pub to_binary_ok :
    (codec : Codec) (m : Bool) (sig : List ℕ) (vs : List Variant) (bs message : List ℕ)
    → length sig ≡ length vs
    → All IsVariant vs
    → All (VariantFits codec.to_bytes) vs
    → encode codec.to_bytes sig vs ≡ ok bs
    → to_binary codec.to_bytes m sig vs message ≡ ok bs
to_binary_ok codec m sig vs bs message n h fits e =
    Agrees-ok _ _ bs (to_binary-encode codec.to_bytes m sig vs message (omega arith) h fits) e

-- Values that have an encoding reach the other machine: `toBinary` succeeds on a machine of either
-- byte order, and `fromBinary` on a machine of either byte order, given what `toBinary` made and
-- any bytes behind it, finds the values that were sent, with the wide strings under a 'v' as the
-- strings that they were converted to. The values are as many as the signature's characters and of
-- the C++ types, no array or string of them has exactly 65536 elements, and no wide string has a
-- zero character.
pub from_binary-to_binary :
    (codec : Codec)
    → IsUtf8 codec
    → (m m' : Bool) (sig : List ℕ) (vs : List Variant) (bs message rest : List ℕ)
      (args : List Variant)
    → length sig ≡ length vs
    → All IsVariant vs
    → All (VariantFits codec.to_bytes) vs
    → All NoZero vs
    → encode codec.to_bytes sig vs ≡ ok bs
    → (to_binary codec.to_bytes m sig vs message ≡ ok bs)
      × (from_binary codec.from_bytes m' sig (bs ++ rest) args ≡ ok (received codec sig vs))
from_binary-to_binary codec utf8 m m' sig vs bs message rest args n h fits z e = (
  to_binary_ok codec m sig vs bs message n h fits e,
  from_binary-encode codec utf8 m' sig vs bs rest args n h z e,
)
