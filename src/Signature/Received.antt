-- ===== src/Signature/Received.antt =====
-- rpcmple_cpp/include/rpcmple/dataSignature.h: what values arrive as, behind `toBinary` and `fromBinary`.
use rpcmple.Common.{ℕ, ◌≢◌}
use rpcmple.Common.{List, [], ◌∷◌, All, map}
use rpcmple.Common.{Option, none, some}
use rpcmple.Variant.{Variant, Text}
use rpcmple.Signature.{Codec, Kind, any, classify}

-- No wide string has a zero character: the receiver would end it there.
abbrev pub NoZero : Variant → Type 0
NoZero (Variant.wstring w) = All (λ x. x ≢ 0) w
NoZero (Variant.wstrings ws) = All (All (λ x. x ≢ 0)) ws
NoZero _ = Unit {0}

-- The bytes that a wide string is converted to.
unfoldable pub text_of : Codec → Text → Text
text_of codec w = elim (codec.to_bytes w) [ none ↦ [] | some s ↦ s ]

-- Under a 'v' wide strings arrive as the strings that they were converted to.
unfoldable pub narrowed : Codec → Variant → Variant
narrowed codec (Variant.wstring w) = Variant.string (text_of codec w)
narrowed codec (Variant.wstrings ws) = Variant.strings (map (text_of codec) ws)
narrowed codec v = v

-- The values that the receiver finds under the characters of the signature.
unfoldable pub received_as : Codec → Option Kind → Variant → Variant
received_as codec none v = v
received_as codec (some any) v = narrowed codec v
received_as codec (some k) v = v

unfoldable pub received : Codec → List ℕ → List Variant → List Variant
received codec [] vs = []
received codec (char ∷ sig) [] = []
received codec (char ∷ sig) (v ∷ vs) = received_as codec (classify char) v ∷ received codec sig vs
