-- ===== src/Signature/Wire.antt =====
-- The wire format, as a description of its own: what bytes a value stands for, with no buffer,
-- no offset and no machine.
use rpcmple.Common.{ℕ, ◌^◌, ◌<◌, ◌≢◌, List, [], ◌∷◌, ◌++◌, length, All}
use rpcmple.Common.{Option, none, some, Outcome, ok, refused, fault, ◌>>=◌, or_thrown}
use rpcmple.Common.{◌≡◌, leb, if◌then◌else◌}
use rpcmple.Bits.{IsBytes}
use rpcmple.Endian.{le_bytes}
use rpcmple.Variant.{Variant, Text}
use rpcmple.Signature.{Kind, any, classify, kind_of, wire_char}

abbrev pub Encoded : Type 0
Encoded = Outcome (Unit {0}) (List ℕ)

-- One encoding behind the other.
infixr 6 ◌⋯◌
abbrev pub ◌⋯◌ : Encoded → Encoded → Encoded
a ⋯ b = do bs ← a; cs ← b; ok (bs ++ cs)

-- A size has 16 bits; what is longer has no encoding.
unfoldable pub encode_size : ℕ → Encoded
encode_size n = if leb n 65535 then ok (le_bytes 2 n) else refused tt

abbrev pub encode_each : {A : Type 0} → (A → Encoded) → List A → Encoded
encode_each f [] = ok []
encode_each f (x ∷ xs) = f x ⋯ encode_each f xs

unfoldable pub encode_word : ℕ → Encoded
encode_word w = ok (le_bytes 8 w)

unfoldable pub encode_text : Text → Encoded
encode_text s = encode_size (length s) ⋯ ok s

unfoldable pub encode_wide : (Text → Option Text) → Text → Encoded
encode_wide to_bytes w = or_thrown (to_bytes w) >>= encode_text

unfoldable pub encode_list : {A : Type 0} → (A → Encoded) → List A → Encoded
encode_list f xs = encode_size (length xs) ⋯ encode_each f xs

-- A value under the type that the signature asks for; another type is refused.
unfoldable pub encode_kind : (Text → Option Text) → Kind → Variant → Encoded
encode_kind t Kind.double (Variant.double w) = encode_word w
encode_kind t Kind.int64 (Variant.int64 w) = encode_word w
encode_kind t Kind.uint64 (Variant.uint64 w) = encode_word w
encode_kind t Kind.doubles (Variant.doubles ws) = encode_list encode_word ws
encode_kind t Kind.int64s (Variant.int64s ws) = encode_list encode_word ws
encode_kind t Kind.uint64s (Variant.uint64s ws) = encode_list encode_word ws
encode_kind t Kind.wstring (Variant.wstring w) = encode_wide t w
encode_kind t Kind.wstrings (Variant.wstrings ws) = encode_list (encode_wide t) ws
encode_kind t Kind.string (Variant.string s) = encode_text s
encode_kind t Kind.strings (Variant.strings ss) = encode_list encode_text ss
encode_kind t _ _ = refused tt

unfoldable pub encode_labelled : (Text → Option Text) → Option Kind → Variant → Encoded
encode_labelled t none v = refused tt
encode_labelled t (some any) v = ok (wire_char (kind_of v) ∷ []) ⋯ encode_kind t (kind_of v) v
encode_labelled t (some k) v = encode_kind t k v

unfoldable pub encode_item : (Text → Option Text) → ℕ → Variant → Encoded
encode_item t char v = encode_labelled t (classify char) v

unfoldable pub encode : (Text → Option Text) → List ℕ → List Variant → Encoded
encode t [] vs = ok []
encode t (char ∷ sig) [] = fault
encode t (char ∷ sig) (v ∷ vs) = encode_item t char v ⋯ encode t sig vs

-- Values of the C++ types: words of 64 bits and strings of bytes.
abbrev pub IsWord : ℕ → Type 0
IsWord w = w < 2 ^ 64

abbrev pub IsVariant : Variant → Type 0
IsVariant (Variant.double w) = IsWord w
IsVariant (Variant.int64 w) = IsWord w
IsVariant (Variant.uint64 w) = IsWord w
IsVariant (Variant.doubles ws) = All IsWord ws
IsVariant (Variant.int64s ws) = All IsWord ws
IsVariant (Variant.uint64s ws) = All IsWord ws
IsVariant (Variant.string s) = IsBytes s
IsVariant (Variant.strings ss) = All IsBytes ss
IsVariant (Variant.wstring w) = Unit {0}
IsVariant (Variant.wstrings ws) = Unit {0}

-- The one size that the code's own test lets through and 16 bits do not hold.
abbrev pub Fits : {A : Type 0} → List A → Type 0
Fits xs = length xs ≢ 65536

abbrev pub WideFits : (Text → Option Text) → Text → Type 0
WideFits t w = (s : Text) → t w ≡ some s → Fits s

abbrev pub VariantFits : (Text → Option Text) → Variant → Type 0
VariantFits t (Variant.double w) = Unit {0}
VariantFits t (Variant.int64 w) = Unit {0}
VariantFits t (Variant.uint64 w) = Unit {0}
VariantFits t (Variant.doubles ws) = Fits ws
VariantFits t (Variant.int64s ws) = Fits ws
VariantFits t (Variant.uint64s ws) = Fits ws
VariantFits t (Variant.string s) = Fits s
VariantFits t (Variant.strings ss) = Fits ss × All Fits ss
VariantFits t (Variant.wstring w) = WideFits t w
VariantFits t (Variant.wstrings ws) = Fits ws × All (WideFits t) ws
