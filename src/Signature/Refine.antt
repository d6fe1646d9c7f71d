-- ===== src/Signature/Refine.antt =====
-- rpcmple_cpp/include/rpcmple/dataSignature.h: `toBinary` and the wire format.
use rpcmple.Common.{ℕ, ◌≤◌, ◌≡◌, refl, List, [], ◌∷◌, length, All, arith}
use rpcmple.Common.{Option, none, some, Bool}
use rpcmple.Common.{Outcome, ok, refused, thrown, ◌>>=◌}
use rpcmple.Variant.{Variant, Text}
use rpcmple.Signature.{Kind, any, classify, kind_of, wire_char}
use rpcmple.Signature.Cursor.{Cursor, Written, reserve, write, finish}
use rpcmple.Signature.Writer.{
  write_kind, write_variant, write_labelled, write_item, write_items, to_binary,
}
use rpcmple.Signature.Wire.{
  Encoded, ◌⋯◌, encode_kind, encode_labelled, encode_item, encode, IsVariant, VariantFits,
}
use rpcmple.Signature.Append.{Holds, Writes, Writes-bind, put-Writes, finish-Holds}
use rpcmple.Signature.Pieces.{Holds-nil, write_kind-Writes}

-- What a call leaves agrees with an encoding: the same bytes, or a refusal or exception of both.
abbrev pub Agrees : Outcome (List ℕ) (List ℕ) → Encoded → Type 0
Agrees (ok out) (ok bs) = out ≡ bs
Agrees (refused b) (refused _) = Unit {0}
Agrees thrown thrown = Unit {0}
Agrees _ _ = ⊥

module _ (t : Text → Option Text) (m : Bool) where
  write_variant-Writes :
      (v : Variant) (ws : List ℕ) (c : Cursor)
      → IsVariant v
      → VariantFits t v
      → Holds ws c
      → Writes ws
          (write_variant t m v c)
          (ok (wire_char (kind_of v) ∷ []) ⋯ encode_kind t (kind_of v) v)
  unfolding write_variant
  write_variant-Writes v ws c h fits holds =
      Writes-bind ws (write 1 (wire_char (kind_of v) ∷ []) (reserve 1 c))
        (write_kind t m (kind_of v) v) (ok (wire_char (kind_of v) ∷ []))
        (encode_kind t (kind_of v) v) (put-Writes 1 ws (wire_char (kind_of v) ∷ []) c refl holds)
        λ bs c' e h'. write_kind-Writes t m (kind_of v) v _ c' h fits h'

  write_labelled-Writes :
      (k : Option Kind) (v : Variant) (ws : List ℕ) (c : Cursor)
      → IsVariant v
      → VariantFits t v
      → Holds ws c
      → Writes ws (write_labelled t m k (some v) c) (encode_labelled t k v)
  unfolding write_labelled encode_labelled
  write_labelled-Writes none v ws c h fits holds = tt
  write_labelled-Writes (some any) v ws c h fits holds = write_variant-Writes v ws c h fits holds
  write_labelled-Writes (some k) v ws c h fits holds = write_kind-Writes t m k v ws c h fits holds

  write_items-Writes :
      (sig : List ℕ) (vs : List Variant) (ws : List ℕ) (c : Cursor)
      → length sig ≤ length vs
      → All IsVariant vs
      → All (VariantFits t) vs
      → Holds ws c
      → Writes ws (write_items t m sig vs c) (encode t sig vs)
  unfolding write_items write_item encode encode_item
  write_items-Writes [] vs ws c enough h fits holds = Holds-nil ws c holds
  write_items-Writes (char ∷ sig) [] ws c enough h fits holds = absurd (omega arith)
  write_items-Writes (char ∷ sig) (v ∷ vs) ws c enough h fits holds =
      Writes-bind ws (write_item t m char (some v) c) (write_items t m sig vs)
        (encode_item t char v) (encode t sig vs)
        (write_labelled-Writes (classify char) v ws c h.0 fits.0 holds)
        λ bs c' e h'. write_items-Writes sig vs _ c' (omega arith) h.1 fits.1 h'

  finish-Agrees : (w : Written) (e : Encoded) → Writes [] w e → Agrees (w >>= λ c. ok (finish c)) e
  finish-Agrees (ok c) (ok bs) h = finish-Holds bs c h
  finish-Agrees (refused b) (refused _) h = tt
  finish-Agrees thrown thrown h = tt
  finish-Agrees _ _ h = absurd h

  -- `toBinary` gives exactly the bytes of the wire format, on a machine of either byte order and
  -- whatever the vector held before: it succeeds with them where the values have an encoding,
  -- returns false or throws where they have none, and never writes out of bounds. The values are
  -- at least as many as the signature's characters, of the C++ types, and no array or string of
  -- them has exactly 65536 elements.
  pub to_binary-encode :
      (sig : List ℕ) (vs : List Variant) (message : List ℕ)
      → length sig ≤ length vs
      → All IsVariant vs
      → All (VariantFits t) vs
      → Agrees (to_binary t m sig vs message) (encode t sig vs)
  unfolding to_binary
  to_binary-encode sig vs message enough h fits =
      finish-Agrees (write_items t m sig vs (record { buf = message; pos = 0 })) (encode t sig vs) (
        write_items-Writes sig vs [] _ enough h fits
          (record { spare = message; stands = refl; offset = refl }))
