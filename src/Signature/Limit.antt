-- ===== src/Signature/Limit.antt =====
-- rpcmple_cpp/include/rpcmple/dataSignature.h: `toBinary` on an array of exactly 65536 elements.
use rpcmple.Common.{ℕ, ◌%◌, ◌^◌, ◌≡◌, refl, arith, Bool, List, [], ◌∷◌, length}
use rpcmple.Common.{Option}
use rpcmple.Variant.{Variant, Text, get_doubles, get_int64s, get_uint64s}
use rpcmple.Signature.{classify}
use rpcmple.Signature.Cursor.{Cursor}
use rpcmple.Signature.Writer.{
  put_size, put_words, write_int64s, write_doubles, write_uint64s, write_kind, write_labelled,
  write_item, write_items, to_binary,
}

module _ (t : Text → Option Text) (m : Bool) where
  size_zero : (n : ℕ) (c : Cursor) → n ≡ 65536 → put_size m n c ≡ put_size m 0 c
  unfolding put_size
  size_zero n c e = rw e refl

  -- `toBinary` sends an array of exactly 65536 numbers, of any of the three types, as it sends one
  -- of none, whatever the vector held before.
  pub to_binary-limit :
      (ws message : List ℕ)
      → length ws ≡ 65536
      → (to_binary t m (b'I' ∷ []) (Variant.int64s ws ∷ []) message
          ≡ to_binary t m (b'I' ∷ []) (Variant.int64s [] ∷ []) message)
        × (to_binary t m (b'U' ∷ []) (Variant.uint64s ws ∷ []) message
            ≡ to_binary t m (b'U' ∷ []) (Variant.uint64s [] ∷ []) message)
        × (to_binary t m (b'D' ∷ []) (Variant.doubles ws ∷ []) message
            ≡ to_binary t m (b'D' ∷ []) (Variant.doubles [] ∷ []) message)
  unfolding to_binary write_items write_item write_labelled classify write_kind write_int64s
      write_uint64s write_doubles get_int64s get_uint64s get_doubles put_words
  to_binary-limit ws message e =
      let none_left : length ws % 2 ^ 16 ≡ 0 = omega (arith, e) in
      let cut = size_zero (length ws) (record { buf = message; pos = 0 }) e in
      (rw (none_left, cut) refl, rw (none_left, cut) refl, rw (none_left, cut) refl)
