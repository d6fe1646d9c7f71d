-- ===== src/Signature/RoundTrip.antt =====
-- rpcmple_cpp/include/rpcmple/dataSignature.h: `fromBinary` on messages of the wire format.
use rpcmple.Common.{ℕ, ◌+◌, ◌≡◌, ◌≢◌, refl, ap, ◌∙◌, arith}
use rpcmple.Common.{List, [], ◌∷◌, ◌++◌, append_assoc, length, length-append, All, map, set-append}
use rpcmple.Common.{length-resize}
use rpcmple.Common.{resize}
use rpcmple.Common.{Option, none, some, Bool, true, ok}
use rpcmple.Bits.{IsBytes}
use rpcmple.Endian.{le_bytes, bytes_to_double, bytes_to_int64, bytes_to_uint64}
use rpcmple.Endian.Laws.{bytes_to_uint64_lem}
use rpcmple.Endian.Digits.{le_bytes-IsBytes, of_bytes-le_bytes}
use rpcmple.Variant.{Variant, default_variant}
use rpcmple.Signature.{Codec, IsUtf8, Kind, any, classify, kind_of, wire_char}
use rpcmple.Signature.Reader.{
  Read, as_value, take_array, take_text, take_word, take_wide, size_of, double_at, int64_at,
  uint64_at, read_kind, read_double, read_doubles, read_int64, read_int64s, read_uint64,
  read_uint64s, read_string, read_strings, read_wstring, read_wstrings, read_named, read_variant,
  read_labelled, read_item, read_items, from_binary,
}
use rpcmple.Signature.Wire.{
  Encoded, encode_word, encode_text, encode_wide, encode_list, encode_kind, encode_labelled,
  encode_item, encode, IsWord, IsVariant,
}
use rpcmple.Signature.Elements.{
  Finds, ⋯-eq-ok, Restores, take_word-Finds, take_text-Finds, take_text-Finds_wide, take_wide-Finds,
  take_array-Finds, map_self,
}
use rpcmple.Signature.Received.{NoZero, text_of, narrowed, received_as, received}

as_value-Finds :
    {A : Type 0} (f : A → Variant) (read : List ℕ → Read A) (bs : List ℕ) (a : A)
    → Finds read bs a
    → Finds (λ rest. as_value f (read rest)) bs (f a)
as_value-Finds f read bs a finds rest = rw (finds rest) refl

module _ (codec : Codec) (utf8 : IsUtf8 codec) (m : Bool) where
  restores : Restores (double_at m) × Restores (int64_at m) × Restores (uint64_at m)
  restores =
      (λ w rest h. (all w rest h).2, λ w rest h. (all w rest h).1, λ w rest h. (all w rest h).0)
    where
      all :
          (w : ℕ) (rest : List ℕ)
          → IsWord w
          → (bytes_to_uint64 m (le_bytes 8 w ++ rest) true ≡ some w)
            × (bytes_to_int64 m (le_bytes 8 w ++ rest) true ≡ some w)
            × (bytes_to_double m (le_bytes 8 w ++ rest) true ≡ some w)
      all w rest h =
          let back = of_bytes-le_bytes 8 w h in
          let (u, i, d) = bytes_to_uint64_lem m (le_bytes 8 w) rest refl (le_bytes-IsBytes 8 w) in
          (u ∙ ap some back, i ∙ ap some back, d ∙ ap some back)

  array-Finds :
      {A : Type 0} (P : A → Type 0) (f : A → Encoded) (one : List ℕ → Read A)
      → ((x : A) (bs : List ℕ) → P x → f x ≡ ok bs → Finds one bs x)
      → (xs : List A) (bs : List ℕ) → All P xs
      → encode_list f xs ≡ ok bs
      → Finds (take_array (size_of m) one) bs xs
  array-Finds P f one finds xs bs h e rest =
      rw (take_array-Finds P f one (λ x. x) finds m xs bs h e rest)
        (ap (λ ys. ok (ys, rest)) (map_self xs))

  words-Finds :
      (convert : List ℕ → Option ℕ)
      → Restores convert
      → (ws bs : List ℕ) → All IsWord ws
      → encode_list encode_word ws ≡ ok bs
      → Finds (take_array (size_of m) (take_word convert)) bs ws
  words-Finds convert restore =
      array-Finds IsWord encode_word (take_word convert) (take_word-Finds convert restore)

  -- Under a character other than 'v' the value itself arrives.
  read_kind-Finds :
      (k : Kind) (v : Variant) (bs : List ℕ)
      → IsVariant v
      → NoZero v
      → encode_kind codec.to_bytes k v ≡ ok bs
      → Finds (read_kind codec.from_bytes m k) bs v
  unfolding read_kind read_double read_doubles read_int64 read_int64s read_uint64 read_uint64s
      read_string read_strings read_wstring read_wstrings encode_kind
  read_kind-Finds Kind.double (Variant.double w) bs h z e =
      as_value-Finds Variant.double (take_word (double_at m)) bs w
        (take_word-Finds (double_at m) restores.0 w bs h e)
  read_kind-Finds Kind.int64 (Variant.int64 w) bs h z e =
      as_value-Finds Variant.int64 (take_word (int64_at m)) bs w
        (take_word-Finds (int64_at m) restores.1 w bs h e)
  read_kind-Finds Kind.uint64 (Variant.uint64 w) bs h z e =
      as_value-Finds Variant.uint64 (take_word (uint64_at m)) bs w
        (take_word-Finds (uint64_at m) restores.2 w bs h e)
  read_kind-Finds Kind.doubles (Variant.doubles ws) bs h z e =
      as_value-Finds Variant.doubles (take_array (size_of m) (take_word (double_at m))) bs ws
        (words-Finds (double_at m) restores.0 ws bs h e)
  read_kind-Finds Kind.int64s (Variant.int64s ws) bs h z e =
      as_value-Finds Variant.int64s (take_array (size_of m) (take_word (int64_at m))) bs ws
        (words-Finds (int64_at m) restores.1 ws bs h e)
  read_kind-Finds Kind.uint64s (Variant.uint64s ws) bs h z e =
      as_value-Finds Variant.uint64s (take_array (size_of m) (take_word (uint64_at m))) bs ws
        (words-Finds (uint64_at m) restores.2 ws bs h e)
  read_kind-Finds Kind.string (Variant.string s) bs h z e =
      as_value-Finds Variant.string (take_text (size_of m)) bs s (take_text-Finds m s bs e)
  read_kind-Finds Kind.wstring (Variant.wstring w) bs h z e =
      as_value-Finds Variant.wstring (take_wide codec.from_bytes (size_of m)) bs w
        (take_wide-Finds codec utf8 m w bs z e)
  read_kind-Finds Kind.strings (Variant.strings ss) bs h z e =
      as_value-Finds Variant.strings (take_array (size_of m) (take_text (size_of m))) bs ss (
        array-Finds IsBytes encode_text (take_text (size_of m)) (λ s cs hs. take_text-Finds m s cs)
          ss bs h e)
  read_kind-Finds Kind.wstrings (Variant.wstrings ws) bs h z e =
      as_value-Finds Variant.wstrings
        (take_array (size_of m) (take_wide codec.from_bytes (size_of m))) bs ws
        (array-Finds (All (λ x. x ≢ 0)) (encode_wide codec.to_bytes)
          (take_wide codec.from_bytes (size_of m)) (take_wide-Finds codec utf8 m) ws bs z e)
  read_kind-Finds _ _ bs h z e = cc

  text-Finds :
      (w bs : List ℕ)
      → encode_wide codec.to_bytes w ≡ ok bs
      → Finds (take_text (size_of m)) bs (text_of codec w)
  unfolding text_of
  text-Finds w bs e rest =
      let (s, eq, finds) = take_text-Finds_wide codec.to_bytes m w bs e in
      rw (text_of, eq) (finds rest)

  -- Under a 'v' the message names the type, and the value arrives under it.
  read_named-Finds :
      (v : Variant) (bs : List ℕ)
      → IsVariant v
      → NoZero v
      → encode_kind codec.to_bytes (kind_of v) v ≡ ok bs
      → Finds
          (read_named codec.from_bytes m (classify (wire_char (kind_of v))))
          bs
          (narrowed codec v)
  unfolding read_named read_kind read_string read_strings classify wire_char kind_of narrowed
      encode_kind
  read_named-Finds (Variant.wstring w) bs h z e =
      as_value-Finds Variant.string (take_text (size_of m)) bs (text_of codec w) (text-Finds w bs e)
  read_named-Finds (Variant.wstrings ws) bs h z e =
      as_value-Finds Variant.strings (take_array (size_of m) (take_text (size_of m))) bs
        (map (text_of codec) ws)
        (take_array-Finds (All (λ x. x ≢ 0)) (encode_wide codec.to_bytes) (take_text (size_of m))
          (text_of codec) (λ w cs hw. text-Finds w cs) m ws bs z e)
  read_named-Finds (Variant.double w) bs h z e =
      read_kind-Finds Kind.double (Variant.double w) bs h z e
  read_named-Finds (Variant.int64 w) bs h z e =
      read_kind-Finds Kind.int64 (Variant.int64 w) bs h z e
  read_named-Finds (Variant.uint64 w) bs h z e =
      read_kind-Finds Kind.uint64 (Variant.uint64 w) bs h z e
  read_named-Finds (Variant.doubles w) bs h z e =
      read_kind-Finds Kind.doubles (Variant.doubles w) bs h z e
  read_named-Finds (Variant.int64s w) bs h z e =
      read_kind-Finds Kind.int64s (Variant.int64s w) bs h z e
  read_named-Finds (Variant.uint64s w) bs h z e =
      read_kind-Finds Kind.uint64s (Variant.uint64s w) bs h z e
  read_named-Finds (Variant.string w) bs h z e =
      read_kind-Finds Kind.string (Variant.string w) bs h z e
  read_named-Finds (Variant.strings w) bs h z e =
      read_kind-Finds Kind.strings (Variant.strings w) bs h z e

  read_labelled-Finds :
      (k : Option Kind) (v : Variant) (bs : List ℕ)
      → IsVariant v
      → NoZero v
      → encode_labelled codec.to_bytes k v ≡ ok bs
      → Finds (read_labelled codec.from_bytes m k) bs (received_as codec k v)
  unfolding read_labelled read_variant encode_labelled received_as
  read_labelled-Finds none v bs h z e rest = cc
  read_labelled-Finds (some any) v bs h z e rest =
      let char : ℕ = wire_char (kind_of v) in
      let (fs, cs, named, value, joined) =
        ⋯-eq-ok (ok (char ∷ [])) (encode_kind codec.to_bytes (kind_of v) v) e in
      let named' : char ∷ [] ≡ fs = cc in
      rw (← joined, ← named') (read_named-Finds v cs h z value rest)
  read_labelled-Finds (some k) v bs h z e rest = read_kind-Finds k v bs h z e rest

  read_items-received :
      (sig : List ℕ) (vs : List Variant) (bs rest : List ℕ) (done blank : List Variant)
      → length sig ≡ length vs
      → length blank ≡ length sig
      → All IsVariant vs
      → All NoZero vs
      → encode codec.to_bytes sig vs ≡ ok bs
      → read_items codec.from_bytes m sig (length done) (bs ++ rest) (done ++ blank)
        ≡ ok (done ++ received codec sig vs)
  unfolding read_items read_item encode encode_item received
  read_items-received [] vs bs rest done [] n n' h z e = refl
  read_items-received [] vs bs rest done (b ∷ blank) n n' h z e = absurd (omega arith)
  read_items-received (char ∷ sig) [] bs rest done blank n n' h z e = absurd (omega arith)
  read_items-received (char ∷ sig) (v ∷ vs) bs rest done [] n n' h z e = absurd (omega arith)
  read_items-received (char ∷ sig) (v ∷ vs) bs rest done (b ∷ blank) n n' h z e =
      let (fs, cs, first, others, joined) =
        ⋯-eq-ok (encode_labelled codec.to_bytes (classify char) v) (encode codec.to_bytes sig vs)
          e in
      let v' : Variant = received_as codec (classify char) v in
      let next : length done + 1 ≡ length (done ++ v' ∷ []) =
        omega (arith, length-append done (v' ∷ [])) in
      rw
        (
          ← joined,
          append_assoc fs cs rest,
          read_labelled-Finds (classify char) v fs h.0 z.0 first (cs ++ rest),
          set-append done blank b v',
          next,
          read_items-received sig vs cs rest (done ++ v' ∷ []) blank (omega arith) (omega arith) h.1
              z.1 others,
        )
        (ap ok (append_assoc done (v' ∷ []) (received codec sig vs)))

  -- `fromBinary` gives back the values of an encoding, whatever bytes follow it in the message and
  -- whatever the vector of arguments held: each as it was, but for the wide strings under a 'v',
  -- which arrive as the strings that they were converted to. The values are as many as the
  -- signature's characters and of the C++ types, and no wide string has a zero character.
  pub from_binary-encode :
      (sig : List ℕ) (vs : List Variant) (bs rest : List ℕ) (args : List Variant)
      → length sig ≡ length vs
      → All IsVariant vs
      → All NoZero vs
      → encode codec.to_bytes sig vs ≡ ok bs
      → from_binary codec.from_bytes m sig (bs ++ rest) args ≡ ok (received codec sig vs)
  unfolding from_binary
  from_binary-encode sig vs bs rest args n h z e =
      read_items-received sig vs bs rest [] (resize (length sig) default_variant args) n
        (length-resize (length sig) default_variant args) h z e
