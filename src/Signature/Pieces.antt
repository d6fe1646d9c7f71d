-- ===== src/Signature/Pieces.antt =====
-- Each case of `toBinary` appends what the wire format says.
use rpcmple.Common.{ℕ, ◌%◌, ◌^◌, ◌<◌, ◌≡◌, ◌≢◌, refl, sym, subst, arith}
use rpcmple.Common.{List, [], ◌∷◌, ◌++◌, append-nil, length, take, take-length, All}
use rpcmple.Common.{Option, Option-cases, Bool, true, false, Bool-cases, inl, inr}
use rpcmple.Common.{ok, ◌>>=◌, >>=_assoc, or_thrown, ltb, leb}
use rpcmple.Endian.{le_bytes, double_to_bytes, int64_to_bytes, uint64_to_bytes, uint16_to_bytes}
use rpcmple.Endian.Laws.{to_bytes-ordered}
use rpcmple.Variant.{Variant, Text}
use rpcmple.Variant
use rpcmple.Signature.{Kind}
use rpcmple.Signature.Cursor.{Cursor, Written, reserve, write}
use rpcmple.Signature.Writer.{
  put_word, put_size, put_text, put_words, put_texts, put_wides, write_kind, write_double,
  write_doubles, write_int64, write_int64s, write_uint64, write_uint64s, write_wstring,
  write_wstrings, write_string, write_strings,
}
use rpcmple.Signature.Wire.{
  Encoded, encode_size, encode_each, encode_word, encode_text, encode_wide, encode_list,
  encode_kind, IsWord, IsVariant, Fits, WideFits, VariantFits,
}
use rpcmple.Signature.Append.{Holds, Writes, Writes-bind, put-Writes}

encode_size-lt : (n : ℕ) (bs : List ℕ) → encode_size n ≡ ok bs → n < 65536
unfolding encode_size
encode_size-lt n bs h = ground arith

put_size-Writes :
    (m : Bool) (n : ℕ) (ws : List ℕ) (c : Cursor)
    → n ≢ 65536
    → Holds ws c
    → Writes ws (put_size m n c) (encode_size n)
unfolding put_size encode_size
put_size-Writes m n ws c ne h = elim (Bool-cases (ltb 65536 n)) [
  | inl big ↦ rw (big, too_long big) tt
  | inr small ↦ rw (small, short small, bytes small) (put-Writes 2 ws (le_bytes 2 n) c refl h)
]
  where
    too_long : ltb 65536 n ≡ true → leb n 65535 ≡ false
    too_long big = ground arith

    short : ltb 65536 n ≡ false → leb n 65535 ≡ true
    short small = ground arith

    bytes : ltb 65536 n ≡ false → uint16_to_bytes m (n % 2 ^ 16) true ≡ le_bytes 2 n
    bytes small =
        let cut : n % 2 ^ 16 ≡ n = ground arith in
        rw cut ((to_bytes-ordered m n true).4 (ground arith))

-- A conversion that gives the 8 bytes of a word, the least significant first.
abbrev Converts : (ℕ → List ℕ) → Type 0
Converts convert = (w : ℕ) → IsWord w → convert w ≡ le_bytes 8 w

put_word-Writes :
    (convert : ℕ → List ℕ)
    → Converts convert
    → (w : ℕ) (ws : List ℕ) (c : Cursor) → IsWord w
    → Holds ws c
    → Writes ws (put_word (convert w) c) (encode_word w)
unfolding put_word encode_word
put_word-Writes convert converts w ws c h holds =
    rw (converts w h) (put-Writes 8 ws (le_bytes 8 w) c refl holds)

put_text-Writes :
    (m : Bool) (s : Text) (ws : List ℕ) (c : Cursor)
    → Fits s
    → Holds ws c
    → Writes ws (put_text m s c) (encode_text s)
unfolding put_text encode_text
put_text-Writes m s ws c fits h =
    Writes-bind ws (put_size m (length s) c)
      (λ c'. write (length s % 2 ^ 16) s (reserve (length s % 2 ^ 16) c')) (encode_size (length s))
      (ok s) (put_size-Writes m (length s) ws c fits h)
      λ bs c' e h'.
        let cut : length s % 2 ^ 16 ≡ length s = omega (arith, encode_size-lt (length s) bs e) in
        put-Writes (length s % 2 ^ 16) (ws ++ bs) s c' (sym cut) h'

pub Holds-nil : (ws : List ℕ) (c : Cursor) → Holds ws c → Holds (ws ++ []) c
Holds-nil ws c h = subst (λ l. Holds l c) (sym (append-nil ws)) h

put_words-Writes :
    (convert : ℕ → List ℕ)
    → Converts convert
    → (xs : List ℕ) (ws : List ℕ) (c : Cursor) → All IsWord xs
    → Holds ws c
    → Writes ws (put_words convert xs c) (encode_each encode_word xs)
unfolding put_words
put_words-Writes convert converts [] ws c h holds = Holds-nil ws c holds
put_words-Writes convert converts (x ∷ xs) ws c h holds =
    Writes-bind ws (put_word (convert x) c) (put_words convert xs) (encode_word x)
      (encode_each encode_word xs) (put_word-Writes convert converts x ws c h.0 holds)
      λ bs c' e h'. put_words-Writes convert converts xs (ws ++ bs) c' h.1 h'

put_texts-Writes :
    (m : Bool) (ss : List Text) (ws : List ℕ) (c : Cursor)
    → All Fits ss
    → Holds ws c
    → Writes ws (put_texts m ss c) (encode_each encode_text ss)
unfolding put_texts
put_texts-Writes m [] ws c fits holds = Holds-nil ws c holds
put_texts-Writes m (s ∷ ss) ws c fits holds =
    Writes-bind ws (put_text m s c) (put_texts m ss) (encode_text s) (encode_each encode_text ss)
      (put_text-Writes m s ws c fits.0 holds)
      λ bs c' e h'. put_texts-Writes m ss (ws ++ bs) c' fits.1 h'

module _ (t : Text → Option Text) (m : Bool) where
  put_wide-Writes :
      (w : Text) (ws : List ℕ) (c : Cursor)
      → WideFits t w
      → Holds ws c
      → Writes ws (or_thrown (t w) >>= λ s. put_text m s c) (encode_wide t w)
  unfolding encode_wide
  put_wide-Writes w ws c fits holds = elim (Option-cases (t w)) [
    | inl e ↦ rw e tt
    | inr (s, e) ↦ rw e (put_text-Writes m s ws c (fits s e) holds)
  ]

  put_wides-Writes :
      (vs : List Text) (ws : List ℕ) (c : Cursor)
      → All (WideFits t) vs
      → Holds ws c
      → Writes ws (put_wides t m vs c) (encode_each (encode_wide t) vs)
  unfolding put_wides
  put_wides-Writes [] ws c fits holds = Holds-nil ws c holds
  put_wides-Writes (v ∷ vs) ws c fits holds =
      rw (>>=_assoc (or_thrown {E = List ℕ} (t v)) (λ s. put_text m s c) (put_wides t m vs)) (
        Writes-bind ws (or_thrown (t v) >>= λ s. put_text m s c) (put_wides t m vs)
          (encode_wide t v) (encode_each (encode_wide t) vs) (put_wide-Writes v ws c fits.0 holds)
          λ bs c' e h'. put_wides-Writes vs (ws ++ bs) c' fits.1 h')

  put_list-Writes :
      {A : Type 0} (f : A → Encoded) (g : List A → Cursor → Written) (xs : List A) (ws : List ℕ)
      (c : Cursor)
      → Fits xs
      → ((ws' : List ℕ) (c' : Cursor) → Holds ws' c' → Writes ws' (g xs c') (encode_each f xs))
      → Holds ws c
      → Writes ws (put_size m (length xs) c >>= g (take (length xs % 2 ^ 16) xs)) (encode_list f xs)
  unfolding encode_list
  put_list-Writes f g xs ws c fits each holds =
      Writes-bind ws (put_size m (length xs) c) (g (take (length xs % 2 ^ 16) xs))
        (encode_size (length xs)) (encode_each f xs) (put_size-Writes m (length xs) ws c fits holds)
        λ bs c' e h'.
          let all : take (length xs % 2 ^ 16) xs ≡ xs =
            take-length (length xs % 2 ^ 16) xs (omega (arith, encode_size-lt (length xs) bs e)) in
          rw all (each (ws ++ bs) c' h')

  Converts-double : Converts (λ w. double_to_bytes m w true)
  Converts-double w h = (to_bytes-ordered m w true).2 h

  Converts-int64 : Converts (λ w. int64_to_bytes m w true)
  Converts-int64 w h = (to_bytes-ordered m w true).1 h

  Converts-uint64 : Converts (λ w. uint64_to_bytes m w true)
  Converts-uint64 w h = (to_bytes-ordered m w true).0 h

  -- Every case of the `switch` appends the encoding of its value, or refuses one of another type.
  pub write_kind-Writes :
      (k : Kind) (v : Variant) (ws : List ℕ) (c : Cursor)
      → IsVariant v
      → VariantFits t v
      → Holds ws c
      → Writes ws (write_kind t m k v c) (encode_kind t k v)
  unfolding write_kind write_double write_doubles write_int64 write_int64s write_uint64
      write_uint64s write_wstring write_wstrings write_string write_strings encode_kind
      Variant.get_double Variant.get_doubles Variant.get_int64 Variant.get_int64s Variant.get_uint64
      Variant.get_uint64s Variant.get_wstring Variant.get_wstrings Variant.get_string
      Variant.get_strings
  write_kind-Writes Kind.double (Variant.double w) ws c h fits holds =
      put_word-Writes _ Converts-double w ws c h holds
  write_kind-Writes Kind.int64 (Variant.int64 w) ws c h fits holds =
      put_word-Writes _ Converts-int64 w ws c h holds
  write_kind-Writes Kind.uint64 (Variant.uint64 w) ws c h fits holds =
      put_word-Writes _ Converts-uint64 w ws c h holds
  write_kind-Writes Kind.doubles (Variant.doubles xs) ws c h fits holds =
      put_list-Writes encode_word (put_words (λ w. double_to_bytes m w true)) xs ws c fits
        (λ ws' c' h'. put_words-Writes _ Converts-double xs ws' c' h h') holds
  write_kind-Writes Kind.int64s (Variant.int64s xs) ws c h fits holds =
      put_list-Writes encode_word (put_words (λ w. int64_to_bytes m w true)) xs ws c fits
        (λ ws' c' h'. put_words-Writes _ Converts-int64 xs ws' c' h h') holds
  write_kind-Writes Kind.uint64s (Variant.uint64s xs) ws c h fits holds =
      put_list-Writes encode_word (put_words (λ w. uint64_to_bytes m w true)) xs ws c fits
        (λ ws' c' h'. put_words-Writes _ Converts-uint64 xs ws' c' h h') holds
  write_kind-Writes Kind.wstring (Variant.wstring w) ws c h fits holds =
      put_wide-Writes w ws c fits holds
  write_kind-Writes Kind.wstrings (Variant.wstrings vs) ws c h fits holds =
      put_list-Writes (encode_wide t) (put_wides t m) vs ws c fits.0
        (λ ws' c' h'. put_wides-Writes vs ws' c' fits.1 h') holds
  write_kind-Writes Kind.string (Variant.string s) ws c h fits holds =
      put_text-Writes m s ws c fits holds
  write_kind-Writes Kind.strings (Variant.strings ss) ws c h fits holds =
      put_list-Writes encode_text (put_texts m) ss ws c fits.0
        (λ ws' c' h'. put_texts-Writes m ss ws' c' fits.1 h') holds
  write_kind-Writes _ _ ws c h fits holds = tt
