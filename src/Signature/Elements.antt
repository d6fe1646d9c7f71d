-- ===== src/Signature/Elements.antt =====
-- What each case of `fromBinary` finds in the encoding of a value.
use rpcmple.Common.{ℕ, ◌^◌, ◌<◌, ◌≡◌, ◌≢◌, refl, ap, ◌∙◌, arith}
use rpcmple.Common.{List, [], ◌∷◌, ◌++◌, append_assoc, length, All, length-append}
use rpcmple.Common.{take-append, drop-append, map}
use rpcmple.Common.{Option, none, some, Bool, true, false}
use rpcmple.Common.{ok, refused, thrown, fault, ◌>>=◌, or_thrown, ltb, leb, if◌then◌else◌}
use rpcmple.Endian.{le_bytes}
use rpcmple.Endian.Laws.{bytes_to_uint16_lem}
use rpcmple.Endian.Digits.{le_bytes-IsBytes, of_bytes-le_bytes}
use rpcmple.Variant.{Text}
use rpcmple.Signature.{Codec, IsUtf8}
use rpcmple.Signature.Reader.{
  Read, when_left, take_word, take_size, take_text, take_wide, take_each, take_array, size_of,
  c_str,
}
use rpcmple.Signature.Wire.{
  Encoded, ◌⋯◌, encode_size, encode_each, encode_word, encode_text, encode_wide, encode_list,
  IsWord,
}

-- Wherever these bytes stand in a message, the reader takes them off and gives the value.
abbrev pub Finds : {A : Type 0} → (List ℕ → Read A) → List ℕ → A → Type 0
Finds read bs a = (rest : List ℕ) → read (bs ++ rest) ≡ ok (a, rest)

-- An encoding in two parts.
pub ⋯-eq-ok :
    (a b : Encoded) {bs : List ℕ}
    → (a ⋯ b) ≡ ok bs
    → (fs : List ℕ) × (cs : List ℕ) × (a ≡ ok fs) × (b ≡ ok cs) × (fs ++ cs ≡ bs)
⋯-eq-ok (ok fs) (ok cs) h = (fs, cs, refl, refl, ground arith)
⋯-eq-ok (ok fs) (refused _) h = cc
⋯-eq-ok (ok fs) thrown h = cc
⋯-eq-ok (ok fs) fault h = cc
⋯-eq-ok (refused _) b h = cc
⋯-eq-ok thrown b h = cc
⋯-eq-ok fault b h = cc

when_left-enough :
    {A : Type 0} (n : ℕ) (bs rest : List ℕ) (r : Read A)
    → length bs ≡ n
    → when_left n (bs ++ rest) r ≡ r
when_left-enough n bs rest r e = rw enough refl
  where
    enough : ltb (length (bs ++ rest)) n ≡ false
    enough = ground (arith, length-append bs rest)

if-eq-ok :
    (t : Bool) (bs cs : List ℕ)
    → (let kept : Encoded = ok bs in if t then kept else refused tt) ≡ ok cs
    → (t ≡ true) × (bs ≡ cs)
if-eq-ok true bs cs h = (refl, cc)
if-eq-ok false bs cs h = cc

or_thrown-eq-ok :
    (o : Option Text) (f : Text → Encoded) (bs : List ℕ)
    → (or_thrown o >>= f) ≡ ok bs
    → (s : Text) × (o ≡ some s) × (f s ≡ ok bs)
or_thrown-eq-ok none f bs h = cc
or_thrown-eq-ok (some s) f bs h = (s, refl, h)

encode_size-eq-ok :
    (n : ℕ) (bs : List ℕ) → encode_size n ≡ ok bs → (n < 2 ^ 16) × (le_bytes 2 n ≡ bs)
unfolding encode_size
encode_size-eq-ok n bs h =
    let (fits, e) = if-eq-ok (leb n 65535) (le_bytes 2 n) bs h in (ground arith, e)

pub take_size-Finds :
    (m : Bool) (n : ℕ) (bs : List ℕ) → encode_size n ≡ ok bs → Finds (take_size (size_of m)) bs n
unfolding take_size size_of
take_size-Finds m n bs h rest =
    let (small, e) = encode_size-eq-ok n bs h in
    rw (← e) (
      when_left-enough 2 (le_bytes 2 n) rest _ refl
      ∙ rw
          (
            bytes_to_uint16_lem m (le_bytes 2 n) rest refl (le_bytes-IsBytes 2 n),
            of_bytes-le_bytes 2 n small,
          )
          refl)

-- A conversion that gives a word back from its 8 bytes, whatever follows them.
abbrev pub Restores : (List ℕ → Option ℕ) → Type 0
Restores convert = (w : ℕ) (rest : List ℕ) → IsWord w → convert (le_bytes 8 w ++ rest) ≡ some w

pub take_word-Finds :
    (convert : List ℕ → Option ℕ)
    → Restores convert
    → (w : ℕ) (bs : List ℕ) → IsWord w
    → encode_word w ≡ ok bs
    → Finds (take_word convert) bs w
unfolding take_word encode_word
take_word-Finds convert reads w bs h e rest =
    let e' : le_bytes 8 w ≡ bs = cc in
    rw (← e') (when_left-enough 8 (le_bytes 8 w) rest _ refl ∙ rw (reads w rest h) refl)

take_text-of :
    (m : Bool) (s bs rest : List ℕ)
    → encode_size (length s) ≡ ok bs
    → take_text (size_of m) ((bs ++ s) ++ rest) ≡ ok (s, rest)
unfolding take_text
take_text-of m s bs rest h =
    rw (append_assoc bs s rest, take_size-Finds m (length s) bs h (s ++ rest))
      (when_left-enough (length s) s rest _ refl
        ∙ rw (whole, take-append (length s) s rest refl, drop-append (length s) s rest refl) refl)
  where
    whole : ltb (length (s ++ rest)) (length s) ≡ false
    whole = ground (arith, length-append s rest)

pub take_text-Finds :
    (m : Bool) (s bs : List ℕ) → encode_text s ≡ ok bs → Finds (take_text (size_of m)) bs s
unfolding encode_text
take_text-Finds m s bs h rest =
    let (fs, cs, sized, body, joined) = ⋯-eq-ok (encode_size (length s)) (ok s) h in
    let body' : s ≡ cs = cc in rw (← joined, ← body') (take_text-of m s fs rest sized)

-- A wide string arrives as the bytes it was converted to,
pub take_text-Finds_wide :
    (to_bytes : Text → Option Text) (m : Bool) (w bs : List ℕ)
    → encode_wide to_bytes w ≡ ok bs
    → (s : Text) × (to_bytes w ≡ some s) × Finds (take_text (size_of m)) bs s
unfolding encode_wide
take_text-Finds_wide to_bytes m w bs h =
    let (s, e, text) = or_thrown-eq-ok (to_bytes w) encode_text bs h in
    (s, e, take_text-Finds m s bs text)

c_str-no_zero : (s : Text) → All (λ x. x ≢ 0) s → c_str s ≡ s
unfolding c_str
c_str-no_zero [] h = refl
c_str-no_zero (b ∷ s) h = ground (arith, c_str-no_zero s h.1)

-- or as itself where it is converted back, unless it has a zero character.
pub take_wide-Finds :
    (codec : Codec)
    → IsUtf8 codec
    → (m : Bool) (w bs : List ℕ) → All (λ x. x ≢ 0) w
    → encode_wide codec.to_bytes w ≡ ok bs
    → Finds (take_wide codec.from_bytes (size_of m)) bs w
unfolding take_wide
take_wide-Finds codec utf8 m w bs nonzero h rest =
    let (s, e, finds) = take_text-Finds_wide codec.to_bytes m w bs h in
    rw (finds rest, c_str-no_zero s (utf8.makes_no_zero w s e nonzero), utf8.converts_back w s e)
      refl

module _ {A B : Type 0} (P : A → Type 0) (f : A → Encoded) (one : List ℕ → Read B) (g : A → B) where
  take_each-Finds :
      ((x : A) (bs : List ℕ) → P x → f x ≡ ok bs → Finds one bs (g x))
      → (xs : List A) (bs : List ℕ) → All P xs
      → encode_each f xs ≡ ok bs
      → Finds (take_each one (length xs)) bs (map g xs)
  unfolding take_each
  take_each-Finds finds [] bs h e rest = let e' : [] ≡ bs = cc in rw (← e') refl
  take_each-Finds finds (x ∷ xs) bs h e rest =
      let (fs, cs, first, others, joined) = ⋯-eq-ok (f x) (encode_each f xs) e in
      rw
        (
          ← joined,
          append_assoc fs cs rest,
          finds x fs h.0 first (cs ++ rest),
          take_each-Finds finds xs cs h.1 others rest,
        )
        refl

  pub take_array-Finds :
      ((x : A) (bs : List ℕ) → P x → f x ≡ ok bs → Finds one bs (g x))
      → (m : Bool) (xs : List A) (bs : List ℕ) → All P xs
      → encode_list f xs ≡ ok bs
      → Finds (take_array (size_of m) one) bs (map g xs)
  unfolding take_array encode_list
  take_array-Finds finds m xs bs h e rest =
      let (fs, cs, sized, each, joined) = ⋯-eq-ok (encode_size (length xs)) (encode_each f xs) e in
      rw (← joined, append_assoc fs cs rest, take_size-Finds m (length xs) fs sized (cs ++ rest))
        (take_each-Finds finds xs cs h each rest)

pub map_self : {A : Type 0} (xs : List A) → map (λ x. x) xs ≡ xs
map_self [] = refl
map_self (x ∷ xs) = ap (◌∷◌ x) (map_self xs)
