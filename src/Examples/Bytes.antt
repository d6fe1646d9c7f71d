-- ===== src/Examples/Bytes.antt =====
-- rpcmple_cpp/src_examples/example4RPCServerOverTCP.cpp and example4RPCClientOverTCP.cpp: what the calls send and compute.
use rpcmple.Common.{ℕ, ◌+◌, ◌*◌, ◌%◌, ◌^◌, ◌<◌, ◌≡◌, refl, ◌∙◌, arith}
use rpcmple.Common.{List, [], ◌∷◌, ◌++◌, length, length-append, All-append, Option, true}
use rpcmple.Common.{ok, leb}
use rpcmple.Bits.{IsBytes}
use rpcmple.Endian.{le_bytes}
use rpcmple.Variant.{Variant, Text}
use rpcmple.Signature.{classify}
use rpcmple.Signature.Wire.{
  encode, encode_item, encode_labelled, encode_kind, encode_word, encode_text, encode_size,
  encode_list, encode_each,
}
use rpcmple.Examples.{greeting, sum_from, you_said, hello_to_you}

-- What a string, a number and a sequence of numbers are sent as.
abbrev pub string_bytes : Text → List ℕ
string_bytes s = (le_bytes 2 (length s) ++ s) ++ []

abbrev pub number_bytes : ℕ → List ℕ
number_bytes x = le_bytes 8 x ++ []

abbrev pub words_bytes : List ℕ → List ℕ
words_bytes [] = []
words_bytes (x ∷ xs) = le_bytes 8 x ++ words_bytes xs

abbrev pub numbers_bytes : List ℕ → List ℕ
numbers_bytes xs = (le_bytes 2 (length xs) ++ words_bytes xs) ++ []

small : (n : ℕ) → n < 65536 → leb n 65535 ≡ true
small n h = ground arith

pub encode-string :
    (t : Text → Option Text) (s : Text)
    → length s < 65536
    → encode t (b's' ∷ []) (Variant.string s ∷ []) ≡ ok (string_bytes s)
unfolding encode encode_item encode_labelled encode_kind encode_text encode_size classify
encode-string t s h = rw (small (length s) h) refl

pub encode-number :
    (t : Text → Option Text) (x : ℕ)
    → encode t (b'i' ∷ []) (Variant.int64 x ∷ []) ≡ ok (number_bytes x)
unfolding encode encode_item encode_labelled encode_kind encode_word classify
encode-number t x = refl

encode_words : (xs : List ℕ) → encode_each encode_word xs ≡ ok (words_bytes xs)
unfolding encode_word
encode_words [] = refl
encode_words (x ∷ xs) = rw (encode_words xs) refl

pub encode-numbers :
    (t : Text → Option Text) (xs : List ℕ)
    → length xs < 65536
    → encode t (b'I' ∷ []) (Variant.int64s xs ∷ []) ≡ ok (numbers_bytes xs)
unfolding encode encode_item encode_labelled encode_kind encode_list encode_size classify
encode-numbers t xs h = rw (small (length xs) h, encode_words xs) refl

pub encode-nothing : (t : Text → Option Text) → encode t [] [] ≡ ok []
unfolding encode
encode-nothing t = refl

length-words_bytes : (xs : List ℕ) → length (words_bytes xs) ≡ 8 * length xs
length-words_bytes [] = refl
length-words_bytes (x ∷ xs) = omega (arith, length-words_bytes xs)

pub string_sized : (s : Text) → length s < 65536 → length (string_bytes s) < 16777216
string_sized s h = omega (arith, length-append {0} (le_bytes 2 (length s) ++ s) [])

pub numbers_sized : (xs : List ℕ) → length xs < 65536 → length (numbers_bytes xs) < 16777216
numbers_sized xs h =
    omega (
      arith,
      length-append {0} (le_bytes 2 (length xs) ++ words_bytes xs) [],
      length-words_bytes xs,
    )

-- The sum as a number, without wrap-around.
unfoldable pub total : List ℕ → ℕ
total [] = 0
total (x ∷ xs) = x + total xs

sum_from-total :
    (acc : ℕ) (xs : List ℕ) → acc < 2 ^ 64 → sum_from acc xs ≡ (acc + total xs) % 2 ^ 64
unfolding sum_from total
sum_from-total acc [] h = omega arith
sum_from-total acc (x ∷ xs) h = sum_from-total ((acc + x) % 2 ^ 64) xs (omega arith) ∙ omega arith

pub sum_total : (xs : List ℕ) → sum_from 0 xs ≡ total xs % 2 ^ 64
sum_total xs = sum_from-total 0 xs (omega arith) ∙ omega arith

pub length-greeting : (words : Text) → length (greeting words) ≡ length words + 37
length-greeting words =
    length-append (you_said ++ words) hello_to_you ∙ omega (arith, length-append {0} you_said words)

pub greeting-IsBytes : (words : Text) → IsBytes words → IsBytes (greeting words)
greeting-IsBytes words bytes =
    All-append (λ b. b < 256) (you_said ++ words) hello_to_you
      (All-append (λ b. b < 256) you_said words (omega arith) bytes) (omega arith)
