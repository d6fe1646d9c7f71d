-- ===== src/Signature/Reader.antt =====
-- `dataSignature::fromBinary`, one function for each case of its second `switch`. A message is
-- the bytes from `messageOffset` on, so `message.size() - messageOffset` is their length.
use rpcmple.Common.{ℕ, zero, suc, ◌+◌, List, [], ◌∷◌, length, take, drop, set, resize}
use rpcmple.Common.{Option, none, some, Outcome, ok, refused, thrown, fault, ◌>>=◌}
use rpcmple.Common.{Bool, true, or_fault, or_thrown, ltb, ◌==◌, if◌then◌else◌}
use rpcmple.Endian.{bytes_to_double, bytes_to_int64, bytes_to_uint64, bytes_to_uint16}
use rpcmple.Variant.{Variant, Text, default_variant}
use rpcmple.Signature.{Kind, any, classify}

-- A value and the bytes behind it; `refused` is `return false`.
abbrev pub Read : Type 0 → Type 0
Read A = Outcome (Unit {0}) (A × List ℕ)

-- `if (message.size() - messageOffset < n) return false;`
abbrev pub when_left : {A : Type 0} → ℕ → List ℕ → Read A → Read A
when_left n rest r = if ltb (length rest) n then refused tt else r

-- The cases 'd', 'i' and 'u': 8 bytes.
unfoldable pub take_word : (List ℕ → Option ℕ) → List ℕ → Read ℕ
take_word convert rest = when_left 8 rest (or_fault (convert rest) >>= λ w. ok (w, drop 8 rest))

unfoldable pub take_size : (List ℕ → Option ℕ) → List ℕ → Read ℕ
take_size convert rest = when_left 2 rest (or_fault (convert rest) >>= λ n. ok (n, drop 2 rest))

-- The first n bytes, from a memory that may be too short for them.
abbrev pub bytes_at : ℕ → List ℕ → Option (List ℕ)
bytes_at n rest = if ltb (length rest) n then none else some (take n rest)

unfoldable pub take_text : (List ℕ → Option ℕ) → List ℕ → Read Text
take_text size rest = do
  (n, rest') ← take_size size rest
  when_left n rest' (or_fault (bytes_at n rest') >>= λ s. ok (s, drop n rest'))

-- `byteVal.c_str()`, read as a C string: it ends at the first zero byte.
unfoldable pub c_str : Text → Text
c_str [] = []
c_str (b ∷ bs) = if b == 0 then [] else b ∷ c_str bs

unfoldable pub take_wide : (Text → Option Text) → (List ℕ → Option ℕ) → List ℕ → Read Text
take_wide from_bytes size rest = do
  (s, rest') ← take_text size rest
  w ← or_thrown (from_bytes (c_str s))
  ok (w, rest')

-- The loop over the elements of an array.
unfoldable pub take_each : {A : Type 0} → (List ℕ → Read A) → ℕ → List ℕ → Read (List A)
take_each one zero rest = ok ([], rest)
take_each one (suc n) rest = do
  (x, rest') ← one rest
  (xs, rest'') ← take_each one n rest'
  ok (x ∷ xs, rest'')

unfoldable pub take_array :
    {A : Type 0} → (List ℕ → Option ℕ) → (List ℕ → Read A) → List ℕ → Read (List A)
take_array size one rest = do (n, rest') ← take_size size rest; take_each one n rest'

abbrev pub as_value : {A : Type 0} → (A → Variant) → Read A → Read Variant
as_value f r = r >>= λ (x, rest). ok (f x, rest)

abbrev pub double_at : Bool → List ℕ → Option ℕ
double_at m bs = bytes_to_double m bs true

abbrev pub int64_at : Bool → List ℕ → Option ℕ
int64_at m bs = bytes_to_int64 m bs true

abbrev pub uint64_at : Bool → List ℕ → Option ℕ
uint64_at m bs = bytes_to_uint64 m bs true

unfoldable pub size_of : Bool → List ℕ → Option ℕ
size_of m rest = bytes_to_uint16 m rest true

-- On `return false` and on success alike the caller sees the values that were stored so far.
abbrev pub with_args : {A B : Type 0} → B → Outcome (Unit {0}) A → Outcome B A
with_args args (ok x) = ok x
with_args args (refused _) = refused args
with_args args thrown = thrown
with_args args fault = fault

module _ (from_bytes : Text → Option Text) (m : Bool) where
  unfoldable pub read_double : List ℕ → Read Variant
  read_double rest = as_value Variant.double (take_word (double_at m) rest)

  unfoldable pub read_doubles : List ℕ → Read Variant
  read_doubles rest =
      as_value Variant.doubles (take_array (size_of m) (take_word (double_at m)) rest)

  unfoldable pub read_int64 : List ℕ → Read Variant
  read_int64 rest = as_value Variant.int64 (take_word (int64_at m) rest)

  unfoldable pub read_int64s : List ℕ → Read Variant
  read_int64s rest = as_value Variant.int64s (take_array (size_of m) (take_word (int64_at m)) rest)

  unfoldable pub read_uint64 : List ℕ → Read Variant
  read_uint64 rest = as_value Variant.uint64 (take_word (uint64_at m) rest)

  unfoldable pub read_uint64s : List ℕ → Read Variant
  read_uint64s rest =
      as_value Variant.uint64s (take_array (size_of m) (take_word (uint64_at m)) rest)

  unfoldable pub read_wstring : List ℕ → Read Variant
  read_wstring rest = as_value Variant.wstring (take_wide from_bytes (size_of m) rest)

  unfoldable pub read_wstrings : List ℕ → Read Variant
  read_wstrings rest =
      as_value Variant.wstrings (take_array (size_of m) (take_wide from_bytes (size_of m)) rest)

  unfoldable pub read_string : List ℕ → Read Variant
  read_string rest = as_value Variant.string (take_text (size_of m) rest)

  unfoldable pub read_strings : List ℕ → Read Variant
  read_strings rest = as_value Variant.strings (take_array (size_of m) (take_text (size_of m)) rest)

  -- The second `switch`. Its `default` also takes a 'v' that the first has not replaced, which
  -- does not happen.
  unfoldable pub read_kind : Kind → List ℕ → Read Variant
  read_kind Kind.double rest = read_double rest
  read_kind Kind.doubles rest = read_doubles rest
  read_kind Kind.int64 rest = read_int64 rest
  read_kind Kind.int64s rest = read_int64s rest
  read_kind Kind.uint64 rest = read_uint64 rest
  read_kind Kind.uint64s rest = read_uint64s rest
  read_kind Kind.wstring rest = read_wstring rest
  read_kind Kind.wstrings rest = read_wstrings rest
  read_kind Kind.string rest = read_string rest
  read_kind Kind.strings rest = read_strings rest
  read_kind Kind.any rest = refused tt

  -- The first `switch`: after a 'v' the message names the type, which may not be 'v' again.
  unfoldable pub read_named : Option Kind → List ℕ → Read Variant
  read_named none rest = refused tt
  read_named (some any) rest = refused tt
  read_named (some k) rest = read_kind k rest

  unfoldable pub read_variant : List ℕ → Read Variant
  read_variant [] = refused tt
  read_variant (byte ∷ rest) = read_named (classify byte) rest

  unfoldable pub read_labelled : Option Kind → List ℕ → Read Variant
  read_labelled none rest = refused tt
  read_labelled (some any) rest = read_variant rest
  read_labelled (some k) rest = read_kind k rest

  unfoldable pub read_item : ℕ → List ℕ → Read Variant
  read_item char rest = read_labelled (classify char) rest

  -- The loop from index i on.
  unfoldable pub read_items :
      List ℕ → ℕ → List ℕ → List Variant → Outcome (List Variant) (List Variant)
  read_items [] i rest args = ok args
  read_items (char ∷ sig) i rest args = do
    (v, rest') ← with_args args (read_item char rest)
    read_items sig (i + 1) rest' (set args i v)

  unfoldable pub from_binary :
      List ℕ → List ℕ → List Variant → Outcome (List Variant) (List Variant)
  from_binary sig message args = read_items sig 0 message (resize (length sig) default_variant args)
