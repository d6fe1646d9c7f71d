-- ===== src/Signature/Safety.antt =====
-- rpcmple_cpp/include/rpcmple/dataSignature.h: `fromBinary` on any message at all.
use rpcmple.Common.{ℕ, zero, suc, ◌+◌, ◌≤◌, ◌≡◌, refl, subst, arith}
use rpcmple.Common.{List, [], ◌∷◌, length, set, resize, length-set}
use rpcmple.Common.{length-resize}
use rpcmple.Common.{Option, none, some, Option-cases, Bool, true, false, Bool-cases, inl, inr}
use rpcmple.Common.{Outcome, ok, refused, thrown, fault, ◌>>=◌, ltb}
use rpcmple.Endian.{bytes_to_double, bytes_to_int64, bytes_to_uint64}
use rpcmple.Endian.Laws.{bytes_to_some}
use rpcmple.Variant.{Variant, Text, default_variant}
use rpcmple.Signature.{Kind, any, classify}
use rpcmple.Signature.Reader.{
  Read, when_left, take_word, take_size, take_text, take_wide, take_each, take_array, as_value,
  size_of, with_args, c_str, read_double, read_doubles, read_int64, read_int64s, read_uint64,
  read_uint64s, read_string, read_strings, read_wstring, read_wstrings, read_kind, read_named,
  read_variant, read_labelled, read_item, read_items, from_binary,
}

-- The call does not run into undefined behaviour.
abbrev pub NoFault {ℓ κ} : {E : Type κ} {A : Type ℓ} → Outcome E A → Type 0
NoFault fault = ⊥
NoFault _ = Unit {0}

pub NoFault-bind {ℓ κ μ} :
    {E : Type κ} {A : Type ℓ} {B : Type μ} (o : Outcome E A) (f : A → Outcome E B)
    → NoFault o
    → ((a : A) → NoFault (f a))
    → NoFault (o >>= f)
NoFault-bind (ok a) f h k = k a
NoFault-bind (refused e) f h k = tt
NoFault-bind thrown f h k = tt
NoFault-bind fault f h k = h

-- A conversion that has a value for n bytes or more.
abbrev Reads : ℕ → (List ℕ → Option ℕ) → Type 0
Reads n convert = (bs : List ℕ) → n ≤ length bs → (w : ℕ) × (convert bs ≡ some w)

when_left-NoFault :
    {A : Type 0} (n : ℕ) (rest : List ℕ) (r : Read A)
    → (n ≤ length rest → NoFault r)
    → NoFault (when_left n rest r)
when_left-NoFault n rest r h = elim (Bool-cases (ltb (length rest) n)) [
  | inl short ↦ rw short tt
  | inr enough ↦ rw enough (h (ground arith))
]

take_word-NoFault :
    (convert : List ℕ → Option ℕ)
    → Reads 8 convert
    → (rest : List ℕ) → NoFault (take_word convert rest)
unfolding take_word
take_word-NoFault convert reads rest = when_left-NoFault 8 rest _ λ h. rw ((reads rest h).1) tt

take_size-NoFault : (m : Bool) (rest : List ℕ) → NoFault (take_size (size_of m) rest)
unfolding take_size size_of
take_size-NoFault m rest =
    when_left-NoFault 2 rest _ λ h. rw (((bytes_to_some m rest true).3 h).1) tt

take_text-NoFault : (m : Bool) (rest : List ℕ) → NoFault (take_text (size_of m) rest)
unfolding take_text
take_text-NoFault m rest =
    NoFault-bind (take_size (size_of m) rest) _ (take_size-NoFault m rest) λ (n, rest').
      when_left-NoFault n rest' _
        λ h. let whole : ltb (length rest') n ≡ false = ground arith in rw whole tt

take_each-NoFault :
    {A : Type 0} (one : List ℕ → Read A)
    → ((rest : List ℕ) → NoFault (one rest))
    → (n : ℕ) (rest : List ℕ) → NoFault (take_each one n rest)
unfolding take_each
take_each-NoFault one h zero rest = tt
take_each-NoFault one h (suc n) rest =
    NoFault-bind (one rest) _ (h rest)
      λ (x, rest'). NoFault-bind (take_each one n rest') _ (take_each-NoFault one h n rest') λ _. tt

take_array-NoFault :
    {A : Type 0} (m : Bool) (one : List ℕ → Read A)
    → ((rest : List ℕ) → NoFault (one rest))
    → (rest : List ℕ) → NoFault (take_array (size_of m) one rest)
unfolding take_array
take_array-NoFault m one h rest =
    NoFault-bind (take_size (size_of m) rest) _ (take_size-NoFault m rest)
      λ (n, rest'). take_each-NoFault one h n rest'

as_value-NoFault : {A : Type 0} (f : A → Variant) (r : Read A) → NoFault r → NoFault (as_value f r)
as_value-NoFault f r h = NoFault-bind r _ h λ _. tt

-- The arguments that the caller finds after a call that returned.
abbrev pub LeavesArgs : ℕ → Outcome (List Variant) (List Variant) → Type 0
LeavesArgs n (ok args) = length args ≡ n
LeavesArgs n (refused args) = length args ≡ n
LeavesArgs n thrown = Unit {0}
LeavesArgs n fault = ⊥

module _ (from_bytes : Text → Option Text) (m : Bool) where
  take_wide-NoFault : (rest : List ℕ) → NoFault (take_wide from_bytes (size_of m) rest)
  unfolding take_wide
  take_wide-NoFault rest =
      NoFault-bind (take_text (size_of m) rest) _ (take_text-NoFault m rest) λ (s, rest').
        elim (Option-cases (from_bytes (c_str s))) [ inl e ↦ rw e tt | inr (w, e) ↦ rw e tt ]

  Reads-double : Reads 8 (λ bs. bytes_to_double m bs true)
  Reads-double bs h = (bytes_to_some m bs true).0 h

  Reads-int64 : Reads 8 (λ bs. bytes_to_int64 m bs true)
  Reads-int64 bs h = (bytes_to_some m bs true).1 h

  Reads-uint64 : Reads 8 (λ bs. bytes_to_uint64 m bs true)
  Reads-uint64 bs h = (bytes_to_some m bs true).2 h

  read_kind-NoFault : (k : Kind) (rest : List ℕ) → NoFault (read_kind from_bytes m k rest)
  unfolding read_kind read_double read_doubles read_int64 read_int64s read_uint64 read_uint64s
      read_string read_strings read_wstring read_wstrings
  read_kind-NoFault Kind.double rest = as_value-NoFault _ _ (take_word-NoFault _ Reads-double rest)
  read_kind-NoFault Kind.int64 rest = as_value-NoFault _ _ (take_word-NoFault _ Reads-int64 rest)
  read_kind-NoFault Kind.uint64 rest = as_value-NoFault _ _ (take_word-NoFault _ Reads-uint64 rest)
  read_kind-NoFault Kind.doubles rest =
      as_value-NoFault _ _ (take_array-NoFault m _ (take_word-NoFault _ Reads-double) rest)
  read_kind-NoFault Kind.int64s rest =
      as_value-NoFault _ _ (take_array-NoFault m _ (take_word-NoFault _ Reads-int64) rest)
  read_kind-NoFault Kind.uint64s rest =
      as_value-NoFault _ _ (take_array-NoFault m _ (take_word-NoFault _ Reads-uint64) rest)
  read_kind-NoFault Kind.wstring rest = as_value-NoFault _ _ (take_wide-NoFault rest)
  read_kind-NoFault Kind.wstrings rest =
      as_value-NoFault _ _ (take_array-NoFault m _ take_wide-NoFault rest)
  read_kind-NoFault Kind.string rest = as_value-NoFault _ _ (take_text-NoFault m rest)
  read_kind-NoFault Kind.strings rest =
      as_value-NoFault _ _ (take_array-NoFault m _ (take_text-NoFault m) rest)
  read_kind-NoFault Kind.any rest = tt

  read_named-NoFault : (k : Option Kind) (rest : List ℕ) → NoFault (read_named from_bytes m k rest)
  unfolding read_named
  read_named-NoFault none rest = tt
  read_named-NoFault (some any) rest = tt
  read_named-NoFault (some k) rest = read_kind-NoFault k rest

  read_variant-NoFault : (rest : List ℕ) → NoFault (read_variant from_bytes m rest)
  unfolding read_variant
  read_variant-NoFault [] = tt
  read_variant-NoFault (byte ∷ rest) = read_named-NoFault (classify byte) rest

  read_labelled-NoFault :
      (k : Option Kind) (rest : List ℕ) → NoFault (read_labelled from_bytes m k rest)
  unfolding read_labelled
  read_labelled-NoFault none rest = tt
  read_labelled-NoFault (some any) rest = read_variant-NoFault rest
  read_labelled-NoFault (some k) rest = read_kind-NoFault k rest

  with_args-LeavesArgs :
      (args : List Variant) (o : Outcome (Unit {0}) (Variant × List ℕ))
      (f : Variant × List ℕ → Outcome (List Variant) (List Variant))
      → NoFault o
      → ((x : Variant × List ℕ) → LeavesArgs (length args) (f x))
      → LeavesArgs (length args) (with_args args o >>= f)
  with_args-LeavesArgs args (ok x) f h k = k x
  with_args-LeavesArgs args (refused _) f h k = refl
  with_args-LeavesArgs args thrown f h k = tt
  with_args-LeavesArgs args fault f h k = h

  read_items-LeavesArgs :
      (sig : List ℕ) (i : ℕ) (rest : List ℕ) (args : List Variant)
      → LeavesArgs (length args) (read_items from_bytes m sig i rest args)
  unfolding read_items read_item
  read_items-LeavesArgs [] i rest args = refl
  read_items-LeavesArgs (char ∷ sig) i rest args =
      with_args-LeavesArgs args (read_labelled from_bytes m (classify char) rest) _
        (read_labelled-NoFault (classify char) rest)
        λ (v, rest').
          subst (λ (n : ℕ). LeavesArgs n (read_items from_bytes m sig (i + 1) rest' (set args i v)))
            (length-set args i v) (read_items-LeavesArgs sig (i + 1) rest' (set args i v))

  -- `fromBinary` never reads out of bounds, on any message, signature and vector of arguments, and
  -- whether it returns true or false the caller has as many arguments as the signature has
  -- characters. (It may throw, where a wide string cannot be converted.)
  pub from_binary-LeavesArgs :
      (sig message : List ℕ) (args : List Variant)
      → LeavesArgs (length sig) (from_binary from_bytes m sig message args)
  unfolding from_binary
  from_binary-LeavesArgs sig message args =
      let args' : List Variant = resize (length sig) default_variant args in
      subst (λ (n : ℕ). LeavesArgs n (read_items from_bytes m sig 0 message args'))
        (length-resize (length sig) default_variant args)
        (read_items-LeavesArgs sig 0 message args')
