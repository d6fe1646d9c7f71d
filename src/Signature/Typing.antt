-- ===== src/Signature/Typing.antt =====
-- rpcmple_cpp/include/rpcmple/dataSignature.h: the types of the values that `fromBinary` gives.
use rpcmple.Common.{ℕ, ◌+◌, ◌≡◌, refl, sym, subst, ◌∙◌, arith}
use rpcmple.Common.{
  List, [], ◌∷◌, ◌++◌, append_assoc, length, length-append, length-resize, resize, set-append,
}
use rpcmple.Common.{
  Bool, Option, none, some, Outcome, ok, refused, thrown, fault, Leaves, Leaves-bind, Leaves-any,
  Leaves-weaken,
}
use rpcmple.Variant.{
  Variant, Text, default_variant, get_int64, get_uint64, get_double, get_wstring, get_string,
  get_int64s, get_uint64s, get_doubles, get_wstrings, get_strings,
}
use rpcmple.Signature.{Kind, any, classify}
use rpcmple.Signature.Reader.{
  Read, as_value, with_args, read_double, read_doubles, read_int64, read_int64s, read_uint64,
  read_uint64s, read_string, read_strings, read_wstring, read_wstrings, read_kind, read_variant,
  read_labelled, read_item, read_items, from_binary,
}

-- A getter that finds a value.
abbrev pub Gets : {A : Type 0} → Option A → Type 0
Gets (some x) = Unit {0}
Gets none = ⊥

-- The overload of `getVariantValue` that finds the value; under a 'v' any of them may.
abbrev pub HasKind : Kind → Variant → Type 0
HasKind Kind.double v = Gets (get_double v)
HasKind Kind.doubles v = Gets (get_doubles v)
HasKind Kind.int64 v = Gets (get_int64 v)
HasKind Kind.int64s v = Gets (get_int64s v)
HasKind Kind.uint64 v = Gets (get_uint64 v)
HasKind Kind.uint64s v = Gets (get_uint64s v)
HasKind Kind.wstring v = Gets (get_wstring v)
HasKind Kind.wstrings v = Gets (get_wstrings v)
HasKind Kind.string v = Gets (get_string v)
HasKind Kind.strings v = Gets (get_strings v)
HasKind Kind.any v = Unit {0}

abbrev pub HasLabel : Option Kind → Variant → Type 0
HasLabel none v = ⊥
HasLabel (some k) v = HasKind k v

abbrev pub IsTyped : List ℕ → List Variant → Type 0
IsTyped [] [] = Unit {0}
IsTyped (char ∷ sig) (v ∷ vs) = HasLabel (classify char) v × IsTyped sig vs
IsTyped _ _ = ⊥

-- A value that every case makes with the same constructor.
as_value-Leaves :
    {A : Type 0} (P : Variant → Type 0) (f : A → Variant) (r : Read A)
    → ((a : A) → P (f a))
    → Leaves (λ (x : Variant × List ℕ). P x.0) (as_value f r)
as_value-Leaves P f r h = Leaves-bind (λ _. Unit {0}) _ r _ (Leaves-any r) λ x _. h x.0

module _ (from_bytes : Text → Option Text) (m : Bool) where
  read_kind-HasKind :
      (k : Kind) (rest : List ℕ)
      → Leaves (λ (x : Variant × List ℕ). HasKind k x.0) (read_kind from_bytes m k rest)
  unfolding read_kind read_double read_doubles read_int64 read_int64s read_uint64 read_uint64s
      read_string read_strings read_wstring read_wstrings get_int64 get_uint64 get_double
      get_wstring get_string get_int64s get_uint64s get_doubles get_wstrings get_strings
  read_kind-HasKind Kind.double rest =
      as_value-Leaves (HasKind Kind.double) Variant.double _ λ a. tt
  read_kind-HasKind Kind.doubles rest =
      as_value-Leaves (HasKind Kind.doubles) Variant.doubles _ λ a. tt
  read_kind-HasKind Kind.int64 rest = as_value-Leaves (HasKind Kind.int64) Variant.int64 _ λ a. tt
  read_kind-HasKind Kind.int64s rest =
      as_value-Leaves (HasKind Kind.int64s) Variant.int64s _ λ a. tt
  read_kind-HasKind Kind.uint64 rest =
      as_value-Leaves (HasKind Kind.uint64) Variant.uint64 _ λ a. tt
  read_kind-HasKind Kind.uint64s rest =
      as_value-Leaves (HasKind Kind.uint64s) Variant.uint64s _ λ a. tt
  read_kind-HasKind Kind.wstring rest =
      as_value-Leaves (HasKind Kind.wstring) Variant.wstring _ λ a. tt
  read_kind-HasKind Kind.wstrings rest =
      as_value-Leaves (HasKind Kind.wstrings) Variant.wstrings _ λ a. tt
  read_kind-HasKind Kind.string rest =
      as_value-Leaves (HasKind Kind.string) Variant.string _ λ a. tt
  read_kind-HasKind Kind.strings rest =
      as_value-Leaves (HasKind Kind.strings) Variant.strings _ λ a. tt
  read_kind-HasKind Kind.any rest = tt

  read_labelled-HasLabel :
      (k : Option Kind) (rest : List ℕ)
      → Leaves (λ (x : Variant × List ℕ). HasLabel k x.0) (read_labelled from_bytes m k rest)
  unfolding read_labelled
  read_labelled-HasLabel none rest = tt
  read_labelled-HasLabel (some any) rest = Leaves-any (read_variant from_bytes m rest)
  read_labelled-HasLabel (some k) rest = read_kind-HasKind k rest

  with_args-Leaves :
      {A B : Type 0} (P : A → Type 0) (args : B) (o : Outcome (Unit {0}) A)
      → Leaves P o
      → Leaves P (with_args args o)
  with_args-Leaves P args (ok x) h = h
  with_args-Leaves P args (refused e) h = tt
  with_args-Leaves P args thrown h = tt
  with_args-Leaves P args fault h = tt

  -- The values behind those of the first characters.
  abbrev Behind : List Variant → List ℕ → List Variant → Type 0
  Behind done sig vs = (more : List Variant) × (vs ≡ done ++ more) × IsTyped sig more

  read_items-Behind :
      (sig rest : List ℕ) (done blank : List Variant)
      → length blank ≡ length sig
      → Leaves (Behind done sig) (read_items from_bytes m sig (length done) rest (done ++ blank))
  unfolding read_items read_item
  read_items-Behind [] rest done [] n = ([], refl, tt)
  read_items-Behind [] rest done (b ∷ blank) n = absurd (omega arith)
  read_items-Behind (char ∷ sig) rest done [] n = absurd (omega arith)
  read_items-Behind (char ∷ sig) rest done (b ∷ blank) n =
      Leaves-bind (λ (x : Variant × List ℕ). HasLabel (classify char) x.0)
        (Behind done (char ∷ sig))
        (with_args (done ++ b ∷ blank) (read_labelled from_bytes m (classify char) rest)) _
        (with_args-Leaves _ (done ++ b ∷ blank) (read_labelled from_bytes m (classify char) rest)
          (read_labelled-HasLabel (classify char) rest))
        λ (v, rest') is_labelled.
          let next : length (done ++ v ∷ []) ≡ length done + 1 =
            omega (arith, length-append done (v ∷ [])) in
          let others =
            subst
              (λ (i : ℕ).
                Leaves (Behind (done ++ v ∷ []) sig)
                  (read_items from_bytes m sig i rest' ((done ++ v ∷ []) ++ blank)))
              next (read_items-Behind sig rest' (done ++ v ∷ []) blank (omega arith)) in
          subst
            (λ (args : List Variant).
              Leaves (Behind done (char ∷ sig))
                (read_items from_bytes m sig (length done + 1) rest' args))
            (sym (set-append done blank b v))
            (Leaves-weaken (Behind (done ++ v ∷ []) sig) (Behind done (char ∷ sig)) _ others
              λ vs (more, e, typed).
                (v ∷ more, e ∙ append_assoc done (v ∷ []) more, (is_labelled, typed)))

  -- When `fromBinary` returns true, on any message, signature and vector of arguments, there are
  -- as many values as the signature has characters, every character is the label of a type, and
  -- for each but a 'v' the overload of `getVariantValue` for that type finds the value in its
  -- place.
  pub from_binary-IsTyped :
      (sig message : List ℕ) (args vs : List Variant)
      → from_binary from_bytes m sig message args ≡ ok vs
      → IsTyped sig vs
  unfolding from_binary
  from_binary-IsTyped sig message args vs e =
      let blank : List Variant = resize (length sig) default_variant args in
      let (more, same, typed) = subst (Leaves (Behind [] sig)) e (
        read_items-Behind sig message [] blank (length-resize (length sig) default_variant args)) in
      subst (IsTyped sig) (sym same) typed
