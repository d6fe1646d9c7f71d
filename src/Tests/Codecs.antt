-- ===== src/Tests/Codecs.antt =====
-- A conversion of wide strings for the tests: ASCII, which throws on all else.
use rpcmple.Common.{◌<◌, ◌≡◌, ◌≢◌, sym, ap, subst, ◌∙◌, arith}
use rpcmple.Common.{[], ◌∷◌, length, All, Option, none, some}
use rpcmple.Common.{Bool, true, Bool-cases, inl, inr, ltb, ◌&&◌, if◌then◌else◌}
use rpcmple.Bits.{IsBytes}
use rpcmple.Variant.{Text}
use rpcmple.Signature.{Codec, IsUtf8}

abbrev pub is_ascii : Text → Bool
is_ascii [] = true
is_ascii (x ∷ xs) = ltb x 128 && is_ascii xs

abbrev pub convert : Text → Option Text
convert w = if is_ascii w then some w else none

abbrev pub ascii : Codec
ascii = record { to_bytes = convert; from_bytes = convert }

some_lem : {A : Type 0} (a b : A) → some a ≡ some b → a ≡ b
some_lem a b e = ap (from a) e
  where
    from : {A : Type 0} → A → Option A → A
    from a none = a
    from a (some b) = b

abbrev IsNone : Option Text → Type 0
IsNone none = Unit {0}
IsNone (some s) = ⊥

convert_lem : (w s : Text) → convert w ≡ some s → (is_ascii w ≡ true) × (w ≡ s)
convert_lem w s e = elim (Bool-cases (is_ascii w)) [
  | inl yes_ ↦ (yes_, some_lem w s (ap (λ (b : Bool). if b then some w else none) (sym yes_) ∙ e))
  | inr no_ ↦ absurd (subst IsNone (ap (λ (b : Bool). if b then some w else none) (sym no_) ∙ e) tt)
]

is_ascii-IsBytes : (w : Text) → is_ascii w ≡ true → IsBytes w
is_ascii-IsBytes [] h = tt
is_ascii-IsBytes (x ∷ xs) h = elim (Bool-cases (ltb x 128)) [
  | inl small ↦ (
    ground (arith, small),
    is_ascii-IsBytes xs (ap (λ (b : Bool). b && is_ascii xs) (sym small) ∙ h),
  )
  | inr large ↦ absurd (ground (arith, h, large))
]

pub ascii-IsUtf8 : IsUtf8 ascii
ascii-IsUtf8 = record {
  makes_bytes =
      λ w s e. let (h, same) = convert_lem w s e in subst IsBytes same (is_ascii-IsBytes w h);
  makes_no_zero = λ w s e h. subst (All λ x. x ≢ 0) (convert_lem w s e).1 h;
  converts_back = λ w s e.
      let (h, same) = convert_lem w s e in
      subst (λ (l : Text). convert l ≡ some w) same
        (ap (λ (b : Bool). if b then some w else none) h);
}

-- A text that is shorter than the one length that does not fit.
pub convert-fits : (w s : Text) → length w < 65536 → convert w ≡ some s → length s ≢ 65536
convert-fits w s h e =
    subst (λ (l : Text). length l ≢ 65536) (convert_lem w s e).1 (λ e'. omega arith)
