-- ===== src/Bits.antt =====
-- `&` and `|` byte by byte: the laws that the byte swaps of rpcmple.h rest on.
mod Step
use Step.{bit_halves}
use rpcmple.Common.{bit_and, bit_or, ℕ, ◌<◌, ◌≤◌, ◌≡◌, ◌⊎◌, inl, inr, suc, zero, arith, refl, ap}
use rpcmple.Common.{List, All, [], ◌∷◌, length, Bool, false, true, ◌+◌, ◌-◌, ◌*◌, ◌/◌, ◌%◌, ◌^◌}
use native.Mathlib.Nat.{pow-suc}

-- The high bits' place value, one binary digit up.
place_suc : (k high : ℕ) → 2 * (high * 2 ^ k) ≡ high * 2 ^ suc k
place_suc k high = let doubled = pow-suc 2 k in omega (arith, ap (◌*◌ high) doubled)

-- `&` works on the low and the high bits apart.
pub bit_and_join :
    (k a b c d : ℕ)
    → a < 2 ^ k
    → c < 2 ^ k
    → bit_and (a + b * 2 ^ k) (c + d * 2 ^ k) ≡ bit_and a c + bit_and b d * 2 ^ k
bit_and_join zero a b c d p q =
    let ea : a ≡ 0 = omega arith in let ec : c ≡ 0 = omega arith in ground (arith, ea, ec)
bit_and_join (suc k) a b c d p q = ground (
  arith,
  (bit_halves (a + b * 2 ^ suc k) (c + d * 2 ^ suc k)).0,
  (bit_halves a c).0,
  place_suc k b,
  place_suc k d,
  place_suc k (bit_and b d),
  pow-suc 2 k,
  bit_and_join k (a / 2) b (c / 2) d (omega (arith, pow-suc 2 k)) (omega (arith, pow-suc 2 k)),
)

pub bit_or_join :
    (k a b c d : ℕ)
    → a < 2 ^ k
    → c < 2 ^ k
    → bit_or (a + b * 2 ^ k) (c + d * 2 ^ k) ≡ bit_or a c + bit_or b d * 2 ^ k
bit_or_join zero a b c d p q =
    let ea : a ≡ 0 = omega arith in let ec : c ≡ 0 = omega arith in ground (arith, ea, ec)
bit_or_join (suc k) a b c d p q = ground (
  arith,
  (bit_halves (a + b * 2 ^ suc k) (c + d * 2 ^ suc k)).1,
  (bit_halves a c).1,
  place_suc k b,
  place_suc k d,
  place_suc k (bit_or b d),
  pow-suc 2 k,
  bit_or_join k (a / 2) b (c / 2) d (omega (arith, pow-suc 2 k)) (omega (arith, pow-suc 2 k)),
)

-- The number that bytes stand for, the least significant first.
abbrev pub of_bytes : List ℕ → ℕ
of_bytes [] = 0
of_bytes (b ∷ bs) = b + of_bytes bs * 256

abbrev pub IsBytes : List ℕ → Type 0
IsBytes = All (λ b. b < 256)

-- A mask keeps or clears whole bytes.
abbrev pub mask : List Bool → List ℕ
mask [] = []
mask (true ∷ ks) = 255 ∷ mask ks
mask (false ∷ ks) = 0 ∷ mask ks

abbrev pub keep : List Bool → List ℕ → List ℕ
keep [] bs = []
keep (k ∷ ks) [] = []
keep (true ∷ ks) (b ∷ bs) = b ∷ keep ks bs
keep (false ∷ ks) (b ∷ bs) = 0 ∷ keep ks bs

-- `|` puts together bytes of which at most one is not 0.
abbrev pub merge : List ℕ → List ℕ → List ℕ
merge [] ys = ys
merge (x ∷ xs) [] = x ∷ xs
merge (x ∷ xs) (y ∷ ys) = (x + y) ∷ merge xs ys

abbrev pub Disjoint : List ℕ → List ℕ → Type 0
Disjoint [] ys = Unit {0}
Disjoint (x ∷ xs) [] = Unit {0}
Disjoint (x ∷ xs) (y ∷ ys) = ((x ≡ 0) ⊎ (y ≡ 0)) × Disjoint xs ys

bit_and-zero_below : (n a : ℕ) → a ≤ n → (bit_and a 0 ≡ 0) × (bit_and 0 a ≡ 0)
bit_and-zero_below n zero h = (refl, refl)
bit_and-zero_below zero (suc a) h = absurd (omega arith)
bit_and-zero_below (suc n) (suc a) h =
    let ih = bit_and-zero_below n (suc a / 2) (omega arith) in
    (omega (arith, (bit_halves (suc a) 0).0, ih.0), omega (arith, (bit_halves 0 (suc a)).0, ih.1))

bit_or-zero_below : (n a : ℕ) → a ≤ n → (bit_or a 0 ≡ a) × (bit_or 0 a ≡ a)
bit_or-zero_below n zero h = (refl, refl)
bit_or-zero_below zero (suc a) h = absurd (omega arith)
bit_or-zero_below (suc n) (suc a) h =
    let ih = bit_or-zero_below n (suc a / 2) (omega arith) in
    (omega (arith, (bit_halves (suc a) 0).1, ih.0), omega (arith, (bit_halves 0 (suc a)).1, ih.1))

-- `& 255` on a byte, one binary digit at a time.
bit_and-ones : (k a : ℕ) → a < 2 ^ k → bit_and a (2 ^ k - 1) ≡ a
bit_and-ones zero a h = ground (arith, bit_and-zero_below a a (omega arith))
bit_and-ones (suc k) a h = ground (
  arith,
  (bit_halves a (2 ^ suc k - 1)).0,
  pow-suc 2 k,
  bit_and-ones k (a / 2) (omega (arith, pow-suc 2 k)),
)

pub bit_and-mask :
    (ks : List Bool) (bs : List ℕ)
    → length ks ≡ length bs
    → IsBytes bs
    → bit_and (of_bytes bs) (of_bytes (mask ks)) ≡ of_bytes (keep ks bs)
bit_and-mask [] [] e h = refl
bit_and-mask [] (b ∷ bs) e h = absurd (omega arith)
bit_and-mask (k ∷ ks) [] e h = absurd (omega arith)
bit_and-mask (true ∷ ks) (b ∷ bs) e h = omega (
  arith,
  bit_and_join 8 b (of_bytes bs) 255 (of_bytes (mask ks)) h.0 (omega arith),
  bit_and-ones 8 b h.0,
  bit_and-mask ks bs (omega arith) h.1,
)
bit_and-mask (false ∷ ks) (b ∷ bs) e h = omega (
  arith,
  bit_and_join 8 b (of_bytes bs) 0 (of_bytes (mask ks)) h.0 (omega arith),
  (bit_and-zero_below b b (omega arith)).0,
  bit_and-mask ks bs (omega arith) h.1,
)

bit_or-disjoint : (a b : ℕ) → (a ≡ 0) ⊎ (b ≡ 0) → bit_or a b ≡ a + b
bit_or-disjoint a b (inl e) = rw e (omega (arith, (bit_or-zero_below b b (omega arith)).1))
bit_or-disjoint a b (inr e) = rw e (omega (arith, (bit_or-zero_below a a (omega arith)).0))

pub bit_or-merge :
    (xs ys : List ℕ)
    → IsBytes xs
    → IsBytes ys
    → Disjoint xs ys
    → bit_or (of_bytes xs) (of_bytes ys) ≡ of_bytes (merge xs ys)
bit_or-merge [] ys hx hy d = (bit_or-zero_below (of_bytes ys) (of_bytes ys) (omega arith)).1
bit_or-merge (x ∷ xs) [] hx hy d =
    (bit_or-zero_below (of_bytes (x ∷ xs)) (of_bytes (x ∷ xs)) (omega arith)).0
bit_or-merge (x ∷ xs) (y ∷ ys) hx hy d = omega (
  arith,
  bit_or_join 8 x (of_bytes xs) y (of_bytes ys) hx.0 hy.0,
  bit_or-disjoint x y d.0,
  bit_or-merge xs ys hx.1 hy.1 d.1,
)
