-- ===== src/Endian/Digits.antt =====
-- rpcmple_cpp/include/rpcmple/rpcmple.h: words and their digits to the base 256.

use rpcmple.Common.{ℕ, zero, suc, ◌+◌, ◌*◌, ◌/◌, ◌%◌, ◌^◌, ◌<◌}
use rpcmple.Common.{◌≡◌, refl, ap, arith}
use rpcmple.Common.{List, [], ◌∷◌, length}
use native.Mathlib.Nat.{pow-suc}
use rpcmple.Bits.{of_bytes, IsBytes}
use rpcmple.Endian.{le_bytes}

pub length-le_bytes : (n w : ℕ) → length (le_bytes n w) ≡ n
length-le_bytes zero w = refl
length-le_bytes (suc n) w = ap suc (length-le_bytes n (w / 256))

pub le_bytes-IsBytes : (n w : ℕ) → IsBytes (le_bytes n w)
le_bytes-IsBytes zero w = tt
le_bytes-IsBytes (suc n) w = (omega arith, le_bytes-IsBytes n (w / 256))

pub le_bytes-of_bytes : (bs : List ℕ) → IsBytes bs → le_bytes (length bs) (of_bytes bs) ≡ bs
le_bytes-of_bytes [] h = refl
le_bytes-of_bytes (b ∷ bs) h = rw (low, high, le_bytes-of_bytes bs h.1)
  where
    low : (b + of_bytes bs * 256) % 256 ≡ b
    low = omega arith

    high : (b + of_bytes bs * 256) / 256 ≡ of_bytes bs
    high = omega arith

-- A word that fits n bytes comes back from them.
pub of_bytes-le_bytes : (n w : ℕ) → w < 256 ^ n → of_bytes (le_bytes n w) ≡ w
of_bytes-le_bytes zero w h = omega arith
of_bytes-le_bytes (suc n) w h =
    omega (arith, of_bytes-le_bytes n (w / 256) (omega (arith, pow-suc 256 n)))

pub of_bytes-lt : (bs : List ℕ) → IsBytes bs → of_bytes bs < 256 ^ length bs
of_bytes-lt [] h = omega arith
of_bytes-lt (b ∷ bs) h = omega (arith, of_bytes-lt bs h.1, pow-suc 256 (length bs))
