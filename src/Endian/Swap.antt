-- ===== src/Endian/Swap.antt =====
-- rpcmple_cpp/include/rpcmple/rpcmple.h: the byte swaps, one lemma for each of their lines.
use rpcmple.Common.{ℕ, ◌+◌, ◌*◌, ◌/◌, ◌%◌, ◌^◌, bit_and, bit_or}
use rpcmple.Common.{◌≡◌, refl, arith, true, false, [], ◌∷◌}
use rpcmple.Bits.{of_bytes, IsBytes, bit_and-mask, bit_or-merge}
use rpcmple.Endian.{swap_endian64, swap_endian32, swap_endian16}

module _ (a b c d e f g h : ℕ) (bytes : IsBytes (a ∷ b ∷ c ∷ d ∷ e ∷ f ∷ g ∷ h ∷ [])) where
  abbrev word : ℕ
  word = of_bytes (a ∷ b ∷ c ∷ d ∷ e ∷ f ∷ g ∷ h ∷ [])

  -- The 32-bit halves change places.
  halves :
      bit_or
        (bit_and word 0x00000000FFFFFFFF * 2 ^ 32 % 2 ^ 64)
        (bit_and word 0xFFFFFFFF00000000 / 2 ^ 32)
      ≡ of_bytes (e ∷ f ∷ g ∷ h ∷ a ∷ b ∷ c ∷ d ∷ [])
  halves =
      rw
        (
          kept_low,
          kept_high,
          up,
          down,
          bit_or-merge (0 ∷ 0 ∷ 0 ∷ 0 ∷ a ∷ b ∷ c ∷ d ∷ []) (e ∷ f ∷ g ∷ h ∷ []) (omega arith)
              (omega arith) (omega arith),
        )
        (omega arith)
    where
      kept_low : bit_and word 0x00000000FFFFFFFF ≡ of_bytes (a ∷ b ∷ c ∷ d ∷ 0 ∷ 0 ∷ 0 ∷ 0 ∷ [])
      kept_low =
          bit_and-mask (true ∷ true ∷ true ∷ true ∷ false ∷ false ∷ false ∷ false ∷ [])
            (a ∷ b ∷ c ∷ d ∷ e ∷ f ∷ g ∷ h ∷ []) refl bytes

      kept_high : bit_and word 0xFFFFFFFF00000000 ≡ of_bytes (0 ∷ 0 ∷ 0 ∷ 0 ∷ e ∷ f ∷ g ∷ h ∷ [])
      kept_high =
          bit_and-mask (false ∷ false ∷ false ∷ false ∷ true ∷ true ∷ true ∷ true ∷ [])
            (a ∷ b ∷ c ∷ d ∷ e ∷ f ∷ g ∷ h ∷ []) refl bytes

      up :
          of_bytes (a ∷ b ∷ c ∷ d ∷ 0 ∷ 0 ∷ 0 ∷ 0 ∷ []) * 2 ^ 32 % 2 ^ 64
          ≡ of_bytes (0 ∷ 0 ∷ 0 ∷ 0 ∷ a ∷ b ∷ c ∷ d ∷ [])
      up = omega arith

      down : of_bytes (0 ∷ 0 ∷ 0 ∷ 0 ∷ e ∷ f ∷ g ∷ h ∷ []) / 2 ^ 32 ≡ of_bytes (e ∷ f ∷ g ∷ h ∷ [])
      down = omega arith

  -- The 16-bit quarters of each half change places.
  quarters :
      bit_or
        (bit_and word 0x0000FFFF0000FFFF * 2 ^ 16 % 2 ^ 64)
        (bit_and word 0xFFFF0000FFFF0000 / 2 ^ 16)
      ≡ of_bytes (c ∷ d ∷ a ∷ b ∷ g ∷ h ∷ e ∷ f ∷ [])
  quarters =
      rw
        (
          kept_low,
          kept_high,
          up,
          down,
          bit_or-merge (0 ∷ 0 ∷ a ∷ b ∷ 0 ∷ 0 ∷ e ∷ f ∷ []) (c ∷ d ∷ 0 ∷ 0 ∷ g ∷ h ∷ [])
              (omega arith) (omega arith) (omega arith),
        )
        (omega arith)
    where
      kept_low : bit_and word 0x0000FFFF0000FFFF ≡ of_bytes (a ∷ b ∷ 0 ∷ 0 ∷ e ∷ f ∷ 0 ∷ 0 ∷ [])
      kept_low =
          bit_and-mask (true ∷ true ∷ false ∷ false ∷ true ∷ true ∷ false ∷ false ∷ [])
            (a ∷ b ∷ c ∷ d ∷ e ∷ f ∷ g ∷ h ∷ []) refl bytes

      kept_high : bit_and word 0xFFFF0000FFFF0000 ≡ of_bytes (0 ∷ 0 ∷ c ∷ d ∷ 0 ∷ 0 ∷ g ∷ h ∷ [])
      kept_high =
          bit_and-mask (false ∷ false ∷ true ∷ true ∷ false ∷ false ∷ true ∷ true ∷ [])
            (a ∷ b ∷ c ∷ d ∷ e ∷ f ∷ g ∷ h ∷ []) refl bytes

      up :
          of_bytes (a ∷ b ∷ 0 ∷ 0 ∷ e ∷ f ∷ 0 ∷ 0 ∷ []) * 2 ^ 16 % 2 ^ 64
          ≡ of_bytes (0 ∷ 0 ∷ a ∷ b ∷ 0 ∷ 0 ∷ e ∷ f ∷ [])
      up = omega arith

      down :
          of_bytes (0 ∷ 0 ∷ c ∷ d ∷ 0 ∷ 0 ∷ g ∷ h ∷ []) / 2 ^ 16
          ≡ of_bytes (c ∷ d ∷ 0 ∷ 0 ∷ g ∷ h ∷ [])
      down = omega arith

  -- Each byte changes places with its neighbour.
  neighbours :
      bit_or
        (bit_and word 0x00FF00FF00FF00FF * 2 ^ 8 % 2 ^ 64)
        (bit_and word 0xFF00FF00FF00FF00 / 2 ^ 8)
      ≡ of_bytes (b ∷ a ∷ d ∷ c ∷ f ∷ e ∷ h ∷ g ∷ [])
  neighbours =
      rw
        (
          kept_low,
          kept_high,
          up,
          down,
          bit_or-merge (0 ∷ a ∷ 0 ∷ c ∷ 0 ∷ e ∷ 0 ∷ g ∷ []) (b ∷ 0 ∷ d ∷ 0 ∷ f ∷ 0 ∷ h ∷ [])
              (omega arith) (omega arith) (omega arith),
        )
        (omega arith)
    where
      kept_low : bit_and word 0x00FF00FF00FF00FF ≡ of_bytes (a ∷ 0 ∷ c ∷ 0 ∷ e ∷ 0 ∷ g ∷ 0 ∷ [])
      kept_low =
          bit_and-mask (true ∷ false ∷ true ∷ false ∷ true ∷ false ∷ true ∷ false ∷ [])
            (a ∷ b ∷ c ∷ d ∷ e ∷ f ∷ g ∷ h ∷ []) refl bytes

      kept_high : bit_and word 0xFF00FF00FF00FF00 ≡ of_bytes (0 ∷ b ∷ 0 ∷ d ∷ 0 ∷ f ∷ 0 ∷ h ∷ [])
      kept_high =
          bit_and-mask (false ∷ true ∷ false ∷ true ∷ false ∷ true ∷ false ∷ true ∷ [])
            (a ∷ b ∷ c ∷ d ∷ e ∷ f ∷ g ∷ h ∷ []) refl bytes

      up :
          of_bytes (a ∷ 0 ∷ c ∷ 0 ∷ e ∷ 0 ∷ g ∷ 0 ∷ []) * 2 ^ 8 % 2 ^ 64
          ≡ of_bytes (0 ∷ a ∷ 0 ∷ c ∷ 0 ∷ e ∷ 0 ∷ g ∷ [])
      up = omega arith

      down :
          of_bytes (0 ∷ b ∷ 0 ∷ d ∷ 0 ∷ f ∷ 0 ∷ h ∷ []) / 2 ^ 8
          ≡ of_bytes (b ∷ 0 ∷ d ∷ 0 ∷ f ∷ 0 ∷ h ∷ [])
      down = omega arith

pub swap_endian64_lem :
    (a b c d e f g h : ℕ)
    → IsBytes (a ∷ b ∷ c ∷ d ∷ e ∷ f ∷ g ∷ h ∷ [])
    → swap_endian64 (of_bytes (a ∷ b ∷ c ∷ d ∷ e ∷ f ∷ g ∷ h ∷ []))
      ≡ of_bytes (h ∷ g ∷ f ∷ e ∷ d ∷ c ∷ b ∷ a ∷ [])
unfolding swap_endian64
swap_endian64_lem a b c d e f g h bytes =
    rw
      (
        halves a b c d e f g h bytes,
        quarters e f g h a b c d (omega arith),
        neighbours g h e f c d a b (omega arith),
      )
      refl

pub swap_endian32_lem :
    (a b c d : ℕ)
    → IsBytes (a ∷ b ∷ c ∷ d ∷ [])
    → swap_endian32 (of_bytes (a ∷ b ∷ c ∷ d ∷ [])) ≡ of_bytes (d ∷ c ∷ b ∷ a ∷ [])
unfolding swap_endian32
swap_endian32_lem a b c d bytes =
    rw
      (
        up,
        down,
        bit_and-mask (false ∷ true ∷ false ∷ true ∷ []) (0 ∷ a ∷ b ∷ c ∷ []) refl (omega arith),
        bit_and-mask (true ∷ false ∷ true ∷ []) (b ∷ c ∷ d ∷ []) refl (omega arith),
        bit_or-merge (0 ∷ a ∷ 0 ∷ c ∷ []) (b ∷ 0 ∷ d ∷ []) (omega arith) (omega arith)
            (omega arith),
        up_again,
        down_again,
        bit_or-merge (0 ∷ 0 ∷ b ∷ a ∷ []) (d ∷ c ∷ []) (omega arith) (omega arith) (omega arith),
      )
      (omega arith)
  where
    up : of_bytes (a ∷ b ∷ c ∷ d ∷ []) * 2 ^ 8 % 2 ^ 32 ≡ of_bytes (0 ∷ a ∷ b ∷ c ∷ [])
    up = omega arith

    down : of_bytes (a ∷ b ∷ c ∷ d ∷ []) / 2 ^ 8 ≡ of_bytes (b ∷ c ∷ d ∷ [])
    down = omega arith

    up_again :
        of_bytes ((0 + b) ∷ (a + 0) ∷ (0 + d) ∷ c ∷ []) * 2 ^ 16 % 2 ^ 32
        ≡ of_bytes (0 ∷ 0 ∷ b ∷ a ∷ [])
    up_again = omega arith

    down_again : of_bytes ((0 + b) ∷ (a + 0) ∷ (0 + d) ∷ c ∷ []) / 2 ^ 16 ≡ of_bytes (d ∷ c ∷ [])
    down_again = omega arith

pub swap_endian16_lem :
    (a b : ℕ) → IsBytes (a ∷ b ∷ []) → swap_endian16 (of_bytes (a ∷ b ∷ [])) ≡ of_bytes (b ∷ a ∷ [])
unfolding swap_endian16
swap_endian16_lem a b bytes =
    rw (up, down, bit_or-merge (0 ∷ a ∷ b ∷ []) (b ∷ []) (omega arith) (omega arith) (omega arith))
      (omega arith)
  where
    up : of_bytes (a ∷ b ∷ []) * 2 ^ 8 ≡ of_bytes (0 ∷ a ∷ b ∷ [])
    up = omega arith

    down : of_bytes (a ∷ b ∷ []) / 2 ^ 8 ≡ of_bytes (b ∷ [])
    down = omega arith
