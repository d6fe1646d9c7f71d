-- ===== src/Endian.antt =====
-- rpcmple_cpp/include/rpcmple/rpcmple.h: words in memory, byte swaps and conversions to and from
-- bytes. A `double` and an `int64_t` are their 64-bit patterns: the code copies them by `memcpy`
-- and never computes with them. `m` says whether the machine is little endian.
pub mod Swap
pub mod Laws
pub mod Digits
pub mod Trip
use rpcmple.Common.{ℕ, zero, suc, ◌+◌, ◌*◌, ◌/◌, ◌%◌, ◌^◌, bit_and, bit_or}
use rpcmple.Common.{
  Bool, true, false, Option, none, some, List, [], ◌∷◌, reverse, length, take, drop,
}
use rpcmple.Common.{ltb, if◌then◌else◌}
use rpcmple.Bits.{of_bytes}

-- `val << k` and `val >> k` on words of w bits.
abbrev pub shl : ℕ → ℕ → ℕ → ℕ
shl w x k = x * 2 ^ k % 2 ^ w

abbrev pub shr : ℕ → ℕ → ℕ
shr x k = x / 2 ^ k

unfoldable pub swap_endian64 : ℕ → ℕ
swap_endian64 v0 =
    let v1 =
      bit_or (shl 64 (bit_and v0 0x00000000FFFFFFFF) 32) (shr (bit_and v0 0xFFFFFFFF00000000) 32) in
    let v2 =
      bit_or (shl 64 (bit_and v1 0x0000FFFF0000FFFF) 16) (shr (bit_and v1 0xFFFF0000FFFF0000) 16) in
    bit_or (shl 64 (bit_and v2 0x00FF00FF00FF00FF) 8) (shr (bit_and v2 0xFF00FF00FF00FF00) 8)

unfoldable pub swap_endian32 : ℕ → ℕ
swap_endian32 v0 =
    let v1 = bit_or (bit_and (shl 32 v0 8) 0xFF00FF00) (bit_and (shr v0 8) 0xFF00FF) in
    bit_or (shl 32 v1 16) (shr v1 16)

-- `val << 8` is an `int` here, which the return cuts to 16 bits.
unfoldable pub swap_endian16 : ℕ → ℕ
swap_endian16 v = bit_or (v * 2 ^ 8) (shr v 8) % 2 ^ 16

-- The n low bytes of a word, the least significant first.
abbrev pub le_bytes : ℕ → ℕ → List ℕ
le_bytes zero w = []
le_bytes (suc n) w = w % 256 ∷ le_bytes n (w / 256)

-- `memcpy` out of a word of n bytes, and into one; `none` is a read past the end.
abbrev pub store : Bool → ℕ → ℕ → List ℕ
store m n w = if m then le_bytes n w else reverse (le_bytes n w)

abbrev pub load : Bool → ℕ → List ℕ → Option ℕ
load m n bs =
    if ltb (length bs) n
    then none
    else some (of_bytes (if m then take n bs else reverse (take n bs)))

abbrev pub differ : Bool → Bool → Bool
differ true b = if b then false else true
differ false b = b

-- `int num = 1; *(char*)&num == 1`: the first byte of the stored number.
unfoldable pub is_machine_little_endian : Bool → Bool
is_machine_little_endian m = first (store m 4 1)
  where
    first : List ℕ → Bool
    first [] = false
    first (b ∷ bs) = ltb 0 b

-- `to_bytes swap n`: the swap if the wanted order is not the machine's, then `memcpy`.
abbrev pub to_bytes : (ℕ → ℕ) → ℕ → Bool → ℕ → Bool → List ℕ
to_bytes swap n m w little =
    store m n (if differ little (is_machine_little_endian m) then swap w else w)

abbrev pub converted : (ℕ → ℕ) → Bool → Option ℕ → Option ℕ
converted swap differs none = none
converted swap differs (some w) = some (if differs then swap w else w)

abbrev pub of_memory : (ℕ → ℕ) → ℕ → Bool → List ℕ → Bool → Option ℕ
of_memory swap n m bs little =
    converted swap (differ little (is_machine_little_endian m)) (load m n bs)

unfoldable pub double_to_bytes : Bool → ℕ → Bool → List ℕ
double_to_bytes m w little = to_bytes swap_endian64 8 m w little

unfoldable pub int64_to_bytes : Bool → ℕ → Bool → List ℕ
int64_to_bytes m w little = to_bytes swap_endian64 8 m w little

unfoldable pub uint64_to_bytes : Bool → ℕ → Bool → List ℕ
uint64_to_bytes m w little = to_bytes swap_endian64 8 m w little

unfoldable pub uint32_to_bytes : Bool → ℕ → Bool → List ℕ
uint32_to_bytes m w little = to_bytes swap_endian32 4 m w little

unfoldable pub uint16_to_bytes : Bool → ℕ → Bool → List ℕ
uint16_to_bytes m w little = to_bytes swap_endian16 2 m w little

unfoldable pub bytes_to_double : Bool → List ℕ → Bool → Option ℕ
bytes_to_double m bs little = of_memory swap_endian64 8 m bs little

unfoldable pub bytes_to_uint16 : Bool → List ℕ → Bool → Option ℕ
bytes_to_uint16 m bs little = of_memory swap_endian16 2 m bs little

unfoldable pub bytes_to_uint32 : Bool → List ℕ → Bool → Option ℕ
bytes_to_uint32 m bs little = of_memory swap_endian32 4 m bs little

unfoldable pub bytes_to_uint64 : Bool → List ℕ → Bool → Option ℕ
bytes_to_uint64 m bs little = of_memory swap_endian64 8 m bs little

unfoldable pub bytes_to_int64 : Bool → List ℕ → Bool → Option ℕ
bytes_to_int64 m bs little = of_memory swap_endian64 8 m bs little
