-- ===== src/Endian/Trip.antt =====
-- rpcmple_cpp/include/rpcmple/rpcmple.h: words on their way between two machines.
use rpcmple.Common.{ℕ, ◌<◌, ◌^◌, ◌≡◌, Bool, List, ◌++◌, some}
use rpcmple.Endian.{
  le_bytes, double_to_bytes, int64_to_bytes, uint64_to_bytes, uint32_to_bytes, uint16_to_bytes,
  bytes_to_double, bytes_to_int64, bytes_to_uint64, bytes_to_uint32, bytes_to_uint16,
}
use rpcmple.Endian.Laws.{ordered, to_bytes-ordered, bytes_to-to_bytes}

-- The three conversions of 64-bit words give, on a machine of either byte order, the same eight
-- bytes: the word's digits to the base 256, the least significant first if `littleEndian` is asked
-- for, and else last. The word has 64 bits.
pub uint64_to_bytes-ordered :
    (m : Bool) (w : ℕ) (little : Bool)
    → w < 2 ^ 64
    → (uint64_to_bytes m w little ≡ ordered little (le_bytes 8 w))
      × (int64_to_bytes m w little ≡ ordered little (le_bytes 8 w))
      × (double_to_bytes m w little ≡ ordered little (le_bytes 8 w))
uint64_to_bytes-ordered m w little h =
    let all = to_bytes-ordered m w little in (all.0 h, all.1 h, all.2 h)

-- A 64-bit word survives the trip between two machines, each of either byte order: what one writes
-- as an unsigned integer, a signed integer or a double, in a given order, the other reads back in
-- the same order, whatever bytes follow.
pub bytes_to_uint64-uint64_to_bytes :
    (m m' : Bool) (w : ℕ) (little : Bool) (rest : List ℕ)
    → w < 2 ^ 64
    → (bytes_to_uint64 m' (uint64_to_bytes m w little ++ rest) little ≡ some w)
      × (bytes_to_int64 m' (int64_to_bytes m w little ++ rest) little ≡ some w)
      × (bytes_to_double m' (double_to_bytes m w little ++ rest) little ≡ some w)
bytes_to_uint64-uint64_to_bytes m m' w little rest h =
    let all = bytes_to-to_bytes m m' w little rest in (all.0 h, all.1 h, all.2 h)

-- A 32-bit word survives the trip between two machines, each of either byte order, whatever bytes
-- follow.
pub bytes_to_uint32-uint32_to_bytes :
    (m m' : Bool) (w : ℕ) (little : Bool) (rest : List ℕ)
    → w < 2 ^ 32
    → bytes_to_uint32 m' (uint32_to_bytes m w little ++ rest) little ≡ some w
bytes_to_uint32-uint32_to_bytes m m' w little rest h = (bytes_to-to_bytes m m' w little rest).3 h

-- A 16-bit word survives the trip between two machines, each of either byte order, whatever bytes
-- follow, although the byte swap is computed on `int`.
pub bytes_to_uint16-uint16_to_bytes :
    (m m' : Bool) (w : ℕ) (little : Bool) (rest : List ℕ)
    → w < 2 ^ 16
    → bytes_to_uint16 m' (uint16_to_bytes m w little ++ rest) little ≡ some w
bytes_to_uint16-uint16_to_bytes m m' w little rest h = (bytes_to-to_bytes m m' w little rest).4 h
