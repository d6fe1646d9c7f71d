-- ===== src/Endian/Laws.antt =====
-- rpcmple_cpp/include/rpcmple/rpcmple.h: the bytes that the conversions give and take.
use mathlib.Core.List.{reverse-reverse}
use rpcmple.Common.{ℕ, ◌+◌, ◌^◌, ◌<◌, ◌≤◌}
use rpcmple.Common.{◌≡◌, refl, ap, sym, subst, ◌∙◌, arith, Bool, true, false, none, some}
use rpcmple.Common.{List, [], ◌∷◌, ◌++◌, reverse, length, take, All-reverse, take-append}
use rpcmple.Common.{length-append, length-reverse, ltb, if◌then◌else◌}
use rpcmple.Bits.{of_bytes, IsBytes}
use rpcmple.Endian.Swap.{swap_endian64_lem, swap_endian32_lem, swap_endian16_lem}
use rpcmple.Endian.{
  swap_endian64, swap_endian32, swap_endian16, le_bytes, load, to_bytes, converted, of_memory,
  differ, is_machine_little_endian, double_to_bytes, int64_to_bytes, uint64_to_bytes,
  uint32_to_bytes, uint16_to_bytes, bytes_to_double, bytes_to_int64, bytes_to_uint64,
  bytes_to_uint32, bytes_to_uint16,
}
use rpcmple.Endian.Digits.{length-le_bytes, le_bytes-IsBytes, le_bytes-of_bytes, of_bytes-le_bytes}

-- What the swap of a word of n bytes has to do.
abbrev Reverses : (ℕ → ℕ) → ℕ → Type 0
Reverses swap n =
    (bs : List ℕ) → length bs ≡ n → IsBytes bs → swap (of_bytes bs) ≡ of_bytes (reverse bs)

swap_endian64-Reverses : Reverses swap_endian64 8
swap_endian64-Reverses (a ∷ b ∷ c ∷ d ∷ e ∷ f ∷ g ∷ h ∷ []) p q =
    swap_endian64_lem a b c d e f g h q
swap_endian64-Reverses _ p q = absurd (omega arith)

swap_endian32-Reverses : Reverses swap_endian32 4
swap_endian32-Reverses (a ∷ b ∷ c ∷ d ∷ []) p q = swap_endian32_lem a b c d q
swap_endian32-Reverses _ p q = absurd (omega arith)

swap_endian16-Reverses : Reverses swap_endian16 2
swap_endian16-Reverses (a ∷ b ∷ []) p q = swap_endian16_lem a b q
swap_endian16-Reverses _ p q = absurd (omega arith)

pub is_machine_little_endian_lem : (m : Bool) → is_machine_little_endian m ≡ m
unfolding is_machine_little_endian
is_machine_little_endian_lem true = refl
is_machine_little_endian_lem false = refl

-- The bytes in the order that is asked for.
abbrev pub ordered : Bool → List ℕ → List ℕ
ordered little bs = if little then bs else reverse bs

module _ (swap : ℕ → ℕ) (n : ℕ) (reverses : Reverses swap n) where
  swap-le_bytes : (w : ℕ) → w < 256 ^ n → swap w ≡ of_bytes (reverse (le_bytes n w))
  swap-le_bytes w h =
      ap swap (sym (of_bytes-le_bytes n w h))
      ∙ reverses (le_bytes n w) (length-le_bytes n w) (le_bytes-IsBytes n w)

  le_bytes-swap : (w : ℕ) → w < 256 ^ n → le_bytes n (swap w) ≡ reverse (le_bytes n w)
  le_bytes-swap w h = rw (swap-le_bytes w h) (
      subst (λ (k : ℕ). le_bytes k (of_bytes (reverse (le_bytes n w))) ≡ reverse (le_bytes n w))
        (length-reverse (le_bytes n w) ∙ length-le_bytes n w)
        (le_bytes-of_bytes (reverse (le_bytes n w))
          (All-reverse (λ b. b < 256) (le_bytes n w) (le_bytes-IsBytes n w))))

  pub to_bytes_lem :
      (m : Bool) (w : ℕ) (little : Bool)
      → w < 256 ^ n
      → to_bytes swap n m w little ≡ ordered little (le_bytes n w)
  to_bytes_lem true w true h = rw (is_machine_little_endian_lem true) refl
  to_bytes_lem true w false h = rw (is_machine_little_endian_lem true) (le_bytes-swap w h)
  to_bytes_lem false w true h =
      rw (is_machine_little_endian_lem false, le_bytes-swap w h) (reverse-reverse (le_bytes n w))
  to_bytes_lem false w false h = rw (is_machine_little_endian_lem false) refl

  load-append :
      (m : Bool) (bs rest : List ℕ)
      → length bs ≡ n
      → load m n (bs ++ rest) ≡ some (of_bytes (ordered m bs))
  load-append m bs rest e = rw (length-append bs rest, take-append n bs rest e, enough) refl
    where
      enough : ltb (length bs + length rest) n ≡ false
      enough = ground arith

  swapped : (bs : List ℕ) → length bs ≡ n → IsBytes bs → swap (of_bytes (reverse bs)) ≡ of_bytes bs
  swapped bs e h =
      rw
        (
          reverses (reverse bs) (length-reverse bs ∙ e) (All-reverse (λ b. b < 256) bs h),
          reverse-reverse bs,
        )
        refl

  pub of_memory_lem :
      (m : Bool) (bs rest : List ℕ) (little : Bool)
      → length bs ≡ n
      → IsBytes bs
      → of_memory swap n m (bs ++ rest) little ≡ some (of_bytes (ordered little bs))
  of_memory_lem true bs rest true e h =
      rw (load-append true bs rest e, is_machine_little_endian_lem true) refl
  of_memory_lem true bs rest false e h =
      rw (load-append true bs rest e, is_machine_little_endian_lem true) (ap some (reverses bs e h))
  of_memory_lem false bs rest true e h =
      rw (load-append false bs rest e, is_machine_little_endian_lem false)
        (ap some (swapped bs e h))
  of_memory_lem false bs rest false e h =
      rw (load-append false bs rest e, is_machine_little_endian_lem false) refl

  ordered-IsBytes : (little : Bool) (bs : List ℕ) → IsBytes bs → IsBytes (ordered little bs)
  ordered-IsBytes true bs h = h
  ordered-IsBytes false bs h = All-reverse (λ b. b < 256) bs h

  length-ordered : (little : Bool) (bs : List ℕ) → length (ordered little bs) ≡ length bs
  length-ordered true bs = refl
  length-ordered false bs = length-reverse bs

  ordered-ordered : (little : Bool) (bs : List ℕ) → ordered little (ordered little bs) ≡ bs
  ordered-ordered true bs = refl
  ordered-ordered false bs = reverse-reverse bs

  pub of_memory-to_bytes :
      (m m' : Bool) (w : ℕ) (little : Bool) (rest : List ℕ)
      → w < 256 ^ n
      → of_memory swap n m' (to_bytes swap n m w little ++ rest) little ≡ some w
  of_memory-to_bytes m m' w little rest h = rw (to_bytes_lem m w little h) (
      of_memory_lem m' (ordered little (le_bytes n w)) rest little
        (length-ordered little (le_bytes n w) ∙ length-le_bytes n w)
        (ordered-IsBytes little (le_bytes n w) (le_bytes-IsBytes n w))
      ∙ ap (λ bs. some (of_bytes bs)) (ordered-ordered little (le_bytes n w))
      ∙ ap some (of_bytes-le_bytes n w h))

  of_memory_short :
      (m : Bool) (bs : List ℕ) (little : Bool) → length bs < n → of_memory swap n m bs little ≡ none
  of_memory_short m bs little h = ap (converted swap (differ little (is_machine_little_endian m))) (
      ap
        (λ (t : Bool).
          if t then none else some (of_bytes (if m then take n bs else reverse (take n bs))))
        short)
    where
      short : ltb (length bs) n ≡ true
      short = ground arith

of_memory-some :
    (swap : ℕ → ℕ) (n : ℕ) (m : Bool) (bs : List ℕ) (little : Bool)
    → n ≤ length bs
    → (w : ℕ) × (of_memory swap n m bs little ≡ some w)
of_memory-some swap n m bs little h =
    let word = of_bytes (ordered m (take n bs)) in
    (if differ little (is_machine_little_endian m) then swap word else word, rw enough refl)
  where
    enough : ltb (length bs) n ≡ false
    enough = ground arith

-- The readers have a value wherever there are bytes enough.
pub bytes_to_some :
    (m : Bool) (bs : List ℕ) (little : Bool)
    → (8 ≤ length bs → (w : ℕ) × (bytes_to_double m bs little ≡ some w))
      × (8 ≤ length bs → (w : ℕ) × (bytes_to_int64 m bs little ≡ some w))
      × (8 ≤ length bs → (w : ℕ) × (bytes_to_uint64 m bs little ≡ some w))
      × (2 ≤ length bs → (w : ℕ) × (bytes_to_uint16 m bs little ≡ some w))
      × (4 ≤ length bs → (w : ℕ) × (bytes_to_uint32 m bs little ≡ some w))
unfolding bytes_to_double bytes_to_int64 bytes_to_uint64 bytes_to_uint16 bytes_to_uint32
bytes_to_some m bs little = (
  of_memory-some swap_endian64 8 m bs little,
  of_memory-some swap_endian64 8 m bs little,
  of_memory-some swap_endian64 8 m bs little,
  of_memory-some swap_endian16 2 m bs little,
  of_memory-some swap_endian32 4 m bs little,
)

-- Each conversion to bytes gives the bytes of the word in the order that is asked for, on a
-- machine of either byte order, for every word of its width.
pub to_bytes-ordered :
    (m : Bool) (w : ℕ) (little : Bool)
    → (w < 2 ^ 64 → uint64_to_bytes m w little ≡ ordered little (le_bytes 8 w))
      × (w < 2 ^ 64 → int64_to_bytes m w little ≡ ordered little (le_bytes 8 w))
      × (w < 2 ^ 64 → double_to_bytes m w little ≡ ordered little (le_bytes 8 w))
      × (w < 2 ^ 32 → uint32_to_bytes m w little ≡ ordered little (le_bytes 4 w))
      × (w < 2 ^ 16 → uint16_to_bytes m w little ≡ ordered little (le_bytes 2 w))
unfolding uint64_to_bytes int64_to_bytes double_to_bytes uint32_to_bytes uint16_to_bytes
to_bytes-ordered m w little = (
  λ h. to_bytes_lem swap_endian64 8 swap_endian64-Reverses m w little h,
  λ h. to_bytes_lem swap_endian64 8 swap_endian64-Reverses m w little h,
  λ h. to_bytes_lem swap_endian64 8 swap_endian64-Reverses m w little h,
  λ h. to_bytes_lem swap_endian32 4 swap_endian32-Reverses m w little h,
  λ h. to_bytes_lem swap_endian16 2 swap_endian16-Reverses m w little h,
)

-- What the five readers do at bytes that stand at the head of the memory read, and at a memory
-- that is too short.
pub bytes_to_uint64_lem :
    (m : Bool) (bs rest : List ℕ)
    → length bs ≡ 8
    → IsBytes bs
    → (bytes_to_uint64 m (bs ++ rest) true ≡ some (of_bytes bs))
      × (bytes_to_int64 m (bs ++ rest) true ≡ some (of_bytes bs))
      × (bytes_to_double m (bs ++ rest) true ≡ some (of_bytes bs))
unfolding bytes_to_uint64 bytes_to_int64 bytes_to_double
bytes_to_uint64_lem m bs rest e h =
    let read = of_memory_lem swap_endian64 8 swap_endian64-Reverses m bs rest true e h in
    (read, read, read)

pub bytes_to_uint32_lem :
    (m : Bool) (bs rest : List ℕ)
    → length bs ≡ 4
    → IsBytes bs
    → bytes_to_uint32 m (bs ++ rest) true ≡ some (of_bytes bs)
unfolding bytes_to_uint32
bytes_to_uint32_lem m bs rest e h =
    of_memory_lem swap_endian32 4 swap_endian32-Reverses m bs rest true e h

pub bytes_to_uint16_lem :
    (m : Bool) (bs rest : List ℕ)
    → length bs ≡ 2
    → IsBytes bs
    → bytes_to_uint16 m (bs ++ rest) true ≡ some (of_bytes bs)
unfolding bytes_to_uint16
bytes_to_uint16_lem m bs rest e h =
    of_memory_lem swap_endian16 2 swap_endian16-Reverses m bs rest true e h

-- Words survive the trip between two machines, each of either byte order: what one writes in a
-- given order the other reads back in the same order, whatever bytes follow. This holds of all
-- five pairs of conversions.
pub bytes_to-to_bytes :
    (m m' : Bool) (w : ℕ) (little : Bool) (rest : List ℕ)
    → (w < 2 ^ 64 → bytes_to_uint64 m' (uint64_to_bytes m w little ++ rest) little ≡ some w)
      × (w < 2 ^ 64 → bytes_to_int64 m' (int64_to_bytes m w little ++ rest) little ≡ some w)
      × (w < 2 ^ 64 → bytes_to_double m' (double_to_bytes m w little ++ rest) little ≡ some w)
      × (w < 2 ^ 32 → bytes_to_uint32 m' (uint32_to_bytes m w little ++ rest) little ≡ some w)
      × (w < 2 ^ 16 → bytes_to_uint16 m' (uint16_to_bytes m w little ++ rest) little ≡ some w)
unfolding uint64_to_bytes int64_to_bytes double_to_bytes uint32_to_bytes uint16_to_bytes
    bytes_to_uint64 bytes_to_int64 bytes_to_double bytes_to_uint32 bytes_to_uint16
bytes_to-to_bytes m m' w little rest = (wide, wide, wide, medium, narrow)
  where
    wide :
        w < 2 ^ 64
        → of_memory swap_endian64 8 m' (to_bytes swap_endian64 8 m w little ++ rest) little ≡ some w
    wide = of_memory-to_bytes swap_endian64 8 swap_endian64-Reverses m m' w little rest

    medium :
        w < 2 ^ 32
        → of_memory swap_endian32 4 m' (to_bytes swap_endian32 4 m w little ++ rest) little ≡ some w
    medium = of_memory-to_bytes swap_endian32 4 swap_endian32-Reverses m m' w little rest

    narrow :
        w < 2 ^ 16
        → of_memory swap_endian16 2 m' (to_bytes swap_endian16 2 m w little ++ rest) little ≡ some w
    narrow = of_memory-to_bytes swap_endian16 2 swap_endian16-Reverses m m' w little rest
