-- ===== src/Tests/Wires.antt =====
-- Words, headers and messages of the wire format.
use rpcmple.Common.{◌≡◌, refl, arith, [], ◌∷◌, ◌++◌}
use rpcmple.Common.{some, true, false, ok}
use rpcmple.Endian.{
  le_bytes, double_to_bytes, int64_to_bytes, uint64_to_bytes, bytes_to_double, bytes_to_int64,
  bytes_to_uint64, swap_endian64, swap_endian32, swap_endian16,
}
use rpcmple.Endian.Laws.{ordered}
use rpcmple.Endian.Trip.{uint64_to_bytes-ordered, bytes_to_uint64-uint64_to_bytes}
use rpcmple.Signature.Writer.{to_binary}
use rpcmple.Signature.Reader.{from_binary}
use rpcmple.Signature.Wire.{encode}
use rpcmple.Signature.Refine.{Agrees, to_binary-encode}
use rpcmple.Signature.Safety.{LeavesArgs, from_binary-LeavesArgs}
use rpcmple.Signature.Typing.{IsTyped, from_binary-IsTyped}
use rpcmple.Signature.RoundTrip.{from_binary-encode}
use rpcmple.Signature.Received.{received}
use rpcmple.Common.{ℕ, replicate, length-replicate}
use rpcmple.Variant.{Variant}
use rpcmple.Signature.Limit.{to_binary-limit}
use rpcmple.Signature.Overrun.{to_binary-overrun}
use rpcmple.Common.{fault}
use rpcmple.Signature.Exchange.{from_binary-to_binary}
use rpcmple.Tests.Codecs.{ascii, ascii-IsUtf8}
use rpcmple.Tests.Calls.{
  call_args, seven, seven_bytes, seven_encodes, seven-IsVariant, seven_fits, seven-NoZero,
}

-- The swaps on a word whose bytes all differ.
swap_endian64_test : swap_endian64 0x0102030405060708 ≡ 0x0807060504030201
unfolding swap_endian64
swap_endian64_test = refl

swap_endian32_test : swap_endian32 0x01020304 ≡ 0x04030201
unfolding swap_endian32
swap_endian32_test = refl

swap_endian16_test : swap_endian16 0x0102 ≡ 0x0201
unfolding swap_endian16
swap_endian16_test = refl

uint64_to_bytes-ordered_example :
    (uint64_to_bytes false 258 true ≡ ordered true (le_bytes 8 258))
    × (int64_to_bytes false 258 true ≡ ordered true (le_bytes 8 258))
    × (double_to_bytes false 258 true ≡ ordered true (le_bytes 8 258))
uint64_to_bytes-ordered_example = uint64_to_bytes-ordered false 258 true (omega arith)

bytes_to_uint64-uint64_to_bytes_example :
    (bytes_to_uint64 true (uint64_to_bytes false 258 false ++ []) false ≡ some 258)
    × (bytes_to_int64 true (int64_to_bytes false 258 false ++ []) false ≡ some 258)
    × (bytes_to_double true (double_to_bytes false 258 false ++ []) false ≡ some 258)
bytes_to_uint64-uint64_to_bytes_example =
    bytes_to_uint64-uint64_to_bytes false true 258 false [] (omega arith)

to_binary-encode_example :
    Agrees
      (to_binary ascii.to_bytes false call_args seven (9 ∷ 9 ∷ []))
      (encode ascii.to_bytes call_args seven)
to_binary-encode_example =
    to_binary-encode ascii.to_bytes false call_args seven (9 ∷ 9 ∷ []) (omega arith) seven-IsVariant
      seven_fits

from_binary-encode_example :
    from_binary ascii.from_bytes false call_args (seven_bytes ++ 9 ∷ []) []
    ≡ ok (received ascii call_args seven)
from_binary-encode_example =
    from_binary-encode ascii ascii-IsUtf8 false call_args seven seven_bytes (9 ∷ []) [] refl
      seven-IsVariant seven-NoZero seven_encodes

from_binary-to_binary_example :
    (to_binary ascii.to_bytes true call_args seven [] ≡ ok seven_bytes)
    × (from_binary ascii.from_bytes false call_args (seven_bytes ++ 9 ∷ []) []
        ≡ ok (received ascii call_args seven))
from_binary-to_binary_example =
    from_binary-to_binary ascii ascii-IsUtf8 true false call_args seven seven_bytes [] (9 ∷ []) []
      refl seven-IsVariant seven_fits seven-NoZero seven_encodes

from_binary-LeavesArgs_example :
    LeavesArgs 2 (from_binary ascii.from_bytes true call_args (1 ∷ 2 ∷ []) [])
from_binary-LeavesArgs_example =
    from_binary-LeavesArgs ascii.from_bytes true call_args (1 ∷ 2 ∷ []) []

to_binary-limit_example :
    (to_binary ascii.to_bytes true (b'I' ∷ []) (Variant.int64s (replicate 65536 7) ∷ []) []
      ≡ to_binary ascii.to_bytes true (b'I' ∷ []) (Variant.int64s [] ∷ []) [])
    × (to_binary ascii.to_bytes true (b'U' ∷ []) (Variant.uint64s (replicate 65536 7) ∷ []) []
        ≡ to_binary ascii.to_bytes true (b'U' ∷ []) (Variant.uint64s [] ∷ []) [])
    × (to_binary ascii.to_bytes true (b'D' ∷ []) (Variant.doubles (replicate 65536 7) ∷ []) []
        ≡ to_binary ascii.to_bytes true (b'D' ∷ []) (Variant.doubles [] ∷ []) [])
to_binary-limit_example =
    to_binary-limit ascii.to_bytes true (replicate 65536 7) [] (length-replicate {A = ℕ} 65536 7)

to_binary-overrun_example :
    (to_binary
        (λ w. some w)
        true
        (b's' ∷ [])
        (Variant.string (replicate 65536 7) ∷ [])
        (replicate 1024 0)
      ≡ fault)
    × (to_binary
          (λ w. some w)
          true
          (b'w' ∷ [])
          (Variant.wstring (replicate 65536 7) ∷ [])
          (replicate 1024 0)
        ≡ fault)
to_binary-overrun_example =
    to_binary-overrun true (λ w. some w) (replicate 65536 7) (replicate 65536 7) (replicate 1024 0)
      (length-replicate {A = ℕ} 65536 7) refl (omega (arith, length-replicate {A = ℕ} 1024 0))

seven_decodes :
    from_binary ascii.from_bytes true call_args (seven_bytes ++ []) []
    ≡ ok (received ascii call_args seven)
seven_decodes =
    from_binary-encode ascii ascii-IsUtf8 true call_args seven seven_bytes [] [] refl
      seven-IsVariant seven-NoZero seven_encodes

from_binary-IsTyped_example : IsTyped call_args (received ascii call_args seven)
from_binary-IsTyped_example =
    from_binary-IsTyped ascii.from_bytes true call_args (seven_bytes ++ []) []
      (received ascii call_args seven) seven_decodes
