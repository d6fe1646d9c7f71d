-- ===== src/Header.antt =====
-- The 4-byte header that rpcServer.h, rpcClient.h and dataPublisher.h put in front of a message,
-- and that rpcServer.h, rpcClient.h and dataSubscriber.h take apart: a procedure's index or a
-- success flag in the high byte, the size of what follows in the three others.
use rpcmple.Common.{ℕ, ◌+◌, ◌*◌, ◌/◌, ◌%◌, ◌^◌, ◌<◌, ◌≡◌, refl, ap, ◌∙◌, arith}
use rpcmple.Common.{List, [], ◌++◌, append_assoc, append-nil, length, drop, resize}
use rpcmple.Common.{length-eq-zero, length-resize, resize-append, length-append, length-drop}
use rpcmple.Common.{Option, none, some, Bool, true, overwrite, overwrite-append}
use rpcmple.Endian.{le_bytes, uint32_to_bytes, bytes_to_uint32}
use rpcmple.Endian.Laws.{to_bytes-ordered, bytes_to_uint32_lem}
use rpcmple.Endian.Digits.{of_bytes-le_bytes, le_bytes-IsBytes}

-- `uint32_t headerVal = high * 16777216 + size;`
unfoldable pub header_val : ℕ → ℕ → ℕ
header_val high size = (high * 16777216 + size) % 2 ^ 32

-- The vector is resized, and the header and the payload are copied in at an offset; `none` is a
-- copy past its end.
abbrev pub then_payload : ℕ → List ℕ → Option (List ℕ) → Option (List ℕ)
then_payload offset payload none = none
then_payload offset payload (some message) = overwrite message offset payload

unfoldable pub put_message : Bool → ℕ → List ℕ → ℕ → List ℕ → Option (List ℕ)
put_message m high payload offset message = then_payload (offset + 4) payload (
    overwrite (resize (offset + 4 + length payload) 0 message) offset
      (uint32_to_bytes m (header_val high (length payload)) true))

-- `mVal / 16777216` and `mVal % 16777216`.
unfoldable pub header_high : ℕ → ℕ
header_high v = v / 16777216

unfoldable pub header_size : ℕ → ℕ
header_size v = v % 16777216

header_val-lt : (high size : ℕ) → header_val high size < 2 ^ 32
unfolding header_val
header_val-lt high size = omega arith

put_at_end :
    (ws spare header payload : List ℕ)
    → length spare ≡ length header + length payload
    → (message' : List ℕ) × (overwrite (ws ++ spare) (length ws) header ≡ some message')
      × (overwrite message' (length ws + length header) payload ≡ some (ws ++ (header ++ payload)))
put_at_end ws spare header payload e = (
  ws ++ (header ++ drop (length header) spare),
  overwrite-append ws spare header (omega arith),
  second,
)
  where
    rest : List ℕ
    rest = drop (length header) spare

    exact : drop (length payload) rest ≡ []
    exact =
        length-eq-zero (drop (length payload) rest)
          (omega (arith, length-drop (length payload) rest, length-drop (length header) spare))

    second :
        overwrite (ws ++ (header ++ rest)) (length ws + length header) payload
        ≡ some (ws ++ (header ++ payload))
    second =
        rw (← append_assoc ws header rest, ← length-append ws header)
          (overwrite-append (ws ++ header) rest payload
              (omega (arith, length-drop (length header) spare))
            ∙ ap some (
                ap (λ l. (ws ++ header) ++ (payload ++ l)) exact
                ∙ ap (◌++◌ (ws ++ header)) (append-nil payload)
                ∙ append_assoc ws header payload))

-- The header and the payload are put into the vector at its offset, on a machine of either byte
-- order: what stands before the offset is kept, and the header and the payload follow, and nothing
-- else.
pub put_message-append :
    (m : Bool) (high : ℕ) (payload ws spare : List ℕ)
    → put_message m high payload (length ws) (ws ++ spare)
      ≡ some (ws ++ (le_bytes 4 (header_val high (length payload)) ++ payload))
unfolding put_message
put_message-append m high payload ws spare =
    let n : ℕ = 4 + length payload in
    let header : List ℕ = le_bytes 4 (header_val high (length payload)) in
    let (message', first, second) =
      put_at_end ws (resize n 0 spare) header payload (length-resize n 0 spare) in
    ap (then_payload (length ws + 4) payload) (
      ap (overwrite (resize (length ws + 4 + length payload) 0 (ws ++ spare)) (length ws)) (
        (to_bytes-ordered m (header_val high (length payload)) true).3
          (header_val-lt high (length payload)))
      ∙ ap (λ l. overwrite l (length ws) header)
          (resize-append (length ws + 4 + length payload) n 0 ws spare (omega arith))
      ∙ first)
    ∙ second

-- A header is read back as it was put together, if the high part is a byte and the size is less
-- than 16777216.
pub header_val_parts :
    (high size : ℕ)
    → high < 256
    → size < 16777216
    → (header_high (header_val high size) ≡ high) × (header_size (header_val high size) ≡ size)
unfolding header_val header_high header_size
header_val_parts high size h h' = omega arith

-- The header at the head of a message, on a machine of either byte order.
pub bytes_to_uint32-header :
    (m : Bool) (high size : ℕ) (rest : List ℕ)
    → bytes_to_uint32 m (le_bytes 4 (header_val high size) ++ rest) true
      ≡ some (header_val high size)
bytes_to_uint32-header m high size rest =
    bytes_to_uint32_lem m (le_bytes 4 (header_val high size)) rest refl
      (le_bytes-IsBytes 4 (header_val high size))
    ∙ ap some (of_bytes-le_bytes 4 (header_val high size) (header_val-lt high size))
