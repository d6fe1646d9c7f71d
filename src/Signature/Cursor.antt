-- ===== src/Signature/Cursor.antt =====
-- The message that `toBinary` fills: the vector and `replyOffset`. A write past the end of the
-- vector is a `fault`; `return false` leaves the vector to the caller.
use rpcmple.Common.{ℕ, ◌+◌, List, ◌++◌, length, replicate, resize}
use rpcmple.Common.{Outcome, ok, ◌>>=◌, or_fault}
use rpcmple.Common.{overwrite, ltb, if◌then◌else◌}

pub record Cursor : Type 0 where
  pub buf : List ℕ
  pub pos : ℕ

abbrev pub Written : Type 0
Written = Outcome (List ℕ) Cursor

-- `if (message.size() < replyOffset + n) message.resize(message.size() + n);`
unfoldable pub reserve : ℕ → Cursor → Cursor
reserve n c =
    if ltb (length c.buf) (c.pos + n) then record c { buf = c.buf ++ replicate n 0 } else c

-- The bytes go in at `replyOffset`, which then moves by n.
unfoldable pub write : ℕ → List ℕ → Cursor → Written
write n bs c = or_fault (overwrite c.buf c.pos bs) >>= λ b. ok (record { buf = b; pos = c.pos + n })

-- `message.resize(replyOffset)` on success.
unfoldable pub finish : Cursor → List ℕ
finish c = resize c.pos 0 c.buf
