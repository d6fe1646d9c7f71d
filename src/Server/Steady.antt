-- ===== src/Server/Steady.antt =====
-- rpcmple_cpp/include/rpcmple/rpcServer.h under rpcmple_cpp/include/rpcmple/messageManager.h: what
-- message the server waits for.
use rpcmple.Common.{ℕ, zero, suc, ◌+◌, ◌<◌, arith, List, []}
use rpcmple.Common.{
  Option, none, some, Outcome, ok, ◌>>=◌, or_fault, Bool, true, Bool-cases, inl, inr,
}
use rpcmple.Common.{ltb, ◌==◌, if◌then◌else◌, length, resize}
use rpcmple.Endian.{bytes_to_uint32}
use rpcmple.Signature.{Codec}
use rpcmple.Header.{header_size, put_message}
use rpcmple.Manager.{Connection}
use rpcmple.Common.{Leaves, Leaves-bind, Leaves-any}
use rpcmple.Manager.Steady.{Leaves-keeps}
use rpcmple.Manager.Chunks.{IsSteady}
use rpcmple.Server.{
  Server, call, parse_header, parse_section, parse_message, write_message, server, rewound,
}

-- The server waits for a message that is not empty.
abbrev pub Waits : Server → Type 0
Waits s = 0 < s.section_len

module _ (codec : Codec) (m : Bool) where
  rewound-Waits : (o : Outcome Server Server) → Leaves Waits (o >>= rewound codec m)
  rewound-Waits o =
      Leaves-bind (λ _. Unit {0}) Waits o (rewound codec m) (Leaves-any o) λ s _. omega arith

  parse_header-Waits : (s : Server) (v : ℕ) → Leaves Waits (parse_header codec m s v)
  unfolding parse_header
  parse_header-Waits s v = elim (Bool-cases (ltb 0 (header_size v))) [
    | inl more ↦ rw more (ground arith)
    | inr done ↦ rw done (rewound-Waits (call codec m _ []))
  ]

  parse_section-Waits :
      (n : ℕ) (s : Server) (message : List ℕ) → Leaves Waits (parse_section codec m n s message)
  unfolding parse_section
  parse_section-Waits zero s message =
      Leaves-bind (λ _. Unit {0}) Waits (or_fault (bytes_to_uint32 m message true))
        (parse_header codec m s) (Leaves-any (or_fault (bytes_to_uint32 m message true)))
        λ v _. parse_header-Waits s v
  parse_section-Waits (suc zero) s message = rewound-Waits (call codec m s message)
  parse_section-Waits (suc (suc n)) s message = tt

  write_message-Waits :
      (s : Server) (message : List ℕ)
      → Waits s
      → Leaves (λ (x : Server × List ℕ). Waits x.0) (write_message codec m s message)
  unfolding write_message
  write_message-Waits s message h = elim (Bool-cases (s.section_id == 0)) [
    | inl idle ↦ elim (Bool-cases (ltb 16777216 (length s.call_returns_serialized))) [
      | inl big ↦ rw (idle, big) tt
      | inr small ↦
          rw (idle, small)
            (made
              (put_message m (if s.call_success then 1 else 0) s.call_returns_serialized 0 message))
    ]
    | inr busy ↦ rw busy h
  ]
    where
      made :
          (o : Option (List ℕ))
          → Leaves
              (λ (x : Server × List ℕ). Waits x.0)
              (or_fault {E = Server} o >>= λ reply.
                ok (s, resize (4 + length s.call_returns_serialized) 0 reply))
      made none = tt
      made (some reply) = h

-- Over any connection, the server waits for a message that is not empty whenever it comes back to
-- the loop.
pub server-IsSteady :
    {C : Type 0} (codec : Codec) (m : Bool) (k : Connection C) → IsSteady (server codec m) k Waits
unfolding server parse_message
server-IsSteady codec m k =
    Leaves-keeps k (server codec m) Waits
      (λ s bytes w. parse_section-Waits codec m s.section_id s bytes)
      (λ s bytes w. write_message-Waits codec m s bytes w) (λ s w. w)
