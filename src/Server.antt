-- ===== src/Server.antt =====
-- rpcmple_cpp/include/rpcmple/rpcServer.h: the classes `localProcedureSignature` and `rpcServer`.
-- The procedures themselves are the user's: functions from arguments to a success and returns.
pub mod Steady
pub mod Serve
pub mod Stream
pub mod Request
pub mod Answers
pub mod OverTcp
use rpcmple.Common.{
  ℕ, zero, suc, ◌+◌, ◌^◌, ◌-◌, List, [], ◌∷◌, ◌++◌, length, get_elem?, replicate, resize,
}
use rpcmple.Common.{Option, none, some, Outcome, ok, refused, thrown, fault, ◌>>=◌, or_fault}
use rpcmple.Common.{Bool, true, false, ltb, ◌==◌, if◌then◌else◌}
use rpcmple.Endian.{bytes_to_uint32}
use rpcmple.Variant.{Variant, Text, default_variant}
use rpcmple.Signature.{Codec}
use rpcmple.Signature.Writer.{to_binary}
use rpcmple.Signature.Reader.{from_binary}
use rpcmple.Header.{header_val, put_message, header_high, header_size}
use rpcmple.Manager.{Parser}

pub record Procedure : Type 0 where
  pub id : ℕ
  pub procedure_name : Text
  pub args : List ℕ
  pub rets : List ℕ
  pub call_function : Option (List Variant → Bool × List Variant)

-- `called`: without a function it fails and leaves the returns, here an empty vector, alone.
unfoldable pub called : Procedure → List Variant → Bool × List Variant
called proc arguments = elim proc.call_function [ none ↦ (false, []) | some f ↦ f arguments ]

pub record Server : Type 0 where
  pub local_procedures : List Procedure
  pub procedure_id : ℕ
  pub call_success : Bool
  pub call_returns_serialized : List ℕ
  pub section_len : ℕ
  pub section_id : ℕ

-- `procedureID = -1` is the largest `uint32_t`.
unfoldable pub make_server : Server
make_server = record {
  local_procedures = [];
  procedure_id = 2 ^ 32 - 1;
  call_success = false;
  call_returns_serialized = [];
  section_len = 4;
  section_id = 0;
}

unfoldable pub append_signature : Server → Procedure → Server
append_signature s proc = record s {
  local_procedures = s.local_procedures ++ record proc { id = length s.local_procedures } ∷ [];
}

module _ (codec : Codec) (m : Bool) where
  -- The arguments of a call: whether `fromBinary` returned true is not asked.
  abbrev pub values_of :
      {A : Type 0} → Outcome (List Variant) (List Variant) → Outcome A (List Variant)
  values_of (ok args) = ok args
  values_of (refused args) = ok args
  values_of thrown = thrown
  values_of fault = fault

  -- The bytes of the returns: whether `toBinary` returned true is not asked either.
  abbrev pub bytes_of : {A : Type 0} → Outcome (List ℕ) (List ℕ) → Outcome A (List ℕ)
  bytes_of (ok bytes) = ok bytes
  bytes_of (refused bytes) = ok bytes
  bytes_of thrown = thrown
  bytes_of fault = fault

  -- What `call` does with the procedure's answer.
  unfoldable pub answer : Server → Procedure → Bool × List Variant → Outcome Server Server
  answer s proc (success, rets) =
      if success
      then (if length rets == length proc.rets
          then (bytes_of (to_binary codec.to_bytes m proc.rets rets s.call_returns_serialized)
              >>= λ bytes. ok (record s { call_success = true; call_returns_serialized = bytes }))
          else refused (record s { call_success = false; call_returns_serialized = [] }))
      else refused s

  unfoldable pub run_procedure : Server → Procedure → List ℕ → Outcome Server Server
  run_procedure s proc message = do
    args ← values_of (
        from_binary codec.from_bytes m proc.args message
          (replicate (length proc.args) default_variant))
    answer s proc (called proc args)

  -- A number that no procedure has is refused.
  unfoldable pub run_found : Server → List ℕ → Option Procedure → Outcome Server Server
  run_found s message none = refused s
  run_found s message (some proc) = run_procedure s proc message

  unfoldable pub call : Server → List ℕ → Outcome Server Server
  call s message = run_found s message (get_elem? s.local_procedures s.procedure_id)

  -- Back to the section that holds a header.
  abbrev pub rewound : Server → Outcome Server Server
  rewound s = ok (record s { section_id = 0; section_len = 4 })

  unfoldable pub parse_header : Server → ℕ → Outcome Server Server
  parse_header s v =
      let s' = record s { procedure_id = header_high v; section_len = header_size v } in
      if ltb 0 (header_size v) then ok (record s' { section_id = 1 }) else (call s' [] >>= rewound)

  unfoldable pub parse_section : ℕ → Server → List ℕ → Outcome Server Server
  parse_section zero s message = or_fault (bytes_to_uint32 m message true) >>= parse_header s
  parse_section (suc zero) s message = call s message >>= rewound
  parse_section (suc (suc n)) s message = refused s

  unfoldable pub parse_message : Server → List ℕ → Outcome Server Server
  parse_message s message = parse_section s.section_id s message

  unfoldable pub write_message : Server → List ℕ → Outcome Server (Server × List ℕ)
  write_message s message =
      let returns = s.call_returns_serialized in
      if s.section_id == 0
      then (if ltb 16777216 (length returns)
          then refused s
          else (or_fault (put_message m (if s.call_success then 1 else 0) returns 0 message)
              >>= λ reply. ok (s, resize (4 + length returns) 0 reply)))
      else ok (s, [])

  unfoldable pub server : Parser Server
  server = record {
    parse_message = parse_message;
    get_message_len = λ s. s.section_len;
    write_message = write_message;
  }
