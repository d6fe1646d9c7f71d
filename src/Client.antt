-- ===== src/Client.antt =====
-- rpcmple_cpp/include/rpcmple/rpcClient.h: the classes `remoteProcedureSignature` and `rpcClient`.
-- `callSync` runs on the caller's thread and waits twice on a condition variable: the conditions
-- are `may_call` and `has_reply`, and what it does behind them, under the lock, `post` and
-- `take_reply`. `writeMessage` waits for `may_send`.
pub mod Call
pub mod Remote
pub mod Limit
pub mod Race
pub mod Steps
pub mod Effects
pub mod Matched
pub mod Stages
use rpcmple.Common.{ℕ, zero, suc, ◌+◌, List, [], ◌∷◌, ◌++◌, length, get_elem?, resize}
use rpcmple.Common.{
  Option, none, some, Outcome, ok, refused, thrown, fault, ◌>>=◌, or_fault, or_refused,
}
use rpcmple.Common.{not, Bool, true, false, ltb, ◌==◌, ◌&&◌, ◌||◌, if◌then◌else◌}
use rpcmple.Endian.{bytes_to_uint32}
use rpcmple.Variant.{Variant, Text}
use rpcmple.Signature.{Codec}
use rpcmple.Signature.Writer.{to_binary}
use rpcmple.Signature.Reader.{from_binary}
use rpcmple.Header.{put_message, header_high, header_size}
use rpcmple.Manager.{Parser}

pub record RemoteProcedure : Type 0 where
  pub id : ℕ
  pub procedure_name : Text
  pub args : List ℕ
  pub rets : List ℕ

-- `remoteProceduresMap` has the last number of a name in front.
pub record Client : Type 0 where
  pub remote_procedures : List RemoteProcedure
  pub remote_procedures_map : List (Text × ℕ)
  pub can_call : Bool
  pub send_is_ready : Bool
  pub repl_is_ready : Bool
  pub procedure_id : ℕ
  pub args : List ℕ
  pub call_success_int : ℕ
  pub rets : List ℕ
  pub section_len : ℕ
  pub section_id : ℕ
  pub stop_wait : Bool

unfoldable pub make_client : Client
make_client = record {
  remote_procedures = [];
  remote_procedures_map = [];
  can_call = true;
  send_is_ready = false;
  repl_is_ready = false;
  procedure_id = 0;
  args = [];
  call_success_int = 0;
  rets = [];
  section_len = 4;
  section_id = 0;
  stop_wait = false;
}

unfoldable pub append_signature : Client → RemoteProcedure → Client
append_signature c proc =
    let n = length c.remote_procedures in
    record c {
      remote_procedures = c.remote_procedures ++ record proc { id = n } ∷ [];
      remote_procedures_map = (proc.procedure_name, n) ∷ c.remote_procedures_map;
    }

-- `remoteProcedures[rpId]`, undefined behind the end, and the number of arguments.
unfoldable pub admit : Client → ℕ → List Variant → Outcome Client RemoteProcedure
admit c id arguments = or_fault (get_elem? c.remote_procedures id) >>= λ proc.
    if length arguments == length proc.args then ok proc else refused c

unfoldable pub may_call : Client → Bool
may_call c = c.can_call || c.stop_wait

-- The condition of `waitRPCComplete`.
unfoldable pub rpc_complete : Client → Bool
rpc_complete c = c.can_call || c.stop_wait

unfoldable pub may_send : Client → Bool
may_send c = c.send_is_ready || c.stop_wait

-- Whether the data flow stays in `writeMessage`: between a header and its body it does not come to the
-- wait.
unfoldable pub awaits_call : Client → Bool
awaits_call c = (c.section_id == 0) && not (may_send c)

unfoldable pub has_reply : Client → Bool
has_reply c = c.repl_is_ready || c.stop_wait

unfoldable pub stop_parser : Client → Client
stop_parser c = record c { stop_wait = true }

-- Whether two names are the same.
abbrev same_text : Text → Text → Bool
same_text [] [] = true
same_text (x ∷ xs) (y ∷ ys) = (x == y) && same_text xs ys
same_text _ _ = false

abbrev pub lookup : Text → List (Text × ℕ) → Option ℕ
lookup name [] = none
lookup name ((key, id) ∷ entries) = if same_text name key then some id else lookup name entries

-- `callSync` by name: the number of the procedure; `refused` is a name that is not in the map.
unfoldable pub find_procedure : Client → Text → Outcome Client ℕ
find_procedure c name = or_refused c (lookup name c.remote_procedures_map)

module _ (codec : Codec) (m : Bool) where
  -- The arguments replace those of an earlier call, on failure too.
  abbrev pub posted : Client → ℕ → Outcome (List ℕ) (List ℕ) → Outcome Client Client
  posted c id (ok bytes) =
      ok (record c { args = bytes; procedure_id = id; can_call = false; send_is_ready = true })
  posted c id (refused bytes) = refused (record c { args = bytes })
  posted c id thrown = thrown
  posted c id fault = fault

  unfoldable pub post : Client → ℕ → RemoteProcedure → List Variant → Outcome Client Client
  post c id proc arguments =
      if c.stop_wait
      then refused c
      else posted c id (to_binary codec.to_bytes m proc.args arguments c.args)

  -- The returns are decoded from whatever `rets` holds, a stop or not, into the caller's vector.
  abbrev pub replied :
      Client
      → RemoteProcedure
      → Outcome (List Variant) (List Variant)
      → Outcome (Client × List Variant) (Client × List Variant)
  replied c proc (ok returns) =
      if length returns == length proc.rets then ok (c, returns) else refused (c, returns)
  replied c proc (refused returns) = refused (c, returns)
  replied c proc thrown = thrown
  replied c proc fault = fault

  unfoldable pub take_reply :
      Client
      → RemoteProcedure
      → List Variant
      → Outcome (Client × List Variant) (Client × List Variant)
  take_reply c proc returns =
      replied (record c { repl_is_ready = false; can_call = true }) proc
        (from_binary codec.from_bytes m proc.rets c.rets returns)

  -- What follows the wait for `may_send`. The second test of `stopWait` repeats the first.
  unfoldable pub write_message : Client → List ℕ → Outcome Client (Client × List ℕ)
  write_message c message =
      if c.section_id == 0
      then (if c.stop_wait
          then refused c
          else (if ltb 16777216 (length c.args)
              then refused c
              else (or_fault (put_message m c.procedure_id c.args 0 message) >>= λ request.
                  ok (record c { send_is_ready = false }, request))))
      else ok (c, [])

  unfoldable pub parse_header : Client → ℕ → Outcome Client Client
  parse_header c v =
      let c' = record c { call_success_int = header_high v; section_len = header_size v } in
      if ltb 0 (header_size v)
      then ok (record c' { section_id = 1 })
      else ok (record c' { rets = []; repl_is_ready = true; section_id = 0; section_len = 4 })

  unfoldable pub parse_section : ℕ → Client → List ℕ → Outcome Client Client
  parse_section zero c message = or_fault (bytes_to_uint32 m message true) >>= parse_header c
  parse_section (suc zero) c message =
      ok (record c { rets = message; repl_is_ready = true; section_id = 0; section_len = 4 })
  parse_section (suc (suc n)) c message = refused c

  unfoldable pub parse_message : Client → List ℕ → Outcome Client Client
  parse_message c message = parse_section c.section_id c message

  -- A data flow that stays at the wait goes no further: `refused`.
  unfoldable pub client : Parser Client
  client = record {
    parse_message = parse_message;
    get_message_len = λ c. c.section_len;
    write_message = λ c message. if awaits_call c then refused c else write_message c message;
  }
