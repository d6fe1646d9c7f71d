-- ===== src/Client/Limit.antt =====
-- rpcmple_cpp/include/rpcmple/rpcClient.h and rpcmple_cpp/include/rpcmple/rpcServer.h: what both make of a
-- message of the largest size that the other sends.
use rpcmple.Common.{ℕ, ◌+◌, ◌<◌, ◌≡◌, ap, ◌∙◌, arith}
use rpcmple.Common.{List, [], ◌++◌, length, take}
use rpcmple.Common.{ok, ◌>>=◌, Bool, true, false, if◌then◌else◌}
use rpcmple.Endian.{le_bytes}
use rpcmple.Header.{header_val}
use rpcmple.Signature.{Codec, IsUtf8}
use rpcmple.Server.{Server, call}
use rpcmple.Server
use rpcmple.Server.Serve.{header, heard_whole}
use rpcmple.Server.Serve
use rpcmple.Client.{Client}
use rpcmple.Client
use rpcmple.Client.Call.{requests, hears_whole}

-- The header of a message of 16777216 bytes is that of an empty message under the next high part.
header_limit : (high n : ℕ) → n ≡ 16777216 → high < 255 → header high n ≡ header (high + 1) 0
unfolding header_val
header_limit high n full small = ap (le_bytes 4) (omega arith)

-- Arguments and returns of exactly 16777216 bytes are sent, and lost: `writeMessage` of the client
-- succeeds, and the server, given the first four bytes of the request, calls the procedure of the
-- next number without a body, and is then at the start of a message; `writeMessage` of the server
-- succeeds, and the client, given the first four bytes of the reply, takes it for a whole reply
-- without returns, whose success is one more than the server's. Client and server are idle, on
-- machines of either byte order, the client is not asked to stop, and the number of its procedure
-- is less than 255.
pub write_message-limit :
    (codec : Codec)
    → IsUtf8 codec
    → (m m' : Bool) (c : Client) (s : Server) (buffer : List ℕ) → c.section_id ≡ 0
    → c.stop_wait ≡ false
    → s.section_id ≡ 0
    → c.procedure_id < 255
    → length c.args ≡ 16777216
    → length s.call_returns_serialized ≡ 16777216
    → let success : ℕ = if s.call_success then 1 else 0 in
      let request : List ℕ = header c.procedure_id (length c.args) ++ c.args in
      let reply : List ℕ =
        header success (length s.call_returns_serialized) ++ s.call_returns_serialized in
      (Client.write_message codec m c buffer ≡ ok (record c { send_is_ready = false }, request))
      × (Server.parse_message codec m' s (take 4 request) ≡ (
          call codec m' (record s { procedure_id = c.procedure_id + 1; section_len = 0 }) []
          >>= λ t. ok (record t { section_id = 0; section_len = 4 })))
      × (Server.write_message codec m' s buffer ≡ ok (s, reply))
      × (Client.parse_message codec m c (take 4 reply)
          ≡ ok (record c {
            call_success_int = success + 1;
            rets = [];
            repl_is_ready = true;
            section_id = 0;
            section_len = 4;
          }))
write_message-limit codec utf8 m m' c s buffer idle running idle' small full full' =
    let success : ℕ = if s.call_success then 1 else 0 in
    let bit : success < 255 = ground arith in
    (
      requests codec utf8 m c buffer idle running (omega arith),
      ap (Server.parse_message codec m' s) (header_limit c.procedure_id (length c.args) full small)
          ∙ heard_whole codec utf8 m' s (c.procedure_id + 1) idle' (omega arith),
      Serve.replied codec utf8 m' s buffer idle' (omega arith),
      ap (Client.parse_message codec m c)
            (header_limit success (length s.call_returns_serialized) full' bit)
          ∙ hears_whole codec utf8 m c (success + 1) idle (omega arith),
    )
