-- ===== src/Tests/Limits.antt =====
-- The largest request and the largest reply.
use rpcmple.Common.{ℕ, ◌≡◌, refl, arith, List, [], ◌++◌, length, take, replicate, length-replicate}
use rpcmple.Common.{ok, ◌>>=◌, true, false}
use rpcmple.Server.{Server, call}
use rpcmple.Server
use rpcmple.Server.Serve.{header}
use rpcmple.Client.{Client}
use rpcmple.Client
use rpcmple.Client.Limit.{write_message-limit}
use rpcmple.Tests.Codecs.{ascii, ascii-IsUtf8}
use rpcmple.Tests.Calls.{doubling_client, doubling_server}

abbrev zeroes : List ℕ
zeroes = replicate 16777216 0

abbrev asking : Client
asking = record doubling_client { args = zeroes; send_is_ready = true }

abbrev answering : Server
answering = record doubling_server { call_returns_serialized = zeroes; call_success = true }

write_message-limit_example :
    (Client.write_message ascii true asking []
      ≡ ok (record asking { send_is_ready = false }, header 0 (length zeroes) ++ zeroes))
    × (Server.parse_message ascii false answering (take 4 (header 0 (length zeroes) ++ zeroes)) ≡ (
        call ascii false (record answering { procedure_id = 1; section_len = 0 }) [] >>= λ t.
        ok (record t { section_id = 0; section_len = 4 })))
    × (Server.write_message ascii false answering []
        ≡ ok (answering, header 1 (length zeroes) ++ zeroes))
    × (Client.parse_message ascii true asking (take 4 (header 1 (length zeroes) ++ zeroes))
        ≡ ok (record asking {
          call_success_int = 2;
          rets = [];
          repl_is_ready = true;
          section_id = 0;
          section_len = 4;
        }))
write_message-limit_example =
    write_message-limit ascii ascii-IsUtf8 true false asking answering [] refl refl refl
      (omega arith) (length-replicate {A = ℕ} 16777216 0) (length-replicate {A = ℕ} 16777216 0)
