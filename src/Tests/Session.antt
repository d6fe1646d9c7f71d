-- ===== src/Tests/Session.antt =====
-- The examples: the session on its own values, "Hello world", 1 to 5, and 12345, and a process
-- that is asked for a greeting and a sum.
use rpcmple.Common.{ℕ, ◌≡◌, refl, arith, List, [], ◌∷◌, ◌++◌, some, true, false, map, replicate}
use rpcmple.Variant.{Variant, Text}
use rpcmple.Header.{header_val}
use rpcmple.Manager.Inbox.{join}
use rpcmple.Connections.TcpClient.{TcpClient, make_tcp_client}
use rpcmple.Connections.TcpClient
use rpcmple.Server.Request.{reply_to}
use rpcmple.Examples.First.{Ask, greets, sums, request_of, Exit, localhost, main, main-answers}
use rpcmple.Tests.Sockets.{Wire, wire, full, wire-IsConnected}
use rpcmple.Tests.Codecs.{ascii, ascii-IsUtf8}

abbrev hello_world : Text
hello_world = b'H' ∷ b'e' ∷ b'l' ∷ b'l' ∷ b'o' ∷ b' ' ∷ b'w' ∷ b'o' ∷ b'r' ∷ b'l' ∷ b'd' ∷ []

abbrev one_to_five : List ℕ
one_to_five = 1 ∷ 2 ∷ 3 ∷ 4 ∷ 5 ∷ []

-- "hi".
abbrev hi : Text
hi = b'h' ∷ b'i' ∷ []

abbrev asks : List Ask
asks = greets hi ∷ sums (1 ∷ 2 ∷ []) ∷ []

-- The two requests in two portions, the second of which starts within the second header.
abbrev comes : List (List ℕ)
comes =
    (4 ∷ 0 ∷ 0 ∷ 0 ∷ 2 ∷ 0 ∷ 104 ∷ 105 ∷ 18 ∷ 0 ∷ [])
    ∷ (0 ∷ 1 ∷ 2 ∷ 0 ∷ 1 ∷ 0 ∷ 0 ∷ 0 ∷ 0 ∷ 0 ∷ 0 ∷ 0 ∷ 2 ∷ 0 ∷ 0 ∷ 0 ∷ 0 ∷ 0 ∷ 0 ∷ 0 ∷ [])
    ∷ []

abbrev connected_client : TcpClient
connected_client = record {
  connect_socket = some 6;
  server_address = localhost;
  server_port = 8080;
}

connects :
    TcpClient.create wire (make_tcp_client localhost 8080, ([], comes))
    ≡ ((connected_client, ([], comes)), true)
unfolding TcpClient.create make_tcp_client
connects = refl

main-answers_example :
    (w'' : Wire) × (main ascii true wire (replicate 3 false) ([], comes) ≡ Exit.finished w'')
    × (w''.0 ≡ [] ++ join (map reply_to (map request_of asks)))
unfolding header_val
main-answers_example =
    main-answers ascii ascii-IsUtf8 true wire 6 (λ w. w.0) (λ w. full w.1) connected_client
      ([], comes) ([], comes) asks connects refl wire-IsConnected
      ((omega arith, omega arith), ((omega arith, omega arith), tt)) refl
