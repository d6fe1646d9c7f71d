-- ===== src/Examples/First.antt =====
-- rpcmple_cpp/src_examples/example1.cpp: a process whose server takes its requests from a TCP client.
use rpcmple.Common.{ℕ, suc, ◌+◌, ◌<◌, ◌≡◌, refl, ap, ◌∙◌}
use rpcmple.Common.{
  List, [], ◌∷◌, ◌++◌, length, All, map, replicate, get_elem?, Option, none, some, Bool, true,
  false,
}
use rpcmple.Bits.{IsBytes}
use rpcmple.Variant.{Text}
use rpcmple.Signature.{Codec, IsUtf8}
use rpcmple.Signature.Wire.{IsWord}
use rpcmple.Manager.{make}
use rpcmple.Manager.DataFlow.{Ended, closed, crashed, undefined, data_flow}
use rpcmple.Manager.Inbox.{join}
use rpcmple.Connections.{Os}
use rpcmple.Connections.TcpClient.{TcpClient, make_tcp_client}
use rpcmple.Connections.TcpClient
use rpcmple.Connections.Link.{IsConnected}
use rpcmple.Connections.ClientLink.{connection, connection-IsOver, socket_of}
use rpcmple.Server.{Procedure, Server, make_server, append_signature, server}
use rpcmple.Server.Request.{Request, IsServed, IsIdle, requests, reply_to}
use rpcmple.Server.OverTcp.{data_flow-answers}
use rpcmple.Examples.{greet_name, sum_name, greet, sum, local, example_server}
use rpcmple.Examples.Served.{greet_call, sum_call, greet-IsServed, sum-IsServed}

-- Both classes of the example override `called` with what the fourth example passes as functions.
unfoldable pub first_server : Server
first_server =
    let s₁ = append_signature make_server (local greet_name (b's' ∷ []) (b's' ∷ []) greet) in
    append_signature s₁ (local sum_name (b'I' ∷ []) (b'i' ∷ []) sum)

-- "127.0.0.1".
abbrev pub localhost : Text
localhost = b'1' ∷ b'2' ∷ b'7' ∷ b'.' ∷ b'0' ∷ b'.' ∷ b'0' ∷ b'.' ∷ b'1' ∷ []

-- How `main` ends: with `return -1`, at its end, by an exception or by undefined behaviour; or it still
-- runs.
pub data Exit (W : Type 0) : Type 0 where
  failed finished : W → Exit W
  aborted broken running : Exit W

module _ {W : Type 0} (codec : Codec) (m : Bool) (os : Os W) where
  -- `delete mServer; delete mConn;`, where the destructor of the connection closes it.
  abbrev pub ended : Option (Ended Server (TcpClient × W)) → Exit W
  ended none = Exit.running
  ended (some crashed) = Exit.aborted
  ended (some undefined) = Exit.broken
  ended (some (closed s callback)) = Exit.finished (TcpClient.close os s.conn).1

  abbrev pub flowed : List Bool → TcpClient.Result os → Exit W
  flowed schedule ((c, w), false) = Exit.failed w
  flowed schedule ((c, w), true) =
      ended
        (data_flow (server codec m) (connection os) false schedule (make first_server (c, w) false))

  -- The schedule are the requests to stop that come between the rounds of the data flow.
  unfoldable pub main : List Bool → W → Exit W
  main schedule w = flowed schedule (TcpClient.create os (make_tcp_client localhost 8080, w))

-- What a peer asks of the process.
pub data Ask : Type 0 where
  greets : Text → Ask
  sums : List ℕ → Ask

abbrev pub request_of : Ask → Request
request_of (greets words) = greet_call words
request_of (sums numbers) = sum_call numbers

-- Strings of bytes whose greeting has no more than 65535, and up to 65535 words of 64 bits.
abbrev pub IsAsk : Ask → Type 0
IsAsk (greets words) = IsBytes words × (length words + 37 < 65536)
IsAsk (sums numbers) = All IsWord numbers × (length numbers < 65536)

-- A request is served alike where its number names the same procedure.
IsServed-elsewhere :
    {codec : Codec} {procs procs' : List Procedure} {r : Request}
    → get_elem? procs' r.id ≡ get_elem? procs r.id
    → IsServed codec procs r
    → IsServed codec procs' r
IsServed-elsewhere same h = record {
  proc = h.proc;
  heard_by = record {
    numbered = h.heard_by.numbered;
    found = same ∙ h.heard_by.found;
    counted = h.heard_by.counted;
    typed = h.heard_by.typed;
    unbroken = h.heard_by.unbroken;
    encoded = h.heard_by.encoded;
    sized = h.heard_by.sized;
  };
  runs = h.runs;
  counted = h.counted;
  typed = h.typed;
  fits = h.fits;
  encoded = h.encoded;
  sized = h.sized;
}

module _ (codec : Codec) where
  request_of-IsServed :
      (a : Ask) → IsAsk a → IsServed codec first_server.local_procedures (request_of a)
  unfolding first_server example_server append_signature make_server
  request_of-IsServed (greets words) (bytes, short) =
      IsServed-elsewhere refl (greet-IsServed codec words bytes short)
  request_of-IsServed (sums numbers) (words, short) =
      IsServed-elsewhere refl (sum-IsServed codec numbers words short)

  map-IsServed :
      (asks : List Ask)
      → All IsAsk asks
      → All (IsServed codec first_server.local_procedures) (map request_of asks)
  map-IsServed [] h = tt
  map-IsServed (a ∷ asks) h = (request_of-IsServed a h.0, map-IsServed asks h.1)

first_server-IsIdle : IsIdle first_server.local_procedures first_server
unfolding first_server append_signature make_server
first_server-IsIdle = record { serves = refl; at_header = refl; wants = refl }

-- The first example, once its client is connected, answers each greeting and each sum that its
-- peer asks for, in their order, and comes to the end of `main`: the system has been given, behind
-- what it had been given before, the replies to the calls of 'Greet' and 'Sum', each a header of
-- success with the greeting of the given string or the sum of the given numbers modulo 2^64. The
-- strings are of bytes and no longer than 65498, the arrays of 64-bit words and no longer than
-- 65535; the socket is as in `data_flow-answers`, the requests are cut in any way, and nobody asks
-- for a stop.
pub main-answers :
    {W : Type 0} (codec : Codec)
    → IsUtf8 codec
    → (m : Bool) (os : Os W) (socket : ℕ) (stream : W → List ℕ) (coming : W → List (List ℕ))
      (c : TcpClient) (w w' : W) (asks : List Ask)
    → TcpClient.create os (make_tcp_client localhost 8080, w) ≡ ((c, w'), true)
    → c.connect_socket ≡ some socket
    → IsConnected os socket stream coming
    → All IsAsk asks
    → join (coming w') ≡ requests (map request_of asks)
    → (w'' : W) × (main codec m os (replicate (suc (length (coming w'))) false) w
        ≡ Exit.finished w'')
      × (stream w'' ≡ stream w' ++ join (map reply_to (map request_of asks)))
unfolding main TcpClient.close
main-answers codec utf8 m os socket stream coming c w w' asks connects is_socket law h e =
    let schedule = replicate (suc (length (coming w'))) false in
    let (t, callback, ends, gone, all) =
      data_flow-answers codec utf8 m os socket stream coming (connection os) socket_of c w'
        first_server false (map request_of asks) law (connection-IsOver os socket stream coming law)
        is_socket first_server-IsIdle (map-IsServed codec asks h) e in
    (
      t.conn.1,
      ap (flowed codec m os schedule) connects
          ∙ ap (ended codec m os) ends
          ∙ ap (λ socket. Exit.finished (TcpClient.closed os t.conn.0 t.conn.1 socket).1) gone,
      all,
    )
