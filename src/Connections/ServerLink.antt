-- ===== src/Connections/ServerLink.antt =====
-- rpcmple_cpp/include/connectionmanager/tcpSocketServer.h under rpcmple_cpp/include/rpcmple/messageManager.h.
use rpcmple.Common.{ℕ, ◌<◌, ◌≡◌, refl, sym, ap, subst, ◌∙◌, arith}
use rpcmple.Common.{List, [], ◌∷◌, length, Option, none, some, Bool, false}
use rpcmple.Manager.{Connection, max_message}
use rpcmple.Manager.Inbox.{script, always}
use rpcmple.Manager.Simulation.{IsSimulation}
use rpcmple.Connections.{Os, Socket}
use rpcmple.Connections.Link.{IsConnected, IsOver, Stands, Ended, over-IsSimulation}
use rpcmple.Connections.TcpServer.{TcpServer}
use rpcmple.Connections.TcpServer

abbrev pub socket_of : TcpServer → Socket
socket_of c = c.client_socket

module _ {W : Type 0} (os : Os W) where
  -- A write that does not end, which `send` excludes when it takes at least one byte, is counted as
  -- one that fails.
  abbrev returned : TcpServer × W → Option ((TcpServer × W) × Bool) → (TcpServer × W) × Bool
  returned x none = (x, false)
  returned x (some r) = r

  abbrev pub connection : Connection (TcpServer × W)
  connection = record {
    write = λ x bytes. returned x (TcpServer.write os x bytes);
    read = TcpServer.read os;
    close = TcpServer.close os;
  }

  received_end :
      (x : TcpServer) (r : W × Option (List ℕ))
      → r.1 ≡ some []
      → TcpServer.received os x r ≡ ((x, r.0), none)
  received_end x (w, y) e = ap (λ (y : Option (List ℕ)). TcpServer.received os x (w, y)) e

  received_chunk :
      (x : TcpServer) (r : W × Option (List ℕ)) (chunk : List ℕ)
      → 0 < length chunk
      → r.1 ≡ some chunk
      → TcpServer.received os x r ≡ ((x, r.0), some chunk)
  received_chunk x r [] some_ e = absurd (omega arith)
  received_chunk x (w, y) (b ∷ chunk) some_ e =
      ap (λ (y : Option (List ℕ)). TcpServer.received os x (w, y)) e

  pub connection-IsOver :
      (s : ℕ) (stream : W → List ℕ) (coming : W → List (List ℕ))
      → IsConnected os s stream coming
      → IsOver os s stream connection socket_of
  unfolding TcpServer.write TcpServer.read TcpServer.close
  connection-IsOver s stream coming law = record {
    writes = λ x w w' bytes holds runs.
        ap (λ (socket : Socket). returned (x, w) (TcpServer.write_to os x w bytes socket)) holds
        ∙ ap (λ o. returned (x, w) (TcpServer.with_server os x o)) runs;
    reads_end = λ x w holds gives.
        ap (λ (socket : Socket). TcpServer.read_from os x w max_message socket) holds
        ∙ received_end x (os.receive (some s) max_message w) gives;
    reads_chunk = λ x w chunk holds some_ gives.
        ap (λ (socket : Socket). TcpServer.read_from os x w max_message socket) holds
        ∙ received_chunk x (os.receive (some s) max_message w) chunk some_ gives;
    closes = λ x w holds.
        subst
          (λ (socket : Socket).
            (socket_of (TcpServer.closed os x w socket).0 ≡ none)
            × (stream (TcpServer.closed os x w socket).1 ≡ stream w))
          (sym holds) (refl, law.stays w);
  }

  -- A server that has accepted a client, as a connection.
  pub connection-IsSimulation :
      (s : ℕ) (stream : W → List ℕ) (coming : W → List (List ℕ)) (before : List ℕ)
      → IsConnected os s stream coming
      → IsSimulation connection
          (script always)
          (Stands s stream coming socket_of before)
          (Ended stream socket_of before)
          (λ bytes. Unit {0})
  connection-IsSimulation s stream coming before law =
      over-IsSimulation os s stream coming law connection socket_of
        (connection-IsOver s stream coming law) before
