-- ===== src/Connections/ClientLink.antt =====
-- rpcmple_cpp/include/connectionmanager/tcpSocketClient.h under rpcmple_cpp/include/rpcmple/messageManager.h.
use rpcmple.Common.{ℕ, ◌<◌, ◌≡◌, refl, sym, ap, subst, ◌∙◌, arith}
use rpcmple.Common.{List, [], ◌∷◌, length, Option, none, some, Bool, false}
use rpcmple.Manager.{Connection, max_message}
use rpcmple.Manager.Inbox.{script, always}
use rpcmple.Manager.Simulation.{IsSimulation}
use rpcmple.Connections.{Os, Socket, send_all}
use rpcmple.Connections.Link.{IsConnected, IsOver, Stands, Ended, over-IsSimulation}
use rpcmple.Connections.TcpClient.{TcpClient}
use rpcmple.Connections.TcpClient

abbrev pub socket_of : TcpClient → Socket
socket_of c = c.connect_socket

module _ {W : Type 0} (os : Os W) where
  -- A write that does not end, which `send` excludes when it takes at least one byte, is counted as
  -- one that fails.
  abbrev returned : TcpClient × W → Option ((TcpClient × W) × Bool) → (TcpClient × W) × Bool
  returned x none = (x, false)
  returned x (some r) = r

  abbrev pub connection : Connection (TcpClient × W)
  connection = record {
    write = λ x bytes. returned x (TcpClient.write os x bytes);
    read = TcpClient.read os;
    close = TcpClient.close os;
  }

  received_end :
      (x : TcpClient) (r : W × Option (List ℕ))
      → r.1 ≡ some []
      → TcpClient.received os x r ≡ ((x, r.0), none)
  received_end x (w, y) e = ap (λ (y : Option (List ℕ)). TcpClient.received os x (w, y)) e

  received_chunk :
      (x : TcpClient) (r : W × Option (List ℕ)) (chunk : List ℕ)
      → 0 < length chunk
      → r.1 ≡ some chunk
      → TcpClient.received os x r ≡ ((x, r.0), some chunk)
  received_chunk x r [] some_ e = absurd (omega arith)
  received_chunk x (w, y) (b ∷ chunk) some_ e =
      ap (λ (y : Option (List ℕ)). TcpClient.received os x (w, y)) e

  pub connection-IsOver :
      (s : ℕ) (stream : W → List ℕ) (coming : W → List (List ℕ))
      → IsConnected os s stream coming
      → IsOver os s stream connection socket_of
  unfolding TcpClient.write TcpClient.read TcpClient.close
  connection-IsOver s stream coming law = record {
    writes = λ x w w' bytes holds runs.
        ap
          (λ (socket : Socket).
            returned (x, w)
              (TcpClient.with_client os x (send_all (os.send socket) (length bytes) bytes w)))
          holds
        ∙ ap (λ o. returned (x, w) (TcpClient.with_client os x o)) runs;
    reads_end = λ x w holds gives.
        ap (λ (socket : Socket). TcpClient.received os x (os.receive socket max_message w)) holds
        ∙ received_end x (os.receive (some s) max_message w) gives;
    reads_chunk = λ x w chunk holds some_ gives.
        ap (λ (socket : Socket). TcpClient.received os x (os.receive socket max_message w)) holds
        ∙ received_chunk x (os.receive (some s) max_message w) chunk some_ gives;
    closes = λ x w holds.
        subst
          (λ (socket : Socket).
            (socket_of (TcpClient.closed os x w socket).0 ≡ none)
            × (stream (TcpClient.closed os x w socket).1 ≡ stream w))
          (sym holds) (refl, law.cleans (os.close_socket (some s) w) ∙ law.stays w);
  }

  -- A connected TCP client refines a connection whose reads are given beforehand: its `read`
  -- gives, one for one, the portions that the system's `recv` gives and then fails, its `write`
  -- succeeds and puts the bytes behind all that was sent before, however few bytes each `send`
  -- takes, reading changes nothing that was sent and writing nothing that is to come, and `close`
  -- gives the socket up and keeps what was sent. `send` takes one byte at least and never fails;
  -- `recv` gives what has come, or 0 bytes at the end; closing does not touch what was sent.
  pub connection-IsSimulation :
      (s : ℕ) (stream : W → List ℕ) (coming : W → List (List ℕ)) (before : List ℕ)
      → IsConnected os s stream coming
      → IsSimulation connection
          (script always)
          (Stands s stream coming socket_of before)
          (Ended stream socket_of before)
          (λ bytes. Unit {0})
  connection-IsSimulation s stream coming before law =
      over-IsSimulation os s stream coming law connection socket_of
        (connection-IsOver s stream coming law) before
