-- ===== src/Connections/TcpServer.antt =====
-- rpcmple_cpp/include/connectionmanager/tcpSocketServer.h: `startTCPServer`, `stopTCPServer` and the class
-- `tcpSocketServer`.
use rpcmple.Common.{ℕ, List, [], ◌∷◌, length, Option, none, some, Bool, true, false}
use rpcmple.Connections.{Socket, tcp, Address, af_inet, inaddr_any, Os, send_all}

module _ {W : Type 0} (os : Os W) where
  abbrev any_address : ℕ → Address
  any_address port = record {
    sin_family = af_inet;
    sin_port = os.htons port;
    sin_addr = inaddr_any;
  }

  -- The handle of a socket that was closed again is returned all the same.
  abbrev pub listening : Socket → W × Bool → W × Socket
  listening s (w, false) = (os.cleanup (os.close_socket s w), s)
  listening s (w, true) = (w, s)

  abbrev pub bound : Socket → W × Bool → W × Socket
  bound s (w, false) = (os.cleanup (os.close_socket s w), s)
  bound s (w, true) = listening s (os.listen s w)

  abbrev pub opened : ℕ → W × Socket → W × Socket
  opened port (w, none) = (os.cleanup w, none)
  opened port (w, some s) = bound (some s) (os.bind (some s) (any_address port) w)

  abbrev pub started : ℕ → W × Bool → W × Socket
  started port (w, false) = (w, none)
  started port (w, true) = opened port (os.socket tcp w)

  unfoldable pub start_tcp_server : ℕ → W → W × Socket
  start_tcp_server port w = started port (os.startup w)

  unfoldable pub stop_tcp_server : Socket → W → W
  stop_tcp_server none w = w
  stop_tcp_server (some s) w = os.cleanup (os.close_socket (some s) w)

pub record TcpServer : Type 0 where
  pub listen_socket : Socket
  pub client_socket : Socket
  pub ready_to_accept : Bool

unfoldable pub make_tcp_server : Socket → TcpServer
make_tcp_server socket = record {
  listen_socket = socket;
  client_socket = none;
  ready_to_accept = false;
}

module _ {W : Type 0} (os : Os W) where
  abbrev pub Result : Type 0
  Result = (TcpServer × W) × Bool

  abbrev pub accepted : TcpServer → W × Socket → Result
  accepted c (w, none) = ((record c { client_socket = none }, w), false)
  accepted c (w, some s) = ((record c { client_socket = some s }, w), true)

  unfoldable pub create : TcpServer × W → Result
  create (c, w) = accepted c (os.accept c.listen_socket w)

  abbrev pub with_server : TcpServer → Option (W × Bool) → Option Result
  with_server c none = none
  with_server c (some (w, done)) = some ((c, w), done)

  -- Without a client nothing is sent and nothing is read.
  abbrev pub write_to : TcpServer → W → List ℕ → Socket → Option Result
  write_to c w bytes none = some ((c, w), false)
  write_to c w bytes (some s) = with_server c (send_all (os.send (some s)) (length bytes) bytes w)

  unfoldable pub write : TcpServer × W → List ℕ → Option Result
  write (c, w) bytes = write_to c w bytes c.client_socket

  abbrev pub received : TcpServer → W × Option (List ℕ) → (TcpServer × W) × Option (List ℕ)
  received c (w, none) = ((c, w), none)
  received c (w, some []) = ((c, w), none)
  received c (w, some (b ∷ bytes)) = ((c, w), some (b ∷ bytes))

  abbrev pub read_from : TcpServer → W → ℕ → Socket → (TcpServer × W) × Option (List ℕ)
  read_from c w n none = ((c, w), none)
  read_from c w n (some s) = received c (os.receive (some s) n w)

  unfoldable pub read : TcpServer × W → ℕ → (TcpServer × W) × Option (List ℕ)
  read (c, w) n = read_from c w n c.client_socket

  abbrev pub closed : TcpServer → W → Socket → TcpServer × W
  closed c w none = (c, w)
  closed c w (some s) = (record c { client_socket = none }, os.close_socket (some s) w)

  unfoldable pub close : TcpServer × W → TcpServer × W
  close (c, w) = closed c w c.client_socket
