-- ===== src/Connections/TcpClient.antt =====
-- rpcmple_cpp/include/connectionmanager/tcpSocketClient.h: the class `tcpSocketClient`. A method is a
-- function of the object and of the system; a Boolean is what it returns.
use rpcmple.Common.{ℕ, List, [], ◌∷◌, length, Option, none, some, Bool, true, false}
use rpcmple.Variant.{Text}
use rpcmple.Connections.{Socket, tcp, Address, af_inet, Os, send_all}

pub record TcpClient : Type 0 where
  pub connect_socket : Socket
  pub server_address : Text
  pub server_port : ℕ

unfoldable pub make_tcp_client : Text → ℕ → TcpClient
make_tcp_client address port = record {
  connect_socket = none;
  server_address = address;
  server_port = port;
}

module _ {W : Type 0} (os : Os W) where
  abbrev pub Result : Type 0
  Result = (TcpClient × W) × Bool

  -- What `create` does on an error behind the creation of the socket.
  abbrev pub give_up : TcpClient → W → Result
  give_up c w = ((c, os.cleanup (os.close_socket c.connect_socket w)), false)

  abbrev pub connected : TcpClient → W × Bool → Result
  connected c (w, false) = give_up c w
  connected c (w, true) = ((c, w), true)

  abbrev pub addressed : TcpClient → W → Option ℕ → Result
  addressed c w none = give_up c w
  addressed c w (some address) =
      let server : Address = record {
        sin_family = af_inet;
        sin_port = os.htons c.server_port;
        sin_addr = address;
      } in
      connected c (os.connect c.connect_socket server w)

  abbrev pub opened : TcpClient → W × Socket → Result
  opened c (w, none) = ((record c { connect_socket = none }, os.cleanup w), false)
  opened c (w, some s) =
      addressed (record c { connect_socket = some s }) w (os.inet_pton c.server_address)

  abbrev pub started : TcpClient → W × Bool → Result
  started c (w, false) = ((c, w), false)
  started c (w, true) = opened c (os.socket tcp w)

  unfoldable pub create : TcpClient × W → Result
  create (c, w) = started c (os.startup w)

  -- The loop has fuel for as many rounds as there are bytes.
  abbrev pub with_client : TcpClient → Option (W × Bool) → Option Result
  with_client c none = none
  with_client c (some (w, done)) = some ((c, w), done)

  unfoldable pub write : TcpClient × W → List ℕ → Option Result
  write (c, w) bytes = with_client c (send_all (os.send c.connect_socket) (length bytes) bytes w)

  -- `SOCKET_ERROR` and 0 bytes make `read` fail.
  abbrev pub received : TcpClient → W × Option (List ℕ) → (TcpClient × W) × Option (List ℕ)
  received c (w, none) = ((c, w), none)
  received c (w, some []) = ((c, w), none)
  received c (w, some (b ∷ bytes)) = ((c, w), some (b ∷ bytes))

  unfoldable pub read : TcpClient × W → ℕ → (TcpClient × W) × Option (List ℕ)
  read (c, w) n = received c (os.receive c.connect_socket n w)

  abbrev pub closed : TcpClient → W → Socket → TcpClient × W
  closed c w none = (c, w)
  closed c w (some s) =
      (record c { connect_socket = none }, os.cleanup (os.close_socket (some s) w))

  -- It returns true.
  unfoldable pub close : TcpClient × W → TcpClient × W
  close (c, w) = closed c w c.connect_socket
