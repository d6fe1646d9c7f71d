-- ===== src/Connections.antt =====
-- rpcmple_cpp/include/connectionmanager: the connections, over the operating system that they call.
-- Here: what they ask of the system, and the loop in which three of them write.
pub mod Sending
pub mod TcpClient
pub mod TcpServer
pub mod Audit
pub mod Balance
pub mod Udp
pub mod Writes
pub mod Datagrams
pub mod Held
pub mod NamedPipe
pub mod StdInOut
pub mod Link
pub mod ClientLink
pub mod ServerLink
pub mod UdpLink
use rpcmple.Common.{ℕ, zero, suc, List, [], ◌∷◌, drop, Option, none, some, Bool, true, false}
use rpcmple.Variant.{Text}

-- A `SOCKET` or a `HANDLE`; `none` is `INVALID_SOCKET`.
abbrev pub Socket : Type 0
Socket = Option ℕ

-- `SOCK_STREAM` with `IPPROTO_TCP`, or `SOCK_DGRAM` with `IPPROTO_UDP`.
pub data Protocol : Type 0 where
  tcp udp : Protocol

-- `sockaddr_in`.
pub record Address : Type 0 where
  pub sin_family : ℕ
  pub sin_port : ℕ
  pub sin_addr : ℕ

-- `AF_INET`, `INADDR_ANY` and `INADDR_BROADCAST`.
abbrev pub af_inet : ℕ
af_inet = 2

abbrev pub inaddr_any : ℕ
inaddr_any = 0

abbrev pub inaddr_broadcast : ℕ
inaddr_broadcast = 4294967295

-- The calls of WinSock over the state W of the system. A Boolean is whether a call succeeded, and
-- `none` is `SOCKET_ERROR`, or a text that `inet_pton` does not take. What is received are the
-- bytes that the call stores in the caller's buffer, whose size it is given.
pub record Os (W : Type 0) : Type 0 where
  pub startup : W → W × Bool
  pub cleanup : W → W
  pub socket : Protocol → W → W × Socket
  pub close_socket : Socket → W → W
  pub htons : ℕ → ℕ
  pub inet_pton : Text → Option ℕ
  pub connect : Socket → Address → W → W × Bool
  pub bind : Socket → Address → W → W × Bool
  pub listen : Socket → W → W × Bool
  pub accept : Socket → W → W × Socket
  pub send : Socket → List ℕ → W → W × Option ℕ
  pub send_to : Socket → Address → List ℕ → W → W × Option ℕ
  pub receive : Socket → ℕ → W → W × Option (List ℕ)
  pub receive_from : Socket → ℕ → W → W × Option (List ℕ × Address)

module _ {W : Type 0} (send : List ℕ → W → W × Option ℕ) where
  -- What a call of `send` leaves to do: nothing after `SOCKET_ERROR`, and else the bytes behind
  -- those that were sent.
  abbrev pub sent_some :
      List ℕ → W × Option ℕ → (List ℕ → W → Option (W × Bool)) → Option (W × Bool)
  sent_some bytes (w, none) next = some (w, false)
  sent_some bytes (w, some n) next = next (drop n bytes) w

  -- `while (totalBytesSent < bytes.size())`, on the bytes that are not sent yet, with fuel: `none`
  -- is a loop that still runs.
  unfoldable pub send_all : ℕ → List ℕ → W → Option (W × Bool)
  send_all fuel [] w = some (w, true)
  send_all zero (b ∷ bytes) w = none
  send_all (suc fuel) (b ∷ bytes) w = sent_some (b ∷ bytes) (send (b ∷ bytes) w) (send_all fuel)
