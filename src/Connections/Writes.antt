-- ===== src/Connections/Writes.antt =====
-- rpcmple_cpp/include/connectionmanager: `write` in tcpSocketClient.h, tcpSocketServer.h and udpSocket.h.
use rpcmple.Common.{ℕ, ◌≡◌, ◌≢◌, ap, ◌∙◌, arith, List, length, some, Bool, false}
use rpcmple.Common.{◌==◌}
use native.Mathlib.Nat.{le_refl}
use rpcmple.Connections.{Os}
use rpcmple.Connections.Sending.{IsSend, IsWritten, send_all-IsWritten}
use rpcmple.Connections.TcpClient.{TcpClient}
use rpcmple.Connections.TcpClient
use rpcmple.Connections.TcpServer.{TcpServer}
use rpcmple.Connections.TcpServer
use rpcmple.Connections.Udp.{Udp}
use rpcmple.Connections.Udp

module _ {W : Type 0} (os : Os W) (stream : W → List ℕ) where
  -- The loop in `write` of a TCP client ends within one round for each byte, and the system has
  -- taken the bytes in their order, each once: all of them if it returns true, the first of them
  -- if it returns false. The system's `send` on the client's socket is as documented: it takes one
  -- byte at least, and not more than it is given, and none on an error.
  pub write-IsWritten :
      (c : TcpClient) (w : W) (bytes : List ℕ)
      → IsSend (os.send c.connect_socket) stream
      → (end : W × Bool) × (TcpClient.write os (c, w) bytes ≡ some ((c, end.0), end.1))
        × IsWritten stream bytes w end
  unfolding TcpClient.write
  write-IsWritten c w bytes law =
      let (end, runs, h) =
        send_all-IsWritten (os.send c.connect_socket) stream law (length bytes) bytes w
          (le_refl (length bytes)) in
      (end, ap (TcpClient.with_client os c) runs, h)

  -- The same of a server that has a client.
  pub write_to-IsWritten :
      (c : TcpServer) (w : W) (bytes : List ℕ) (s : ℕ)
      → c.client_socket ≡ some s
      → IsSend (os.send (some s)) stream
      → (end : W × Bool) × (TcpServer.write os (c, w) bytes ≡ some ((c, end.0), end.1))
        × IsWritten stream bytes w end
  unfolding TcpServer.write
  write_to-IsWritten c w bytes s is_s law =
      let (end, runs, h) =
        send_all-IsWritten (os.send (some s)) stream law (length bytes) bytes w
          (le_refl (length bytes)) in
      (end, ap (TcpServer.write_to os c w bytes) is_s ∙ ap (TcpServer.with_server os c) runs, h)

  -- `write` of a UDP socket that is open and knows an address to send to ends, and the system has
  -- taken the bytes in their order, each once: all of them if it returns true, the first of them
  -- if it returns false. The system's `sendto` on that socket and address is as documented: it
  -- takes one byte at least, and not more than it is given, and none on an error.
  pub write_datagram-IsWritten :
      (u : Udp) (w : W) (bytes : List ℕ) (s : ℕ)
      → u.socket ≡ some s
      → u.client_addr.sin_family ≢ 0
      → IsSend (os.send_to (some s) u.client_addr) stream
      → (end : W × Bool) × (Udp.write os (u, w) bytes ≡ some ((u, end.0), end.1))
        × IsWritten stream bytes w end
  unfolding Udp.write
  write_datagram-IsWritten u w bytes s is_s known law =
      let (end, runs, h) =
        send_all-IsWritten (os.send_to (some s) u.client_addr) stream law (length bytes) bytes w
          (le_refl (length bytes)) in
      let has_family : (u.client_addr.sin_family == 0) ≡ false = ground (arith, known) in
      (end, ap (Udp.write_to os u w bytes) is_s ∙ rw has_family (ap (Udp.with_udp os u) runs), h)
