-- ===== src/Server/OverTcp.antt =====
-- rpcmple_cpp/include/rpcmple/rpcServer.h over rpcmple_cpp/include/connectionmanager/tcpSocketClient.h and
-- tcpSocketServer.h: a server whose requests come from a socket.
use rpcmple.Common.{Leaves-any}
use rpcmple.Common.{ℕ, suc, ◌≡◌, refl, sym, ap, subst, ◌∙◌}
use rpcmple.Common.{
  List, [], ◌++◌, append-nil, length, All, map, replicate, none, some, Bool, false,
}
use rpcmple.Signature.{Codec, IsUtf8}
use rpcmple.Manager.{State, Connection, make}
use rpcmple.Manager.DataFlow.{closed, data_flow}
use rpcmple.Manager.Inbox.{Script, script, join, always}
use rpcmple.Manager.Simulation.{SameEnd}
use rpcmple.Manager.Replaced.{data_flow-SameEnd, SameEnd-closed}
use rpcmple.Connections.{Os, Socket}
use rpcmple.Connections.Link.{IsConnected, IsOver, Stands, Ended, over-IsSimulation}
use rpcmple.Server.{Server, server}
use rpcmple.Server.Request.{IsServed, IsIdle, Request, requests, reply_to}
use rpcmple.Server.Answers.{data_flow-serves}

module _ (codec : Codec) (utf8 : IsUtf8 codec) (m : Bool) where
  -- A server on a connection over a connected socket answers every request: given, in portions of
  -- any sizes, a stream of requests one behind the other and then its end, `dataFlow` ends with
  -- the socket closed, and the system has been given, behind what it had been given before, the
  -- replies one behind the other in the order of the requests, however few bytes each call of
  -- `send` takes. The connection's methods make of the answers of `send` and `recv` what those of
  -- a `tcpSocketClient` and of a `tcpSocketServer` do; `send` takes one byte at least and never
  -- fails, `recv` gives what has come or 0 bytes at the end, and closing does not touch what was
  -- sent. The requests are those of `data_flow-serves`; the server waits for a header, does not
  -- send first, and nobody asks for a stop.
  pub data_flow-answers :
      {W X : Type 0} (os : Os W) (socket : ℕ) (stream : W → List ℕ) (coming : W → List (List ℕ))
      (k : Connection (X × W)) (socket_of : X → Socket) (x : X) (w : W) (s : Server)
      (callback : Bool) (rs : List Request)
      → IsConnected os socket stream coming
      → IsOver os socket stream k socket_of
      → socket_of x ≡ some socket
      → IsIdle s.local_procedures s
      → All (IsServed codec s.local_procedures) rs
      → join (coming w) ≡ requests rs
      → (t : State Server (X × W)) × (callback' : Bool) × (data_flow
            (server codec m)
            k
            callback
            (replicate (suc (length (coming w))) false)
            (make s (x, w) false)
          ≡ some (closed t callback'))
        × (socket_of t.conn.0 ≡ none)
        × (stream t.conn.1 ≡ stream w ++ join (map reply_to rs))
  unfolding make
  data_flow-answers {W} {X} os socket stream coming k socket_of x w s callback rs law methods
        is_socket idle h e =
      let c : Script = record { inbox = coming w; outbox = [] } in
      let S : X × W → Script → Type 0 = Ended stream socket_of (stream w) in
      let (t, callback', ends, outbox) =
        data_flow-serves codec m always utf8 (λ out. refl) callback s idle rs (coming w) h e in
      let stands : Stands socket stream coming socket_of (stream w) (x, w) c = record {
        connected = is_socket;
        to_come = refl;
        written = sym (append-nil (stream w));
      } in
      let same =
        data_flow-SameEnd (server codec m) k (script always)
          (Stands socket stream coming socket_of (stream w)) S (λ bytes. Unit {0})
          (over-IsSimulation os socket stream coming law k socket_of methods (stream w))
          (λ h bytes. Leaves-any _) callback (replicate (suc (length (coming w))) false)
          (make s (x, w) false) c stands in
      let (t', callback'', ends', (alike, same_handler)) =
        SameEnd-closed S _ t callback' (subst (SameEnd S _) ends same) in
      (
        t',
        callback'',
        ends',
        alike.disconnected,
        alike.written ∙ ap (λ l. stream w ++ join l) outbox,
      )
