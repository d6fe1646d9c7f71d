-- ===== src/Subscriber/OverUdp.antt =====
-- rpcmple_cpp/include/rpcmple/dataSubscriber.h over rpcmple_cpp/include/connectionmanager/udpSocket.h: a
-- subscriber whose messages come in datagrams.
use rpcmple.Common.{ℕ, suc, ◌≡◌, refl, sym, ap, subst, ◌∙◌}
use rpcmple.Common.{Leaves, List, [], length, map, replicate, none, some, Bool, true, false}
use rpcmple.Variant.{Variant}
use rpcmple.Signature.{Codec, IsUtf8}
use rpcmple.Signature.Received.{received}
use rpcmple.Manager.{State, make}
use rpcmple.Manager.DataFlow.{closed, data_flow}
use rpcmple.Manager.Inbox.{Script, script, join, always}
use rpcmple.Manager.Simulation.{SameEnd}
use rpcmple.Manager.Replaced.{data_flow-SameEnd, SameEnd-closed}
use rpcmple.Connections.{Os}
use rpcmple.Connections.Udp.{Udp}
use rpcmple.Connections.Held.{Holds}
use rpcmple.Connections.UdpLink.{
  connection, IsReceiving, Listens, IsClosed, connection-IsSimulation,
}
use rpcmple.Subscriber.{Subscriber, subscriber, make_subscriber}
use rpcmple.Subscriber.Stream.{Encodings, data_flow-delivers}
use rpcmple.Publisher.Frames.{frames}

module _ (codec : Codec) (utf8 : IsUtf8 codec) (m : Bool) where
  writes_nothing :
      (h : Subscriber) (bytes : List ℕ)
      → Leaves (λ (x : Subscriber × List ℕ). x.1 ≡ []) ((subscriber codec m).write_message h bytes)
  unfolding subscriber
  writes_nothing h bytes = refl

  -- A subscriber over an open UDP socket, to which the messages of a publisher come in datagrams,
  -- cut in any way, receives all of them: `dataFlow` ends when no datagram is left, with the
  -- socket closed, and has called the callback once for each message, in their order, with the
  -- values that were sent. No datagram is empty or larger than the internal buffer, `recvfrom`
  -- fails when none is left, no byte of an earlier one is held, and nobody asks for a stop; the
  -- messages are those of `data_flow-delivers`.
  pub data_flow-receives :
      {W : Type 0} (os : Os W) (socket : ℕ) (coming : W → List (List ℕ)) (u : Udp) (w : W)
      (callback : Bool) (sig : List ℕ) (vss : List (List Variant)) (bss : List (List ℕ))
      → IsReceiving os socket coming
      → u.socket ≡ some socket
      → Holds u []
      → Encodings codec sig vss bss
      → join (coming w) ≡ frames bss
      → (t : State Subscriber (Udp × W)) × (callback' : Bool) × (data_flow
            (subscriber codec m)
            (connection os)
            callback
            (replicate (suc (length (coming w))) false)
            (make (make_subscriber sig true) (u, w) true)
          ≡ some (closed t callback'))
        × (t.conn.0.socket ≡ none)
        × (t.handler.delivered ≡ map (received codec sig) vss)
  unfolding make
  data_flow-receives {W} os socket coming u w callback sig vss bss law is_socket drained h e =
      let c : Script = record { inbox = coming w; outbox = [] } in
      let (t, callback', ends, delivers) =
        data_flow-delivers codec m always utf8 callback sig vss bss (coming w) h e in
      let listens : Listens socket coming (u, w) c = record {
        opened = is_socket;
        drained = drained;
        to_come = refl;
      } in
      let same =
        data_flow-SameEnd (subscriber codec m) (connection os) (script always)
          (Listens socket coming) IsClosed (λ bytes. bytes ≡ [])
          (connection-IsSimulation os socket coming law) writes_nothing callback
          (replicate (suc (length (coming w))) false) (make (make_subscriber sig true) (u, w) true)
          c listens in
      let (t', callback'', ends', (is_closed, alike)) =
        SameEnd-closed IsClosed _ t callback' (subst (SameEnd IsClosed _) ends same) in
      (
        t',
        callback'',
        ends',
        is_closed,
        sym (ap (λ (x : State Subscriber Script). x.handler.delivered) alike) ∙ delivers,
      )
