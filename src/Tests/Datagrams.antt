-- ===== src/Tests/Datagrams.antt =====
-- A subscriber that is sent two messages, each in a datagram of its own.
use rpcmple.Common.{ℕ, zero, suc, ◌≤◌, ◌<◌, ◌≡◌, refl, ap, arith, length, replicate, map}
use rpcmple.Common.{List, [], ◌∷◌, Option, none, some, Bool, true, false}
use rpcmple.Header.{header_val}
use rpcmple.Signature.Received.{received}
use rpcmple.Manager.{State, make}
use rpcmple.Manager.DataFlow.{closed, data_flow}
use rpcmple.Connections.{Os, Address}
use rpcmple.Connections.Udp.{Udp, buffer_size}
use rpcmple.Connections.UdpLink.{connection, IsReceiving}
use rpcmple.Subscriber.{Subscriber, subscriber, make_subscriber}
use rpcmple.Subscriber.OverUdp.{data_flow-receives}
use rpcmple.Tests.Codecs.{ascii, ascii-IsUtf8}
use rpcmple.Tests.Calls.{
  call_args, seven, seven_bytes, seven_encodes, seven-IsVariant, seven-NoZero,
}
use rpcmple.Tests.Links.{udp_with, zeroes, Holds-none, sender}

abbrev datagram : List ℕ
datagram = 12 ∷ 0 ∷ 0 ∷ 1 ∷ seven_bytes

abbrev next : ℕ → ℕ × Option (List ℕ × Address)
next zero = (zero, none)
next (suc n) = (n, some (datagram, sender))

-- The state is the number of datagrams that come.
abbrev network : Os ℕ
network = record {
  startup = λ w. (w, true);
  cleanup = λ w. w;
  socket = λ kind w. (w, some 5);
  close_socket = λ s w. w;
  htons = λ port. port;
  inet_pton = λ address. some 1;
  connect = λ s address w. (w, true);
  bind = λ s address w. (w, true);
  listen = λ s w. (w, true);
  accept = λ s w. (w, none);
  send = λ s bytes w. (w, none);
  send_to = λ s address bytes w. (w, none);
  receive = λ s n w. (w, none);
  receive_from = λ s n w. next w;
}

abbrev coming : ℕ → List (List ℕ)
coming n = replicate n datagram

receives :
    (w : ℕ) (d : List ℕ) (ds : List (List ℕ))
    → coming w ≡ d ∷ ds
    → (from : Address) × (0 < length d)
      × (length d ≤ buffer_size)
      × ((next w).1 ≡ some (d, from))
      × (coming (next w).0 ≡ ds)
receives zero d ds e = absurd (cc)
receives (suc n) d ds e =
    let same : datagram ≡ d = cc in
    let size = ap length same in
    (sender, omega arith, omega arith, ap (λ (x : List ℕ). some (x, sender)) same, cc)

ends : (w : ℕ) → coming w ≡ [] → (next w).1 ≡ none
ends zero e = refl
ends (suc n) e = absurd (cc)

network-IsReceiving : IsReceiving network 5 coming
network-IsReceiving = record { receives = receives; ends = ends }

data_flow-receives_example :
    (t : State Subscriber (Udp × ℕ)) × (callback' : Bool) × (data_flow
        (subscriber ascii true)
        (connection network)
        true
        (replicate 3 false)
        (make (make_subscriber call_args true) (udp_with zeroes 0 0, 2) true)
      ≡ some (closed t callback'))
    × (t.conn.0.socket ≡ none)
    × (t.handler.delivered ≡ map (received ascii call_args) (seven ∷ seven ∷ []))
unfolding header_val
data_flow-receives_example =
    data_flow-receives ascii ascii-IsUtf8 true network 5 coming (udp_with zeroes 0 0) 2 true
      call_args (seven ∷ seven ∷ []) (seven_bytes ∷ seven_bytes ∷ []) network-IsReceiving refl
      Holds-none
      (
        (refl, seven-IsVariant, seven-NoZero, seven_encodes, omega arith, omega arith),
        ((refl, seven-IsVariant, seven-NoZero, seven_encodes, omega arith, omega arith), tt),
      )
      refl
