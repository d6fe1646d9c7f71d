-- ===== src/Tests/Sockets.antt =====
-- A connected socket that sends one byte at a time, and a server that answers two requests over it.
use rpcmple.Common.{ℕ, ◌≤◌, ◌<◌, ◌≡◌, refl, sym, ap, subst, arith, length, take, replicate, map}
use rpcmple.Common.{List, [], ◌∷◌, ◌++◌, Option, none, some, Bool, true, false}
use rpcmple.Header.{header_val}
use rpcmple.Manager.{State, make}
use rpcmple.Manager.DataFlow.{closed, data_flow}
use rpcmple.Manager.Inbox.{script, join, always}
use rpcmple.Manager.Simulation.{IsSimulation}
use rpcmple.Connections.{Os}
use rpcmple.Connections.Sending.{IsSend}
use rpcmple.Connections.TcpServer.{TcpServer}
use rpcmple.Connections.Link.{IsConnected, Stands, Ended}
use rpcmple.Connections.ClientLink
use rpcmple.Connections.ServerLink
use rpcmple.Server.{Server, server}
use rpcmple.Server.Request.{reply_to}
use rpcmple.Server.OverTcp.{data_flow-answers}
use rpcmple.Tests.Codecs.{ascii, ascii-IsUtf8}
use rpcmple.Tests.Requests.{
  doubling, doubling-IsServed, two_procedures, two_procedures-IsIdle, two_requests,
}

-- What was sent, and what is still to come.
abbrev pub Wire : Type 0
Wire = List ℕ × List (List ℕ)

abbrev pub sent_one : List ℕ → Wire → Wire × Option ℕ
sent_one [] w = (w, some 0)
sent_one (b ∷ bytes) w = ((w.0 ++ b ∷ [], w.1), some 1)

abbrev pub given : List ℕ → List (List ℕ) → Wire × Option (List ℕ)
given sent [] = ((sent, []), some [])
given sent ([] ∷ chunks) = given sent chunks
given sent ((b ∷ bytes) ∷ chunks) = ((sent, chunks), some (b ∷ bytes))

-- Nothing comes with no byte.
abbrev pub full : List (List ℕ) → List (List ℕ)
full [] = []
full ([] ∷ chunks) = full chunks
full ((b ∷ bytes) ∷ chunks) = (b ∷ bytes) ∷ full chunks

abbrev pub wire : Os Wire
wire = record {
  startup = λ w. (w, true);
  cleanup = λ w. w;
  socket = λ kind w. (w, some 6);
  close_socket = λ s w. w;
  htons = λ port. port;
  inet_pton = λ address. some 1;
  connect = λ s address w. (w, true);
  bind = λ s address w. (w, true);
  listen = λ s w. (w, true);
  accept = λ s w. (w, some 6);
  send = λ s bytes w. sent_one bytes w;
  send_to = λ s address bytes w. sent_one bytes w;
  receive = λ s n w. given w.0 w.1;
  receive_from = λ s n w. (w, none);
}

Wire-IsSend : IsSend sent_one (λ w. w.0)
Wire-IsSend = record { takes = takes_; fails = fails_ }
  where
    takes_ :
        (bytes : List ℕ) (w w' : Wire) (n : ℕ)
        → 0 < length bytes
        → sent_one bytes w ≡ (w', some n)
        → (0 < n) × (n ≤ length bytes) × (w'.0 ≡ w.0 ++ take n bytes)
    takes_ [] w w' n some_ e = absurd (omega arith)
    takes_ (b ∷ bytes) w w' n some_ e =
        let count : 1 ≡ n = cc in
        subst (λ k. (0 < k) × (k ≤ length (b ∷ bytes)) × (w'.0 ≡ w.0 ++ take k (b ∷ bytes))) count
          (omega arith, omega arith, sym (ap (λ (r : Wire × Option ℕ). r.0.0) e))

    fails_ : (bytes : List ℕ) (w w' : Wire) → sent_one bytes w ≡ (w', none) → w'.0 ≡ w.0
    fails_ [] w w' e = absurd (cc)
    fails_ (b ∷ bytes) w w' e = absurd (cc)

accepts : (bytes : List ℕ) (w w' : Wire) → sent_one bytes w ≡ (w', none) → ⊥
accepts [] w w' e = cc
accepts (b ∷ bytes) w w' e = cc

keeps_coming : (bytes : List ℕ) (w : Wire) → full (sent_one bytes w).0.1 ≡ full w.1
keeps_coming [] w = refl
keeps_coming (b ∷ bytes) w = refl

keeps_stream : (sent : List ℕ) (chunks : List (List ℕ)) → (given sent chunks).0.0 ≡ sent
keeps_stream sent [] = refl
keeps_stream sent ([] ∷ chunks) = keeps_stream sent chunks
keeps_stream sent ((b ∷ bytes) ∷ chunks) = refl

receives :
    (sent : List ℕ) (comes : List (List ℕ)) (chunk : List ℕ) (chunks : List (List ℕ))
    → full comes ≡ chunk ∷ chunks
    → (0 < length chunk)
      × ((given sent comes).1 ≡ some chunk)
      × (full (given sent comes).0.1 ≡ chunks)
receives sent [] chunk chunks e = absurd (cc)
receives sent ([] ∷ comes) chunk chunks e = receives sent comes chunk chunks e
receives sent ((b ∷ bytes) ∷ comes) chunk chunks e =
    let same : b ∷ bytes ≡ chunk = cc in (omega (arith, ap length same), ap some same, cc)

ends :
    (sent : List ℕ) (comes : List (List ℕ))
    → full comes ≡ []
    → ((given sent comes).1 ≡ some []) × (full (given sent comes).0.1 ≡ [])
ends sent [] e = (refl, refl)
ends sent ([] ∷ comes) e = ends sent comes e
ends sent ((b ∷ bytes) ∷ comes) e = absurd (cc)

pub wire-IsConnected : IsConnected wire 6 (λ w. w.0) (λ w. full w.1)
wire-IsConnected = record {
  sends = Wire-IsSend;
  accepts = accepts;
  keeps_coming = keeps_coming;
  receives = λ w chunk chunks e. receives w.0 w.1 chunk chunks e;
  ends = λ w e. ends w.0 w.1 e;
  keeps_stream = λ w. keeps_stream w.0 w.1;
  stays = λ w. refl;
  cleans = λ w. refl;
}

abbrev accepted_client : TcpServer
accepted_client = record { listen_socket = some 5; client_socket = some 6; ready_to_accept = false }

connection-IsSimulation_example :
    IsSimulation
      (ClientLink.connection wire)
      (script always)
      (Stands 6 (λ w. w.0) (λ w. full w.1) ClientLink.socket_of (9 ∷ []))
      (Ended (λ w. w.0) ClientLink.socket_of (9 ∷ []))
      (λ bytes. Unit {0})
connection-IsSimulation_example =
    ClientLink.connection-IsSimulation wire 6 (λ w. w.0) (λ w. full w.1) (9 ∷ []) wire-IsConnected

-- The requests come in two portions, behind a byte that was sent before.
abbrev before : Wire
before = (9 ∷ [], two_requests)

data_flow-answers_example :
    (t : State Server (TcpServer × Wire)) × (callback' : Bool) × (data_flow
        (server ascii true)
        (ServerLink.connection wire)
        true
        (replicate 3 false)
        (make two_procedures (accepted_client, before) false)
      ≡ some (closed t callback'))
    × (t.conn.0.client_socket ≡ none)
    × (t.conn.1.0 ≡ 9 ∷ [] ++ join (map reply_to (doubling ∷ doubling ∷ [])))
unfolding header_val
data_flow-answers_example =
    data_flow-answers ascii ascii-IsUtf8 true wire 6 (λ w. w.0) (λ w. full w.1)
      (ServerLink.connection wire) ServerLink.socket_of accepted_client before two_procedures true
      (doubling ∷ doubling ∷ []) wire-IsConnected
      (ServerLink.connection-IsOver wire 6 (λ w. w.0) (λ w. full w.1) wire-IsConnected) refl
      two_procedures-IsIdle (doubling-IsServed, (doubling-IsServed, tt)) refl
