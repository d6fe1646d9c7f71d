-- ===== src/Connections/UdpLink.antt =====
-- rpcmple_cpp/include/connectionmanager/udpSocket.h under rpcmple_cpp/include/rpcmple/messageManager.h: a socket
-- that receives datagrams, for a manager that writes nothing.
use rpcmple.Common.{ℕ, ◌≤◌, ◌<◌, ◌≡◌, refl, ap, subst, ◌∙◌, arith}
use rpcmple.Common.{List, [], ◌∷◌, length, drop, take-length, length-drop, length-eq-zero}
use rpcmple.Common.{Option, none, some, Bool, false, Outcome, ok, refused, thrown, fault}
use rpcmple.Manager.{Connection, max_message}
use rpcmple.Manager.Inbox.{Script, script, read_script, take_chunk, always}
use rpcmple.Manager.Simulation.{IsSimulation, Reads}
use rpcmple.Connections.{Os, Socket, Address}
use rpcmple.Connections.Udp.{Udp, buffer_size}
use rpcmple.Connections.Udp
use rpcmple.Connections.Held.{Holds}
use rpcmple.Connections.Datagrams.{Delivers, read_datagram-Delivers, read-read_fault}

module _ {W : Type 0} (os : Os W) where
  abbrev returned : Udp × W → Option ((Udp × W) × Bool) → (Udp × W) × Bool
  returned x none = (x, false)
  returned x (some r) = r

  -- A read behind the end of the internal buffer is counted as one that fails.
  abbrev answered : (Udp × W) × Outcome (Unit {0}) (List ℕ) → (Udp × W) × Option (List ℕ)
  answered (x, ok bytes) = (x, some bytes)
  answered (x, refused e) = (x, none)
  answered (x, thrown) = (x, none)
  answered (x, fault) = (x, none)

  abbrev pub connection : Connection (Udp × W)
  connection = record {
    write = λ x bytes. returned x (Udp.write os x bytes);
    read = λ x n. answered (Udp.read os x n);
    close = Udp.close os;
  }

-- An open socket to which datagrams come, none of them empty or larger than the internal buffer;
-- when none is left, `recvfrom` fails.
pub record IsReceiving {W : Type 0} (os : Os W) (s : ℕ) (coming : W → List (List ℕ)) : Type 0 where
  pub receives :
      (w : W) (datagram : List ℕ) (datagrams : List (List ℕ))
      → coming w ≡ datagram ∷ datagrams
      → (sender : Address) × (0 < length datagram)
        × (length datagram ≤ buffer_size)
        × ((os.receive_from (some s) buffer_size w).1 ≡ some (datagram, sender))
        × (coming (os.receive_from (some s) buffer_size w).0 ≡ datagrams)
  pub ends : (w : W) → coming w ≡ [] → (os.receive_from (some s) buffer_size w).1 ≡ none

-- No byte of a datagram is left, and the datagrams to come are the reads to come.
pub record Listens {W : Type 0} (s : ℕ) (coming : W → List (List ℕ)) (x : Udp × W) (c : Script)
    : Type 0 where
  pub opened : x.0.socket ≡ some s
  pub drained : Holds x.0 []
  pub to_come : coming x.1 ≡ c.inbox

abbrev pub IsClosed : {W : Type 0} → Udp × W → Script → Type 0
IsClosed x c = x.0.socket ≡ none

module _ {W : Type 0} (os : Os W) (s : ℕ) (coming : W → List (List ℕ))
    (law : IsReceiving os s coming) where
  closed-IsClosed :
      (u : Udp) (w : W) (socket : Socket) (c : Script)
      → u.socket ≡ socket
      → IsClosed (Udp.closed os u w socket) c
  closed-IsClosed u w none c e = e
  closed-IsClosed u w (some s) c e = refl

  close-IsClosed : (x : Udp × W) (c : Script) → IsClosed (Udp.close os x) c
  unfolding Udp.close
  close-IsClosed (u, w) c = closed-IsClosed u w u.socket c refl

  abbrev ReadsAt : (Udp × W) × Option (List ℕ) → Script × Option (List ℕ) → Type 0
  ReadsAt = Reads (Listens s coming) (λ x c. IsClosed (Udp.close os x) c)

  -- A datagram is read whole.
  delivered-Reads :
      (r : Udp.Reading os) (datagram : List ℕ) (inbox outbox : List (List ℕ)) (sender : Address)
      (w' : W)
      → length datagram ≤ buffer_size
      → coming w' ≡ inbox
      → Delivers os r datagram max_message (some s) sender w'
      → ReadsAt (answered os r) (take_chunk (datagram ∷ inbox) outbox)
  delivered-Reads ((u', w''), ok got) datagram inbox outbox sender w' fits left
        (all, rest, socket, client, same) =
      (
        record {
          opened = socket;
          drained =
              subst (Holds u')
                (length-eq-zero (drop max_message datagram)
                  (omega (arith, length-drop max_message datagram)))
                rest;
          to_come = ap coming same ∙ left;
        },
        all ∙ take-length max_message datagram (omega arith),
      )
  delivered-Reads (x, refused e) datagram inbox outbox sender w' fits left h = absurd h
  delivered-Reads (x, thrown) datagram inbox outbox sender w' fits left h = absurd h
  delivered-Reads (x, fault) datagram inbox outbox sender w' fits left h = absurd h

  refused-Reads :
      (r : Udp.Reading os) (outbox : List (List ℕ))
      → r.1 ≡ refused tt
      → ReadsAt (answered os r) (take_chunk [] outbox)
  refused-Reads (x, refused e) outbox h = close-IsClosed x (record { inbox = []; outbox = outbox })
  refused-Reads (x, ok got) outbox h = absurd (cc)
  refused-Reads (x, thrown) outbox h = absurd (cc)
  refused-Reads (x, fault) outbox h = absurd (cc)

  read-Listens :
      (u : Udp) (w : W) (inbox outbox : List (List ℕ))
      → Listens s coming (u, w) (record { inbox = inbox; outbox = outbox })
      → ReadsAt (answered os (Udp.read os (u, w) max_message)) (take_chunk inbox outbox)
  read-Listens u w [] outbox h =
      let w' : W = (os.receive_from (some s) buffer_size w).0 in
      let nothing : os.receive_from (some s) buffer_size w ≡ (w', none) =
        ap (λ (y : Option (List ℕ × Address)). (w', y)) (law.ends w h.to_come) in
      refused-Reads (Udp.read os (u, w) max_message) outbox
        (read-read_fault os u w w' max_message 65508 s h.drained h.opened nothing (omega arith)).0
  read-Listens u w (datagram ∷ datagrams) outbox h =
      let (sender, some_, fits, gives, left) = law.receives w datagram datagrams h.to_come in
      let w' : W = (os.receive_from (some s) buffer_size w).0 in
      let gets : os.receive_from (some s) buffer_size w ≡ (w', some (datagram, sender)) =
        ap (λ (y : Option (List ℕ × Address)). (w', y)) gives in
      delivered-Reads (Udp.read os (u, w) max_message) datagram datagrams outbox sender w' fits left
        (subst
          (λ socket.
            Delivers os (Udp.read os (u, w) max_message) datagram max_message socket sender w')
          h.opened
          (read_datagram-Delivers os u w w' max_message s datagram sender h.drained h.opened gets
            some_ fits))

  -- The socket stands for a connection whose reads are the datagrams.
  pub connection-IsSimulation :
      IsSimulation (connection os) (script always) (Listens s coming) IsClosed (λ bytes. bytes ≡ [])
  unfolding read_script
  connection-IsSimulation = record {
    writes = λ x c b bytes nothing h. absurd (cc);
    reads = λ x c h. read-Listens x.0 x.1 c.inbox c.outbox h;
    closes = λ x c h. close-IsClosed x c;
  }
