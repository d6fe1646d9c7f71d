-- ===== src/Connections/Udp.antt =====
-- rpcmple_cpp/include/connectionmanager/udpSocket.h: the class `udpSocket`.
use rpcmple.Common.{ℕ, ◌+◌, ◌-◌, List, [], ◌∷◌, ◌++◌, length, take, drop, replicate}
use rpcmple.Common.{Option, none, some, Bool, true, false, leb, ltb, ◌==◌, if◌then◌else◌}
use rpcmple.Common.{Outcome, ok, refused, thrown, fault}
use rpcmple.Variant.{Text}
use rpcmple.Connections.{Socket, udp, Address, af_inet, inaddr_any, inaddr_broadcast, Os, send_all}

-- The ports are `none` for -1. `internalBufferEndPos` is `none` for the -1 that a failed `recvfrom`
-- leaves there.
pub record Udp : Type 0 where
  pub listen_port : Option ℕ
  pub socket : Socket
  pub client_addr : Address
  pub client_port : Option ℕ
  pub internal_buffer : List ℕ
  pub start_pos : ℕ
  pub end_pos : Option ℕ

-- `sockaddr_in{}`.
abbrev pub no_address : Address
no_address = record { sin_family = 0; sin_port = 0; sin_addr = 0 }

abbrev pub buffer_size : ℕ
buffer_size = 65507

-- An address that is not taken leaves 0 in its place.
abbrev host : Option ℕ → ℕ
host none = 0
host (some a) = a

module _ {W : Type 0} (os : Os W) where
  abbrev client_address : Option ℕ → Text → Address
  client_address none address = no_address
  client_address (some port) address = record {
    sin_family = af_inet;
    sin_port = os.htons port;
    sin_addr = host (os.inet_pton address);
  }

  unfoldable pub make_udp : Option ℕ → Option ℕ → Text → Udp
  make_udp listen_port client_port address = record {
    listen_port = listen_port;
    socket = none;
    client_addr = client_address client_port address;
    client_port = client_port;
    internal_buffer = replicate buffer_size 0;
    start_pos = 0;
    end_pos = some 0;
  }

  abbrev pub Result : Type 0
  Result = (Udp × W) × Bool

  abbrev pub bound : Udp → W × Bool → Result
  bound u (w, false) = ((u, os.cleanup (os.close_socket u.socket w)), false)
  bound u (w, true) = ((u, w), true)

  abbrev pub listening : Udp → W → Option ℕ → Result
  listening u w none = ((u, w), true)
  listening u w (some port) =
      let any : Address = record {
        sin_family = af_inet;
        sin_port = os.htons port;
        sin_addr = inaddr_any;
      } in
      bound u (os.bind u.socket any w)

  abbrev pub opened : Udp → W × Socket → Result
  opened u (w, none) = ((record u { socket = none }, os.cleanup w), false)
  opened u (w, some s) = listening (record u { socket = some s }) w u.listen_port

  abbrev pub started : Udp → W × Bool → Result
  started u (w, false) = ((u, w), false)
  started u (w, true) = opened u (os.socket udp w)

  unfoldable pub create : Udp × W → Result
  create (u, w) = started u (os.startup w)

  abbrev pub with_udp : Udp → Option (W × Bool) → Option Result
  with_udp u none = none
  with_udp u (some (w, done)) = some ((u, w), done)

  abbrev pub write_to : Udp → W → List ℕ → Socket → Option Result
  write_to u w bytes none = some ((u, w), false)
  write_to u w bytes (some s) =
      if u.client_addr.sin_family == 0
      then some ((u, w), false)
      else with_udp u (send_all (os.send_to (some s) u.client_addr) (length bytes) bytes w)

  unfoldable pub write : Udp × W → List ℕ → Option Result
  write (u, w) bytes = write_to u w bytes u.socket

  -- `bytesInInternalBuffer`; `none` if it is negative.
  abbrev pub in_buffer : Udp → Option ℕ
  in_buffer u = elim u.end_pos [
    | none ↦ none
    | some end_ ↦ if ltb end_ u.start_pos then none else some (end_ - u.start_pos)
  ]

  -- What `read` does on a buffer that is not empty, for n bytes. The comparison of `bytes.size()` with
  -- a negative number is unsigned, and holds: n bytes are copied from the start, past the end of the
  -- buffer if it has not as many.
  abbrev pub take_from : Udp → ℕ → Option ℕ → Outcome (Unit {0}) (Udp × List ℕ)
  take_from u n none =
      if leb (u.start_pos + n) (length u.internal_buffer)
      then ok
          (record u { start_pos = u.start_pos + n }, take n (drop u.start_pos u.internal_buffer))
      else fault
  take_from u n (some count) =
      if leb n count
      then ok
          (record u { start_pos = u.start_pos + n }, take n (drop u.start_pos u.internal_buffer))
      else ok (
        record u { start_pos = 0; end_pos = some 0 },
        take count (drop u.start_pos u.internal_buffer),
      )

  unfoldable pub take_out : Udp → ℕ → Outcome (Unit {0}) (Udp × List ℕ)
  take_out u n = take_from u n (in_buffer u)

  abbrev pub Reading : Type 0
  Reading = (Udp × W) × Outcome (Unit {0}) (List ℕ)

  abbrev pub taken : Udp → W → Outcome (Unit {0}) (Udp × List ℕ) → Reading
  taken u w (ok (u', bytes)) = ((u', w), ok bytes)
  taken u w (refused e) = ((u, w), refused e)
  taken u w thrown = ((u, w), thrown)
  taken u w fault = ((u, w), fault)

  -- `recvfrom` stores a datagram at the head of the internal buffer, and its sender.
  abbrev pub received : Udp → ℕ → W × Option (List ℕ × Address) → Reading
  received u n (w, none) = ((record u { end_pos = none }, w), refused tt)
  received u n (w, some ([], sender)) =
      ((record u { client_addr = sender; end_pos = some 0 }, w), refused tt)
  received u n (w, some (b ∷ bytes, sender)) =
      let u' = record u {
        client_addr = sender;
        internal_buffer = (b ∷ bytes) ++ drop (length (b ∷ bytes)) u.internal_buffer;
        end_pos = some (length (b ∷ bytes));
      } in
      taken u' w (take_out u' n)

  abbrev pub refill : Udp → W → ℕ → Socket → Reading
  refill u w n none = ((u, w), refused tt)
  refill u w n (some s) = received u n (os.receive_from (some s) (length u.internal_buffer) w)

  abbrev pub is_drained : Udp → Bool
  is_drained u = elim u.end_pos [ none ↦ false | some end_ ↦ u.start_pos == end_ ]

  unfoldable pub read : Udp × W → ℕ → Reading
  read (u, w) n =
      if is_drained u
      then refill (record u { start_pos = 0; end_pos = some 0 }) w n u.socket
      else taken u w (take_out u n)

  abbrev pub closed : Udp → W → Socket → Udp × W
  closed u w none = (u, w)
  closed u w (some s) = (record u { socket = none }, os.cleanup (os.close_socket (some s) w))

  unfoldable pub close : Udp × W → Udp × W
  close (u, w) = closed u w u.socket

  abbrev pub broadcasting : Udp → ℕ → Text → Option ℕ → Udp × Bool
  broadcasting u port address none = (
    record u {
      client_addr = record (u.client_addr) { sin_family = af_inet; sin_port = os.htons port };
    },
    false,
  )
  broadcasting u port address (some a) = (
    record u {
      client_addr = record { sin_family = af_inet; sin_port = os.htons port; sin_addr = a };
    },
    true,
  )

  -- The empty text stands for the broadcast address.
  unfoldable pub enable_broadcast : Udp → Text → ℕ → Udp × Bool
  enable_broadcast u [] port = broadcasting u port [] (some inaddr_broadcast)
  enable_broadcast u (x ∷ address) port =
      broadcasting u port (x ∷ address) (os.inet_pton (x ∷ address))

unfoldable pub enable_multicast : Udp → Udp × Bool
enable_multicast u = (record u { client_addr = no_address }, false)
