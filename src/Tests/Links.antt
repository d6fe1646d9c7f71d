-- ===== src/Tests/Links.antt =====
-- The connections at work: a client of TCP, a UDP socket, a pipe, and the standard input.
use rpcmple.Common.{ℕ, ◌≡◌, refl, sym, ap, arith, take, replicate, length-replicate}
use rpcmple.Common.{List, [], ◌∷◌, ◌++◌, Option, none, some, Bool, true, false, refused, fault, inr}
use rpcmple.Manager.{State, make}
use rpcmple.Manager.DataFlow.{closed, data_flow}
use rpcmple.Connections.{Socket, Address, Os}
use rpcmple.Connections.Audit.{Audit, audited, IsBalanced}
use rpcmple.Connections.Sending.{IsWritten}
use rpcmple.Connections.TcpClient.{TcpClient, make_tcp_client}
use rpcmple.Connections.TcpClient
use rpcmple.Connections.TcpServer
use rpcmple.Connections.Balance.{
  Leaves, create-Leaves, create-close, create-close_misuse, start_tcp_server-stop_misuse,
}
use rpcmple.Connections.Writes.{write-IsWritten}
use rpcmple.Connections.Udp.{Udp, make_udp, buffer_size}
use rpcmple.Connections.Udp
use rpcmple.Connections.Datagrams.{Delivers, read-Delivers, read_datagram-Delivers, read-read_fault}
use rpcmple.Connections.Held.{Holds}
use rpcmple.Connections.NamedPipe.{NamedPipe, make_named_pipe, Wrote, write-Wrote, write_again}
use rpcmple.Connections.NamedPipe
use rpcmple.Connections.StdInOut.{std_in_out, data_flow-std_in_out}
use rpcmple.Server.{Server, server}
use rpcmple.Tests.Codecs.{ascii}
use rpcmple.Tests.Calls.{doubling_server}
use rpcmple.Tests.Systems.{two, two-IsSend, datagrams, pipes, all_at_once, input, input-IsInput}

abbrev pub sender : Address
sender = record { sin_family = 2; sin_port = 7; sin_addr = 1 }

abbrev system : Os (List ℕ)
system = datagrams (some (10 ∷ 20 ∷ 30 ∷ [], sender))

abbrev silent : Os (List ℕ)
silent = datagrams none

abbrev nothing_held : Audit (List ℕ)
nothing_held = record { system = []; startups = 0; open_sockets = []; is_misused = false }

-- Port 9 refuses.
abbrev client_of : Socket → ℕ → TcpClient
client_of s port = record { connect_socket = s; server_address = 49 ∷ []; server_port = port }

abbrev one_held : Audit (List ℕ)
one_held = record { system = []; startups = 1; open_sockets = 5 ∷ []; is_misused = false }

create-Leaves_example :
    Leaves system nothing_held (TcpClient.create (audited system) (client_of none 9, nothing_held))
create-Leaves_example = create-Leaves system (client_of none 9) nothing_held

connects :
    TcpClient.create (audited system) (client_of none 8, nothing_held)
    ≡ ((client_of (some 5) 8, one_held), true)
unfolding TcpClient.create
connects = refl

create-close_example :
    let (c'', a'') = TcpClient.close (audited system) (client_of (some 5) 8, one_held) in
    (c''.connect_socket ≡ none) × IsBalanced nothing_held a''
create-close_example =
    create-close system (client_of none 8) (client_of (some 5) 8) nothing_held one_held connects

create-close_misuse_example :
    let ((c', a'), done) = TcpClient.create (audited system) (client_of none 9, nothing_held) in
    (done ≡ false)
    × (c'.connect_socket ≡ some 5)
    × IsBalanced nothing_held a'
    × ((TcpClient.close (audited system) (c', a')).1.is_misused ≡ true)
create-close_misuse_example =
    create-close_misuse system (client_of none 9) nothing_held 5 [] [] refl refl refl
      (inr (1, [], refl, refl))

start_tcp_server-stop_misuse_example :
    let (a', socket) = TcpServer.start_tcp_server (audited system) 9 nothing_held in
    (socket ≡ some 5)
    × IsBalanced nothing_held a'
    × ((TcpServer.stop_tcp_server (audited system) socket a').is_misused ≡ true)
start_tcp_server-stop_misuse_example =
    start_tcp_server-stop_misuse system 9 5 nothing_held [] [] [] refl refl refl refl

write-IsWritten_example :
    (end : List ℕ × Bool) × (TcpClient.write system (client_of (some 5) 8, []) (1 ∷ 2 ∷ 3 ∷ [])
      ≡ some ((client_of (some 5) 8, end.0), end.1))
    × IsWritten (λ w. w) (1 ∷ 2 ∷ 3 ∷ []) [] end
write-IsWritten_example =
    write-IsWritten system (λ w. w) (client_of (some 5) 8) [] (1 ∷ 2 ∷ 3 ∷ []) two-IsSend

-- A socket whose internal buffer holds 20 and 30 behind a 10 that was handed out.
abbrev pub udp_with : List ℕ → ℕ → ℕ → Udp
udp_with buffer start end_ = record {
  listen_port = none;
  socket = some 5;
  client_addr = sender;
  client_port = some 7;
  internal_buffer = buffer;
  start_pos = start;
  end_pos = some end_;
}

abbrev pub zeroes : List ℕ
zeroes = replicate buffer_size 0

abbrev partly_read : List ℕ
partly_read = 10 ∷ 20 ∷ 30 ∷ replicate 65504 0

Holds-two : Holds (udp_with partly_read 1 3) (20 ∷ 30 ∷ [])
Holds-two = record {
  end_ = 3;
  ends = refl;
  ordered = omega arith;
  within = omega arith;
  sized = omega (arith, length-replicate {A = ℕ} 65504 0);
  shows = refl;
}

pub Holds-none : Holds (udp_with zeroes 0 0) []
Holds-none = record {
  end_ = 0;
  ends = refl;
  ordered = omega arith;
  within = omega arith;
  sized = length-replicate {A = ℕ} 65507 0;
  shows = refl;
}

read-Delivers_example :
    Delivers system
      (Udp.read system (udp_with partly_read 1 3, []) 1)
      (20 ∷ 30 ∷ [])
      1
      (some 5)
      sender
      []
read-Delivers_example =
    read-Delivers system (udp_with partly_read 1 3) [] 1 (20 ∷ 30 ∷ []) Holds-two (omega arith)

read_datagram-Delivers_example :
    Delivers system
      (Udp.read system (udp_with zeroes 0 0, []) 2)
      (10 ∷ 20 ∷ 30 ∷ [])
      2
      (some 5)
      sender
      []
read_datagram-Delivers_example =
    read_datagram-Delivers system (udp_with zeroes 0 0) [] [] 2 5 (10 ∷ 20 ∷ 30 ∷ []) sender
      Holds-none refl refl (omega arith) (omega arith)

read-read_fault_example :
    let ((u', w''), first) = Udp.read silent (udp_with zeroes 0 0, []) 4 in
    (first ≡ refused tt) × ((Udp.read silent (u', w'') 70000).1 ≡ fault)
read-read_fault_example =
    read-read_fault silent (udp_with zeroes 0 0) [] [] 4 70000 5 Holds-none refl refl (omega arith)

abbrev pipe : NamedPipe
pipe = record { h_pipe = some 4; full_pipe_name = 112 ∷ [] }

write-Wrote_example :
    (end : List ℕ × Bool) × Wrote (pipes all_at_once) (λ w. w) pipe [] (1 ∷ 2 ∷ []) end
write-Wrote_example =
    write-Wrote (pipes all_at_once) (λ w. w) pipe [] (1 ∷ 2 ∷ [])
      (λ w₁ w₂ n e. (cc, sym (ap (λ (r : List ℕ × Option ℕ). r.0) e))) (λ w₁ w₂ e. absurd (cc))

abbrev twice : List ℕ
twice = 1 ∷ 2 ∷ 1 ∷ 2 ∷ []

write_again_example :
    (NamedPipe.write (pipes two) (pipe, []) (1 ∷ 2 ∷ 3 ∷ 4 ∷ []) ≡ some ((pipe, twice), true))
    × (twice ≡ [] ++ (take 2 (1 ∷ 2 ∷ 3 ∷ 4 ∷ []) ++ take 2 (1 ∷ 2 ∷ 3 ∷ 4 ∷ [])))
write_again_example =
    write_again (pipes two) (λ w. w) pipe [] (1 ∷ 2 ∷ []) twice (1 ∷ 2 ∷ 3 ∷ 4 ∷ []) 2 2 two-IsSend
      refl (omega arith) refl (omega arith)

data_flow-std_in_out_example :
    (s : State Server (List ℕ)) × (callback' : Bool) × (data_flow
        (server ascii true)
        (std_in_out input)
        true
        (false ∷ [])
        (make doubling_server (12 ∷ 0 ∷ 0 ∷ []) false)
      ≡ some (closed s callback'))
    × (s.handler ≡ doubling_server)
    × (s.conn ≡ [])
unfolding server
data_flow-std_in_out_example =
    data_flow-std_in_out input (λ w. w) input-IsInput (server ascii true) true doubling_server
      (12 ∷ 0 ∷ 0 ∷ []) (omega arith) (omega arith)
