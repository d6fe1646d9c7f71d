-- ===== src/Connections/Balance.antt =====
-- rpcmple_cpp/include/connectionmanager/tcpSocketClient.h and tcpSocketServer.h: what is held of the system
-- behind `create` and `close`, on every branch.
use rpcmple.Common.{
  ℕ, suc, List, ◌∷◌, Option, none, some, Bool, true, false, ◌≡◌, refl, ap, ◌∙◌, subst, ◌⊎◌, inl,
  inr,
}
use rpcmple.Connections.{Socket, tcp, Os}
use rpcmple.Connections.Audit.{
  Audit, audited, count_startup, count_socket, close_audited, count_close, without, IsBalanced,
  without-cons,
}
use rpcmple.Connections.TcpClient.{TcpClient}
use rpcmple.Connections.TcpClient
use rpcmple.Connections.TcpServer

module _ {W : Type 0} (os : Os W) where
  -- An account with one start and one socket more, and the state of the system.
  abbrev pub holding : Audit W → ℕ → W → Audit W
  holding a s w = record a {
    system = w;
    startups = suc a.startups;
    open_sockets = s ∷ a.open_sockets;
  }

  abbrev pub released : Audit W → ℕ → W → Audit W
  released a s w = record a { system = os.cleanup (os.close_socket (some s) w) }

  -- Giving back both is counted as such.
  pub release :
      (a : Audit W) (s : ℕ) (w : W)
      → (audited os).cleanup ((audited os).close_socket (some s) (holding a s w)) ≡ released a s w
  release a s w = rw (without-cons s a.open_sockets) refl

  -- What `create` leaves: nothing more than before if it fails, and else a socket, with a start.
  abbrev pub Leaves : Audit W → (TcpClient × Audit W) × Bool → Type 0
  Leaves a ((c, a'), false) = IsBalanced a a'
  Leaves a ((c, a'), true) = (s : ℕ) × (c.connect_socket ≡ some s) × (a' ≡ holding a s a'.system)

  give_up-Leaves :
      (a : Audit W) (c : TcpClient) (s : ℕ) (w : W)
      → Leaves a
          (TcpClient.give_up (audited os) (record c { connect_socket = some s }) (holding a s w))
  give_up-Leaves a c s w = rw (release a s w) (refl, refl, refl)

  connected-Leaves :
      (a : Audit W) (c : TcpClient) (s : ℕ) (r : W × Bool)
      → Leaves a (
          TcpClient.connected
            (audited os)
            (record c { connect_socket = some s })
            (holding a s r.0, r.1))
  connected-Leaves a c s (w, false) = give_up-Leaves a c s w
  connected-Leaves a c s (w, true) = (s, refl, refl)

  addressed-Leaves :
      (a : Audit W) (c : TcpClient) (s : ℕ) (w : W) (address : Option ℕ)
      → Leaves a (
          TcpClient.addressed
            (audited os)
            (record c { connect_socket = some s })
            (holding a s w)
            address)
  addressed-Leaves a c s w none = give_up-Leaves a c s w
  addressed-Leaves a c s w (some address) = connected-Leaves a c s (
      os.connect (some s)
        (record { sin_family = 2; sin_port = os.htons c.server_port; sin_addr = address }) w)

  opened-Leaves :
      (a : Audit W) (c : TcpClient) (r : W × Socket)
      → Leaves a (
          TcpClient.opened (audited os) c (count_socket (record a { startups = suc a.startups }) r))
  opened-Leaves a c (w, none) = (refl, refl, refl)
  opened-Leaves a c (w, some s) = addressed-Leaves a c s w (os.inet_pton c.server_address)

  started-Leaves :
      (a : Audit W) (c : TcpClient) (r : W × Bool)
      → Leaves a (TcpClient.started (audited os) c (count_startup a r))
  started-Leaves a c (w, false) = (refl, refl, refl)
  started-Leaves a c (w, true) = opened-Leaves (record a { system = w }) c (os.socket tcp w)

  -- On each of its branches, errors included, `create` of a TCP client leaves nothing more held of
  -- the system than before if it returns false, and if it returns true one start of WinSock and
  -- the one socket that the client has; it never gives back what is not held.
  pub create-Leaves :
      (c : TcpClient) (a : Audit W) → Leaves a (TcpClient.create (audited os) (c, a))
  unfolding TcpClient.create
  create-Leaves c a = started-Leaves a c (os.startup a.system)

  -- The account behind `closesocket` has the startups of before.
  startups-close : (a : Audit W) (s : Socket) → (close_audited a s).startups ≡ a.startups
  startups-close a none = refl
  startups-close a (some s) = counted (without s a.open_sockets)
    where
      counted : (r : Option (List ℕ)) → (count_close a r).startups ≡ a.startups
      counted none = refl
      counted (some ss) = refl

  -- A `WSACleanup` without a start.
  cleanup_misuse : (a : Audit W) → a.startups ≡ 0 → ((audited os).cleanup a).is_misused ≡ true
  cleanup_misuse a e = rw e refl

  release_misuse :
      (a : Audit W) (s : Socket)
      → a.startups ≡ 0
      → ((audited os).cleanup ((audited os).close_socket s a)).is_misused ≡ true
  release_misuse a s e =
      cleanup_misuse ((audited os).close_socket s a)
        (startups-close (record a { system = os.close_socket s a.system }) s ∙ e)

  close_of :
      (c : TcpClient) (a : Audit W) (s : ℕ)
      → c.connect_socket ≡ some s
      → TcpClient.close (audited os) (c, a) ≡ (
        record c { connect_socket = none },
        (audited os).cleanup ((audited os).close_socket (some s) a),
      )
  unfolding TcpClient.close
  close_of c a s e = ap (TcpClient.closed (audited os) c a) e

  -- A TCP client that `create` has connected holds one start of WinSock and one socket, and
  -- `close` gives both back, and nothing that is not held: the account is that of before, and the
  -- client has no socket.
  pub create-close :
      (c c' : TcpClient) (a a' : Audit W)
      → TcpClient.create (audited os) (c, a) ≡ ((c', a'), true)
      → let (c'', a'') = TcpClient.close (audited os) (c', a') in
        (c''.connect_socket ≡ none) × IsBalanced a a''
  create-close c c' a a' e =
      let (s, is_s, holds) = subst (Leaves a) e (create-Leaves c a) in
      rw (close_of c' a' s is_s, holds, release a s a'.system) (refl, (refl, refl, refl))

  -- The address is not understood, or the connection is refused.
  abbrev pub Refuses : TcpClient → ℕ → W → Type 0
  Refuses c s w =
      (os.inet_pton c.server_address ≡ none)
      ⊎ ((address : ℕ) × (w' : W) × (os.inet_pton c.server_address ≡ some address)
          × (os.connect (some s)
                (record { sin_family = 2; sin_port = os.htons c.server_port; sin_addr = address }) w
              ≡ (w', false)))

  abbrev KeepsHandle : Audit W → ℕ → (TcpClient × Audit W) × Bool → Type 0
  KeepsHandle a s ((c', a'), done) =
      (done ≡ false)
      × (c'.connect_socket ≡ some s)
      × IsBalanced a a'
      × ((TcpClient.close (audited os) (c', a')).1.is_misused ≡ true)

  give_up-KeepsHandle :
      (a : Audit W) (c : TcpClient) (s : ℕ) (w : W)
      → a.startups ≡ 0
      → KeepsHandle a s
          (TcpClient.give_up (audited os) (record c { connect_socket = some s }) (holding a s w))
  unfolding TcpClient.close
  give_up-KeepsHandle a c s w idle =
      rw (release a s w)
        (refl, refl, (refl, refl, refl), release_misuse (released a s w) (some s) idle)

  addressed-KeepsHandle :
      (a : Audit W) (c : TcpClient) (s : ℕ) (w : W)
      → a.startups ≡ 0
      → Refuses c s w
      → KeepsHandle a s (
          TcpClient.addressed
            (audited os)
            (record c { connect_socket = some s })
            (holding a s w)
            (os.inet_pton c.server_address))
  addressed-KeepsHandle a c s w idle (inl unknown) = rw unknown (give_up-KeepsHandle a c s w idle)
  addressed-KeepsHandle a c s w idle (inr (address, w', known, refuses)) =
      rw (known, refuses) (give_up-KeepsHandle a c s w' idle)

  -- When the address is not understood or the connection is refused, behind the creation of a
  -- socket, `create` of a TCP client returns false with the account as it was before, as the
  -- socket is closed and WinSock given back, but the client keeps the handle: `close`, which the
  -- destructor calls, gives back again what is not held any more. WinSock starts and gives a
  -- socket, and nothing else in the process has started it.
  pub create-close_misuse :
      (c : TcpClient) (a : Audit W) (s : ℕ) (w₁ w₂ : W)
      → a.startups ≡ 0
      → os.startup a.system ≡ (w₁, true)
      → os.socket tcp w₁ ≡ (w₂, some s)
      → Refuses c s w₂
      → let ((c', a'), done) = TcpClient.create (audited os) (c, a) in
        (done ≡ false)
        × (c'.connect_socket ≡ some s)
        × IsBalanced a a'
        × ((TcpClient.close (audited os) (c', a')).1.is_misused ≡ true)
  unfolding TcpClient.create
  create-close_misuse c a s w₁ w₂ idle starts opens refuses =
      rw (starts, opens) (addressed-KeepsHandle a c s w₂ idle refuses)

  -- When the port cannot be bound, `startTCPServer` gives back the socket and the start of
  -- WinSock, and returns the handle of the closed socket, not that of a failure; `stopTCPServer`
  -- on it gives back again what is not held any more. Nothing else in the process has started
  -- WinSock.
  pub start_tcp_server-stop_misuse :
      (port s : ℕ) (a : Audit W) (w₁ w₂ w₃ : W)
      → a.startups ≡ 0
      → os.startup a.system ≡ (w₁, true)
      → os.socket tcp w₁ ≡ (w₂, some s)
      → os.bind (some s) (record { sin_family = 2; sin_port = os.htons port; sin_addr = 0 }) w₂
        ≡ (w₃, false)
      → let (a', socket) = TcpServer.start_tcp_server (audited os) port a in
        (socket ≡ some s)
        × IsBalanced a a'
        × ((TcpServer.stop_tcp_server (audited os) socket a').is_misused ≡ true)
  unfolding TcpServer.start_tcp_server TcpServer.stop_tcp_server
  start_tcp_server-stop_misuse port s a w₁ w₂ w₃ idle starts opens binds =
      rw (starts, opens, binds, release a s w₃)
        (refl, (refl, refl, refl), release_misuse (released a s w₃) (some s) idle)
