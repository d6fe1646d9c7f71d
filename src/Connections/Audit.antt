-- ===== src/Connections/Audit.antt =====
-- rpcmple_cpp/include/connectionmanager: an account of what the connections hold of the system. WinSock asks
-- that every successful `WSAStartup` has one `WSACleanup`, and every socket one `closesocket`.
use rpcmple.Common.{ℕ, zero, suc, List, [], ◌∷◌, Option, none, some, Bool, true, false, ◌≡◌, refl}
use rpcmple.Common.{◌==◌, if◌then◌else◌, arith}
use rpcmple.Connections.{Socket, Os}

-- The system, the successful calls of `WSAStartup` without their `WSACleanup`, the open sockets,
-- and whether one was given back that was not held.
pub record Audit (W : Type 0) : Type 0 where
  pub system : W
  pub startups : ℕ
  pub open_sockets : List ℕ
  pub is_misused : Bool

abbrev pub count_startup : {W : Type 0} → Audit W → W × Bool → Audit W × Bool
count_startup a (w, false) = (record a { system = w }, false)
count_startup a (w, true) = (record a { system = w; startups = suc a.startups }, true)

abbrev pub count_cleanup : {W : Type 0} → Audit W → ℕ → Audit W
count_cleanup a zero = record a { is_misused = true }
count_cleanup a (suc n) = record a { startups = n }

abbrev pub count_socket : {W : Type 0} → Audit W → W × Socket → Audit W × Socket
count_socket a (w, none) = (record a { system = w }, none)
count_socket a (w, some s) = (record a { system = w; open_sockets = s ∷ a.open_sockets }, some s)

-- A list without the first occurrence of a number, if there is one.
abbrev pub without : ℕ → List ℕ → Option (List ℕ)
without s [] = none
without s (t ∷ ts) =
    let rest = without s ts in
    if s == t then some ts else elim rest [ none ↦ none | some us ↦ some (t ∷ us) ]

abbrev pub count_close : {W : Type 0} → Audit W → Option (List ℕ) → Audit W
count_close a none = record a { is_misused = true }
count_close a (some ss) = record a { open_sockets = ss }

abbrev pub close_audited : {W : Type 0} → Audit W → Socket → Audit W
close_audited a none = record a { is_misused = true }
close_audited a (some s) = count_close a (without s a.open_sockets)

-- A call that neither takes nor gives back anything.
abbrev pub passes : {W A : Type 0} → Audit W → W × A → Audit W × A
passes a (w, x) = (record a { system = w }, x)

-- The same system with the account.
abbrev pub audited : {W : Type 0} → Os W → Os (Audit W)
audited os = record {
  startup = λ a. count_startup a (os.startup a.system);
  cleanup = λ a. count_cleanup (record a { system = os.cleanup a.system }) a.startups;
  socket = λ kind a. count_socket a (os.socket kind a.system);
  close_socket = λ s a. close_audited (record a { system = os.close_socket s a.system }) s;
  htons = os.htons;
  inet_pton = os.inet_pton;
  connect = λ s address a. passes a (os.connect s address a.system);
  bind = λ s address a. passes a (os.bind s address a.system);
  listen = λ s a. passes a (os.listen s a.system);
  accept = λ s a. count_socket a (os.accept s a.system);
  send = λ s bytes a. passes a (os.send s bytes a.system);
  send_to = λ s address bytes a. passes a (os.send_to s address bytes a.system);
  receive = λ s n a. passes a (os.receive s n a.system);
  receive_from = λ s n a. passes a (os.receive_from s n a.system);
}

-- Two accounts that differ at most in the state of the system.
abbrev pub IsBalanced : {W : Type 0} → Audit W → Audit W → Type 0
IsBalanced a a' =
    (a'.startups ≡ a.startups) × (a'.open_sockets ≡ a.open_sockets) × (a'.is_misused ≡ a.is_misused)

-- The last socket that was opened is the first that is found.
pub without-cons : (s : ℕ) (ss : List ℕ) → without s (s ∷ ss) ≡ some ss
without-cons s ss = let same : (s == s) ≡ true = ground arith in rw same refl
