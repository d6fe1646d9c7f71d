-- ===== src/Tests/Systems.antt =====
-- Small systems under the connections: one that sends two bytes at a time and has one datagram, pipes
-- that write all or a part, and an input of three bytes.
use rpcmple.Common.{
  ℕ, ◌≤◌, ◌<◌, ◌≡◌, refl, sym, ap, subst, arith, length, take, drop, ltb, ◌==◌, not,
}
use rpcmple.Common.{List, [], ◌∷◌, ◌++◌, Option, none, some, true}
use rpcmple.Connections.{Address, Os}
use rpcmple.Connections.Sending.{IsSend}
use rpcmple.Connections.NamedPipe.{Files}
use rpcmple.Connections.StdInOut.{Streams, IsInput}

-- What is sent is put behind the state.
abbrev pub two : List ℕ → List ℕ → List ℕ × Option ℕ
two [] w = (w, some 0)
two (b ∷ []) w = (w ++ b ∷ [], some 1)
two (b ∷ c ∷ bytes) w = (w ++ b ∷ c ∷ [], some 2)

pub two-IsSend : IsSend two (λ w. w)
two-IsSend = record { takes = takes_; fails = fails_ }
  where
    takes_ :
        (bytes w w' : List ℕ) (n : ℕ)
        → 0 < length bytes
        → two bytes w ≡ (w', some n)
        → (0 < n) × (n ≤ length bytes) × (w' ≡ w ++ take n bytes)
    takes_ [] w w' n some_ e = absurd (omega arith)
    takes_ (b ∷ []) w w' n some_ e =
        let count : 1 ≡ n = cc in
        subst (λ k. (0 < k) × (k ≤ 1) × (w' ≡ w ++ take k (b ∷ []))) count
          (omega arith, omega arith, sym (ap (λ (r : List ℕ × Option ℕ). r.0) e))
    takes_ (b ∷ c ∷ bytes) w w' n some_ e =
        let count : 2 ≡ n = cc in
        subst (λ k. (0 < k) × (k ≤ length (b ∷ c ∷ bytes)) × (w' ≡ w ++ take k (b ∷ c ∷ bytes)))
          count (omega arith, omega arith, sym (ap (λ (r : List ℕ × Option ℕ). r.0) e))

    fails_ : (bytes w w' : List ℕ) → two bytes w ≡ (w', none) → w' ≡ w
    fails_ [] w w' e = absurd (cc)
    fails_ (b ∷ []) w w' e = absurd (cc)
    fails_ (b ∷ c ∷ bytes) w w' e = absurd (cc)

abbrev pub datagrams : Option (List ℕ × Address) → Os (List ℕ)
datagrams datagram = record {
  startup = λ w. (w, true);
  cleanup = λ w. w;
  socket = λ kind w. (w, some 5);
  close_socket = λ s w. w;
  htons = λ port. port;
  inet_pton = λ address. some 1;
  connect = λ s address w. (w, not (address.sin_port == 9));
  bind = λ s address w. (w, not (address.sin_port == 9));
  listen = λ s w. (w, true);
  accept = λ s w. (w, some 6);
  send = λ s bytes w. two bytes w;
  send_to = λ s address bytes w. two bytes w;
  receive = λ s n w. (w, none);
  receive_from = λ s n w. (w, datagram);
}

abbrev pub pipes : (List ℕ → List ℕ → List ℕ × Option ℕ) → Files (List ℕ)
pipes write_file = record {
  create_file = λ name w. (w, some 4);
  write_file = λ h bytes w. write_file bytes w;
  read_file = λ h n w. (drop n w, some (take n w));
  close_handle = λ h w. (w, true);
}

abbrev pub all_at_once : List ℕ → List ℕ → List ℕ × Option ℕ
all_at_once bytes w = (w ++ bytes, some (length bytes))

-- The state is the input that is left.
abbrev pub input : Streams (List ℕ)
input = record {
  cin_read = λ n w. (drop n w, (take n w, ltb (length w) n, ltb (length w) n));
  cout_write = λ bytes w. (w, true);
}

pub input-IsInput : IsInput input (λ w. w)
input-IsInput = record { takes = λ n w. refl; leaves = λ n w. refl }
