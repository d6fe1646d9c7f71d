-- ===== src/Connections/Datagrams.antt =====
-- rpcmple_cpp/include/connectionmanager/udpSocket.h: how `read` hands out what was received.
use rpcmple.Common.{ℕ, ◌+◌, ◌-◌, ◌≤◌, ◌<◌, ◌≡◌, refl, sym, ap, subst, ◌∙◌, arith}
use rpcmple.Common.{
  List, [], ◌∷◌, ◌++◌, length, take, drop, length-append, length-drop, length-take, take-append,
}
use rpcmple.Common.{Option, none, some, Bool, true, false, leb, ◌==◌, if◌then◌else◌}
use rpcmple.Common.{Outcome, ok, refused, thrown, fault}
use rpcmple.Connections.{Socket, Address, Os}
use rpcmple.Connections.Udp.{Udp, take_out, received, refill, taken, is_drained, buffer_size}
use rpcmple.Connections.Udp
use rpcmple.Connections.Held.{span, Holds, Takes, take_out-Takes}

module _ {W : Type 0} (os : Os W) where
  -- How a read of n bytes ends that takes from the given ones.
  abbrev pub Delivers : Udp.Reading os → List ℕ → ℕ → Socket → Address → W → Type 0
  Delivers ((u', w'), ok got) bytes n s sender w =
      (got ≡ take n bytes)
      × Holds u' (drop n bytes)
      × (u'.socket ≡ s)
      × (u'.client_addr ≡ sender)
      × (w' ≡ w)
  Delivers _ bytes n s sender w = ⊥

  taken-Delivers :
      (u : Udp) (w : W) (bytes : List ℕ) (n : ℕ) (o : Outcome (Unit {0}) (Udp × List ℕ))
      → Takes o u bytes n
      → Delivers (taken os u w o) bytes n u.socket u.client_addr w
  taken-Delivers u w bytes n (ok (u', got)) h = (h.0, h.1, h.2, h.3, refl)
  taken-Delivers u w bytes n (refused e) h = absurd h
  taken-Delivers u w bytes n thrown h = absurd h
  taken-Delivers u w bytes n fault h = absurd h

  abbrev drained_at : Udp → Option ℕ → Bool
  drained_at u end_pos = elim end_pos [ none ↦ false | some end_ ↦ u.start_pos == end_ ]

  -- Where nothing is held, the start is at the end.
  is_drained_of : (u : Udp) → Holds u [] → is_drained os u ≡ true
  is_drained_of u h =
      let held : length (span u.internal_buffer u.start_pos h.end_) ≡ 0 = ap length h.shows in
      let room = length-take (h.end_ - u.start_pos) (drop u.start_pos u.internal_buffer) in
      let behind = length-drop u.start_pos u.internal_buffer in
      let none_left : (u.start_pos == h.end_) ≡ true =
        ground (arith, held, room, behind, h.ordered, h.within) in
      ap (drained_at u) h.ends ∙ none_left

  -- While bytes of a datagram are left, `read` of a UDP socket hands out the next n of them, or
  -- all of them if they are fewer, without asking the system, and holds the others; the socket and
  -- the sender stay as they are. The internal buffer has its size, with the positions within it.
  pub read-Delivers :
      (u : Udp) (w : W) (n : ℕ) (bytes : List ℕ)
      → Holds u bytes
      → 0 < length bytes
      → Delivers (Udp.read os (u, w) n) bytes n u.socket u.client_addr w
  unfolding Udp.read
  read-Delivers u w n bytes h some_ =
      let held : length (span u.internal_buffer u.start_pos h.end_) ≡ length bytes =
        ap length h.shows in
      let room = length-take (h.end_ - u.start_pos) (drop u.start_pos u.internal_buffer) in
      let more : (u.start_pos == h.end_) ≡ false = ground (arith, held, room, some_) in
      subst
        (λ (drained : Bool).
          Delivers
            (if drained
              then refill os (record u { start_pos = 0; end_pos = some 0 }) w n u.socket
              else taken os u w (take_out os u n))
            bytes n u.socket u.client_addr w)
        (sym (ap (drained_at u) h.ends ∙ more))
        (taken-Delivers u w bytes n (take_out os u n) (take_out-Takes os u bytes n h))

  -- When no byte of a datagram is left, `read` of an open UDP socket receives the next one,
  -- remembers its sender, hands out its first n bytes, or all of them if they are fewer, and holds
  -- the others. The datagram is not empty, and not larger than the internal buffer, which has its
  -- size, with the positions within it.
  pub read_datagram-Delivers :
      (u : Udp) (w w' : W) (n s : ℕ) (datagram : List ℕ) (sender : Address)
      → Holds u []
      → u.socket ≡ some s
      → os.receive_from (some s) buffer_size w ≡ (w', some (datagram, sender))
      → 0 < length datagram
      → length datagram ≤ buffer_size
      → Delivers (Udp.read os (u, w) n) datagram n u.socket sender w'
  unfolding Udp.read
  read_datagram-Delivers u w w' n s [] sender h is_s gets some_ fits = absurd (omega arith)
  read_datagram-Delivers u w w' n s (b ∷ bytes) sender h is_s gets some_ fits =
      let u₁ : Udp = record u { start_pos = 0; end_pos = some 0 } in
      let u₂ : Udp = record u₁ {
        client_addr = sender;
        internal_buffer = (b ∷ bytes) ++ drop (length (b ∷ bytes)) u.internal_buffer;
        end_pos = some (length (b ∷ bytes));
      } in
      let fresh : Holds u₂ (b ∷ bytes) = record {
        end_ = length (b ∷ bytes);
        ends = refl;
        ordered = omega arith;
        within =
            omega (arith, length-append (b ∷ bytes) (drop (length (b ∷ bytes)) u.internal_buffer));
        sized = omega (
          arith,
          length-append (b ∷ bytes) (drop (length (b ∷ bytes)) u.internal_buffer),
          length-drop (length (b ∷ bytes)) u.internal_buffer,
          h.sized,
          fits,
        );
        shows =
            take-append (length (b ∷ bytes) - 0) (b ∷ bytes)
              (drop (length (b ∷ bytes)) u.internal_buffer) (omega arith);
      } in
      let arrives : refill os u₁ w n u.socket ≡ taken os u₂ w' (take_out os u₂ n) =
        ap (refill os u₁ w n) is_s
        ∙ ap (λ size. received os u₁ n (os.receive_from (some s) size w)) h.sized
        ∙ ap (received os u₁ n) gets in
      subst
        (λ (drained : Bool).
          Delivers (if drained then refill os u₁ w n u.socket else taken os u w (take_out os u n))
            (b ∷ bytes) n u.socket sender w')
        (sym (is_drained_of u h))
        (subst (λ r. Delivers r (b ∷ bytes) n u.socket sender w') (sym arrives)
          (taken-Delivers u₂ w' (b ∷ bytes) n (take_out os u₂ n)
            (take_out-Takes os u₂ (b ∷ bytes) n fresh)))

  -- After `recvfrom` has failed in a `read` of a UDP socket, which returns false, the next `read`,
  -- for more bytes than the internal buffer has, copies from past the buffer's end. No byte of a
  -- datagram was left, the internal buffer has its size, with the positions within it, and the
  -- socket is open.
  pub read-read_fault :
      (u : Udp) (w w' : W) (n n' s : ℕ)
      → Holds u []
      → u.socket ≡ some s
      → os.receive_from (some s) buffer_size w ≡ (w', none)
      → buffer_size < n'
      → let ((u', w''), first) = Udp.read os (u, w) n in
        (first ≡ refused tt) × ((Udp.read os (u', w'') n').1 ≡ fault)
  unfolding Udp.read take_out
  read-read_fault u w w' n n' s h is_s gets large =
      let too_many : leb (0 + n') (length u.internal_buffer) ≡ false =
        ground (arith, large, h.sized) in
      let u₁ : Udp = record u { start_pos = 0; end_pos = some 0 } in
      let fails : refill os u₁ w n u.socket ≡ ((record u₁ { end_pos = none }, w'), refused tt) =
        ap (refill os u₁ w n) is_s
        ∙ ap (λ size. received os u₁ n (os.receive_from (some s) size w)) h.sized
        ∙ ap (received os u₁ n) gets in
      let ends : Udp.read os (u, w) n ≡ ((record u₁ { end_pos = none }, w'), refused tt) =
        ap
          (λ (drained : Bool).
            if drained then refill os u₁ w n u.socket else taken os u w (take_out os u n))
          (is_drained_of u h)
        ∙ fails in
      subst (λ r. (r.1 ≡ refused tt) × ((Udp.read os r.0 n').1 ≡ fault)) (sym ends)
        (refl, rw too_many refl)
