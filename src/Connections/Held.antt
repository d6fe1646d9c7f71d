-- ===== src/Connections/Held.antt =====
-- rpcmple_cpp/include/connectionmanager/udpSocket.h: what the internal buffer of a socket holds.
use rpcmple.Common.{ℕ, ◌+◌, ◌-◌, ◌≤◌, ◌≡◌, refl, sym, ap, ◌∙◌, arith}
use rpcmple.Common.{
  List, length, take, drop, length-drop, length-take, take-take, drop-take, drop-drop, take-length,
  length-eq-zero,
}
use rpcmple.Common.{some, false, Bool-cases, inl, inr, leb, ltb}
use rpcmple.Common.{Outcome, ok}
use rpcmple.Connections.{Os}
use rpcmple.Connections.Udp.{Udp, take_out, received, refill, taken, is_drained, buffer_size}
use rpcmple.Connections.Udp

-- The bytes of the internal buffer from the start to the end.
abbrev pub span : List ℕ → ℕ → ℕ → List ℕ
span buffer start end_ = take (end_ - start) (drop start buffer)

-- An internal buffer whose positions lie in it, with the bytes that are still to be handed out.
pub record Holds (u : Udp) (bytes : List ℕ) : Type 0 where
  pub end_ : ℕ
  pub ends : u.end_pos ≡ some end_
  pub ordered : u.start_pos ≤ end_
  pub within : end_ ≤ length u.internal_buffer
  pub sized : length u.internal_buffer ≡ buffer_size
  pub shows : span u.internal_buffer u.start_pos end_ ≡ bytes

-- What a read of n bytes takes from those that are held, and what is held then.
abbrev pub Takes : Outcome (Unit {0}) (Udp × List ℕ) → Udp → List ℕ → ℕ → Type 0
Takes (ok (u', got)) u bytes n =
    (got ≡ take n bytes)
    × Holds u' (drop n bytes)
    × (u'.socket ≡ u.socket)
    × (u'.client_addr ≡ u.client_addr)
Takes _ u bytes n = ⊥

module _ {W : Type 0} (os : Os W) where
  in_buffer_of :
      (u : Udp) (end_ : ℕ)
      → u.end_pos ≡ some end_
      → u.start_pos ≤ end_
      → Udp.in_buffer os u ≡ some (end_ - u.start_pos)
  in_buffer_of u end_ e ordered =
      let not_behind : ltb end_ u.start_pos ≡ false = ground arith in rw (e, not_behind) refl

  take_out_of :
      (u : Udp) (n : ℕ) (bytes : List ℕ) (h : Holds u bytes)
      → take_out os u n ≡ Udp.take_from os u n (some (h.end_ - u.start_pos))
  unfolding take_out
  take_out_of u n bytes h = ap (Udp.take_from os u n) (in_buffer_of u h.end_ h.ends h.ordered)

  pub take_out-Takes :
      (u : Udp) (bytes : List ℕ) (n : ℕ) → Holds u bytes → Takes (take_out os u n) u bytes n
  take_out-Takes u bytes n h = elim (Bool-cases (leb n (h.end_ - u.start_pos))) [
    | inl part ↦
        rw (take_out_of u n bytes h, part, ← h.shows)
          (
            sym (take-take n (h.end_ - u.start_pos) rest (ground (arith, part))),
            record {
              end_ = h.end_;
              ends = h.ends;
              ordered = ground (arith, part, h.ordered);
              within = h.within;
              sized = h.sized;
              shows =
                  ap (take (h.end_ - (u.start_pos + n)))
                    (sym (drop-drop u.start_pos n (u.start_pos + n) u.internal_buffer refl))
                  ∙ sym (
                      drop-take n (h.end_ - u.start_pos) (h.end_ - (u.start_pos + n)) rest
                        (ground (arith, part)));
            },
            refl,
            refl,
          )
    | inr all ↦
        let held : List ℕ = span u.internal_buffer u.start_pos h.end_ in
        let few : length held ≤ n = ground (arith, all, length-take (h.end_ - u.start_pos) rest) in
        rw (take_out_of u n bytes h, all, ← h.shows)
          (
            sym (take-length n held few),
            record {
              end_ = 0;
              ends = refl;
              ordered = omega arith;
              within = omega arith;
              sized = h.sized;
              shows = sym (length-eq-zero (drop n held) (omega (arith, few, length-drop n held)));
            },
            refl,
            refl,
          )
  ]
    where
      rest : List ℕ
      rest = drop u.start_pos u.internal_buffer
