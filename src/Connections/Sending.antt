-- ===== src/Connections/Sending.antt =====
-- rpcmple_cpp/include/connectionmanager: the loop of `write` in tcpSocketClient.h, tcpSocketServer.h and
-- udpSocket.h.
use rpcmple.Common.{ℕ, zero, suc, ◌≤◌, ◌<◌, ◌≡◌, refl, sym, ap, ◌∙◌, arith}
use rpcmple.Common.{
  List, [], ◌∷◌, ◌++◌, append-nil, append_assoc, length, take, drop, length-drop, take-append-drop,
}
use rpcmple.Common.{Option, none, some, Bool, true, false}
use rpcmple.Connections.{sent_some, send_all}

-- What is documented of `send`: it takes at least one byte of those it is given, and not more than
-- there are, and they follow those it took before; on an error it takes none. `stream` is what the
-- system has taken.
pub record IsSend {W : Type 0} (send : List ℕ → W → W × Option ℕ) (stream : W → List ℕ)
    : Type 0 where
  pub takes :
      (bytes : List ℕ) (w w' : W) (n : ℕ)
      → 0 < length bytes
      → send bytes w ≡ (w', some n)
      → (0 < n) × (n ≤ length bytes) × (stream w' ≡ stream w ++ take n bytes)
  pub fails : (bytes : List ℕ) (w w' : W) → send bytes w ≡ (w', none) → stream w' ≡ stream w

-- How a write ends: with all the bytes taken, or refused with the first of them.
abbrev pub IsWritten : {W : Type 0} → (W → List ℕ) → List ℕ → W → W × Bool → Type 0
IsWritten stream bytes w (w', true) = stream w' ≡ stream w ++ bytes
IsWritten stream bytes w (w', false) =
    (first : List ℕ) × (rest : List ℕ) × (first ++ rest ≡ bytes) × (stream w' ≡ stream w ++ first)

pub IsWritten-refl : {W : Type 0} (stream : W → List ℕ) (w : W) → IsWritten stream [] w (w, true)
IsWritten-refl stream w = sym (append-nil (stream w))

module _ {W : Type 0} (send : List ℕ → W → W × Option ℕ) (stream : W → List ℕ)
    (law : IsSend send stream) where
  -- A write that goes on behind the first n bytes.
  IsWritten-trans :
      (n : ℕ) (bytes : List ℕ) (w w₁ : W) (end : W × Bool)
      → stream w₁ ≡ stream w ++ take n bytes
      → IsWritten stream (drop n bytes) w₁ end
      → IsWritten stream bytes w end
  IsWritten-trans n bytes w w₁ (w', true) e h =
      h
      ∙ ap (λ l. l ++ drop n bytes) e
      ∙ append_assoc (stream w) (take n bytes) (drop n bytes)
      ∙ ap (◌++◌ (stream w)) (take-append-drop n bytes)
  IsWritten-trans n bytes w w₁ (w', false) e (first, rest, joined, h) = (
    take n bytes ++ first,
    rest,
    append_assoc (take n bytes) first rest
        ∙ ap (◌++◌ (take n bytes)) joined
        ∙ take-append-drop n bytes,
    h ∙ ap (λ l. l ++ first) e ∙ append_assoc (stream w) (take n bytes) first,
  )

  -- A way to end the loop on the bytes that are left.
  abbrev pub Ends : List ℕ → W → Option (W × Bool) → Type 0
  Ends bytes w r = (end : W × Bool) × (r ≡ some end) × IsWritten stream bytes w end

  sent_some-Ends :
      (fuel : ℕ) (b : ℕ) (bytes : List ℕ) (w : W) (r : W × Option ℕ)
      → send (b ∷ bytes) w ≡ r
      → ((left : List ℕ) (w₁ : W)
          → length left < length (b ∷ bytes)
          → Ends left w₁ (send_all send fuel left w₁))
      → Ends (b ∷ bytes) w (sent_some send (b ∷ bytes) r (send_all send fuel))
  sent_some-Ends fuel b bytes w (w₁, none) e ih = (
    (w₁, false),
    refl,
    ([], b ∷ bytes, refl, law.fails (b ∷ bytes) w w₁ e ∙ sym (append-nil (stream w))),
  )
  sent_some-Ends fuel b bytes w (w₁, some n) e ih =
      let (some_, fits, more) = law.takes (b ∷ bytes) w w₁ n (omega arith) e in
      let (end, runs, rest) =
        ih (drop n (b ∷ bytes)) w₁ (omega (arith, length-drop n (b ∷ bytes))) in
      (end, runs, IsWritten-trans n (b ∷ bytes) w w₁ end more rest)

  -- The loop ends within one round for each byte, and the bytes are taken in their order, each
  -- once: all of them when it succeeds, the first of them when it fails.
  pub send_all-IsWritten :
      (fuel : ℕ) (bytes : List ℕ) (w : W)
      → length bytes ≤ fuel
      → Ends bytes w (send_all send fuel bytes w)
  unfolding send_all
  send_all-IsWritten fuel [] w enough = ((w, true), refl, IsWritten-refl stream w)
  send_all-IsWritten zero (b ∷ bytes) w enough = absurd (omega arith)
  send_all-IsWritten (suc fuel) (b ∷ bytes) w enough =
      sent_some-Ends fuel b bytes w (send (b ∷ bytes) w) refl
        λ left w₁ fewer. send_all-IsWritten fuel left w₁ (omega arith)
