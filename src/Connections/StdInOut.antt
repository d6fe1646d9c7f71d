-- ===== src/Connections/StdInOut.antt =====
-- rpcmple_cpp/include/connectionmanager/stdInOutClient.h: the class `stdInOutClient`, over the standard
-- streams, and what it makes of `dataFlow`.
use rpcmple.Common.{ℕ, ◌<◌, ◌≡◌, refl, ap, ◌∙◌, arith, ltb, if◌then◌else◌}
use rpcmple.Common.{List, [], ◌∷◌, length, take, drop, Option, none, some, Bool, true, false}
use rpcmple.Common.{length-eq-zero, length-drop, refused}
use rpcmple.Manager.{Parser, Connection, State, make, max_message, init, next_message}
use rpcmple.Manager.DataFlow.{
  continue, closed, data_flow, loop, close, start, outer_round, after_read,
}

-- `std::cin.read` for n bytes: those that were read, and the flags `eof` and `fail`; and
-- `std::cout.write`: whether the stream is good behind it.
pub record Streams (W : Type 0) : Type 0 where
  pub cin_read : ℕ → W → W × (List ℕ × Bool × Bool)
  pub cout_write : List ℕ → W → W × Bool

module _ {W : Type 0} (streams : Streams W) where
  unfoldable pub write : W → List ℕ → W × Bool
  write w bytes = streams.cout_write bytes w

  abbrev pub got : W × (List ℕ × Bool × Bool) → W × Option (List ℕ)
  got (w, (bytes, eof, fail)) = (w, if eof then none else (if fail then none else some bytes))

  unfoldable pub read : W → ℕ → W × Option (List ℕ)
  read w n = got (streams.cin_read n w)

  -- `create` and `close` do nothing.
  unfoldable pub std_in_out : Connection W
  std_in_out = record { write = write; read = read; close = λ w. w }

-- What is documented of `std::istream::read`: it takes n bytes, or all that are left before the
-- end, and sets both flags if they are fewer.
pub record IsInput {W : Type 0} (streams : Streams W) (left : W → List ℕ) : Type 0 where
  pub takes :
      (n : ℕ) (w : W)
      → (streams.cin_read n w).1
        ≡ (take n (left w), ltb (length (left w)) n, ltb (length (left w)) n)
  pub leaves : (n : ℕ) (w : W) → left (streams.cin_read n w).0 ≡ drop n (left w)

if_twice {ℓ} :
    {A : Type ℓ} (b : Bool) (x y : A)
    → (if b then x else (if b then x else y)) ≡ (if b then x else y)
if_twice true x y = refl
if_twice false x y = refl

module _ {W : Type 0} (streams : Streams W) (left : W → List ℕ) (law : IsInput streams left) where
  -- `read` gives n bytes if there are as many before the end of the input. If there are fewer it
  -- fails, and those that were left are lost.
  pub read_lem :
      (n : ℕ) (w : W)
      → ((read streams w n).1 ≡ (if ltb (length (left w)) n then none else some (take n (left w))))
        × (left (read streams w n).0 ≡ drop n (left w))
  unfolding read
  read_lem n w =
      let b : Bool = ltb (length (left w)) n in
      (
        ap (λ (x : List ℕ × Bool × Bool). if x.1 then none else (if x.2 then none else some x.0))
              (law.takes n w)
            ∙ if_twice b none (some (take n (left w))),
        law.leaves n w,
      )

  abbrev k : Connection W
  k = std_in_out streams

  nothing_read :
      {H : Type 0} (p : Parser H) (s : State H W) (r : W × Option (List ℕ))
      → r.1 ≡ none
      → after_read p k s r ≡ some (refused (record s { conn = r.0 }))
  unfolding after_read
  nothing_read p s (w, x) e = ap (λ (y : Option (List ℕ)). after_read p k s (w, y)) e

  -- Over the standard streams `dataFlow`, which asks for 16777220 bytes at a time, ends on an
  -- input of fewer bytes with the handler as it was, whatever messages the input held, and the
  -- input is used up; `stopParser` is not called at its end, although the comment at
  -- messageManager.h:39 says so. The manager does not send first, its handler waits for a message
  -- that is not empty, nobody asks for a stop, and the input is read as documented.
  pub data_flow-std_in_out :
      {H : Type 0} (p : Parser H) (callback : Bool) (h : H) (w : W)
      → 0 < p.get_message_len h
      → length (left w) < max_message
      → (s : State H W) × (callback' : Bool) × (data_flow p
            (std_in_out streams)
            callback
            (false ∷ [])
            (make h w false)
          ≡ some (closed s callback'))
        × (s.handler ≡ h)
        × (left s.conn ≡ [])
  unfolding data_flow make start init next_message loop outer_round after_read close std_in_out
  data_flow-std_in_out {H} p callback h w waits short =
      let wanted : ltb 0 (p.get_message_len h) ≡ true = ground arith in
      let ends : ltb (length (left w)) max_message ≡ true = ground arith in
      let none_read : (read streams w max_message).1 ≡ none =
        (read_lem max_message w).0
        ∙ ap (λ (b : Bool). if b then none else some (take max_message (left w))) ends in
      let s : State H W = record (next_message p k (make h w false)) { is_initialized = true } in
      let after : State H W = record s { conn = (read streams w max_message).0 } in
      let used_up : left after.conn ≡ [] =
        (read_lem max_message w).1
        ∙ length-eq-zero (drop max_message (left w))
            (omega (arith, short, length-drop max_message (left w))) in
      (
        after,
        callback,
        rw wanted (
            ap (λ t. continue p k callback t (loop p k callback []))
              (nothing_read p s (read streams w max_message) none_read)),
        refl,
        used_up,
      )
