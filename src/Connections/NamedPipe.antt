-- ===== src/Connections/NamedPipe.antt =====
-- rpcmple_cpp/include/connectionmanager/namedPipeClient.h: the class `namedPipeClient`, over the calls of the
-- system for files.
use rpcmple.Common.{ℕ, zero, suc, ◌+◌, ◌≤◌, ◌<◌, ◌≡◌, refl, sym, ap, ◌∙◌, arith, ltb, if◌then◌else◌}
use rpcmple.Common.{
  List, [], ◌∷◌, ◌++◌, append-nil, append_assoc, length, take, Option, none, some, Bool, true,
  false,
}
use rpcmple.Variant.{Text}
use rpcmple.Connections.Sending.{IsSend}

-- `none` is `INVALID_HANDLE_VALUE`, or a call that returned `FALSE`.
pub record Files (W : Type 0) : Type 0 where
  pub create_file : Text → W → W × Option ℕ
  pub write_file : Option ℕ → List ℕ → W → W × Option ℕ
  pub read_file : Option ℕ → ℕ → W → W × Option (List ℕ)
  pub close_handle : Option ℕ → W → W × Bool

pub record NamedPipe : Type 0 where
  pub h_pipe : Option ℕ
  pub full_pipe_name : Text

-- `\\.\pipe\` in front of the name. The handle is not set before `create`.
unfoldable pub make_named_pipe : Text → NamedPipe
make_named_pipe name = record {
  h_pipe = none;
  full_pipe_name = 92 ∷ 92 ∷ 46 ∷ 92 ∷ 112 ∷ 105 ∷ 112 ∷ 101 ∷ 92 ∷ name;
}

module _ {W : Type 0} (files : Files W) where
  abbrev pub opened : NamedPipe → W × Option ℕ → (NamedPipe × W) × Bool
  opened p (w, none) = ((record p { h_pipe = none }, w), false)
  opened p (w, some h) = ((record p { h_pipe = some h }, w), true)

  unfoldable pub create : NamedPipe × W → (NamedPipe × W) × Bool
  create (p, w) = opened p (files.create_file p.full_pipe_name w)

  abbrev pub written : W × Option ℕ → (ℕ → W → Option (W × Bool)) → Option (W × Bool)
  written (w, none) next = some (w, false)
  written (w, some n) next = next n w

  -- `while (tBytesWritten < bytes.size())`, with fuel: every round writes all the bytes.
  unfoldable pub write_whole : Option ℕ → List ℕ → ℕ → ℕ → W → Option (W × Bool)
  write_whole h bytes zero total w = if ltb total (length bytes) then none else some (w, true)
  write_whole h bytes (suc fuel) total w =
      if ltb total (length bytes)
      then written (files.write_file h bytes w) (λ n w'. write_whole h bytes fuel (total + n) w')
      else some (w, true)

  abbrev pub with_pipe : NamedPipe → Option (W × Bool) → Option ((NamedPipe × W) × Bool)
  with_pipe p none = none
  with_pipe p (some (w, done)) = some ((p, w), done)

  unfoldable pub write : NamedPipe × W → List ℕ → Option ((NamedPipe × W) × Bool)
  write (p, w) bytes = with_pipe p (write_whole p.h_pipe bytes (length bytes) 0 w)

  abbrev pub got : NamedPipe → W × Option (List ℕ) → (NamedPipe × W) × Option (List ℕ)
  got p (w, r) = ((p, w), r)

  unfoldable pub read : NamedPipe × W → ℕ → (NamedPipe × W) × Option (List ℕ)
  read (p, w) n = got p (files.read_file p.h_pipe n w)

  abbrev pub closed : NamedPipe → W × Bool → (NamedPipe × W) × Bool
  closed p (w, done) = ((p, w), done)

  unfoldable pub close : NamedPipe × W → (NamedPipe × W) × Bool
  close (p, w) = closed p (files.close_handle p.h_pipe w)

  whole_done :
      (h : Option ℕ) (bytes : List ℕ) (fuel total : ℕ) (w : W)
      → length bytes ≤ total
      → write_whole h bytes fuel total w ≡ some (w, true)
  unfolding write_whole
  whole_done h bytes zero total w enough =
      let done : ltb total (length bytes) ≡ false = ground arith in rw done refl
  whole_done h bytes (suc fuel) total w enough =
      let done : ltb total (length bytes) ≡ false = ground arith in rw done refl

  whole_more :
      (h : Option ℕ) (bytes : List ℕ) (fuel total : ℕ) (w : W) (r : W × Option ℕ)
      → total < length bytes
      → files.write_file h bytes w ≡ r
      → write_whole h bytes (suc fuel) total w
        ≡ written r (λ n w'. write_whole h bytes fuel (total + n) w')
  unfolding write_whole
  whole_more h bytes fuel total w r few e =
      let more : ltb total (length bytes) ≡ true = ground arith in
      rw more (ap (λ q. written q λ n w'. write_whole h bytes fuel (total + n) w') e)

  module _ (stream : W → List ℕ) where
    -- How a write of whole buffers ends.
    abbrev pub Wrote : NamedPipe → W → List ℕ → W × Bool → Type 0
    Wrote p w bytes end =
        (write (p, w) bytes ≡ some ((p, end.0), end.1))
        × (stream end.0 ≡ stream w ++ (if end.1 then bytes else []))

    first_round :
        (p : NamedPipe) (w : W) (b : ℕ) (bytes : List ℕ) (r : W × Option ℕ)
        → files.write_file p.h_pipe (b ∷ bytes) w ≡ r
        → ((w₂ : W) (n : ℕ)
            → r ≡ (w₂, some n)
            → (n ≡ length (b ∷ bytes)) × (stream w₂ ≡ stream w ++ b ∷ bytes))
        → ((w₂ : W) → r ≡ (w₂, none) → stream w₂ ≡ stream w)
        → (end : W × Bool) × Wrote p w (b ∷ bytes) end
    unfolding write
    first_round p w b bytes (w₁, none) e writes fails = (
      (w₁, false),
      (
        ap (with_pipe p)
            (whole_more p.h_pipe (b ∷ bytes) (length bytes) 0 w (w₁, none) (omega arith) e),
        fails w₁ refl ∙ sym (append-nil (stream w)),
      ),
    )
    first_round p w b bytes (w₁, some n) e writes fails =
        let (all, more) = writes w₁ n refl in
        (
          (w₁, true),
          (
            ap (with_pipe p) (
                whole_more p.h_pipe (b ∷ bytes) (length bytes) 0 w (w₁, some n) (omega arith) e
                ∙ whole_done p.h_pipe (b ∷ bytes) (length bytes) (0 + n) w₁ (omega (arith, all))),
            more,
          ),
        )

    -- On a system that writes all the bytes or fails, `write` of a named pipe ends, and all the
    -- bytes have been written, once, if it returns true, and none if it returns false.
    pub write-Wrote :
        (p : NamedPipe) (w : W) (bytes : List ℕ)
        → ((w₁ w₂ : W) (n : ℕ)
            → files.write_file p.h_pipe bytes w₁ ≡ (w₂, some n)
            → (n ≡ length bytes) × (stream w₂ ≡ stream w₁ ++ bytes))
        → ((w₁ w₂ : W) → files.write_file p.h_pipe bytes w₁ ≡ (w₂, none) → stream w₂ ≡ stream w₁)
        → (end : W × Bool) × Wrote p w bytes end
    unfolding write
    write-Wrote p w [] writes fails = (
      (w, true),
      (ap (with_pipe p) (whole_done p.h_pipe [] 0 0 w (omega arith)), sym (append-nil (stream w))),
    )
    write-Wrote p w (b ∷ bytes) writes fails =
        first_round p w b bytes (files.write_file p.h_pipe (b ∷ bytes) w) refl (writes w) (fails w)

    -- When the system has written a part of the bytes only, the next round of `write` of a named
    -- pipe writes them again from their start: if the two parts together are at least as many as
    -- the bytes, `write` returns true, and what has been written is the first part followed by the
    -- first of the bytes again. The system writes one byte at least, and not more than it is
    -- given.
    pub write_again :
        (p : NamedPipe) (w w₁ w₂ : W) (bytes : List ℕ) (n n' : ℕ)
        → IsSend (files.write_file p.h_pipe) stream
        → files.write_file p.h_pipe bytes w ≡ (w₁, some n)
        → n < length bytes
        → files.write_file p.h_pipe bytes w₁ ≡ (w₂, some n')
        → length bytes ≤ n + n'
        → (write (p, w) bytes ≡ some ((p, w₂), true))
          × (stream w₂ ≡ stream w ++ (take n bytes ++ take n' bytes))
    unfolding write
    write_again p w w₁ w₂ [] n n' law e part e' rest = absurd (omega arith)
    write_again p w w₁ w₂ (b ∷ []) n n' law e part e' rest =
        absurd (omega (arith, law.takes (b ∷ []) w w₁ n (omega arith) e))
    write_again p w w₁ w₂ (b ∷ c ∷ bytes) n n' law e part e' rest =
        let all : List ℕ = b ∷ c ∷ bytes in
        let (some₁, fits₁, more₁) = law.takes all w w₁ n (omega arith) e in
        let (some₂, fits₂, more₂) = law.takes all w₁ w₂ n' (omega arith) e' in
        (
          ap (with_pipe p) (
              whole_more p.h_pipe all (suc (length bytes)) 0 w (w₁, some n) (omega arith) e
              ∙ whole_more p.h_pipe all (length bytes) (0 + n) w₁ (w₂, some n') (omega arith) e'
              ∙ whole_done p.h_pipe all (length bytes) (0 + n + n') w₂ (omega arith)),
          more₂
              ∙ ap (λ l. l ++ take n' all) more₁
              ∙ append_assoc (stream w) (take n all) (take n' all),
        )
