-- ===== src/Publisher/Collect.antt =====
-- rpcmple_cpp/include/rpcmple/dataPublisher.h: what `writeMessage` does to the stack on every branch, and
-- the messages that `publish` makes.
use rpcmple.Common.{ℕ, ◌+◌, ◌≤◌, ◌<◌, ◌≡◌, refl, sym, ap, subst, ◌∙◌, arith}
use rpcmple.Common.{
  List, [], ◌∷◌, ◌++◌, append-nil, append_assoc, length, length-append, replicate, All,
}
use rpcmple.Common.{Outcome, ok, refused, thrown, fault}
use rpcmple.Common.{Bool, true, false, Bool-cases, ◌⊎◌, inl, inr, ltb, ◌==◌, ◌&&◌, if◌then◌else◌}
use rpcmple.Variant.{Variant}
use rpcmple.Signature.{Codec}
use rpcmple.Signature.Writer.{to_binary}
use rpcmple.Publisher.{Publisher, prepared, prepare, collect, collected, write_message}
use rpcmple.Publisher.Frames.{frame, frames, put_frame}

-- The messages that a header has room for, by the test of the loop.
abbrev pub IsShort : List ℕ → Type 0
IsShort message = length message ≤ 16777216

-- The last of the messages that were taken is too large, and the others are not.
abbrev pub EndsLong : List (List ℕ) → Type 0
EndsLong taken =
    (before : List (List ℕ)) × (long : List ℕ) × (taken ≡ before ++ long ∷ [])
    × All IsShort before
    × (16777216 < length long)

-- What the loop has taken from the stack, when it succeeds and when it fails. It never runs into
-- undefined behaviour.
abbrev pub Splits :
    List ℕ → List (List ℕ) → Outcome (List (List ℕ)) (List ℕ × List (List ℕ)) → Type 0
Splits out stack (ok (out', rest)) =
    (taken : List (List ℕ)) × (taken ++ rest ≡ stack)
    × All IsShort taken
    × (out' ≡ out ++ frames taken)
Splits out stack (refused rest) = (taken : List (List ℕ)) × (taken ++ rest ≡ stack) × EndsLong taken
Splits out stack _ = ⊥

-- The bytes that stand for the values of a call of `publish`.
abbrev made : Outcome (List ℕ) (List ℕ) → List ℕ
made (ok bytes) = bytes
made _ = []

pub frames-append : (xs ys : List (List ℕ)) → frames (xs ++ ys) ≡ frames xs ++ frames ys
frames-append [] ys = refl
frames-append (x ∷ xs) ys =
    ap (◌++◌ (frame x)) (frames-append xs ys) ∙ sym (append_assoc (frame x) (frames xs) (frames ys))

module _ (codec : Codec) (m : Bool) where
  unfoldable pub body : List ℕ → List Variant → List ℕ
  body sig values = made (to_binary codec.to_bytes m sig values (replicate 1024 0))

  -- One message more in front of what was taken.
  Splits-cons :
      (out message : List ℕ) (stack : List (List ℕ))
      (o : Outcome (List (List ℕ)) (List ℕ × List (List ℕ)))
      → IsShort message
      → Splits (out ++ frame message) stack o
      → Splits out (message ∷ stack) o
  Splits-cons out message stack (ok (out', rest)) short (taken, e, shorts, e') = (
    message ∷ taken,
    ap (◌∷◌ message) e,
    (short, shorts),
    e' ∙ append_assoc out (frame message) (frames taken),
  )
  Splits-cons out message stack (refused rest) short (taken, e, (before, last, e', shorts, long)) =
      (
        message ∷ taken,
        ap (◌∷◌ message) e,
        (message ∷ before, last, ap (◌∷◌ message) e', (short, shorts), long),
      )
  Splits-cons out message stack thrown short h = absurd h
  Splits-cons out message stack fault short h = absurd h

  collect-Splits :
      (group grouping : Bool) (out : List ℕ) (stack : List (List ℕ))
      → Splits out stack (collect codec m group grouping (length out) out stack)
  unfolding collect
  collect-Splits group grouping out [] = ([], refl, tt, sym (append-nil out))
  collect-Splits group grouping out (message ∷ stack) =
      let next : length out + 4 + length message ≡ length (out ++ frame message) =
        omega (arith, length-append out (frame message)) in
      elim (Bool-cases (grouping && ltb (length out) 1024)) [
        | inl on ↦ elim (Bool-cases (ltb 16777216 (length message))) [
          | inl long ↦ rw (on, long) (message ∷ [], refl, ([], message, refl, tt, ground arith))
          | inr short ↦
              rw (on, short, put_frame codec m out message, next)
                (Splits-cons out message stack _ (ground arith)
                  (collect-Splits group group (out ++ frame message) stack))
        ]
        | inr off ↦ rw off ([], refl, tt, sym (append-nil out))
      ]

  -- What a call of `writeMessage` with an empty vector has taken from the stack.
  abbrev pub Writes : Publisher → Outcome Publisher (Publisher × List ℕ) → Type 0
  Writes s (ok (s', out)) =
      (taken : List (List ℕ)) × (taken ++ s'.message_stack ≡ s.message_stack)
      × (out ≡ frames taken)
      × (s'.signature ≡ s.signature)
      × (s.stop_wait ≡ false)
      × All IsShort taken
  Writes s (refused s') =
      (taken : List (List ℕ)) × (taken ++ s'.message_stack ≡ s.message_stack)
      × (s'.signature ≡ s.signature)
      × (((s.stop_wait ≡ true) × (taken ≡ [])) ⊎ ((s.stop_wait ≡ false) × EndsLong taken))
  Writes s _ = ⊥

  collected-Writes :
      (s : Publisher) (o : Outcome (List (List ℕ)) (List ℕ × List (List ℕ)))
      → s.stop_wait ≡ false
      → Splits [] s.message_stack o
      → Writes s (collected codec m s o)
  collected-Writes s (ok (out, rest)) go (taken, e, shorts, e') = (taken, e, e', refl, go, shorts)
  collected-Writes s (refused rest) go (taken, e, long) = (taken, e, refl, inr (go, long))
  collected-Writes s thrown go h = absurd h
  collected-Writes s fault go h = absurd h

  -- On each of its branches `writeMessage` of a publisher, given an empty vector, takes messages
  -- from the front of its stack and keeps the others in their order. If it returns true, it has
  -- not been asked to stop, none of the messages that were taken has more than 16777216 bytes, and
  -- the vector has exactly these, each behind its header. If it returns false, either it has been
  -- asked to stop, and has taken none, or it has not, and the last of those that were taken, and
  -- no other of them, has more than 16777216 bytes; those that were taken are then lost. It
  -- neither throws nor writes out of bounds, and the signature stays.
  pub write_message-Writes : (s : Publisher) → Writes s (write_message codec m s [])
  unfolding write_message
  write_message-Writes s =
      let sends = collect codec m s.group_messages true 0 [] s.message_stack in
      elim (Bool-cases s.stop_wait) [
        | inl stop ↦
            subst (λ (b : Bool). Writes s (if b then refused s else collected codec m s sends))
              (sym stop) ([], refl, refl, inl (stop, refl))
        | inr go ↦
            subst (λ (b : Bool). Writes s (if b then refused s else collected codec m s sends))
              (sym go)
              (collected-Writes s sends go
                (collect-Splits s.group_messages true [] s.message_stack))
      ]

  -- The message that `publish` makes is that of the values, or the publisher is as it was.
  abbrev pub Prepares : Publisher → List Variant → Outcome Publisher (List ℕ) → Type 0
  Prepares s values (ok message) = message ≡ body s.signature values
  Prepares s values (refused s') = s' ≡ s
  Prepares s values _ = Unit {0}

  pub prepare-Prepares :
      (s : Publisher) (values : List Variant) → Prepares s values (prepare codec m s values)
  unfolding prepare body
  prepare-Prepares s values = elim (Bool-cases (length values == length s.signature)) [
    | inl same ↦
        rw same (kept (to_binary codec.to_bytes m s.signature values (replicate 1024 0)) refl)
    | inr other ↦ rw other refl
  ]
    where
      kept :
          (o : Outcome (List ℕ) (List ℕ))
          → to_binary codec.to_bytes m s.signature values (replicate 1024 0) ≡ o
          → Prepares s values (prepared codec m s o)
      kept (ok bytes) e = ap made (sym e)
      kept (refused bytes) e = refl
      kept thrown e = tt
      kept fault e = tt
