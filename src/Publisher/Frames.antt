-- ===== src/Publisher/Frames.antt =====
-- rpcmple_cpp/include/rpcmple/dataPublisher.h: what `writeMessage` sends.
use rpcmple.Common.{ℕ, ◌+◌, ◌≤◌, ◌<◌, ◌≡◌, refl, sym, ap, subst, ◌∙◌, arith, ◌⊎◌}
use rpcmple.Common.{List, [], ◌∷◌, ◌++◌, append-nil, append_assoc, length, length-append, All}
use rpcmple.Common.{some, ok}
use rpcmple.Common.{Bool, true, false, Bool-cases, inl, inr, ltb}
use rpcmple.Endian.{le_bytes}
use rpcmple.Signature.{Codec}
use rpcmple.Header.{header_val, put_message, put_message-append}
use rpcmple.Publisher.{Publisher, collect, write_message}

-- A message behind its header, and messages one behind the other.
abbrev pub frame : List ℕ → List ℕ
frame message = le_bytes 4 (header_val 1 (length message)) ++ message

abbrev pub frames : List (List ℕ) → List ℕ
frames [] = []
frames (message ∷ stack) = frame message ++ frames stack

-- What the header can tell, by the sender's own test.
abbrev pub IsShort : List ℕ → Type 0
IsShort message = length message ≤ 16777216

module _ (codec : Codec) (m : Bool) where
  pub put_frame :
      (out message : List ℕ)
      → put_message m 1 message (length out) out ≡ some (out ++ frame message)
  put_frame out message =
      subst (λ l. put_message m 1 message (length out) l ≡ some (out ++ frame message))
        (append-nil out) (put_message-append m 1 message out [])

  -- One round of the loop.
  collect_one :
      (group grouping : Bool) (out message : List ℕ) (stack : List (List ℕ))
      → grouping ≡ true
      → length out < 1024
      → IsShort message
      → collect codec m group grouping (length out) out (message ∷ stack)
        ≡ collect codec m group group (length (out ++ frame message)) (out ++ frame message) stack
  unfolding collect
  collect_one group grouping out message stack on room short =
      let open_ : ltb (length out) 1024 ≡ true = ground arith in
      let small : ltb 16777216 (length message) ≡ false = ground arith in
      let next : length out + 4 + length message ≡ length (out ++ frame message) =
        omega (arith, length-append out (frame message)) in
      rw (on, open_, small, put_frame out message, next) refl

  -- The loop without grouping stops after the first message.
  collect_stops :
      (group : Bool) (offset : ℕ) (out : List ℕ) (stack : List (List ℕ))
      → collect codec m group false offset out stack ≡ ok (out, stack)
  unfolding collect
  collect_stops group offset out [] = refl
  collect_stops group offset out (message ∷ stack) = refl

  -- A publisher that does not group messages, and has not been asked to stop, sends the oldest
  -- message of its stack behind its header, and keeps the others in their order. The message has
  -- no more than 16777216 bytes.
  pub write_message_single :
      (s : Publisher) (message : List ℕ) (stack : List (List ℕ))
      → s.stop_wait ≡ false
      → s.group_messages ≡ false
      → s.message_stack ≡ message ∷ stack
      → IsShort message
      → write_message codec m s [] ≡ ok (record s { message_stack = stack }, frame message)
  unfolding write_message
  write_message_single s message stack running single here short =
      rw
        (
          running,
          here,
          single,
          collect_one false true [] message stack refl (omega arith) short,
          collect_stops false (length (frame message)) (frame message) stack,
        )
        refl

  -- What the loop with grouping takes from the stack and what it leaves.
  pub record Grouped (out : List ℕ) (stack : List (List ℕ)) : Type 0 where
    pub taken : List (List ℕ)
    pub rest : List (List ℕ)
    pub in_order : taken ++ rest ≡ stack
    pub result : collect codec m true true (length out) out stack ≡ ok (out ++ frames taken, rest)
    pub full : (rest ≡ []) ⊎ (1024 ≤ length (out ++ frames taken))

  collect-Grouped : (out : List ℕ) (stack : List (List ℕ)) → All IsShort stack → Grouped out stack
  unfolding collect
  collect-Grouped out [] h = record {
    taken = [];
    rest = [];
    in_order = refl;
    result = ap (λ l. ok (l, [])) (sym (append-nil out));
    full = inl refl;
  }
  collect-Grouped out (message ∷ stack) h = elim (Bool-cases (ltb (length out) 1024)) [
    | inl room ↦
        let next = collect-Grouped (out ++ frame message) stack h.1 in
        let joined : (out ++ frame message) ++ frames next.taken
            ≡ out ++ frames (message ∷ next.taken) =
          append_assoc out (frame message) (frames next.taken) in
        record {
          taken = message ∷ next.taken;
          rest = next.rest;
          in_order = ap (◌∷◌ message) next.in_order;
          result =
              collect_one true true out message stack refl (ground (arith, room)) h.0
              ∙ next.result
              ∙ ap (λ l. ok (l, next.rest)) joined;
          full = subst (λ l. (next.rest ≡ []) ⊎ (1024 ≤ length l)) joined next.full;
        }
    | inr full ↦ record {
      taken = [];
      rest = message ∷ stack;
      in_order = refl;
      result = rw full (ap (λ l. ok (l, message ∷ stack)) (sym (append-nil out)));
      full = inr (ground (arith, full, append-nil out, length-append out (frames [])));
    }
  ]

  -- A publisher that groups messages, and has not been asked to stop, sends messages from the
  -- front of its stack, in their order, each behind its header, and keeps the others: it takes
  -- them all, or enough for 1024 bytes. No message has more than 16777216 bytes.
  pub write_message_grouped :
      (s : Publisher)
      → s.stop_wait ≡ false
      → s.group_messages ≡ true
      → All IsShort s.message_stack
      → (taken : List (List ℕ)) × (rest : List (List ℕ)) × (taken ++ rest ≡ s.message_stack)
        × (write_message codec m s [] ≡ ok (record s { message_stack = rest }, frames taken))
        × ((rest ≡ []) ⊎ (1024 ≤ length (frames taken)))
  unfolding write_message
  write_message_grouped s running grouped short =
      let g = collect-Grouped [] s.message_stack short in
      (g.taken, g.rest, g.in_order, rw (running, grouped, g.result) refl, g.full)
