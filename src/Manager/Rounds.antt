-- ===== src/Manager/Rounds.antt =====
-- One round of the inner loop of `dataFlow`, seen as bytes of the stream.
use rpcmple.Common.{ℕ, ◌+◌, ◌-◌, ◌≤◌, ◌<◌, ◌≡◌, refl, sym, ap, subst, ◌∙◌, arith}
use rpcmple.Common.{List, ◌++◌, append_assoc, length, take, drop}
use rpcmple.Common.{
  length-append, length-take, take-append-drop, length-drop, take-append, take-length,
}
use rpcmple.Common.{some, ok}
use rpcmple.Common.{true, false, overwrite, overwrite-append, ltb, ◌==◌}
use rpcmple.Manager.{
  Parser, Connection, State, handle, next_message, complete, transferred, transfer, inner_round,
}
use rpcmple.Manager.Stream.{view, map_ok}

-- Between two rounds of the inner loop: the vector has the size of the message, and the message
-- is not complete.
pub record IsOpen {H C : Type 0} (s : State H C) : Type 0 where
  pub sized : length s.message ≡ s.message_length
  pub split : s.message_last_idx + s.message_missing_bytes ≡ s.message_length
  pub wanted : 0 < s.message_missing_bytes

-- What has been gathered of the message, and the state with more bytes of it.
abbrev pub gathered : {H C : Type 0} → State H C → List ℕ
gathered s = take s.message_last_idx s.message

abbrev pub after : {H C : Type 0} → State H C → List ℕ → State H C
after s xs = record s {
  message = gathered s ++ (xs ++ drop (length xs) (drop s.message_last_idx s.message));
  message_last_idx = s.message_last_idx + length xs;
  message_missing_bytes = s.message_missing_bytes - length xs;
}

-- The state behind a message that was handled.
abbrev pub handled :
    {H C : Type 0} → Parser H → Connection C → State H C → List ℕ → H × C → State H C
handled p k s xs (h, c) = next_message p k (record (after s xs) { handler = h; conn = c })

module _ {H C : Type 0} (p : Parser H) (k : Connection C) (s : State H C) (open_s : IsOpen s) where
  length-gathered : length (gathered s) ≡ s.message_last_idx
  length-gathered =
      omega (arith, length-take s.message_last_idx s.message, open_s.sized, open_s.split)

  length-spare : length (drop s.message_last_idx s.message) ≡ s.message_missing_bytes
  length-spare = omega (arith, length-drop s.message_last_idx s.message, open_s.sized, open_s.split)

  copied :
      (xs : List ℕ)
      → length xs ≤ s.message_missing_bytes
      → overwrite s.message s.message_last_idx xs ≡ some (after s xs).message
  copied xs h =
      subst (λ (m : List ℕ). overwrite m s.message_last_idx xs ≡ some (after s xs).message)
        (take-append-drop s.message_last_idx s.message)
        (subst
          (λ (i : ℕ).
            overwrite (gathered s ++ drop s.message_last_idx s.message) i xs
            ≡ some (after s xs).message)
          length-gathered
          (overwrite-append (gathered s) (drop s.message_last_idx s.message) xs
            (omega (arith, length-spare))))

  length-after :
      (xs : List ℕ)
      → length xs ≤ s.message_missing_bytes
      → length (after s xs).message ≡ s.message_length
  length-after xs h = omega (
    arith,
    open_s.split,
    length-gathered,
    length-spare,
    length-append (gathered s) (xs ++ drop (length xs) (drop s.message_last_idx s.message)),
    length-append xs (drop (length xs) (drop s.message_last_idx s.message)),
    length-drop (length xs) (drop s.message_last_idx s.message),
  )

  take-after :
      (xs : List ℕ) → take (s.message_last_idx + length xs) (after s xs).message ≡ gathered s ++ xs
  take-after xs =
      ap (take (s.message_last_idx + length xs))
        (sym (append_assoc (gathered s) xs (drop (length xs) (drop s.message_last_idx s.message))))
      ∙ take-append (s.message_last_idx + length xs) (gathered s ++ xs) _
          (omega (arith, length-append (gathered s) xs, length-gathered))

  -- Fewer bytes than are missing: they are put behind the others.
  pub inner_round_short :
      (chunk : List ℕ)
      → length chunk < s.message_missing_bytes
      → (inner_round p k s chunk ≡ ok (after s chunk))
        × (view (after s chunk) ≡ record (view s) { collected = gathered s ++ chunk })
        × IsOpen (after s chunk)
        × (transferred p k s chunk ≡ length chunk)
  unfolding inner_round transfer transferred
  inner_round_short chunk h = (
    rw (n_eq, take-length (length chunk) chunk (omega arith), copied chunk (omega arith), still)
        refl,
    ap (λ l. record (view s) { collected = l }) (take-after chunk),
    record {
      sized = length-after chunk (omega arith);
      split = omega (arith, open_s.split);
      wanted = omega arith;
    },
    rw n_eq refl,
  )
    where
      n_eq : ltb (length chunk) s.message_missing_bytes ≡ true
      n_eq = ground arith

      still : (s.message_missing_bytes - length chunk == 0) ≡ false
      still = ground arith

  complete_lem :
      (xs : List ℕ)
      → length xs ≡ s.message_missing_bytes
      → complete p k (after s xs)
        ≡ map_ok
            (handled p k s xs)
            (handle p k (gathered s ++ xs) s.message_length s.handler s.conn)
  unfolding complete
  complete_lem xs h = rw (length-after xs (omega arith), fits, whole) refl
    where
      fits : ltb s.message_length s.message_length ≡ false
      fits = ground arith

      whole : take s.message_length (after s xs).message ≡ gathered s ++ xs
      whole =
          let size : s.message_length ≡ s.message_last_idx + length xs =
            omega (arith, open_s.split) in
          ap (λ (n : ℕ). take n (after s xs).message) size ∙ take-after xs

  -- Enough bytes: as many as are missing complete the message, which is handled.
  pub inner_round_full :
      (xs rest : List ℕ)
      → length xs ≡ s.message_missing_bytes
      → (inner_round p k s (xs ++ rest)
          ≡ map_ok
              (handled p k s xs)
              (handle p k (gathered s ++ xs) s.message_length s.handler s.conn))
        × (transferred p k s (xs ++ rest) ≡ length xs)
  unfolding inner_round transfer transferred
  inner_round_full xs rest h = (
    rw (n_eq, ← h, take-append (length xs) xs rest refl, copied xs (omega arith), last)
        (complete_lem xs h),
    rw n_eq (sym h),
  )
    where
      n_eq : ltb (length (xs ++ rest)) s.message_missing_bytes ≡ false
      n_eq = ground (arith, length-append xs rest)

      last : (length xs - length xs == 0) ≡ true
      last = ground arith
