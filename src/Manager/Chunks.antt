-- ===== src/Manager/Chunks.antt =====
-- The inner loop of `dataFlow` on a chunk of the stream.
use rpcmple.Common.{ℕ, zero, suc, ◌-◌, ◌≤◌, ◌<◌, ◌≡◌, refl, sym, ap, subst, ◌∙◌, arith}
use rpcmple.Common.{
  List, [], ◌∷◌, ◌++◌, length, take, drop, take-append-drop, length-take, length-drop,
}
use rpcmple.Common.{length-append, length-replicate, replicate, drop-append, drop-length}
use rpcmple.Common.{Option, some, ok, refused, thrown, fault, ◌>>=◌}
use rpcmple.Common.{false, Bool-cases, inl, inr, ltb, ltb→lt}
use rpcmple.Manager.{
  Parser, Connection, State, Handled, Flow, handle, next_message, transferred, inner_round, proceed,
  consume,
}
use rpcmple.Manager.Stream.{
  view, map_ok, fresh, deliver, feed_all, feed_all-append, feed_all_short, feed_all_full,
}
use rpcmple.Manager.Rounds.{IsOpen, after, gathered, handled, inner_round_short, inner_round_full}

-- What is asked of a handler: in every state that it comes to it waits for a message that is not
-- empty.
pub record IsSteady {H C : Type 0} (p : Parser H) (k : Connection C) (P : H → Type 0) : Type 0 where
  pub waits : (h : H) → P h → 0 < p.get_message_len h
  pub keeps :
      (bytes : List ℕ) (size : ℕ) (h h' : H) (c c' : C)
      → P h
      → handle p k bytes size h c ≡ ok (h', c')
      → P h'

module _ {H C : Type 0} (p : Parser H) (k : Connection C) (P : H → Type 0)
    (steady : IsSteady p k P) where
  -- A state between two reads.
  abbrev pub Ready : State H C → Type 0
  Ready s = IsOpen s × P s.handler × (s.stop_requested ≡ false)

  abbrev pub ReadyAfter : Flow p k → Type 0
  ReadyAfter (ok s) = Ready s
  ReadyAfter _ = Unit {0}

  -- The loop ends, with what the bytes do one by one.
  pub record Consumes (s : State H C) (chunk : List ℕ) (r : Option (Flow p k)) : Type 0 where
    pub flow : Flow p k
    pub returns : r ≡ some flow
    pub same : map_ok view flow ≡ feed_all p k (view s) chunk
    pub ready : ReadyAfter flow

  pub next_message-Ready :
      (s : State H C) → P s.handler → s.stop_requested ≡ false → Ready (next_message p k s)
  unfolding next_message
  next_message-Ready s h q =
      let len = p.get_message_len s.handler in
      (
        record {
          sized = omega (
            arith,
            length-append (take len s.message) (replicate (len - length s.message) 0),
            length-take len s.message,
            length-replicate (len - length s.message) (zero),
          );
          split = omega arith;
          wanted = steady.waits s.handler h;
        },
        h,
        q,
      )

  consume-nil : (fuel : ℕ) (s : State H C) → consume p k fuel s [] ≡ some (ok s)
  unfolding consume
  consume-nil zero s = refl
  consume-nil (suc fuel) s = refl

  Consumes-nil : (fuel : ℕ) (s : State H C) → Ready s → Consumes s [] (consume p k fuel s [])
  unfolding feed_all
  Consumes-nil fuel s h = record {
    flow = ok s;
    returns = consume-nil fuel s;
    same = refl;
    ready = h;
  }

  consume-suc :
      (fuel : ℕ) (s : State H C) (b : ℕ) (chunk : List ℕ) (n : ℕ) (r : Flow p k)
      → inner_round p k s (b ∷ chunk) ≡ r
      → transferred p k s (b ∷ chunk) ≡ n
      → consume p k (suc fuel) s (b ∷ chunk)
        ≡ proceed p k r (λ s'. consume p k fuel s' (drop n (b ∷ chunk)))
  unfolding consume
  consume-suc fuel s b chunk n r e e' =
      ap
        (λ q.
          proceed p k q
            λ s'. consume p k fuel s' (drop (transferred p k s (b ∷ chunk)) (b ∷ chunk)))
        e
      ∙ ap (λ (i : ℕ). proceed p k r λ s'. consume p k fuel s' (drop i (b ∷ chunk))) e'

  Consumes-short :
      (fuel : ℕ) (s : State H C) (b : ℕ) (chunk : List ℕ)
      → Ready s
      → length (b ∷ chunk) < s.message_missing_bytes
      → Consumes s (b ∷ chunk) (consume p k (suc fuel) s (b ∷ chunk))
  Consumes-short fuel s b chunk (h, h', q) few =
      let (round, seen, ready, count) = inner_round_short p k s h (b ∷ chunk) few in
      record {
        flow = ok (after s (b ∷ chunk));
        returns =
            consume-suc fuel s b chunk (length (b ∷ chunk)) (ok (after s (b ∷ chunk))) round count
            ∙ ap (consume p k fuel (after s (b ∷ chunk))) (drop-length (b ∷ chunk))
            ∙ consume-nil fuel (after s (b ∷ chunk));
        same =
            ap ok seen
            ∙ sym (
                feed_all_short p k (view s) (b ∷ chunk)
                  (omega (arith, h.split, length-take s.message_last_idx s.message)));
        ready = (ready, h', q);
      }

  -- What follows a message that was handled.
  Consumes-rest :
      (s : State H C) (xs rest : List ℕ) (r : Handled p k) (f : State H C → Option (Flow p k))
      → s.stop_requested ≡ false
      → ((h : H) (c : C) → r ≡ ok (h, c) → P h)
      → ((s' : State H C) → Ready s' → Consumes s' rest (f s'))
      → (flow : Flow p k) × (proceed p k (map_ok (handled p k s xs) r) f ≡ some flow)
        × (map_ok view flow ≡ (map_ok (fresh p k) r >>= λ g. feed_all p k g rest))
        × ReadyAfter flow
  unfolding next_message
  Consumes-rest s xs rest (ok (h, c)) f q steady_h ih =
      let next = ih (handled p k s xs (h, c)) (
        next_message-Ready (record (after s xs) { handler = h; conn = c }) (steady_h h c refl) q) in
      (next.flow, next.returns, next.same, next.ready)
  Consumes-rest s xs rest (refused e) f q steady_h ih = (refused e, refl, refl, tt)
  Consumes-rest s xs rest thrown f q steady_h ih = (thrown, refl, refl, tt)
  Consumes-rest s xs rest fault f q steady_h ih = (fault, refl, refl, tt)

  Consumes-full :
      (fuel : ℕ) (s : State H C) (b : ℕ) (xs rest : List ℕ)
      → Ready s
      → length (b ∷ xs) ≡ s.message_missing_bytes
      → ((s' : State H C) → Ready s' → Consumes s' rest (consume p k fuel s' rest))
      → Consumes s (b ∷ (xs ++ rest)) (consume p k (suc fuel) s (b ∷ (xs ++ rest)))
  unfolding deliver
  Consumes-full fuel s b xs rest (h, h', q) exact ih =
      let message : List ℕ = gathered s ++ b ∷ xs in
      let r : Handled p k = handle p k message s.message_length s.handler s.conn in
      let (round, count) = inner_round_full p k s h (b ∷ xs) rest exact in
      let (flow, returns, same, ready) =
        Consumes-rest s (b ∷ xs) rest r (λ s'. consume p k fuel s' rest) q
          (λ h₁ c₁ e. steady.keeps message s.message_length s.handler h₁ s.conn c₁ h' e) ih in
      record {
        flow = flow;
        returns =
            consume-suc fuel s b (xs ++ rest) (length (b ∷ xs)) (map_ok (handled p k s (b ∷ xs)) r)
              round count
            ∙ ap (λ l. proceed p k (map_ok (handled p k s (b ∷ xs)) r) λ s'. consume p k fuel s' l)
                (drop-append (length (b ∷ xs)) (b ∷ xs) rest refl)
            ∙ returns;
        same =
            same
            ∙ sym (
                feed_all-append p k (view s) (b ∷ xs) rest
                ∙ ap (λ g. g >>= λ g'. feed_all p k g' rest)
                    (feed_all_full p k (view s) b xs
                      (omega (arith, h.split, h.sized, length-take s.message_last_idx s.message))));
        ready = ready;
      }

  -- However many bytes come in one read, the inner loop ends within one round for each of them,
  -- and has done to the message and the handler what the bytes do one by one. The state is one
  -- between two reads, and the handler waits for a message that is not empty at all times.
  pub consume-Consumes :
      (fuel : ℕ) (s : State H C) (chunk : List ℕ)
      → Ready s
      → length chunk ≤ fuel
      → Consumes s chunk (consume p k fuel s chunk)
  consume-Consumes fuel s [] h enough = Consumes-nil fuel s h
  consume-Consumes zero s (b ∷ chunk) h enough = absurd (omega arith)
  consume-Consumes (suc fuel) s (b ∷ chunk) h enough =
      elim (Bool-cases (ltb (length (b ∷ chunk)) s.message_missing_bytes)) [
        | inl few ↦ Consumes-short fuel s b chunk h (ltb→lt _ _ few)
        | inr many ↦
            let n : ℕ = s.message_missing_bytes - 1 in
            subst (λ l. Consumes s (b ∷ l) (consume p k (suc fuel) s (b ∷ l)))
              (take-append-drop n chunk)
              (Consumes-full fuel s b (take n chunk) (drop n chunk) h
                (ground (arith, length-take n chunk, h.0.wanted))
                (λ s' h'.
                  consume-Consumes fuel s' (drop n chunk) h' (omega (arith, length-drop n chunk))))
      ]
