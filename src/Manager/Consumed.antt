-- ===== src/Manager/Consumed.antt =====
-- rpcmple_cpp/include/rpcmple/messageManager.h: the inner loop of `dataFlow` over one connection, and over
-- another in its place.
use rpcmple.Common.{ℕ, zero, suc, ◌+◌, ◌-◌, refl, subst, List, [], ◌∷◌, take, length, drop}
use rpcmple.Common.{
  Option, none, some, ok, fault, ◌>>=◌, or_fault, Both, Both-rec, Both-bind, Leaves,
}
use rpcmple.Common.{Bool-cases, inl, inr, ltb, ◌==◌, if◌then◌else◌, overwrite}
use rpcmple.Manager.{
  Parser, Connection, State, Flow, next_message, handle, complete, transfer, transferred,
  inner_round, proceed, consume,
}
use rpcmple.Manager.Simulation.{IsSimulation, over, Same, Same-over, Pair, handle-Both}

module _ {H C D : Type 0} (p : Parser H) (k : Connection C) (k' : Connection D)
    (R S : C → D → Type 0) (B : List ℕ → Type 0) (sim : IsSimulation k k' R S B)
    (law : (h : H) (m : List ℕ) → Leaves (λ (x : H × List ℕ). B x.1) (p.write_message h m)) where
  abbrev P : H × C → H × D → Type 0
  P = Pair p k k' R S B sim law

  -- A handled message is followed by the next one.
  complete-Both :
      (s : State H C) (d : D)
      → R s.conn d
      → Both P (Same R) (complete p k s) (complete p k' (over s d))
  unfolding complete next_message
  complete-Both s d r =
      Both-bind P P (Same R)
        (if ltb (length s.message) s.message_length
          then fault
          else handle p k (take s.message_length s.message) (length s.message) s.handler s.conn)
        (if ltb (length s.message) s.message_length
          then fault
          else handle p k' (take s.message_length s.message) (length s.message) s.handler d)
        _ _
        (elim (Bool-cases (ltb (length s.message) s.message_length)) [
          | inl short ↦ rw short tt
          | inr whole ↦ rw whole (
              handle-Both p k k' R S B sim law (take s.message_length s.message) (length s.message)
                s.handler s.conn d r)
        ])
        λ x y (e, r').
          subst
            (λ (h : H).
              Same R (next_message p k (record s { handler = x.0; conn = x.1 }))
                (next_message p k' (record (over s d) { handler = h; conn = y.1 })))
            e (r', refl)

  transfer-Both :
      (s : State H C) (d : D) (chunk : List ℕ)
      → R s.conn d
      → Both P (Same R) (transfer p k s chunk) (transfer p k' (over s d) chunk)
  unfolding transfer transferred
  transfer-Both s d chunk r = copied (overwrite s.message s.message_last_idx (take n chunk))
    where
      n : ℕ
      n =
          if ltb (length chunk) s.message_missing_bytes
          then length chunk
          else s.message_missing_bytes

      copied :
          (o : Option (List ℕ))
          → Both P
              (Same R)
              (or_fault {E = H × C} o >>= λ m. ok (record s {
                message = m;
                message_last_idx = s.message_last_idx + n;
                message_missing_bytes = s.message_missing_bytes - n;
              }))
              (or_fault {E = H × D} o >>= λ m. ok (record (over s d) {
                message = m;
                message_last_idx = s.message_last_idx + n;
                message_missing_bytes = s.message_missing_bytes - n;
              }))
      copied none = tt
      copied (some m) = (r, refl)

  -- What holds of a state and its copy holds of two that differ in the connection's part.
  pub Same-rec :
      (P : State H C → State H D → Type 0)
      → ((s : State H C) (d : D) → R s.conn d → P s (over s d))
      → (s : State H C) (t : State H D) → Same R s t
      → P s t
  Same-rec = Same-over R

  inner_round-Both :
      (s : State H C) (d : D) (chunk : List ℕ)
      → R s.conn d
      → Both P (Same R) (inner_round p k s chunk) (inner_round p k' (over s d) chunk)
  unfolding inner_round
  inner_round-Both s d chunk r =
      Both-bind P (Same R) (Same R) (transfer p k s chunk) (transfer p k' (over s d) chunk) _ _
        (transfer-Both s d chunk r)
        (Same-rec
          (λ s' t'.
            Both P (Same R) (if s'.message_missing_bytes == 0 then complete p k s' else ok s')
              (if t'.message_missing_bytes == 0 then complete p k' t' else ok t'))
          λ s' d' r'. elim (Bool-cases (s'.message_missing_bytes == 0)) [
            | inl full ↦ rw full (complete-Both s' d' r')
            | inr more ↦ rw more (r', refl)
          ])

  -- Two loops that both run on, or end alike.
  abbrev pub SameFlow : Option (Flow p k) → Option (Flow p k') → Type 0
  SameFlow none none = Unit {0}
  SameFlow (some o) (some o') = Both P (Same R) o o'
  SameFlow _ _ = ⊥

  proceed-SameFlow :
      (o : Flow p k) (o' : Flow p k') (f : State H C → Option (Flow p k))
      (f' : State H D → Option (Flow p k'))
      → Both P (Same R) o o'
      → ((s : State H C) (t : State H D) → Same R s t → SameFlow (f s) (f' t))
      → SameFlow (proceed p k o f) (proceed p k' o' f')
  proceed-SameFlow o o' f f' h next =
      Both-rec P (Same R) (λ o o'. SameFlow (proceed p k o f) (proceed p k' o' f')) next
        (λ e e' q. q) tt tt o o' h

  pub consume-SameFlow :
      (fuel : ℕ) (s : State H C) (d : D) (chunk : List ℕ)
      → R s.conn d
      → SameFlow (consume p k fuel s chunk) (consume p k' fuel (over s d) chunk)
  unfolding consume transferred
  consume-SameFlow fuel s d [] r = (r, refl)
  consume-SameFlow zero s d (b ∷ chunk) r = tt
  consume-SameFlow (suc fuel) s d (b ∷ chunk) r =
      let n : ℕ =
        if ltb (length (b ∷ chunk)) s.message_missing_bytes
        then length (b ∷ chunk)
        else s.message_missing_bytes in
      proceed-SameFlow (inner_round p k s (b ∷ chunk)) (inner_round p k' (over s d) (b ∷ chunk)) _ _
        (inner_round-Both s d (b ∷ chunk) r)
        (Same-rec
          (λ s' t'.
            SameFlow (consume p k fuel s' (drop n (b ∷ chunk)))
              (consume p k' fuel t' (drop n (b ∷ chunk))))
          λ s' d' r'. consume-SameFlow fuel s' d' (drop n (b ∷ chunk)) r')
