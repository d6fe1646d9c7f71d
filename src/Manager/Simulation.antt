-- ===== src/Manager/Simulation.antt =====
-- rpcmple_cpp/include/rpcmple/messageManager.h: one connection in the place of another.
use rpcmple.Common.{ℕ, ◌≡◌, refl, sym, subst, List, [], ◌∷◌, replicate}
use rpcmple.Common.{
  Option, none, some, Outcome, ok, refused, thrown, fault, ◌>>=◌, Both, Both-bind, Leaves,
}
use rpcmple.Common.{Bool, true, false, Bool-cases, inl, inr, ltb, if◌then◌else◌}
use rpcmple.Manager.{Parser, Connection, State, max_message, keep_conn, send, handle}
use rpcmple.Manager.DataFlow.{Ended, closed, crashed, undefined}

-- What two reads give: the same bytes, or nothing, behind which the loop is left.
abbrev pub Reads :
    {C D : Type 0}
    → (C → D → Type 0)
    → (C → D → Type 0)
    → C × Option (List ℕ)
    → D × Option (List ℕ)
    → Type 0
Reads R L (c, none) (d, none) = L c d
Reads R L (c, some chunk) (d, some chunk') = R c d × (chunk ≡ chunk')
Reads R L _ _ = ⊥

-- The states of two connections that answer alike, and their states when they have been closed. B
-- says what is written.
pub record IsSimulation {C D : Type 0} (k : Connection C) (k' : Connection D) (R S : C → D → Type 0)
    (B : List ℕ → Type 0) : Type 0 where
  pub writes :
      (c : C) (d : D) (b : ℕ) (bytes : List ℕ)
      → B (b ∷ bytes)
      → R c d
      → R (k.write c (b ∷ bytes)).0 (k'.write d (b ∷ bytes)).0
        × ((k.write c (b ∷ bytes)).1 ≡ (k'.write d (b ∷ bytes)).1)
  pub reads :
      (c : C) (d : D)
      → R c d
      → Reads R (λ c d. S (k.close c) (k'.close d)) (k.read c max_message) (k'.read d max_message)
  pub closes : (c : C) (d : D) → R c d → S (k.close c) (k'.close d)

-- A state with the connection's part exchanged.
abbrev pub over : {H C D : Type 0} → State H C → D → State H D
over s d = record {
  is_initialized = s.is_initialized;
  is_requester = s.is_requester;
  stop_requested = s.stop_requested;
  message = s.message;
  message_last_idx = s.message_last_idx;
  message_length = s.message_length;
  message_missing_bytes = s.message_missing_bytes;
  handler = s.handler;
  conn = d;
}

-- Two states of a manager that differ in the connection's part at most.
abbrev pub Same : {H C D : Type 0} → (C → D → Type 0) → State H C → State H D → Type 0
Same R s t = R s.conn t.conn × (t ≡ over s t.conn)

pub Same-over :
    {H C D : Type 0} (Q : C → D → Type 0) (P : State H C → State H D → Type 0)
    → ((s : State H C) (d : D) → Q s.conn d → P s (over s d))
    → (s : State H C) (t : State H D) → Same Q s t
    → P s t
Same-over Q P h s t (r, e) = subst (P s) (sym e) (h s t.conn r)

abbrev pub SameEnd :
    {H C D : Type 0} → (C → D → Type 0) → Option (Ended H C) → Option (Ended H D) → Type 0
SameEnd S none none = Unit {0}
SameEnd S (some (closed s callback)) (some (closed t callback')) =
    Same S s t × (callback ≡ callback')
SameEnd S (some crashed) (some crashed) = Unit {0}
SameEnd S (some undefined) (some undefined) = Unit {0}
SameEnd S _ _ = ⊥

module _ {H C D : Type 0} (p : Parser H) (k : Connection C) (k' : Connection D)
    (R S : C → D → Type 0) (B : List ℕ → Type 0) (sim : IsSimulation k k' R S B)
    (law : (h : H) (m : List ℕ) → Leaves (λ (x : H × List ℕ). B x.1) (p.write_message h m)) where
  abbrev pub Pair : H × C → H × D → Type 0
  Pair (h, c) (h', d) = (h ≡ h') × R c d

  pub keep_conn-Both :
      {A : Type 0} (c : C) (d : D) (o : Outcome H A)
      → R c d
      → Both Pair ◌≡◌ (keep_conn p k c o) (keep_conn p k' d o)
  keep_conn-Both c d (ok a) r = refl
  keep_conn-Both c d (refused h) r = (refl, r)
  keep_conn-Both c d thrown r = tt
  keep_conn-Both c d fault r = tt

  -- What the handler writes.
  abbrev pub Wrote : H × List ℕ → H × List ℕ → Type 0
  Wrote x y = (x ≡ y) × B x.1

  outcome-Both :
      (c : C) (d : D) (o : Outcome H (H × List ℕ))
      → R c d
      → Leaves (λ (x : H × List ℕ). B x.1) o
      → Both Pair Wrote (keep_conn p k c o) (keep_conn p k' d o)
  outcome-Both c d (ok a) r h = (refl, h)
  outcome-Both c d (refused e) r h = (refl, r)
  outcome-Both c d thrown r h = tt
  outcome-Both c d fault r h = tt

  pub write_message-Both :
      (h : H) (m : List ℕ) (c : C) (d : D)
      → R c d
      → Both Pair Wrote
          (keep_conn p k c (p.write_message h m))
          (keep_conn p k' d (p.write_message h m))
  write_message-Both h m c d r = outcome-Both c d (p.write_message h m) r (law h m)

  sent-Both :
      (h : H) (x : C × Bool) (y : D × Bool)
      → R x.0 y.0
      → x.1 ≡ y.1
      → Both Pair Pair
          (if x.1 then ok (h, x.0) else refused (h, x.0))
          (if y.1 then ok (h, y.0) else refused (h, y.0))
  sent-Both h (c, true) (d, true) r e = (refl, r)
  sent-Both h (c, true) (d, false) r e = absurd (cc)
  sent-Both h (c, false) (d, true) r e = absurd (cc)
  sent-Both h (c, false) (d, false) r e = (refl, r)

  pub send-Both :
      (size : ℕ) (bytes : List ℕ) (h : H) (c : C) (d : D)
      → B bytes
      → R c d
      → Both Pair Pair (send p k size bytes h c) (send p k' size bytes h d)
  unfolding send
  send-Both size [] h c d written r = (refl, r)
  send-Both size (b ∷ bytes) h c d written r = elim (Bool-cases (ltb max_message size)) [
    | inl big ↦ rw big (refl, r)
    | inr small ↦
        let (next, same) = sim.writes c d b bytes written r in
        rw small (sent-Both h (k.write c (b ∷ bytes)) (k'.write d (b ∷ bytes)) next same)
  ]

  pub handle-Both :
      (bytes : List ℕ) (size : ℕ) (h : H) (c : C) (d : D)
      → R c d
      → Both Pair Pair (handle p k bytes size h c) (handle p k' bytes size h d)
  unfolding handle
  handle-Both bytes size h c d r =
      Both-bind Pair ◌≡◌ Pair (keep_conn p k c (p.parse_message h bytes))
        (keep_conn p k' d (p.parse_message h bytes)) _ _
        (keep_conn-Both c d (p.parse_message h bytes) r)
        λ h₁ h₂ e.
          subst
            (λ (x : H).
              Both Pair Pair
                (keep_conn p k c (p.write_message h₁ (replicate 1024 0)) >>= λ (h'', reply).
                  send p k size reply h'' c)
                (keep_conn p k' d (p.write_message x (replicate 1024 0)) >>= λ (h'', reply).
                  send p k' size reply h'' d))
            e (replied h₁)
    where
      replied :
          (h₁ : H)
          → Both Pair Pair
              (keep_conn p k c (p.write_message h₁ (replicate 1024 0)) >>= λ (h'', reply).
                send p k size reply h'' c)
              (keep_conn p k' d (p.write_message h₁ (replicate 1024 0)) >>= λ (h'', reply).
                send p k' size reply h'' d)
      replied h₁ =
          Both-bind Pair Wrote Pair (keep_conn p k c (p.write_message h₁ (replicate 1024 0)))
            (keep_conn p k' d (p.write_message h₁ (replicate 1024 0))) _ _
            (write_message-Both h₁ (replicate 1024 0) c d r)
            λ x y (e', written).
              subst
                (λ (z : H × List ℕ).
                  Both Pair Pair (send p k size x.1 x.0 c) (send p k' size z.1 z.0 d))
                e' (send-Both size x.1 x.0 c d written r)
