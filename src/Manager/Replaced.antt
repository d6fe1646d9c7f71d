-- ===== src/Manager/Replaced.antt =====
-- rpcmple_cpp/include/rpcmple/messageManager.h: `dataFlow` over one connection, and over another in its
-- place.
use rpcmple.Common.{ℕ, ◌≡◌, refl, subst, List, [], ◌∷◌, length}
use rpcmple.Common.{Option, none, some, Both, Both-rec, Both-bind}
use rpcmple.Common.{Leaves, Bool, true, false, Bool-cases, inl, inr, ltb, ◌||◌, if◌then◌else◌}
use rpcmple.Manager.{
  Parser, Connection, State, Flow, Handled, max_message, init, keep_conn, send, consume,
  next_message,
}
use rpcmple.Manager.DataFlow.{
  Ended, closed, crashed, undefined, Turn, first_message, begun, stopped, start, left, after_read,
  sent, send_only, outer_round, close, continue, loop, data_flow,
}
use rpcmple.Manager.Consumed.{Same-rec, SameFlow, consume-SameFlow}
use rpcmple.Manager.Simulation.{
  IsSimulation, Reads, over, Same, Same-over, SameEnd, Pair, Wrote, write_message-Both, send-Both,
}

-- What is known of a run whose other connection has been closed.
pub SameEnd-closed :
    {H C D : Type 0} (S : C → D → Type 0) (r : Option (Ended H C)) (t : State H D) (callback : Bool)
    → SameEnd S r (some (closed t callback))
    → (s : State H C) × (callback' : Bool) × (r ≡ some (closed s callback')) × Same S s t
SameEnd-closed S (some (closed s callback')) t callback h = (s, callback', refl, h.0)
SameEnd-closed S (some crashed) t callback h = absurd h
SameEnd-closed S (some undefined) t callback h = absurd h
SameEnd-closed S none t callback h = absurd h

-- Two tests of the same Boolean.
if-both :
    {A B : Type 0} (P : A → B → Type 0) (b : Bool) (x x' : A) (y y' : B)
    → P x y
    → P x' y'
    → P (if b then x else x') (if b then y else y')
if-both P true x x' y y' h h' = h
if-both P false x x' y y' h h' = h'

module _ {H C D : Type 0} (p : Parser H) (k : Connection C) (k' : Connection D)
    (R S : C → D → Type 0) (B : List ℕ → Type 0) (sim : IsSimulation k k' R S B)
    (law : (h : H) (m : List ℕ) → Leaves (λ (x : H × List ℕ). B x.1) (p.write_message h m)) where
  abbrev P : H × C → H × D → Type 0
  P = Pair p k k' R S B sim law

  abbrev Wrote_ : H × List ℕ → H × List ℕ → Type 0
  Wrote_ = Wrote p k k' R S B sim law

  first_message-Both :
      (h : H) (c : C) (d : D) → R c d → Both P P (first_message p k h c) (first_message p k' h d)
  unfolding first_message
  first_message-Both h c d r =
      Both-bind P Wrote_ P (keep_conn p k c (p.write_message h []))
        (keep_conn p k' d (p.write_message h [])) _ _
        (write_message-Both p k k' R S B sim law h [] c d r)
        λ x y (e, written).
          subst
            (λ (z : H × List ℕ).
              Both P P (send p k (length x.1) x.1 x.0 c) (send p k' (length z.1) z.1 z.0 d))
            e (send-Both p k k' R S B sim law (length x.1) x.1 x.0 c d written r)

  send_only-Both :
      (h : H) (c : C) (d : D) → R c d → Both P P (send_only p k h c) (send_only p k' h d)
  unfolding send_only
  send_only-Both h c d r =
      Both-bind P Wrote_ P (keep_conn p k c (p.write_message h []))
        (keep_conn p k' d (p.write_message h [])) _ _
        (write_message-Both p k k' R S B sim law h [] c d r)
        λ x y (e, written).
          subst (λ (z : H × List ℕ). Both P P (send p k 0 x.1 x.0 c) (send p k' 0 z.1 z.0 d)) e
            (send-Both p k k' R S B sim law 0 x.1 x.0 c d written r)

  -- Connections that closing relates.
  abbrev L : C → D → Type 0
  L c d = S (k.close c) (k'.close d)

  -- A turn of the outer loop that goes on, or leaves it.
  abbrev Turns : Turn p k → Turn p k' → Type 0
  Turns o o' = Both (Same L) (Same R) o o'

  -- The handler and the connection's part are put into the state.
  put-Same :
      (Q : C → D → Type 0) (f : H → C → State H C) (f' : H → D → State H D)
      → ((h : H) (c : C) (d : D) → R c d → Same Q (f h c) (f' h d))
      → (x : H × C) (y : H × D) → P x y
      → Same Q (f x.0 x.1) (f' y.0 y.1)
  put-Same Q f f' same (h, c) (h', d) (e, r) =
      subst (λ (i : H). Same Q (f h c) (f' i d)) e (same h c d r)

  begun-Turns :
      (s : State H C) (d : D) (o : Handled p k) (o' : Handled p k')
      → Both P P o o'
      → Turns (begun p k s o) (begun p k' (over s d) o')
  begun-Turns s d =
      Both-rec P P (λ o o'. Turns (begun p k s o) (begun p k' (over s d) o'))
        (put-Same R (λ h c. record s { handler = h; conn = c })
          (λ h c. record (over s d) { handler = h; conn = c }) (λ h c d' r. (r, refl)))
        (put-Same R (λ h c. stopped p k s (h, c)) (λ h c. stopped p k' (over s d) (h, c))
          (λ h c d' r. (r, refl)))
        tt tt

  start-Turns : (s : State H C) (d : D) → R s.conn d → Turns (start p k s) (start p k' (over s d))
  unfolding start
  start-Turns s d r =
      if-both Turns s.is_requester _ _ _ _
        (begun-Turns s d _ _ (first_message-Both s.handler s.conn d r)) (r, refl)

  sent-Turns :
      (s : State H C) (d : D) (o : Handled p k) (o' : Handled p k')
      → Both P P o o'
      → Turns (sent p k s o) (sent p k' (over s d) o')
  sent-Turns s d =
      Both-rec P P (λ o o'. Turns (sent p k s o) (sent p k' (over s d) o'))
        (put-Same R
          (λ h c. record s {
            message_last_idx = 0;
            message_length = p.get_message_len h;
            message_missing_bytes = p.get_message_len h;
            handler = h;
            conn = c;
          })
          (λ h c. record (over s d) {
            message_last_idx = 0;
            message_length = p.get_message_len h;
            message_missing_bytes = p.get_message_len h;
            handler = h;
            conn = c;
          })
          (λ h c d' r. (r, refl)))
        (put-Same L (λ h c. stopped p k s (h, c)) (λ h c. stopped p k' (over s d) (h, c))
          (λ h c d' r. (sim.closes c d' r, refl)))
        tt tt

  abbrev MayTurn : Option (Turn p k) → Option (Turn p k') → Type 0
  MayTurn none none = Unit {0}
  MayTurn (some o) (some o') = Turns o o'
  MayTurn _ _ = ⊥

  left-MayTurn :
      (s : State H C) (d : D) (o : Option (Flow p k)) (o' : Option (Flow p k'))
      → SameFlow p k k' R S B sim law o o'
      → MayTurn (left p k s o) (left p k' (over s d) o')
  left-MayTurn s d none none h = tt
  left-MayTurn s d (some o) (some o') h =
      Both-rec P (Same R) (λ o o'. MayTurn (left p k s (some o)) (left p k' (over s d) (some o')))
        (λ s' t' q. q)
        (put-Same L (λ h c. stopped p k s (h, c)) (λ h c. stopped p k' (over s d) (h, c))
          (λ h c d' r. (sim.closes c d' r, refl)))
        tt tt o o' h
  left-MayTurn s d none (some o') h = absurd h
  left-MayTurn s d (some o) none h = absurd h

  after_read-MayTurn :
      (s : State H C) (d : D) (x : C × Option (List ℕ)) (y : D × Option (List ℕ))
      → Reads R L x y
      → MayTurn (after_read p k s x) (after_read p k' (over s d) y)
  unfolding after_read
  after_read-MayTurn s d (c, none) (d', none) closes = (closes, refl)
  after_read-MayTurn s d (c, some chunk) (d', some chunk') (r, same) =
      subst
        (λ (l : List ℕ).
          MayTurn (left p k s (consume p k (length chunk) (record s { conn = c }) chunk))
            (left p k' (over s d) (consume p k' (length l) (record (over s d) { conn = d' }) l)))
        same
        (left-MayTurn s d _ _
          (consume-SameFlow p k k' R S B sim law (length chunk) (record s { conn = c }) d' chunk r))
  after_read-MayTurn s d (c, none) (d', some chunk) h = absurd h
  after_read-MayTurn s d (c, some chunk) (d', none) h = absurd h

  outer_round-MayTurn :
      (s : State H C) (d : D)
      → R s.conn d
      → MayTurn (outer_round p k s) (outer_round p k' (over s d))
  unfolding outer_round
  outer_round-MayTurn s d r = elim (Bool-cases (ltb 0 s.message_length)) [
    | inl waits ↦ rw waits (
        after_read-MayTurn s d (k.read s.conn max_message) (k'.read d max_message)
          (sim.reads s.conn d r))
    | inr sends ↦ rw sends (sent-Turns s d _ _ (send_only-Both s.handler s.conn d r))
  ]

  continue-SameEnd :
      (callback : Bool) (o : Option (Turn p k)) (o' : Option (Turn p k'))
      (f : State H C → Option (Ended H C)) (f' : State H D → Option (Ended H D))
      → MayTurn o o'
      → ((s : State H C) (d : D) → R s.conn d → SameEnd S (f s) (f' (over s d)))
      → SameEnd S (continue p k callback o f) (continue p k' callback o' f')
  unfolding close
  continue-SameEnd callback none none f f' h next = tt
  continue-SameEnd callback (some o) (some o') f f' h next =
      Both-rec (Same L) (Same R)
        (λ o o'. SameEnd S (continue p k callback (some o) f) (continue p k' callback (some o') f'))
        (Same-rec p k k' R S B sim law (λ s t. SameEnd S (f s) (f' t)) next)
        (Same-over L (λ s t. SameEnd S (some (close p k callback s)) (some (close p k' callback t)))
          λ s d closes. ((closes, refl), refl))
        tt tt o o' h
  continue-SameEnd callback none (some o') f f' h next = absurd h
  continue-SameEnd callback (some o) none f f' h next = absurd h

  loop-SameEnd :
      (callback : Bool) (schedule : List Bool) (s : State H C) (d : D)
      → R s.conn d
      → SameEnd S (loop p k callback schedule s) (loop p k' callback schedule (over s d))
  unfolding loop close
  loop-SameEnd callback [] s d r = tt
  loop-SameEnd callback (asked ∷ schedule) s d r = elim (Bool-cases (s.stop_requested || asked)) [
    | inl stop ↦ rw stop ((sim.closes s.conn d r, refl), refl)
    | inr go ↦ rw go (
        continue-SameEnd callback (outer_round p k s) (outer_round p k' (over s d)) _ _
          (outer_round-MayTurn s d r) λ s' d' r'. loop-SameEnd callback schedule s' d' r')
  ]

  begins-SameEnd :
      (callback : Bool) (schedule : List Bool) (s : State H C) (d : D)
      → R s.conn d
      → SameEnd S
          (continue p k callback (some (start p k s)) (loop p k callback schedule))
          (continue p k' callback (some (start p k' (over s d))) (loop p k' callback schedule))
  begins-SameEnd callback schedule s d r =
      continue-SameEnd callback (some (start p k s)) (some (start p k' (over s d)))
        (loop p k callback schedule) (loop p k' callback schedule) (start-Turns s d r)
        λ s' d' r'. loop-SameEnd callback schedule s' d' r'

  -- `dataFlow` over one connection ends as it does over another that answers alike: for any
  -- manager, any state and any requests to stop, either both still run, or both end by an
  -- exception, or both by undefined behaviour, or both are closed with the same state of the
  -- manager and the same use of the callback, and the connections are related as closing leaves
  -- them. From any related states the two connections give the same result to a `write` of what
  -- the manager may write and stay related, and give the same bytes to `read` and stay related, or
  -- both fail and can then be closed; what the manager's `writeMessage` gives is of that kind.
  pub data_flow-SameEnd :
      (callback : Bool) (schedule : List Bool) (s : State H C) (d : D)
      → R s.conn d
      → SameEnd S (data_flow p k callback schedule s) (data_flow p k' callback schedule (over s d))
  unfolding data_flow init next_message
  data_flow-SameEnd callback schedule s d r =
      Same-rec p k k' R S B sim law
        (λ s t.
          SameEnd S (continue p k callback (some (start p k s)) (loop p k callback schedule))
            (continue p k' callback (some (start p k' t)) (loop p k' callback schedule)))
        (begins-SameEnd callback schedule) (if s.is_initialized then s else init p k s)
        (if s.is_initialized then over s d else init p k' (over s d))
        (if-both (Same R) s.is_initialized s (init p k s) (over s d) (init p k' (over s d))
          (r, refl) (r, refl))
