-- ===== src/Manager/Script.antt =====
-- rpcmple_cpp/include/rpcmple/messageManager.h: `dataFlow` over a connection whose reads are given
-- beforehand.
use rpcmple.Common.{ℕ, suc, ◌≡◌, refl, sym, ap, subst, ◌∙◌, arith}
use rpcmple.Common.{List, [], ◌∷◌, ◌++◌, length, replicate, Option, some}
use rpcmple.Common.{Outcome, ok, refused, thrown, fault, ◌>>=◌, Bool, true, false}
use rpcmple.Common.{if◌then◌else◌, ltb, ◌||◌}
use native.Mathlib.Nat.{le_refl}
use rpcmple.Manager.{Parser, Connection, State, Flow, send, make, init, next_message}
use rpcmple.Manager.Stream.{Frame, view, map_ok, fresh, feed_all, feed_all-append}
use rpcmple.Manager.Rounds.{IsOpen}
use rpcmple.Manager.Chunks.{IsSteady, Ready, ReadyAfter, consume-Consumes, next_message-Ready}
use rpcmple.Manager.DataFlow.{
  Ended, closed, crashed, undefined, left, after_read, outer_round, close, continue, loop, start,
  first_message, data_flow,
}
use rpcmple.Manager.Inbox.{
  Script, take_chunk, read_script, script, join, relabel_frame, feed_all-at,
}

module _ {H : Type 0} (p : Parser H) (accepts : List (List ℕ) → Bool) where
  abbrev k : Connection Script
  k = script accepts

  -- An end of the loop shows the handler and the writes that the bytes lead to one by one.
  abbrev pub Shows : Option (Ended H Script) → Outcome (H × Script) (Frame H Script) → Type 0
  Shows (some (closed s callback)) (ok f) =
      (s.handler ≡ f.handler) × (s.conn.outbox ≡ f.conn.outbox)
  Shows (some (closed s callback)) (refused (h, c)) = (s.handler ≡ h) × (s.conn.outbox ≡ c.outbox)
  Shows (some crashed) thrown = Unit {0}
  Shows (some undefined) fault = Unit {0}
  Shows _ _ = ⊥

  Shows-relabel :
      (xs : List (List ℕ)) (r : Option (Ended H Script)) (o : Outcome (H × Script) (Frame H Script))
      → Shows r (relabel_frame p accepts xs o)
      → Shows r o
  Shows-relabel xs (some (closed s callback)) (ok f) h = h
  Shows-relabel xs (some (closed s callback)) (refused (h', c)) h = h
  Shows-relabel xs (some crashed) thrown h = tt
  Shows-relabel xs (some undefined) fault h = tt
  Shows-relabel xs _ (ok f) h = absurd h
  Shows-relabel xs _ (refused (h', c)) h = absurd h
  Shows-relabel xs _ thrown h = absurd h
  Shows-relabel xs _ fault h = absurd h

  module _ (P : H → Type 0) (steady : IsSteady p k P) (callback : Bool) where
    reads :
        (s : State H Script)
        → Ready p k P steady s
        → outer_round p k s ≡ after_read p k s (take_chunk s.conn.inbox s.conn.outbox)
    unfolding outer_round read_script
    reads s (h, h', q) = rw waiting refl
      where
        waiting : ltb 0 s.message_length ≡ true
        waiting = ground (arith, h.split, h.wanted)

    -- What comes after a chunk that the inner loop has taken.
    behind :
        (xs : List (List ℕ)) (s : State H Script) (flow : Flow p k)
        (o : Outcome (H × Script) (Frame H Script))
        → map_ok view flow ≡ o
        → o ≡ relabel_frame p accepts xs o
        → ReadyAfter p k P steady flow
        → ((s' : State H Script)
            → Ready p k P steady s'
            → s'.conn.inbox ≡ xs
            → Shows
                (loop p k callback (replicate (suc (length xs)) false) s')
                (feed_all p k (view s') (join xs)))
        → Shows
            (continue p k callback
              (left p k s (some flow))
              (loop p k callback (replicate (suc (length xs)) false)))
            (o >>= λ f. feed_all p k f (join xs))
    unfolding close
    behind xs s (ok s') o e e' ready ih =
        rw (← e) (ih s' ready (ap inbox_of (e ∙ e' ∙ ap (relabel_frame p accepts xs) (sym e))))
      where
        inbox_of : Outcome (H × Script) (Frame H Script) → List (List ℕ)
        inbox_of (ok f) = f.conn.inbox
        inbox_of _ = xs
    behind xs s (refused (h, c)) o e e' ready ih = rw (← e) (refl, refl)
    behind xs s thrown o e e' ready ih = rw (← e) tt
    behind xs s fault o e e' ready ih = rw (← e) tt

    loop_step :
        (schedule : List Bool) (xs : List (List ℕ)) (s : State H Script)
        → Ready p k P steady s
        → s.conn.inbox ≡ xs
        → loop p k callback (false ∷ schedule) s
          ≡ continue p k callback
              (after_read p k s (take_chunk xs s.conn.outbox))
              (loop p k callback schedule)
    unfolding loop
    loop_step schedule xs s h e =
        let rest = loop p k callback schedule in
        ap
          (λ (t : Bool).
            if t || false
            then some (close p k callback s)
            else continue p k callback (outer_round p k s) rest)
          h.2
        ∙ ap (λ r. continue p k callback r rest) (reads s h)
        ∙ ap (λ l. continue p k callback (after_read p k s (take_chunk l s.conn.outbox)) rest) e

    -- The loop of `dataFlow` ends when the connection has nothing more to read, and then the
    -- handler is in the state, and the writes are those, that the bytes of all the reads lead to
    -- one by one: neither depends on how the stream was cut into reads. (Nobody asks for a stop
    -- meanwhile, and the handler never waits for an empty message.)
    pub loop-Shows :
        (xs : List (List ℕ)) (s : State H Script)
        → Ready p k P steady s
        → s.conn.inbox ≡ xs
        → Shows
            (loop p k callback (replicate (suc (length xs)) false) s)
            (feed_all p k (view s) (join xs))
    unfolding close feed_all after_read
    loop-Shows [] s h e = rw (loop_step [] [] s h e) (refl, refl)
    loop-Shows (chunk ∷ xs) s h e =
        let c : Script = record { inbox = xs; outbox = s.conn.outbox } in
        let s' : State H Script = record s { conn = c } in
        let open_s' : IsOpen s' = record {
          sized = h.0.sized;
          split = h.0.split;
          wanted = h.0.wanted;
        } in
        let taken =
          consume-Consumes p k P steady (length chunk) s' chunk (open_s', h.1, h.2)
            (le_refl (length chunk)) in
        let schedule = replicate (suc (length xs)) false in
        Shows-relabel xs _ (feed_all p k (view s) (chunk ++ join xs)) (
          subst (Shows (loop p k callback (false ∷ schedule) s))
            (sym (feed_all-append p k (view s') chunk (join xs))
              ∙ feed_all-at p accepts xs (view s) (chunk ++ join xs))
            (rw (loop_step schedule (chunk ∷ xs) s h e, taken.returns)
              (behind xs s taken.flow (feed_all p k (view s') chunk) taken.same
                (feed_all-at p accepts xs (view s') chunk) taken.ready
                λ s'' h'' e''. loop-Shows xs s'' h'' e'')))

    -- The whole of `dataFlow` of a manager that does not send first, from its construction on,
    -- over a connection whose reads are given beforehand, ends, and leaves the handler in the
    -- state, and has made the writes, that the bytes of all the reads lead to one by one: neither
    -- depends on how the stream was cut into reads. In particular nothing is done to the handler
    -- behind the last byte: `stopParser`, which by the comment at messageManager.h:39 is also
    -- called when the other application closes the connection, is not called. The handler waits
    -- for a message that is not empty at all times, and nobody asks for a stop meanwhile.
    pub data_flow-Shows :
        (h : H) (xs : List (List ℕ))
        → P h
        → let c : Script = record { inbox = xs; outbox = [] } in
          Shows
            (data_flow p k callback (replicate (suc (length xs)) false) (make h c false))
            (feed_all p k (fresh p k (h, c)) (join xs))
    unfolding data_flow make start init next_message
    data_flow-Shows h xs waits =
        let c : Script = record { inbox = xs; outbox = [] } in
        let s : State H Script = record (make h c false) { is_initialized = true } in
        loop-Shows xs (next_message p k s) (next_message-Ready p k P steady s waits refl) refl

    -- The same holds of a manager that is to send first and whose handler has nothing to send.
    pub data_flow-Shows_silent :
        (h : H) (xs : List (List ℕ))
        → P h
        → p.write_message h [] ≡ ok (h, [])
        → let c : Script = record { inbox = xs; outbox = [] } in
          Shows
            (data_flow p k callback (replicate (suc (length xs)) false) (make h c true))
            (feed_all p k (fresh p k (h, c)) (join xs))
    unfolding data_flow make start first_message send init next_message
    data_flow-Shows_silent h xs waits silent =
        let c : Script = record { inbox = xs; outbox = [] } in
        let s : State H Script = record (make h c true) { is_initialized = true } in
        rw silent
          (loop-Shows xs (next_message p k s) (next_message-Ready p k P steady s waits refl) refl)
