-- ===== src/Client/Stages.antt =====
-- rpcmple_cpp/include/rpcmple/rpcClient.h: the four stages of a call, and how the steps lead from one to
-- the next.
use rpcmple.Common.{ℕ, suc, ◌≡◌, refl, sym, ap, subst, ◌∙◌, ◌⊎◌, inl, inr, arith}
use rpcmple.Common.{
  Bool, true, false, ◌==◌, if◌then◌else◌, List, [], ◌∷◌, ◌++◌, length, length-append, ok, refused,
}
use rpcmple.Common.{◌&&◌, ◌||◌, not}
use rpcmple.Variant.{Variant}
use rpcmple.Signature.{Codec}
use rpcmple.Client.{Client, RemoteProcedure, awaits_call, may_send, has_reply}
use rpcmple.Client.Steps.{
  Phase, idle, admitted, waiting, Flow, sending, receiving, ended, Calling, request_of, put,
  replies_behind, Step, admits, posts, post_fails, writes, parses, breaks, takes, take_fails,
}
use rpcmple.Client.Effects.{
  Flags, Posts, post-Posts, Writes, write_message-Writes, write_message-between, Parses,
  parse_message-Parses, Takes, take_reply-Takes,
}

abbrev IsCalm : Phase → Type 0
IsCalm (waiting proc) = ⊥
IsCalm _ = Unit {0}

abbrev IsWaiting : Phase → Type 0
IsWaiting (waiting proc) = Unit {0}
IsWaiting _ = ⊥

abbrev At : Flow → Flow → Type 0
At f flow = (flow ≡ f) ⊎ (flow ≡ ended)

-- The flow reads the reply, or is in `writeMessage` between its header and its body.
abbrev Hears : Calling → Type 0
Hears s = At receiving s.flow ⊎ ((s.flow ≡ sending) × (s.client.section_id ≡ 1))

-- No call is under way; one has been posted; its request has been written; its reply has come.
pub data Stage (s : Calling) : Type 0 where
  calm :
      IsCalm s.phase
      → At sending s.flow
      → Flags s.client true false false
      → s.client.section_id ≡ 0
      → s.sent ≡ s.posted
      → s.replies ≡ s.taken
      → length s.taken ≡ length s.posted
      → Stage s
  requested :
      IsWaiting s.phase
      → At sending s.flow
      → Flags s.client false true false
      → s.client.section_id ≡ 0
      → s.posted ≡ s.sent ++ request_of s.client ∷ []
      → s.replies ≡ s.taken
      → length s.taken ≡ length s.sent
      → Stage s
  asked :
      IsWaiting s.phase
      → Hears s
      → Flags s.client false false false
      → s.sent ≡ s.posted
      → s.replies ≡ s.taken
      → suc (length s.taken) ≡ length s.posted
      → Stage s
  answered :
      IsWaiting s.phase
      → At sending s.flow
      → Flags s.client false false true
      → s.client.section_id ≡ 0
      → s.sent ≡ s.posted
      → s.replies ≡ s.taken ++ s.client.rets ∷ []
      → suc (length s.taken) ≡ length s.posted
      → Stage s

not-At : (f g flow : Flow) → (f ≡ g → ⊥) → (g ≡ ended → ⊥) → flow ≡ g → At f flow → ⊥
not-At f g flow apart open_ e (inl e') = apart (sym e' ∙ e)
not-At f g flow apart open_ e (inr e') = open_ (sym e ∙ e')

module _ (codec : Codec) (m : Bool) where
  Posts-Stage :
      (s : Calling) (id : ℕ) (proc : RemoteProcedure) (vs : List Variant) (c : Client)
      → s.phase ≡ admitted id proc vs
      → Posts codec m s.client (ok c)
      → Stage s
      → Stage
          (record s { client = c; phase = waiting proc; posted = s.posted ++ request_of c ∷ [] })
  Posts-Stage s id proc vs c e (same, flags) (calm p f fl sec sent replies count) =
      requested tt f (flags true false false fl) (same ∙ sec)
        (ap (λ l. l ++ request_of c ∷ []) (sym sent)) replies (count ∙ ap length (sym sent))
  Posts-Stage s id proc vs c e h (requested p f fl sec sent replies count) =
      absurd (subst IsWaiting e p)
  Posts-Stage s id proc vs c e h (asked p f fl sent replies count) = absurd (subst IsWaiting e p)
  Posts-Stage s id proc vs c e h (answered p f fl sec sent replies count) =
      absurd (subst IsWaiting e p)

  post_fails-Stage :
      (s : Calling) (id : ℕ) (proc : RemoteProcedure) (vs : List Variant) (c : Client)
      → s.phase ≡ admitted id proc vs
      → Posts codec m s.client (refused c)
      → Stage s
      → Stage (record s { client = c; phase = idle })
  post_fails-Stage s id proc vs c e (same, flags) (calm p f fl sec sent replies count) =
      calm tt f (flags true false false fl) (same ∙ sec) sent replies count
  post_fails-Stage s id proc vs c e h (requested p f fl sec sent replies count) =
      absurd (subst IsWaiting e p)
  post_fails-Stage s id proc vs c e h (asked p f fl sent replies count) =
      absurd (subst IsWaiting e p)
  post_fails-Stage s id proc vs c e h (answered p f fl sec sent replies count) =
      absurd (subst IsWaiting e p)

  -- A flow that can go on does not wait for a call.
  awaiting :
      (c : Client)
      → c.section_id ≡ 0
      → c.send_is_ready ≡ false
      → c.stop_wait ≡ false
      → awaits_call c ≡ false
      → ⊥
  unfolding awaits_call may_send
  awaiting c sec sent running h =
      let waits : ((c.section_id == 0) && not (c.send_is_ready || c.stop_wait)) ≡ true =
        rw (sec, sent, running) refl in
      cc

  Writes-Stage :
      (s : Calling) (out : List ℕ) (c : Client)
      → s.flow ≡ sending
      → awaits_call s.client ≡ false
      → (s.client.section_id ≡ 0 → Writes codec m s.client (ok (c, out)))
      → (s.client.section_id ≡ 1 → (c ≡ s.client) × (out ≡ []))
      → Stage s
      → Stage (record s { client = c; sent = put s.sent out; flow = receiving })
  Writes-Stage s out c e go h h' (calm p f fl sec sent replies count) =
      absurd (awaiting s.client sec fl.1 fl.3 go)
  Writes-Stage s out c e go h h' (requested p f fl sec sent replies count) =
      let (is_c, is_out) = h sec in
      let flags : Flags c false false false =
        subst (λ d. Flags d false false false) (sym is_c) (fl.0, refl, fl.2, fl.3) in
      let all : put s.sent out ≡ s.posted = ap (put s.sent) is_out ∙ sym sent in
      asked p (inl (inl refl)) flags all replies
        (omega (arith, count, ap length sent, length-append s.sent (request_of s.client ∷ [])))
  Writes-Stage s out c e go h h' (asked p (inl f) fl sent replies count) =
      absurd (not-At receiving sending s.flow (λ e. cc) (λ e. cc) e f)
  Writes-Stage s out c e go h h' (asked p (inr (f, between)) fl sent replies count) =
      let (is_c, is_out) = h' between in
      asked p (inl (inl refl)) (subst (λ d. Flags d false false false) (sym is_c) fl)
        (ap (put s.sent) is_out ∙ sent) replies count
  Writes-Stage s out c e go h h' (answered p f fl sec sent replies count) =
      absurd (awaiting s.client sec fl.1 fl.3 go)

  abbrev behind : Calling → Client → ℕ → Calling
  behind s c n = record s {
    client = c;
    replies = if n == 0 then s.replies ++ c.rets ∷ [] else s.replies;
    flow = sending;
  }

  parsed_more :
      (s : Calling) (c : Client)
      → c.section_id ≡ 1
      → Stage (record s { client = c; replies = s.replies; flow = sending })
      → Stage (record s { client = c; replies = replies_behind c s.replies; flow = sending })
  parsed_more s c more h = subst (λ (n : ℕ). Stage (behind s c n)) (sym more) h

  parsed_whole :
      (s : Calling) (c : Client)
      → c.section_id ≡ 0
      → Stage (record s { client = c; replies = s.replies ++ c.rets ∷ []; flow = sending })
      → Stage (record s { client = c; replies = replies_behind c s.replies; flow = sending })
  parsed_whole s c whole h = subst (λ (n : ℕ). Stage (behind s c n)) (sym whole) h

  Parses-Stage :
      (s : Calling) (c : Client)
      → s.flow ≡ receiving
      → Parses codec m s.client (ok c)
      → Stage s
      → Stage (record s { client = c; replies = replies_behind c s.replies; flow = sending })
  Parses-Stage s c e h (calm p f fl sec sent replies count) =
      absurd (not-At sending receiving s.flow (λ e. cc) (λ e. cc) e f)
  Parses-Stage s c e h (requested p f fl sec sent replies count) =
      absurd (not-At sending receiving s.flow (λ e. cc) (λ e. cc) e f)
  Parses-Stage s c e (inl (more, flags)) (asked p (inl f) fl sent replies count) =
      parsed_more s c more
        (asked p (inr (refl, more)) (flags false false false fl) sent replies count)
  Parses-Stage s c e (inr (whole, flags)) (asked p (inl f) fl sent replies count) =
      parsed_whole s c whole (
        answered p (inl refl) (flags false false false fl) whole sent
          (ap (λ l. l ++ c.rets ∷ []) replies) count)
  Parses-Stage s c e h (asked p (inr (f, between)) fl sent replies count) =
      absurd (not-At sending receiving s.flow (λ e. cc) (λ e. cc) e (inl f))
  Parses-Stage s c e h (answered p f fl sec sent replies count) =
      absurd (not-At sending receiving s.flow (λ e. cc) (λ e. cc) e f)

  Takes-Stage :
      (s : Calling) (proc : RemoteProcedure) (c : Client)
      → s.phase ≡ waiting proc
      → has_reply s.client ≡ true
      → c ≡ record (s.client) { repl_is_ready = false; can_call = true }
      → Stage s
      → Stage (record s { client = c; phase = idle; taken = s.taken ++ s.client.rets ∷ [] })
  unfolding has_reply
  Takes-Stage s proc c e ready h (calm p f fl sec sent replies count) = absurd (subst IsCalm e p)
  Takes-Stage s proc c e ready h (requested p f fl sec sent replies count) = absurd (cc)
  Takes-Stage s proc c e ready h (asked p f fl sent replies count) = absurd (cc)
  Takes-Stage s proc c e ready h (answered p f fl sec sent replies count) =
      let flags : Flags c true false false =
        subst (λ d. Flags d true false false) (sym h) (refl, fl.1, refl, fl.3) in
      calm tt f flags (ap (λ (d : Client). d.section_id) h ∙ sec) sent replies
        (omega (arith, count, length-append s.taken (s.client.rets ∷ [])))

  breaks-Stage : (s : Calling) → Stage s → Stage (record s { flow = ended })
  breaks-Stage s (calm p f fl sec sent replies count) = calm p (inr refl) fl sec sent replies count
  breaks-Stage s (requested p f fl sec sent replies count) =
      requested p (inr refl) fl sec sent replies count
  breaks-Stage s (asked p f fl sent replies count) = asked p (inl (inr refl)) fl sent replies count
  breaks-Stage s (answered p f fl sec sent replies count) =
      answered p (inr refl) fl sec sent replies count

  admits-Stage :
      (s : Calling) (id : ℕ) (proc : RemoteProcedure) (vs : List Variant)
      → s.phase ≡ idle
      → Stage s
      → Stage (record s { phase = admitted id proc vs })
  admits-Stage s id proc vs e (calm p f fl sec sent replies count) =
      calm tt f fl sec sent replies count
  admits-Stage s id proc vs e (requested p f fl sec sent replies count) =
      absurd (subst IsWaiting e p)
  admits-Stage s id proc vs e (asked p f fl sent replies count) = absurd (subst IsWaiting e p)
  admits-Stage s id proc vs e (answered p f fl sec sent replies count) =
      absurd (subst IsWaiting e p)

  -- Every step leads from one of the four stages to one of them.
  pub Step-Stage : {s t : Calling} → Step codec m s t → Stage s → Stage t
  Step-Stage {s} (admits id proc vs e a ready) h = admits-Stage s id proc vs e h
  Step-Stage {s} (posts id proc vs c e r) h =
      Posts-Stage s id proc vs c e
        (subst (Posts codec m s.client) r (post-Posts codec m s.client id proc vs)) h
  Step-Stage {s} (post_fails id proc vs c e r) h =
      post_fails-Stage s id proc vs c e
        (subst (Posts codec m s.client) r (post-Posts codec m s.client id proc vs)) h
  Step-Stage {s} (writes buffer out c e ready r) h =
      Writes-Stage s out c e ready
        (λ idle_.
          subst (Writes codec m s.client) r (write_message-Writes codec m s.client buffer idle_))
        (λ between.
          let same : ok (s.client, []) ≡ ok (c, out) =
            sym (write_message-between codec m s.client buffer between) ∙ r in
          (cc, cc))
        h
  Step-Stage {s} (parses message c e r) h =
      Parses-Stage s c e
        (subst (Parses codec m s.client) r (parse_message-Parses codec m s.client message)) h
  Step-Stage {s} breaks h = breaks-Stage s h
  Step-Stage {s} (takes proc returns returns' c e ready r) h =
      Takes-Stage s proc c e ready
        (subst (Takes codec m s.client) r (take_reply-Takes codec m s.client proc returns)) h
  Step-Stage {s} (take_fails proc returns returns' c e ready r) h =
      Takes-Stage s proc c e ready
        (subst (Takes codec m s.client) r (take_reply-Takes codec m s.client proc returns)) h
