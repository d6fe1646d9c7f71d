-- ===== src/Publisher/Steps.antt =====
-- rpcmple_cpp/include/rpcmple/dataPublisher.h under rpcmple_cpp/include/rpcmple/messageManager.h: a publisher
-- whose `publish` and `stopParser` are called by any threads, while the data flow, which expects no
-- message, asks for one to send and writes it, again and again. The mutex makes each of these one
-- step, but for `publish`, which makes the message before it takes the lock: that is a step of its own,
-- and the messages that have been made may be pushed in any order.
use rpcmple.Common.{ℕ, ◌≡◌, refl, sym, ap, subst, ◌∙◌, ◌⊎◌, inl, inr, Bool, true, false}
use rpcmple.Common.{
  List, [], ◌∷◌, ◌++◌, append-nil, append_assoc, map, map-append, ok, refused, All, All-append,
}
use rpcmple.Variant.{Variant}
use rpcmple.Signature.{Codec}
use rpcmple.Publisher.{
  Publisher, make_publisher, may_write, prepare, push, stop_parser, write_message,
}
use rpcmple.Publisher.Frames.{frames}
use rpcmple.Publisher.Collect.{
  body, frames-append, Writes, write_message-Writes, Prepares, prepare-Prepares,
}

-- The publisher, the calls of `publish` that have made their message and not pushed it, with the values,
-- the bytes that the connection has taken, the values of the calls that have pushed theirs, in the order of
-- the pushes, and whether the data flow still runs.
pub record Publishing : Type 0 where
  pub publisher : Publisher
  pub waiting : List (List Variant × List ℕ)
  pub sent : List ℕ
  pub accepted : List (List Variant)
  pub is_flowing : Bool

abbrev pub begin : List ℕ → Bool → Publishing
begin sig group = record {
  publisher = make_publisher sig group;
  waiting = [];
  sent = [];
  accepted = [];
  is_flowing = true;
}

-- One element of a list, and the others.
All-take :
    {A : Type 0} (P : A → Type 0) (before after : List A) (x : A)
    → All P (before ++ x ∷ after)
    → P x × All P (before ++ after)
All-take P [] after x h = h
All-take P (y ∷ before) after x (hy, h) =
    let (hx, others) = All-take P before after x h in (hx, (hy, others))

module _ (codec : Codec) (m : Bool) where
  -- A write of the connection may fail behind the first bytes: then the flow ends, as it does when
  -- `writeMessage` returns false.
  pub data Step (s : Publishing) : Publishing → Type 0 where
    prepares :
        (values : List Variant) (message : List ℕ)
        → prepare codec m s.publisher values ≡ ok message
        → Step s (record s { waiting = s.waiting ++ (values, message) ∷ [] })
    declines :
        (values : List Variant) (p : Publisher)
        → prepare codec m s.publisher values ≡ refused p
        → Step s (record s { publisher = p })
    pushes :
        (before after : List (List Variant × List ℕ)) (values : List Variant) (message : List ℕ)
        → s.waiting ≡ before ++ (values, message) ∷ after
        → Step s (record s {
          publisher = push codec m s.publisher message;
          waiting = before ++ after;
          accepted = s.accepted ++ values ∷ [];
        })
    stops : Step s (record s { publisher = stop_parser s.publisher })
    writes :
        (p : Publisher) (out : List ℕ)
        → s.is_flowing ≡ true
        → may_write s.publisher ≡ true
        → write_message codec m s.publisher [] ≡ ok (p, out)
        → Step s (record s { publisher = p; sent = s.sent ++ out })
    breaks :
        (p : Publisher) (first rest : List ℕ)
        → s.is_flowing ≡ true
        → may_write s.publisher ≡ true
        → write_message codec m s.publisher [] ≡ ok (p, first ++ rest)
        → Step s (record s { publisher = p; sent = s.sent ++ first; is_flowing = false })
    gives_up :
        (p : Publisher)
        → s.is_flowing ≡ true
        → may_write s.publisher ≡ true
        → write_message codec m s.publisher [] ≡ refused p
        → Step s (record s { publisher = p; is_flowing = false })

  pub data Reach (s : Publishing) : Publishing → Type 0 where
    here : Reach s s
    next : {t u : Publishing} → Reach s t → Step t u → Reach s u

  -- The message of a call is that of its values.
  abbrev pub IsMade : List ℕ → List Variant × List ℕ → Type 0
  IsMade sig (values, message) = message ≡ body codec m sig values

  -- The messages of the accepted calls, in their order, are those that have left the stack and those
  -- that are on it; and what the connection has taken are the first bytes of the former behind their
  -- headers, all of them while the flow runs.
  pub record Ordered (sig : List ℕ) (s : Publishing) : Type 0 where
    pub gone : List (List ℕ)
    pub tail : List ℕ
    pub signed : s.publisher.signature ≡ sig
    pub prepared : All (IsMade sig) s.waiting
    pub in_order : gone ++ s.publisher.message_stack ≡ map (body codec m sig) s.accepted
    pub taken : s.sent ++ tail ≡ frames gone
    pub complete : (s.is_flowing ≡ false) ⊎ (tail ≡ [])

  begin-Ordered : (sig : List ℕ) (group : Bool) → Ordered sig (begin sig group)
  unfolding make_publisher
  begin-Ordered sig group = record {
    gone = [];
    tail = [];
    signed = refl;
    prepared = tt;
    in_order = refl;
    taken = refl;
    complete = inr refl;
  }

  pub no_tail :
      (sig : List ℕ) (s : Publishing) (h : Ordered sig s)
      → s.is_flowing ≡ true
      → s.sent ≡ frames h.gone
  no_tail sig s h runs = decided h.complete
    where
      decided : (s.is_flowing ≡ false) ⊎ (h.tail ≡ []) → s.sent ≡ frames h.gone
      decided (inl over) = absurd (cc)
      decided (inr none_) = sym (append-nil s.sent) ∙ ap (◌++◌ s.sent) (sym none_) ∙ h.taken

  -- Messages leave the stack, and the first of their bytes are taken.
  Ordered-leave :
      (sig : List ℕ) (s : Publishing) (p : Publisher) (left : List (List ℕ)) (first rest : List ℕ)
      (flowing : Bool)
      → Ordered sig s
      → s.is_flowing ≡ true
      → left ++ p.message_stack ≡ s.publisher.message_stack
      → first ++ rest ≡ frames left
      → p.signature ≡ s.publisher.signature
      → (flowing ≡ false) ⊎ (rest ≡ [])
      → Ordered sig (record s { publisher = p; sent = s.sent ++ first; is_flowing = flowing })
  Ordered-leave sig s p left first rest flowing h runs splits joined same complete = record {
    gone = h.gone ++ left;
    tail = rest;
    signed = same ∙ h.signed;
    prepared = h.prepared;
    in_order = append_assoc h.gone left p.message_stack ∙ ap (◌++◌ h.gone) splits ∙ h.in_order;
    taken =
        append_assoc s.sent first rest
        ∙ ap (◌++◌ s.sent) joined
        ∙ ap (λ l. l ++ frames left) (no_tail sig s h runs)
        ∙ sym (frames-append h.gone left);
    complete = complete;
  }

  pub Step-Ordered : (sig : List ℕ) {s t : Publishing} → Step s t → Ordered sig s → Ordered sig t
  unfolding stop_parser push
  Step-Ordered sig {s} (prepares values message e) h = record {
    gone = h.gone;
    tail = h.tail;
    signed = h.signed;
    prepared = All-append (IsMade sig) s.waiting ((values, message) ∷ []) h.prepared (
      subst (Prepares codec m s.publisher values) e (prepare-Prepares codec m s.publisher values)
          ∙ ap (λ g. body codec m g values) h.signed,
      tt,
    );
    in_order = h.in_order;
    taken = h.taken;
    complete = h.complete;
  }
  Step-Ordered sig {s} (declines values p e) h =
      let same =
        subst (Prepares codec m s.publisher values) e
          (prepare-Prepares codec m s.publisher values) in
      record {
        gone = h.gone;
        tail = h.tail;
        signed = ap (λ (q : Publisher). q.signature) same ∙ h.signed;
        prepared = h.prepared;
        in_order = ap (λ (q : Publisher). h.gone ++ q.message_stack) same ∙ h.in_order;
        taken = h.taken;
        complete = h.complete;
      }
  Step-Ordered sig {s} (pushes before after values message e) h =
      let (is_made, others) =
        All-take (IsMade sig) before after (values, message)
          (subst (All (IsMade sig)) e h.prepared) in
      record {
        gone = h.gone;
        tail = h.tail;
        signed = h.signed;
        prepared = others;
        in_order =
            sym (append_assoc h.gone s.publisher.message_stack (message ∷ []))
            ∙ ap (λ l. l ++ message ∷ []) h.in_order
            ∙ ap (λ l. map (body codec m sig) s.accepted ++ l ∷ []) is_made
            ∙ sym (map-append (body codec m sig) s.accepted (values ∷ []));
        taken = h.taken;
        complete = h.complete;
      }
  Step-Ordered sig stops h = record {
    gone = h.gone;
    tail = h.tail;
    signed = h.signed;
    prepared = h.prepared;
    in_order = h.in_order;
    taken = h.taken;
    complete = h.complete;
  }
  Step-Ordered sig {s} (writes p out runs ready e) h =
      let (left, splits, is_frames, same, _, _) =
        subst (Writes codec m s.publisher) e (write_message-Writes codec m s.publisher) in
      Ordered-leave sig s p left out [] s.is_flowing h runs splits (append-nil out ∙ is_frames) same
        (inr refl)
  Step-Ordered sig {s} (breaks p first rest runs ready e) h =
      let (left, splits, is_frames, same, _, _) =
        subst (Writes codec m s.publisher) e (write_message-Writes codec m s.publisher) in
      Ordered-leave sig s p left first rest false h runs splits is_frames same (inl refl)
  Step-Ordered sig {s} (gives_up p runs ready e) h =
      let (left, splits, same, _) =
        subst (Writes codec m s.publisher) e (write_message-Writes codec m s.publisher) in
      subst (λ l. Ordered sig (record s { publisher = p; sent = l; is_flowing = false }))
        (append-nil s.sent)
        (Ordered-leave sig s p left [] (frames left) false h runs splits refl same (inl refl))

  -- However publishing threads, a stop and the data flow take turns, no message is lost, doubled
  -- or overtaken while the flow runs: what the connection has taken are the first messages of the
  -- calls of `publish` that have pushed theirs, each behind its header, and the stack holds the
  -- others, in the order in which the lock was taken to push them; each is the message of the
  -- values of its call, which makes it before it takes the lock, while others push. Once the flow
  -- has ended, what the connection has taken may end within a message, and messages that had left
  -- the stack may be missing from it.
  pub Reach-Ordered :
      (sig : List ℕ) (group : Bool) {s : Publishing} → Reach (begin sig group) s → Ordered sig s
  Reach-Ordered sig group here = begin-Ordered sig group
  Reach-Ordered sig group (next steps step) = Step-Ordered sig step (Reach-Ordered sig group steps)
