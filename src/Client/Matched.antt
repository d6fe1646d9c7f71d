-- ===== src/Client/Matched.antt =====
-- rpcmple_cpp/include/rpcmple/rpcClient.h: how calls, requests and replies go together, with one caller at a
-- time.
use rpcmple.Common.{ℕ, ◌+◌, ◌≤◌, ◌≡◌, refl, sym, ap, ◌∙◌, inl, arith}
use rpcmple.Common.{Bool, true, false, List, [], ◌∷◌, ◌++◌, length, length-append, append-nil}
use rpcmple.Signature.{Codec}
use rpcmple.Client.{Client, RemoteProcedure, make_client, append_signature}
use rpcmple.Client.Steps.{Calling, request_of, Reach, here, next, begin}
use rpcmple.Client.Effects.{Flags}
use rpcmple.Client.Stages.{Stage, calm, requested, asked, answered, Step-Stage}

-- Requests and replies go together one by one: those that were written are the first of those that
-- were posted, all but one at most; those that were taken are the first replies that were received,
-- all but one at most; a reply is received only behind its request; and there are as many calls that
-- took a reply as calls that posted a request, or one less.
pub record Matched (s : Calling) : Type 0 where
  pub unsent : List (List ℕ)
  pub untaken : List (List ℕ)
  pub posts_all : s.posted ≡ s.sent ++ unsent
  pub takes_all : s.replies ≡ s.taken ++ untaken
  pub sends_soon : length unsent ≤ 1
  pub takes_soon : length untaken ≤ 1
  pub asks_first : length s.replies ≤ length s.sent
  pub answers : length s.taken ≤ length s.posted
  pub one_open : length s.posted ≤ length s.taken + 1

-- The calls of `appendSignature` before the first call.
abbrev pub append_all : Client → List RemoteProcedure → Client
append_all c [] = c
append_all c (proc ∷ procs) = append_all (append_signature c proc) procs

append_all-Flags :
    (c : Client) (procs : List RemoteProcedure)
    → Flags c true false false
    → c.section_id ≡ 0
    → Flags (append_all c procs) true false false × ((append_all c procs).section_id ≡ 0)
unfolding append_signature
append_all-Flags c [] fl sec = (fl, sec)
append_all-Flags c (proc ∷ procs) fl sec = append_all-Flags (append_signature c proc) procs fl sec

module _ (codec : Codec) (m : Bool) where
  Stage-Matched : (s : Calling) → Stage s → Matched s
  Stage-Matched s (calm p f fl sec sent replies count) = record {
    unsent = [];
    untaken = [];
    posts_all = sym sent ∙ sym (append-nil s.sent);
    takes_all = replies ∙ sym (append-nil s.taken);
    sends_soon = omega arith;
    takes_soon = omega arith;
    asks_first = omega (arith, count, ap length sent, ap length replies);
    answers = omega (arith, count);
    one_open = omega (arith, count);
  }
  Stage-Matched s (requested p f fl sec sent replies count) =
      let more = length-append s.sent (request_of s.client ∷ []) in
      record {
        unsent = request_of s.client ∷ [];
        untaken = [];
        posts_all = sent;
        takes_all = replies ∙ sym (append-nil s.taken);
        sends_soon = omega arith;
        takes_soon = omega arith;
        asks_first = omega (arith, count, ap length replies);
        answers = omega (arith, count, ap length sent, more);
        one_open = omega (arith, count, ap length sent, more);
      }
  Stage-Matched s (asked p f fl sent replies count) = record {
    unsent = [];
    untaken = [];
    posts_all = sym sent ∙ sym (append-nil s.sent);
    takes_all = replies ∙ sym (append-nil s.taken);
    sends_soon = omega arith;
    takes_soon = omega arith;
    asks_first = omega (arith, count, ap length sent, ap length replies);
    answers = omega (arith, count);
    one_open = omega (arith, count);
  }
  Stage-Matched s (answered p f fl sec sent replies count) = record {
    unsent = [];
    untaken = s.client.rets ∷ [];
    posts_all = sym sent ∙ sym (append-nil s.sent);
    takes_all = replies;
    sends_soon = omega arith;
    takes_soon = omega arith;
    asks_first = omega (
      arith,
      count,
      ap length sent,
      ap length replies,
      length-append s.taken (s.client.rets ∷ []),
    );
    answers = omega (arith, count);
    one_open = omega (arith, count);
  }

  Reach-Stage :
      (c : Client) {s : Calling}
      → Flags c true false false
      → c.section_id ≡ 0
      → Reach codec m (begin c) s
      → Stage s
  Reach-Stage c fl sec here = calm tt (inl refl) fl sec refl refl refl
  Reach-Stage c fl sec (next steps step) = Step-Stage codec m step (Reach-Stage c fl sec steps)

  -- With one caller of `callSync` at a time, and as long as nobody asks for a stop, requests and
  -- replies go together one by one, however the caller and the data flow take turns at the locks:
  -- the requests that were written are those that were posted, in their order, but for the last at
  -- most; the replies that were taken by the calls are those that were received, in their order,
  -- but for the last at most; there are never more replies than written requests; and as many
  -- calls have taken a reply as have posted a request, or one less.
  pub Reach-Matched :
      (procs : List RemoteProcedure) {s : Calling}
      → Reach codec m (begin (append_all make_client procs)) s
      → Matched s
  unfolding make_client
  Reach-Matched procs steps =
      let (fl, sec) = append_all-Flags make_client procs (refl, refl, refl, refl) refl in
      Stage-Matched _ (Reach-Stage (append_all make_client procs) fl sec steps)
