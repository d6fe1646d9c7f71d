-- ===== src/Publisher/EndToEnd.antt =====
-- rpcmple_cpp/include/rpcmple/dataPublisher.h with rpcmple_cpp/include/rpcmple/dataSubscriber.h: from the calls of
-- `publish` to the calls of the callback.
use rpcmple.Common.{ℕ, suc, ◌≡◌, arith, refl, sym, ap, subst, ◌∙◌, Bool, true, false}
use rpcmple.Common.{List, [], ◌∷◌, ◌++◌, map, length, replicate, All, some}
use rpcmple.Variant.{Variant}
use rpcmple.Signature.{Codec, IsUtf8}
use rpcmple.Signature.Wire.{VariantFits}
use rpcmple.Signature.Received.{received}
use rpcmple.Signature.Exchange.{to_binary_ok}
use rpcmple.Manager.{State, make}
use rpcmple.Manager.DataFlow.{closed, data_flow}
use rpcmple.Manager.Inbox.{Script, script, join}
use rpcmple.Publisher.Collect.{body}
use rpcmple.Publisher.Steps.{Publishing, begin, Reach, Reach-Ordered, no_tail}
use rpcmple.Subscriber.{Subscriber, subscriber, make_subscriber}
use rpcmple.Subscriber.Stream.{IsEncoding, Encodings, data_flow-delivers}

-- Values that can be sent: of the C++ types, as many as the signature says, without zero characters
-- in wide strings or arrays and strings of exactly 65536 elements, with an encoding whose size the
-- header can tell, not 0.
abbrev pub IsSendable : Codec → List ℕ → List Variant → Type 0
IsSendable codec sig vs =
    (bs : List ℕ) × IsEncoding codec sig vs bs × All (VariantFits codec.to_bytes) vs

length-map : {A B : Type 0} (f : A → B) (xs : List A) → length (map f xs) ≡ length xs
length-map f [] = refl
length-map f (x ∷ xs) = omega (arith, length-map f xs)

module _ (codec : Codec) (m : Bool) (sig : List ℕ) where
  body_of :
      (vs : List Variant) → IsSendable codec sig vs → IsEncoding codec sig vs (body codec m sig vs)
  unfolding body
  body_of vs (bs, (n, h, z, e, some_, fits), small) =
      let made = to_binary_ok codec m sig vs bs (replicate 1024 0) n h small e in
      rw made (n, h, z, e, some_, fits)

  -- The first of the bodies belong to the first of the calls.
  cut :
      (gone stack : List (List ℕ)) (vss : List (List Variant))
      → gone ++ stack ≡ map (body codec m sig) vss
      → All (IsSendable codec sig) vss
      → (first : List (List Variant)) × (rest : List (List Variant)) × (first ++ rest ≡ vss)
        × Encodings codec sig first gone
        × (length rest ≡ length stack)
  cut [] stack vss e h = ([], vss, refl, tt, sym (ap length e ∙ length-map (body codec m sig) vss))
  cut (g ∷ gone) stack [] e h = let sizes = ap length e in absurd (omega (arith, sizes))
  cut (g ∷ gone) stack (vs ∷ vss) e h =
      let head : g ≡ body codec m sig vs = cc in
      let others : gone ++ stack ≡ map (body codec m sig) vss = cc in
      let (first, rest, joined, fits, count) = cut gone stack vss others h.1 in
      (
        vs ∷ first,
        rest,
        ap (◌∷◌ vs) joined,
        (subst (IsEncoding codec sig vs) (sym head) (body_of vs h.0), fits),
        count,
      )

  -- A publisher and a subscriber of the same signature are joined by a connection that hands over
  -- the bytes it has taken, in any number of reads. However publishing threads, a stop and the
  -- publisher's data flow have taken turns, as long as that flow runs, the subscriber's data flow,
  -- when nothing more comes, ends, and has called its callback with the values of the first of the
  -- calls of `publish` that have pushed their messages, in the order of the pushes, each once, the
  -- wide strings under a 'v' as the strings that they were converted to; as many as the others are
  -- the messages on the publisher's stack. The values of these calls are of the C++ types, as many
  -- as the signature says, have encodings of sizes that the header can tell, not 0, no zero
  -- character in a wide string and no array or string of exactly 65536 elements. The two machines
  -- may have different byte orders.
  pub data_flow-publishes :
      IsUtf8 codec
      → (m' : Bool) (accepts : List (List ℕ) → Bool) (callback group : Bool) (s : Publishing)
        (xs : List (List ℕ))
      → Reach codec m (begin sig group) s
      → s.is_flowing ≡ true
      → All (IsSendable codec sig) s.accepted
      → join xs ≡ s.sent
      → let c : Script = record { inbox = xs; outbox = [] } in
        (first : List (List Variant)) × (rest : List (List Variant)) × (first ++ rest ≡ s.accepted)
        × (length rest ≡ length s.publisher.message_stack)
        × (t : State Subscriber Script) × (callback' : Bool) × (data_flow
              (subscriber codec m')
              (script accepts)
              callback
              (replicate (suc (length xs)) false)
              (make (make_subscriber sig true) c true)
            ≡ some (closed t callback'))
        × (t.handler.delivered ≡ map (received codec sig) first)
  data_flow-publishes utf8 m' accepts callback group s xs reach runs good joined =
      let h = Reach-Ordered codec m sig group reach in
      let (first, rest, splits, fits, count) =
        cut h.gone s.publisher.message_stack s.accepted h.in_order good in
      let (t, callback', ends, delivers) =
        data_flow-delivers codec m' accepts utf8 callback sig first h.gone xs fits
          (joined ∙ no_tail codec m sig s h runs) in
      (first, rest, splits, count, t, callback', ends, delivers)
