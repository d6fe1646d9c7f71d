-- ===== src/Subscriber/Stream.antt =====
-- rpcmple_cpp/include/rpcmple/dataSubscriber.h under rpcmple_cpp/include/rpcmple/messageManager.h: a
-- stream of messages, as a publisher frames them.
use rpcmple.Common.{ℕ, suc, ◌<◌, ◌≡◌, refl, sym, ap, subst, ◌∙◌, arith}
use rpcmple.Common.{List, [], ◌∷◌, ◌++◌, append-nil, append_assoc, length, All, map, replicate}
use rpcmple.Common.{Option, none, some, Outcome, ok, ◌>>=◌}
use rpcmple.Common.{Bool, true, false}
use rpcmple.Endian.{le_bytes}
use rpcmple.Variant.{Variant}
use rpcmple.Signature.{Codec, IsUtf8}
use rpcmple.Signature.Wire.{encode, IsVariant}
use rpcmple.Signature.Received.{NoZero, received}
use rpcmple.Header.{header_val}
use rpcmple.Manager.{Connection, handle, send, make, Parser, State}
use rpcmple.Manager.Stream.{Frame, fresh, feed_all, feed_all-append, feed_all_full, deliver, map_ok}
use rpcmple.Manager.Script.{Shows, data_flow-Shows_silent}
use rpcmple.Manager.Inbox.{Script, script, join}
use rpcmple.Manager.DataFlow.{Ended, closed, crashed, undefined, data_flow}
use rpcmple.Publisher.Frames.{frame, frames}
use rpcmple.Subscriber.{Subscriber, parse_message, subscriber, make_subscriber}
use rpcmple.Subscriber.Deliver.{heard, receive_ok}
use rpcmple.Subscriber.Steady.{Waits, subscriber-IsSteady}

-- The bodies of messages, each the encoding of values of the C++ types that are as many as the
-- signature says and without zero characters, of a size that the header can tell, not 0.
abbrev pub IsEncoding : Codec → List ℕ → List Variant → List ℕ → Type 0
IsEncoding codec sig vs bs =
    (length sig ≡ length vs)
    × All IsVariant vs
    × All NoZero vs
    × (encode codec.to_bytes sig vs ≡ ok bs)
    × (0 < length bs)
    × (length bs < 16777216)

abbrev pub Encodings : Codec → List ℕ → List (List Variant) → List (List ℕ) → Type 0
Encodings codec sig [] [] = Unit {0}
Encodings codec sig (vs ∷ vss) (bs ∷ bss) = IsEncoding codec sig vs bs × Encodings codec sig vss bss
Encodings codec sig _ _ = ⊥

-- A subscriber with a callback that waits for a header, with the calls made so far.
abbrev pub waiting : List ℕ → List (List Variant) → Subscriber
waiting sig ds = record {
  signature = sig;
  has_callback = true;
  delivered = ds;
  section_len = 4;
  section_id = 0;
}

module _ {C : Type 0} (codec : Codec) (utf8 : IsUtf8 codec) (m : Bool) (k : Connection C) where
  abbrev p : Parser Subscriber
  p = subscriber codec m

  -- A message that the parser takes is handled without a reply.
  handled :
      (bytes : List ℕ) (size : ℕ) (s s' : Subscriber) (c : C)
      → parse_message codec m s bytes ≡ ok s'
      → handle p k bytes size s c ≡ ok (s', c)
  unfolding handle subscriber send
  handled bytes size s s' c e = rw e refl

  abbrev step : Subscriber × C → List ℕ → Outcome (Subscriber × C) (Frame Subscriber C)
  step x bytes = feed_all p k (fresh p k x) bytes

  delivered :
      (s s' : Subscriber) (c : C) (b : ℕ) (bytes : List ℕ)
      → length (b ∷ bytes) ≡ s.section_len
      → parse_message codec m s (b ∷ bytes) ≡ ok s'
      → step (s, c) (b ∷ bytes) ≡ ok (fresh p k (s', c))
  unfolding deliver subscriber
  delivered s s' c b bytes n e =
      feed_all_full p k (fresh p k (s, c)) b bytes (omega (arith, n))
      ∙ ap (map_ok (fresh p k)) (handled (b ∷ bytes) s.section_len s s' c e)

  delivered_frame :
      (sig : List ℕ) (ds : List (List Variant)) (c : C) (vs : List Variant) (bs : List ℕ)
      → IsEncoding codec sig vs bs
      → step (waiting sig ds, c) (frame bs)
        ≡ ok (fresh p k (waiting sig (ds ++ received codec sig vs ∷ []), c))
  delivered_frame sig ds c vs [] (n, h, z, e, some_, fits) = absurd (omega arith)
  delivered_frame sig ds c vs (b ∷ bytes) (n, h, z, e, some_, fits) =
      let s : Subscriber = waiting sig ds in
      let size : ℕ = length (b ∷ bytes) in
      let s₁ : Subscriber = record s { section_len = size; section_id = 1 } in
      let s₂ : Subscriber = waiting sig (ds ++ received codec sig vs ∷ []) in
      let head = heard codec utf8 m s size refl some_ fits in
      let body : parse_message codec m s₁ (b ∷ bytes) ≡ ok s₂ =
        subst (λ o. (o >>= λ s'. parse_message codec m s' (b ∷ bytes)) ≡ ok s₂) head
          (receive_ok codec utf8 m s vs (b ∷ bytes) refl refl n h z e some_ fits) in
      feed_all-append p k (fresh p k (s, c)) (le_bytes 4 (header_val 1 size)) (b ∷ bytes)
      ∙ ap (λ o. o >>= λ f. feed_all p k f (b ∷ bytes)) (delivered s s₁ c _ _ refl head)
      ∙ delivered s₁ s₂ c b bytes refl body

  -- Whatever reads the stream comes in, the messages reach the callback one by one.
  pub delivered_frames :
      (sig : List ℕ) (ds : List (List Variant)) (c : C) (vss : List (List Variant))
      (bss : List (List ℕ))
      → Encodings codec sig vss bss
      → step (waiting sig ds, c) (frames bss)
        ≡ ok (fresh p k (waiting sig (ds ++ map (received codec sig) vss), c))
  unfolding feed_all
  delivered_frames sig ds c [] [] h =
      ap (λ l. ok (fresh p k (waiting sig l, c))) (sym (append-nil ds))
  delivered_frames sig ds c [] (bs ∷ bss) h = absurd h
  delivered_frames sig ds c (vs ∷ vss) [] h = absurd h
  delivered_frames sig ds c (vs ∷ vss) (bs ∷ bss) h =
      let one = ds ++ received codec sig vs ∷ [] in
      feed_all-append p k (fresh p k (waiting sig ds, c)) (frame bs) (frames bss)
      ∙ ap (λ o. o >>= λ f. feed_all p k f (frames bss)) (delivered_frame sig ds c vs bs h.0)
      ∙ delivered_frames sig one c vss bss h.1
      ∙ ap (λ l. ok (fresh p k (waiting sig l, c)))
          (append_assoc ds (received codec sig vs ∷ []) (map (received codec sig) vss))

module _ (codec : Codec) (m : Bool) (accepts : List (List ℕ) → Bool) where
  shown :
      (r : Option (Ended Subscriber Script)) (f : Frame Subscriber Script)
      → Shows (subscriber codec m) accepts r (ok f)
      → (s : State Subscriber Script) × (callback : Bool) × (r ≡ some (closed s callback))
        × (s.handler ≡ f.handler)
  shown (some (closed s callback)) f h = (s, callback, refl, h.0)
  shown (some crashed) f h = absurd h
  shown (some undefined) f h = absurd h
  shown none f h = absurd h

  -- A subscriber that is given, in any number of reads, the messages of a publisher one behind the
  -- other ends when nothing more comes, with the connection closed, and has called its callback
  -- once for each message, in their order, with the values that were sent. The bodies of the
  -- messages are encodings of values of the C++ types, as many as the subscriber's signature says,
  -- without zero characters in wide strings, of sizes that the header can tell, not 0.
  pub data_flow-delivers :
      IsUtf8 codec
      → (callback : Bool) (sig : List ℕ) (vss : List (List Variant)) (bss xs : List (List ℕ))
      → Encodings codec sig vss bss
      → join xs ≡ frames bss
      → let c : Script = record { inbox = xs; outbox = [] } in
        (s : State Subscriber Script) × (callback' : Bool) × (data_flow
            (subscriber codec m)
            (script accepts)
            callback
            (replicate (suc (length xs)) false)
            (make (make_subscriber sig true) c true)
          ≡ some (closed s callback'))
        × (s.handler.delivered ≡ map (received codec sig) vss)
  unfolding make_subscriber subscriber
  data_flow-delivers utf8 callback sig vss bss xs h e =
      let p = subscriber codec m in
      let k = script accepts in
      let c : Script = record { inbox = xs; outbox = [] } in
      let start : Subscriber = waiting sig [] in
      let fed : feed_all p k (fresh p k (start, c)) (join xs)
          ≡ ok (fresh p k (waiting sig (map (received codec sig) vss), c)) =
        ap (feed_all p k (fresh p k (start, c))) e
        ∙ delivered_frames codec utf8 m k sig [] c vss bss h in
      let ended =
        data_flow-Shows_silent p accepts Waits (subscriber-IsSteady codec m k) callback start xs
          (omega arith) refl in
      let (s, callback', ends, same) = shown _ _ (subst (Shows p accepts _) fed ended) in
      (s, callback', ends, ap (λ (x : Subscriber). x.delivered) same)
