-- ===== src/Client/Call.antt =====
-- rpcmple_cpp/include/rpcmple/rpcClient.h: what the client does of a remote call
-- step by step.
use rpcmple.Common.{ℕ, ◌≤◌, ◌<◌, ◌≡◌, refl, ap, subst, ◌∙◌, arith}
use rpcmple.Common.{Outcome, ◌>>=◌, ◌∷◌}
use rpcmple.Common.{List, [], ◌++◌, append-nil, length, All}
use rpcmple.Common.{some, ok, refused}
use rpcmple.Common.{Bool, true, false, ltb, ◌==◌, if◌then◌else◌}
use rpcmple.Endian.{bytes_to_uint32}
use rpcmple.Variant.{Variant}
use rpcmple.Signature.{Codec, IsUtf8}
use rpcmple.Signature.Writer.{to_binary}
use rpcmple.Signature.Reader.{from_binary}
use rpcmple.Signature.Wire.{encode, IsVariant, VariantFits}
use rpcmple.Signature.RoundTrip.{from_binary-encode}
use rpcmple.Signature.Received.{NoZero, received}
use rpcmple.Signature.Exchange.{to_binary_ok}
use rpcmple.Server.Serve.{header}
use rpcmple.Header.{header_val, put_message-append, header_val_parts, bytes_to_uint32-header}
use rpcmple.Subscriber.Deliver.{length-received}
use rpcmple.Common.{Option, none, thrown, fault, replicate, ◌&&◌, ◌||◌, not}
use rpcmple.Manager.{handle, keep_conn, send}
use rpcmple.Manager.DataFlow.{first_message}
use rpcmple.Manager.Inbox.{Script, script, always}
use rpcmple.Manager.Handled.{handle_silent, sends_all}
use rpcmple.Client.{
  client, awaits_call, may_send, Client, RemoteProcedure, post, posted, take_reply, replied,
  write_message, parse_header, parse_section, parse_message,
}

-- The sizes of messages that the manager receives.
abbrev pub MayTurn : Option ℕ → Type 0
MayTurn none = Unit {0}
MayTurn (some size) = size < 16777221

module _ (codec : Codec) (m : Bool) where
  -- `writeMessage` behind the wait for a call, and the write: of the first message of the data flow, or
  -- behind a message of this size.
  abbrev pub asks : Option ℕ → Client → Script → Outcome (Client × Script) (Client × Script)
  asks none c k = first_message (client codec m) (script always) c k
  asks (some size) c k =
      keep_conn (client codec m) (script always) k
        ((client codec m).write_message c (replicate 1024 0))
      >>= λ (c', request). send (client codec m) (script always) size request c' k

  -- Behind a reply the data flow has to be in `writeMessage` again, at its wait.
  abbrev pub stays : Outcome Client Client → Script → Outcome (Client × Script) (Client × Script)
  stays (ok c) k = if awaits_call c then ok (c, k) else refused (c, k)
  stays (refused c) k = refused (c, k)
  stays thrown k = thrown
  stays fault k = fault

  -- The messages of a reply: a header that is followed by a body is handled whole, with the
  -- `writeMessage` behind it; what comes last is parsed.
  abbrev pub hear : List ℕ → List ℕ → Client → Script → Outcome (Client × Script) (Client × Script)
  hear head [] c k = stays (parse_message codec m c head) k
  hear head (b ∷ body) c k =
      handle (client codec m) (script always) head (length head) c k >>= λ (c', k').
      stays (parse_message codec m c' (b ∷ body)) k'

module _ (codec : Codec) (utf8 : IsUtf8 codec) (m : Bool) where
  pub posts :
      (c : Client) (id : ℕ) (proc : RemoteProcedure) (vs : List Variant) (bs : List ℕ)
      → c.stop_wait ≡ false
      → length proc.args ≡ length vs
      → All IsVariant vs
      → All (VariantFits codec.to_bytes) vs
      → encode codec.to_bytes proc.args vs ≡ ok bs
      → post codec m c id proc vs
        ≡ ok (record c { args = bs; procedure_id = id; can_call = false; send_is_ready = true })
  unfolding post
  posts c id proc vs bs running n h fits e =
      ap
        (λ (t : Bool).
          if t
          then refused c
          else posted codec m c id (to_binary codec.to_bytes m proc.args vs c.args))
        running
      ∙ ap (posted codec m c id) (to_binary_ok codec m proc.args vs bs c.args n h fits e)

  pub requests :
      (c : Client) (buffer : List ℕ)
      → c.section_id ≡ 0
      → c.stop_wait ≡ false
      → length c.args ≤ 16777216
      → write_message codec m c buffer
        ≡ ok (record c { send_is_ready = false }, header c.procedure_id (length c.args) ++ c.args)
  unfolding write_message
  requests c buffer idle running small =
      let short : ltb 16777216 (length c.args) ≡ false = ground arith in
      rw (idle, running, short, put_message-append m c.procedure_id c.args [] buffer) refl

  pub hears :
      (c : Client) (high n : ℕ)
      → c.section_id ≡ 0
      → high < 256
      → 0 < n
      → n < 16777216
      → parse_message codec m c (header high n)
        ≡ ok (record c { call_success_int = high; section_len = n; section_id = 1 })
  unfolding parse_message parse_section parse_header
  hears c high n idle small some_ fits =
      let (is_high, is_size) = header_val_parts high n small fits in
      let more : ltb 0 n ≡ true = ground arith in
      let read : bytes_to_uint32 m (header high n) true ≡ some (header_val high n) =
        subst (λ l. bytes_to_uint32 m l true ≡ some (header_val high n))
          (append-nil (header high n)) (bytes_to_uint32-header m high n []) in
      rw (idle, read, is_high, is_size, more) refl

  -- A header that is not followed by a body is the whole reply.
  pub hears_whole :
      (c : Client) (high : ℕ)
      → c.section_id ≡ 0
      → high < 256
      → parse_message codec m c (header high 0)
        ≡ ok (record c {
          call_success_int = high;
          rets = [];
          repl_is_ready = true;
          section_id = 0;
          section_len = 4;
        })
  unfolding parse_message parse_section parse_header
  hears_whole c high idle small =
      let (is_high, is_size) = header_val_parts high 0 small (omega arith) in
      let read : bytes_to_uint32 m (header high 0) true ≡ some (header_val high 0) =
        subst (λ l. bytes_to_uint32 m l true ≡ some (header_val high 0))
          (append-nil (header high 0)) (bytes_to_uint32-header m high 0 []) in
      rw (idle, read, is_high, is_size) refl

  -- The client behind a reply.
  abbrev pub heard : Client → ℕ → List ℕ → Client
  heard c high out = record c {
    call_success_int = high;
    rets = out;
    repl_is_ready = true;
    section_id = 0;
    section_len = 4;
  }

  stays_ok :
      (c : Client) (k : Script)
      → c.section_id ≡ 0
      → c.send_is_ready ≡ false
      → c.stop_wait ≡ false
      → stays codec m (ok c) k ≡ ok (c, k)
  unfolding awaits_call may_send
  stays_ok c k idle sent running = rw (idle, sent, running) refl

  pub hear_ok :
      (c : Client) (high : ℕ) (out : List ℕ) (k : Script)
      → c.section_id ≡ 0
      → c.send_is_ready ≡ false
      → c.stop_wait ≡ false
      → high < 256
      → length out < 16777216
      → hear codec m (header high (length out)) out c k ≡ ok (heard c high out, k)
  unfolding client awaits_call parse_message parse_section write_message
  hear_ok c high [] k idle sent running small fits =
      ap (λ o. stays codec m o k) (hears_whole c high idle small)
      ∙ stays_ok (heard c high []) k refl sent running
  hear_ok c high (b ∷ out) k idle sent running small fits =
      let size : ℕ = length (b ∷ out) in
      let c' : Client = record c { call_success_int = high; section_len = size; section_id = 1 } in
      ap
        (λ o.
          o >>= λ (x : Client × Script). stays codec m (parse_message codec m x.0 (b ∷ out)) x.1)
        (handle_silent (client codec m) (header high size) 4 c c' c' k
          (hears c high size idle small (omega arith) fits) refl)
      ∙ stays_ok (heard c high (b ∷ out)) k refl sent running

  writes :
      (c : Client) (buffer : List ℕ)
      → c.section_id ≡ 0
      → c.stop_wait ≡ false
      → c.send_is_ready ≡ true
      → length c.args ≤ 16777216
      → (client codec m).write_message c buffer
        ≡ ok (record c { send_is_ready = false }, header c.procedure_id (length c.args) ++ c.args)
  unfolding client awaits_call may_send
  writes c buffer idle running ready small =
      let open_ : ((c.section_id == 0) && not (c.send_is_ready || c.stop_wait)) ≡ false =
        rw (idle, ready) refl in
      ap (λ (b : Bool). if b then refused c else write_message codec m c buffer) open_
      ∙ requests c buffer idle running small

  -- The request is written.
  pub asks_ok :
      (turn : Option ℕ) (c : Client) (k : Script)
      → MayTurn turn
      → c.section_id ≡ 0
      → c.stop_wait ≡ false
      → c.send_is_ready ≡ true
      → length c.args < 16777216
      → asks codec m turn c k
        ≡ ok (
          record c { send_is_ready = false },
          record k { outbox = k.outbox ++ (header c.procedure_id (length c.args) ++ c.args) ∷ [] },
        )
  unfolding first_message
  asks_ok none c k turn idle running ready small =
      let out : List ℕ = header c.procedure_id (length c.args) ++ c.args in
      ap
        (λ o. keep_conn (client codec m) (script always) k o >>= λ (x : Client × List ℕ).
          send (client codec m) (script always) (length x.1) x.1 x.0 k)
        (writes c [] idle running ready (omega arith))
      ∙ sends_all (client codec m) (length out) _ _ (record c { send_is_ready = false }) k
          (omega arith)
  asks_ok (some size) c k turn idle running ready small =
      ap
        (λ o. keep_conn (client codec m) (script always) k o >>= λ (x : Client × List ℕ).
          send (client codec m) (script always) size x.1 x.0 k)
        (writes c (replicate 1024 0) idle running ready (omega arith))
      ∙ sends_all (client codec m) size _ _ (record c { send_is_ready = false }) k turn

  pub takes :
      (c : Client) (proc : RemoteProcedure) (vs returns : List Variant)
      → length proc.rets ≡ length vs
      → All IsVariant vs
      → All NoZero vs
      → encode codec.to_bytes proc.rets vs ≡ ok c.rets
      → take_reply codec m c proc returns
        ≡ ok (record c { repl_is_ready = false; can_call = true }, received codec proc.rets vs)
  unfolding take_reply
  takes c proc vs returns n h z e =
      let got : from_binary codec.from_bytes m proc.rets c.rets returns
          ≡ ok (received codec proc.rets vs) =
        subst
          (λ l.
            from_binary codec.from_bytes m proc.rets l returns ≡ ok (received codec proc.rets vs))
          (append-nil c.rets)
          (from_binary-encode codec utf8 m proc.rets vs c.rets [] returns n h z e) in
      let count : (length (received codec proc.rets vs) == length proc.rets) ≡ true =
        ground (arith, length-received codec proc.rets vs n) in
      ap (replied codec m (record c { repl_is_ready = false; can_call = true }) proc) got
      ∙ rw count refl
