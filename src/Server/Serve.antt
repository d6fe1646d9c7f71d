-- ===== src/Server/Serve.antt =====
-- rpcmple_cpp/include/rpcmple/rpcServer.h: a request, from its header to the reply.
use rpcmple.Common.{ℕ, ◌+◌, ◌≤◌, ◌<◌, ◌≡◌, refl, ap, subst, ◌∙◌, arith}
use rpcmple.Common.{
  List, [], ◌∷◌, ◌++◌, append-nil, length, get_elem?, replicate, resize_exact, All,
}
use rpcmple.Common.{some, ok, refused, ◌>>=◌, or_fault}
use rpcmple.Common.{Bool, true, false, ltb, ◌==◌, if◌then◌else◌}
use rpcmple.Endian.{le_bytes, bytes_to_uint32}
use rpcmple.Variant.{Variant, default_variant}
use rpcmple.Signature.{Codec, IsUtf8}
use rpcmple.Signature.Reader.{from_binary}
use rpcmple.Signature.Wire.{encode, IsVariant, VariantFits}
use rpcmple.Signature.RoundTrip.{from_binary-encode}
use rpcmple.Signature.Received.{NoZero, received}
use rpcmple.Signature.Exchange.{to_binary_ok}
use rpcmple.Header.{header_val, put_message-append, header_val_parts, bytes_to_uint32-header}
use rpcmple.Manager.{handle}
use rpcmple.Manager.Inbox.{Script, script, always}
use rpcmple.Manager.Handled.{hand, handle_replies, handle_silent}
use rpcmple.Server.{
  server, Procedure, Server, called, call, run_found, answer, run_procedure, parse_header,
  parse_section, parse_message, write_message, values_of,
}

-- The bytes in front of a message.
abbrev pub header : ℕ → ℕ → List ℕ
header high size = le_bytes 4 (header_val high size)

module _ (codec : Codec) (utf8 : IsUtf8 codec) (m : Bool) where
  -- The values of a request are those that its body encodes.
  decodes :
      (proc : Procedure) (vs : List Variant) (bs : List ℕ)
      → length proc.args ≡ length vs
      → All IsVariant vs
      → All NoZero vs
      → encode codec.to_bytes proc.args vs ≡ ok bs
      → from_binary codec.from_bytes m proc.args bs (replicate (length proc.args) default_variant)
        ≡ ok (received codec proc.args vs)
  decodes proc vs bs n h z e =
      subst
        (λ l.
          from_binary codec.from_bytes m proc.args l (replicate (length proc.args) default_variant)
          ≡ ok (received codec proc.args vs))
        (append-nil bs)
        (from_binary-encode codec utf8 m proc.args vs bs []
          (replicate (length proc.args) default_variant) n h z e)

  -- The procedure is run on the received arguments, and its returns are put into bytes.
  pub call_ok :
      (s : Server) (proc : Procedure) (vs rets : List Variant) (bs out : List ℕ)
      → get_elem? s.local_procedures s.procedure_id ≡ some proc
      → length proc.args ≡ length vs
      → All IsVariant vs
      → All NoZero vs
      → encode codec.to_bytes proc.args vs ≡ ok bs
      → called proc (received codec proc.args vs) ≡ (true, rets)
      → length proc.rets ≡ length rets
      → All IsVariant rets
      → All (VariantFits codec.to_bytes) rets
      → encode codec.to_bytes proc.rets rets ≡ ok out
      → call codec m s bs ≡ ok (record s { call_success = true; call_returns_serialized = out })
  unfolding call run_found run_procedure answer
  call_ok s proc vs rets bs out found n h z e runs n' h' fits' e' =
      let got' = decodes proc vs bs n h z e in
      let count : (length rets == length proc.rets) ≡ true = ground (arith, n') in
      let put = to_binary_ok codec m proc.rets rets out s.call_returns_serialized n' h' fits' e' in
      ap (run_found codec m s bs) found
      ∙ ap (λ o. values_of codec m o >>= λ args. answer codec m s proc (called proc args)) got'
      ∙ ap (answer codec m s proc) runs
      ∙ rw (count, put) refl

  -- A procedure that fails makes `call` fail, and what earlier calls returned stays.
  pub call_fails :
      (s : Server) (proc : Procedure) (vs : List Variant) (bs : List ℕ)
      → get_elem? s.local_procedures s.procedure_id ≡ some proc
      → length proc.args ≡ length vs
      → All IsVariant vs
      → All NoZero vs
      → encode codec.to_bytes proc.args vs ≡ ok bs
      → (called proc (received codec proc.args vs)).0 ≡ false
      → call codec m s bs ≡ refused s
  unfolding call run_found run_procedure answer
  call_fails s proc vs bs found n h z e fails =
      ap (run_found codec m s bs) found
      ∙ ap (λ o. values_of codec m o >>= λ args. answer codec m s proc (called proc args))
          (decodes proc vs bs n h z e)
      ∙ declines (called proc (received codec proc.args vs)) fails
    where
      declines : (r : Bool × List Variant) → r.0 ≡ false → answer codec m s proc r ≡ refused s
      declines r no_ = rw no_ refl

  pub heard :
      (s : Server) (id n : ℕ)
      → s.section_id ≡ 0
      → id < 256
      → 0 < n
      → n < 16777216
      → parse_message codec m s (header id n)
        ≡ ok (record s { procedure_id = id; section_len = n; section_id = 1 })
  unfolding parse_message parse_section parse_header
  heard s id n idle small some_ fits =
      let (high, size) = header_val_parts id n small fits in
      let more : ltb 0 n ≡ true = ground arith in
      let read : bytes_to_uint32 m (header id n) true ≡ some (header_val id n) =
        subst (λ l. bytes_to_uint32 m l true ≡ some (header_val id n)) (append-nil (header id n))
          (bytes_to_uint32-header m id n []) in
      rw (idle, read, high, size, more) refl

  -- A header that is not followed by a body is the whole request.
  pub heard_whole :
      (s : Server) (id : ℕ)
      → s.section_id ≡ 0
      → id < 256
      → parse_message codec m s (header id 0) ≡ (
          call codec m (record s { procedure_id = id; section_len = 0 }) [] >>= λ t.
          ok (record t { section_id = 0; section_len = 4 }))
  unfolding parse_message parse_section parse_header
  heard_whole s id idle small =
      let (high, size) = header_val_parts id 0 small (omega arith) in
      let read : bytes_to_uint32 m (header id 0) true ≡ some (header_val id 0) =
        subst (λ l. bytes_to_uint32 m l true ≡ some (header_val id 0)) (append-nil (header id 0))
          (bytes_to_uint32-header m id 0 []) in
      ap (λ (n : ℕ). parse_section codec m n s (header id 0)) idle
      ∙ ap (λ o. or_fault o >>= parse_header codec m s) read
      ∙ rw (high, size) refl

  pub replied :
      (s : Server) (buffer : List ℕ)
      → s.section_id ≡ 0
      → length s.call_returns_serialized ≤ 16777216
      → write_message codec m s buffer
        ≡ ok (
          s,
          header (if s.call_success then 1 else 0) (length s.call_returns_serialized)
              ++ s.call_returns_serialized,
        )
  unfolding write_message
  replied s buffer idle small =
      let out : List ℕ = s.call_returns_serialized in
      let high : ℕ = if s.call_success then 1 else 0 in
      let short : ltb 16777216 (length out) ≡ false = ground arith in
      let put = put_message-append m high out [] buffer in
      let s' : Server = record s { section_id = 0 } in
      rw (idle, short, put)
        (ap (λ l. ok (s', l))
          (resize_exact (4 + length out) 0 (header high (length out) ++ out) (omega arith)))

  -- The server behind a request that was served.
  abbrev pub served : Server → ℕ → List ℕ → Server
  served s id out = record s {
    procedure_id = id;
    call_success = true;
    call_returns_serialized = out;
    section_len = 4;
    section_id = 0;
  }

  -- A request, handled whole.
  pub serve_ok :
      (s : Server) (id : ℕ) (proc : Procedure) (vs rets : List Variant) (bs out : List ℕ)
      (k : Script)
      → s.section_id ≡ 0
      → id < 256
      → get_elem? s.local_procedures id ≡ some proc
      → length proc.args ≡ length vs
      → All IsVariant vs
      → All NoZero vs
      → encode codec.to_bytes proc.args vs ≡ ok bs
      → length bs < 16777216
      → called proc (received codec proc.args vs) ≡ (true, rets)
      → length proc.rets ≡ length rets
      → All IsVariant rets
      → All (VariantFits codec.to_bytes) rets
      → encode codec.to_bytes proc.rets rets ≡ ok out
      → length out ≤ 16777216
      → hand (server codec m) (header id (length bs)) bs s k
        ≡ ok
            (served s id out, record k { outbox = k.outbox ++ (header 1 (length out) ++ out) ∷ [] })
  unfolding server parse_message parse_section write_message
  serve_ok s id proc vs rets [] out k idle small found n h z e fits runs n' h' fits' e' fits_out =
      let s₁ : Server = record s { procedure_id = id; section_len = 0 } in
      let parses : parse_message codec m s (header id 0) ≡ ok (served s id out) =
        heard_whole s id idle small
        ∙ ap (λ o. o >>= λ (t : Server). ok (record t { section_id = 0; section_len = 4 }))
            (call_ok s₁ proc vs rets [] out found n h z e runs n' h' fits' e') in
      handle_replies (server codec m) (header id 0) 4 _ _ s (served s id out) (served s id out) k
        parses (replied (served s id out) (replicate 1024 0) refl fits_out) (omega arith)
  serve_ok s id proc vs rets (b ∷ bs) out k idle small found n h z e fits runs n' h' fits' e'
        fits_out =
      let size : ℕ = length (b ∷ bs) in
      let s₁ : Server = record s { procedure_id = id; section_len = size; section_id = 1 } in
      ap
        (λ o. o >>= λ (x : Server × Script).
          handle (server codec m) (script always) (b ∷ bs) size x.0 x.1)
        (handle_silent (server codec m) (header id size) 4 s s₁ s₁ k
          (heard s id size idle small (omega arith) fits) refl)
      ∙ handle_replies (server codec m) (b ∷ bs) size _ _ s₁ (served s id out) (served s id out) k
          (ap (λ o. o >>= λ (t : Server). ok (record t { section_id = 0; section_len = 4 }))
            (call_ok s₁ proc vs rets (b ∷ bs) out found n h z e runs n' h' fits' e'))
          (replied (served s id out) (replicate 1024 0) refl fits_out) (omega arith)
