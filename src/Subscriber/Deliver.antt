-- ===== src/Subscriber/Deliver.antt =====
-- rpcmple_cpp/include/rpcmple/dataSubscriber.h: a message, from its header to the callback.
use rpcmple.Common.{ℕ, ◌<◌, ◌≡◌, refl, ap, subst, ◌∙◌, arith}
use rpcmple.Common.{List, [], ◌∷◌, ◌++◌, append-nil, length, All}
use rpcmple.Common.{some, Outcome, ok, ◌>>=◌}
use rpcmple.Common.{Bool, true, ltb, ◌==◌}
use rpcmple.Endian.{le_bytes, bytes_to_uint32}
use rpcmple.Variant.{Variant}
use rpcmple.Signature.{Codec, IsUtf8}
use rpcmple.Signature.Reader.{from_binary}
use rpcmple.Signature.Wire.{encode, IsVariant}
use rpcmple.Signature.RoundTrip.{from_binary-encode}
use rpcmple.Signature.Received.{NoZero, received}
use rpcmple.Header.{header_val, header_val_parts, bytes_to_uint32-header}
use rpcmple.Subscriber.{
  Subscriber, call_back, deliver_args, parsed, parse_header, parse_section, parse_message,
}

abbrev pub receive : Codec → Bool → Subscriber → List ℕ → List ℕ → Outcome Subscriber Subscriber
receive codec m s head body = parse_message codec m s head >>= λ s'. parse_message codec m s' body

pub length-received :
    (codec : Codec) (sig : List ℕ) (vs : List Variant)
    → length sig ≡ length vs
    → length sig ≡ length (received codec sig vs)
unfolding received
length-received codec [] vs n = refl
length-received codec (char ∷ sig) [] n = absurd (omega arith)
length-received codec (char ∷ sig) (v ∷ vs) n =
    let ih = length-received codec sig vs (omega arith) in omega arith

module _ (codec : Codec) (utf8 : IsUtf8 codec) (m : Bool) where
  pub heard :
      (s : Subscriber) (n : ℕ)
      → s.section_id ≡ 0
      → 0 < n
      → n < 16777216
      → parse_message codec m s (le_bytes 4 (header_val 1 n))
        ≡ ok (record s { section_len = n; section_id = 1 })
  unfolding parse_message parse_section parse_header
  heard s n idle some_ fits =
      let head : List ℕ = le_bytes 4 (header_val 1 n) in
      let size = (header_val_parts 1 n (omega arith) fits).1 in
      let more : ltb 0 n ≡ true = ground arith in
      let read : bytes_to_uint32 m head true ≡ some (header_val 1 n) =
        subst (λ l. bytes_to_uint32 m l true ≡ some (header_val 1 n)) (append-nil head)
          (bytes_to_uint32-header m 1 n []) in
      rw (idle, read, size, more) refl

  delivers :
      (s : Subscriber) (args : List Variant)
      → s.has_callback ≡ true
      → length s.signature ≡ length args
      → deliver_args codec m s args
        ≡ ok (record s { delivered = s.delivered ++ args ∷ []; section_len = 4; section_id = 0 })
  unfolding deliver_args call_back
  delivers s args user n =
      let same : (length s.signature == length args) ≡ true = ground arith in rw (user, same) refl

  -- A subscriber that waits for a header, given the header and the body of a message, calls the
  -- callback once with the values that the body encodes, and waits for a header again. The body is
  -- the encoding of values of the C++ types, as many as the subscriber's signature says, with no
  -- zero character in a wide string, and its size is one that the header can tell, not 0.
  pub receive_ok :
      (s : Subscriber) (vs : List Variant) (bs : List ℕ)
      → s.section_id ≡ 0
      → s.has_callback ≡ true
      → length s.signature ≡ length vs
      → All IsVariant vs
      → All NoZero vs
      → encode codec.to_bytes s.signature vs ≡ ok bs
      → 0 < length bs
      → length bs < 16777216
      → receive codec m s (le_bytes 4 (header_val 1 (length bs))) bs
        ≡ ok (record s {
          delivered = s.delivered ++ received codec s.signature vs ∷ [];
          section_len = 4;
          section_id = 0;
        })
  unfolding parse_message parse_section
  receive_ok s vs bs idle user n h z e some_ fits =
      let s' : Subscriber = record s { section_len = length bs; section_id = 1 } in
      let args : List Variant = received codec s.signature vs in
      let got : from_binary codec.from_bytes m s.signature bs [] ≡ ok args =
        subst (λ l. from_binary codec.from_bytes m s.signature l [] ≡ ok args) (append-nil bs)
          (from_binary-encode codec utf8 m s.signature vs bs [] [] n h z e) in
      ap (λ o. o >>= λ s'. parse_message codec m s' bs) (heard s (length bs) idle some_ fits)
      ∙ ap (parsed codec m s') got
      ∙ delivers s' args user (length-received codec s.signature vs n)
