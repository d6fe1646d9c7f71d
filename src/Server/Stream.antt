-- ===== src/Server/Stream.antt =====
-- rpcmple_cpp/include/rpcmple/rpcServer.h under rpcmple_cpp/include/rpcmple/messageManager.h: a stream of
-- requests.
use rpcmple.Common.{ℕ, ◌<◌, ◌≡◌, refl, sym, ap, ap₂, ◌∙◌, arith, ltb, get_elem?}
use rpcmple.Common.{List, [], ◌∷◌, ◌++◌, append-nil, append_assoc, length, All, map, replicate}
use rpcmple.Common.{Outcome, ok, refused, ◌>>=◌, Bool, true, false}
use rpcmple.Signature.{Codec, IsUtf8}
use rpcmple.Signature.Received.{received}
use rpcmple.Manager.{Connection, handle, send, keep_conn, max_message, Parser}
use rpcmple.Manager.Stream.{Frame, fresh, feed_all, feed_all-append, feed_all_full, deliver, map_ok}
use rpcmple.Manager.Inbox.{Script, script, write_script}
use rpcmple.Server.{
  Procedure, Server, server, call, called, parse_message, parse_section, write_message,
}
use rpcmple.Server.Serve.{header, call_ok, call_fails, heard, heard_whole, replied}
use rpcmple.Server.Request.{Request, IsHeard, IsServed, request, requests, reply_to, IsIdle}

module _ (codec : Codec) (utf8 : IsUtf8 codec) (m : Bool) (accepts : List (List ℕ) → Bool) where
  abbrev p : Parser Server
  p = server codec m

  abbrev k : Connection Script
  k = script accepts

  -- What follows the parsing of a message: the reply is made and sent.
  abbrev replying : Script → Outcome Server Server → ℕ → Outcome (Server × Script) (Server × Script)
  replying c o size = do
    s' ← keep_conn p k c o
    (s'', reply) ← keep_conn p k c (write_message codec m s' (replicate 1024 0))
    send p k size reply s'' c

  handled :
      (bytes : List ℕ) (size : ℕ) (s : Server) (c : Script)
      → handle p k bytes size s c ≡ replying c (parse_message codec m s bytes) size
  unfolding handle server send
  handled bytes size s c = refl

  abbrev step : Server × Script → List ℕ → Outcome (Server × Script) (Frame Server Script)
  step x bytes = feed_all p k (fresh p k x) bytes

  stepped :
      (s : Server) (c : Script) (b : ℕ) (bytes : List ℕ)
      → length (b ∷ bytes) ≡ s.section_len
      → step (s, c) (b ∷ bytes) ≡ map_ok (fresh p k) (handle p k (b ∷ bytes) s.section_len s c)
  unfolding deliver server
  stepped s c b bytes n = feed_all_full p k (fresh p k (s, c)) b bytes (omega (arith, n))

  -- Behind a header that is followed by a body nothing is sent.
  step-header :
      (s : Server) (c : Script) (id n : ℕ)
      → s.section_id ≡ 0
      → s.section_len ≡ 4
      → id < 256
      → 0 < n
      → n < 16777216
      → step (s, c) (header id n)
        ≡ ok (fresh p k (record s { procedure_id = id; section_len = n; section_id = 1 }, c))
  unfolding write_message send
  step-header s c id n idle wants small some_ fits =
      stepped s c _ _ (sym wants)
      ∙ ap (map_ok (fresh p k)) (
          handled (header id n) s.section_len s c
          ∙ ap (λ o. replying c o s.section_len) (heard codec utf8 m s id n idle small some_ fits))

  send_reply :
      (size b : ℕ) (bytes : List ℕ) (s : Server) (c : Script)
      → accepts c.outbox ≡ true
      → size < 16777216
      → send p k size (b ∷ bytes) s c ≡ ok (s, record c { outbox = c.outbox ++ (b ∷ bytes) ∷ [] })
  unfolding send write_script
  send_reply size b bytes s c takes fits =
      let small : ltb max_message size ≡ false = ground arith in rw (small, takes) refl

  -- The server when it calls the procedure, and the size of the message that it then has: that of
  -- the header, if no body follows.
  abbrev asked : Server → ℕ → List ℕ → Server
  asked s id [] = record s { procedure_id = id; section_len = 0 }
  asked s id (b ∷ bytes) = record s {
    procedure_id = id;
    section_len = length (b ∷ bytes);
    section_id = 1;
  }

  abbrev last_size : List ℕ → ℕ
  last_size [] = 4
  last_size (b ∷ bytes) = length (b ∷ bytes)

  abbrev calls : Server → ℕ → List ℕ → Outcome Server Server
  calls s id bytes = call codec m (asked s id bytes) bytes >>= λ t.
      ok (record t { section_id = 0; section_len = 4 })

  -- A request, with a body or without one, calls the procedure once.
  step-request :
      (s : Server) (c : Script) (id : ℕ) (bytes : List ℕ)
      → s.section_id ≡ 0
      → s.section_len ≡ 4
      → id < 256
      → length bytes < 16777216
      → step (s, c) (header id (length bytes) ++ bytes)
        ≡ map_ok (fresh p k) (replying c (calls s id bytes) (last_size bytes))
  unfolding parse_message parse_section
  step-request s c id [] idle wants small fits =
      ap (step (s, c)) (append-nil (header id 0))
      ∙ stepped s c _ _ (sym wants)
      ∙ ap (map_ok (fresh p k)) (
          handled (header id 0) s.section_len s c
          ∙ ap (λ o. replying c o s.section_len) (heard_whole codec utf8 m s id idle small)
          ∙ ap (replying c (calls s id [])) wants)
  step-request s c id (b ∷ bytes) idle wants small fits =
      let s₁ : Server = asked s id (b ∷ bytes) in
      feed_all-append p k (fresh p k (s, c)) (header id (length (b ∷ bytes))) (b ∷ bytes)
      ∙ ap (λ o. o >>= λ f. feed_all p k f (b ∷ bytes))
          (step-header s c id (length (b ∷ bytes)) idle wants small (omega arith) fits)
      ∙ stepped s₁ c b bytes refl
      ∙ ap (map_ok (fresh p k)) (handled (b ∷ bytes) (length (b ∷ bytes)) s₁ c)

  -- The server behind a request that was served.
  abbrev pub behind : Server → Request → Server
  behind s r = record s {
    procedure_id = r.id;
    call_success = true;
    call_returns_serialized = r.reply;
    section_len = 4;
    section_id = 0;
  }

  abbrev pub replied_to : Script → Request → Script
  replied_to c r = record c { outbox = c.outbox ++ reply_to r ∷ [] }

  asked-procedures :
      (s : Server) (id : ℕ) (bytes : List ℕ)
      → (asked s id bytes).local_procedures ≡ s.local_procedures
  asked-procedures s id [] = refl
  asked-procedures s id (b ∷ bytes) = refl

  asked-id : (s : Server) (id : ℕ) (bytes : List ℕ) → (asked s id bytes).procedure_id ≡ id
  asked-id s id [] = refl
  asked-id s id (b ∷ bytes) = refl

  last_size-lt : (bytes : List ℕ) → length bytes < 16777216 → last_size bytes < 16777216
  last_size-lt [] h = omega arith
  last_size-lt (b ∷ bytes) h = h

  abbrev answered : Server → Request → Server
  answered s r = record s {
    call_success = true;
    call_returns_serialized = r.reply;
    section_len = 4;
    section_id = 0;
  }

  -- The section is that of a header again, whatever it was.
  asked-behind :
      (s : Server) (r : Request) (bytes : List ℕ) → answered (asked s r.id bytes) r ≡ behind s r
  asked-behind s r [] = refl
  asked-behind s r (b ∷ bytes) = refl

  served :
      (s : Server) (c : Script) (r : Request)
      → IsIdle s.local_procedures s
      → IsServed codec s.local_procedures r
      → accepts c.outbox ≡ true
      → step (s, c) (request r) ≡ ok (fresh p k (behind s r, replied_to c r))
  served s c r idle h takes =
      let q = h.heard_by in
      let answers =
        call_ok codec utf8 m (asked s r.id r.bytes) h.proc r.values r.returns r.bytes r.reply
          (ap₂ get_elem? (asked-procedures s r.id r.bytes) (asked-id s r.id r.bytes) ∙ q.found)
          q.counted q.typed q.unbroken q.encoded h.runs h.counted h.typed h.fits h.encoded in
      let parses : calls s r.id r.bytes ≡ ok (behind s r) =
        ap (λ o. o >>= λ (t : Server). ok (record t { section_id = 0; section_len = 4 })) answers
        ∙ ap ok (asked-behind s r r.bytes) in
      step-request s c r.id r.bytes idle.at_header idle.wants q.numbered q.sized
      ∙ ap (λ o. map_ok (fresh p k) (replying c o (last_size r.bytes))) parses
      ∙ ap
          (λ o.
            map_ok (fresh p k)
              (keep_conn p k c o >>= λ (s'', reply). send p k (last_size r.bytes) reply s'' c))
          (replied codec utf8 m (behind s r) (replicate 1024 0) refl h.sized)
      ∙ ap (map_ok (fresh p k))
          (send_reply (last_size r.bytes) _ _ (behind s r) c takes (last_size-lt r.bytes q.sized))

  -- All of a stream of requests are served, in their order.
  pub served_stream :
      ((out : List (List ℕ)) → accepts out ≡ true)
      → (s : Server) (c : Script) (rs : List Request) → IsIdle s.local_procedures s
      → All (IsServed codec s.local_procedures) rs
      → (s' : Server) × IsIdle s.local_procedures s'
        × (step (s, c) (requests rs)
            ≡ ok (fresh p k (s', record c { outbox = c.outbox ++ map reply_to rs })))
  unfolding feed_all
  served_stream takes s c [] idle h =
      (s, idle, ap (λ l. ok (fresh p k (s, record c { outbox = l }))) (sym (append-nil c.outbox)))
  served_stream takes s c (r ∷ rs) idle h =
      let (s', idle', e) =
        served_stream takes (behind s r) (replied_to c r) rs
          (record { serves = refl; at_header = refl; wants = refl }) h.1 in
      (
        s',
        idle',
        feed_all-append p k (fresh p k (s, c)) (request r) (requests rs)
            ∙ ap (λ o. o >>= λ f. feed_all p k f (requests rs))
                (served s c r idle h.0 (takes c.outbox))
            ∙ e
            ∙ ap (λ l. ok (fresh p k (s', record c { outbox = l })))
                (append_assoc c.outbox (reply_to r ∷ []) (map reply_to rs)),
      )

  -- A procedure that fails makes the server give up: nothing is sent.
  pub declined :
      (s : Server) (c : Script) (r : Request) (proc : Procedure)
      → IsIdle s.local_procedures s
      → IsHeard codec s.local_procedures r proc
      → (called proc (received codec proc.args r.values)).0 ≡ false
      → (s' : Server) × (step (s, c) (request r) ≡ refused (s', c))
  declined s c r proc idle h fails =
      let s₁ : Server = asked s r.id r.bytes in
      let parses : calls s r.id r.bytes ≡ refused s₁ =
        ap (λ o. o >>= λ (t : Server). ok (record t { section_id = 0; section_len = 4 }))
          (call_fails codec utf8 m s₁ proc r.values r.bytes
            (ap₂ get_elem? (asked-procedures s r.id r.bytes) (asked-id s r.id r.bytes) ∙ h.found)
            h.counted h.typed h.unbroken h.encoded fails) in
      (
        s₁,
        step-request s c r.id r.bytes idle.at_header idle.wants h.numbered h.sized
            ∙ ap (λ o. map_ok (fresh p k) (replying c o (last_size r.bytes))) parses,
      )
