-- ===== src/Server/Answers.antt =====
-- rpcmple_cpp/include/rpcmple/rpcServer.h under rpcmple_cpp/include/rpcmple/messageManager.h: what a server
-- writes over a connection whose reads are given beforehand.
use rpcmple.Common.{ℕ, suc, ◌≡◌, refl, sym, ap, subst, ◌∙◌, arith}
use rpcmple.Common.{List, [], ◌++◌, length, All, map, replicate}
use rpcmple.Common.{Option, none, some, ok, refused, ◌>>=◌, Bool, true, false}
use rpcmple.Signature.{Codec, IsUtf8}
use rpcmple.Signature.Received.{received}
use rpcmple.Manager.{make, State}
use rpcmple.Manager.Stream.{Frame, fresh, feed_all, feed_all-append}
use rpcmple.Manager.Script.{Shows, data_flow-Shows}
use rpcmple.Manager.Inbox.{Script, script, join}
use rpcmple.Manager.DataFlow.{Ended, closed, crashed, undefined, data_flow}
use rpcmple.Server.{Procedure, Server, server, called}
use rpcmple.Server.Stream.{served_stream, declined}
use rpcmple.Server.Request.{Request, IsHeard, IsServed, IsIdle, request, requests, reply_to}
use rpcmple.Server.Steady.{Waits, server-IsSteady}

module _ (codec : Codec) (m : Bool) (accepts : List (List ℕ) → Bool) where
  -- The connection is closed, with these writes.
  abbrev pub EndsWith : Option (Ended Server Script) → List (List ℕ) → Type 0
  EndsWith r out =
      (s : State Server Script) × (callback : Bool) × (r ≡ some (closed s callback))
      × (s.conn.outbox ≡ out)

  shown :
      (r : Option (Ended Server Script)) (f : Frame Server Script)
      → Shows (server codec m) accepts r (ok f)
      → EndsWith r f.conn.outbox
  shown (some (closed s callback)) f h = (s, callback, refl, h.1)
  shown (some crashed) f h = absurd h
  shown (some undefined) f h = absurd h
  shown none f h = absurd h

  shown_refused :
      (r : Option (Ended Server Script)) (s : Server) (c : Script)
      → Shows (server codec m) accepts r (refused (s, c))
      → EndsWith r c.outbox
  shown_refused (some (closed s callback)) t c h = (s, callback, refl, h.1)
  shown_refused (some crashed) t c h = absurd h
  shown_refused (some undefined) t c h = absurd h
  shown_refused none t c h = absurd h

  -- `dataFlow` of a server from its construction on, over these reads.
  abbrev pub runs : Bool → Server → List (List ℕ) → Option (Ended Server Script)
  runs callback s xs =
      data_flow (server codec m) (script accepts) callback (replicate (suc (length xs)) false)
        (make s (record { inbox = xs; outbox = [] }) false)

  module _ (utf8 : IsUtf8 codec) (takes : (out : List (List ℕ)) → accepts out ≡ true)
      (callback : Bool) (s : Server) (idle : IsIdle s.local_procedures s) where
    shows :
        (xs : List (List ℕ))
        → Shows (server codec m) accepts (runs callback s xs) (
            feed_all
              (server codec m)
              (script accepts)
              (fresh (server codec m) (script accepts) (s, record { inbox = xs; outbox = [] }))
              (join xs))
    shows xs =
        data_flow-Shows (server codec m) accepts Waits (server-IsSteady codec m (script accepts))
          callback s xs (omega (arith, idle.wants))

    -- A server that is given, in any number of reads, a stream of requests one behind the other
    -- runs `dataFlow` to its end, when nothing more comes, with the connection closed, and has
    -- written one reply to each, in their order: the four bytes of the header for the high part 1
    -- and the size of the encoding of what the procedure returned, which tells of success and of
    -- that size where it is less than 16777216, and that encoding on the values of that request,
    -- as `fromBinary` gives them. Each request has the number, below 256, of a procedure of the
    -- server, values as many as the procedure's signature says, of the C++ types, without zero
    -- characters in wide strings, and an encoding of a size that the header can tell; the
    -- procedure succeeds on them, with returns that have an encoding of at most 16777216 bytes and
    -- no array or string of exactly 65536 elements. The server waits for a header, does not send
    -- first, all writes succeed, and nobody asks for a stop.
    pub data_flow-serves :
        (rs : List Request) (xs : List (List ℕ))
        → All (IsServed codec s.local_procedures) rs
        → join xs ≡ requests rs
        → EndsWith (runs callback s xs) (map reply_to rs)
    unfolding server
    data_flow-serves rs xs h e =
        let p = server codec m in
        let c : Script = record { inbox = xs; outbox = [] } in
        let (s', idle', fed) = served_stream codec utf8 m accepts takes s c rs idle h in
        shown _ _ (
          subst (Shows p accepts (runs callback s xs))
            (ap (feed_all p (script accepts) (fresh p (script accepts) (s, c))) e ∙ fed) (shows xs))

    -- A request whose procedure fails ends the server's `dataFlow`: the connection is closed, the
    -- requests before it have had their replies, and neither to this one nor to anything behind it
    -- is a reply written, however the stream is cut into reads. The requests before it are served,
    -- as in `data_flow-serves`, and it reaches a procedure of the server with values that can be
    -- decoded. The server waits for a header, does not send first, all writes succeed, and nobody
    -- asks for a stop.
    pub data_flow-gives_up :
        (rs : List Request) (r : Request) (proc : Procedure) (more : List ℕ) (xs : List (List ℕ))
        → All (IsServed codec s.local_procedures) rs
        → IsHeard codec s.local_procedures r proc
        → (called proc (received codec proc.args r.values)).0 ≡ false
        → join xs ≡ requests rs ++ (request r ++ more)
        → EndsWith (runs callback s xs) (map reply_to rs)
    unfolding server
    data_flow-gives_up rs r proc more xs h heard fails e =
        let p = server codec m in
        let c : Script = record { inbox = xs; outbox = [] } in
        let (s', idle', fed) = served_stream codec utf8 m accepts takes s c rs idle h in
        let c' : Script = record c { outbox = map reply_to rs } in
        let (s'', stops) =
          declined codec utf8 m accepts s' c' r proc
            (record { serves = refl; at_header = idle'.at_header; wants = idle'.wants })
            (subst (λ l. IsHeard codec l r proc) (sym idle'.serves) heard) fails in
        shown_refused _ s'' c' (
          subst (Shows p accepts (runs callback s xs))
            (ap (feed_all p (script accepts) (fresh p (script accepts) (s, c))) e
              ∙ feed_all-append p (script accepts) (fresh p (script accepts) (s, c)) (requests rs)
                  (request r ++ more)
              ∙ ap (λ o. o >>= λ f. feed_all p (script accepts) f (request r ++ more)) fed
              ∙ feed_all-append p (script accepts) (fresh p (script accepts) (s', c')) (request r)
                  more
              ∙ ap (λ o. o >>= λ f. feed_all p (script accepts) f more) stops)
            (shows xs))
