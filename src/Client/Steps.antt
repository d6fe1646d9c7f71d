-- ===== src/Client/Steps.antt =====
-- rpcmple_cpp/include/rpcmple/rpcClient.h: one caller of `callSync` at a time, and the data flow, which takes
-- turns with it at the locks. Nobody asks for a stop.
use rpcmple.Common.{ℕ, ◌≡◌}
use rpcmple.Common.{
  Bool, true, false, ◌==◌, if◌then◌else◌, List, [], ◌∷◌, ◌++◌, length, ok, refused,
}
use rpcmple.Variant.{Variant}
use rpcmple.Signature.{Codec}
use rpcmple.Server.Serve.{header}
use rpcmple.Client.{
  Client, RemoteProcedure, admit, may_call, awaits_call, has_reply, post, take_reply, write_message,
  parse_message,
}

-- Where the caller is: not in `callSync`, behind its first wait, or at its second.
pub data Phase : Type 0 where
  idle : Phase
  admitted : ℕ → RemoteProcedure → List Variant → Phase
  waiting : RemoteProcedure → Phase

-- Where the data flow is: in `writeMessage`, at a read, or at its end.
pub data Flow : Type 0 where
  sending receiving ended : Flow

-- Besides the client: the requests that were posted and those that were written, and the returns that
-- were received and those that were taken.
pub record Calling : Type 0 where
  pub client : Client
  pub phase : Phase
  pub flow : Flow
  pub posted : List (List ℕ)
  pub sent : List (List ℕ)
  pub replies : List (List ℕ)
  pub taken : List (List ℕ)

abbrev pub request_of : Client → List ℕ
request_of c = header c.procedure_id (length c.args) ++ c.args

-- Nothing is written where `writeMessage` gives no bytes.
abbrev pub put : List (List ℕ) → List ℕ → List (List ℕ)
put sent [] = sent
put sent (b ∷ bytes) = sent ++ (b ∷ bytes) ∷ []

abbrev pub replies_behind : Client → List (List ℕ) → List (List ℕ)
replies_behind c replies = if c.section_id == 0 then replies ++ c.rets ∷ [] else replies

module _ (codec : Codec) (m : Bool) where
  pub data Step (s : Calling) : Calling → Type 0 where
    admits :
        (id : ℕ) (proc : RemoteProcedure) (vs : List Variant)
        → s.phase ≡ idle
        → admit s.client id vs ≡ ok proc
        → may_call s.client ≡ true
        → Step s (record s { phase = admitted id proc vs })
    posts :
        (id : ℕ) (proc : RemoteProcedure) (vs : List Variant) (c : Client)
        → s.phase ≡ admitted id proc vs
        → post codec m s.client id proc vs ≡ ok c
        → Step s
            (record s { client = c; phase = waiting proc; posted = s.posted ++ request_of c ∷ [] })
    post_fails :
        (id : ℕ) (proc : RemoteProcedure) (vs : List Variant) (c : Client)
        → s.phase ≡ admitted id proc vs
        → post codec m s.client id proc vs ≡ refused c
        → Step s (record s { client = c; phase = idle })
    writes :
        (buffer out : List ℕ) (c : Client)
        → s.flow ≡ sending
        → awaits_call s.client ≡ false
        → write_message codec m s.client buffer ≡ ok (c, out)
        → Step s (record s { client = c; sent = put s.sent out; flow = receiving })
    parses :
        (message : List ℕ) (c : Client)
        → s.flow ≡ receiving
        → parse_message codec m s.client message ≡ ok c
        → Step s (record s { client = c; replies = replies_behind c s.replies; flow = sending })
    breaks : Step s (record s { flow = ended })
    takes :
        (proc : RemoteProcedure) (returns returns' : List Variant) (c : Client)
        → s.phase ≡ waiting proc
        → has_reply s.client ≡ true
        → take_reply codec m s.client proc returns ≡ ok (c, returns')
        → Step s (record s { client = c; phase = idle; taken = s.taken ++ s.client.rets ∷ [] })
    take_fails :
        (proc : RemoteProcedure) (returns returns' : List Variant) (c : Client)
        → s.phase ≡ waiting proc
        → has_reply s.client ≡ true
        → take_reply codec m s.client proc returns ≡ refused (c, returns')
        → Step s (record s { client = c; phase = idle; taken = s.taken ++ s.client.rets ∷ [] })

  pub data Reach (s : Calling) : Calling → Type 0 where
    here : Reach s s
    next : {t u : Calling} → Reach s t → Step t u → Reach s u

abbrev pub begin : Client → Calling
begin c = record {
  client = c;
  phase = idle;
  flow = sending;
  posted = [];
  sent = [];
  replies = [];
  taken = [];
}
