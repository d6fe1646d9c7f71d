-- ===== src/Client/Remote.antt =====
-- rpcmple_cpp/include/rpcmple/rpcClient.h and rpcmple_cpp/include/rpcmple/rpcServer.h: a remote call,
-- from the caller's arguments to the caller's returns, with the messages cut as `dataFlow` cuts
-- them: four bytes of header, then the body.
use rpcmple.Common.{ℕ, ◌<◌, ◌≡◌, ap, ◌∙◌, arith}
use rpcmple.Common.{List, length, All, get_elem?, take, drop}
use rpcmple.Common.{Outcome, ok, refused, thrown, fault, ◌>>=◌, Bool, true, false, some}
use rpcmple.Variant.{Variant}
use rpcmple.Signature.{Codec, IsUtf8}
use rpcmple.Signature.Wire.{encode, IsVariant, VariantFits}
use rpcmple.Signature.Received.{NoZero, received}
use rpcmple.Server.{Server, Procedure, called}
use rpcmple.Server.{server}
use rpcmple.Server.Serve.{header, serve_ok}
use rpcmple.Common.{[], ◌∷◌, ◌++◌, append-nil, Option, refl, bind_ok}
use rpcmple.Manager.Inbox.{Script, join}
use rpcmple.Manager.Handled.{hand}
use rpcmple.Client.{Client, RemoteProcedure, post, take_reply, parse_section, parse_message}
use rpcmple.Client.Call.{MayTurn, posts, asks, asks_ok, hear, hear_ok, takes}

-- An outcome without what a failure leaves.
abbrev pub forget : {E A : Type 0} → Outcome E A → Outcome (Unit {0}) A
forget (ok a) = ok a
forget (refused e) = refused tt
forget thrown = thrown
forget fault = fault

-- A connection over which nothing has been sent.
abbrev pub silent : Script
silent = record { inbox = []; outbox = [] }

-- `callSync` between its two waits, the client's and the server's `dataFlow`, each given all that the
-- other has written, and the rest of `callSync`; with the messages that each has written. The client
-- is on a machine of byte order m, the server on one of m'; `turn` says behind which message of the
-- client's data flow the call comes.
abbrev pub remote_call :
    Codec
    → Bool
    → Bool
    → Option ℕ
    → Client
    → Server
    → ℕ
    → RemoteProcedure
    → List Variant
    → List Variant
    → Outcome (Unit {0}) (Client × Server × List Variant × List (List ℕ) × List (List ℕ))
remote_call codec m m' turn c s id proc vs returns = do
  c₁ ← forget (post codec m c id proc vs)
  (c₂, k₁) ← forget (asks codec m turn c₁ silent)
  (s', l) ←
      forget (hand (server codec m') (take 4 (join k₁.outbox)) (drop 4 (join k₁.outbox)) s silent)
  (c₃, k₂) ← forget (hear codec m (take 4 (join l.outbox)) (drop 4 (join l.outbox)) c₂ k₁)
  (c₄, returns') ← forget (take_reply codec m c₃ proc returns)
  ok (c₄, s', returns', k₂.outbox, l.outbox)

pub remote_call_ok :
    (codec : Codec)
    → IsUtf8 codec
    → (m m' : Bool) (turn : Option ℕ) (c : Client) (s : Server) (id : ℕ) (proc : RemoteProcedure)
      (local : Procedure) (vs rets returns : List Variant) (bs out : List ℕ)
    → MayTurn turn
    → c.section_id ≡ 0
    → c.stop_wait ≡ false
    → s.section_id ≡ 0
    → id < 256
    → get_elem? s.local_procedures id ≡ some local
    → proc.args ≡ local.args
    → proc.rets ≡ local.rets
    → length local.args ≡ length vs
    → All IsVariant vs
    → All (VariantFits codec.to_bytes) vs
    → All NoZero vs
    → encode codec.to_bytes local.args vs ≡ ok bs
    → length bs < 16777216
    → called local (received codec local.args vs) ≡ (true, rets)
    → length local.rets ≡ length rets
    → All IsVariant rets
    → All (VariantFits codec.to_bytes) rets
    → All NoZero rets
    → encode codec.to_bytes local.rets rets ≡ ok out
    → length out < 16777216
    → remote_call codec m m' turn c s id proc vs returns
      ≡ ok (
        record c {
          args = bs;
          procedure_id = id;
          can_call = true;
          send_is_ready = false;
          repl_is_ready = false;
          call_success_int = 1;
          rets = out;
          section_id = 0;
          section_len = 4;
        },
        record s {
          procedure_id = id;
          call_success = true;
          call_returns_serialized = out;
          section_len = 4;
          section_id = 0;
        },
        received codec local.rets rets,
        (header id (length bs) ++ bs) ∷ [],
        (header 1 (length out) ++ out) ∷ [],
      )
unfolding parse_message parse_section
remote_call_ok codec utf8 m m' turn c s id proc local vs rets returns bs out may idle running idle'
      small found same_args same_rets n h fits z e limit runs n' h' fits' z' e' limit' =
    let c₁ : Client = record c {
      args = bs;
      procedure_id = id;
      can_call = false;
      send_is_ready = true;
    } in
    let c₂ : Client = record c₁ { send_is_ready = false } in
    let c₃ : Client = record c₂ {
      call_success_int = 1;
      rets = out;
      repl_is_ready = true;
      section_id = 0;
      section_len = 4;
    } in
    let c₅ : Client = record c₃ { repl_is_ready = false; can_call = true } in
    let s' : Server = record s {
      procedure_id = id;
      call_success = true;
      call_returns_serialized = out;
      section_len = 4;
      section_id = 0;
    } in
    let request : List ℕ = header id (length bs) ++ bs in
    let reply : List ℕ = header 1 (length out) ++ out in
    let k : Script = record { inbox = []; outbox = request ∷ [] } in
    bind_ok _ (
      ap forget (
        posts codec utf8 m c id proc vs bs running (ap length same_args ∙ n) h fits
          (ap (λ sig. encode codec.to_bytes sig vs) same_args ∙ e)))
    ∙ bind_ok _ (ap forget (asks_ok codec utf8 m turn c₁ silent may idle running refl limit))
    ∙ bind_ok _ (
        ap (λ l. forget (hand (server codec m') (take 4 l) (drop 4 l) s silent))
          (append-nil request)
        ∙ ap forget (
            serve_ok codec utf8 m' s id local vs rets bs out silent idle' small found n h z e limit
              runs n' h' fits' e' (omega arith)))
    ∙ bind_ok _ (
        ap (λ l. forget (hear codec m (take 4 l) (drop 4 l) c₂ k)) (append-nil reply)
        ∙ ap forget (hear_ok codec utf8 m c₂ 1 out k idle refl running (omega arith) limit'))
    ∙ bind_ok _ (
        ap forget (
          takes codec utf8 m c₃ proc rets returns (ap length same_rets ∙ n') h' z'
            (ap (λ sig. encode codec.to_bytes sig rets) same_rets ∙ e')))
    ∙ ap (λ sig. ok (c₅, s', received codec sig rets, request ∷ [], reply ∷ [])) same_rets
