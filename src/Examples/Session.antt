-- ===== src/Examples/Session.antt =====
-- rpcmple_cpp/src_examples/example4RPCClientOverTCP.cpp: what `main` gets.
use rpcmple.Common.{◌<◌, ◌≡◌, refl, sym, ap, ◌∙◌, arith}
use rpcmple.Common.{[], length, All, get_elem?, some, Bool, true, false}
use rpcmple.Common.{Outcome, ok, ◌>>=◌, ◌==◌, if◌then◌else◌, or_fault, or_refused}
use rpcmple.Variant.{Text}
use rpcmple.Signature.{Codec, IsUtf8}
use rpcmple.Signature.Wire.{VariantFits}
use rpcmple.Signature.Received.{NoZero, received}
use rpcmple.Server.{Procedure, Server}
use rpcmple.Server.Request.{Request, IsServed}
use rpcmple.Client.{Client, RemoteProcedure, find_procedure, admit, rpc_complete, lookup}
use rpcmple.Client.Call.{MayTurn}
use rpcmple.Common.{ℕ, ◌<◌, bind_ok, Option}
use rpcmple.Client.Remote.{forget, remote_call, remote_call_ok}
use rpcmple.Examples.{example_server, example_client, call_sync}

some_injective : {a b : Procedure} → some a ≡ some b → a ≡ b
some_injective e = cc

-- Client and server are those of the example, and between two calls.
pub record IsReady (c : Client) (s : Server) : Type 0 where
  pub calls : c.remote_procedures ≡ example_client.remote_procedures
  pub names : c.remote_procedures_map ≡ example_client.remote_procedures_map
  pub idle : c.section_id ≡ 0
  pub small : length c.rets < 16777216
  pub complete : rpc_complete c ≡ true
  pub running : c.stop_wait ≡ false
  pub serves : s.local_procedures ≡ example_server.local_procedures
  pub waits : s.section_id ≡ 0

-- A call of a procedure by its name: the server can serve it, and the client can make it.
pub record IsCall (codec : Codec) (name : Text) (r : Request) : Type 0 where
  pub remote : RemoteProcedure
  pub local : Procedure
  pub served : IsServed codec example_server.local_procedures r
  pub named : lookup name example_client.remote_procedures_map ≡ some r.id
  pub known : get_elem? example_client.remote_procedures r.id ≡ some remote
  pub found : get_elem? example_server.local_procedures r.id ≡ some local
  pub same_args : remote.args ≡ local.args
  pub same_rets : remote.rets ≡ local.rets
  pub fits : All (VariantFits codec.to_bytes) r.values
  pub unbroken : All NoZero r.returns
  pub sized : length r.reply < 16777216
  pub arrives : received codec local.rets r.returns ≡ r.returns

module _ (codec : Codec) (utf8 : IsUtf8 codec) (m m' : Bool) where
  -- Both are ready for the next call behind each of them.
  pub call_sync_ok :
      (turn : Option ℕ) (c : Client) (s : Server) (name : Text) (r : Request)
      → MayTurn turn
      → IsReady c s
      → IsCall codec name r
      → (c' : Client) × (s' : Server) × IsReady c' s'
        × (call_sync codec m m' turn c s name r.values ≡ ok (c', s', r.returns))
  unfolding call_sync rpc_complete find_procedure admit
  call_sync_ok turn c s name r may ready call =
      let serves = call.served in
      let hears = serves.heard_by in
      let same : call.local ≡ serves.proc = some_injective (sym call.found ∙ hears.found) in
      let c' : Client = record c {
        can_call = true;
        send_is_ready = false;
        repl_is_ready = false;
        procedure_id = r.id;
        args = r.bytes;
        call_success_int = 1;
        rets = r.reply;
        section_len = 4;
        section_id = 0;
      } in
      let s' : Server = record s {
        procedure_id = r.id;
        call_success = true;
        call_returns_serialized = r.reply;
        section_len = 4;
        section_id = 0;
      } in
      let count : (length r.values == length call.remote.args) ≡ true = ground (
        arith,
        ap length call.same_args ∙ ap (λ (p : Procedure). length p.args) same ∙ hears.counted,
      ) in
      let finds : lookup name c.remote_procedures_map ≡ some r.id =
        ap (lookup name) ready.names ∙ call.named in
      let knows : get_elem? c.remote_procedures r.id ≡ some call.remote =
        ap (λ l. get_elem? l r.id) ready.calls ∙ call.known in
      let runs =
        remote_call_ok codec utf8 m m' turn c s r.id call.remote serves.proc r.values r.returns []
          r.bytes r.reply may ready.idle ready.running ready.waits hears.numbered
          (ap (λ l. get_elem? l r.id) ready.serves ∙ hears.found)
          (call.same_args ∙ ap (λ (p : Procedure). p.args) same)
          (call.same_rets ∙ ap (λ (p : Procedure). p.rets) same) hears.counted hears.typed call.fits
          hears.unbroken hears.encoded hears.sized serves.runs serves.counted serves.typed
          serves.fits call.unbroken serves.encoded call.sized in
      (
        c',
        s',
        record {
          calls = ready.calls;
          names = ready.names;
          idle = refl;
          small = call.sized;
          complete = refl;
          running = ready.running;
          serves = ready.serves;
          waits = refl;
        },
        ap
              (λ o. forget (or_refused c o) >>= λ id. forget (admit c id r.values) >>= λ proc.
                remote_call codec m m' turn c s id proc r.values []
                >>= λ (c', s', returns, asked, answered). ok (c', s', returns))
              finds
            ∙ ap
                (λ o.
                  forget (
                    or_fault o >>= λ proc.
                    if length r.values == length proc.args then ok proc else Outcome.refused c)
                  >>= λ proc.
                      remote_call codec m m' turn c s r.id proc r.values []
                      >>= λ (c', s', returns, asked, answered). ok (c', s', returns))
                knows
            ∙ ap
                (λ (b : Bool). forget (if b then ok call.remote else Outcome.refused c) >>= λ proc.
                  remote_call codec m m' turn c s r.id proc r.values []
                  >>= λ (c', s', returns, asked, answered). ok (c', s', returns))
                count
            ∙ bind_ok _ runs
            ∙ ap (λ vs. ok (c', s', vs))
                (ap (λ (p : Procedure). received codec p.rets r.returns) (sym same) ∙ call.arrives),
      )
