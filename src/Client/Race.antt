-- ===== src/Client/Race.antt =====
-- rpcmple_cpp/include/rpcmple/rpcClient.h: two callers of `callSync` at once. Both may pass the wait for
-- `canCall` before either of them takes the lock again.
use rpcmple.Common.{ℕ, ◌≤◌, ◌≡◌, Bool, true, false, List, ◌++◌, length, All}
use rpcmple.Common.{ok, ◌>>=◌}
use rpcmple.Variant.{Variant}
use rpcmple.Signature.{Codec, IsUtf8}
use rpcmple.Signature.Wire.{encode, IsVariant, VariantFits}
use rpcmple.Server.Serve.{header}
use rpcmple.Client.{Client, RemoteProcedure, post, write_message}
use rpcmple.Client.Call.{posts, requests}

-- When two callers have both been admitted, and post their requests one after the other before the
-- client writes, only the request of the second is sent, and none is left to send: that of the
-- first is lost. The client is idle and not asked to stop, both requests can be posted, and the
-- second has no more than 16777216 bytes.
pub post-post :
    (codec : Codec)
    → IsUtf8 codec
    → (m : Bool) (c : Client) (id id' : ℕ) (proc proc' : RemoteProcedure) (vs vs' : List Variant)
      (bs bs' buffer : List ℕ)
    → c.section_id ≡ 0
    → c.stop_wait ≡ false
    → length proc.args ≡ length vs
    → All IsVariant vs
    → All (VariantFits codec.to_bytes) vs
    → encode codec.to_bytes proc.args vs ≡ ok bs
    → length proc'.args ≡ length vs'
    → All IsVariant vs'
    → All (VariantFits codec.to_bytes) vs'
    → encode codec.to_bytes proc'.args vs' ≡ ok bs'
    → length bs' ≤ 16777216
    → (post codec m c id proc vs >>= λ c₁.
        post codec m c₁ id' proc' vs' >>= λ c₂. write_message codec m c₂ buffer)
      ≡ ok (
        record c { args = bs'; procedure_id = id'; can_call = false; send_is_ready = false },
        header id' (length bs') ++ bs',
      )
post-post codec utf8 m c id id' proc proc' vs vs' bs bs' buffer idle running n h fits e n' h' fits'
      e' short =
    let c₁ : Client = record c {
      args = bs;
      procedure_id = id;
      can_call = false;
      send_is_ready = true;
    } in
    let c₂ : Client = record c₁ { args = bs'; procedure_id = id' } in
    rw
      (
        posts codec utf8 m c id proc vs bs running n h fits e,
        posts codec utf8 m c₁ id' proc' vs' bs' running n' h' fits' e',
      )
      (requests codec utf8 m c₂ buffer idle running short)
