-- ===== src/Server/Request.antt =====
-- rpcmple_cpp/include/rpcmple/rpcServer.h: a request, with what a server has to know to answer it.
use rpcmple.Common.{ℕ, ◌≤◌, ◌<◌, ◌≡◌}
use rpcmple.Common.{List, [], ◌∷◌, ◌++◌, length, get_elem?, All}
use rpcmple.Common.{some, ok, true}
use rpcmple.Variant.{Variant}
use rpcmple.Signature.{Codec}
use rpcmple.Signature.Wire.{encode, IsVariant, VariantFits}
use rpcmple.Signature.Received.{NoZero, received}
use rpcmple.Server.{Procedure, Server, called}
use rpcmple.Server.Serve.{header}

-- A request: the number of its procedure, the values and their bytes; and the returns with theirs.
pub record Request : Type 0 where
  pub id : ℕ
  pub values : List Variant
  pub bytes : List ℕ
  pub returns : List Variant
  pub reply : List ℕ

-- A request that reaches a procedure.
pub record IsHeard (codec : Codec) (procs : List Procedure) (r : Request) (proc : Procedure)
    : Type 0 where
  pub numbered : r.id < 256
  pub found : get_elem? procs r.id ≡ some proc
  pub counted : length proc.args ≡ length r.values
  pub typed : All IsVariant r.values
  pub unbroken : All NoZero r.values
  pub encoded : encode codec.to_bytes proc.args r.values ≡ ok r.bytes
  pub sized : length r.bytes < 16777216

-- The procedure succeeds, and its returns can be sent.
pub record IsServed (codec : Codec) (procs : List Procedure) (r : Request) : Type 0 where
  pub proc : Procedure
  pub heard_by : IsHeard codec procs r proc
  pub runs : called proc (received codec proc.args r.values) ≡ (true, r.returns)
  pub counted : length proc.rets ≡ length r.returns
  pub typed : All IsVariant r.returns
  pub fits : All (VariantFits codec.to_bytes) r.returns
  pub encoded : encode codec.to_bytes proc.rets r.returns ≡ ok r.reply
  pub sized : length r.reply ≤ 16777216

abbrev pub request : Request → List ℕ
request r = header r.id (length r.bytes) ++ r.bytes

abbrev pub requests : List Request → List ℕ
requests [] = []
requests (r ∷ rs) = request r ++ requests rs

abbrev pub reply_to : Request → List ℕ
reply_to r = header 1 (length r.reply) ++ r.reply

-- The server waits for a header, and has these procedures.
pub record IsIdle (procs : List Procedure) (s : Server) : Type 0 where
  pub serves : s.local_procedures ≡ procs
  pub at_header : s.section_id ≡ 0
  pub wants : s.section_len ≡ 4
