-- ===== src/Tests/Calls.antt =====
-- A call of a procedure that doubles a number.
use rpcmple.Common.{ℕ, ◌+◌, ◌≡◌, refl, arith, List, [], ◌∷◌, ◌++◌, All}
use rpcmple.Common.{some, Bool, true, false, ok}
use rpcmple.Variant.{Variant}
use rpcmple.Signature.{classify}
use rpcmple.Signature.Wire.{
  encode, encode_item, encode_labelled, encode_kind, encode_word, encode_text, encode_wide,
  encode_size, IsVariant, VariantFits,
}
use rpcmple.Signature.Received.{NoZero, received, received_as}
use rpcmple.Server.{Procedure, Server, make_server, append_signature}
use rpcmple.Server.Serve.{header}
use rpcmple.Client.{Client, RemoteProcedure}
use rpcmple.Client.{post, write_message}
use rpcmple.Client.Race.{post-post}
use rpcmple.Common.{◌>>=◌}
use rpcmple.Tests.Codecs.{ascii, ascii-IsUtf8, convert-fits}

abbrev pub call_args : List ℕ
call_args = b'i' ∷ b'w' ∷ []

abbrev pub call_rets : List ℕ
call_rets = b'u' ∷ []

abbrev doubled : List Variant → Bool × List Variant
doubled (Variant.int64 x ∷ vs) = (true, Variant.uint64 (x + x) ∷ [])
doubled _ = (false, [])

abbrev pub double_it : Procedure
double_it = record {
  id = 0;
  procedure_name = b'd' ∷ [];
  args = call_args;
  rets = call_rets;
  call_function = some doubled;
}

abbrev pub doubling_server : Server
doubling_server = record {
  local_procedures = double_it ∷ [];
  procedure_id = 4294967295;
  call_success = false;
  call_returns_serialized = [];
  section_len = 4;
  section_id = 0;
}

abbrev pub remote_double : RemoteProcedure
remote_double = record { id = 0; procedure_name = b'd' ∷ []; args = call_args; rets = call_rets }

abbrev pub doubling_client : Client
doubling_client = record {
  remote_procedures = remote_double ∷ [];
  remote_procedures_map = (b'd' ∷ [], 0) ∷ [];
  can_call = true;
  send_is_ready = false;
  repl_is_ready = false;
  procedure_id = 0;
  args = [];
  call_success_int = 0;
  rets = [];
  section_len = 4;
  section_id = 0;
  stop_wait = false;
}

abbrev pub seven : List Variant
seven = Variant.int64 7 ∷ Variant.wstring (104 ∷ 105 ∷ []) ∷ []

abbrev pub seven_bytes : List ℕ
seven_bytes = 7 ∷ 0 ∷ 0 ∷ 0 ∷ 0 ∷ 0 ∷ 0 ∷ 0 ∷ 2 ∷ 0 ∷ 104 ∷ 105 ∷ []

abbrev pub fourteen : List Variant
fourteen = Variant.uint64 14 ∷ []

abbrev pub fourteen_bytes : List ℕ
fourteen_bytes = 14 ∷ 0 ∷ 0 ∷ 0 ∷ 0 ∷ 0 ∷ 0 ∷ 0 ∷ []

-- The server is the one that the constructor and `appendSignature` make.
made : append_signature make_server double_it ≡ doubling_server
unfolding append_signature make_server
made = refl

pub seven_encodes : encode ascii.to_bytes call_args seven ≡ ok seven_bytes
unfolding encode encode_item encode_labelled encode_kind encode_word encode_wide encode_text
    encode_size classify
seven_encodes = refl

pub fourteen_encodes : encode ascii.to_bytes call_rets fourteen ≡ ok fourteen_bytes
unfolding encode encode_item encode_labelled encode_kind encode_word classify
fourteen_encodes = refl

pub seven-received : received ascii call_args seven ≡ seven
unfolding received received_as classify
seven-received = refl

pub seven-IsVariant : All IsVariant seven
seven-IsVariant = (omega arith, (tt, tt))

pub seven_fits : All (VariantFits ascii.to_bytes) seven
seven_fits = (tt, (λ s e. convert-fits (104 ∷ 105 ∷ []) s (omega arith) e, tt))

pub seven-NoZero : All NoZero seven
seven-NoZero = (tt, ((λ e. omega arith, (λ e. omega arith, tt)), tt))

-- A second procedure, of one unsigned number.
abbrev remote_store : RemoteProcedure
remote_store = record { id = 1; procedure_name = b's' ∷ []; args = call_rets; rets = [] }

post-post_example :
    (post ascii true doubling_client 0 remote_double seven >>= λ c₁.
    post ascii true c₁ 1 remote_store fourteen >>= λ c₂. write_message ascii true c₂ [])
    ≡ ok (
      record doubling_client {
        args = fourteen_bytes;
        procedure_id = 1;
        can_call = false;
        send_is_ready = false;
      },
      header 1 8 ++ fourteen_bytes,
    )
post-post_example =
    post-post ascii ascii-IsUtf8 true doubling_client 0 1 remote_double remote_store seven fourteen
      seven_bytes fourteen_bytes [] refl refl refl seven-IsVariant seven_fits seven_encodes refl
      (omega arith, tt) (tt, tt) fourteen_encodes (omega arith)
