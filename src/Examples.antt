-- ===== src/Examples.antt =====
-- rpcmple_cpp/src_examples/example4RPCServerOverTCP.cpp and example4RPCClientOverTCP.cpp: a server of four
-- procedures, and a client that calls each of them once.
pub mod Bytes
pub mod Served
pub mod Calls
pub mod First
pub mod Session
use rpcmple.Common.{length}
use rpcmple.Common.{ℕ, ◌+◌, ◌%◌, ◌^◌, List, [], ◌∷◌, ◌++◌, Option, none, some, Bool, true, false}
use rpcmple.Common.{Outcome, ok, ◌>>=◌}
use rpcmple.Variant.{Variant, Text, get_string, get_int64, get_int64s}
use rpcmple.Signature.{Codec}
use rpcmple.Server.{Procedure, Server, make_server}
use rpcmple.Server
use rpcmple.Client.{Client, RemoteProcedure, make_client, find_procedure, admit, rpc_complete}
use rpcmple.Client
use rpcmple.Client.Remote.{forget, remote_call}

-- "You said: '", "'; Hello world to you too!" and "Hello world".
abbrev pub you_said : Text
you_said = b'Y' ∷ b'o' ∷ b'u' ∷ b' ' ∷ b's' ∷ b'a' ∷ b'i' ∷ b'd' ∷ b':' ∷ b' ' ∷ 39 ∷ []

abbrev pub hello_to_you : Text
hello_to_you =
    39 ∷ b';' ∷ b' ' ∷ b'H' ∷ b'e' ∷ b'l' ∷ b'l' ∷ b'o' ∷ b' ' ∷ b'w' ∷ b'o' ∷ b'r' ∷ b'l' ∷ b'd'
    ∷ b' ' ∷ b't' ∷ b'o' ∷ b' ' ∷ b'y' ∷ b'o' ∷ b'u' ∷ b' ' ∷ b't' ∷ b'o' ∷ b'o' ∷ b'!' ∷ []

abbrev pub greeting : Text → Text
greeting s = (you_said ++ s) ++ hello_to_you

-- A procedure gets as many arguments as its signature says: an empty vector does not come.
abbrev pub greeted : Option Text → Bool × List Variant
greeted none = (false, [])
greeted (some s) = (true, Variant.string (greeting s) ∷ [])

unfoldable pub greet : List Variant → Bool × List Variant
greet [] = (false, [])
greet (v ∷ vs) = greeted (get_string v)

-- The loop over the numbers, which are 64-bit patterns. An overflow, which the language leaves
-- undefined, wraps around.
unfoldable pub sum_from : ℕ → List ℕ → ℕ
sum_from acc [] = acc
sum_from acc (x ∷ xs) = sum_from ((acc + x) % 2 ^ 64) xs

abbrev pub summed : Option (List ℕ) → Bool × List Variant
summed none = (false, [])
summed (some xs) = (true, Variant.int64 (sum_from 0 xs) ∷ [])

unfoldable pub sum : List Variant → Bool × List Variant
sum [] = (false, [])
sum (v ∷ vs) = summed (get_int64s v)

abbrev told : Option ℕ → Bool × List Variant
told none = (false, [])
told (some x) = (true, [])

unfoldable pub tell : List Variant → Bool × List Variant
tell [] = (false, [])
tell (v ∷ vs) = told (get_int64 v)

unfoldable pub get : List Variant → Bool × List Variant
get vs = (true, Variant.int64 12345 ∷ [])

-- L"Greet", L"Sum", L"Tell" and L"Get".
abbrev pub greet_name : Text
greet_name = b'G' ∷ b'r' ∷ b'e' ∷ b'e' ∷ b't' ∷ []

abbrev pub sum_name : Text
sum_name = b'S' ∷ b'u' ∷ b'm' ∷ []

abbrev pub tell_name : Text
tell_name = b'T' ∷ b'e' ∷ b'l' ∷ b'l' ∷ []

abbrev pub get_name : Text
get_name = b'G' ∷ b'e' ∷ b't' ∷ []

-- `appendSignature` sets the number.
abbrev pub local : Text → List ℕ → List ℕ → (List Variant → Bool × List Variant) → Procedure
local name args rets f = record {
  id = 0;
  procedure_name = name;
  args = args;
  rets = rets;
  call_function = some f;
}

abbrev remote : Text → List ℕ → List ℕ → RemoteProcedure
remote name args rets = record { id = 0; procedure_name = name; args = args; rets = rets }

unfoldable pub example_server : Server
example_server =
    let s₁ = Server.append_signature make_server (local greet_name (b's' ∷ []) (b's' ∷ []) greet) in
    let s₂ = Server.append_signature s₁ (local sum_name (b'I' ∷ []) (b'i' ∷ []) sum) in
    let s₃ = Server.append_signature s₂ (local tell_name (b'i' ∷ []) [] tell) in
    Server.append_signature s₃ (local get_name [] (b'i' ∷ []) get)

unfoldable pub example_client : Client
example_client =
    let c₁ = Client.append_signature make_client (remote greet_name (b's' ∷ []) (b's' ∷ [])) in
    let c₂ = Client.append_signature c₁ (remote sum_name (b'I' ∷ []) (b'i' ∷ [])) in
    let c₃ = Client.append_signature c₂ (remote tell_name (b'i' ∷ []) []) in
    Client.append_signature c₃ (remote get_name [] (b'i' ∷ []))

-- A call behind a reply with these returns: the last message was their bytes, or the header where they
-- have none.
abbrev pub behind : List ℕ → Option ℕ
behind [] = some 4
behind (b ∷ bytes) = some (length (b ∷ bytes))

module _ (codec : Codec) (m m' : Bool) where
  -- `callSync` by name, with the server and both data flows; `turn` says behind which message of the
  -- client's data flow the call comes.
  unfoldable pub call_sync :
      Option ℕ
      → Client
      → Server
      → Text
      → List Variant
      → Outcome (Unit {0}) (Client × Server × List Variant)
  call_sync turn c s name arguments = do
    id ← forget (find_procedure c name)
    proc ← forget (admit c id arguments)
    (c', s', returns, asked, answered) ← remote_call codec m m' turn c s id proc arguments []
    ok (c', s', returns)

  -- The calls of `main`, for any words and numbers, with the returns of each, and whether
  -- `waitRPCComplete` finds its condition true. Where `callSync` returns false, the code reads
  -- `returns[0]` all the same, which is undefined; here the session ends.
  unfoldable pub session :
      Text
      → List ℕ
      → ℕ
      → Outcome (Unit {0}) (List Variant × List Variant × List Variant × List Variant × Bool)
  session words numbers number = do
    (c₁, s₁, greeted_) ←
        call_sync none example_client example_server greet_name (Variant.string words ∷ [])
    (c₂, s₂, summed_) ← call_sync (behind c₁.rets) c₁ s₁ sum_name (Variant.int64s numbers ∷ [])
    (c₃, s₃, told_) ← call_sync (behind c₂.rets) c₂ s₂ tell_name (Variant.int64 number ∷ [])
    (c₄, s₄, got) ← call_sync (behind c₃.rets) c₃ s₃ get_name []
    ok (greeted_, summed_, told_, got, rpc_complete c₄)
