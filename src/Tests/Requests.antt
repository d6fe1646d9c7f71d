-- ===== src/Tests/Requests.antt =====
-- A server with two procedures, one that doubles a number and one without a function, and a stream of
-- requests in two reads.
use rpcmple.Common.{ℕ, ◌≡◌, refl, arith, List, [], ◌∷◌, ◌++◌, none, Bool, true, false}
use rpcmple.Signature.Received.{received, received_as}
use rpcmple.Signature.{classify}
use rpcmple.Header.{header_val}
use rpcmple.Server.{Procedure, Server, called}
use rpcmple.Server.Request.{Request, IsHeard, IsServed, IsIdle, reply_to}
use rpcmple.Server.Answers.{EndsWith, runs, data_flow-serves, data_flow-gives_up}
use rpcmple.Tests.Codecs.{ascii, ascii-IsUtf8}
use rpcmple.Tests.Calls.{
  call_args, double_it, doubling_server, seven, seven_bytes, seven_encodes, seven-IsVariant,
  seven-NoZero, fourteen, fourteen_bytes, fourteen_encodes,
}

abbrev always : List (List ℕ) → Bool
always out = true

abbrev nothing : Procedure
nothing = record {
  id = 1;
  procedure_name = b'n' ∷ [];
  args = call_args;
  rets = [];
  call_function = none;
}

abbrev pub two_procedures : Server
two_procedures = record doubling_server { local_procedures = double_it ∷ nothing ∷ [] }

abbrev pub doubling : Request
doubling = record {
  id = 0;
  values = seven;
  bytes = seven_bytes;
  returns = fourteen;
  reply = fourteen_bytes;
}

abbrev failing : Request
failing = record { id = 1; values = seven; bytes = seven_bytes; returns = []; reply = [] }

doubles : called double_it (received ascii call_args seven) ≡ (true, fourteen)
unfolding called received received_as classify
doubles = refl

fails : (called nothing (received ascii call_args seven)).0 ≡ false
unfolding called
fails = refl

pub doubling-IsServed : IsServed ascii two_procedures.local_procedures doubling
doubling-IsServed = record {
  proc = double_it;
  heard_by = record {
    numbered = omega arith;
    found = refl;
    counted = refl;
    typed = seven-IsVariant;
    unbroken = seven-NoZero;
    encoded = seven_encodes;
    sized = omega arith;
  };
  runs = doubles;
  counted = refl;
  typed = (omega arith, tt);
  fits = (tt, tt);
  encoded = fourteen_encodes;
  sized = omega arith;
}

failing-IsHeard : IsHeard ascii two_procedures.local_procedures failing nothing
failing-IsHeard = record {
  numbered = omega arith;
  found = refl;
  counted = refl;
  typed = seven-IsVariant;
  unbroken = seven-NoZero;
  encoded = seven_encodes;
  sized = omega arith;
}

pub two_procedures-IsIdle : IsIdle two_procedures.local_procedures two_procedures
two_procedures-IsIdle = record { serves = refl; at_header = refl; wants = refl }

-- Two requests, cut within the second header.
abbrev pub two_requests : List (List ℕ)
two_requests = (12 ∷ 0 ∷ 0 ∷ 0 ∷ seven_bytes ++ 12 ∷ 0 ∷ []) ∷ (0 ∷ 0 ∷ seven_bytes) ∷ []

data_flow-serves_example :
    EndsWith ascii true always
      (runs ascii true always true two_procedures two_requests)
      (reply_to doubling ∷ reply_to doubling ∷ [])
unfolding header_val
data_flow-serves_example =
    data_flow-serves ascii true always ascii-IsUtf8 (λ out. refl) true two_procedures
      two_procedures-IsIdle (doubling ∷ doubling ∷ []) two_requests
      (doubling-IsServed, (doubling-IsServed, tt)) refl

-- A request that fails between two that do not.
abbrev three_requests : List (List ℕ)
three_requests =
    (12 ∷ 0 ∷ 0 ∷ 0 ∷ seven_bytes ++ 12 ∷ 0 ∷ [])
    ∷ (0 ∷ 1 ∷ seven_bytes)
    ∷ (12 ∷ 0 ∷ 0 ∷ 0 ∷ seven_bytes)
    ∷ []

data_flow-gives_up_example :
    EndsWith ascii true always
      (runs ascii true always true two_procedures three_requests)
      (reply_to doubling ∷ [])
unfolding header_val
data_flow-gives_up_example =
    data_flow-gives_up ascii true always ascii-IsUtf8 (λ out. refl) true two_procedures
      two_procedures-IsIdle (doubling ∷ []) failing nothing (12 ∷ 0 ∷ 0 ∷ 0 ∷ seven_bytes)
      three_requests (doubling-IsServed, tt) failing-IsHeard fails refl
