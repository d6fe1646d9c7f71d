-- ===== src/Examples/Served.antt =====
-- rpcmple_cpp/src_examples/example4RPCServerOverTCP.cpp and example4RPCClientOverTCP.cpp: what the server does on them.
use rpcmple.Common.{ℕ, ◌+◌, ◌%◌, ◌^◌, ◌≤◌, ◌<◌, refl, ap, arith}
use rpcmple.Common.{List, [], ◌∷◌, length, All, some, true}
use rpcmple.Bits.{IsBytes}
use rpcmple.Variant.{Variant, Text, get_string, get_int64, get_int64s}
use rpcmple.Signature.{Codec, classify}
use rpcmple.Signature.Wire.{IsWord}
use rpcmple.Signature.Received.{received, received_as}
use rpcmple.Server.{Procedure, Server, make_server, called}
use rpcmple.Server
use rpcmple.Server.Request.{Request, IsServed}
use rpcmple.Client.{Client, RemoteProcedure, make_client}
use rpcmple.Client
use rpcmple.Examples.{
  greeting, greet, sum, tell, get, greet_name, sum_name, tell_name, get_name, example_server,
  example_client,
}
use rpcmple.Examples.Bytes.{
  string_bytes, number_bytes, numbers_bytes, encode-string, encode-number, encode-numbers,
  encode-nothing, string_sized, numbers_sized, total, sum_total, length-greeting, greeting-IsBytes,
}

at_most : {n : ℕ} → n < 16777216 → n ≤ 16777216
at_most h = omega arith

-- The calls, with the bytes of both messages.
abbrev pub greet_call : Text → Request
greet_call words = record {
  id = 0;
  values = Variant.string words ∷ [];
  bytes = string_bytes words;
  returns = Variant.string (greeting words) ∷ [];
  reply = string_bytes (greeting words);
}

abbrev pub sum_call : List ℕ → Request
sum_call numbers = record {
  id = 1;
  values = Variant.int64s numbers ∷ [];
  bytes = numbers_bytes numbers;
  returns = Variant.int64 (total numbers % 2 ^ 64) ∷ [];
  reply = number_bytes (total numbers % 2 ^ 64);
}

abbrev pub tell_call : ℕ → Request
tell_call x = record {
  id = 2;
  values = Variant.int64 x ∷ [];
  bytes = number_bytes x;
  returns = [];
  reply = [];
}

abbrev pub get_call : Request
get_call = record {
  id = 3;
  values = [];
  bytes = [];
  returns = Variant.int64 12345 ∷ [];
  reply = number_bytes 12345;
}

module _ (codec : Codec) where
  pub greet-IsServed :
      (words : Text)
      → IsBytes words
      → length words + 37 < 65536
      → IsServed codec example_server.local_procedures (greet_call words)
  unfolding example_client example_server Client.append_signature Server.append_signature
      make_client make_server called received received_as classify greet get_string
  greet-IsServed words bytes short = record {
    proc = record {
      id = 0;
      procedure_name = greet_name;
      args = b's' ∷ [];
      rets = b's' ∷ [];
      call_function = some greet;
    };
    heard_by = record {
      numbered = omega arith;
      found = refl;
      counted = refl;
      typed = (bytes, tt);
      unbroken = (tt, tt);
      encoded = encode-string codec.to_bytes words (omega arith);
      sized = string_sized words (omega arith);
    };
    runs = refl;
    counted = refl;
    typed = (greeting-IsBytes words bytes, tt);
    fits = (omega (arith, length-greeting words), tt);
    encoded = encode-string codec.to_bytes (greeting words) (omega (arith, length-greeting words));
    sized = at_most (string_sized (greeting words) (omega (arith, length-greeting words)));
  }

  pub sum-IsServed :
      (numbers : List ℕ)
      → All IsWord numbers
      → length numbers < 65536
      → IsServed codec example_server.local_procedures (sum_call numbers)
  unfolding example_client example_server Client.append_signature Server.append_signature
      make_client make_server called received received_as classify sum get_int64s
  sum-IsServed numbers words short = record {
    proc = record {
      id = 1;
      procedure_name = sum_name;
      args = b'I' ∷ [];
      rets = b'i' ∷ [];
      call_function = some sum;
    };
    heard_by = record {
      numbered = omega arith;
      found = refl;
      counted = refl;
      typed = (words, tt);
      unbroken = (tt, tt);
      encoded = encode-numbers codec.to_bytes numbers short;
      sized = numbers_sized numbers short;
    };
    runs = ap (λ s. (true, Variant.int64 s ∷ [])) (sum_total numbers);
    counted = refl;
    typed = (omega arith, tt);
    fits = (tt, tt);
    encoded = encode-number codec.to_bytes (total numbers % 2 ^ 64);
    sized = at_most (omega arith);
  }

  pub tell-IsServed :
      (x : ℕ) → IsWord x → IsServed codec example_server.local_procedures (tell_call x)
  unfolding example_client example_server Client.append_signature Server.append_signature
      make_client make_server called received received_as classify tell get_int64
  tell-IsServed x word = record {
    proc = record {
      id = 2;
      procedure_name = tell_name;
      args = b'i' ∷ [];
      rets = [];
      call_function = some tell;
    };
    heard_by = record {
      numbered = omega arith;
      found = refl;
      counted = refl;
      typed = (word, tt);
      unbroken = (tt, tt);
      encoded = encode-number codec.to_bytes x;
      sized = omega arith;
    };
    runs = refl;
    counted = refl;
    typed = tt;
    fits = tt;
    encoded = encode-nothing codec.to_bytes;
    sized = at_most (omega arith);
  }

  pub get-IsServed : IsServed codec example_server.local_procedures get_call
  unfolding example_client example_server Client.append_signature Server.append_signature
      make_client make_server called received received_as classify get
  get-IsServed = record {
    proc = record {
      id = 3;
      procedure_name = get_name;
      args = [];
      rets = b'i' ∷ [];
      call_function = some get;
    };
    heard_by = record {
      numbered = omega arith;
      found = refl;
      counted = refl;
      typed = tt;
      unbroken = tt;
      encoded = encode-nothing codec.to_bytes;
      sized = omega arith;
    };
    runs = refl;
    counted = refl;
    typed = (omega arith, tt);
    fits = (tt, tt);
    encoded = encode-number codec.to_bytes 12345;
    sized = at_most (omega arith);
  }
