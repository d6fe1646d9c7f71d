-- ===== src/Tests/Calling.antt =====
-- A call on its way: the caller waits, and its request has been written.
use rpcmple.Common.{refl, arith, [], ◌∷◌, ◌++◌, Bool, true, false}
use rpcmple.Server.Serve.{header}
use rpcmple.Client.{Client, make_client, append_signature, admit, may_call, may_send, awaits_call}
use rpcmple.Client.Call
use rpcmple.Client.Steps.{
  Calling, waiting, receiving, Reach, here, next, admits, posts, writes, begin,
}
use rpcmple.Client.Matched.{Matched, append_all, Reach-Matched}
use rpcmple.Tests.Codecs.{ascii, ascii-IsUtf8}
use rpcmple.Tests.Calls.{
  remote_double, doubling_client, seven, seven_bytes, seven_encodes, seven-IsVariant, seven_fits,
}

abbrev asking : Bool → Client
asking ready = record doubling_client {
  args = seven_bytes;
  procedure_id = 0;
  can_call = false;
  send_is_ready = ready;
}

abbrev in_call : Calling
in_call = record {
  client = asking false;
  phase = waiting remote_double;
  flow = receiving;
  posted = (header 0 12 ++ seven_bytes) ∷ [];
  sent = (header 0 12 ++ seven_bytes) ∷ [];
  replies = [];
  taken = [];
}

steps : Reach ascii true (begin (append_all make_client (remote_double ∷ []))) in_call
unfolding make_client append_signature admit may_call may_send awaits_call
steps =
    next
      (next (next here (admits 0 remote_double seven refl refl refl)) (
        posts 0 remote_double seven (asking true) refl (
          Call.posts ascii ascii-IsUtf8 true doubling_client 0 remote_double seven seven_bytes refl
            refl seven-IsVariant seven_fits seven_encodes)))
      (writes [] (header 0 12 ++ seven_bytes) (asking false) refl refl
        (Call.requests ascii ascii-IsUtf8 true (asking true) [] refl refl (omega arith)))

Reach-Matched_example : Matched in_call
Reach-Matched_example = Reach-Matched ascii true (remote_double ∷ []) steps
