-- ===== src/Manager/DataFlow.antt =====
-- `messageManager::dataFlow` around its inner loop, and `stopDataFlow`. The requests to stop that
-- other threads make come as a schedule: one answer for each test of the outer loop.
use rpcmple.Common.{ℕ, List, [], ◌∷◌, length, Option, none, some}
use rpcmple.Common.{Outcome, ok, refused, thrown, fault, ◌>>=◌, Bool, true, ltb, ◌||◌}
use rpcmple.Common.{if◌then◌else◌}
use rpcmple.Manager.{
  Parser, Connection, State, Handled, Flow, max_message, init, keep_conn, send, consume,
}

-- How a call of `dataFlow` ends: it returns, with the connection closed and the callback made or
-- not; an exception leaves it; or it runs into undefined behaviour.
pub data Ended (H C : Type 0) : Type 0 where
  closed : State H C → Bool → Ended H C
  crashed undefined : Ended H C

module _ {H C : Type 0} (p : Parser H) (k : Connection C) where
  -- The loop goes on, or is left: `refused`.
  abbrev pub Turn : Type 0
  Turn = Outcome (State H C) (State H C)

  abbrev pub stopped : State H C → H × C → State H C
  stopped s (h, c) = record s { stop_requested = true; handler = h; conn = c }

  -- A requester's first message.
  unfoldable pub first_message : H → C → Handled p k
  first_message h c = do
    (h', bytes) ← keep_conn p k c (p.write_message h [])
    send p k (length bytes) bytes h' c

  abbrev pub begun : State H C → Handled p k → Turn
  begun s (ok (h, c)) = ok (record s { handler = h; conn = c })
  begun s (refused e) = ok (stopped s e)
  begun s thrown = thrown
  begun s fault = fault

  unfoldable pub start : State H C → Turn
  unfolding first_message
  start s = if s.is_requester then begun s (first_message s.handler s.conn) else ok s

  -- What a read gave: nothing, which leaves the loop, or bytes for the inner loop.
  abbrev pub left : State H C → Option (Flow p k) → Option Turn
  left s none = none
  left s (some (ok s')) = some (ok s')
  left s (some (refused e)) = some (refused (stopped s e))
  left s (some thrown) = some thrown
  left s (some fault) = some fault

  unfoldable pub after_read : State H C → C × Option (List ℕ) → Option Turn
  after_read s (c, none) = some (refused (record s { conn = c }))
  after_read s (c, some chunk) = left s (consume p k (length chunk) (record s { conn = c }) chunk)

  -- A handler that expects no message is asked for one to send. The vector is not resized here.
  abbrev pub sent : State H C → Handled p k → Turn
  sent s (ok (h, c)) =
      let len = p.get_message_len h in
      ok (record s {
        message_last_idx = 0;
        message_length = len;
        message_missing_bytes = len;
        handler = h;
        conn = c;
      })
  sent s (refused e) = refused (stopped s e)
  sent s thrown = thrown
  sent s fault = fault

  -- The size of what is sent is not tested here.
  unfoldable pub send_only : H → C → Handled p k
  send_only h c = do (h', bytes) ← keep_conn p k c (p.write_message h []); send p k 0 bytes h' c

  unfoldable pub outer_round : State H C → Option Turn
  unfolding send_only after_read
  outer_round s =
      if ltb 0 s.message_length
      then after_read s (k.read s.conn max_message)
      else some (sent s (send_only s.handler s.conn))

  unfoldable pub close : Bool → State H C → Ended H C
  close callback s = closed (record s { conn = k.close s.conn }) callback

  abbrev pub continue : Bool → Option Turn → (State H C → Option (Ended H C)) → Option (Ended H C)
  continue callback none f = none
  continue callback (some (ok s)) f = f s
  continue callback (some (refused s)) f = some (close callback s)
  continue callback (some thrown) f = some crashed
  continue callback (some fault) f = some undefined

  -- `while (!stopRequested)`; `none` is a flow that still runs when the schedule is used up.
  unfoldable pub loop : Bool → List Bool → State H C → Option (Ended H C)
  unfolding close
  loop callback [] s = none
  loop callback (asked ∷ schedule) s =
      if s.stop_requested || asked
      then some (close callback s)
      else continue callback (outer_round s) (loop callback schedule)

  unfoldable pub data_flow : Bool → List Bool → State H C → Option (Ended H C)
  unfolding start loop
  data_flow callback schedule s =
      let s' = if s.is_initialized then s else init p k s in
      continue callback (some (start s')) (loop callback schedule)

-- `stopDataFlow`, given what the handler's `stopParser` does.
unfoldable pub stop_data_flow : {H C : Type 0} → (H → H) → State H C → State H C
stop_data_flow stop_parser s = record s { stop_requested = true; handler = stop_parser s.handler }
