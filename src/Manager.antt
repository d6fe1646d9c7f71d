-- ===== src/Manager.antt =====
-- rpcmple_cpp/include/rpcmple/messageManager.h: the class `messageManager`, over the virtual
-- methods that rpcServer, rpcClient, dataPublisher and dataSubscriber implement (a `Parser`) and
-- the virtual methods of rpcmple_cpp/include/connectionmanager/base.h (a `Connection`).
pub mod Stream
pub mod Rounds
pub mod Chunks
pub mod DataFlow
pub mod Script
pub mod Simulation
pub mod Consumed
pub mod Replaced
pub mod Inbox
pub mod Handled
pub mod Steady
use rpcmple.Common.{ℕ, zero, suc, ◌+◌, ◌-◌, List, [], ◌∷◌, length, take, drop, replicate, resize}
use rpcmple.Common.{Option, none, some, Outcome, ok, refused, thrown, fault, ◌>>=◌, or_fault}
use rpcmple.Common.{Bool, true, false, overwrite, ltb, ◌==◌, ◌||◌, if◌then◌else◌}

-- `parseMessage`, `getMessageLen` and `writeMessage`: `refused` is `return false`. The buffer that
-- `writeMessage` is given comes with a content, which it may keep.
pub record Parser (H : Type 0) : Type 0 where
  pub parse_message : H → List ℕ → Outcome H H
  pub get_message_len : H → ℕ
  pub write_message : H → List ℕ → Outcome H (H × List ℕ)

-- `base`: `read` fails, or gives at most as many bytes as it is asked for.
pub record Connection (C : Type 0) : Type 0 where
  pub write : C → List ℕ → C × Bool
  pub read : C → ℕ → C × Option (List ℕ)
  pub close : C → C

abbrev pub max_message : ℕ
max_message = 16777220

pub record State (H C : Type 0) : Type 0 where
  pub is_initialized : Bool
  pub is_requester : Bool
  pub stop_requested : Bool
  pub message : List ℕ
  pub message_last_idx : ℕ
  pub message_length : ℕ
  pub message_missing_bytes : ℕ
  pub handler : H
  pub conn : C

-- The constructor.
unfoldable pub make : {H C : Type 0} → H → C → Bool → State H C
make h c requester = record {
  is_initialized = false;
  is_requester = requester;
  stop_requested = false;
  message = [];
  message_last_idx = 0;
  message_length = 0;
  message_missing_bytes = 0;
  handler = h;
  conn = c;
}

module _ {H C : Type 0} (p : Parser H) (k : Connection C) where
  -- `messageLength = getMessageLen()` and what follows it, in `init` and behind each reply.
  unfoldable pub next_message : State H C → State H C
  next_message s =
      let len = p.get_message_len s.handler in
      record s {
        message = resize len 0 s.message;
        message_last_idx = 0;
        message_length = len;
        message_missing_bytes = len;
      }

  unfoldable pub init : State H C → State H C
  unfolding next_message
  init s = record (next_message s) { is_initialized = true }

  -- `refused` is a message that could not be handled: the caller sets `stopRequested`.
  abbrev pub Handled : Type 0
  Handled = Outcome (H × C) (H × C)

  abbrev pub keep_conn : {A : Type 0} → C → Outcome H A → Outcome (H × C) A
  keep_conn c (ok a) = ok a
  keep_conn c (refused h) = refused (h, c)
  keep_conn c thrown = thrown
  keep_conn c fault = fault

  -- `if (!bytes.empty()) …write(bytes)`, behind a test of a size.
  unfoldable pub send : ℕ → List ℕ → H → C → Handled
  send size [] h c = ok (h, c)
  send size (b ∷ bytes) h c =
      if ltb max_message size
      then refused (h, c)
      else let (c', sent) = k.write c (b ∷ bytes) in if sent then ok (h, c') else refused (h, c')

  -- A whole message: it is parsed, a reply is asked for and sent. The size that is tested is that
  -- of the message, not of the reply.
  unfoldable pub handle : List ℕ → ℕ → H → C → Handled
  unfolding send
  handle bytes size h c = do
    h' ← keep_conn c (p.parse_message h bytes)
    (h'', reply) ← keep_conn c (p.write_message h' (replicate 1024 0))
    send size reply h'' c

  abbrev pub Flow : Type 0
  Flow = Outcome (H × C) (State H C)

  -- A message is complete: `message.begin() + messageLength` has to lie in the vector.
  unfoldable pub complete : State H C → Flow
  unfolding next_message
  complete s = do
    (h, c) ←
        if ltb (length s.message) s.message_length
        then fault
        else handle (take s.message_length s.message) (length s.message) s.handler s.conn
    ok (next_message (record s { handler = h; conn = c }))

  -- What a round of the inner loop copies.
  unfoldable pub transferred : State H C → List ℕ → ℕ
  transferred s chunk =
      if ltb (length chunk) s.message_missing_bytes then length chunk else s.message_missing_bytes

  unfoldable pub transfer : State H C → List ℕ → Flow
  unfolding transferred
  transfer s chunk =
      let n = transferred s chunk in
      or_fault (overwrite s.message s.message_last_idx (take n chunk)) >>= λ m. ok (record s {
        message = m;
        message_last_idx = s.message_last_idx + n;
        message_missing_bytes = s.message_missing_bytes - n;
      })

  unfoldable pub inner_round : State H C → List ℕ → Flow
  unfolding transfer complete
  inner_round s chunk =
      transfer s chunk >>= λ s'. if s'.message_missing_bytes == 0 then complete s' else ok s'

  abbrev pub proceed : {A : Type 0} → Outcome (H × C) A → (A → Option Flow) → Option Flow
  proceed (ok a) f = f a
  proceed (refused e) f = some (refused e)
  proceed thrown f = some thrown
  proceed fault f = some fault

  -- `while (bytesParsed < bytesRead)`, over the bytes that are not parsed yet, with fuel: `none`
  -- is a loop that is still running.
  unfoldable pub consume : ℕ → State H C → List ℕ → Option Flow
  consume fuel s [] = some (ok s)
  consume zero s (b ∷ chunk) = none
  consume (suc fuel) s (b ∷ chunk) =
      proceed (inner_round s (b ∷ chunk))
        λ s'. consume fuel s' (drop (transferred s (b ∷ chunk)) (b ∷ chunk))
