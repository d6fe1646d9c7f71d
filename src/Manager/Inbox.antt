-- ===== src/Manager/Inbox.antt =====
-- rpcmple_cpp/include/rpcmple/messageManager.h: a connection whose reads are given beforehand.
use rpcmple.Common.{ℕ, ◌≡◌, refl}
use rpcmple.Common.{List, [], ◌∷◌, ◌++◌, length, replicate, Option, none, some}
use rpcmple.Common.{
  Outcome, ok, refused, thrown, fault, ◌>>=◌, Bool, true, false, Bool-cases, inl, inr,
}
use rpcmple.Common.{◌==◌, if◌then◌else◌, ltb}
use rpcmple.Manager.{Parser, Connection, Handled, max_message, keep_conn, send, handle}
use rpcmple.Manager.Stream.{Frame, map_ok, fresh, deliver, feed, feed_all}

-- The chunks that are still to be read, and what has been written.
pub record Script : Type 0 where
  pub inbox : List (List ℕ)
  pub outbox : List (List ℕ)

-- `accepts` says which writes succeed, given all those before.
unfoldable pub write_script : (List (List ℕ) → Bool) → Script → List ℕ → Script × Bool
write_script accepts c bytes =
    if accepts c.outbox then (record c { outbox = c.outbox ++ bytes ∷ [] }, true) else (c, false)

abbrev pub take_chunk : List (List ℕ) → List (List ℕ) → Script × Option (List ℕ)
take_chunk [] out = (record { inbox = []; outbox = out }, none)
take_chunk (chunk ∷ inbox) out = (record { inbox = inbox; outbox = out }, some chunk)

unfoldable pub read_script : Script → ℕ → Script × Option (List ℕ)
read_script c n = take_chunk c.inbox c.outbox

abbrev pub script : (List (List ℕ) → Bool) → Connection Script
script accepts = record { write = write_script accepts; read = read_script; close = λ c. c }

-- Every write succeeds.
abbrev pub always : List (List ℕ) → Bool
always out = true

abbrev pub join : List (List ℕ) → List ℕ
join [] = []
join (xs ∷ xss) = xs ++ join xss

module _ {H : Type 0} (p : Parser H) (accepts : List (List ℕ) → Bool) where
  abbrev k : Connection Script
  k = script accepts

  abbrev at : List (List ℕ) → Script → Script
  at xs c = record c { inbox = xs }

  abbrev relabel : List (List ℕ) → Handled p k → Handled p k
  relabel xs (ok (h, c)) = ok (h, at xs c)
  relabel xs (refused (h, c)) = refused (h, at xs c)
  relabel xs thrown = thrown
  relabel xs fault = fault

  abbrev at_frame : List (List ℕ) → Frame H Script → Frame H Script
  at_frame xs f = record f { conn = at xs f.conn }

  abbrev pub relabel_frame :
      List (List ℕ) → Outcome (H × Script) (Frame H Script) → Outcome (H × Script) (Frame H Script)
  relabel_frame xs (ok f) = ok (at_frame xs f)
  relabel_frame xs (refused (h, c)) = refused (h, at xs c)
  relabel_frame xs thrown = thrown
  relabel_frame xs fault = fault

  -- The bytes that are still to come play no part in the handling of a message.
  send-at :
      (xs : List (List ℕ)) (size : ℕ) (bytes : List ℕ) (h : H) (c : Script)
      → send p k size bytes h (at xs c) ≡ relabel xs (send p k size bytes h c)
  unfolding send write_script
  send-at xs size [] h c = refl
  send-at xs size (b ∷ bytes) h c = elim (Bool-cases (ltb max_message size)) [
    | inl big ↦ rw big refl
    | inr small ↦ elim (Bool-cases (accepts c.outbox)) [
      | inl yes_ ↦ rw (small, yes_) refl
      | inr no_ ↦ rw (small, no_) refl
    ]
  ]

  handle-at :
      (xs : List (List ℕ)) (bytes : List ℕ) (size : ℕ) (h : H) (c : Script)
      → handle p k bytes size h (at xs c) ≡ relabel xs (handle p k bytes size h c)
  unfolding handle
  handle-at xs bytes size h c = parsed (p.parse_message h bytes)
    where
      replied :
          (r : Outcome H (H × List ℕ))
          → (keep_conn p k (at xs c) r >>= λ (h', reply). send p k size reply h' (at xs c))
            ≡ relabel xs (keep_conn p k c r >>= λ (h', reply). send p k size reply h' c)
      replied (ok (h', reply)) = send-at xs size reply h' c
      replied (refused h') = refl
      replied thrown = refl
      replied fault = refl

      parsed :
          (r : Outcome H H)
          → (keep_conn p k (at xs c) r >>= λ h'.
              keep_conn p k (at xs c) (p.write_message h' (replicate 1024 0)) >>= λ (h'', reply).
              send p k size reply h'' (at xs c))
            ≡ relabel xs (
                keep_conn p k c r >>= λ h'.
                keep_conn p k c (p.write_message h' (replicate 1024 0)) >>= λ (h'', reply).
                send p k size reply h'' c)
      parsed (ok h') = replied (p.write_message h' (replicate 1024 0))
      parsed (refused h') = refl
      parsed thrown = refl
      parsed fault = refl

  delivered-at :
      (xs : List (List ℕ)) (bytes : List ℕ) (r : Handled p k)
      → ((f : Frame H Script)
          → feed_all p k (at_frame xs f) bytes ≡ relabel_frame xs (feed_all p k f bytes))
      → (map_ok (fresh p k) (relabel xs r) >>= λ f'. feed_all p k f' bytes)
        ≡ relabel_frame xs (map_ok (fresh p k) r >>= λ f'. feed_all p k f' bytes)
  delivered-at xs bytes (ok (h, c)) ih = ih (fresh p k (h, c))
  delivered-at xs bytes (refused e) ih = refl
  delivered-at xs bytes thrown ih = refl
  delivered-at xs bytes fault ih = refl

  pub feed_all-at :
      (xs : List (List ℕ)) (f : Frame H Script) (bytes : List ℕ)
      → feed_all p k (at_frame xs f) bytes ≡ relabel_frame xs (feed_all p k f bytes)
  unfolding feed_all feed deliver
  feed_all-at xs f [] = refl
  feed_all-at xs f (b ∷ bytes) = elim (Bool-cases (length (f.collected ++ b ∷ []) == f.size)) [
    | inl full ↦
        rw (full, handle-at xs (f.collected ++ b ∷ []) f.size f.handler f.conn)
          (delivered-at xs bytes (handle p k (f.collected ++ b ∷ []) f.size f.handler f.conn)
            λ f'. feed_all-at xs f' bytes)
    | inr more ↦ rw more (feed_all-at xs (record f { collected = f.collected ++ b ∷ [] }) bytes)
  ]
