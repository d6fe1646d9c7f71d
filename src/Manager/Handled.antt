-- ===== src/Manager/Handled.antt =====
-- rpcmple_cpp/include/rpcmple/messageManager.h: a message that the peer sends, from its parsing to the reply.
use rpcmple.Common.{ℕ, ◌<◌, ◌≡◌, refl, arith}
use rpcmple.Common.{List, [], ◌∷◌, ◌++◌, length, replicate, Outcome, ok, ◌>>=◌, false, ltb}
use rpcmple.Manager.{Parser, handle, send, max_message}
use rpcmple.Manager.Inbox.{Script, script, write_script, always}

-- A header and its body, or a header alone, as `dataFlow` handles them one behind the other.
abbrev pub hand :
    {H : Type 0} → Parser H → List ℕ → List ℕ → H → Script → Outcome (H × Script) (H × Script)
hand p head [] h c = handle p (script always) head (length head) h c
hand p head (b ∷ body) h c = handle p (script always) head (length head) h c >>= λ (h', c').
    handle p (script always) (b ∷ body) (length (b ∷ body)) h' c'

module _ {H : Type 0} (p : Parser H) where
  pub sends_all :
      (size b : ℕ) (bytes : List ℕ) (h : H) (c : Script)
      → size < 16777221
      → send p (script always) size (b ∷ bytes) h c
        ≡ ok (h, record c { outbox = c.outbox ++ (b ∷ bytes) ∷ [] })
  unfolding send write_script
  sends_all size b bytes h c fits =
      let small : ltb max_message size ≡ false = ground arith in rw small refl

  -- A message with a reply, and one without.
  pub handle_replies :
      (bytes : List ℕ) (size b : ℕ) (out : List ℕ) (h h' h'' : H) (c : Script)
      → p.parse_message h bytes ≡ ok h'
      → p.write_message h' (replicate 1024 0) ≡ ok (h'', b ∷ out)
      → size < 16777221
      → handle p (script always) bytes size h c
        ≡ ok (h'', record c { outbox = c.outbox ++ (b ∷ out) ∷ [] })
  unfolding handle
  handle_replies bytes size b out h h' h'' c parses writes fits =
      rw (parses, writes) (sends_all size b out h'' c fits)

  pub handle_silent :
      (bytes : List ℕ) (size : ℕ) (h h' h'' : H) (c : Script)
      → p.parse_message h bytes ≡ ok h'
      → p.write_message h' (replicate 1024 0) ≡ ok (h'', [])
      → handle p (script always) bytes size h c ≡ ok (h'', c)
  unfolding handle send
  handle_silent bytes size h h' h'' c parses writes = rw (parses, writes) refl
