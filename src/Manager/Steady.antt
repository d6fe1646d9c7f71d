-- ===== src/Manager/Steady.antt =====
-- rpcmple_cpp/include/rpcmple/messageManager.h: when a handler is steady, as the theorems on the loop
-- ask of it.
use rpcmple.Common.{ℕ, ◌<◌, subst, List, [], ◌∷◌, replicate}
use rpcmple.Common.{
  Leaves, Leaves-bind, Outcome, ok, refused, thrown, fault, Bool, true, false, Bool-cases, inl, inr,
}
use rpcmple.Common.{ltb, if◌then◌else◌}
use rpcmple.Manager.{Parser, Connection, keep_conn, send, handle, max_message}
use rpcmple.Manager.Chunks.{IsSteady}

module _ {H C : Type 0} (k : Connection C) (p : Parser H) (P : H → Type 0) where
  keep_conn-Leaves :
      {A : Type 0} (Q : A → Type 0) (c : C) (o : Outcome H A)
      → Leaves Q o
      → Leaves Q (keep_conn p k c o)
  keep_conn-Leaves Q c (ok a) h = h
  keep_conn-Leaves Q c (refused e) h = tt
  keep_conn-Leaves Q c thrown h = tt
  keep_conn-Leaves Q c fault h = tt

  send-Leaves :
      (size : ℕ) (bytes : List ℕ) (h : H) (c : C)
      → P h
      → Leaves (λ (x : H × C). P x.0) (send p k size bytes h c)
  unfolding send
  send-Leaves size [] h c w = w
  send-Leaves size (b ∷ bytes) h c w = elim (Bool-cases (ltb max_message size)) [
    | inl big ↦ rw big tt
    | inr small ↦ rw small (sent (k.write c (b ∷ bytes)))
  ]
    where
      sent :
          (r : C × Bool)
          → Leaves {E = H × C}
              (λ (x : H × C). P x.0)
              (if r.1 then ok (h, r.0) else refused (h, r.0))
      sent (c', true) = w
      sent (c', false) = tt

  -- What the parser's two methods keep, the handling of a message keeps.
  pub handle-Leaves :
      ((h : H) (bytes : List ℕ) → P h → Leaves P (p.parse_message h bytes))
      → ((h : H) (bytes : List ℕ)
          → P h
          → Leaves (λ (x : H × List ℕ). P x.0) (p.write_message h bytes))
      → (bytes : List ℕ) (size : ℕ) (h : H) (c : C) → P h
      → Leaves (λ (x : H × C). P x.0) (handle p k bytes size h c)
  unfolding handle
  handle-Leaves parses writes bytes size h c w =
      Leaves-bind P (λ (x : H × C). P x.0) _ _
        (keep_conn-Leaves P c (p.parse_message h bytes) (parses h bytes w))
        λ h' w'.
          Leaves-bind (λ (x : H × List ℕ). P x.0) (λ (x : H × C). P x.0) _ _
            (keep_conn-Leaves (λ (x : H × List ℕ). P x.0) c (p.write_message h' (replicate 1024 0))
              (writes h' (replicate 1024 0) w'))
            λ (h'', reply) w''. send-Leaves size reply h'' c w''

  pub Leaves-keeps :
      ((h : H) (bytes : List ℕ) → P h → Leaves P (p.parse_message h bytes))
      → ((h : H) (bytes : List ℕ)
          → P h
          → Leaves (λ (x : H × List ℕ). P x.0) (p.write_message h bytes))
      → ((h : H) → P h → 0 < p.get_message_len h)
      → IsSteady p k P
  Leaves-keeps parses writes waits = record {
    waits = waits;
    keeps = λ bytes size h h' c c' w e.
        subst (Leaves λ (x : H × C). P x.0) e (handle-Leaves parses writes bytes size h c w);
  }
