-- ===== src/Signature/Append.antt =====
-- The buffer of `toBinary` seen as the bytes written so far: every step of the writer appends.
use rpcmple.Common.{ℕ, zero, ◌+◌, ◌-◌, ◌≤◌, ◌≡◌, refl, sym, ap, subst, ◌∙◌, arith}
use rpcmple.Common.{List, ◌++◌, append_assoc, append-nil, length, drop, replicate}
use rpcmple.Common.{
  overwrite, overwrite-append, length-append, length-replicate, take-append, some, Bool-cases, inl,
  inr,
}
use rpcmple.Common.{ok, refused, thrown, ◌>>=◌, ltb}
use rpcmple.Signature.Cursor.{Cursor, Written, reserve, write, finish}
use rpcmple.Signature.Wire.{Encoded, ◌⋯◌}

-- `ws` has been written: it stands at the head of the vector, and the offset behind it.
pub record Holds (ws : List ℕ) (c : Cursor) : Type 0 where
  pub spare : List ℕ
  pub stands : c.buf ≡ ws ++ spare
  pub offset : c.pos ≡ length ws

-- A step of the writer, from a cursor that holds `ws`, does what an encoding says.
abbrev pub Writes : List ℕ → Written → Encoded → Type 0
Writes ws (ok c) (ok bs) = Holds (ws ++ bs) c
Writes ws (refused b) (refused _) = Unit {0}
Writes ws thrown thrown = Unit {0}
Writes ws _ _ = ⊥

-- What is written behind `bs` counts from `bs` on.
Writes-behind :
    (ws bs : List ℕ) (w : Written) (e : Encoded)
    → Writes (ws ++ bs) w e
    → Writes ws w (e >>= λ cs. ok (bs ++ cs))
Writes-behind ws bs (ok c) (ok cs) h = subst (λ l. Holds l c) (append_assoc ws bs cs) h
Writes-behind ws bs (refused b) (refused _) h = tt
Writes-behind ws bs thrown thrown h = tt
Writes-behind ws bs _ _ h = absurd h

pub Writes-bind :
    (ws : List ℕ) (w : Written) (f : Cursor → Written) (e e' : Encoded)
    → Writes ws w e
    → ((bs : List ℕ) (c : Cursor) → e ≡ ok bs → Holds (ws ++ bs) c → Writes (ws ++ bs) (f c) e')
    → Writes ws (w >>= f) (e ⋯ e')
Writes-bind ws (ok c) f (ok bs) e' h k = Writes-behind ws bs (f c) e' (k bs c refl h)
Writes-bind ws (refused b) f (refused _) e' h k = tt
Writes-bind ws thrown f thrown e' h k = tt
Writes-bind ws _ f _ e' h k = absurd h

-- After `reserve n` the vector has room for n bytes more.
pub reserve-Holds :
    (n : ℕ) (ws : List ℕ) (c : Cursor)
    → Holds ws c
    → (h : Holds ws (reserve n c)) × (n ≤ length h.spare)
unfolding reserve
reserve-Holds n ws c h = elim (Bool-cases (ltb (length c.buf) (c.pos + n))) [
  | inl short ↦ rw short (
    record {
      spare = h.spare ++ replicate n 0;
      stands = ap (λ l. l ++ replicate n 0) h.stands ∙ append_assoc ws h.spare (replicate n 0);
      offset = h.offset;
    },
    omega (arith, length-append h.spare (replicate n 0), length-replicate n (zero)),
  )
  | inr room ↦ rw room (h, ground (arith, ap length h.stands, length-append ws h.spare))
]

-- A write that there is room for appends its bytes.
pub write-Holds :
    (ws bs : List ℕ) (c : Cursor) (h : Holds ws c)
    → length bs ≤ length h.spare
    → Writes ws (write (length bs) bs c) (ok bs)
unfolding write
write-Holds ws bs c h room = rw (placed) (record {
  spare = drop (length bs) h.spare;
  stands = sym (append_assoc ws bs (drop (length bs) h.spare));
  offset = omega (arith, h.offset, length-append ws bs);
})
  where
    placed : overwrite c.buf c.pos bs ≡ some (ws ++ (bs ++ drop (length bs) h.spare))
    placed = rw (h.stands, h.offset) (overwrite-append ws h.spare bs room)

pub put-Writes :
    (n : ℕ) (ws bs : List ℕ) (c : Cursor)
    → length bs ≡ n
    → Holds ws c
    → Writes ws (write n bs (reserve n c)) (ok bs)
put-Writes n ws bs c e h =
    let room = reserve-Holds n ws c h in
    subst (λ (k : ℕ). Writes ws (write k bs (reserve n c)) (ok bs)) e
      (write-Holds ws bs (reserve n c) room.0 (omega (arith, room.1)))

pub finish-Holds : (ws : List ℕ) (c : Cursor) → Holds ws c → finish c ≡ ws
unfolding finish
finish-Holds ws c h =
    rw
      (h.stands, h.offset, length-append ws h.spare, take-append (length ws) ws h.spare refl, exact)
      (append-nil ws)
  where
    exact : length ws - (length ws + length h.spare) ≡ 0
    exact = omega arith
