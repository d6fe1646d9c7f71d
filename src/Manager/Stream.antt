-- ===== src/Manager/Stream.antt =====
-- rpcmple_cpp/include/rpcmple/messageManager.h: the stream that a connection delivers, taken byte by
-- byte.
use rpcmple.Common.{ℕ, ◌+◌, ◌<◌, ◌≡◌, refl, sym, ap, ◌∙◌, arith}
use rpcmple.Common.{List, [], ◌∷◌, ◌++◌, append_assoc, append-nil, length, take}
use rpcmple.Common.{length-append}
use rpcmple.Common.{Outcome, ok, ◌>>=◌, >>=_assoc, >>=_ok}
use rpcmple.Common.{true, false, ◌==◌, if◌then◌else◌}
use mathlib.Core.Path.{fun_ext}
use rpcmple.Manager.{Parser, Connection, State, handle}

-- The message so far, and the size that it will have.
pub record Frame (H C : Type 0) : Type 0 where
  pub collected : List ℕ
  pub size : ℕ
  pub handler : H
  pub conn : C

-- What a state of the manager stands for.
abbrev pub view : {H C : Type 0} → State H C → Frame H C
view s = record {
  collected = take s.message_last_idx s.message;
  size = s.message_length;
  handler = s.handler;
  conn = s.conn;
}

abbrev pub map_ok : {A B E : Type 0} → (A → B) → Outcome E A → Outcome E B
map_ok f o = o >>= λ a. ok (f a)

module _ {H C : Type 0} (p : Parser H) (k : Connection C) where
  abbrev pub Fed : Type 0
  Fed = Outcome (H × C) (Frame H C)

  -- An empty frame for the message that the handler waits for.
  abbrev pub fresh : H × C → Frame H C
  fresh (h, c) = record { collected = []; size = p.get_message_len h; handler = h; conn = c }

  unfoldable pub deliver : Frame H C → Fed
  deliver f = map_ok fresh (handle p k f.collected f.size f.handler f.conn)

  unfoldable pub feed : Frame H C → ℕ → Fed
  feed f b =
      let f' = record f { collected = f.collected ++ b ∷ [] } in
      if length f'.collected == f'.size then deliver f' else ok f'

  unfoldable pub feed_all : Frame H C → List ℕ → Fed
  feed_all f [] = ok f
  feed_all f (b ∷ bytes) = feed f b >>= λ f'. feed_all f' bytes

  -- Bytes may come together or one after another.
  pub feed_all-append :
      (f : Frame H C) (xs ys : List ℕ)
      → feed_all f (xs ++ ys) ≡ (feed_all f xs >>= λ f'. feed_all f' ys)
  unfolding feed_all
  feed_all-append f [] ys = refl
  feed_all-append f (x ∷ xs) ys =
      ap (◌>>=◌ (feed f x)) (fun_ext λ f'. feed_all-append f' xs ys)
      ∙ >>=_assoc (feed f x) (λ f'. feed_all f' xs) (λ f'. feed_all f' ys)

  feed_more :
      (f : Frame H C) (x : ℕ)
      → length f.collected + 1 < f.size
      → feed f x ≡ ok (record f { collected = f.collected ++ x ∷ [] })
  unfolding feed
  feed_more f x h = rw open_still refl
    where
      open_still : (length (f.collected ++ x ∷ []) == f.size) ≡ false
      open_still = ground (arith, length-append f.collected (x ∷ []))

  feed_last :
      (f : Frame H C) (x : ℕ)
      → length f.collected + 1 ≡ f.size
      → feed f x ≡ deliver (record f { collected = f.collected ++ x ∷ [] })
  unfolding feed
  feed_last f x h = rw full refl
    where
      full : (length (f.collected ++ x ∷ []) == f.size) ≡ true
      full = ground (arith, length-append f.collected (x ∷ []))

  -- Too few bytes for the message are only collected.
  pub feed_all_short :
      (f : Frame H C) (xs : List ℕ)
      → length f.collected + length xs < f.size
      → feed_all f xs ≡ ok (record f { collected = f.collected ++ xs })
  unfolding feed_all
  feed_all_short f [] h = ap (λ l. ok (record f { collected = l })) (sym (append-nil f.collected))
  feed_all_short f (x ∷ xs) h =
      rw
        (
          feed_more f x (omega arith),
          feed_all_short (record f { collected = f.collected ++ x ∷ [] }) xs
              (omega (arith, length-append f.collected (x ∷ []))),
        )
        (ap (λ l. ok (record f { collected = l })) (append_assoc f.collected (x ∷ []) xs))

  -- The bytes that fill the message deliver it.
  pub feed_all_full :
      (f : Frame H C) (x : ℕ) (xs : List ℕ)
      → length f.collected + length (x ∷ xs) ≡ f.size
      → feed_all f (x ∷ xs) ≡ deliver (record f { collected = f.collected ++ x ∷ xs })
  unfolding feed_all
  feed_all_full f x [] h = rw (feed_last f x (omega arith)) (>>=_ok _)
  feed_all_full f x (y ∷ ys) h =
      rw
        (
          feed_more f x (omega arith),
          feed_all_full (record f { collected = f.collected ++ x ∷ [] }) y ys
              (omega (arith, length-append f.collected (x ∷ []))),
        )
        (ap (λ l. deliver (record f { collected = l }))
          (append_assoc f.collected (x ∷ []) (y ∷ ys)))
