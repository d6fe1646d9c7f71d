-- ===== src/Signature/Overrun.antt =====
-- rpcmple_cpp/include/rpcmple/dataSignature.h: `toBinary` on a string of exactly 65536 bytes.
use rpcmple.Common.{
  ℕ, zero, suc, ◌+◌, ◌<◌, ◌≡◌, refl, sym, ap, ◌∙◌, arith, List, [], ◌∷◌, length, replicate,
}
use rpcmple.Common.{
  length-append, length-replicate, Option, none, some, Bool, true, Bool-cases, inl, inr,
}
use rpcmple.Common.{ok, fault, ◌>>=◌, or_fault, overlay, overwrite, ltb, if◌then◌else◌}
use rpcmple.Endian.{uint16_to_bytes}
use rpcmple.Variant.{Variant, Text, get_string, get_wstring}
use rpcmple.Signature.{classify}
use rpcmple.Signature.Cursor.{Cursor, Written, reserve, write}
use rpcmple.Signature.Writer.{
  put_size, put_text, write_string, write_wstring, write_kind, write_labelled, write_item,
  write_items, to_binary,
}

overlay_short : (xs bs : List ℕ) → length xs < length bs → overlay xs bs ≡ none
overlay_short xs [] h = absurd (omega arith)
overlay_short [] (b ∷ bs) h = refl
overlay_short (x ∷ xs) (b ∷ bs) h = rw (overlay_short xs bs (omega arith)) refl

-- Nothing is copied that ends past the end.
overwrite_short :
    (xs : List ℕ) (i : ℕ) (bs : List ℕ)
    → 0 < length bs
    → length xs < i + length bs
    → overwrite xs i bs ≡ none
overwrite_short xs zero bs some_ h = overlay_short xs bs (omega arith)
overwrite_short [] (suc i) bs some_ h = refl
overwrite_short (x ∷ xs) (suc i) bs some_ h = rw (overwrite_short xs i bs some_ (omega arith)) refl

kept :
    (x : ℕ) (o : Option (List ℕ)) (ys : List ℕ)
    → elim o [ none ↦ none | some zs ↦ some (x ∷ zs) ] ≡ some ys
    → (zs : List ℕ) × (o ≡ some zs) × (ys ≡ x ∷ zs)
kept x none ys e = absurd (cc)
kept x (some zs) ys e = (zs, refl, cc)

length-overlay : (xs bs ys : List ℕ) → overlay xs bs ≡ some ys → length ys ≡ length xs
length-overlay xs [] ys e = let same : xs ≡ ys = cc in ap length (sym same)
length-overlay [] (b ∷ bs) ys e = absurd (cc)
length-overlay (x ∷ xs) (b ∷ bs) ys e =
    let (zs, rest, joined) = kept b (overlay xs bs) ys e in
    omega (arith, length-overlay xs bs zs rest, ap length joined)

length-overwrite :
    (xs : List ℕ) (i : ℕ) (bs ys : List ℕ) → overwrite xs i bs ≡ some ys → length ys ≡ length xs
length-overwrite xs zero bs ys e = length-overlay xs bs ys e
length-overwrite [] (suc i) bs ys e = absurd (cc)
length-overwrite (x ∷ xs) (suc i) bs ys e =
    let (zs, rest, joined) = kept x (overwrite xs i bs) ys e in
    omega (arith, length-overwrite xs i bs zs rest, ap length joined)

length-reserve :
    (n : ℕ) (c : Cursor)
    → length (reserve n c).buf
      ≡ (if ltb (length c.buf) (c.pos + n) then length c.buf + n else length c.buf)
unfolding reserve
length-reserve n c = elim (Bool-cases (ltb (length c.buf) (c.pos + n))) [
  | inl short ↦
      rw short
        (length-append c.buf (replicate n 0) ∙ ap (λ k. length c.buf + k) (length-replicate n 0))
  | inr long ↦ rw long refl
]

pos-reserve : (n : ℕ) (c : Cursor) → (reserve n c).pos ≡ c.pos
unfolding reserve
pos-reserve n c = elim (Bool-cases (ltb (length c.buf) (c.pos + n))) [
  | inl short ↦ rw short refl
  | inr long ↦ rw long refl
]

-- A copy past the end.
write_fault :
    (n : ℕ) (bs : List ℕ) (c : Cursor)
    → 0 < length bs
    → length c.buf < c.pos + length bs
    → write n bs c ≡ fault
unfolding write
write_fault n bs c some_ h = rw (overwrite_short c.buf c.pos bs some_ h) refl

-- Behind a copy the vector has its size.
written_fault :
    (n : ℕ) (bs : List ℕ) (c : Cursor) (f : Cursor → Written)
    → ((c' : Cursor) → length c'.buf ≡ length c.buf → c'.pos ≡ c.pos + n → f c' ≡ fault)
    → (write n bs c >>= f) ≡ fault
unfolding write
written_fault n bs c f h = go (overwrite c.buf c.pos bs) refl
  where
    go :
        (o : Option (List ℕ))
        → overwrite c.buf c.pos bs ≡ o
        → ((or_fault {E = List ℕ} o >>= λ b. ok (record { buf = b; pos = c.pos + n })) >>= f)
          ≡ fault
    go none e = refl
    go (some b) e =
        h (record { buf = b; pos = c.pos + n }) (length-overwrite c.buf c.pos bs b e) refl

module _ (m : Bool) where
  -- Room is made for the two bytes of the size, and for none of the string's.
  put_text_fault :
      (s : Text) (c : Cursor)
      → length s ≡ 65536
      → length c.buf < c.pos + 65538
      → put_text m s c ≡ fault
  unfolding put_text put_size
  put_text_fault s c e small = rw e (
      written_fault 2 (uint16_to_bytes m 0 true) (reserve 2 c) (λ c'. write 0 s (reserve 0 c'))
        λ c' size pos. write_fault 0 s (reserve 0 c') (omega (arith, e)) (
          ground (
            arith,
            e,
            small,
            size,
            pos,
            length-reserve 2 c,
            pos-reserve 2 c,
            length-reserve 0 c',
            pos-reserve 0 c',
          )))

  module _ (t : Text → Option Text) where
    -- `toBinary` copies a string of exactly 65536 bytes past the end of the vector, under an 's'
    -- as the string itself and under a 'w' as what a wide string is converted to, whenever the
    -- vector it is given has fewer than 65538 bytes.
    pub to_binary-overrun :
        (s w : Text) (message : List ℕ)
        → length s ≡ 65536
        → t w ≡ some s
        → length message < 65538
        → (to_binary t m (b's' ∷ []) (Variant.string s ∷ []) message ≡ fault)
          × (to_binary t m (b'w' ∷ []) (Variant.wstring w ∷ []) message ≡ fault)
    unfolding to_binary write_items write_item write_labelled classify write_kind write_string
        write_wstring get_string get_wstring
    to_binary-overrun s w message e converts small =
        let overruns : put_text m s (record { buf = message; pos = 0 }) ≡ fault =
          put_text_fault s (record { buf = message; pos = 0 }) e small in
        (rw overruns refl, rw (converts, overruns) refl)
