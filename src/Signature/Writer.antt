-- ===== src/Signature/Writer.antt =====
-- `dataSignature::toBinary`, one function for each case of its second `switch`.
use rpcmple.Common.{ℕ, ◌%◌, ◌^◌, List, [], ◌∷◌, length, take}
use rpcmple.Common.{Option, none, some, Outcome, ok, refused, ◌>>=◌}
use rpcmple.Common.{or_fault, or_thrown, or_refused, Bool, true, ltb, if◌then◌else◌}
use rpcmple.Endian.{double_to_bytes, int64_to_bytes, uint64_to_bytes, uint16_to_bytes}
use rpcmple.Variant.{Variant, Text}
use rpcmple.Variant.{
  get_double, get_doubles, get_int64, get_int64s, get_uint64, get_uint64s, get_wstring,
  get_wstrings, get_string, get_strings,
}
use rpcmple.Signature.{Kind, any, classify, kind_of, wire_char}
use rpcmple.Signature.Cursor.{Cursor, Written, reserve, write, finish}

-- The cases 'd', 'i' and 'u' after their conversion: 8 bytes.
unfoldable pub put_word : List ℕ → Cursor → Written
put_word bs c = write 8 bs (reserve 8 c)

-- A size that is held in a `uint16_t`, after the test that lets 65536 pass.
unfoldable pub put_size : Bool → ℕ → Cursor → Written
put_size m n c =
    let c' = reserve 2 c in
    if ltb 65536 n then refused c'.buf else write 2 (uint16_to_bytes m (n % 2 ^ 16) true) c'

-- A string's bytes: room is made for the size as it was cut to 16 bits, but all the bytes are
-- copied.
unfoldable pub put_text : Bool → Text → Cursor → Written
put_text m s c = do
  c' ← put_size m (length s) c
  write (length s % 2 ^ 16) s (reserve (length s % 2 ^ 16) c')

unfoldable pub put_words : (ℕ → List ℕ) → List ℕ → Cursor → Written
put_words convert [] c = ok c
put_words convert (w ∷ ws) c = do c' ← put_word (convert w) c; put_words convert ws c'

unfoldable pub put_texts : Bool → List Text → Cursor → Written
put_texts m [] c = ok c
put_texts m (s ∷ ss) c = do c' ← put_text m s c; put_texts m ss c'

-- A wide string is converted when its turn comes.
unfoldable pub put_wides : (Text → Option Text) → Bool → List Text → Cursor → Written
put_wides convert m [] c = ok c
put_wides convert m (w ∷ ws) c = do
  s ← or_thrown (convert w)
  c' ← put_text m s c
  put_wides convert m ws c'

module _ (to_bytes : Text → Option Text) (m : Bool) where
  unfoldable pub write_double : Variant → Cursor → Written
  write_double r c = do w ← or_refused c.buf (get_double r); put_word (double_to_bytes m w true) c

  unfoldable pub write_doubles : Variant → Cursor → Written
  write_doubles r c = do
    ws ← or_refused c.buf (get_doubles r)
    c' ← put_size m (length ws) c
    put_words (λ w. double_to_bytes m w true) (take (length ws % 2 ^ 16) ws) c'

  unfoldable pub write_int64 : Variant → Cursor → Written
  write_int64 r c = do w ← or_refused c.buf (get_int64 r); put_word (int64_to_bytes m w true) c

  unfoldable pub write_int64s : Variant → Cursor → Written
  write_int64s r c = do
    ws ← or_refused c.buf (get_int64s r)
    c' ← put_size m (length ws) c
    put_words (λ w. int64_to_bytes m w true) (take (length ws % 2 ^ 16) ws) c'

  unfoldable pub write_uint64 : Variant → Cursor → Written
  write_uint64 r c = do w ← or_refused c.buf (get_uint64 r); put_word (uint64_to_bytes m w true) c

  unfoldable pub write_uint64s : Variant → Cursor → Written
  write_uint64s r c = do
    ws ← or_refused c.buf (get_uint64s r)
    c' ← put_size m (length ws) c
    put_words (λ w. uint64_to_bytes m w true) (take (length ws % 2 ^ 16) ws) c'

  unfoldable pub write_wstring : Variant → Cursor → Written
  write_wstring r c = do
    w ← or_refused c.buf (get_wstring r)
    s ← or_thrown (to_bytes w)
    put_text m s c

  unfoldable pub write_wstrings : Variant → Cursor → Written
  write_wstrings r c = do
    ws ← or_refused c.buf (get_wstrings r)
    c' ← put_size m (length ws) c
    put_wides to_bytes m (take (length ws % 2 ^ 16) ws) c'

  unfoldable pub write_string : Variant → Cursor → Written
  write_string r c = do s ← or_refused c.buf (get_string r); put_text m s c

  unfoldable pub write_strings : Variant → Cursor → Written
  write_strings r c = do
    ss ← or_refused c.buf (get_strings r)
    c' ← put_size m (length ss) c
    put_texts m (take (length ss % 2 ^ 16) ss) c'

  -- The second `switch`. Its `default` also takes a 'v' that the first has not replaced, which
  -- does not happen.
  unfoldable pub write_kind : Kind → Variant → Cursor → Written
  write_kind Kind.double r c = write_double r c
  write_kind Kind.doubles r c = write_doubles r c
  write_kind Kind.int64 r c = write_int64 r c
  write_kind Kind.int64s r c = write_int64s r c
  write_kind Kind.uint64 r c = write_uint64 r c
  write_kind Kind.uint64s r c = write_uint64s r c
  write_kind Kind.wstring r c = write_wstring r c
  write_kind Kind.wstrings r c = write_wstrings r c
  write_kind Kind.string r c = write_string r c
  write_kind Kind.strings r c = write_strings r c
  write_kind Kind.any r c = refused c.buf

  -- The first `switch`: a 'v' becomes the value's own type, whose character is written.
  unfoldable pub write_variant : Variant → Cursor → Written
  write_variant r c = do
    c' ← write 1 (wire_char (kind_of r) ∷ []) (reserve 1 c)
    write_kind (kind_of r) r c'

  -- One round of the loop: the label of the signature's character and `rets[i]`, if there is one.
  unfoldable pub write_labelled : Option Kind → Option Variant → Cursor → Written
  write_labelled none r c = refused c.buf
  write_labelled (some any) r c = or_fault r >>= λ v. write_variant v c
  write_labelled (some k) r c = or_fault r >>= λ v. write_kind k v c

  unfoldable pub write_item : ℕ → Option Variant → Cursor → Written
  write_item char r c = write_labelled (classify char) r c

  -- The loop; the signature and the values are what is left of them at index i.
  unfoldable pub write_items : List ℕ → List Variant → Cursor → Written
  write_items [] rets c = ok c
  write_items (char ∷ sig) [] c = do c' ← write_item char none c; write_items sig [] c'
  write_items (char ∷ sig) (r ∷ rets) c = do
    c' ← write_item char (some r) c
    write_items sig rets c'

  unfoldable pub to_binary : List ℕ → List Variant → List ℕ → Outcome (List ℕ) (List ℕ)
  to_binary sig rets message = do
    c ← write_items sig rets (record { buf = message; pos = 0 })
    ok (finish c)
