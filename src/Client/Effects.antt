-- ===== src/Client/Effects.antt =====
-- rpcmple_cpp/include/rpcmple/rpcClient.h: what each section of the client does to its flags, on every branch,
-- while nobody asks for a stop.
use rpcmple.Common.{ℕ, zero, suc, ◌≡◌, refl, sym, subst, ◌⊎◌, inl, inr}
use rpcmple.Common.{Bool, true, false, Bool-cases, ltb, ◌==◌, if◌then◌else◌, List, [], ◌++◌, length}
use rpcmple.Common.{Option, none, some, Outcome, ok, refused, thrown, fault, ◌>>=◌, or_fault}
use rpcmple.Endian.{bytes_to_uint32}
use rpcmple.Variant.{Variant}
use rpcmple.Signature.{Codec}
use rpcmple.Signature.Writer.{to_binary}
use rpcmple.Signature.Reader.{from_binary}
use rpcmple.Header.{put_message, header_size, put_message-append}
use rpcmple.Server.Serve.{header}
use rpcmple.Client.{
  Client, RemoteProcedure, post, posted, take_reply, replied, write_message, parse_header,
  parse_section, parse_message,
}

-- `canCall`, `sendIsReady` and `replIsReady`, with the section, and no stop.
abbrev pub Flags : Client → Bool → Bool → Bool → Type 0
Flags c call send repl =
    (c.can_call ≡ call)
    × (c.send_is_ready ≡ send)
    × (c.repl_is_ready ≡ repl)
    × (c.stop_wait ≡ false)

module _ (codec : Codec) (m : Bool) where
  abbrev pub Posts : Client → Outcome Client Client → Type 0
  Posts c (ok c') =
      (c'.section_id ≡ c.section_id)
      × ((call : Bool) (send : Bool) (repl : Bool)
          → Flags c call send repl
          → Flags c' false true repl)
  Posts c (refused c') =
      (c'.section_id ≡ c.section_id)
      × ((call : Bool) (send : Bool) (repl : Bool)
          → Flags c call send repl
          → Flags c' call send repl)
  Posts c _ = Unit {0}

  posted-Posts :
      (c : Client) (id : ℕ) (o : Outcome (List ℕ) (List ℕ)) → Posts c (posted codec m c id o)
  posted-Posts c id (ok bytes) = (refl, λ call send repl h. (refl, refl, h.2, h.3))
  posted-Posts c id (refused bytes) = (refl, λ call send repl h. h)
  posted-Posts c id thrown = tt
  posted-Posts c id fault = tt

  pub post-Posts :
      (c : Client) (id : ℕ) (proc : RemoteProcedure) (vs : List Variant)
      → Posts c (post codec m c id proc vs)
  unfolding post
  post-Posts c id proc vs =
      let o = posted codec m c id (to_binary codec.to_bytes m proc.args vs c.args) in
      elim (Bool-cases c.stop_wait) [
        | inl stop ↦
            subst (λ (b : Bool). Posts c (if b then refused c else o)) (sym stop)
              (refl, λ call send repl h. h)
        | inr go ↦
            subst (λ (b : Bool). Posts c (if b then refused c else o)) (sym go)
              (posted-Posts c id _)
      ]

  abbrev pub Writes : Client → Outcome Client (Client × List ℕ) → Type 0
  Writes c (ok (c', out)) =
      (c' ≡ record c { send_is_ready = false })
      × (out ≡ header c.procedure_id (length c.args) ++ c.args)
  Writes c (refused c') = c' ≡ c
  Writes c _ = ⊥

  -- With no message half read the client writes its request, if it writes at all.
  pub write_message-Writes :
      (c : Client) (buffer : List ℕ) → c.section_id ≡ 0 → Writes c (write_message codec m c buffer)
  unfolding write_message
  write_message-Writes c buffer idle =
      let made = put_message m c.procedure_id c.args 0 buffer in
      let sends : Outcome Client (Client × List ℕ) =
        or_fault made >>= λ request. ok (record c { send_is_ready = false }, request) in
      let small = if ltb 16777216 (length c.args) then refused c else sends in
      let whole = if c.stop_wait then refused c else small in
      let written : Writes c sends =
        subst
          (λ o.
            Writes c (or_fault o >>= λ request. ok (record c { send_is_ready = false }, request)))
          (sym (put_message-append m c.procedure_id c.args [] buffer)) (refl, refl) in
      subst (λ (n : ℕ). Writes c (if n == 0 then whole else ok (c, []))) (sym idle)
        (elim (Bool-cases c.stop_wait) [
          | inl stop ↦
              subst (λ (b : Bool). Writes c (if b then refused c else small)) (sym stop) refl
          | inr go ↦
              subst (λ (b : Bool). Writes c (if b then refused c else small)) (sym go)
                (elim (Bool-cases (ltb 16777216 (length c.args))) [
                  | inl long ↦ rw long refl
                  | inr short ↦ rw short written
                ])
        ])

  -- Between the header and the body of a reply nothing is written.
  pub write_message-between :
      (c : Client) (buffer : List ℕ)
      → c.section_id ≡ 1
      → write_message codec m c buffer ≡ ok (c, [])
  unfolding write_message
  write_message-between c buffer between = rw between refl

  -- A header that is followed by more, or a whole reply.
  abbrev pub Parses : Client → Outcome Client Client → Type 0
  Parses c (ok c') =
      ((c'.section_id ≡ 1)
        × ((call : Bool) (send : Bool) (repl : Bool)
            → Flags c call send repl
            → Flags c' call send repl))
      ⊎ ((c'.section_id ≡ 0)
          × ((call : Bool) (send : Bool) (repl : Bool)
              → Flags c call send repl
              → Flags c' call send true))
  Parses c _ = Unit {0}

  parse_header-Parses : (c : Client) (v : ℕ) → Parses c (parse_header codec m c v)
  unfolding parse_header
  parse_header-Parses c v = elim (Bool-cases (ltb 0 (header_size v))) [
    | inl more ↦ rw more (inl (refl, λ call send repl h. h))
    | inr whole ↦ rw whole (inr (refl, λ call send repl h. (h.0, h.1, refl, h.3)))
  ]

  pub parse_message-Parses :
      (c : Client) (message : List ℕ) → Parses c (parse_message codec m c message)
  unfolding parse_message parse_section
  parse_message-Parses c message = section c.section_id
    where
      read : (o : Option ℕ) → Parses c (or_fault o >>= parse_header codec m c)
      read none = tt
      read (some v) = parse_header-Parses c v

      section : (n : ℕ) → Parses c (parse_section codec m n c message)
      section zero = read (bytes_to_uint32 m message true)
      section (suc zero) = inr (refl, λ call send repl h. (h.0, h.1, refl, h.3))
      section (suc (suc n)) = tt

  -- The reply is taken, decoded or not.
  abbrev pub Takes : Client → Outcome (Client × List Variant) (Client × List Variant) → Type 0
  Takes c (ok (c', returns)) = c' ≡ record c { repl_is_ready = false; can_call = true }
  Takes c (refused (c', returns)) = c' ≡ record c { repl_is_ready = false; can_call = true }
  Takes c _ = Unit {0}

  pub take_reply-Takes :
      (c : Client) (proc : RemoteProcedure) (returns : List Variant)
      → Takes c (take_reply codec m c proc returns)
  unfolding take_reply
  take_reply-Takes c proc returns =
      decoded (from_binary codec.from_bytes m proc.rets c.rets returns)
    where
      decoded :
          (o : Outcome (List Variant) (List Variant))
          → Takes c (replied codec m (record c { repl_is_ready = false; can_call = true }) proc o)
      decoded (ok returns') = elim (Bool-cases (length returns' == length proc.rets)) [
        | inl same ↦ rw same refl
        | inr other ↦ rw other refl
      ]
      decoded (refused returns') = refl
      decoded thrown = tt
      decoded fault = tt
