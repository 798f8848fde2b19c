-- ===== src/Contracts/Codec/Nested.antt =====
-- Messages in messages, and whole messages.
use mathlib.Core.List.{append-nil, append_assoc}
use email_platform_services.Common.{
  ℕ, ◌+◌, ◌-◌, ◌≡◌, refl, sym, ap, ◌∙◌, subst, false, ltb, Option, none, some, List, [], ◌∷◌, ◌++◌,
  All, length, length-append, Outcome, ok, arith,
}
use email_platform_services.Contracts.Wire.{Bytes, Writing, Reading, IsUint32}
use email_platform_services.Contracts.Codec.{
  ◌>>=◌, Decoded, got, settled, and_then, Case, Decoder, chosen, decode, end_of, optional_field,
  message_present, each_present, read_message, serialize, deserialize,
}
use email_platform_services.Contracts.Codec.Loop.{AllSettle, round_done}
use email_platform_services.Contracts.Codec.Fields.{
  AddsTo, Carried, Writes, run, Writes-nothing, Writes-both, Writes-field, Writes-same, >>=_assoc,
  AllOf,
}

module _ {writing : Writing} (reading : Reading writing) where
  open writing use {Writer, written, outer, fork}
  open reading use {at, rest, Reader}

  -- A message that is sent in less than 4 GiB, and that `decode` reads back from its bytes.
  pub record Sends {M : Type 0} (encode : M → Writer → Outcome Writer)
      (decode_it : Option ℕ → Reader → Decoded (M × Reader)) (message : M) : Type 0 where
    pub bytes : Bytes
    pub adds : (w : Writer) → AddsTo reading w bytes (encode message w)
    pub short : IsUint32 (length bytes)
    pub takes :
        (r : Reader) (tail : Bytes)
        → rest r ≡ bytes ++ tail
        → (p : Reader) × (decode_it (some (length bytes)) r ≡ got (message, p))
          × (rest p ≡ tail)
          × (at p ≡ at r + length bytes)

  module _ {A : Type 0} (encode : A → Writer → Outcome Writer)
      (decode_it : Option ℕ → Reader → Decoded (A × Reader)) (a : A)
      (sends : Sends encode decode_it a) where
    joined :
        (w : Writer)
        → AddsTo reading w
            (writing.uint32_bytes (length sends.bytes) ++ sends.bytes)
            (encode a (fork w) >>= writing.join)
    unfolding ◌>>=◌
    joined w =
        let inner = sends.adds (fork w) in
        let chunk : written inner.after ≡ sends.bytes =
          inner.written_after ∙ ap (λ b. b ++ sends.bytes) (writing.written_fork w) in
        let around = inner.outer_after ∙ writing.outer_fork w in
        let fits : IsUint32 (length (written inner.after)) =
          subst (λ b. IsUint32 (length b)) (sym chunk) sends.short in
        let result = writing.join_adds w inner.after around fits in
        rw (inner.succeeds, ◌>>=◌)
          (subst
            (λ b.
              AddsTo reading w (writing.uint32_bytes (length b) ++ b) (writing.join inner.after))
            chunk result)

    message-Carried :
        {M : Type 0} (put : M → A → M) (m : M)
        → Carried reading
            (λ w. encode a (fork w) >>= writing.join)
            (read_message reading decode_it put m)
            (put m a)
    unfolding read_message and_then settled
    message-Carried put m = record {
      bytes = writing.uint32_bytes (length sends.bytes) ++ sends.bytes;
      adds = joined;
      takes = λ r tail e.
          let sizes = length-append (writing.uint32_bytes (length sends.bytes)) sends.bytes in
          let sized =
            reading.uint32_takes (length sends.bytes) r (sends.bytes ++ tail) sends.short
              (e ∙ append_assoc (writing.uint32_bytes (length sends.bytes)) sends.bytes tail) in
          let (p, gave, left, on) = sends.takes sized.after tail sized.rest_after in
          let moved = sized.at_after in
          (p, rw (sized.succeeds, settled, and_then, gave) refl, left, omega arith);
    }

  module _ {M : Type 0} (cases : List (Case M Reader)) (total : AllSettle reading cases) where
    -- A case that decodes a message and puts it in.
    abbrev pub IsMessageCase :
        {A : Type 0} → ℕ → (Option ℕ → Reader → Decoded (A × Reader)) → (M → A → M) → Type 0
    IsMessageCase tag decode_it put =
        (n : ℕ) × (chosen tag cases
          ≡ some (record { number = n; tag = tag; read = read_message reading decode_it put }))

    module _ {A : Type 0} (encode : A → Writer → Outcome Writer)
        (decode_it : Option ℕ → Reader → Decoded (A × Reader)) (tag : ℕ) (put : M → A → M)
        (fits : IsUint32 tag) (is_case : IsMessageCase tag decode_it put) where
      Writes-message :
          (m next : M) (a : A)
          → put m a ≡ next
          → Sends encode decode_it a
          → Writes reading cases (message_present writing encode tag a) m next
      unfolding message_present
      Writes-message m next a puts sends =
          Writes-same reading cases total _
            (λ w. writing.uint32 tag w >>= (λ v. encode a (fork v) >>= writing.join)) m next
            (λ w. >>=_assoc (writing.uint32 tag w) _ _)
            (subst (Writes reading cases _ m) puts (
              Writes-field reading cases total tag _ _ m (put m a) fits is_case.1
                (message-Carried encode decode_it a sends put m)))

      pub Writes-optional_message :
          (set : Option A → M) (a : Option A)
          → ((b : A) → put (set none) b ≡ set (some b))
          → AllOf (Sends encode decode_it) a
          → Writes reading cases
              (optional_field writing (message_present writing encode) tag a)
              (set none)
              (set a)
      unfolding optional_field
      Writes-optional_message set none puts sends = Writes-nothing reading cases (set none)
      Writes-optional_message set (some a) puts sends = Writes-message _ _ a (puts a) sends

      pub Writes-each :
          (set : List A → M) (done more : List A)
          → ((have : List A) (b : A) → put (set have) b ≡ set (have ++ (b ∷ [])))
          → All (Sends encode decode_it) more
          → Writes reading cases
              (each_present writing encode tag more)
              (set done)
              (set (done ++ more))
      unfolding each_present
      Writes-each set done [] puts sends =
          subst (λ have. Writes reading cases (λ w. ok w) (set done) (set have))
            (sym (append-nil done)) (Writes-nothing reading cases (set done))
      Writes-each set done (a ∷ more) puts (sends, later) =
          subst
            (λ have.
              Writes reading cases (each_present writing encode tag (a ∷ more)) (set done)
                (set have))
            (append_assoc done (a ∷ []) more)
            (Writes-both reading cases (message_present writing encode tag a)
              (each_present writing encode tag more) _ _ _
              (Writes-message _ _ a (puts done a) sends)
              (Writes-each set (done ++ (a ∷ [])) more puts later))

  module _ {M : Type 0} (message : Decoder M Reader) (encode : M → Writer → Outcome Writer) (m : M)
      (writes : Writes reading message.cases (encode m) message.base m) where
    decoded :
        (end : ℕ) (r : Reader) (tail : Bytes)
        → rest r ≡ writes.bytes ++ tail
        → at r + length writes.bytes ≡ end
        → (p : Reader) × (run reading message.cases end message.base r ≡ got (m, p))
          × (rest p ≡ tail)
          × (at p ≡ at r + length writes.bytes)
    decoded end r tail e ends =
        let (p, ran, left, on) = writes.takes end r tail e (omega arith) in
        let over : ltb (at p) end ≡ false = ground (arith, on, ends) in
        (p, ran ∙ round_done reading message.cases end m p (end - at p) over, left, on)

    -- What a message is sent as is decoded to it.
    pub sent : IsUint32 (length writes.bytes) → Sends encode (decode reading message) m
    unfolding decode end_of
    sent short = record {
      bytes = writes.bytes;
      adds = writes.adds;
      short = short;
      takes = λ r tail e. decoded _ r tail e refl;
    }

    -- The bytes of a message are those that it writes, and a buffer of them is decoded to it.
    pub serialize-deserialize :
        (serialize writing encode m ≡ ok writes.bytes)
        × (deserialize reading (decode reading message) writes.bytes ≡ got m)
    unfolding serialize deserialize decode end_of ◌>>=◌ and_then
    serialize-deserialize =
        let put = writes.adds writing.new in
        let alone = put.outer_after ∙ writing.outer_new in
        let whole = put.written_after ∙ ap (λ b. b ++ writes.bytes) writing.written_new in
        let start = reading.new writes.bytes in
        let at_end : at start + length writes.bytes ≡ reading.len start =
          omega (arith, reading.at_new writes.bytes, reading.len_new writes.bytes) in
        let (p, ran, left, on) =
          decoded (reading.len start) start []
            (reading.rest_new writes.bytes ∙ sym (append-nil writes.bytes)) at_end in
        (
          rw (put.succeeds, ◌>>=◌) (ap ok (writing.finish_written put.after alone ∙ whole)),
          rw (ran, and_then) refl,
        )
