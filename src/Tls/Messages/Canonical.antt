-- ===== src/Tls/Messages/Canonical.antt =====
-- A decoded message encodes to the bytes that it was read from (tls_simulator.py, lines 84 to 143).
use post_quantum_cryptograph.Common.{
  ℕ, ◌+◌, ◌-◌, ◌≤◌, ◌≡◌, ◌⊎◌, inl, inr, refl, sym, ap, subst, ◌∙◌, [], ◌∷◌, ◌++◌, arith, length,
  take, drop, length-take, length-drop, take-append-drop, drop-drop, All-drop, All-take,
}
use post_quantum_cryptograph.Common.Bytes.{
  Bytes, AreBytes, slice, to_bytes2, to_bytes3, from_bytes, to_bytes2-from_bytes,
  to_bytes3-from_bytes,
}
use post_quantum_cryptograph.Common.Exec.{Result, ok, err, ◌>>?◌}
use post_quantum_cryptograph.Tls.Messages.{
  Message, finished, validate, construct, encode, wire_of, decode_message, decode_body,
  decode_hello, decode_finished, make_client_hello, make_server_hello, Sender, frame, sender_byte,
  client, server,
}
use post_quantum_cryptograph.Tls.Messages.RoundTrip.{
  IsWellFormed, validate_sound, validate_complete,
}

construct-eq-ok : (m' m : Message) → construct m' ≡ ok m → IsWellFormed m' × (m' ≡ m)
unfolding construct
construct-eq-ok m' m h = split (validate m') refl h
  where
    split :
        (r : Result (Unit {0}))
        → validate m' ≡ r
        → (r >>? λ _. ok m') ≡ ok m
        → IsWellFormed m' × (m' ≡ m)
    split (ok tt) v e = (validate_sound m' v, cc)
    split (err x) v e = cc

encode-IsWellFormed : (m : Message) → IsWellFormed m → encode m ≡ ok (wire_of m)
unfolding encode
encode-IsWellFormed m v = rw (validate_complete m v)

-- A list is the pieces that the decoder cuts it into.
pieces :
    (size : ℕ) (body : Bytes)
    → body
      ≡ take 32 body
        ++ (slice 32 64 body
            ++ (slice 64 (64 + size) body
                ++ (slice (64 + size) (64 + size + 2) body ++ drop (64 + size + 2) body)))
pieces size body =
    let e₁ : 64 + size - 64 ≡ size = omega arith in
    let e₂ : 64 + size + 2 - (64 + size) ≡ 2 = omega arith in
    rw (e₁, e₂)
      (sym (
        ap (λ t. take 32 body ++ (take 32 (drop 32 body) ++ (take size (drop 64 body) ++ t)))
          (ap (λ t. take 2 (drop (64 + size) body) ++ t) (sym (drop-drop 2 (64 + size) body))
            ∙ take-append-drop 2 (drop (64 + size) body))
        ∙ ap (λ t. take 32 body ++ (take 32 (drop 32 body) ++ (take size (drop 64 body) ++ t)))
            (sym (drop-drop size 64 body))
        ∙ ap (λ t. take 32 body ++ (take 32 (drop 32 body) ++ t))
            (take-append-drop size (drop 64 body) ∙ sym (drop-drop 32 32 body))
        ∙ ap (λ t. take 32 body ++ t) (take-append-drop 32 (drop 32 body))
        ∙ take-append-drop 32 body))

-- The tests of `decode_hello`, passed.
decode_hello_guards :
    (size : ℕ) (cls : Bytes → Bytes → Bytes → Bytes → Message) (body : Bytes) (m : Message)
    → decode_hello size cls body ≡ ok m
    → (64 + size + 2 ≤ length body)
      × (from_bytes (slice (64 + size) (64 + size + 2) body) ≡ length body - (64 + size) - 2)
      × (construct (
            cls
              (take 32 body)
              (slice 32 64 body)
              (slice 64 (64 + size) body)
              (drop (64 + size + 2) body))
          ≡ ok m)
unfolding decode_hello
decode_hello_guards size cls body m h = ground arith

-- What `decode_hello` accepts is the body of the message that it returns.
module _ (size : ℕ) (cls : Bytes → Bytes → Bytes → Bytes → Message) (body : Bytes) (m : Message)
    (bytes : AreBytes body) (h : decode_hello size cls body ≡ ok m) where
  decode_hello_message :
      IsWellFormed (
        cls
          (take 32 body)
          (slice 32 64 body)
          (slice 64 (64 + size) body)
          (drop (64 + size + 2) body))
      × (cls
            (take 32 body)
            (slice 32 64 body)
            (slice 64 (64 + size) body)
            (drop (64 + size + 2) body)
          ≡ m)
  decode_hello_message = construct-eq-ok _ m (decode_hello_guards size cls body m h).2

  length_bytes :
      slice (64 + size) (64 + size + 2) body ≡ to_bytes2 (length (drop (64 + size + 2) body))
  length_bytes =
      let field = slice (64 + size) (64 + size + 2) body in
      let (long, same, _) = decode_hello_guards size cls body m h in
      let two : length field ≡ 2 = omega (
        arith,
        length-take (64 + size + 2 - (64 + size)) (drop (64 + size) body),
        length-drop (64 + size) body,
      ) in
      let value : from_bytes field ≡ length (drop (64 + size + 2) body) =
        omega (arith, same, length-drop (64 + size + 2) body) in
      sym (
        to_bytes2-from_bytes field
          (All-take _ (64 + size + 2 - (64 + size)) _ (All-drop _ (64 + size) body bytes)) two)
      ∙ ap to_bytes2 value

  decode_hello_body :
      body
      ≡ take 32 body
        ++ (slice 32 64 body
            ++ (slice 64 (64 + size) body
                ++ (to_bytes2 (length (drop (64 + size + 2) body)) ++ drop (64 + size + 2) body)))
  decode_hello_body =
      pieces size body
      ∙ ap
          (λ t.
            take 32 body
            ++ (slice 32 64 body
                ++ (slice 64 (64 + size) body ++ (t ++ drop (64 + size + 2) body))))
          length_bytes

decode_client_hello-wire :
    (body : Bytes) (m : Message)
    → AreBytes body
    → decode_hello 1184 make_client_hello body ≡ ok m
    → IsWellFormed m × (wire_of m ≡ frame 1 body)
unfolding wire_of
decode_client_hello-wire body m bytes h =
    let (v, e) = decode_hello_message 1184 make_client_hello body m bytes h in
    (
      subst IsWellFormed e v,
      ap wire_of (sym e)
          ∙ ap (frame 1) (sym (decode_hello_body 1184 make_client_hello body m bytes h)),
    )

decode_server_hello-wire :
    (body : Bytes) (m : Message)
    → AreBytes body
    → decode_hello 1088 make_server_hello body ≡ ok m
    → IsWellFormed m × (wire_of m ≡ frame 2 body)
unfolding wire_of
decode_server_hello-wire body m bytes h =
    let (v, e) = decode_hello_message 1088 make_server_hello body m bytes h in
    (
      subst IsWellFormed e v,
      ap wire_of (sym e)
          ∙ ap (frame 2) (sym (decode_hello_body 1088 make_server_hello body m bytes h)),
    )

-- The tests of `decode_finished`, passed.
decode_finished_guards :
    (s : ℕ) (rest : Bytes) (m : Message)
    → decode_finished (s ∷ rest) ≡ ok m
    → ((s ≡ b'c') × (construct (finished (record { sender = client; verify_data = rest })) ≡ ok m))
      ⊎ ((s ≡ b's')
          × (construct (finished (record { sender = server; verify_data = rest })) ≡ ok m))
unfolding decode_finished
decode_finished_guards s rest m h = ground arith

decode_finished-wire :
    (body : Bytes) (m : Message)
    → decode_finished body ≡ ok m
    → IsWellFormed m × (wire_of m ≡ frame 20 body)
unfolding wire_of
decode_finished-wire [] m h = unfold decode_finished in cc
decode_finished-wire (s ∷ rest) m h = elim (decode_finished_guards s rest m h) [
  | inl (es, made) ↦ finish client es made
  | inr (es, made) ↦ finish server es made
]
  where
    finish :
        (who : Sender)
        → s ≡ sender_byte who
        → construct (finished (record { sender = who; verify_data = rest })) ≡ ok m
        → IsWellFormed m × (wire_of m ≡ frame 20 (s ∷ rest))
    finish who es made =
        let (v, e) = construct-eq-ok _ m made in
        (subst IsWellFormed e v, ap wire_of (sym e) ∙ ap (λ t. frame 20 (t ∷ rest)) (sym es))

decode_body_cases :
    (kind : ℕ) (body : Bytes) (m : Message)
    → decode_body kind body ≡ ok m
    → ((kind ≡ 20) × (decode_finished body ≡ ok m))
      ⊎ (((kind ≡ 1) × (decode_hello 1184 make_client_hello body ≡ ok m))
          ⊎ ((kind ≡ 2) × (decode_hello 1088 make_server_hello body ≡ ok m)))
unfolding decode_body
decode_body_cases kind body m h = ground arith

decode_body-wire :
    (kind : ℕ) (body : Bytes) (m : Message)
    → AreBytes body
    → decode_body kind body ≡ ok m
    → IsWellFormed m × (wire_of m ≡ frame kind body)
decode_body-wire kind body m bytes h = elim (decode_body_cases kind body m h) [
  | inl (k, e) ↦ rw k (decode_finished-wire body m e)
  | inr (inl (k, e)) ↦ rw k (decode_client_hello-wire body m bytes e)
  | inr (inr (k, e)) ↦ rw k (decode_server_hello-wire body m bytes e)
]

decode_message-eq-ok :
    (k a b c : ℕ) (body : Bytes) (m : Message)
    → decode_message (k ∷ a ∷ b ∷ c ∷ body) ≡ ok m
    → (from_bytes (a ∷ b ∷ c ∷ []) ≡ length body) × (decode_body k body ≡ ok m)
unfolding decode_message
decode_message-eq-ok k a b c body m h = ground arith

-- The bytes from which a message was decoded are the bytes to which it encodes: no message has two
-- encodings, and nothing trails one.
pub encode-decode :
    (w : Bytes) {m : Message} → AreBytes w → decode_message w ≡ ok m → encode m ≡ ok w
encode-decode (k ∷ a ∷ b ∷ c ∷ body) {m} (hk, (ha, (hb, (hc, bytes)))) h =
    let (len, e) = decode_message-eq-ok k a b c body m h in
    let (v, w) = decode_body-wire k body m bytes e in
    encode-IsWellFormed m v
    ∙ ap ok
        (w ∙ ap (λ t. k ∷ t ++ body) (ap to_bytes3 (sym len) ∙ to_bytes3-from_bytes a b c ha hb hc))
encode-decode _ bytes h = unfold decode_message in ground arith
