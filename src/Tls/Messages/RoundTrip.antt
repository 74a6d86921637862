-- ===== src/Tls/Messages/RoundTrip.antt =====
-- Encoding and decoding are inverse to each other (tls_simulator.py, lines 84 to 143).
use post_quantum_cryptograph.Common.{
  ℕ, ◌+◌, ◌-◌, ◌≤◌, ◌≡◌, refl, sym, ap, subst, ◌∙◌, ◌↔◌, String, ◌∷◌, ◌++◌, arith, length, take,
  drop, length-append, take-append_exact, drop-append_exact, drop-drop,
}
use post_quantum_cryptograph.Common.Bytes.{
  Bytes, slice, to_bytes2, from_bytes-to_bytes2, from_bytes-to_bytes3,
}
use post_quantum_cryptograph.Common.Exec.{Result, ok, err, ◌>>?◌}
use post_quantum_cryptograph.Tls.Messages.{
  Message, ClientHello, ServerHello, client_hello, server_hello, finished, Finished, check_bytes,
  validate, construct, encode, wire_of, decode_message, decode_body, decode_hello, decode_finished,
  make_client_hello, make_server_hello, frame, rethrow, sender_byte,
}

-- The lengths that `__post_init__` accepts.
abbrev pub IsWellFormed : Message → Type 0
IsWellFormed (client_hello h) =
    (length h.random ≡ 32)
    × (length h.x25519_public ≡ 32)
    × (length h.mlkem_public ≡ 1184)
    × (length h.context ≤ 256)
IsWellFormed (server_hello h) =
    (length h.random ≡ 32)
    × (length h.x25519_public ≡ 32)
    × (length h.mlkem_ciphertext ≡ 1088)
    × (length h.context ≤ 256)
IsWellFormed (finished f) = length f.verify_data ≡ 32

pub check_bytes_iff :
    (n : String) (v : Bytes) (a b : ℕ)
    → (check_bytes n v a b ≡ ok tt) ↔ ((a ≤ length v) × (length v ≤ b))
unfolding check_bytes
check_bytes_iff n v a b = ground arith

pub validate_sound : (m : Message) → validate m ≡ ok tt → IsWellFormed m
unfolding validate
validate_sound (client_hello h) e = ground arith
validate_sound (server_hello h) e = ground arith
validate_sound (finished f) e = ground arith

pub validate_complete : (m : Message) → IsWellFormed m → validate m ≡ ok tt
unfolding validate
validate_complete (client_hello h) e = ground arith
validate_complete (server_hello h) e = ground arith
validate_complete (finished f) e = ground arith

-- A message is encoded exactly if it is well formed, and then as `wire_of` says.
pub encode-eq-ok : (m : Message) {w : Bytes} → encode m ≡ ok w → IsWellFormed m × (wire_of m ≡ w)
unfolding encode
encode-eq-ok m {w} h = split (validate m) refl h
  where
    split :
        (r : Result (Unit {0}))
        → validate m ≡ r
        → (r >>? λ _. ok (wire_of m)) ≡ ok w
        → IsWellFormed m × (wire_of m ≡ w)
    split (ok tt) v e = (validate_sound m v, cc)
    split (err x) v e = cc

-- The fields of a hello, cut out of its body again.
module _ (r x k c : Bytes) (size : ℕ) (hr : length r ≡ 32) (hx : length x ≡ 32)
    (hk : length k ≡ size) where
  abbrev tail : Bytes
  tail = to_bytes2 (length c) ++ c

  abbrev body : Bytes
  body = r ++ (x ++ (k ++ tail))

  length-body : length body ≡ 66 + size + length c
  length-body =
      omega (
        arith,
        length-append r (x ++ (k ++ tail)),
        length-append x (k ++ tail),
        length-append k tail,
      )

  drop-body_32 : drop 32 body ≡ x ++ (k ++ tail)
  drop-body_32 = drop-append_exact 32 r _ hr

  drop-body_64 : drop 64 body ≡ k ++ tail
  drop-body_64 =
      sym (drop-drop 32 32 body) ∙ (ap (drop 32) drop-body_32 ∙ drop-append_exact 32 x _ hx)

  drop-body_end : drop (64 + size) body ≡ tail
  drop-body_end =
      sym (drop-drop size 64 body) ∙ (ap (drop size) drop-body_64 ∙ drop-append_exact size k _ hk)

  drop-body_context : drop (64 + size + 2) body ≡ c
  drop-body_context =
      sym (drop-drop 2 (64 + size) body)
      ∙ (ap (drop 2) drop-body_end ∙ drop-append_exact 2 (to_bytes2 (length c)) c refl)

  slice-body_x : slice 32 64 body ≡ x
  slice-body_x = ap (take 32) drop-body_32 ∙ take-append_exact 32 x _ hx

  slice-body_k : slice 64 (64 + size) body ≡ k
  slice-body_k =
      let e : 64 + size - 64 ≡ size = omega arith in
      rw e (ap (take size) drop-body_64 ∙ take-append_exact size k _ hk)

  slice-body_size : slice (64 + size) (64 + size + 2) body ≡ to_bytes2 (length c)
  slice-body_size =
      let e : 64 + size + 2 - (64 + size) ≡ 2 = omega arith in
      rw e (ap (take 2) drop-body_end ∙ take-append_exact 2 (to_bytes2 (length c)) c refl)

  decode_hello-body :
      (cls : Bytes → Bytes → Bytes → Bytes → Message)
      → length c ≤ 256
      → decode_hello size cls body ≡ construct (cls r x k c)
  unfolding decode_hello
  decode_hello-body cls hc =
      rw
        (
          slice-body_size,
          slice-body_x,
          slice-body_k,
          drop-body_context,
          take-append_exact 32 r _ hr,
        )
        (ground (arith, length-body, from_bytes-to_bytes2 (length c)))

decode_message-frame :
    (kind : ℕ) (body : Bytes)
    → length body ≤ 1506
    → decode_message (frame kind body) ≡ rethrow (decode_body kind body)
unfolding decode_message
decode_message-frame kind body h = ground (arith, from_bytes-to_bytes3 (length body))

construct-IsWellFormed : (m : Message) → IsWellFormed m → construct m ≡ ok m
unfolding construct
construct-IsWellFormed m v = rw (validate_complete m v)

decode_finished-body :
    (f : Finished)
    → length f.verify_data ≡ 32
    → decode_finished (sender_byte f.sender ∷ f.verify_data) ≡ ok (finished f)
unfolding decode_finished
decode_finished-body f v = ground (arith, construct-IsWellFormed (finished f) v)

-- A well-formed message is read back from its encoding.
pub decode-wire_of : (m : Message) → IsWellFormed m → decode_message (wire_of m) ≡ ok m
unfolding decode_body wire_of
decode-wire_of (client_hello h) v =
    decode_message-frame 1 _ (
      omega (arith, length-body h.random h.x25519_public h.mlkem_public h.context 1184 v.0 v.1 v.2))
    ∙ ap rethrow (
        decode_hello-body h.random h.x25519_public h.mlkem_public h.context 1184 v.0 v.1 v.2
          make_client_hello v.3
        ∙ construct-IsWellFormed (client_hello h) v)
decode-wire_of (server_hello h) v =
    decode_message-frame 2 _ (
      omega
        (arith, length-body h.random h.x25519_public h.mlkem_ciphertext h.context 1088 v.0 v.1 v.2))
    ∙ ap rethrow (
        decode_hello-body h.random h.x25519_public h.mlkem_ciphertext h.context 1088 v.0 v.1 v.2
          make_server_hello v.3
        ∙ construct-IsWellFormed (server_hello h) v)
decode-wire_of (finished f) v =
    decode_message-frame 20 (sender_byte f.sender ∷ f.verify_data) (omega arith)
    ∙ ap rethrow (decode_finished-body f v)

-- Whatever `encode` puts on the wire, `decode_message` reads as the message that was encoded.
pub decode-encode : (m : Message) {w : Bytes} → encode m ≡ ok w → decode_message w ≡ ok m
decode-encode m h =
    let (v, e) = encode-eq-ok m h in subst (λ u. decode_message u ≡ ok m) e (decode-wire_of m v)

-- The size of an encoding, header included.
pub length-wire_of_client :
    (h : ClientHello)
    → IsWellFormed (client_hello h)
    → length (wire_of (client_hello h)) ≡ 1254 + length h.context
unfolding wire_of
length-wire_of_client h v =
    omega (arith, length-body h.random h.x25519_public h.mlkem_public h.context 1184 v.0 v.1 v.2)

pub length-wire_of_server :
    (h : ServerHello)
    → IsWellFormed (server_hello h)
    → length (wire_of (server_hello h)) ≡ 1158 + length h.context
unfolding wire_of
length-wire_of_server h v =
    omega
      (arith, length-body h.random h.x25519_public h.mlkem_ciphertext h.context 1088 v.0 v.1 v.2)

pub length-wire_of_finished :
    (f : Finished) → IsWellFormed (finished f) → length (wire_of (finished f)) ≡ 37
unfolding wire_of
length-wire_of_finished f v = omega arith
