-- ===== src/Tls/Messages.antt =====
-- The messages of src/pqc_bench/tls_simulator.py (lines 19 to 143): limits, validation, the frame
-- encoding and `decode_message`. A `bytes` value is a list of numbers; that each is below 256 is a
-- hypothesis where a theorem needs it. The `type(value) is not bytes` tests are the types.
pub mod RoundTrip
pub mod Canonical
use post_quantum_cryptograph.Common.{
  ℕ, ◌+◌, ◌-◌, ◌<◌, ◌≤◌, ◌≡◌, String, Bool, true, false, ◌&&◌, ◌||◌, not, List, [], ◌∷◌, ◌++◌, leb,
  ltb, ◌==◌, if◌then◌else◌, length, take, drop, replicate,
}
use post_quantum_cryptograph.Common.Bytes.{Bytes, slice, to_bytes2, to_bytes3, from_bytes}
use post_quantum_cryptograph.Common.Exec.{
  Error, Result, ok, err, bad_length, value_error, protocol_error, attribute_error, ◌>>?◌,
}

abbrev pub hash_size : ℕ
hash_size = 32

abbrev pub max_context_bytes : ℕ
max_context_bytes = 256

abbrev pub max_message_bytes : ℕ
max_message_bytes = 1510

abbrev pub max_transcript_bytes : ℕ
max_transcript_bytes = 4096

-- `_bytes`: the length check of every input.
unfoldable pub check_bytes : String → Bytes → ℕ → ℕ → Result (Unit {0})
check_bytes name value minimum maximum =
    if leb minimum (length value) && leb (length value) maximum
    then ok tt
    else err (bad_length name minimum maximum)

-- `_context`
unfoldable pub check_context : Bytes → Result (Unit {0})
unfolding check_bytes
check_context value = check_bytes "context" value 0 max_context_bytes

-- `_frame`; no body is longer than 2 ^ 24 - 1, so `to_bytes` never overflows.
abbrev pub frame : ℕ → Bytes → Bytes
frame kind body = kind ∷ to_bytes3 (length body) ++ body

pub record ClientHello : Type 0 where
  pub random : Bytes
  pub x25519_public : Bytes
  pub mlkem_public : Bytes
  pub context : Bytes

pub record ServerHello : Type 0 where
  pub random : Bytes
  pub x25519_public : Bytes
  pub mlkem_ciphertext : Bytes
  pub context : Bytes

-- The two texts that `Finished.sender` may hold.
pub data Sender : Type 0 where
  client server : Sender

pub record Finished : Type 0 where
  pub sender : Sender
  pub verify_data : Bytes

pub data Message : Type 0 where
  client_hello : ClientHello → Message
  server_hello : ServerHello → Message
  finished : Finished → Message

-- The three `__post_init__` methods.
unfoldable pub validate : Message → Result (Unit {0})
unfolding check_bytes check_context
validate (client_hello h) = check_bytes "random" h.random 32 32 >>? λ _.
    check_bytes "X25519 public" h.x25519_public 32 32 >>? λ _.
    check_bytes "ML-KEM public" h.mlkem_public 1184 1184 >>? λ _. check_context h.context
validate (server_hello h) = check_bytes "random" h.random 32 32 >>? λ _.
    check_bytes "X25519 public" h.x25519_public 32 32 >>? λ _.
    check_bytes "ML-KEM ciphertext" h.mlkem_ciphertext 1088 1088 >>? λ _. check_context h.context
validate (finished f) = check_bytes "verify_data" f.verify_data 32 32

-- A constructor call: the message, if `__post_init__` lets it through.
unfoldable pub construct : Message → Result Message
unfolding validate
construct m = validate m >>? λ _. ok m

abbrev sender_byte : Sender → ℕ
sender_byte client = b'c'
sender_byte server = b's'

-- What `encode` puts on the wire, once `__post_init__` has run again.
unfoldable pub wire_of : Message → Bytes
wire_of (client_hello h) = frame 1 (
    h.random
    ++ (h.x25519_public ++ (h.mlkem_public ++ (to_bytes2 (length h.context) ++ h.context))))
wire_of (server_hello h) = frame 2 (
    h.random
    ++ (h.x25519_public ++ (h.mlkem_ciphertext ++ (to_bytes2 (length h.context) ++ h.context))))
wire_of (finished f) = frame 20 (sender_byte f.sender ∷ f.verify_data)

unfoldable pub encode : Message → Result Bytes
unfolding validate wire_of
encode m = validate m >>? λ _. ok (wire_of m)

-- The branch for kind 20 of `decode_message`; `body[:1]` is matched as the first byte.
decode_finished : Bytes → Result Message
unfolding construct
decode_finished [] = err (value_error "invalid Finished")
decode_finished (s ∷ rest) =
    if not (length (s ∷ rest) == 33) || not (s == b'c' || s == b's')
    then err (value_error "invalid Finished")
    else construct
        (finished (record { sender = if s == b'c' then client else server; verify_data = rest }))

-- The branch for the two hellos, with `size` the length of the third field, up to the constructor.
decode_hello : ℕ → (Bytes → Bytes → Bytes → Bytes → Message) → Bytes → Result Message
unfolding construct
decode_hello size cls body =
    let end = 64 + size in
    if ltb (length body) (end + 2)
      || not (from_bytes (slice end (end + 2) body) == length body - end - 2)
    then err (value_error "hello context length mismatch")
    else construct (cls (take 32 body) (slice 32 64 body) (slice 64 end body) (drop (end + 2) body))

abbrev make_client_hello : Bytes → Bytes → Bytes → Bytes → Message
make_client_hello r x k c =
    client_hello (record { random = r; x25519_public = x; mlkem_public = k; context = c })

abbrev make_server_hello : Bytes → Bytes → Bytes → Bytes → Message
make_server_hello r x k c =
    server_hello (record { random = r; x25519_public = x; mlkem_ciphertext = k; context = c })

decode_body : ℕ → Bytes → Result Message
unfolding decode_finished decode_hello
decode_body kind body =
    if kind == 20
    then decode_finished body
    else if not (kind == 1 || kind == 2)
    then err (value_error "unknown message type")
    else if kind == 1
    then decode_hello 1184 make_client_hello body
    else decode_hello 1088 make_server_hello body

-- The `try` block: `wire[0]`, `wire[1:4]` and `wire[4:]` are the four first bytes and the rest.
decode_frame : Bytes → Result Message
unfolding decode_body
decode_frame (kind ∷ l₁ ∷ l₂ ∷ l₃ ∷ body) =
    if from_bytes (l₁ ∷ l₂ ∷ l₃ ∷ []) == length body
    then decode_body kind body
    else err (value_error "message length mismatch")
decode_frame _ = err (value_error "message length mismatch")

-- Every `ValueError` of the block becomes one `ProtocolError`; nothing else is raised in it.
abbrev rethrow : Result Message → Result Message
rethrow (ok m) = ok m
rethrow (err e) = err (protocol_error "invalid encoded message")

unfoldable pub decode_message : Bytes → Result Message
unfolding decode_frame check_bytes
decode_message wire =
    rethrow (check_bytes "message" wire 4 max_message_bytes >>? λ _. decode_frame wire)
