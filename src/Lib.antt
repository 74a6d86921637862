-- ===== src/Lib.antt =====
-- A model of the core of PQC-Bench, the post-quantum cryptography benchmark of src/pqc_bench, and
-- the theorems about it.
--
-- The parts:
-- * The TLS simulator, src/pqc_bench/tls_simulator.py: two peers exchange four framed messages,
--   derive a hybrid X25519 and ML-KEM key schedule, and confirm it with MACs. Tls.Messages has
--   `_frame`, the messages, `encode` and `decode_message`; Tls.Schedule `hkdf_extract` to
--   `_finished`; Tls.Peer the state of `_Peer` with `_expect`, `_read`, `_append` and `_fail`;
--   Tls.Peer.Client and Tls.Peer.Server the methods of `ClientPeer` and `ServerPeer`;
--   Tls.Handshake `simulate_handshake`, which composes them.
-- * The gateway, src/pqc_bench/gateway: Gateway.RateLimit is ratelimit.py, the token bucket and its
--   manager; Gateway.Auth is auth.py, tenants, API keys, tokens and permissions. They share no
--   state, and no other module of the package calls them.
-- * Telemetry is telemetry_alerts.py: samples, a policy and an engine that raises alerts with a
--   cooldown and hands each to a transport.
-- * Audit is constant_time/binary_auditor.py: Audit.Elf accepts the executable sections of an ELF
--   file, Audit.Scan decodes them, reports division instructions, and gives the exit code.
-- * Zeroize is security/memory_zeroizer.py: overwriting memory by blocks, and the validation of it by
--   digests.
-- * Cbom is cbom/policy.py: a bill of materials is evaluated against CNSA 2.0 and NIST SP 800-208.
--   Cbom.Generator is cbom/generator.py, which detects algorithms in the files of a directory and
--   writes the bill; Cbom.Generator.Policy composes the two.
-- * Gpu is gpu/gpu_allocator.py: a device is chosen from what nvidia-smi and rocm-smi print.
-- * Estimates is security_estimator.py and quantum_cost/__init__.py: security levels and quantum
--   resources by the name of an algorithm.
-- * Fuzzing is fuzzing/ct_fuzzer.py: an implementation is called with odd ciphertexts, and its
--   exceptions and timings are reported.
-- * Lwe is lwe_toy.py: modular arithmetic with overflow checks, and toy instances of LWE.
-- * Fips is fips_evidence.py: a review of documents about a module, with the gaps in their evidence.
-- * Executive is executive_report.py: excerpts of the modules' outputs are checked and collected
--   in a report.
-- * Leaderboard is waveform_leaderboard.py: predictions for one split are ranked by their accuracy.
-- * TraceStream is api/trace_stream.py: the loop of a WebSocket connection that streams frames, with
--   the alert engine of Telemetry.
-- * LocalTelemetry is api/local_telemetry.py: one inference at a time for loopback clients.
-- * Pki is pki/hybrid_certs.py: a chain of two certificates with RSA and ML-DSA signatures is
--   generated and verified.
-- * Common has what these share: lists and tests over the native numbers, integers, bytes,
--   dictionaries and the results of code that raises.
--
-- State is passed explicitly: a method is a function from the arguments and the object to a result
-- and the object, and an exception is a value that keeps the writes made before it. Code outside the
-- repository is a parameter: `Crypto` with `CryptoLaws` for the packages of cryptography and
-- hashing, `Codec` with `CodecLaws` for JSON, base64 and HMAC, `Elf` for pyelftools, `Decoder` with
-- `DecoderLaws` for capstone, and functions for the digests of a region of memory and of a split. Random bytes,
-- readings of a clock, transports, files and the output of commands are arguments. Floating-point numbers are exact scaled
-- integers, so that rounding is not modelled; Python's integers are unbounded, as the model's are. All recursion is structural,
-- also that of the loop over blocks of memory, by the number of blocks. The one bound is that of
-- `bit_and`, which reads 64 bits: the fields of an ELF header have no more.
--
-- Not modelled: the HTTP routes of src/pqc_bench/api/main.py, the analyses by numpy, scipy and torch, file
-- and network I/O, reports in HTML, and the reporting methods of the peers.
pub mod Common
pub mod Audit
pub mod Cbom
pub mod Estimates
pub mod Executive
pub mod Fips
pub mod Fuzzing
pub mod Gateway
pub mod Gpu
pub mod Leaderboard
pub mod LocalTelemetry
pub mod Lwe
pub mod Pki
pub mod Telemetry
pub mod Tls
pub mod TraceStream
pub mod Zeroize
