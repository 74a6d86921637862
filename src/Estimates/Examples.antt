-- ===== src/Estimates/Examples.antt =====
-- The theorems on estimates, applied to names that are spelled in several ways.
use post_quantum_cryptograph.Common.{refl, ℕ, Option, none, ◌≡◌, true, some, []}
use post_quantum_cryptograph.Common.Bytes.{Bytes, ascii, bytes_eq, starts_with}
use post_quantum_cryptograph.Common.Table.{find}
use post_quantum_cryptograph.Common.Int.{pos}
use post_quantum_cryptograph.Common.Checked.{Checked, ok, rejected}
use post_quantum_cryptograph.Estimates.{
  Parsed, document, failed, Estimation, internal, estimate_quantum_resources,
  category_without_hyphens, without_hyphens, first_related, get_security_info, get_ml_kem_resources,
  run_aqre_estimation, exited,
}
use post_quantum_cryptograph.Estimates.Security.{get_security_info_lem}
use post_quantum_cryptograph.Estimates.Quantum.{IsOutcome, run_aqre_estimation_lem}

-- A name without its hyphens: the category is that of ML-KEM-1024, the bits are not.
get_security_info_lem_example :
    let info = get_security_info (ascii "MLKEM1024") in
    ((info.security_bits ≡ 128) × (info.nist_category ≡ some (ascii "cat5")))
    × (info.verification.estimated_bits ≡ pos info.security_bits)
    × (info.verification.is_valid ≡ true)
unfolding find bytes_eq category_without_hyphens without_hyphens
get_security_info_lem_example = get_security_info_lem (ascii "MLKEM1024")

-- A name that begins with a key, when the command fails.
run_aqre_estimation_lem_example :
    let parse : Bytes → Parsed = λ t. document t in
    let scheme = ascii "ML-KEM-1024-hybrid" in
    IsOutcome parse (exited 1 []) scheme (run_aqre_estimation parse (exited 1 []) scheme)
run_aqre_estimation_lem_example =
    run_aqre_estimation_lem (λ t. document t) (exited 1 []) (ascii "ML-KEM-1024-hybrid")

abbrev level_of : Checked Estimation → Option ℕ
level_of (ok (internal scheme r)) = some r.n
level_of result = none

-- It has the resources of that key; the text "ml" has those of the first one.
levels :
    (level_of (estimate_quantum_resources (ascii "ML-KEM-1024-hybrid")) ≡ some 1024)
    × (level_of (estimate_quantum_resources (ascii "ml")) ≡ some 256)
    × (level_of (estimate_quantum_resources (ascii "FrodoKEM")) ≡ none)
unfolding estimate_quantum_resources get_ml_kem_resources find bytes_eq first_related starts_with
levels = (refl, refl, refl)

-- A command that may not be run is no reason to fall back.
not_caught :
    run_aqre_estimation (λ t. document t) (failed "PermissionError") (ascii "ML-KEM-768")
    ≡ rejected "PermissionError"
unfolding run_aqre_estimation
not_caught = refl
