-- ===== src/Tls/Schedule/Label.antt =====
-- The HKDF label of tls_simulator.py (lines 44 to 54) keeps its parts apart.
use post_quantum_cryptograph.Common.{ℕ, ◌≤◌, ◌≡◌, ◌∷◌, ◌++◌, arith, length, append-injective_length}
use post_quantum_cryptograph.Common.Bytes.{Bytes}
use post_quantum_cryptograph.Tls.Schedule.{hkdf_label}

-- Two calls of HKDF-Expand-Label, within the length that the code accepts, ask for the same bytes
-- of output only if their length, label and context agree.
pub hkdf_label_injective :
    (l₁ l₂ c₁ c₂ : Bytes) (n₁ n₂ : ℕ)
    → n₁ ≤ 8160
    → n₂ ≤ 8160
    → hkdf_label l₁ c₁ n₁ ≡ hkdf_label l₂ c₂ n₂
    → (l₁ ≡ l₂) × (c₁ ≡ c₂) × (n₁ ≡ n₂)
unfolding hkdf_label
hkdf_label_injective l₁ l₂ c₁ c₂ n₁ n₂ h₁ h₂ e =
    let len : length l₁ ≡ length l₂ = ground arith in
    let rest : l₁ ++ (length c₁ ∷ c₁) ≡ l₂ ++ (length c₂ ∷ c₂) = ground arith in
    let (labels, contexts) = append-injective_length l₁ l₂ _ _ len rest in
    (labels, cc, ground arith)
