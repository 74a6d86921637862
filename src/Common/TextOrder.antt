-- ===== src/Common/TextOrder.antt =====
-- The order of texts is a strict linear order.
use post_quantum_cryptograph.Common.{◌≡◌, refl, true, false, [], ◌∷◌, arith}
use post_quantum_cryptograph.Common.Bytes.{Bytes, less_text}

pub less_text_asym : (s t : Bytes) → less_text s t ≡ true → less_text t s ≡ false
unfolding less_text
less_text_asym s [] h = cc
less_text_asym [] (d ∷ t) h = refl
less_text_asym (c ∷ s) (d ∷ t) h = ground (arith, less_text_asym s t)

pub less_text_trans :
    (s t u : Bytes) → less_text s t ≡ true → less_text t u ≡ true → less_text s u ≡ true
unfolding less_text
less_text_trans s [] u h g = cc
less_text_trans s (d ∷ t) [] h g = cc
less_text_trans [] (d ∷ t) (e ∷ u) h g = refl
less_text_trans (c ∷ s) (d ∷ t) (e ∷ u) h g = ground (arith, less_text_trans s t u)

pub less_text_total : (s t : Bytes) → less_text s t ≡ false → less_text t s ≡ false → s ≡ t
unfolding less_text
less_text_total [] [] h g = refl
less_text_total [] (d ∷ t) h g = cc
less_text_total (c ∷ s) [] h g = cc
less_text_total (c ∷ s) (d ∷ t) h g = ground (arith, less_text_total s t)
