-- ===== src/Executive/Metrics.antt =====
-- Which values a metric can have (executive_report.py, lines 55 to 102).
use post_quantum_cryptograph.Common.{
  ℕ, suc, map, ◌≡◌, refl, ap, subst, ◌∙◌, Bool, true, false, List, [], ◌∷◌, length, leb, All,
  String,
}
use post_quantum_cryptograph.Common.Bytes.{Bytes, ascii}
use post_quantum_cryptograph.Common.Table.{Table}
use post_quantum_cryptograph.Common.Sets.{mem}
use post_quantum_cryptograph.Common.Sorting.{IsStrict, sort_by, All-sort_by, length-sort_by}
use post_quantum_cryptograph.Common.Checked.{
  ok, ◌>>◌, require, require-eq-ok, bind-eq-ok, ok-injective,
}
use post_quantum_cryptograph.Executive.{
  Json, null, text, boolean, integer, float, not_finite, array, object, Items, end, item, size_of,
  Kind, of_text, of_number, of_integer, of_boolean, of_gaps, of_policy, of_scan, of_fips, Metric,
  unmeasured, measured, gaps, get, in_range, policies, scans, reviews, check_object, check_number,
  check_integer, check_boolean, check_status, less_pair, all_different, gap_keys, is_text,
  check_text, check_gap, check_gaps_of, check_gaps, check_kind, check_metric, check_metrics,
}
use post_quantum_cryptograph.Executive.Order.{sorted-IsStrict}

-- What an accepted test says of its result.
require_then {ℓ} :
    {A : Type ℓ} (P : A → Type 0) (b : Bool) (message : String) (a v : A)
    → (b ≡ true → P a)
    → require b message >> ok a ≡ ok v
    → P v
require_then P true message a v h e = subst P (ok-injective a v e) (h refl)
require_then P false message a v h e = absurd cc

abbrev IsOneOf : List Bytes → Metric → Type 0
IsOneOf allowed (measured (text t)) = mem t allowed ≡ true
IsOneOf allowed unmeasured = Unit
IsOneOf allowed v = ⊥

status-IsOneOf :
    (allowed : List Bytes) (j : Json) (v : Metric)
    → check_status allowed j ≡ ok v
    → IsOneOf allowed v
unfolding check_status
status-IsOneOf allowed (text t) v e =
    require_then (IsOneOf allowed) (mem t allowed) "invalid status" (measured (text t)) v (λ h. h) e
status-IsOneOf allowed null v e = absurd cc
status-IsOneOf allowed (boolean b) v e = absurd cc
status-IsOneOf allowed (integer n) v e = absurd cc
status-IsOneOf allowed (float m k) v e = absurd cc
status-IsOneOf allowed not_finite v e = absurd cc
status-IsOneOf allowed (array js) v e = absurd cc
status-IsOneOf allowed (object es) v e = absurd cc

module _ (is_space is_control : ℕ → Bool) where
  abbrev IsGap : Bytes × Bytes → Type 0
  IsGap (field, code) =
      (is_text is_space is_control 550 field ≡ true) × (is_text is_space is_control 512 code ≡ true)

  -- The values of a kind.
  abbrev pub IsMetric : Kind → Metric → Type 0
  IsMetric of_policy v = IsOneOf policies v
  IsMetric of_scan v = IsOneOf scans v
  IsMetric of_fips v = IsOneOf reviews v
  IsMetric kind unmeasured = Unit
  IsMetric of_text (measured (text t)) = is_text is_space is_control 512 t ≡ true
  IsMetric of_number (measured (integer n)) = in_range n 0 ≡ true
  IsMetric of_number (measured (float m k)) = in_range m k ≡ true
  IsMetric of_integer (measured (integer n)) = in_range n 0 ≡ true
  IsMetric of_boolean (measured (boolean b)) = Unit
  IsMetric of_gaps (gaps ps) = (leb (length ps) 512 ≡ true) × IsStrict less_pair ps × All IsGap ps
  IsMetric kind v = ⊥

  -- One value for each field, in the order of the fields.
  abbrev pub AreMetrics : Table Kind → Table Metric → Type 0
  AreMetrics [] [] = Unit
  AreMetrics ((field, kind) ∷ fields) ((name, v) ∷ values) =
      (name ≡ field) × IsMetric kind v × AreMetrics fields values
  AreMetrics fields values = ⊥

  pub check_text-eq-ok :
      (n : ℕ) (j : Json) (t : Bytes)
      → check_text is_space is_control n j ≡ ok t
      → is_text is_space is_control n t ≡ true
  unfolding check_text
  check_text-eq-ok n (text s) t e =
      require_then (λ u. is_text is_space is_control n u ≡ true) (is_text is_space is_control n s) _
        s t (λ h. h) e
  check_text-eq-ok n null t e = absurd cc
  check_text-eq-ok n (boolean b) t e = absurd cc
  check_text-eq-ok n (integer i) t e = absurd cc
  check_text-eq-ok n (float m k) t e = absurd cc
  check_text-eq-ok n not_finite t e = absurd cc
  check_text-eq-ok n (array js) t e = absurd cc
  check_text-eq-ok n (object es) t e = absurd cc

  check_gap-IsGap :
      (j : Json) (p : Bytes × Bytes) → check_gap is_space is_control j ≡ ok p → IsGap p
  unfolding check_gap
  check_gap-IsGap j p e =
      let (table, _, e₁) = bind-eq-ok (check_object gap_keys gap_keys j) _ e in
      let field_json = get (ascii "field") table in
      let code_json = get (ascii "code") table in
      let (field, fine, e₂) = bind-eq-ok (check_text is_space is_control 550 field_json) _ e₁ in
      let (code, fine₂, e₃) = bind-eq-ok (check_text is_space is_control 512 code_json) _ e₂ in
      subst IsGap (ok-injective (field, code) p e₃)
        (check_text-eq-ok 550 field_json field fine, check_text-eq-ok 512 code_json code fine₂)

  gaps_of-IsGap :
      (js : Items) (ps : List (Bytes × Bytes))
      → check_gaps_of is_space is_control js ≡ ok ps
      → (length ps ≡ size_of js) × All IsGap ps
  unfolding check_gaps_of
  gaps_of-IsGap end ps e =
      subst (λ qs. (length qs ≡ 0) × All IsGap qs) (ok-injective [] ps e) (refl, tt)
  gaps_of-IsGap (item j js) ps e =
      let (q, fine, e₁) = bind-eq-ok (check_gap is_space is_control j) _ e in
      let (qs, rest, e₂) = bind-eq-ok (check_gaps_of is_space is_control js) _ e₁ in
      let (size, are) = gaps_of-IsGap js qs rest in
      subst (λ rs. (length rs ≡ suc (size_of js)) × All IsGap rs) (ok-injective (q ∷ qs) ps e₂)
        (ap suc size, (check_gap-IsGap j q fine, are))

  gaps-IsMetric :
      (j : Json) (v : Metric) → check_gaps is_space is_control j ≡ ok v → IsMetric of_gaps v
  unfolding check_gaps
  gaps-IsMetric (array js) v e =
      let (few, e₁) = require-eq-ok (leb (size_of js) 512) _ _ e in
      let (ps, found, e₂) = bind-eq-ok (check_gaps_of is_space is_control js) _ e₁ in
      let (size, are) = gaps_of-IsGap js ps found in
      let short : leb (length (sort_by less_pair ps)) 512 ≡ true =
        ap (λ n. leb n 512) (length-sort_by less_pair ps ∙ size) ∙ few in
      require_then (IsMetric of_gaps) (all_different ps) _ (gaps (sort_by less_pair ps)) v
        (λ different. (short, sorted-IsStrict ps different, All-sort_by less_pair IsGap ps are)) e₂
  gaps-IsMetric null v e = absurd cc
  gaps-IsMetric (text t) v e = absurd cc
  gaps-IsMetric (boolean b) v e = absurd cc
  gaps-IsMetric (integer i) v e = absurd cc
  gaps-IsMetric (float m k) v e = absurd cc
  gaps-IsMetric not_finite v e = absurd cc
  gaps-IsMetric (object es) v e = absurd cc

  number-IsMetric : (j : Json) (v : Metric) → check_number j ≡ ok v → IsMetric of_number v
  unfolding check_number
  number-IsMetric (integer n) v e =
      require_then (IsMetric of_number) (in_range n 0) _ (measured (integer n)) v (λ h. h) e
  number-IsMetric (float m k) v e =
      require_then (IsMetric of_number) (in_range m k) _ (measured (float m k)) v (λ h. h) e
  number-IsMetric null v e = absurd cc
  number-IsMetric (text t) v e = absurd cc
  number-IsMetric (boolean b) v e = absurd cc
  number-IsMetric not_finite v e = absurd cc
  number-IsMetric (array js) v e = absurd cc
  number-IsMetric (object es) v e = absurd cc

  integer-IsMetric : (j : Json) (v : Metric) → check_integer j ≡ ok v → IsMetric of_integer v
  unfolding check_integer
  integer-IsMetric (integer n) v e =
      require_then (IsMetric of_integer) (in_range n 0) _ (measured (integer n)) v (λ h. h) e
  integer-IsMetric null v e = absurd cc
  integer-IsMetric (text t) v e = absurd cc
  integer-IsMetric (boolean b) v e = absurd cc
  integer-IsMetric (float m k) v e = absurd cc
  integer-IsMetric not_finite v e = absurd cc
  integer-IsMetric (array js) v e = absurd cc
  integer-IsMetric (object es) v e = absurd cc

  boolean-IsMetric : (j : Json) (v : Metric) → check_boolean j ≡ ok v → IsMetric of_boolean v
  unfolding check_boolean
  boolean-IsMetric (boolean b) v e =
      subst (IsMetric of_boolean) (ok-injective (measured (boolean b)) v e) tt
  boolean-IsMetric null v e = absurd cc
  boolean-IsMetric (text t) v e = absurd cc
  boolean-IsMetric (integer n) v e = absurd cc
  boolean-IsMetric (float m k) v e = absurd cc
  boolean-IsMetric not_finite v e = absurd cc
  boolean-IsMetric (array js) v e = absurd cc
  boolean-IsMetric (object es) v e = absurd cc

  kind-IsMetric :
      (kind : Kind) (j : Json) (v : Metric)
      → check_kind is_space is_control kind j ≡ ok v
      → IsMetric kind v
  kind-IsMetric of_text j v e =
      let (t, fine, e₁) = bind-eq-ok (check_text is_space is_control 512 j) _ e in
      subst (IsMetric of_text) (ok-injective (measured (text t)) v e₁)
        (check_text-eq-ok 512 j t fine)
  kind-IsMetric of_number j v e = number-IsMetric j v e
  kind-IsMetric of_integer j v e = integer-IsMetric j v e
  kind-IsMetric of_boolean j v e = boolean-IsMetric j v e
  kind-IsMetric of_gaps j v e = gaps-IsMetric j v e
  kind-IsMetric of_policy j v e = status-IsOneOf policies j v e
  kind-IsMetric of_scan j v e = status-IsOneOf scans j v e
  kind-IsMetric of_fips j v e = status-IsOneOf reviews j v e

  unmeasured-IsMetric : (kind : Kind) → IsMetric kind unmeasured
  unmeasured-IsMetric of_text = tt
  unmeasured-IsMetric of_number = tt
  unmeasured-IsMetric of_integer = tt
  unmeasured-IsMetric of_boolean = tt
  unmeasured-IsMetric of_gaps = tt
  unmeasured-IsMetric of_policy = tt
  unmeasured-IsMetric of_scan = tt
  unmeasured-IsMetric of_fips = tt

  metric-IsMetric :
      (kind : Kind) (j : Json) (v : Metric)
      → check_metric is_space is_control kind j ≡ ok v
      → IsMetric kind v
  unfolding check_metric
  metric-IsMetric kind null v e =
      subst (IsMetric kind) (ok-injective unmeasured v e) (unmeasured-IsMetric kind)
  metric-IsMetric kind (text t) v e = kind-IsMetric kind (text t) v e
  metric-IsMetric kind (boolean b) v e = kind-IsMetric kind (boolean b) v e
  metric-IsMetric kind (integer n) v e = kind-IsMetric kind (integer n) v e
  metric-IsMetric kind (float m k) v e = kind-IsMetric kind (float m k) v e
  metric-IsMetric kind not_finite v e = kind-IsMetric kind not_finite v e
  metric-IsMetric kind (array js) v e = kind-IsMetric kind (array js) v e
  metric-IsMetric kind (object es) v e = kind-IsMetric kind (object es) v e

  pub metrics-AreMetrics :
      (fields : Table Kind) (output : Table Json) (values : Table Metric)
      → check_metrics is_space is_control fields output ≡ ok values
      → AreMetrics fields values
  unfolding check_metrics
  metrics-AreMetrics [] output values e = subst (AreMetrics []) (ok-injective [] values e) tt
  metrics-AreMetrics ((name, kind) ∷ fields) output values e =
      let j = get name output in
      let (v, fine, e₁) = bind-eq-ok (check_metric is_space is_control kind j) _ e in
      let (vs, rest, e₂) = bind-eq-ok (check_metrics is_space is_control fields output) _ e₁ in
      subst (AreMetrics ((name, kind) ∷ fields)) (ok-injective ((name, v) ∷ vs) values e₂)
        (refl, metric-IsMetric kind j v fine, metrics-AreMetrics fields output vs rest)

  pub all_unmeasured-AreMetrics :
      (fields : Table Kind) → AreMetrics fields (map (λ e. (e.0, unmeasured)) fields)
  all_unmeasured-AreMetrics [] = tt
  all_unmeasured-AreMetrics ((name, kind) ∷ fields) =
      (refl, unmeasured-IsMetric kind, all_unmeasured-AreMetrics fields)
