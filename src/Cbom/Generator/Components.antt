-- ===== src/Cbom/Generator/Components.antt =====
-- The algorithms that the policy reads in a generated bill (generator.py, lines 252 to 307).
use post_quantum_cryptograph.Common.{
  ◌≡◌, refl, sym, subst, ap, ◌∙◌, inl, inr, Bool, true, false, ◌&&◌, Option, none, some, List, [],
  ◌∷◌, ◌++◌, map, arith, append_assoc, if◌then◌else◌, Bool-cases, All,
}
use post_quantum_cryptograph.Common.Bytes.{Bytes, bytes_eq, bytes_eq_iff, less_text}
use post_quantum_cryptograph.Common.Dict.{is_some}
use post_quantum_cryptograph.Common.Sets.{insert_text, mem-append}
use post_quantum_cryptograph.Common.Table.{find, has, All-find}
use post_quantum_cryptograph.Cbom.{Component, mem, lower}
use post_quantum_cryptograph.Cbom.Detected.{component_names}
use post_quantum_cryptograph.Cbom.Generator.{Detection, Detected, hybrids, hybrid_name, title_from}
use post_quantum_cryptograph.Cbom.Generator.Bill.{
  BomComponent, algorithm_component, hybrid_component, algo_order, components_for, add_component,
  hybrid_keys, components_of, or_placeholder,
}
use post_quantum_cryptograph.Cbom.Generator.Mentions.{hybrid_names}
use post_quantum_cryptograph.Cbom.Generator.Names.{IsNamed}

-- The components as the policy reads them.
abbrev pub read : List BomComponent → List Component
read = map (λ c. record { properties = c.properties })

-- A key of a combination is no algorithm of the table, and neither is its name.
abbrev IsOther : Bytes → Type 0
IsOther k = (mem k algo_order ≡ false) × (mem (lower (hybrid_name k)) algo_order ≡ false)

All-mem : (P : Bytes → Type 0) (k : Bytes) (ks : List Bytes) → All P ks → mem k ks ≡ true → P k
unfolding mem
All-mem P k [] h e = cc
All-mem P k (j ∷ ks) h e = elim (Bool-cases (bytes_eq k j)) [
  | inl t ↦ subst P (sym ((bytes_eq_iff k j).0 t)) h.0
  | inr f ↦ All-mem P k ks h.1 (rw f at e)
]

hybrid-IsOther : (k : Bytes) → mem k (hybrid_names hybrids) ≡ true → IsOther k
unfolding mem bytes_eq title_from
hybrid-IsOther k h =
    All-mem IsOther k (hybrid_names hybrids)
      ((refl, refl), ((refl, refl), ((refl, refl), ((refl, refl), ((refl, refl), tt))))) h

-- The keys of the list that were detected.
abbrev kept : List Bytes → Detected → List Bytes
kept [] d = []
kept (k ∷ ks) d = if has k d then k ∷ kept ks d else kept ks d

mem-kept : (x : Bytes) (ks : List Bytes) (d : Detected) → mem x (kept ks d) ≡ (mem x ks && has x d)
unfolding mem
mem-kept x [] d = refl
mem-kept x (k ∷ ks) d = elim (Bool-cases (has k d)) [
  | inl t ↦ rw t (ground (arith, mem-kept x ks d, same))
  | inr f ↦ rw f (ground (arith, mem-kept x ks d, same))
]
  where
    same : bytes_eq x k ≡ true → has x d ≡ has k d
    same e = ap (λ y. has y d) ((bytes_eq_iff x k).0 e)

algorithm_names :
    (v : Bytes) (ks : List Bytes) (d : Detected)
    → All (λ k. mem k algo_order ≡ true) ks
    → All IsNamed d
    → component_names (read (components_for (algorithm_component v) ks d)) ≡ kept ks d
unfolding components_for bytes_eq
algorithm_names v [] d known named = refl
algorithm_names v (k ∷ ks) d known named =
    added (find k d) refl (algorithm_names v ks d known.1 named)
  where
    added :
        (o : Option Detection)
        → find k d ≡ o
        → component_names (read (components_for (algorithm_component v) ks d)) ≡ kept ks d
        → component_names (
            read (
              add_component
                (algorithm_component v)
                o
                (components_for (algorithm_component v) ks d)))
          ≡ (if is_some o then k ∷ kept ks d else kept ks d)
    added none e rest = rest
    added (some x) e rest = elim (All-find IsNamed k x d named e) [
      | inl (_, name) ↦ unfold bytes_eq in rw (name, rest) refl
      | inr (hybrid, _) ↦ absurd (let other = hybrid-IsOther k hybrid in let own = known.0 in cc)
    ]

different :
    (x z : Bytes) → mem x algo_order ≡ true → mem z algo_order ≡ false → bytes_eq x z ≡ false
different x z own miss = elim (Bool-cases (bytes_eq x z)) [
  | inl t ↦ let same = (bytes_eq_iff x z).0 t in absurd cc
  | inr f ↦ f
]

-- No combination is named like an algorithm of the table.
hybrid_names_other :
    (v x : Bytes) (ks : List Bytes) (d : Detected)
    → mem x algo_order ≡ true
    → All (λ k. mem k algo_order ≡ false) ks
    → All IsNamed d
    → mem x (component_names (read (components_for (hybrid_component v) ks d))) ≡ false
unfolding components_for bytes_eq mem
hybrid_names_other v x [] d own other named = refl
hybrid_names_other v x (k ∷ ks) d own other named =
    added (find k d) refl (hybrid_names_other v x ks d own other.1 named)
  where
    added :
        (o : Option Detection)
        → find k d ≡ o
        → mem x (component_names (read (components_for (hybrid_component v) ks d))) ≡ false
        → mem x (
            component_names (
              read
                (add_component (hybrid_component v) o (components_for (hybrid_component v) ks d))))
          ≡ false
    added none e rest = rest
    added (some y) e rest = elim (All-find IsNamed k y d named e) [
      | inl (hit, _) ↦ absurd (let miss = other.0 in cc)
      | inr (hybrid, name) ↦
          let miss = (hybrid-IsOther k hybrid).1 in
          let apart : bytes_eq x (lower y.name) ≡ false =
            different x (lower y.name) own (rw name miss) in
          rw (apart, rest) refl
    ]

insert_text-All :
    (P : Bytes → Type 0) (x : Bytes) (ks : List Bytes) → P x → All P ks → All P (insert_text x ks)
unfolding insert_text
insert_text-All P x [] hx h = (hx, tt)
insert_text-All P x (k ∷ ks) hx h = elim (Bool-cases (less_text k x)) [
  | inl t ↦ rw t (h.0, insert_text-All P x ks hx h.1)
  | inr f ↦ rw f (hx, h)
]

hybrid_keys-All : (d : Detected) → All (λ k. mem k algo_order ≡ false) (hybrid_keys d)
unfolding hybrid_keys
hybrid_keys-All [] = tt
hybrid_keys-All ((k, e) ∷ d) = elim (Bool-cases (mem k algo_order)) [
  | inl t ↦ rw t (hybrid_keys-All d)
  | inr f ↦ rw f (insert_text-All _ k (hybrid_keys d) f (hybrid_keys-All d))
]

order_known : All (λ k. mem k algo_order ≡ true) algo_order
unfolding mem bytes_eq
order_known = (refl, (refl, (refl, (refl, (refl, (refl, (refl, (refl, (refl, tt)))))))))

component_names-append :
    (cs ds : List BomComponent)
    → component_names (read (cs ++ ds)) ≡ component_names (read cs) ++ component_names (read ds)
component_names-append [] ds = refl
component_names-append (c ∷ cs) ds = rw (component_names-append cs ds, append_assoc) refl

placeholder_unnamed :
    (v : Bytes) (cs : List BomComponent)
    → component_names (read (or_placeholder v cs)) ≡ component_names (read cs)
unfolding bytes_eq
placeholder_unnamed v [] = refl
placeholder_unnamed v (c ∷ cs) = refl

-- An algorithm of the table is in the components exactly if it was detected.
pub components_of-mem :
    (v x : Bytes) (include : Bool) (d : Detected)
    → mem x algo_order ≡ true
    → All IsNamed d
    → mem x (component_names (read (or_placeholder v (components_of v include d)))) ≡ has x d
unfolding components_of
components_of-mem v x include d own named =
    let ours = components_for (algorithm_component v) algo_order d in
    let others = if include then components_for (hybrid_component v) (hybrid_keys d) d else [] in
    let none_other : mem x (component_names (read others)) ≡ false = not_other include in
    let known = algorithm_names v algo_order d order_known named in
    let step : mem x (component_names (read ours)) ≡ has x d =
      ap (mem x) known ∙ mem-kept x algo_order d ∙ rw own refl in
    ap (mem x) (placeholder_unnamed v (ours ++ others) ∙ component_names-append ours others)
    ∙ mem-append x (component_names (read ours)) (component_names (read others))
    ∙ ground (arith, step, none_other)
  where
    not_other :
        (b : Bool)
        → mem x (
            component_names
              (read (if b then components_for (hybrid_component v) (hybrid_keys d) d else [])))
          ≡ false
    not_other true = hybrid_names_other v x (hybrid_keys d) d own (hybrid_keys-All d) named
    not_other false = unfold mem in refl
