-- ===== src/Audit/Elf/Loop.antt =====
-- The loop over the section headers (binary_auditor.py, lines 170 to 211).
use post_quantum_cryptograph.Common.{
  ℕ, ◌+◌, ◌/◌, ◌%◌, ◌^◌, ◌≤◌, ◌<◌, ◌≡◌, refl, sym, ap, subst, ◌∙◌, ◌⊎◌, inl, inr, Bool, true, false,
  not, String, List, [], ◌∷◌, ◌++◌, append-nil, append_assoc, leb, ◌==◌, if◌then◌else◌, arith,
  length, All, All-append,
}
use post_quantum_cryptograph.Audit.{
  Checked, ok, ◌>>◌, require, bind-eq-ok, ok-injective, max_executable_bytes, Section,
}
use post_quantum_cryptograph.Audit.Elf.{
  SectionHeader, Layout, header_size, is_valid_executable, overlaps, section_of, add_executable,
  section_step, section_loop,
}

-- Two ranges that share no byte.
abbrev pub Apart : ℕ → ℕ → ℕ → ℕ → Type 0
Apart a m b n = (a + m ≤ b) ⊎ (b + n ≤ a)

-- One section comes before another, and they share no byte.
abbrev pub Before : Section → Section → Type 0
Before s t = (s.index < t.index) × Apart s.file_offset s.size t.file_offset t.size

abbrev pub Pairwise : List Section → Type 0
Pairwise [] = Unit
Pairwise (s ∷ ss) = All (Before s) ss × Pairwise ss

abbrev pub total_size : List Section → ℕ
total_size [] = 0
total_size (s ∷ ss) = s.size + total_size ss

-- A section that lies inside the file, after its header and apart from the section table.
pub record IsInside (l : Layout) (s : Section) : Type 0 where
  pub nonempty : 0 < s.size
  pub after_header : header_size l.bits ≤ s.file_offset
  pub in_file : s.file_offset + s.size ≤ l.data_length
  pub in_memory : s.address + s.size ≤ 2 ^ l.bits
  pub off_table : (l.table_end ≤ s.file_offset) ⊎ (s.file_offset + s.size ≤ l.table_offset)

-- The sections of the headers with the flag SHF_EXECINSTR, from the index of the first.
unfoldable pub flagged : Layout → ℕ → List SectionHeader → List Section
flagged l index [] = []
flagged l index (h ∷ hs) =
    if h.sh_flags / 4 % 2 == 1
    then section_of l index h ∷ flagged l (index + 1) hs
    else flagged l (index + 1) hs

pub record IsReview (l : Layout) (index : ℕ) (ss : List Section) (total : ℕ) : Type 0 where
  pub inside : All (IsInside l) ss
  pub earlier : All (λ (s : Section). s.index < index) ss
  pub apart : Pairwise ss
  pub sum : total ≡ total_size ss
  pub bounded : total ≤ max_executable_bytes

valid-IsInside :
    (l : Layout) (index : ℕ) (h : SectionHeader)
    → is_valid_executable l index h ≡ true
    → IsInside l (section_of l index h)
unfolding is_valid_executable
valid-IsInside l index h v = record {
  nonempty = ground arith;
  after_header = ground arith;
  in_file = ground arith;
  in_memory = ground arith;
  off_table = ground arith;
}

overlaps-Before :
    (index start size : ℕ) (t : Section) (ss : List Section)
    → overlaps start size ss ≡ false
    → All (λ (s : Section). s.index < index) ss
    → t.index ≡ index
    → t.file_offset ≡ start
    → t.size ≡ size
    → All (λ s. Before s t) ss
overlaps-Before index start size t [] h e a b c = tt
overlaps-Before index start size t (s ∷ ss) h e a b c =
    let rest : overlaps start size ss ≡ false = ground arith in
    let apart : Apart s.file_offset s.size t.file_offset t.size = ground arith in
    ((omega (arith, e.0, a), apart), overlaps-Before index start size t ss rest e.1 a b c)

Pairwise-append :
    (ss : List Section) (t : Section)
    → Pairwise ss
    → All (λ s. Before s t) ss
    → Pairwise (ss ++ t ∷ [])
Pairwise-append [] t p q = (tt, tt)
Pairwise-append (s ∷ ss) t p q =
    (All-append (Before s) ss (t ∷ []) p.0 (q.0, tt), Pairwise-append ss t p.1 q.1)

total_size-append :
    (ss : List Section) (t : Section) → total_size (ss ++ t ∷ []) ≡ total_size ss + t.size
total_size-append [] t = omega arith
total_size-append (s ∷ ss) t = omega (arith, total_size-append ss t)

All-weaken :
    (index : ℕ) (ss : List Section)
    → All (λ (s : Section). s.index < index) ss
    → All (λ (s : Section). s.index < index + 1) ss
All-weaken index [] h = tt
All-weaken index (s ∷ ss) h = (omega (arith, h.0), All-weaken index ss h.1)

four-eq-ok :
    {A : Type 0} (b₁ b₂ b₃ b₄ : Bool) (m₁ m₂ m₃ m₄ : String) (r : Checked A) {a : A}
    → require b₁ m₁ >> (require b₂ m₂ >> (require b₃ m₃ >> (require b₄ m₄ >> r))) ≡ ok a
    → (b₁ ≡ true) × (b₂ ≡ true) × (b₃ ≡ true) × (b₄ ≡ true) × (r ≡ ok a)
four-eq-ok true true true true m₁ m₂ m₃ m₄ r h = (refl, refl, refl, refl, h)
four-eq-ok false b₂ b₃ b₄ m₁ m₂ m₃ m₄ r h = cc
four-eq-ok true false b₃ b₄ m₁ m₂ m₃ m₄ r h = cc
four-eq-ok true true false b₄ m₁ m₂ m₃ m₄ r h = cc
four-eq-ok true true true false m₁ m₂ m₃ m₄ r h = cc

not-eq-true : (b : Bool) → not b ≡ true → b ≡ false
not-eq-true b h = ground arith

leb-eq-true : (n : ℕ) → leb n max_executable_bytes ≡ true → n ≤ max_executable_bytes
leb-eq-true n h = ground arith

-- What an executable section that was added has passed.
add_executable-eq-ok :
    (l : Layout) (index : ℕ) (h : SectionHeader) (ss : List Section) (total : ℕ)
    (ss' : List Section) (total' : ℕ)
    → add_executable l index h (ss, total) ≡ ok (ss', total')
    → (is_valid_executable l index h ≡ true)
      × (overlaps h.sh_offset h.sh_size ss ≡ false)
      × (total + h.sh_size ≤ max_executable_bytes)
      × (ss' ≡ ss ++ section_of l index h ∷ [])
      × (total' ≡ total + h.sh_size)
unfolding add_executable
add_executable-eq-ok l index h ss total ss' total' e =
    let (valid, _, free, fits, done) =
      four-eq-ok (is_valid_executable l index h) _ (not (overlaps h.sh_offset h.sh_size ss))
        (leb (total + h.sh_size) max_executable_bytes) _ _ _ _
        (ok (ss ++ section_of l index h ∷ [], total + h.sh_size)) e in
    let pair : (ss ++ section_of l index h ∷ [], total + h.sh_size) ≡ (ss', total') =
      ok-injective _ _ done in
    (
      valid,
      not-eq-true (overlaps h.sh_offset h.sh_size ss) free,
      leb-eq-true (total + h.sh_size) fits,
      sym (ap (λ (p : List Section × ℕ). p.0) pair),
      sym (ap (λ (p : List Section × ℕ). p.1) pair),
    )

add_executable-IsReview :
    (l : Layout) (index : ℕ) (h : SectionHeader) (ss : List Section) (total : ℕ)
    → IsReview l index ss total
    → is_valid_executable l index h ≡ true
    → overlaps h.sh_offset h.sh_size ss ≡ false
    → total + h.sh_size ≤ max_executable_bytes
    → IsReview l (index + 1) (ss ++ section_of l index h ∷ []) (total + h.sh_size)
add_executable-IsReview l index h ss total v valid free fits =
    let t = section_of l index h in
    record {
      inside = All-append (IsInside l) ss (t ∷ []) v.inside (valid-IsInside l index h valid, tt);
      earlier =
          All-append (λ (s : Section). s.index < index + 1) ss (t ∷ [])
            (All-weaken index ss v.earlier) (omega arith, tt);
      apart =
          Pairwise-append ss t v.apart
            (overlaps-Before index h.sh_offset h.sh_size t ss free v.earlier refl refl refl);
      sum = omega (arith, v.sum, total_size-append ss t);
      bounded = fits;
    }

skip-IsReview :
    (l : Layout) (index : ℕ) (ss : List Section) (total : ℕ)
    → IsReview l index ss total
    → IsReview l (index + 1) ss total
skip-IsReview l index ss total v = record {
  inside = v.inside;
  earlier = All-weaken index ss v.earlier;
  apart = v.apart;
  sum = v.sum;
  bounded = v.bounded;
}

-- A step that succeeds: the header is skipped, or its section is added.
section_step-eq-ok :
    (l : Layout) (index : ℕ) (h : SectionHeader) (ss : List Section) (total : ℕ)
    (ss' : List Section) (total' : ℕ)
    → section_step l index h (ss, total) ≡ ok (ss', total')
    → ((h.sh_flags / 4 % 2 == 1 ≡ true) × (add_executable l index h (ss, total) ≡ ok (ss', total')))
      ⊎ ((h.sh_flags / 4 % 2 == 1 ≡ false) × (ss' ≡ ss) × (total' ≡ total))
unfolding section_step
section_step-eq-ok l index h ss total ss' total' e = ground arith

section_step-IsReview :
    (l : Layout) (index : ℕ) (h : SectionHeader) (ss : List Section) (total : ℕ)
    (ss' : List Section) (total' : ℕ)
    → IsReview l index ss total
    → section_step l index h (ss, total) ≡ ok (ss', total')
    → IsReview l (index + 1) ss' total' × (ss' ≡ ss ++ flagged l index (h ∷ []))
unfolding flagged
section_step-IsReview l index h ss total ss' total' v e =
    elim (section_step-eq-ok l index h ss total ss' total' e) [
      | inl (flag, added) ↦
          let (valid, free, fits, now, sum) =
            add_executable-eq-ok l index h ss total ss' total' added in
          rw (now, sum, flag) (add_executable-IsReview l index h ss total v valid free fits, refl)
      | inr (flag, same, sum) ↦
          rw (same, sum, flag) (skip-IsReview l index ss total v, sym (append-nil ss))
    ]

flagged-cons :
    (l : Layout) (index : ℕ) (h : SectionHeader) (hs : List SectionHeader)
    → flagged l index (h ∷ hs) ≡ flagged l index (h ∷ []) ++ flagged l (index + 1) hs
unfolding flagged
flagged-cons l index h hs = ground arith

pub section_loop-IsReview :
    (l : Layout) (index : ℕ) (hs : List SectionHeader) (ss : List Section) (total : ℕ)
    (ss' : List Section) (total' : ℕ)
    → IsReview l index ss total
    → section_loop l index hs (ss, total) ≡ ok (ss', total')
    → IsReview l (index + length hs) ss' total' × (ss' ≡ ss ++ flagged l index hs)
unfolding section_loop
section_loop-IsReview l index [] ss total ss' total' v e =
    let same : ss ≡ ss' = cc in
    let sum : total ≡ total' = cc in
    let (a, b) : IsReview l (index + 0) ss total × (ss ≡ ss ++ flagged l index []) =
      (subst (λ i. IsReview l i ss total) (omega arith) v, unfold flagged in sym (append-nil ss)) in
    subst (λ t. IsReview l (index + 0) ss' t × (ss' ≡ ss ++ flagged l index [])) sum
      (subst (λ x. IsReview l (index + 0) x total × (x ≡ ss ++ flagged l index [])) same (a, b))
section_loop-IsReview l index (h ∷ hs) ss total ss' total' v e =
    let ((mid, sum), d, f) = bind-eq-ok (section_step l index h (ss, total)) _ e in
    let (v', one) = section_step-IsReview l index h ss total mid sum v d in
    let (end, more) = section_loop-IsReview l (index + 1) hs mid sum ss' total' v' f in
    (
      subst (λ i. IsReview l i ss' total') (omega arith) end,
      more ∙ rw (one, flagged-cons l index h hs) (append_assoc ss _ _),
    )
