-- ===== src/Audit/Scan/Streams.antt =====
-- What the decoding loop does with one stream (binary_auditor.py, lines 244 to 288).
use Prim.Native.Nat.{min}
use post_quantum_cryptograph.Common.{
  ℕ, ◌+◌, ◌-◌, ◌≤◌, ◌<◌, ◌≡◌, refl, sym, ap, subst, ◌∙◌, ◌⊎◌, inl, inr, Bool, Bool-cases, true,
  false, Option, none, some, List, [], ◌∷◌, ◌++◌, append-nil, append_assoc, leb, if◌then◌else◌,
  length, arith, length-append,
}
use post_quantum_cryptograph.Audit.{Checked, ok, max_instructions, max_findings, Section}
use post_quantum_cryptograph.Audit.Scan.{
  Instruction, Stream, done, failed, yield, Finding, finding_of, Counts, Progress, Reason,
  instruction_limit, count_finding, examine, scan_stream,
}

-- The division instructions of a stream, from an offset in the section.
unfoldable pub divisions : Section → ℕ → Stream → List Finding
divisions s offset done = []
divisions s offset failed = []
divisions s offset (yield i rest) =
    if i.is_division
    then finding_of s offset i ∷ divisions s (offset + i.size) rest
    else divisions s (offset + i.size) rest

-- Instructions are not empty, and together no longer than the bytes.
abbrev pub Fits : ℕ → Stream → Type 0
Fits n done = Unit
Fits n failed = Unit
Fits n (yield i rest) = (0 < i.size) × (i.size ≤ n) × Fits (n - i.size) rest

-- The number of the instructions of a stream.
abbrev pub stream_length : Stream → ℕ
stream_length done = 0
stream_length failed = 0
stream_length (yield i rest) = 1 + stream_length rest

-- Below the limits, the list of findings holds the first thousand of those counted.
pub record IsCounted (c : Counts) : Type 0 where
  pub few : c.instruction_count ≤ max_instructions
  pub kept : length c.findings ≡ min c.finding_count max_findings

examine-IsCounted :
    (s : Section) (i : Instruction) (p : Progress)
    → IsCounted p.counts
    → leb max_instructions p.counts.instruction_count ≡ false
    → IsCounted (examine s i p).counts
unfolding examine
examine-IsCounted s i p v h = record {
  few = ground arith;
  kept = ground (arith, length-append p.counts.findings (finding_of s p.decoded i ∷ []));
}

if_ok-cases :
    {A : Type 0} (b : Bool) (x z : A) (y : Checked A)
    → (if b then ok x else y) ≡ ok z
    → ((b ≡ true) × (x ≡ z)) ⊎ ((b ≡ false) × (y ≡ ok z))
if_ok-cases true x z y h = inl (refl, cc)
if_ok-cases false x z y h = inr (refl, h)

-- At an instruction a scan stops at the limit, or it goes on.
scan_stream-yield :
    (s : Section) (i : Instruction) (rest : Stream) (p p' : Progress) (r : Option Reason)
    → scan_stream s (yield i rest) p ≡ ok (p', r)
    → ((p ≡ p') × (some instruction_limit ≡ r))
      ⊎ ((leb max_instructions p.counts.instruction_count ≡ false)
          × (scan_stream s rest (examine s i p) ≡ ok (p', r)))
unfolding scan_stream
scan_stream-yield s i rest p p' r e =
    elim (if_ok-cases (leb max_instructions p.counts.instruction_count) (p, some instruction_limit)
      (p', r) (scan_stream s rest (examine s i p)) e) [
        | inl (full, same) ↦ inl (
          ap (λ (q : Progress × Option Reason). q.0) same,
          ap (λ (q : Progress × Option Reason). q.1) same,
        )
        | inr goes ↦ inr goes
      ]

pub scan_stream-IsCounted :
    (s : Section) (st : Stream) (p p' : Progress) (r : Option Reason)
    → IsCounted p.counts
    → scan_stream s st p ≡ ok (p', r)
    → IsCounted p'.counts
unfolding scan_stream
scan_stream-IsCounted s done p p' r v e =
    let same : p ≡ p' = cc in subst (λ (q : Progress). IsCounted q.counts) same v
scan_stream-IsCounted s failed p p' r v e = cc
scan_stream-IsCounted s (yield i rest) p p' r v e = elim (scan_stream-yield s i rest p p' r e) [
  | inl (same, limit) ↦ subst (λ (q : Progress). IsCounted q.counts) same v
  | inr (room, goes) ↦
      scan_stream-IsCounted s rest (examine s i p) p' r (examine-IsCounted s i p v room) goes
]

examine-decoded :
    (s : Section) (i : Instruction) (p : Progress) → (examine s i p).decoded ≡ p.decoded + i.size
unfolding examine
examine-decoded s i p = refl

-- A scan stays inside the section, and short of its end where the limit stopped it.
pub scan_stream-decoded :
    (s : Section) (st : Stream) (p p' : Progress) (r : Option Reason) (n : ℕ)
    → Fits n st
    → scan_stream s st p ≡ ok (p', r)
    → (p'.decoded ≤ p.decoded + n) × ((r ≡ none) ⊎ (p'.decoded < p.decoded + n))
unfolding scan_stream
scan_stream-decoded s done p p' r n v e =
    let same : p ≡ p' = cc in
    (subst (λ (q : Progress). q.decoded ≤ p.decoded + n) same (omega arith), inl cc)
scan_stream-decoded s failed p p' r n v e = cc
scan_stream-decoded s (yield i rest) p p' r n v e = elim (scan_stream-yield s i rest p p' r e) [
  | inl (same, limit) ↦
      let short : p'.decoded < p.decoded + n =
        subst (λ (q : Progress). q.decoded < p.decoded + n) same (omega (arith, v.0, v.1)) in
      (omega (arith, short), inr short)
  | inr (room, goes) ↦
      let (inside, short) = scan_stream-decoded s rest (examine s i p) p' r (n - i.size) v.2 goes in
      let at_i = examine-decoded s i p in
      (
        omega (arith, inside, at_i, v.1),
        elim short [ inl q ↦ inl q | inr q ↦ inr (omega (arith, q, at_i, v.1)) ],
      )
]

pub record IsWhole (s : Section) (st : Stream) (p p' : Progress) : Type 0 where
  pub counted : p'.counts.instruction_count ≡ p.counts.instruction_count + stream_length st
  pub found : p'.counts.finding_count ≡ p.counts.finding_count + length (divisions s p.decoded st)
  pub kept :
      p'.counts.finding_count ≤ max_findings
      → p'.counts.findings ≡ p.counts.findings ++ divisions s p.decoded st

count_finding-division :
    (s : Section) (d : ℕ) (i : Instruction) (c : Counts)
    → i.is_division ≡ true
    → ((count_finding s d i c).finding_count ≡ c.finding_count + 1)
      × (length c.findings < max_findings
          → (count_finding s d i c).findings ≡ c.findings ++ finding_of s d i ∷ [])
count_finding-division s d i c h = ground arith

count_finding-other :
    (s : Section) (d : ℕ) (i : Instruction) (c : Counts)
    → i.is_division ≡ false
    → ((count_finding s d i c).finding_count ≡ c.finding_count)
      × ((count_finding s d i c).findings ≡ c.findings)
count_finding-other s d i c h = ground arith

count_finding-instruction :
    (s : Section) (d : ℕ) (i : Instruction) (c : Counts)
    → (count_finding s d i c).instruction_count ≡ c.instruction_count + 1
count_finding-instruction s d i c = ground arith

examine-IsWhole :
    (s : Section) (i : Instruction) (rest : Stream) (p p' : Progress)
    → IsCounted p.counts
    → IsWhole s rest (examine s i p) p'
    → IsWhole s (yield i rest) p p'
unfolding examine divisions
examine-IsWhole s i rest p p' v w =
    let c = count_finding-instruction s p.decoded i p.counts in
    elim (Bool-cases i.is_division) [
      | inl div ↦
          let (one, added) = count_finding-division s p.decoded i p.counts div in
          rw div (record {
            counted = omega (arith, w.counted, c);
            found = omega (arith, w.found, one);
            kept = λ few.
                w.kept few
                ∙ ap (λ fs. fs ++ divisions s (p.decoded + i.size) rest)
                    (added (omega (arith, few, w.found, one, v.kept)))
                ∙ append_assoc p.counts.findings _ _;
          })
      | inr other ↦
          let (none_more, same) = count_finding-other s p.decoded i p.counts other in
          rw other (record {
            counted = omega (arith, w.counted, c);
            found = omega (arith, w.found, none_more);
            kept = λ few. w.kept few ∙ ap (λ fs. fs ++ divisions s (p.decoded + i.size) rest) same;
          })
    ]

done-IsWhole : (s : Section) (p : Progress) → IsWhole s done p p
unfolding divisions
done-IsWhole s p = record {
  counted = omega arith;
  found = omega arith;
  kept = λ few. sym (append-nil p.counts.findings);
}

-- A scan without a reason has examined the whole stream.
pub scan_stream-IsWhole :
    (s : Section) (st : Stream) (p p' : Progress)
    → IsCounted p.counts
    → scan_stream s st p ≡ ok (p', none)
    → IsWhole s st p p'
unfolding scan_stream
scan_stream-IsWhole s done p p' v e =
    let same : p ≡ p' = cc in subst (IsWhole s done p) same (done-IsWhole s p)
scan_stream-IsWhole s failed p p' v e = cc
scan_stream-IsWhole s (yield i rest) p p' v e = elim (scan_stream-yield s i rest p p' none e) [
  | inl (same, limit) ↦ cc
  | inr (room, goes) ↦
      examine-IsWhole s i rest p p' v
        (scan_stream-IsWhole s rest (examine s i p) p' (examine-IsCounted s i p v room) goes)
]
