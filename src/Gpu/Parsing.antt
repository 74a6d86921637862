-- ===== src/Gpu/Parsing.antt =====
-- What the checks see of the commands' output (gpu_allocator.py, lines 20 to 75).
use post_quantum_cryptograph.Common.{
  ℕ, ◌≡◌, ◌≢◌, ◌⊎◌, refl, sym, ap, ◌∙◌, Option, inl, inr, true, false, not, ◌&&◌, none, some, List,
  [], ◌∷◌, arith, ◌==◌, if◌then◌else◌, Bool-cases,
}
use post_quantum_cryptograph.Common.Bytes.{split_on, Bytes}
use post_quantum_cryptograph.Gpu.{
  Run, no_run, exited, is_space, drop_spaces, drop_last_spaces, strip, lines, names_of, is_blank,
}

-- A text that begins with a character that is no space.
abbrev StartsSolid : Bytes → Type 0
StartsSolid t = (c : ℕ) × (cs : Bytes) × (t ≡ c ∷ cs) × (is_space c ≡ false)

drop_spaces_cases : (t : Bytes) → (drop_spaces t ≡ []) ⊎ StartsSolid (drop_spaces t)
unfolding drop_spaces
drop_spaces_cases [] = inl refl
drop_spaces_cases (c ∷ cs) = elim (Bool-cases (is_space c)) [
  | inl t ↦ rw t (drop_spaces_cases cs)
  | inr f ↦ rw f (inr (c, cs, refl, f))
]

drop_last_spaces_solid :
    (c : ℕ) (cs : Bytes) → is_space c ≡ false → StartsSolid (drop_last_spaces (c ∷ cs))
unfolding drop_last_spaces
drop_last_spaces_solid c cs h = cases (drop_last_spaces cs)
  where
    cases :
        (rest : Bytes)
        → StartsSolid (elim rest [ [] ↦ if is_space c then [] else c ∷ [] | d ∷ ds ↦ c ∷ d ∷ ds ])
    cases [] = rw h (c, [], refl, h)
    cases (d ∷ ds) = (c, d ∷ ds, refl, h)

strip_cases : (t : Bytes) → (strip t ≡ []) ⊎ StartsSolid (strip t)
strip_cases t = elim (drop_spaces_cases t) [
  | inl e ↦ inl (rw e (unfold drop_last_spaces in refl))
  | inr (c, cs, e, solid) ↦ inr (rw e (drop_last_spaces_solid c cs solid))
]

strip_solid : (c : ℕ) (cs : Bytes) → is_space c ≡ false → StartsSolid (strip (c ∷ cs))
unfolding drop_spaces
strip_solid c cs h = rw h (drop_last_spaces_solid c cs h)

-- The text up to the end of its first line.
abbrev pub first_line : Bytes → Bytes
first_line [] = []
first_line (c ∷ cs) = if c == 10 then [] else c ∷ first_line cs

pub split_first : (t : Bytes) → (rest : List Bytes) × (lines t ≡ first_line t ∷ rest)
unfolding split_on
split_first [] = ([], refl)
split_first (c ∷ cs) = elim (Bool-cases (c == 10)) [
  | inl t ↦ rw t (split_on 10 cs, refl)
  | inr f ↦ let (rest, e) = split_first cs in rw (f, e) (rest, refl)
]

-- The command ran, exited with 0, and printed this text between white space.
abbrev pub Prints : Run → Bytes → Type 0
Prints run t = (stdout : Bytes) × (run ≡ exited 0 stdout) × (strip stdout ≡ t) × (t ≢ [])

abbrev pub PrintsNothing : Run → Type 0
PrintsNothing run = (t : Bytes) → Prints run t → ⊥

-- What a check sees of a command: the printed text, or nothing.
abbrev pub seen : Run → Option Bytes
seen no_run = none
seen (exited code stdout) =
    if code == 0 && not (is_blank (strip stdout)) then some (strip stdout) else none

abbrev pub IsSeen : Run → Option Bytes → Type 0
IsSeen run none = PrintsNothing run
IsSeen run (some t) = Prints run t

blank_none : (t : Bytes) → is_blank t ≡ true → t ≡ []
blank_none [] h = refl
blank_none (c ∷ cs) h = absurd cc

solid_some : (t : Bytes) → is_blank t ≡ false → t ≢ []
solid_some [] h e = cc
solid_some (c ∷ cs) h e = cc

output_of : {c d : ℕ} {s t : Bytes} → exited c s ≡ exited d t → (c ≡ d) × (s ≡ t)
output_of h = (cc, cc)

pub seen-IsSeen : (run : Run) → IsSeen run (seen run)
seen-IsSeen no_run = λ t (stdout, e, _, _). cc
seen-IsSeen (exited code stdout) = elim (Bool-cases (code == 0)) [
  | inr f ↦ rw f (λ t (out, e, _, _). let same = (output_of e).0 in ground arith)
  | inl z ↦ elim (Bool-cases (is_blank (strip stdout))) [
    | inl blank ↦
        rw (z, blank)
          (λ t (out, e, same, some_).
            some_ (sym same ∙ ap strip (sym (output_of e).1) ∙ blank_none (strip stdout) blank))
    | inr solid ↦
        let zero_ : code ≡ 0 = ground arith in
        rw (z, solid)
          (stdout, ap (λ c. exited c stdout) zero_, refl, solid_some (strip stdout) solid)
  ]
]

blank_false : (t : Bytes) → t ≢ [] → is_blank t ≡ false
blank_false [] h = absurd (h refl)
blank_false (c ∷ cs) h = refl

pub seen_printed : (run : Run) (t : Bytes) → Prints run t → seen run ≡ some t
seen_printed run t (stdout, e, same, some_) =
    let shown : is_blank (strip stdout) ≡ false = rw same (blank_false t some_) in
    rw e (rw shown (ap some same))

-- The first device of ROCm is what stands on the first line of the text.
pub names_of_printed :
    (run : Run) (t : Bytes)
    → Prints run t
    → (rest : List Bytes) × (names_of (lines t) ≡ strip (first_line t) ∷ rest)
unfolding names_of
names_of_printed run t (stdout, e, same, some_) = elim (strip_cases stdout) [
  | inl nothing ↦ absurd (some_ (sym same ∙ nothing))
  | inr (c, cs, shape, solid) ↦
      let begins : t ≡ c ∷ cs = sym same ∙ shape in
      let inner : (c == 10) ≡ false = ground arith in
      let (rest, lines_) = split_first t in
      let first : first_line t ≡ c ∷ first_line cs = rw (begins, inner) refl in
      let (d, ds, stripped, _) = strip_solid c (first_line cs) solid in
      let named : strip (first_line t) ≡ d ∷ ds = ap strip first ∙ stripped in
      (names_of rest, rw lines_ (rw named refl))
]
