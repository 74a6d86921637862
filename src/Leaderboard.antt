-- ===== src/Leaderboard.antt =====
-- src/pqc_bench/waveform_leaderboard.py: the leaderboard for synthetic waveforms.
--
-- The arguments have their annotated types, so that the tests of types pass; a text is the list of
-- its characters' codes. The digest (SHA-256 of the JSON text of the payload) is a parameter. The
-- constant entries of a row and of the report are left out, and a message is without the names that
-- the code puts into it. An accuracy is the fraction that the code's division rounds to a float.
pub mod Order
pub mod Sort
pub mod Ranks
pub mod Results
pub mod Board
mod Examples
use post_quantum_cryptograph.Common.{
  ℕ, zero, suc, ◌+◌, ◌*◌, ◌^◌, ◌≡◌, String, Bool, true, false, not, ◌&&◌, ◌||◌, Option, none, some,
  List, [], ◌∷◌, map, ltb, leb, ◌==◌, if◌then◌else◌, length, All,
}
use post_quantum_cryptograph.Common.Int.{ℤ, pos, negsuc, pos_part, neg_part}
use post_quantum_cryptograph.Common.Bytes.{Bytes, ascii, bytes_eq, less_text}
use post_quantum_cryptograph.Common.Sets.{mem, set_of, every}
use post_quantum_cryptograph.Common.Checked.{Checked, ok, rejected, ◌>>=◌, ◌>>◌, require}

abbrev pub classes : ℕ
classes = 3

abbrev pub max_results : ℕ
max_results = 64

-- A float: the integer n over 2 ** k, or an infinity or NaN, which no comparison lets through.
pub data Sample : Type 0 where
  exact : ℤ → ℕ → Sample
  not_finite : Sample

-- -1 <= v <= 1
abbrev pub in_range : Sample → Bool
in_range (exact (pos n) k) = leb n (2 ^ k)
in_range (exact (negsuc n) k) = ltb n (2 ^ k)
in_range not_finite = false

-- [A-Za-z0-9] and [A-Za-z0-9_.-]
abbrev pub is_alphanumeric : ℕ → Bool
is_alphanumeric c = leb 65 c && leb c 90 || leb 97 c && leb c 122 || leb 48 c && leb c 57

abbrev pub is_identifier_char : ℕ → Bool
is_identifier_char c = is_alphanumeric c || c == 95 || c == 46 || c == 45

unfoldable pub is_identifier : Bytes → Bool
is_identifier [] = false
is_identifier (c ∷ cs) = is_alphanumeric c && every is_identifier_char cs && leb (length cs) 63

abbrev pub check_identifier : Bytes → Checked (Unit {0})
check_identifier value = require (is_identifier value) "must be a 1..64 character identifier"

abbrev pub is_class : ℤ → Bool
is_class (pos n) = ltb n classes
is_class (negsuc n) = false

unfoldable pub check_class_ids : List ℤ → ℕ → Checked (Unit {0})
check_class_ids values count =
    require (length values == count) "must be a tuple of class ids"
    >> require (every is_class values) "must contain integer class ids 0..2"

pub record SyntheticSplit : Type 0 where
  pub split_id : Bytes
  pub preprocessing_id : Bytes
  pub waveforms : List (List Sample)
  pub targets : List ℤ

-- The loop over the rows.
unfoldable pub check_rows : ℕ → List (List Sample) → Checked (Unit {0})
check_rows n [] = ok tt
check_rows n (row ∷ rows) =
    require (length row == n) "waveforms must be rectangular tuples"
    >> (require (every in_range row) "waveforms must contain finite real samples in [-1, 1]"
        >> check_rows n rows)

unfoldable pub check_waveforms : List (List Sample) → Checked (Unit {0})
check_waveforms [] = rejected "waveforms must be a tuple containing 3..256 examples"
check_waveforms (first ∷ rows) =
    require (leb 3 (suc (length rows)) && leb (suc (length rows)) 256)
      "waveforms must be a tuple containing 3..256 examples"
    >> (require (leb 32 (length first) && leb (length first) 4096)
          "each waveform must be a tuple with length 32..4096"
        >> check_rows (length first) (first ∷ rows))

-- `set(targets) == {0, 1, 2}`, of class ids.
abbrev pub is_value : ℕ → ℤ → Bool
is_value c (pos n) = n == c
is_value c (negsuc n) = false

unfoldable pub has_class : ℕ → List ℤ → Bool
has_class c [] = false
has_class c (t ∷ ts) = is_value c t || has_class c ts

abbrev pub all_classes : List ℤ → Bool
all_classes ts = every is_class ts && has_class 0 ts && has_class 1 ts && has_class 2 ts

-- `SyntheticSplit.__post_init__`
unfoldable pub check_split : SyntheticSplit → Checked (Unit {0})
check_split s =
    check_identifier s.split_id
    >> (check_identifier s.preprocessing_id
        >> (check_waveforms s.waveforms
            >> (check_class_ids s.targets (length s.waveforms)
                >> require (all_classes s.targets) "every generic class must be represented")))

-- What the digest is computed from.
pub record Payload : Type 0 where
  pub schema_version : ℕ
  pub class_names : List Bytes
  pub split_id : Bytes
  pub preprocessing_id : Bytes
  pub waveforms : List (List Sample)
  pub targets : List ℤ

abbrev pub payload : SyntheticSplit → Payload
payload s = record {
  schema_version = 1;
  class_names = ascii "sine" ∷ ascii "cosine" ∷ ascii "noise" ∷ [];
  split_id = s.split_id;
  preprocessing_id = s.preprocessing_id;
  waveforms = s.waveforms;
  targets = s.targets;
}

pub record EvaluationResult : Type 0 where
  pub model_id : Bytes
  pub family : Bytes
  pub training_status : Bytes
  pub split : SyntheticSplit
  pub predictions : List ℤ

abbrev pub is_family : Bytes → Bool
is_family f = mem f (ascii "CNN" ∷ ascii "ResNet" ∷ ascii "Transformer" ∷ [])

abbrev pub is_status : Bytes → Bool
is_status s = mem s (ascii "untrained" ∷ ascii "trained" ∷ [])

-- `EvaluationResult.__post_init__`
unfoldable pub check_result : EvaluationResult → Checked (Unit {0})
check_result r =
    check_identifier r.model_id
    >> (require (is_family r.family) "family must be CNN, ResNet or Transformer"
        >> (require (is_status r.training_status) "training_status must be untrained or trained"
            >> check_class_ids r.predictions (length r.split.targets)))

-- A result that was constructed, of a split that was constructed.
abbrev pub IsResult : EvaluationResult → Type 0
IsResult r = (check_split r.split ≡ ok tt) × (check_result r ≡ ok tt)

abbrev pub is_same : ℤ → ℤ → Bool
is_same (pos m) (pos n) = m == n
is_same (negsuc m) (negsuc n) = m == n
is_same p t = false

-- sum(p == t for p, t in zip(ps, ts))
unfoldable pub matches : List ℤ → List ℤ → ℕ
matches (p ∷ ps) (t ∷ ts) = (if is_same p t then 1 else 0) + matches ps ts
matches ps ts = 0

abbrev pub correct : EvaluationResult → ℕ
correct r = matches r.predictions r.split.targets

-- `over n d` is n / (d + 1); it is compared by cross products, not reduced.
pub data Fraction : Type 0 where
  over : ℕ → ℕ → Fraction

abbrev pub fraction : ℕ → ℕ → Checked Fraction
fraction n zero = rejected "ZeroDivisionError"
fraction n (suc d) = ok (over n d)

abbrev pub less : Fraction → Fraction → Bool
less (over m c) (over n d) = ltb (m * suc d) (n * suc c)

abbrev pub equal : Fraction → Fraction → Bool
equal (over m c) (over n d) = (m * suc d) == (n * suc c)

-- A result with the first part of its key; the second is its `model_id`.
pub record Entry : Type 0 where
  pub score : Fraction
  pub result : EvaluationResult

abbrev pub entry_of : EvaluationResult → Checked Entry
entry_of r = do
  score ← fraction (correct r) (length r.predictions)
  ok (record { score = score; result = r })

unfoldable pub entries_of : List EvaluationResult → Checked (List Entry)
entries_of [] = ok []
entries_of (r ∷ rs) = do e ← entry_of r; es ← entries_of rs; ok (e ∷ es)

-- key(a) < key(b): the negated score first, then the identifier.
unfoldable pub before : Entry → Entry → Bool
before a b =
    less b.score a.score || (equal a.score b.score && less_text a.result.model_id b.result.model_id)

-- `sorted`, which is stable: an entry goes before those that are not before it.
unfoldable pub insert_entry : Entry → List Entry → List Entry
insert_entry e [] = e ∷ []
insert_entry e (x ∷ xs) = if before x e then x ∷ insert_entry e xs else e ∷ x ∷ xs

unfoldable pub sort : List Entry → List Entry
sort [] = []
sort (e ∷ es) = insert_entry e (sort es)

pub record Row : Type 0 where
  pub rank : ℕ
  pub model_id : Bytes
  pub family : Bytes
  pub training_status : Bytes
  pub correct_count : ℕ
  pub sample_count : ℕ
  pub accuracy : Fraction

abbrev pub row_of : ℕ → EvaluationResult → Fraction → Row
row_of rank r accuracy = record {
  rank = rank;
  model_id = r.model_id;
  family = r.family;
  training_status = r.training_status;
  correct_count = correct r;
  sample_count = length r.predictions;
  accuracy = accuracy;
}

-- score != previous
abbrev pub is_new : Fraction → Option Fraction → Bool
is_new s none = true
is_new s (some previous) = not (equal s previous)

-- The loop over the sorted results.
unfoldable pub rows_of : ℕ → Option Fraction → ℕ → List Entry → Checked (List Row)
rows_of position previous rank [] = ok []
rows_of position previous rank (e ∷ es) =
    let place = if is_new e.score previous then position else rank in
    fraction (correct e.result) (length e.result.split.targets) >>= λ accuracy.
    rows_of (suc position) (some e.score) place es >>= λ rows.
    ok (row_of place e.result accuracy ∷ rows)

pub record Report : Type 0 where
  pub split_fingerprint : Option Bytes
  pub rows : List Row

abbrev pub first : List Bytes → Option Bytes
first [] = none
first (x ∷ xs) = some x

-- A set of the results' attributes.
abbrev pub attributes : (EvaluationResult → Bytes) → List EvaluationResult → List Bytes
attributes f results = set_of (map f results)

module _ (digest : Payload → Bytes) where
  abbrev pub fingerprint : EvaluationResult → Bytes
  fingerprint r = digest (payload r.split)

  unfoldable pub build_leaderboard : List EvaluationResult → Checked Report
  build_leaderboard results =
      require (leb (length results) max_results) "results must contain at most 64 evaluations"
      >> (require (length (attributes (λ r. r.model_id) results) == length results)
            "model_id must be unique; aggregate repeats separately"
          >> (require (leb (length (attributes fingerprint results)) 1)
                "incomparable evaluation splits or preprocessing contracts"
              >> (require (leb (length (attributes (λ r. r.training_status) results)) 1)
                    "incomparable training status"
                  >> (entries_of results >>= λ entries. rows_of 1 none 0 (sort entries) >>= λ rows.
                      ok (record {
                        split_fingerprint = first (attributes fingerprint results);
                        rows = rows;
                      })))))
