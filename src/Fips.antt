-- ===== src/Fips.antt =====
-- src/pqc_bench/fips_evidence.py: the review of documents about a cryptographic module.
--
-- A request is the value that JSON or a caller gives: the keys of an object are texts, and a text is
-- the list of its characters' codes. The Unicode tables (white space, and the categories that begin
-- with C) are parameters. The JSON text of a value, by which values are compared, is the value. The
-- constant entries of the matrix are left out; load_request and the two printers work on texts.
pub mod Matrix
pub mod Documents
pub mod Accepted
pub mod Conflict
pub mod Rows
mod Examples
use post_quantum_cryptograph.Common.{
  ℕ, String, Bool, true, false, not, ◌&&◌, ◌||◌, Option, none, some, List, [], ◌∷◌, ◌++◌, map, leb,
  ltb, ◌==◌, if◌then◌else◌, length,
}
use post_quantum_cryptograph.Common.Bytes.{Bytes, ascii, bytes_eq, less_text}
use post_quantum_cryptograph.Common.Sets.{mem, set_of, sort_texts, every}
use post_quantum_cryptograph.Common.Table.{Table, find, has}
use post_quantum_cryptograph.Common.Checked.{Checked, ok, rejected, ◌>>=◌, ◌>>◌, require}

-- A value of JSON: null, a text, an array, an object, or a number or Boolean.
mutual
  pub data Json : Type 0 where
    null : Json
    text : Bytes → Json
    array : Items → Json
    object : Entries → Json
    other : Json

  pub data Items : Type 0 where
    end : Items
    item : Json → Items → Items

  pub data Entries : Type 0 where
    close : Entries
    entry : Bytes → Json → Entries → Entries

abbrev pub list_of : Items → List Json
list_of end = []
list_of (item j js) = j ∷ list_of js

abbrev pub table_of : Entries → Table Json
table_of close = []
table_of (entry k j es) = (k, j) ∷ table_of es

-- `FIELDS`
pub data Field : Type 0 where
  module_id version environment certificate_reference certificate_standard certificate_status :
      Field
  security_policy_reference approved_mode services : Field

abbrev pub field_name : Field → Bytes
field_name module_id = ascii "module_id"
field_name version = ascii "version"
field_name environment = ascii "environment"
field_name certificate_reference = ascii "certificate_reference"
field_name certificate_standard = ascii "certificate_standard"
field_name certificate_status = ascii "certificate_status"
field_name security_policy_reference = ascii "security_policy_reference"
field_name approved_mode = ascii "approved_mode"
field_name services = ascii "services"

abbrev pub fields : List Field
fields =
    module_id ∷ version ∷ environment ∷ certificate_reference ∷ certificate_standard
    ∷ certificate_status ∷ security_policy_reference ∷ approved_mode ∷ services ∷ []

abbrev pub target_fields : List Field
target_fields = module_id ∷ version ∷ environment ∷ approved_mode ∷ services ∷ []

abbrev pub is_target_field : Field → Bool
is_target_field certificate_reference = false
is_target_field certificate_standard = false
is_target_field certificate_status = false
is_target_field security_policy_reference = false
is_target_field f = true

-- `_value`'s result: None, a text, or the sorted services.
pub data Assertion : Type 0 where
  unset : Assertion
  word : Bytes → Assertion
  scope : List Bytes → Assertion

pub record Document : Type 0 where
  pub document_id : Bytes
  pub locator : Bytes
  pub values : List (Field × Assertion)

-- `_object`: the keys are allowed, and the required ones are there.
abbrev keys : Table Json → List Bytes
keys = map (λ e. e.0)

unfoldable pub check_object : List Bytes → List Bytes → Json → Checked (Table Json)
check_object allowed required (object es) =
    let table = table_of es in
    require (every (λ k. mem k allowed) (keys table) && every (λ k. has k table) required)
      "has unknown or missing keys"
    >> ok table
check_object allowed required j = rejected "must be a plain object"

-- d.get(k)
abbrev or_null : Option Json → Json
or_null none = null
or_null (some j) = j

abbrev pub get : Bytes → Table Json → Json
get k table = or_null (find k table)

unfoldable pub reverse_onto : Bytes → Bytes → Bytes
reverse_onto [] acc = acc
reverse_onto (c ∷ cs) acc = reverse_onto cs (c ∷ acc)

abbrev pub standards : List Bytes
standards = ascii "FIPS 140-3" ∷ ascii "FIPS 140-2" ∷ ascii "unknown" ∷ []

abbrev pub statuses : List Bytes
statuses = ascii "active" ∷ ascii "historical" ∷ ascii "revoked" ∷ ascii "unknown" ∷ []

abbrev pub is_allowed : Field → Bytes → Bool
is_allowed certificate_standard t = mem t standards
is_allowed certificate_status t = mem t statuses
is_allowed f t = true

abbrev pub is_services : Field → Bool
is_services services = true
is_services f = false

abbrev pub names_of : List Field → List Bytes
names_of = map field_name

abbrev pub is_unset : Assertion → Bool
is_unset unset = true
is_unset a = false

unfoldable pub value_of : Bytes → List (Field × Assertion) → Assertion
value_of name [] = unset
value_of name ((f, a) ∷ vs) = if bytes_eq (field_name f) name then a else value_of name vs

abbrev pub asserted : Field → List (Field × Assertion) → Assertion
asserted f vs = value_of (field_name f) vs

-- sorted(documents, key=document_id)
unfoldable pub insert_document : Document → List Document → List Document
insert_document d [] = d ∷ []
insert_document d (e ∷ es) =
    if less_text e.document_id d.document_id then e ∷ insert_document d es else d ∷ e ∷ es

unfoldable pub sort_documents : List Document → List Document
sort_documents [] = []
sort_documents (d ∷ ds) = insert_document d (sort_documents ds)

abbrev pub document_keys : List Bytes
document_keys = ascii "document_id" ∷ ascii "locator" ∷ []

abbrev pub request_keys : List Bytes
request_keys = ascii "target" ∷ ascii "documents" ∷ []

module _ (is_space is_control : ℕ → Bool) where
  unfoldable pub drop_spaces : Bytes → Bytes
  drop_spaces [] = []
  drop_spaces (c ∷ cs) = if is_space c then drop_spaces cs else c ∷ cs

  -- value.strip()
  abbrev pub strip : Bytes → Bytes
  strip t = reverse_onto (drop_spaces (reverse_onto (drop_spaces t) [])) []

  unfoldable pub is_text : Bytes → Bool
  is_text t =
      leb 1 (length t)
      && leb (length t) 512
      && bytes_eq t (strip t)
      && every (λ c. not (is_control c)) t

  -- `_text`
  unfoldable pub check_text : Json → Checked Bytes
  check_text (text t) = require (is_text t) "must be 1..512 trimmed printable characters" >> ok t
  check_text j = rejected "must be 1..512 trimmed printable characters"

  unfoldable pub check_texts : Items → Checked (List Bytes)
  check_texts end = ok []
  check_texts (item j js) = do t ← check_text j; ts ← check_texts js; ok (t ∷ ts)

  unfoldable pub services_value : Json → Checked Assertion
  services_value (array js) =
      require (leb 1 (length (list_of js)) && leb (length (list_of js)) 32)
        "services must be a nonempty list of at most 32 strings or null"
      >> (check_texts js >>= λ ts.
          require (length (set_of ts) == length ts) "duplicate services"
          >> ok (scope (sort_texts ts)))
  services_value j = rejected "services must be a nonempty list of at most 32 strings or null"

  unfoldable pub word_value : Field → Json → Checked Assertion
  word_value f j = check_text j >>= λ t. require (is_allowed f t) "invalid value" >> ok (word t)

  -- `_value`
  unfoldable pub check_value : Field → Json → Checked Assertion
  check_value f null = ok unset
  check_value f j = if is_services f then services_value j else word_value f j

  unfoldable pub check_values : List Field → Table Json → Checked (List (Field × Assertion))
  check_values [] table = ok []
  check_values (f ∷ fs) table = do
    a ← check_value f (get (field_name f) table)
    vs ← check_values fs table
    ok ((f, a) ∷ vs)

  -- One document, whose identifier is none of those before.
  unfoldable pub check_document : List Bytes → Json → Checked Document
  check_document ids j =
      check_object (names_of fields ++ document_keys) document_keys j >>= λ table.
      check_text (get (ascii "document_id") table) >>= λ id.
      require (not (mem id ids)) "duplicate document_id"
      >> (check_text (get (ascii "locator") table) >>= λ locator.
          check_values fields table >>= λ values.
          ok (record { document_id = id; locator = locator; values = values }))

  unfoldable pub check_documents : List Bytes → Items → Checked (List Document)
  check_documents ids end = ok []
  check_documents ids (item j js) =
      check_document ids j >>= λ d. check_documents (d.document_id ∷ ids) js >>= λ ds. ok (d ∷ ds)

  unfoldable pub document_list : Json → Checked (List Document)
  document_list (array js) =
      require (leb (length (list_of js)) 64) "documents must be a list of at most 64 objects"
      >> (check_documents [] js >>= λ ds. ok (sort_documents ds))
  document_list j = rejected "documents must be a list of at most 64 objects"

  -- `_normalize`
  unfoldable pub normalize : Json → Checked (List (Field × Assertion) × List Document)
  normalize j = check_object request_keys request_keys j >>= λ request.
      check_object (names_of target_fields) (field_name module_id ∷ [])
        (get (ascii "target") request)
      >>= λ table. check_values target_fields table >>= λ target.
          require (not (is_unset (asserted module_id target))) "target module_id is required"
          >> (document_list (get (ascii "documents") request) >>= λ documents.
              ok (target, documents))
