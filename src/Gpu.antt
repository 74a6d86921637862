-- ===== src/Gpu.antt =====
-- src/pqc_bench/gpu/gpu_allocator.py: the choice of a device, CUDA before ROCm before the CPU.
--
-- What a command gives is an argument: that it could not be run or timed out, or its exit status and
-- its output, an ASCII text as the list of its characters' codes. So is the text of /proc/meminfo.
-- Memory in RAM is counted in KiB, the code's number of MB times 1024, which it keeps as a float.
-- start_side_channel_channel and get_optimal_configuration only join this with other reports.
pub mod Parsing
pub mod Listing
pub mod Choice
mod Examples
use post_quantum_cryptograph.Common.{
  ℕ, ◌+◌, ◌-◌, ◌*◌, ◌/◌, String, Bool, true, false, not, ◌&&◌, ◌||◌, Option, none, some, List, [],
  ◌∷◌, map, leb, ltb, ◌==◌, if◌then◌else◌, length,
}
use post_quantum_cryptograph.Common.Int.{ℤ, pos, negsuc, leb_ℤ, ◌==ℤ◌}
use post_quantum_cryptograph.Common.Bytes.{Bytes, ascii, has_text, split_on, onto_first}
use post_quantum_cryptograph.Common.Sets.{every}
use post_quantum_cryptograph.Common.Checked.{Checked, ok, rejected, ◌>>=◌}

-- subprocess.run(…)
pub data Run : Type 0 where
  no_run : Run
  exited : ℕ → Bytes → Run

abbrev pub is_space : ℕ → Bool
is_space c = leb 9 c && leb c 13 || leb 28 c && leb c 32

unfoldable pub drop_spaces : Bytes → Bytes
drop_spaces [] = []
drop_spaces (c ∷ cs) = if is_space c then drop_spaces cs else c ∷ cs

unfoldable pub drop_last_spaces : Bytes → Bytes
drop_last_spaces [] = []
drop_last_spaces (c ∷ cs) =
    let rest = drop_last_spaces cs in
    elim rest [ [] ↦ if is_space c then [] else c ∷ [] | d ∷ ds ↦ c ∷ d ∷ ds ]

-- text.strip()
abbrev pub strip : Bytes → Bytes
strip t = drop_last_spaces (drop_spaces t)

abbrev pub lines : Bytes → List Bytes
lines = split_on 10

-- int(text): digits with single underscores between them, after a sign.
abbrev is_digit : ℕ → Bool
is_digit c = leb 48 c && leb c 57

unfoldable pub digits_from : ℕ → Bool → Bytes → Option ℕ
digits_from n true [] = some n
digits_from n false [] = none
digits_from n after_digit (c ∷ cs) =
    if is_digit c
    then digits_from (n * 10 + (c - 48)) true cs
    else if after_digit && c == 95
    then digits_from n false cs
    else none

abbrev negated : ℕ → ℤ
negated n = if n == 0 then pos 0 else negsuc (n - 1)

abbrev pub signed : Option ℕ → Bool → Option ℤ
signed none minus = none
signed (some n) minus = some (if minus then negated n else pos n)

abbrev pub int_of_stripped : Bytes → Option ℤ
int_of_stripped [] = none
int_of_stripped (c ∷ cs) =
    if c == 45
    then signed (digits_from 0 false cs) true
    else if c == 43
    then signed (digits_from 0 false cs) false
    else signed (digits_from 0 false (c ∷ cs)) false

abbrev pub int_of : Bytes → Option ℤ
int_of t = int_of_stripped (strip t)

pub record CudaDevice : Type 0 where
  pub name : Bytes
  pub memory_mb : ℤ
  pub driver_version : Bytes

-- A line of three parts or more is a device; one whose memory is no number raises.
abbrev pub device_of : List Bytes → Option (List CudaDevice)
device_of (name ∷ memory ∷ driver ∷ rest) = elim (int_of memory) [
  | none ↦ none
  | some mb ↦ some (record { name = name; memory_mb = mb; driver_version = driver } ∷ [])
]
device_of parts = some []

abbrev pub joined : Option (List CudaDevice) → Option (List CudaDevice) → Option (List CudaDevice)
joined none rest = none
joined (some ds) none = none
joined (some []) (some es) = some es
joined (some (d ∷ ds)) (some es) = some (d ∷ es)

unfoldable pub devices_of : List Bytes → Option (List CudaDevice)
devices_of [] = some []
devices_of (line ∷ rest) = joined (device_of (map strip (split_on 44 line))) (devices_of rest)

abbrev pub is_blank : Bytes → Bool
is_blank [] = true
is_blank (c ∷ cs) = false

-- `check_cuda_availability`: none, or the devices of one that is available.
unfoldable pub check_cuda_availability : Run → Option (List CudaDevice)
check_cuda_availability no_run = none
check_cuda_availability (exited code stdout) =
    if code == 0 && not (is_blank (strip stdout)) then devices_of (lines (strip stdout)) else none

unfoldable pub names_of : List Bytes → List Bytes
names_of [] = []
names_of (line ∷ rest) = if is_blank (strip line) then names_of rest else strip line ∷ names_of rest

-- `check_rocm_availability`
unfoldable pub check_rocm_availability : Run → Option (List Bytes)
check_rocm_availability no_run = none
check_rocm_availability (exited code stdout) =
    if code == 0 && not (is_blank (strip stdout))
    then some (names_of (lines (strip stdout)))
    else none

-- line.split()
unfoldable pub words_from : Bool → Bytes → List Bytes
words_from inside [] = if inside then [] ∷ [] else []
words_from inside (c ∷ cs) =
    if is_space c
    then (if inside then [] ∷ words_from false cs else words_from false cs)
    else onto_first c (words_from true cs)

-- What `_get_rocm_memory_mb` takes for a name: a text, or the dictionary of a device.
pub data Device : Type 0 where
  named : Bytes → Device
  dictionary : Bytes → Device

-- device in line, where a dictionary raises.
abbrev pub occurs_in : Device → Bytes → Checked Bool
occurs_in (named name) line = ok (has_text name line)
occurs_in (dictionary name) line = rejected "TypeError"

-- p.isdigit() and int(p)
abbrev pub plain_digits : Bytes → Option ℕ
plain_digits [] = none
plain_digits (c ∷ cs) = if every is_digit (c ∷ cs) then digits_from 0 false (c ∷ cs) else none

unfoldable pub first_number : List Bytes → Option ℕ
first_number [] = none
first_number (p ∷ ps) = elim (plain_digits p) [ none ↦ first_number ps | some n ↦ some n ]

abbrev pub number_or : Option ℕ → Checked (Option ℕ) → Checked (Option ℕ)
number_or none rest = rest
number_or (some n) rest = ok (some (n * 1024))

-- The loop over the lines: the first number of the first line that has the device and a number.
unfoldable pub memory_in : Device → List Bytes → Checked (Option ℕ)
memory_in device [] = ok none
memory_in device (line ∷ rest) =
    let later = memory_in device rest in
    occurs_in device line >>= λ b.
    if b then number_or (first_number (words_from false line)) later else later

-- What is left of a result, where every exception is caught.
abbrev pub or_default_memory : Checked (Option ℕ) → ℕ
or_default_memory (ok (some n)) = n
or_default_memory (ok none) = 4096
or_default_memory (rejected message) = 4096

-- `_get_rocm_memory_mb`
unfoldable pub rocm_memory_mb : Run → Device → ℕ
rocm_memory_mb no_run device = 4096
rocm_memory_mb (exited code stdout) device =
    if code == 0 then or_default_memory (memory_in device (lines (strip stdout))) else 4096

abbrev pub second : List Bytes → Option Bytes
second (a ∷ b ∷ ws) = some b
second ws = none

abbrev pub as_kib : Option ℤ → ℤ
as_kib none = pos (8192 * 1024)
as_kib (some n) = n

abbrev pub int_of_word : Option Bytes → Option ℤ
int_of_word none = none
int_of_word (some w) = int_of w

unfoldable pub ram_of_lines : List Bytes → ℤ
ram_of_lines [] = pos (8192 * 1024)
ram_of_lines (line ∷ rest) =
    if has_text (ascii "MemTotal:") line
    then as_kib (int_of_word (second (words_from false line)))
    else ram_of_lines rest

-- `_get_system_ram_mb`, in KiB; a file that cannot be read is `none`.
abbrev pub get_system_ram : Option Bytes → ℤ
get_system_ram none = pos (8192 * 1024)
get_system_ram (some text) = ram_of_lines (lines text)

-- n // 4096, of an integer.
abbrev pub quarter : ℤ → ℤ
quarter (pos n) = pos (n / 4096)
quarter (negsuc n) = negsuc (n / 4096)

pub data Resources : Type 0 where
  cuda : CudaDevice → ℤ → Resources
  rocm : Bytes → ℕ → Option ℤ → Resources
  cpu : ℤ → ℤ → Resources

-- A request that is there and not 0.
abbrev pub wanted : Option ℤ → Option ℤ
wanted none = none
wanted (some n) = if n ==ℤ pos 0 then none else some n

-- requested_memory_mb or default
abbrev pub or_default : Option ℤ → ℤ → ℤ
or_default none default = default
or_default (some n) default = n

unfoldable pub first_suitable : ℤ → List CudaDevice → Option CudaDevice
first_suitable n [] = none
first_suitable n (d ∷ ds) = if leb_ℤ n d.memory_mb then some d else first_suitable n ds

unfoldable pub first_cuda : Option ℤ → List CudaDevice → Checked Resources
first_cuda request [] = rejected "IndexError"
first_cuda request (d ∷ ds) = ok (cuda d (or_default request d.memory_mb))

abbrev pub cuda_or_first : ℤ → Option CudaDevice → List CudaDevice → Checked Resources
cuda_or_first n none ds = first_cuda (some n) ds
cuda_or_first n (some d) ds = ok (cuda d n)

unfoldable pub allocate_cuda : Option ℤ → List CudaDevice → Checked Resources
allocate_cuda none ds = first_cuda none ds
allocate_cuda (some n) ds = cuda_or_first n (first_suitable n ds) ds

-- The devices with enough memory; the code passes the dictionary of a device, not its name.
unfoldable pub suitable_rocm : ℤ → Run → List Bytes → List Bytes
suitable_rocm n meminfo [] = []
suitable_rocm n meminfo (d ∷ ds) =
    let rest = suitable_rocm n meminfo ds in
    if leb_ℤ n (pos (rocm_memory_mb meminfo (dictionary d))) then d ∷ rest else rest

abbrev pub rocm_or_first : Option ℤ → Run → List Bytes → List Bytes → Checked Resources
rocm_or_first requested meminfo (d ∷ suitable) ds =
    ok (rocm d (rocm_memory_mb meminfo (dictionary d)) requested)
rocm_or_first requested meminfo [] (d ∷ ds) =
    ok (rocm d (rocm_memory_mb meminfo (dictionary d)) requested)
rocm_or_first requested meminfo [] [] = rejected "IndexError"

abbrev pub suitable_for : Option ℤ → Run → List Bytes → List Bytes
suitable_for none meminfo ds = []
suitable_for (some n) meminfo ds = suitable_rocm n meminfo ds

-- What the machine answers: nvidia-smi, rocm-smi for the names, rocm-smi for the memory, and RAM.
pub record Machine : Type 0 where
  pub nvidia : Run
  pub rocm_names : Run
  pub rocm_memory : Run
  pub ram : Option Bytes

abbrev pub allocate_cpu : Option ℤ → ℤ → Resources
allocate_cpu request ram = cpu ram (or_default request (quarter ram))

abbrev pub after_cuda : Option ℤ → Machine → Option (List Bytes) → Checked Resources
after_cuda requested m none = ok (allocate_cpu (wanted requested) (get_system_ram m.ram))
after_cuda requested m (some ds) =
    rocm_or_first requested m.rocm_memory (suitable_for (wanted requested) m.rocm_memory ds) ds

abbrev pub from_cuda : Option ℤ → Machine → Option (List CudaDevice) → Checked Resources
from_cuda requested m none = after_cuda requested m (check_rocm_availability m.rocm_names)
from_cuda requested m (some ds) = allocate_cuda (wanted requested) ds

unfoldable pub allocate_gpu_resources : Option ℤ → Machine → Checked Resources
allocate_gpu_resources requested m = from_cuda requested m (check_cuda_availability m.nvidia)
