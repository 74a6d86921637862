-- ===== src/Gpu/Listing.antt =====
-- Which lines of the output of nvidia-smi are devices (gpu_allocator.py, lines 29 to 37).
use post_quantum_cryptograph.Common.{
  ◌<◌, ◌≡◌, ◌⊎◌, refl, inl, inr, not, ◌&&◌, Option, none, some, List, [], ◌∷◌, arith, ◌==◌, map,
  length, All, Bool-cases,
}
use post_quantum_cryptograph.Common.Int.{ℤ}
use post_quantum_cryptograph.Common.Bytes.{Bytes, split_on}
use post_quantum_cryptograph.Gpu.{
  Run, no_run, exited, strip, lines, is_blank, int_of, CudaDevice, device_of, joined, devices_of,
  check_cuda_availability, check_rocm_availability, names_of,
}
use post_quantum_cryptograph.Gpu.Parsing.{seen}

abbrev pub parts_of : Bytes → List Bytes
parts_of line = map strip (split_on 44 line)

-- A line of fewer than three parts, one whose memory is no number, and the line of a device.
abbrev pub IsShort : Bytes → Type 0
IsShort line = length (parts_of line) < 3

abbrev pub IsBroken : Bytes → Type 0
IsBroken line =
    (name memory driver : Bytes) × (rest : List Bytes) × (parts_of line
      ≡ name ∷ memory ∷ driver ∷ rest)
    × (int_of memory ≡ none)

abbrev pub IsDevice : CudaDevice → Bytes → Type 0
IsDevice d line =
    (memory : Bytes) × (rest : List Bytes) × (parts_of line
      ≡ d.name ∷ memory ∷ d.driver_version ∷ rest)
    × (int_of memory ≡ some d.memory_mb)

abbrev pub AnyLine : (Bytes → Type 0) → List Bytes → Type 0
AnyLine P [] = ⊥
AnyLine P (line ∷ rest) = P line ⊎ AnyLine P rest

-- What the list that is read from the lines says of them.
abbrev pub IsListing : List Bytes → Option (List CudaDevice) → Type 0
IsListing ls none = AnyLine IsBroken ls
IsListing ls (some []) = All IsShort ls
IsListing ls (some (d ∷ ds)) = All (λ e. AnyLine (IsDevice e) ls) (d ∷ ds)

-- What one line gives.
abbrev IsItem : List Bytes → Option (List CudaDevice) → Type 0
IsItem parts none =
    (name memory driver : Bytes) × (rest : List Bytes) × (parts ≡ name ∷ memory ∷ driver ∷ rest)
    × (int_of memory ≡ none)
IsItem parts (some []) = length parts < 3
IsItem parts (some (d ∷ [])) =
    (memory : Bytes) × (rest : List Bytes) × (parts ≡ d.name ∷ memory ∷ d.driver_version ∷ rest)
    × (int_of memory ≡ some d.memory_mb)
IsItem parts (some (d ∷ e ∷ ds)) = ⊥

device_of-IsItem : (parts : List Bytes) → IsItem parts (device_of parts)
device_of-IsItem [] = omega arith
device_of-IsItem (a ∷ []) = omega arith
device_of-IsItem (a ∷ b ∷ []) = omega arith
device_of-IsItem (name ∷ memory ∷ driver ∷ rest) = read (int_of memory) refl
  where
    read :
        (o : Option ℤ)
        → int_of memory ≡ o
        → IsItem (name ∷ memory ∷ driver ∷ rest) (elim o [
          | none ↦ none
          | some mb ↦ some (record { name = name; memory_mb = mb; driver_version = driver } ∷ [])
        ])
    read none e = (name, memory, driver, rest, refl, e)
    read (some mb) e = (memory, rest, refl, e)

later_lines :
    (line : Bytes) (ls : List Bytes) (ds : List CudaDevice)
    → All (λ e. AnyLine (IsDevice e) ls) ds
    → All (λ e. AnyLine (IsDevice e) (line ∷ ls)) ds
later_lines line ls [] h = tt
later_lines line ls (d ∷ ds) h = (inr h.0, later_lines line ls ds h.1)

joined-IsListing :
    (line : Bytes) (ls : List Bytes) (here rest : Option (List CudaDevice))
    → IsItem (parts_of line) here
    → IsListing ls rest
    → IsListing (line ∷ ls) (joined here rest)
joined-IsListing line ls none rest h g = inl h
joined-IsListing line ls (some []) none h g = inr g
joined-IsListing line ls (some []) (some []) h g = (h, g)
joined-IsListing line ls (some []) (some (d ∷ ds)) h g = later_lines line ls (d ∷ ds) g
joined-IsListing line ls (some (d ∷ [])) none h g = inr g
joined-IsListing line ls (some (d ∷ [])) (some []) h g = (inl h, tt)
joined-IsListing line ls (some (d ∷ [])) (some (e ∷ es)) h g =
    (inl h, later_lines line ls (e ∷ es) g)
joined-IsListing line ls (some (d ∷ e ∷ ds)) rest h g = absurd h

pub devices_of-IsListing : (ls : List Bytes) → IsListing ls (devices_of ls)
unfolding devices_of
devices_of-IsListing [] = tt
devices_of-IsListing (line ∷ ls) =
    joined-IsListing line ls (device_of (parts_of line)) (devices_of ls)
      (device_of-IsItem (parts_of line)) (devices_of-IsListing ls)

short_item : (parts : List Bytes) → length parts < 3 → device_of parts ≡ some []
short_item [] h = refl
short_item (a ∷ []) h = refl
short_item (a ∷ b ∷ []) h = refl
short_item (a ∷ b ∷ c ∷ rest) h = absurd (omega arith)

pub all_short : (ls : List Bytes) → All IsShort ls → devices_of ls ≡ some []
unfolding devices_of
all_short [] h = refl
all_short (line ∷ ls) h = rw (short_item (parts_of line) h.0, all_short ls h.1) refl

-- The checks, from what they see.
abbrev pub cuda_of : Option Bytes → Option (List CudaDevice)
cuda_of none = none
cuda_of (some t) = devices_of (lines t)

abbrev pub rocm_of : Option Bytes → Option (List Bytes)
rocm_of none = none
rocm_of (some t) = some (names_of (lines t))

pub check_cuda-seen : (run : Run) → check_cuda_availability run ≡ cuda_of (seen run)
unfolding check_cuda_availability
check_cuda-seen no_run = refl
check_cuda-seen (exited code stdout) =
    elim (Bool-cases (code == 0 && not (is_blank (strip stdout)))) [
      | inl t ↦ rw t refl
      | inr f ↦ rw f refl
    ]

pub check_rocm-seen : (run : Run) → check_rocm_availability run ≡ rocm_of (seen run)
unfolding check_rocm_availability
check_rocm-seen no_run = refl
check_rocm-seen (exited code stdout) =
    elim (Bool-cases (code == 0 && not (is_blank (strip stdout)))) [
      | inl t ↦ rw t refl
      | inr f ↦ rw f refl
    ]
