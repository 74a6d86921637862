-- ===== src/Gpu/Choice.antt =====
-- Which device is chosen (gpu_allocator.py, lines 86 to 150).
use post_quantum_cryptograph.Common.{
  ◌≡◌, ◌↔◌, ◌⊎◌, String, Bool, false, ◌||◌, Option, none, some, List, [], ◌∷◌, All,
}
use post_quantum_cryptograph.Common.Int.{ℤ, leb_ℤ}
use post_quantum_cryptograph.Common.Bytes.{Bytes}
use post_quantum_cryptograph.Common.Checked.{Checked, ok, rejected}
use post_quantum_cryptograph.Gpu.{
  CudaDevice, Run, strip, lines, check_cuda_availability, wanted, or_default, Machine, Resources,
  cuda, rocm, cpu, get_system_ram, quarter,
}
use post_quantum_cryptograph.Gpu.Parsing.{Prints, PrintsNothing, first_line}
use post_quantum_cryptograph.Gpu.Listing.{IsShort, IsBroken, IsDevice, AnyLine}

-- The device is one of these.
abbrev pub Among : CudaDevice → List CudaDevice → Type 0
Among e [] = ⊥
Among e (d ∷ ds) = (e ≡ d) ⊎ Among e ds

-- Some device has the memory.
abbrev pub any_suitable : ℤ → List CudaDevice → Bool
any_suitable n [] = false
any_suitable n (d ∷ ds) = leb_ℤ n d.memory_mb || any_suitable n ds

-- What an allocation promises of a request and the devices of CUDA.
abbrev pub IsFit : Option ℤ → List CudaDevice → CudaDevice → ℤ → Type 0
IsFit none ds e memory = memory ≡ e.memory_mb
IsFit (some n) ds e memory = (memory ≡ n) × (leb_ℤ n e.memory_mb ≡ any_suitable n ds)

-- The command exits with 0 and prints text, and no line of it has three parts.
abbrev pub HasNoDevice : Run → Type 0
HasNoDevice run = (t : Bytes) × Prints run t × All IsShort (lines t)

-- The command prints nothing, or a line whose memory is no number.
abbrev pub NoCuda : Run → Type 0
NoCuda run = PrintsNothing run ⊎ ((t : Bytes) × Prints run t × AnyLine IsBroken (lines t))

-- What a result says of the machine.
abbrev pub IsAllocation : Option ℤ → Machine → Checked Resources → Type 0
IsAllocation requested m (rejected message) = HasNoDevice m.nvidia
IsAllocation requested m (ok (cuda e memory)) =
    (t : Bytes) × (ds : List CudaDevice) × Prints m.nvidia t
    × (check_cuda_availability m.nvidia ≡ some ds)
    × AnyLine (IsDevice e) (lines t)
    × Among e ds
    × IsFit (wanted requested) ds e memory
IsAllocation requested m (ok (rocm name memory request)) =
    NoCuda m.nvidia
    × ((t : Bytes) × Prints m.rocm_names t × (name ≡ strip (first_line t)))
    × (memory ≡ 4096)
    × (request ≡ requested)
IsAllocation requested m (ok (cpu ram memory)) =
    NoCuda m.nvidia
    × PrintsNothing m.rocm_names
    × (ram ≡ get_system_ram m.ram)
    × (memory ≡ or_default (wanted requested) (quarter (get_system_ram m.ram)))

-- A result is right, and raises exactly if nvidia-smi lists no device.
abbrev IsRight : Option ℤ → Machine → Checked Resources → Type 0
IsRight requested m result =
    (((message : String) × (result ≡ rejected message)) ↔ HasNoDevice m.nvidia)
    × IsAllocation requested m result
