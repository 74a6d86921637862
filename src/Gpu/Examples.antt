-- ===== src/Gpu/Examples.antt =====
-- A machine with two CUDA devices, and one whose output has no device.
use post_quantum_cryptograph.Common.{◌≡◌, refl, none, some, [], ◌∷◌, ◌++◌}
use post_quantum_cryptograph.Common.Int.{pos}
use post_quantum_cryptograph.Common.Bytes.{split_on, Bytes, ascii, has_text, starts_with}
use post_quantum_cryptograph.Common.Checked.{ok, rejected}
use post_quantum_cryptograph.Common.Sets.{every}
use post_quantum_cryptograph.Gpu.{
  Run, no_run, exited, named, dictionary, memory_in, rocm_memory_mb, first_number, drop_spaces,
  drop_last_spaces, digits_from, devices_of, check_cuda_availability, check_rocm_availability,
  words_from, ram_of_lines, first_suitable, first_cuda, allocate_cuda, Machine, cuda, cpu,
  allocate_gpu_resources,
}

abbrev line_end : Bytes
line_end = 10 ∷ []

abbrev machine : Run → Machine
machine nvidia = record {
  nvidia = nvidia;
  rocm_names = no_run;
  rocm_memory = no_run;
  ram = some (ascii "MemTotal:  16384000 kB");
}

abbrev two : Machine
two = machine (exited 0 (ascii "A, 1024, 535" ++ (line_end ++ (ascii "B, 8192, 535" ++ line_end))))

second_fits :
    allocate_gpu_resources (some (pos 4096)) two
    ≡ ok (
        cuda
          (record { name = ascii "B"; memory_mb = pos 8192; driver_version = ascii "535" })
          (pos 4096))
unfolding drop_spaces drop_last_spaces split_on digits_from devices_of check_cuda_availability
    first_suitable allocate_cuda allocate_gpu_resources
second_fits = refl

no_line :
    allocate_gpu_resources none (machine (exited 0 (ascii "No devices"))) ≡ rejected "IndexError"
unfolding drop_spaces drop_last_spaces split_on digits_from devices_of check_cuda_availability
    first_suitable first_cuda allocate_cuda allocate_gpu_resources
no_line = refl

on_cpu : allocate_gpu_resources none (machine no_run) ≡ ok (cpu (pos 16384000) (pos 4000))
unfolding drop_spaces drop_last_spaces split_on digits_from check_cuda_availability
    check_rocm_availability words_from ram_of_lines has_text starts_with allocate_gpu_resources
on_cpu = refl

-- nvidia-smi fails with text on its output: no device of CUDA, but no exception either.
failed :
    allocate_gpu_resources none (machine (exited 9 (ascii "Error")))
    ≡ ok (cpu (pos 16384000) (pos 4000))
unfolding drop_spaces drop_last_spaces split_on digits_from check_cuda_availability
    check_rocm_availability words_from ram_of_lines has_text starts_with allocate_gpu_resources
failed = refl

-- The memory of a device of ROCm, by its name and by its dictionary.
abbrev meminfo : Run
meminfo = exited 0 (ascii "gfx 1" ++ (line_end ++ ascii "card0 used 16 of 64"))

by_name : rocm_memory_mb meminfo (named (ascii "card0")) ≡ 16384
unfolding rocm_memory_mb drop_spaces drop_last_spaces split_on memory_in has_text starts_with
    words_from first_number digits_from every
by_name = refl

by_dictionary : rocm_memory_mb meminfo (dictionary (ascii "card0")) ≡ 4096
unfolding rocm_memory_mb drop_spaces drop_last_spaces split_on memory_in
by_dictionary = refl
