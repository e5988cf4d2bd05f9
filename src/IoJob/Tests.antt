-- ===== src/IoJob/Tests.antt =====
-- Runs of I/O jobs on a small disk, and the theorems about them at those runs.
use cbe.IoJob.Correctness.{write-run, read-run}
use cbe.Prelude.{
  ℕ, ◌*◌, ◌≡◌, Result, arith, false, memcpy, throw, true, ◌<◌, ◌≢◌, ok, out_of_fuel, refl,
  unsupported_operation, ◌+◌,
}
use cbe.IoJob.Transfer.{run, run_ends}
use cbe.IoJob.Machine.{Step, execute-Step}
use cbe.Types.{Operation}
use cbe.IoJob.Progress.{IsValid, SameJob, execute-IsValid}
use cbe.IoJob.{IoJob, World, Turn, create, execute, pending}
use cbe.Interfaces.Samples.{quiet_library, Disk, disk_file, disk_file-Moves, disk_file-Serves}

abbrev disk : Disk
disk = record { at = 0; bytes = λ i. 3 * i }

abbrev world : World ℕ Disk
world = record { cbe = 0; handle = disk; io_data = λ i. 0 }

abbrev job : Operation → IoJob
job op = record {
  op = op;
  index = 0;
  state = pending;
  base_offset = 10;
  current_offset = 0;
  current_count = 5;
  success = false;
  completed = false;
}

abbrev or_else : Turn ℕ Disk → Result (Turn ℕ Disk) → Turn ℕ Disk
or_else d (ok t) = t
or_else d (throw e) = d

abbrev idle_turn : Operation → Turn ℕ Disk
idle_turn op = record { progress = false; job = job op; world = world }

first : Turn ℕ Disk
unfolding execute
first =
    or_else (idle_turn Operation.read) (execute quiet_library disk_file (job Operation.read) world)

whole : Operation → Turn ℕ Disk
unfolding run execute
whole op = or_else (idle_turn op) (run quiet_library disk_file 20 (job op) world)

-- The first call moves two of the five bytes; three calls complete the job.
first_part :
    (first.job.current_offset ≡ 2) × (first.job.current_count ≡ 3) × (first.job.state ≡ pending)
unfolding first
first_part = (refl, refl, refl)

whole_done :
    ((whole Operation.read).job.completed ≡ true) × ((whole Operation.read).world.io_data 4 ≡ 42)
unfolding whole memcpy
whole_done = (refl, refl)

-- An unsupported operation is refused when the job is created.
create_refuses : create Operation.rekey 0 10 5 ≡ throw unsupported_operation
unfolding create
create_refuses = refl

execute-Step_example : Step 1 (job Operation.read) first.progress first.job
unfolding first
execute-Step_example =
    execute-Step 1 quiet_library disk_file (job Operation.read) world first disk_file-Moves
      (omega arith) refl

job-IsValid : (op : Operation) → IsValid 5 (job op)
job-IsValid op = record { amount = refl; small = omega arith; whole = λ n e. cc; ends = λ e. cc }

execute-IsValid_example : IsValid 5 first.job × SameJob (job Operation.read) first.job
unfolding first
execute-IsValid_example =
    execute-IsValid 1 quiet_library disk_file disk_file-Moves 5 (job Operation.read) world first
      (job-IsValid Operation.read) refl

run_ends_example : run quiet_library disk_file 20 (job Operation.write) world ≢ throw out_of_fuel
run_ends_example =
    run_ends quiet_library disk_file disk_file-Moves 20 5 (job Operation.write) world
      (job-IsValid Operation.write) refl (omega arith)

read-run_example :
    ((i : ℕ) → i < 5 → (whole Operation.read).world.io_data i ≡ 3 * (10 + i))
    × ((i : ℕ) → (whole Operation.read).world.handle.bytes i ≡ 3 * i)
unfolding whole create
read-run_example =
    read-run quiet_library disk_file 1 disk_file-Moves disk_file-Serves (λ i. 3 * i) 5 10 0 20
      (job Operation.read) world (whole Operation.read) (omega arith) refl (λ i. refl) refl refl
      refl

write-run_example :
    (whole Operation.write).world.handle.bytes 12 ≡ memcpy (λ i. 3 * i) 10 (λ i. 0) 0 5 12
unfolding whole create
write-run_example =
    write-run quiet_library disk_file 1 disk_file-Moves disk_file-Serves (λ i. 0) (λ i. 3 * i) 5 10
      0 20 (job Operation.write) world (whole Operation.write) (omega arith) refl (λ i. refl)
      (λ i. refl) refl refl refl 12
