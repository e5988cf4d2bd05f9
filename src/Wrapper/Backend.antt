-- ===== src/Wrapper/Backend.antt =====
-- src/lib/vfs/cbe/vfs.cc, `Wrapper::_handle_cbe_backend`: one request of the CBE to the block
-- back end at a time, carried out by an I/O job.
use cbe.Prelude.{Option, Result, if◌then◌else◌, Bool, ok, ℕ, false, ◌*◌, ◌>>=◌}
use cbe.Interfaces.{Library, BlockFile}
use cbe.Wrapper.{Wrapper}
use cbe.IoJob.{IoJob, World, Turn, create, execute}
use cbe.Types.{block_size, u64, valid, Request}

-- the constructor's call, with the offset and the length in bytes
unfoldable pub construct_job : Request → ℕ → Result IoJob
construct_job r data_index =
    create r.operation data_index (u64 (r.block_number * block_size)) (u64 (r.count * block_size))

module _ {L C H : Type 0} (lib : Library L) (fs : BlockFile H) where
  -- The job that this call executes: the one under way, or a new one if the CBE has a request.
  unfoldable pub current_job : Wrapper L C H → Result (Option IoJob)
  unfolding construct_job
  current_job w = elim w.backend_job [
    | Option.some j ↦ ok (Option.some j)
    | Option.none ↦
        let (r, data_index) = Library.has_io_request lib w.cbe in
        if valid r then (construct_job r data_index >>= λ j. ok (Option.some j)) else ok Option.none
  ]

  abbrev pub world_of : Wrapper L C H → World L H
  world_of w = record { cbe = w.cbe; handle = w.handle; io_data = w.buffers.io_data }

  -- The job is destructed once it has completed.
  unfoldable pub after_turn : Turn L H → Wrapper L C H → Wrapper L C H
  after_turn t w = record w {
    cbe = t.world.cbe;
    handle = t.world.handle;
    buffers = record w.buffers { io_data = t.world.io_data };
    backend_job = if t.job.completed then Option.none else Option.some t.job;
  }

  unfoldable pub execute_job : Option IoJob → Wrapper L C H → Result (Bool × Wrapper L C H)
  unfolding after_turn
  execute_job Option.none w = ok (false, w)
  execute_job (Option.some j) w =
      execute lib fs j (world_of w) >>= λ t. ok (t.progress, after_turn t w)

  unfoldable pub handle_cbe_backend : Wrapper L C H → Result (Bool × Wrapper L C H)
  unfolding current_job execute_job
  handle_cbe_backend w = current_job w >>= λ j. execute_job j w
