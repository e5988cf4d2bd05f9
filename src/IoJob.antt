-- ===== src/IoJob.antt =====
-- src/lib/vfs/cbe/io_job.h: one request of the CBE to the block back end, carried out in as many
-- partial transfers as the back end makes of it.
--
-- The members of `Io_job` are the record `IoJob`; what a job shares with others, the CBE, the
-- handle of the back end and the I/O buffer, is the record `World`. A `switch` whose cases fall
-- through is one function for each case, each of which calls the next. The position in the back
-- end is not cut to 64 bits, which matters only in a job that reaches beyond 2^64.
pub mod Machine
pub mod Progress
pub mod Transfer
pub mod Reading
pub mod Writing
pub mod Correctness
pub mod Calls
pub mod Tests
use cbe.Prelude.{
  ℕ, ◌+◌, ◌-◌, ◌%◌, ◌^◌, Bool, true, false, ◌&&◌, ◌||◌, ◌==◌, if◌then◌else◌, Bytes, memcpy, Result,
  ok, throw, ◌>>=◌, unsupported_operation,
}
use cbe.Types.{Operation, Request, item, u64}
use cbe.Interfaces.{
  Library, BlockFile, ReadResult, read_ok, read_queued, read_err_io, read_err_invalid,
  read_err_interrupt, read_err_again, read_err_would_block, WriteResult, write_ok, write_err_io,
  write_err_invalid, write_err_interrupt, write_err_again, write_err_would_block,
  insufficient_buffer, SyncResult, sync_ok, sync_queued, sync_err_invalid, ReadReply, WriteReply,
}

pub data State : Type 0 where
  pending in_progress complete : State

pub record IoJob : Type 0 where
  pub op : Operation
  pub index : ℕ
  pub state : State
  pub base_offset : ℕ
  pub current_offset : ℕ
  pub current_count : ℕ
  pub success : Bool
  pub completed : Bool

pub record World (L H : Type 0) : Type 0 where
  pub cbe : L
  pub handle : H
  pub io_data : Bytes

-- `_initial_state`
pub initial_state : Operation → Result State
initial_state Operation.read = ok pending
initial_state Operation.write = ok pending
initial_state Operation.sync = ok pending
initial_state _ = throw unsupported_operation

-- the constructor
pub create : Operation → ℕ → ℕ → ℕ → Result IoJob
unfolding initial_state
create op index base_offset length = initial_state op >>= λ state. ok (record {
  op = op;
  index = index;
  state = state;
  base_offset = base_offset;
  current_offset = 0;
  current_count = length;
  success = false;
  completed = false;
})

-- What one call of `execute` hands back: whether there was progress, and the states after it.
pub record Turn (L H : Type 0) : Type 0 where
  pub progress : Bool
  pub job : IoJob
  pub world : World L H

-- After a transfer that took place or failed: `_current_count -= out` wraps at 64 bits.
abbrev pub advance : ℕ → IoJob → IoJob
advance out j = record j {
  current_offset = j.current_offset + out;
  current_count = u64 (j.current_count + 2 ^ 64 - out);
  success = true;
}

abbrev pub failed : IoJob → IoJob
failed j = record j { success = false }

-- Which way a reply of the back end sends the job: wait, go on with a part done, or fail.
pub data Outcome : Type 0 where
  waits moves fails : Outcome

pub read_outcome : ReadResult → Outcome
read_outcome read_queued = waits
read_outcome read_err_interrupt = waits
read_outcome read_err_again = waits
read_outcome read_err_would_block = waits
read_outcome read_ok = moves
read_outcome read_err_io = fails
read_outcome read_err_invalid = fails

pub write_outcome : WriteResult → Outcome
write_outcome insufficient_buffer = waits
write_outcome write_err_again = waits
write_outcome write_err_interrupt = waits
write_outcome write_err_would_block = waits
write_outcome write_ok = moves
write_outcome write_err_io = fails
write_outcome write_err_invalid = fails

module _ {L H : Type 0} (lib : Library L) (fs : BlockFile H) where
  -- `case State::COMPLETE`, the same in all three operations
  pub finish : IoJob → World L H → Turn L H
  finish j w = record {
    progress = true;
    job = record j { completed = true };
    world = record w { cbe = Library.io_request_completed lib j.index j.success w.cbe };
  }

  -- The end of `case State::IN_PROGRESS`: complete, or pending again after a partial transfer.
  pub settle : IoJob → World L H → Turn L H
  unfolding finish
  settle j w =
      if j.current_count == 0
      then finish (record j { state = complete }) w
      else record { progress = true; job = record j { state = pending }; world = w }

  pub conclude : Outcome → Bool → ℕ → IoJob → World L H → Turn L H
  unfolding settle finish
  conclude waits progress out j w = record { progress = progress; job = j; world = w }
  conclude moves progress out j w = settle (advance out j) w
  conclude fails progress out j w = finish (record (failed j) { state = complete }) w

  abbrev pub read_call : IoJob → World L H → ReadReply H
  read_call j w =
      BlockFile.complete_read fs (λ i. w.io_data (j.current_offset + i)) j.current_count w.handle

  pub after_read : ReadReply H → IoJob → World L H → World L H
  after_read r j w = record w {
    handle = r.handle;
    io_data = memcpy w.io_data j.current_offset r.stored 0 j.current_count;
  }

  -- `_read`, `case State::IN_PROGRESS`
  pub read_in_progress : Bool → IoJob → World L H → Result (Turn L H)
  unfolding after_read read_outcome item conclude
  read_in_progress progress j w = item w.io_data j.index >>= λ _.
      let r = read_call j w in
      ok (conclude (read_outcome r.result) progress r.out_count j (after_read r j w))

  -- `_read`, `case State::PENDING`
  pub read_pending : IoJob → World L H → Result (Turn L H)
  unfolding read_in_progress
  read_pending j w =
      let (queued, h) =
        BlockFile.queue_read fs j.current_count
          (BlockFile.seek fs (j.base_offset + j.current_offset) w.handle) in
      if queued
      then read_in_progress true (record j { state = in_progress })
          (record w { cbe = Library.io_request_in_progress lib j.index w.cbe; handle = h })
      else ok (record { progress = false; job = j; world = record w { handle = h } })

  pub read : State → IoJob → World L H → Result (Turn L H)
  unfolding read_pending read_in_progress finish
  read pending j w = read_pending j w
  read in_progress j w = read_in_progress false j w
  read complete j w = ok (finish j w)

  abbrev pub write_call : IoJob → World L H → WriteReply H
  write_call j w =
      BlockFile.write fs (λ i. w.io_data (j.current_offset + i)) j.current_count w.handle

  -- `_write`, `case State::IN_PROGRESS`
  pub write_in_progress : Bool → IoJob → World L H → Result (Turn L H)
  unfolding write_outcome item conclude
  write_in_progress progress j w = item w.io_data j.index >>= λ _.
      let r = write_call j w in
      ok (conclude (write_outcome r.result) progress r.out_count j (record w { handle = r.handle }))

  -- `_write`, `case State::PENDING`
  pub write_pending : IoJob → World L H → Result (Turn L H)
  unfolding write_in_progress
  write_pending j w =
      write_in_progress true (record j { state = in_progress })
        (record w {
          cbe = Library.io_request_in_progress lib j.index w.cbe;
          handle = BlockFile.seek fs (j.base_offset + j.current_offset) w.handle;
        })

  pub write : State → IoJob → World L H → Result (Turn L H)
  unfolding write_pending write_in_progress finish
  write pending j w = write_pending j w
  write in_progress j w = write_in_progress false j w
  write complete j w = ok (finish j w)

  pub conclude_sync : SyncResult → Bool → IoJob → World L H → Turn L H
  unfolding finish
  conclude_sync sync_queued progress j w = record { progress = progress; job = j; world = w }
  conclude_sync sync_err_invalid progress j w =
      finish (record j { success = false; state = complete }) w
  conclude_sync sync_ok progress j w = finish (record j { success = true; state = complete }) w

  -- `_sync`, `case State::IN_PROGRESS`
  pub sync_in_progress : Bool → IoJob → World L H → Turn L H
  unfolding conclude_sync
  sync_in_progress progress j w =
      let (result, h) = BlockFile.complete_sync fs w.handle in
      conclude_sync result progress j (record w { handle = h })

  -- `_sync`, `case State::PENDING`
  pub sync_pending : IoJob → World L H → Turn L H
  unfolding sync_in_progress
  sync_pending j w =
      let (queued, h) = BlockFile.queue_sync fs w.handle in
      if queued
      then sync_in_progress true (record j { state = in_progress })
          (record w { cbe = Library.io_request_in_progress lib j.index w.cbe; handle = h })
      else record { progress = false; job = j; world = record w { handle = h } }

  pub sync : State → IoJob → World L H → Turn L H
  unfolding sync_pending sync_in_progress finish
  sync pending j w = sync_pending j w
  sync in_progress j w = sync_in_progress false j w
  sync complete j w = finish j w

  pub execute_op : Operation → IoJob → World L H → Result (Turn L H)
  unfolding read write sync
  execute_op Operation.read j w = read j.state j w
  execute_op Operation.write j w = write j.state j w
  execute_op Operation.sync j w = ok (sync j.state j w)
  execute_op _ j w = ok (record { progress = false; job = j; world = w })

  -- `execute`
  pub execute : IoJob → World L H → Result (Turn L H)
  unfolding execute_op
  execute j w = execute_op j.op j w
