-- ===== src/Replay.antt =====
-- src/app/vfs_replay/component.cc, class `Vfs_replay`: reads, writes and syncs that a configuration
-- lists, replayed one after the other on a file of Genode's virtual file system.
--
-- The file is the interface `BlockFile`, the one of the block back end, since the calls are the
-- same. A `switch` whose cases fall through is one function for each case, each of which calls the
-- next. The XML nodes are a list of `Node`, with the type as a list of characters. Log output is
-- left out; the buffers are as long as the configuration says.
pub mod Loop
pub mod Bounds
pub mod Sync
pub mod Steps
pub mod Memory
pub mod Order
pub mod Termination
pub mod Tests
use cbe.Prelude.{
  ℕ, ◌+◌, ◌-◌, ◌^◌, suc, zero, Bool, true, false, ◌==◌, ◌||◌, ltb, not, if◌then◌else◌, Bytes,
  memcpy, Result, ok, throw, ◌>>=◌, buffer_too_small, List, [], ◌∷◌, Option, some, none,
}
use cbe.Types.{u64}
use cbe.Interfaces.{
  BlockFile, ReadReply, WriteReply, ReadResult, read_ok, read_queued, read_err_io, read_err_invalid,
  read_err_interrupt, read_err_again, read_err_would_block, WriteResult, write_ok, write_err_io,
  write_err_invalid, write_err_interrupt, write_err_again, write_err_would_block,
  insufficient_buffer, SyncResult, sync_ok, sync_queued, sync_err_invalid,
}

-- `Request::Type`
pub data RequestType : Type 0 where
  invalid read write sync : RequestType

-- `Request::State`; the source never enters ERROR
pub data RequestState : Type 0 where
  none_state : RequestState
  read_pending read_in_progress read_complete : RequestState
  write_pending write_in_progress write_complete : RequestState
  sync_pending sync_in_progress sync_complete : RequestState
  error_state : RequestState

pub record Request : Type 0 where
  pub type : RequestType
  pub state : RequestState
  pub offset : ℕ
  pub count : ℕ
  pub out_count : ℕ
  pub current_offset : ℕ
  pub current_count : ℕ
  pub success : Bool
  pub complete : Bool

-- the literal in `kick_off`
abbrev pub empty_request : Request
empty_request = record {
  type = RequestType.invalid;
  state = none_state;
  offset = 0;
  count = 0;
  out_count = 0;
  current_offset = 0;
  current_count = 0;
  success = false;
  complete = false;
}

-- What a call has at hand beside the request: the file, and the two buffers with their sizes.
pub record Files (H : Type 0) : Type 0 where
  pub handle : H
  pub write_buffer : Bytes
  pub write_size : ℕ
  pub read_buffer : Bytes
  pub read_size : ℕ

-- What one of `_read`, `_write` and `_sync` hands back.
pub record Turn (H : Type 0) : Type 0 where
  pub progress : Bool
  pub request : Request
  pub files : Files H

-- `strcmp` on as many characters as the name has: a name with more behind it is taken as well.
abbrev pub starts_with : List ℕ → List ℕ → Bool
starts_with [] text = true
starts_with (c ∷ cs) [] = false
starts_with (c ∷ cs) (d ∷ ds) = if c == d then starts_with cs ds else false

abbrev pub read_name : List ℕ
read_name = b'r' ∷ b'e' ∷ b'a' ∷ b'd' ∷ []

abbrev pub write_name : List ℕ
write_name = b'w' ∷ b'r' ∷ b'i' ∷ b't' ∷ b'e' ∷ []

abbrev pub sync_name : List ℕ
sync_name = b's' ∷ b'y' ∷ b'n' ∷ b'c' ∷ []

unfoldable pub string_to_type : List ℕ → RequestType
string_to_type text =
    if starts_with read_name text
    then RequestType.read
    else if starts_with write_name text
    then RequestType.write
    else if starts_with sync_name text
    then RequestType.sync
    else RequestType.invalid

-- `READ_OK` and `WRITE_OK`: both numbers wrap at 64 bits.
abbrev pub moved : ℕ → Request → Request
moved out r = record r {
  current_offset = u64 (r.current_offset + out);
  current_count = u64 (r.current_count + 2 ^ 64 - out);
  success = true;
}

-- What a reply of the file means for the request: wait, a part was moved, or the end.
pub data Outcome : Type 0 where
  waits moves fails : Outcome

unfoldable pub read_outcome : ReadResult → Outcome
read_outcome read_queued = waits
read_outcome read_err_interrupt = waits
read_outcome read_err_again = waits
read_outcome read_err_would_block = waits
read_outcome read_ok = moves
read_outcome read_err_io = fails
read_outcome read_err_invalid = fails

unfoldable pub write_outcome : WriteResult → Outcome
write_outcome insufficient_buffer = waits
write_outcome write_err_again = waits
write_outcome write_err_interrupt = waits
write_outcome write_err_would_block = waits
write_outcome write_ok = moves
write_outcome write_err_io = fails
write_outcome write_err_invalid = fails

module _ {H : Type 0} (fs : BlockFile H) where
  -- the last case, the same in all three
  unfoldable pub finish : Request → Files H → Turn H
  finish r w = record {
    progress = true;
    request = record r { state = none_state; complete = true };
    files = w;
  }

  -- The end of the case IN_PROGRESS. Where only a part was moved, the source returns what the cases
  -- before made of `progress`, which is not set again.
  unfoldable pub settle : RequestState → Bool → Request → Files H → Turn H
  unfolding finish
  settle pending progress r w =
      if r.current_count == 0
      then finish r w
      else record { progress = progress; request = record r { state = pending }; files = w }

  unfoldable pub conclude : Outcome → RequestState → Bool → ℕ → Request → Files H → Turn H
  unfolding settle finish
  conclude waits pending progress out r w = record { progress = progress; request = r; files = w }
  conclude moves pending progress out r w = settle pending progress (moved out r) w
  conclude fails pending progress out r w = finish (record r { success = false }) w

  -- Every part of a read goes to the start of the buffer.
  abbrev pub read_call : Request → Files H → ReadReply H
  read_call r w = BlockFile.complete_read fs w.read_buffer r.current_count w.handle

  unfoldable pub after_read : ReadReply H → Request → Files H → Files H
  after_read reply r w = record w {
    handle = reply.handle;
    read_buffer = memcpy w.read_buffer 0 reply.stored 0 r.current_count;
  }

  -- `case READ_IN_PROGRESS`
  unfoldable pub in_read : Bool → Request → Files H → Turn H
  unfolding read_outcome conclude after_read
  in_read progress r w =
      let reply = read_call r w in
      conclude (read_outcome reply.result) read_pending progress reply.out_count r
        (after_read reply r w)

  -- `case READ_PENDING`
  unfoldable pub queue_read : Bool → Request → Files H → Turn H
  unfolding in_read
  queue_read progress r w =
      let (queued, h) =
        BlockFile.queue_read fs r.current_count (BlockFile.seek fs r.current_offset w.handle) in
      if queued
      then in_read true (record r { state = read_in_progress }) (record w { handle = h })
      else record { progress = progress; request = r; files = record w { handle = h } }

  -- `_read`, by the state of the request
  unfoldable pub read_in : RequestState → Request → Files H → Result (Turn H)
  unfolding queue_read in_read finish
  read_in none_state r w =
      if ltb w.read_size r.count
      then throw buffer_too_small
      else ok (queue_read true (record r { state = read_pending }) w)
  read_in read_pending r w = ok (queue_read false r w)
  read_in read_in_progress r w = ok (in_read false r w)
  read_in read_complete r w = ok (finish r w)
  read_in _ r w = ok (record { progress = false; request = r; files = w })

  unfoldable pub run_read : Request → Files H → Result (Turn H)
  unfolding read_in
  run_read r w = read_in r.state r w

  -- Every part of a write is taken from the start of the buffer.
  abbrev pub write_call : Request → Files H → WriteReply H
  write_call r w = BlockFile.write fs w.write_buffer r.current_count w.handle

  -- `case WRITE_IN_PROGRESS`
  unfoldable pub in_write : Bool → Request → Files H → Turn H
  unfolding write_outcome conclude
  in_write progress r w =
      let reply = write_call r w in
      conclude (write_outcome reply.result) write_pending progress reply.out_count r
        (record w { handle = reply.handle })

  -- `case WRITE_PENDING`
  unfoldable pub seek_write : Request → Files H → Turn H
  unfolding in_write
  seek_write r w =
      in_write true (record r { state = write_in_progress })
        (record w { handle = BlockFile.seek fs r.current_offset w.handle })

  -- `_write`, by the state of the request
  unfoldable pub write_in : RequestState → Request → Files H → Result (Turn H)
  unfolding seek_write in_write finish
  write_in none_state r w =
      if ltb w.write_size r.count
      then throw buffer_too_small
      else ok (seek_write (record r { state = write_pending }) w)
  write_in write_pending r w = ok (seek_write r w)
  write_in write_in_progress r w = ok (in_write false r w)
  write_in write_complete r w = ok (finish r w)
  write_in _ r w = ok (record { progress = false; request = r; files = w })

  unfoldable pub run_write : Request → Files H → Result (Turn H)
  unfolding write_in
  run_write r w = write_in r.state r w

  -- the results of `complete_sync`
  unfoldable pub conclude_sync : SyncResult → Bool → Request → Files H → Turn H
  unfolding finish
  conclude_sync sync_queued progress r w = record { progress = progress; request = r; files = w }
  conclude_sync sync_err_invalid progress r w = finish (record r { success = false }) w
  conclude_sync sync_ok progress r w = finish (record r { success = true }) w

  -- `case SYNC_IN_PROGRESS`
  unfoldable pub in_sync : Bool → Request → Files H → Turn H
  unfolding conclude_sync
  in_sync progress r w =
      let (result, h) = BlockFile.complete_sync fs w.handle in
      conclude_sync result progress r (record w { handle = h })

  -- `case SYNC_PENDING`
  unfoldable pub queue_sync : Bool → Request → Files H → Turn H
  unfolding in_sync
  queue_sync progress r w =
      let (queued, h) = BlockFile.queue_sync fs w.handle in
      if queued
      then in_sync true (record r { state = sync_in_progress }) (record w { handle = h })
      else record { progress = progress; request = r; files = record w { handle = h } }

  -- `_sync`, by the state of the request
  unfoldable pub sync_in : RequestState → Request → Files H → Turn H
  unfolding queue_sync in_sync finish
  sync_in none_state r w = queue_sync true (record r { state = sync_pending }) w
  sync_in sync_pending r w = queue_sync false r w
  sync_in sync_in_progress r w = in_sync false r w
  sync_in sync_complete r w = finish r w
  sync_in _ r w = record { progress = false; request = r; files = w }

  unfoldable pub run_sync : Request → Files H → Turn H
  unfolding sync_in
  run_sync r w = sync_in r.state r w
