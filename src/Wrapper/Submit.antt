-- ===== src/Wrapper/Submit.antt =====
-- src/lib/vfs/cbe/vfs.cc, `Wrapper::submit_frontend_request`: how a read, write or sync of a file
-- becomes a request for whole blocks, by way of a helper request where it is not aligned.
pub mod Ranges
use cbe.Prelude.{ℕ, Bool, if◌then◌else◌, leb, not, ◌%◌, ◌/◌, ◌-◌, ◌==◌, false, ◌||◌, ltb, true}
use cbe.Wrapper.{Wrapper, FrontendState, HelperState, frontend_idle}
use cbe.Types.{request, block_size, u32, Operation, is_op}

-- unaligned if any condition is true
abbrev pub unaligned : ℕ → ℕ → Bool
unaligned offset count = not (offset % block_size == 0) || ltb count block_size

-- the bytes of an aligned request that make up whole blocks
abbrev pub trimmed : ℕ → ℕ
trimmed count = if count % block_size == 0 then count else count - count % block_size

-- the bytes of an unaligned request that lie in its first block
abbrev pub in_block : ℕ → ℕ → ℕ
in_block offset count =
    if leb (block_size - offset % block_size) count then block_size - offset % block_size else count

module _ {L C H : Type 0} where
  unfoldable pub submit_sync : Wrapper L C H → Wrapper L C H
  submit_sync w = record w {
    frontend = record w.frontend {
      state = FrontendState.pending;
      count = 0;
      cbe_request = request Operation.sync 0 0 1;
      snap_id = 0;
    };
  }

  unfoldable pub submit_unaligned : ℕ → ℕ → ℕ → Operation → ℕ → Wrapper L C H → Wrapper L C H
  submit_unaligned offset address count op snap_id w = record w {
    helper_read = record w.helper_read {
      state = HelperState.pending;
      cbe_request = request Operation.read (offset / block_size) w.helper_read.address 1;
    };
    frontend = record {
      state = FrontendState.in_progress;
      count = in_block offset count;
      cbe_request = request op (offset / block_size) address (u32 (count / block_size));
      snap_id = snap_id;
      offset = offset;
      helper_offset = offset % block_size;
    };
  }

  unfoldable pub submit_aligned : ℕ → ℕ → ℕ → Operation → ℕ → Wrapper L C H → Wrapper L C H
  submit_aligned offset address count op snap_id w = record w {
    frontend = record w.frontend {
      state = FrontendState.pending;
      count = trimmed count;
      cbe_request = request op (offset / block_size) address (u32 (trimmed count / block_size));
      snap_id = snap_id;
      offset = offset;
    };
  }

  -- `submit_frontend_request`: the seek position of the handle, the address and the length of the
  -- buffer, the operation and the snapshot; `false` if a request is under way.
  unfoldable pub submit_frontend_request :
      ℕ → ℕ → ℕ → Operation → ℕ → Wrapper L C H → Bool × Wrapper L C H
  unfolding submit_sync submit_unaligned submit_aligned
  submit_frontend_request offset address count op snap_id w =
      if not (frontend_idle w.frontend)
      then (false, w)
      else if is_op op Operation.sync
      then (true, submit_sync w)
      else if unaligned offset count
      then (true, submit_unaligned offset address count op snap_id w)
      else (true, submit_aligned offset address count op snap_id w)
