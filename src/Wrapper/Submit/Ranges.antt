-- ===== src/Wrapper/Submit/Ranges.antt =====
-- Which bytes of a file a request submitted by `Wrapper::submit_frontend_request` is about.
use cbe.Wrapper.{Wrapper, frontend_idle, HelperState, FrontendState}
use cbe.Prelude.{ℕ, ◌≡◌, false, true, arith, ◌≢◌, ◌<◌, ◌*◌, ◌^◌, ◌+◌, ◌≤◌, ◌⊎◌, ◌/◌, ◌%◌}
use cbe.Wrapper.Submit.{submit_frontend_request, unaligned, in_block}
use cbe.Types.{block_size, Operation, request, u32}

module _ {L C H : Type 0} (offset address count : ℕ) (op : Operation) (snap_id : ℕ)
    (w : Wrapper L C H) where
  -- A request is taken exactly if none is under way, and a refused one changes nothing.
  pub submit_frontend_request_taken :
      ((submit_frontend_request offset address count op snap_id w).0 ≡ frontend_idle w.frontend)
      × (frontend_idle w.frontend ≡ false
          → (submit_frontend_request offset address count op snap_id w).1 ≡ w)
  unfolding submit_frontend_request
  submit_frontend_request_taken = (ground arith, λ h. ground arith)

  -- An unaligned read or write, submitted while no request is under way, goes through a helper
  -- read of the block that its first byte lies in. It covers, from its offset in that block on,
  -- as many of the bytes asked for as the block holds, so at least one if any was asked for;
  -- and it waits for the helper.
  pub submit_unaligned_range :
      frontend_idle w.frontend ≡ true
      → op ≢ Operation.sync
      → unaligned offset count ≡ true
      → let v = (submit_frontend_request offset address count op snap_id w).1 in
        (v.helper_read.state ≡ HelperState.pending)
        × (v.helper_read.cbe_request.operation ≡ Operation.read)
        × (v.helper_read.cbe_request.count ≡ 1)
        × (v.helper_read.cbe_request.block_number * block_size + v.frontend.helper_offset ≡ offset)
        × (v.frontend.helper_offset + v.frontend.count ≤ block_size)
        × (v.frontend.count ≤ count)
        × ((v.frontend.count ≡ count) ⊎ (v.frontend.helper_offset + v.frontend.count ≡ block_size))
        × (0 < count → 0 < v.frontend.count)
        × (v.frontend.state ≡ FrontendState.in_progress)
  unfolding submit_frontend_request
  submit_unaligned_range idle other un = ground arith

  -- An aligned read or write of fewer than 2^44 bytes, submitted while no request is under way,
  -- covers all whole blocks of the bytes asked for, from the block at its offset on, and no byte
  -- more; it leaves the helper requests alone.
  pub submit_aligned_range :
      frontend_idle w.frontend ≡ true
      → op ≢ Operation.sync
      → unaligned offset count ≡ false
      → count < 2 ^ 44
      → let v = (submit_frontend_request offset address count op snap_id w).1 in
        (v.frontend.cbe_request.block_number * block_size ≡ offset)
        × (v.frontend.cbe_request.count * block_size ≡ v.frontend.count)
        × (v.frontend.count ≤ count)
        × (count < v.frontend.count + block_size)
        × (0 < v.frontend.cbe_request.count)
        × (v.frontend.state ≡ FrontendState.pending)
        × (v.helper_read ≡ w.helper_read)
  unfolding submit_frontend_request
  submit_aligned_range idle other al small = ground arith

  -- The request of the client that an unaligned read or write leaves.
  pub submit_unaligned_frontend :
      frontend_idle w.frontend ≡ true
      → op ≢ Operation.sync
      → unaligned offset count ≡ true
      → (submit_frontend_request offset address count op snap_id w).1.frontend ≡ record {
        state = FrontendState.in_progress;
        count = in_block offset count;
        cbe_request = request op (offset / block_size) address (u32 (count / block_size));
        snap_id = snap_id;
        offset = offset;
        helper_offset = offset % block_size;
      }
  unfolding submit_frontend_request
  submit_unaligned_frontend idle other un = ground arith
