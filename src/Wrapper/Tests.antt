-- ===== src/Wrapper/Tests.antt =====
-- Runs of the parts of src/lib/vfs/cbe/vfs.cc on small components, and the theorems about them
-- at those runs.
use cbe.Wrapper.Frontend.Merge.{unaligned_read, Fetched, unaligned_write}
use cbe.Wrapper.Frontend.Safety.{handle_cbe_frontend-Ends, drain_ends}
use cbe.Wrapper.Frontend.{handle_cbe_frontend}
use cbe.Wrapper.Frontend.Complete.{drain}
use cbe.Wrapper.Frontend.Admit.{out_of_range, submit_frontend, stop, go}
use cbe.Wrapper.Frontend.Helper.{finish_helper_read}
use cbe.Wrapper.Frontend.Range.{InRange, out_of_range_iff, submit_frontend_range}
use cbe.Wrapper.Frontend.Invariant.Data.{Ends}
use cbe.Wrapper.Submit.Ranges.{submit_unaligned_range, submit_aligned_range}
use cbe.Wrapper.Handle.Keeps.{fresh_wrapper-IsValid}
use cbe.Types.{Request, Operation, block_size, request, no_request}
use cbe.Wrapper.Submit.{submit_frontend_request, in_block}
use cbe.Interfaces.Samples.{Disk, prompt_library, prompt_library-Answers, prompt_library-Drains}
use cbe.Prelude.{
  Bytes, ◌*◌, ℕ, ◌≤◌, ◌<◌, refl, Bool, ◌≡◌, false, ◌+◌, memcpy, ok, true, ◌↔◌, ◌⊎◌, arith, ◌/◌,
}
use cbe.Interfaces.{Buffers, Library}
use cbe.Wrapper.Frontend.Invariant.{IsValid}
use cbe.Wrapper.{
  Wrapper, fresh_wrapper, HelperState, no_frontend_request, FrontendState, set_frontend,
}

abbrev disk : Disk
disk = record { at = 0; bytes = λ i. 3 * i }

abbrev buffers : Buffers
buffers = record { io_data = λ i. 0; plain_data = λ i. 0; cipher_data = λ i. 0 }

abbrev memory : Bytes
memory i = 5 * i

plugin : Wrapper Request ℕ Disk
unfolding fresh_wrapper
plugin = fresh_wrapper prompt_library 0 disk buffers memory 8192 16384

-- One byte short of a block, at offset 10: the bytes up to the end of the first block are taken.
submit_unaligned_range_example :
    let v = (submit_frontend_request 10 200 4095 Operation.write 0 plugin).1 in
    (v.helper_read.state ≡ HelperState.pending)
    × (v.helper_read.cbe_request.operation ≡ Operation.read)
    × (v.helper_read.cbe_request.count ≡ 1)
    × (v.helper_read.cbe_request.block_number * block_size + v.frontend.helper_offset ≡ 10)
    × (v.frontend.helper_offset + v.frontend.count ≤ block_size)
    × (v.frontend.count ≤ 4095)
    × ((v.frontend.count ≡ 4095) ⊎ (v.frontend.helper_offset + v.frontend.count ≡ block_size))
    × (0 < 4095 → 0 < v.frontend.count)
    × (v.frontend.state ≡ FrontendState.in_progress)
unfolding plugin
submit_unaligned_range_example =
    submit_unaligned_range 10 200 4095 Operation.write 0 plugin refl (λ e. cc) refl

submit_aligned_range_example :
    let v = (submit_frontend_request 8192 200 9000 Operation.read 0 plugin).1 in
    (v.frontend.cbe_request.block_number * block_size ≡ 8192)
    × (v.frontend.cbe_request.count * block_size ≡ v.frontend.count)
    × (v.frontend.count ≤ 9000)
    × (9000 < v.frontend.count + block_size)
    × (0 < v.frontend.cbe_request.count)
    × (v.frontend.state ≡ FrontendState.pending)
    × (v.helper_read ≡ plugin.helper_read)
unfolding plugin
submit_aligned_range_example =
    submit_aligned_range 8192 200 9000 Operation.read 0 plugin refl (λ e. cc) refl (omega arith)

-- A client at the end of the device, which has 100 blocks.
at_end : Wrapper Request ℕ Disk
unfolding plugin
at_end = record plugin {
  frontend = record no_frontend_request {
    state = FrontendState.pending;
    count = 8192;
    cbe_request = request Operation.read 99 200 2;
  };
}

at_end_refused :
    submit_frontend prompt_library at_end ≡ stop false (set_frontend FrontendState.error_eof at_end)
unfolding submit_frontend out_of_range at_end
at_end_refused = refl

out_of_range_iff_example :
    (out_of_range prompt_library (request Operation.read 99 200 2) no_request ≡ false)
    ↔ InRange (request Operation.read 99 200 2) 99
out_of_range_iff_example =
    out_of_range_iff prompt_library (request Operation.read 99 200 2) no_request (omega arith)
      (omega arith) (omega arith)

submit_frontend_range_example :
    let r = at_end.frontend.cbe_request in
    (InRange r 99
      × (Library.client_request_acceptable prompt_library at_end.cbe ≡ true)
      × (submit_frontend prompt_library at_end
          ≡ go false (record at_end {
            cbe = Library.submit_client_request prompt_library r at_end.frontend.snap_id at_end.cbe;
            frontend = record at_end.frontend { state = FrontendState.in_progress };
          })))
    ⊎ (InRange r 99
        × (Library.client_request_acceptable prompt_library at_end.cbe ≡ false)
        × (submit_frontend prompt_library at_end ≡ go false at_end))
    ⊎ ((¬ InRange r 99)
        × (submit_frontend prompt_library at_end
            ≡ stop false (set_frontend FrontendState.error_eof at_end)))
unfolding at_end
submit_frontend_range_example =
    submit_frontend_range prompt_library at_end refl (omega arith) (omega arith) (omega arith)

handle_cbe_frontend-Ends_example :
    Ends
      (λ r. IsValid prompt_library prompt_library-Answers r.1)
      (handle_cbe_frontend prompt_library 3 plugin)
unfolding plugin
handle_cbe_frontend-Ends_example =
    handle_cbe_frontend-Ends prompt_library prompt_library-Answers 3 plugin
      (fresh_wrapper-IsValid prompt_library prompt_library-Answers 0 disk buffers memory 8192 16384)

-- A read of the client that the CBE has just completed is collected in the first round.
busy_plugin : Wrapper Request ℕ Disk
unfolding plugin
busy_plugin = record plugin {
  cbe = request Operation.read 3 200 1;
  frontend = record no_frontend_request {
    state = FrontendState.in_progress;
    cbe_request = request Operation.read 3 200 1;
  };
}

drain_ends_example :
    (t : Bool × Wrapper Request ℕ Disk) × (drain prompt_library 2 false busy_plugin ≡ ok t)
unfolding busy_plugin
drain_ends_example =
    drain_ends prompt_library prompt_library-Answers prompt_library-Drains 2 false busy_plugin
      (omega arith)

-- A write and a read of 5 bytes at offset 4100, when the block with number 1 has been fetched.
abbrev file : Bytes
file i = 7 * i

fetched : Operation → Wrapper Request ℕ Disk
unfolding plugin
fetched op =
    let v = (submit_frontend_request 4100 200 5 op 0 plugin).1 in
    record v {
      helper_read = record v.helper_read {
        state = HelperState.complete;
        block_data = λ i. 7 * (4096 + i);
      };
    }

abbrev fetched-Fetched : (op : Operation) → Fetched file 4100 200 5 op 0 plugin (fetched op)
unfolding fetched
fetched-Fetched op = record { submitted = refl; fetched = refl; same_block = λ i h. refl }

unaligned_write_example :
    let v = (finish_helper_read false (fetched Operation.write)).1 in
    ((i : ℕ)
      → i < block_size
      → v.helper_write.block_data i
        ≡ memcpy file 4100
            (fetched Operation.write).memory
            200
            (in_block 4100 5)
            (4100 / block_size * block_size + i))
    × (v.helper_write.state ≡ HelperState.pending)
    × (v.helper_write.cbe_request.block_number
        ≡ (fetched Operation.write).helper_read.cbe_request.block_number)
    × (v.helper_read.state ≡ HelperState.none)
    × (v.frontend ≡ (fetched Operation.write).frontend)
    × (v.memory ≡ (fetched Operation.write).memory)
unfolding plugin
unaligned_write_example =
    unaligned_write file 4100 200 5 Operation.write 0 plugin (fetched Operation.write)
      (fetched-Fetched Operation.write) refl refl refl false

unaligned_read_example :
    let v = (finish_helper_read false (fetched Operation.read)).1 in
    ((i : ℕ)
      → v.memory i ≡ memcpy (fetched Operation.read).memory 200 file 4100 (in_block 4100 5) i)
    × (v.frontend.state ≡ FrontendState.complete)
    × (v.frontend.cbe_request.success ≡ (fetched Operation.read).helper_read.cbe_request.success)
    × (v.helper_read.state ≡ HelperState.none)
unfolding plugin
unaligned_read_example =
    unaligned_read file 4100 200 5 Operation.read 0 plugin (fetched Operation.read)
      (fetched-Fetched Operation.read) refl refl refl false
