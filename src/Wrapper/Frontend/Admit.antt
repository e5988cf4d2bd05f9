-- ===== src/Wrapper/Frontend/Admit.antt =====
-- src/lib/vfs/cbe/vfs.cc, the first stages of `_handle_cbe_frontend`: pending requests are
-- handed to the CBE, those of the client after a check of their range.
use cbe.Interfaces.{Library}
use cbe.Prelude.{Bool, if◌then◌else◌, ltb, not, ◌&&◌, ◌||◌, false, ◌+◌}
use cbe.Wrapper.{
  Wrapper, helper_pending, frontend_pending, HelperState, set_frontend, FrontendState,
}
use cbe.Types.{u64, Request}

-- What a stage hands on: go on with the function, or return from it, with the progress so far.
pub data Flow (W : Type 0) : Type 0 where
  go stop : Bool → W → Flow W

-- The three tests that reject a request, with the sums of the source, which wrap at 64 bits.
unfoldable pub out_of_range : {L : Type 0} → Library L → Request → L → Bool
out_of_range lib r l =
    let max = Library.max_vba lib l in
    ltb max r.block_number
    || ltb (u64 (r.block_number + r.count)) r.block_number
    || ltb (u64 (max + 1)) (u64 (r.block_number + r.count))

module _ {L C H : Type 0} (lib : Library L) where
  unfoldable pub submit_helper_read : Wrapper L C H → Wrapper L C H
  submit_helper_read w =
      if helper_pending w.helper_read && Library.client_request_acceptable lib w.cbe
      then record w {
        cbe = Library.submit_client_request lib w.helper_read.cbe_request w.frontend.snap_id w.cbe;
        helper_read = record w.helper_read { state = HelperState.in_progress };
      }
      else w

  unfoldable pub submit_helper_write : Wrapper L C H → Wrapper L C H
  submit_helper_write w =
      if helper_pending w.helper_write && Library.client_request_acceptable lib w.cbe
      then record w {
        cbe = Library.submit_client_request lib w.helper_write.cbe_request w.frontend.snap_id w.cbe;
        helper_write = record w.helper_write { state = HelperState.in_progress };
      }
      else w

  unfoldable pub submit_helpers : Wrapper L C H → Wrapper L C H
  unfolding submit_helper_read submit_helper_write
  submit_helpers w = submit_helper_write (submit_helper_read w)

  unfoldable pub submit_frontend : Wrapper L C H → Flow (Wrapper L C H)
  unfolding out_of_range
  submit_frontend w =
      if not (frontend_pending w.frontend)
      then go false w
      else if out_of_range lib w.frontend.cbe_request w.cbe
      then stop false (set_frontend FrontendState.error_eof w)
      else if Library.client_request_acceptable lib w.cbe
      then go false (record w {
        cbe = Library.submit_client_request lib w.frontend.cbe_request w.frontend.snap_id w.cbe;
        frontend = record w.frontend { state = FrontendState.in_progress };
      })
      else go false w
