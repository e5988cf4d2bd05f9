-- ===== src/Wrapper/Frontend.antt =====
-- src/lib/vfs/cbe/vfs.cc, `Wrapper::_handle_cbe_frontend`: the requests of the client and the
-- helper requests on their way into the CBE, and what comes back.
--
-- The function runs through the stages that are the functions below, in this order. A stage that
-- may `return` from the middle of the function yields a `Flow`.
pub mod Invariant
pub mod Safety
pub mod Range
pub mod Merge
pub mod Settled
pub mod Admit
pub mod Complete
pub mod Helper
pub mod Transfer
use cbe.Wrapper.Frontend.Admit.{stop, go}
use cbe.Prelude.{Bool, ℕ, Result, ◌>>=◌, ok}
use cbe.Interfaces.{Library}
use cbe.Wrapper.{Wrapper}
use Admit.{submit_helpers, submit_frontend}
use Complete.{drain}
use Helper.{finish_helper_read, finish_helper_write}
use Transfer.{client_read, client_write}

module _ {L C H : Type 0} (lib : Library L) where
  -- `cbe.execute`, which works on the three buffers
  unfoldable pub execute_cbe : Wrapper L C H → Bool × Wrapper L C H
  execute_cbe w =
      let (l, b) = Library.execute lib w.buffers w.cbe in
      (Library.execute_progress lib l, record w { cbe = l; buffers = b })

  -- The stages behind the client's own request: execute, collect, move data.
  unfoldable pub run_stages : ℕ → Wrapper L C H → Result (Bool × Wrapper L C H)
  unfolding execute_cbe
  run_stages fuel w =
      let (p, w1) = execute_cbe w in
      drain lib fuel p w1 >>= λ r.
      let (q, w2) = finish_helper_read r.0 r.1 in
      let (q', w3) = finish_helper_write q w2 in
      client_read lib q' w3 >>= λ f. elim f [ stop b v ↦ ok (b, v) | go b v ↦ client_write lib b v ]

  unfoldable pub handle_cbe_frontend : ℕ → Wrapper L C H → Result (Bool × Wrapper L C H)
  unfolding run_stages
  handle_cbe_frontend fuel w = elim (submit_frontend lib (submit_helpers lib w)) [
    | stop b v ↦ ok (b, v)
    | go b v ↦ run_stages fuel v
  ]
