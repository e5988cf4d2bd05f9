-- ===== src/Wrapper/Frontend/Complete.antt =====
-- src/lib/vfs/cbe/vfs.cc, the loop of `_handle_cbe_frontend` that collects completed requests.
use cbe.Types.{Operation, Request, no_request, set_success, valid}
use cbe.Interfaces.{Library}
use cbe.Prelude.{
  Bool, if◌then◌else◌, Option, some, ℕ, Result, true, false, none, throw, out_of_fuel, suc, not, ok,
  zero,
}
use cbe.Wrapper.{Wrapper, HelperState, ControlState, FrontendState, LastResult, helper_in_progress}

abbrev pub result_of : Bool → LastResult
result_of success = if success then LastResult.success else LastResult.failed

module _ {L C H : Type 0} where
  unfoldable pub rekeyed : Bool → Wrapper L C H → Wrapper L C H
  rekeyed success w = record w {
    rekey_obj = record w.rekey_obj { state = ControlState.idle; last_result = result_of success };
  }

  unfoldable pub extended : Bool → Wrapper L C H → Wrapper L C H
  extended success w = record w {
    extend_obj = record w.extend_obj { state = ControlState.idle; last_result = result_of success };
  }

  -- The operations that the loop goes on after with `continue`; nothing for any other.
  unfoldable pub complete_control : Operation → Bool → Wrapper L C H → Option (Wrapper L C H)
  unfolding rekeyed extended
  complete_control Operation.rekey success w = some (rekeyed success w)
  complete_control Operation.extend_vbd success w = some (extended success w)
  complete_control Operation.extend_ft success w = some (extended success w)
  complete_control Operation.create_snapshot success w = some (record w {
    create_snapshot_request = record w.create_snapshot_request { cbe_request = no_request };
  })
  complete_control Operation.discard_snapshot success w = some (record w {
    discard_snapshot_request = record w.discard_snapshot_request { cbe_request = no_request };
  })
  complete_control _ success w = none

  -- A request of the client or of a helper that failed: the client's request is complete, and
  -- the loop is left.
  unfoldable pub complete_failed : Wrapper L C H → Wrapper L C H
  complete_failed w = record w {
    helper_read = record w.helper_read { state = HelperState.none };
    helper_write = record w.helper_write { state = HelperState.none };
    frontend = record w.frontend {
      state = FrontendState.complete;
      cbe_request = set_success false w.frontend.cbe_request;
    };
  }

  -- One that succeeded is the helper read's, the helper write's or the client's, in this order.
  unfoldable pub complete_data : Wrapper L C H → Wrapper L C H
  complete_data w =
      if helper_in_progress w.helper_read
      then record w {
        helper_read = record w.helper_read {
          state = HelperState.complete;
          cbe_request = set_success true w.helper_read.cbe_request;
        };
      }
      else if helper_in_progress w.helper_write
      then record w {
        helper_write = record w.helper_write {
          state = HelperState.complete;
          cbe_request = set_success true w.helper_write.cbe_request;
        };
      }
      else record w {
        frontend = record w.frontend {
          state = FrontendState.complete;
          cbe_request = set_success true w.frontend.cbe_request;
        };
      }

  -- One round of the loop, behind the drop of the completed request: whether the loop goes on.
  unfoldable pub complete_request : Request → Wrapper L C H → Bool × Wrapper L C H
  unfolding complete_control complete_failed complete_data
  complete_request r w = elim (complete_control r.operation r.success w) [
    | some v ↦ (true, v)
    | none ↦ if r.success then (true, complete_data w) else (false, complete_failed w)
  ]

module _ {L C H : Type 0} (lib : Library L) where
  abbrev pub drop : Request → Wrapper L C H → Wrapper L C H
  drop r w = record w { cbe = Library.drop_completed_client_request lib r w.cbe }

  -- The loop. Its fuel bounds the requests that are collected in one call.
  unfoldable pub drain : ℕ → Bool → Wrapper L C H → Result (Bool × Wrapper L C H)
  unfolding complete_request
  drain zero progress w = throw out_of_fuel
  drain (suc fuel) progress w =
      let r = Library.peek_completed_client_request lib w.cbe in
      let next = complete_request r (drop r w) in
      let rest = drain fuel true next.1 in
      if not (valid r) then ok (progress, w) else if next.0 then rest else ok (true, next.1)
