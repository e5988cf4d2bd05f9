-- ===== src/Tester/Cbe.antt =====
-- src/app/cbe_tester/main.cc, `Main::_execute_cbe`: the tests that read, write, sync, create and
-- discard a snapshot. Each stage of the function tells whether it made progress.
use cbe.Prelude.{
  ℕ, Bool, true, false, ◌&&◌, ◌||◌, not, if◌then◌else◌, Result, ok, ◌>>=◌, Option, some, none,
}
use cbe.Types.{Request, Operation, request, valid, is_op}
use cbe.Types.Convert.{BlockRequest, BlockOperation, convert_from, convert_to}
use cbe.Interfaces.{Library}
use cbe.Tester.{
  with_requests, with_create_snapshot, with_discard_snapshot, submit_ack, create_snapshot_done,
  discard_snapshot_done, cbe_request_next,
}
use cbe.Tester.Main.{Parts, M, State}

-- `Block::Operation::valid`
abbrev pub is_valid_op : BlockOperation → Bool
is_valid_op BlockOperation.invalid = false
is_valid_op _ = true

module _ {L C K Jc Jd Ji D : Type 0} (env : Parts L C K Jc Jd Ji D) where
  abbrev pub lib : Library L
  lib = env.library

  -- the assignment of `_state` that follows each completion
  unfoldable pub next_state : M env → M env
  unfolding cbe_request_next
  next_state m = record m {
    state = if cbe_request_next m.block_session then State.cbe_run else State.invalid;
  }

  abbrev pub acceptable : M env → Bool
  acceptable m = Library.client_request_acceptable lib m.cbe

  unfoldable pub submit : Request → ℕ → M env → M env
  submit r id m = record m { cbe = Library.submit_client_request lib r id m.cbe }

  abbrev pub completed : M env → Request
  completed m = Library.peek_completed_client_request lib m.cbe

  unfoldable pub drop : M env → M env
  drop m = record m { cbe = Library.drop_completed_client_request lib (completed m) m.cbe }

  -- the requests of the tests to read, write and sync; what is answered is not looked at
  unfoldable pub accept_request : M env → Option BlockRequest → Result (Bool × M env)
  unfolding submit convert_to
  accept_request m none = ok (false, m)
  accept_request m (some r) =
      if not (is_valid_op r.type)
      then ok (false, m)
      else if not (acceptable m)
      then ok (false, m)
      else ok (true, record (submit (convert_to r) 0 m) { state = State.cbe_run })

  unfoldable pub accept_requests : M env → Result (Bool × M env)
  unfolding with_requests accept_request
  accept_requests m =
      let (s, called) = with_requests m.block_session in
      accept_request (record m { block_session = s }) called

  abbrev pub background : M env → Bool
  background m =
      m.rekey || m.deinitialize || m.extend_vbd || m.extend_ft || m.creating_snapshot
      || m.discard_snapshot

  unfoldable pub acknowledge : M env → Result (Bool × M env)
  unfolding drop convert_from submit_ack next_state
  acknowledge m =
      if background m
      then ok (false, m)
      else if not (valid (completed m))
      then ok (false, m)
      else (convert_from (completed m) >>= λ r.
          let dropped = drop m in
          ok (
            true,
            next_state (record dropped { block_session = submit_ack r dropped.block_session }),
          ))

  -- A snapshot to be created, or to be discarded: a CBE that takes no request is not asked again.
  unfoldable pub begin_create : M env → Option ℕ → Bool × M env
  unfolding submit
  begin_create m none = (false, m)
  begin_create m (some id) = if not (acceptable m) then (false, m) else (
    true,
    record (submit (request Operation.create_snapshot 0 0 1) 0 m) { creating_snapshot = true },
  )

  unfoldable pub start_create : M env → Result (Bool × M env)
  unfolding with_create_snapshot begin_create
  start_create m =
      let (s, called) = with_create_snapshot m.block_session in
      if m.creating_snapshot
      then ok (false, m)
      else ok (begin_create (record m { block_session = s }) called)

  unfoldable pub end_create : M env → Result (Bool × M env)
  unfolding create_snapshot_done drop next_state
  end_create m =
      if not m.creating_snapshot
      then ok (false, m)
      else if valid (completed m) && is_op (completed m).operation Operation.create_snapshot
      then (create_snapshot_done env.avl (completed m) m.block_session >>= λ s.
          ok (true, next_state (drop (record m { block_session = s; creating_snapshot = false }))))
      else ok (false, m)

  unfoldable pub begin_discard : M env → Option ℕ → Bool × M env
  unfolding submit
  begin_discard m none = (false, m)
  begin_discard m (some gen) = if not (acceptable m) then (false, m) else (
    true,
    record (submit (request Operation.discard_snapshot 0 0 1) gen m) { discard_snapshot = true },
  )

  unfoldable pub start_discard : M env → Result (Bool × M env)
  unfolding with_discard_snapshot begin_discard
  start_discard m =
      let (s, called) = with_discard_snapshot m.block_session in
      if m.discard_snapshot
      then ok (false, m)
      else ok (begin_discard (record m { block_session = s }) called)

  unfoldable pub end_discard : M env → Result (Bool × M env)
  unfolding discard_snapshot_done drop next_state
  end_discard m =
      if not m.discard_snapshot
      then ok (false, m)
      else if valid (completed m) && is_op (completed m).operation Operation.discard_snapshot
      then (discard_snapshot_done env.avl (completed m) m.block_session >>= λ s.
          ok (true, next_state (drop (record m { block_session = s; discard_snapshot = false }))))
      else ok (false, m)
