-- ===== src/Tester/Background.antt =====
-- src/app/cbe_tester/main.cc, `Main::_execute_cbe`: the tests that deinitialise, list snapshots,
-- rekey and extend.
use cbe.Prelude.{
  ℕ, Bool, true, false, ◌&&◌, ◌||◌, not, ◌==◌, if◌then◌else◌, Result, ok, throw, ◌>>=◌, Option,
  some, none, request_not_acceptable, unexpected_request,
}
use cbe.Types.{Operation, request, valid, is_op}
use cbe.Tester.{
  with_deinitialize, with_list_snapshots, with_rekey, with_extend_vbd, with_extend_ft,
  deinitialize_done, rekey_done, extend_vbd_done, extend_ft_done,
}
use cbe.Tester.Cbe.{acceptable, submit, completed, drop, next_state}
use cbe.Tester.Main.{Parts, M}

module _ {L C K Jc Jd Ji D : Type 0} (env : Parts L C K Jc Jd Ji D) where
  -- The other background requests throw where the CBE takes none.
  unfoldable pub begin_deinitialize : M env → Option (Unit {0}) → Result (Bool × M env)
  unfolding submit
  begin_deinitialize m none = ok (false, m)
  begin_deinitialize m (some _) =
      if not (acceptable env m)
      then throw request_not_acceptable
      else ok (
        true,
        record (submit env (request Operation.deinitialize 0 0 0) 0 m) { deinitialize = true },
      )

  unfoldable pub start_deinitialize : M env → Result (Bool × M env)
  unfolding with_deinitialize begin_deinitialize
  start_deinitialize m =
      let (s, called) = with_deinitialize m.block_session in
      if m.deinitialize
      then ok (false, m)
      else begin_deinitialize (record m { block_session = s }) called

  unfoldable pub end_deinitialize : M env → Result (Bool × M env)
  unfolding deinitialize_done drop next_state
  end_deinitialize m =
      if not (m.deinitialize && valid (completed env m))
      then ok (false, m)
      else if not (is_op (completed env m).operation Operation.deinitialize)
      then throw unexpected_request
      else ok (
        true,
        next_state env (
            drop env (record m {
              block_session = deinitialize_done (completed env m).success m.block_session;
              deinitialize = false;
            })),
      )

  unfoldable pub list_snapshots : M env → Result (Bool × M env)
  unfolding with_list_snapshots
  list_snapshots m = ok (false, record m { block_session = with_list_snapshots m.block_session })

  unfoldable pub begin_rekey : M env → Option (Unit {0}) → Result (Bool × M env)
  unfolding submit
  begin_rekey m none = ok (false, m)
  begin_rekey m (some _) =
      if not (acceptable env m)
      then throw request_not_acceptable
      else ok (true, record (submit env (request Operation.rekey 0 0 0) 0 m) { rekey = true })

  unfoldable pub start_rekey : M env → Result (Bool × M env)
  unfolding with_rekey begin_rekey
  start_rekey m =
      let (s, called) = with_rekey m.block_session in
      if m.rekey then ok (false, m) else begin_rekey (record m { block_session = s }) called

  unfoldable pub end_rekey : M env → Result (Bool × M env)
  unfolding rekey_done drop next_state
  end_rekey m =
      if not (m.rekey && valid (completed env m))
      then ok (false, m)
      else if not (is_op (completed env m).operation Operation.rekey)
      then throw unexpected_request
      else ok (
        true,
        next_state env (
            drop env (record m {
              block_session = rekey_done (completed env m).success m.block_session;
              rekey = false;
            })),
      )

  unfoldable pub begin_extend_vbd : M env → Option ℕ → Result (Bool × M env)
  unfolding submit
  begin_extend_vbd m none = ok (false, m)
  begin_extend_vbd m (some blocks) =
      if not (acceptable env m)
      then throw request_not_acceptable
      else ok (
        true,
        record (submit env (request Operation.extend_vbd 0 0 blocks) 0 m) {
          extend_vbd_obj = blocks;
          extend_vbd = true;
        },
      )

  unfoldable pub start_extend_vbd : M env → Result (Bool × M env)
  unfolding with_extend_vbd begin_extend_vbd
  start_extend_vbd m =
      let (s, called) = with_extend_vbd m.block_session in
      if m.extend_vbd
      then ok (false, m)
      else begin_extend_vbd (record m { block_session = s }) called

  unfoldable pub end_extend_vbd : M env → Result (Bool × M env)
  unfolding extend_vbd_done drop next_state
  end_extend_vbd m =
      if not (m.extend_vbd && valid (completed env m))
      then ok (false, m)
      else if not (is_op (completed env m).operation Operation.extend_vbd)
          || not ((completed env m).count == m.extend_vbd_obj)
      then throw unexpected_request
      else (extend_vbd_done (completed env m).success m.block_session >>= λ s. ok (
        true,
        next_state env
            (drop env (record m { block_session = s; extend_vbd_obj = 0; extend_vbd = false })),
      ))

  unfoldable pub begin_extend_ft : M env → Option ℕ → Result (Bool × M env)
  unfolding submit
  begin_extend_ft m none = ok (false, m)
  begin_extend_ft m (some blocks) =
      if not (acceptable env m)
      then throw request_not_acceptable
      else ok (
        true,
        record (submit env (request Operation.extend_ft 0 0 blocks) 0 m) {
          extend_ft_obj = blocks;
          extend_ft = true;
        },
      )

  unfoldable pub start_extend_ft : M env → Result (Bool × M env)
  unfolding with_extend_ft begin_extend_ft
  start_extend_ft m =
      let (s, called) = with_extend_ft m.block_session in
      if m.extend_ft then ok (false, m) else begin_extend_ft (record m { block_session = s }) called

  unfoldable pub end_extend_ft : M env → Result (Bool × M env)
  unfolding extend_ft_done drop next_state
  end_extend_ft m =
      if not (m.extend_ft && valid (completed env m))
      then ok (false, m)
      else if not (is_op (completed env m).operation Operation.extend_ft)
          || not ((completed env m).count == m.extend_ft_obj)
      then throw unexpected_request
      else (extend_ft_done (completed env m).success m.block_session >>= λ s. ok (
        true,
        next_state env
            (drop env (record m { block_session = s; extend_ft_obj = 0; extend_ft = false })),
      ))
