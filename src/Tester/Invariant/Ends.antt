-- ===== src/Tester/Invariant/Ends.antt =====
-- The stages of `Main::_execute_cbe` in src/app/cbe_tester/main.cc that end the test in progress.
use cbe.Tester.Invariant.Outcomes.{
  convert_from-Safe, create_snapshot_done-Safe, discard_snapshot_done-Safe, finish_extend-Safe,
  found-runs,
}
use cbe.Tester.Background.{end_deinitialize, end_extend_ft, end_extend_vbd, end_rekey}
use cbe.Tester.Cbe.{acknowledge, end_create, next_state, drop, background, completed, end_discard}
use cbe.Tester.Main.{Parts, M, Main}
use cbe.Types.{Operation, valid, is_op}
use cbe.Types.Convert.{convert_from}
use cbe.Prelude.{false, ◌≡◌, arith, Option, Bool, true, ◌&&◌, not, if_elim, ◌||◌, ◌==◌}
use cbe.Tester.{
  Test, holds, as_create_snapshot, as_deinitialize, as_discard_snapshot, as_extend_ft,
  as_extend_vbd, as_rekey, Session, create_snapshot_done, discard_snapshot_done, submit_ack,
  deinitialize_done, extend_ft_done, extend_vbd_done, rekey_done, end_test,
}
use cbe.Tester.Invariant.{
  Control, Flags, Quiet, runs, Keeps, returns, throws, found, control, is_job, Steady, Quiet-Flags,
  Keeps-then,
}

-- Where the test in progress is of the type that a flag tells of, no other flag is set.
module _ {D : Type 0} (c : Control D) (f : Flags c) where
  creates-only :
      runs as_create_snapshot c.test ≡ true → Quiet (record c { creating_snapshot = false })
  unfolding holds
  creates-only e = ground arith

  discards-only :
      runs as_discard_snapshot c.test ≡ true → Quiet (record c { discard_snapshot = false })
  unfolding holds
  discards-only e = ground arith

  rekeys-only : runs as_rekey c.test ≡ true → Quiet (record c { rekey = false })
  unfolding holds
  rekeys-only e = ground arith

  deinitializes-only :
      runs as_deinitialize c.test ≡ true → Quiet (record c { deinitialize = false })
  unfolding holds
  deinitializes-only e = ground arith

  extends_vbd-only : runs as_extend_vbd c.test ≡ true → Quiet (record c { extend_vbd = false })
  unfolding holds
  extends_vbd-only e = ground arith

  extends_ft-only : runs as_extend_ft c.test ≡ true → Quiet (record c { extend_ft = false })
  unfolding holds
  extends_ft-only e = ground arith

  running :
      {X : Type 0} (sel : Test D → Option X) (flag : Bool)
      → (flag && not (runs sel c.test)) ≡ false
      → flag ≡ true
      → runs sel c.test ≡ true
  running sel flag h e = ground arith

module _ {L C K Jc Jd Ji D : Type 0} (env : Parts L C K Jc Jd Ji D) where
  pub next_state-no_job : (m : M env) → is_job (Main.state (next_state env m)) ≡ false
  unfolding next_state
  next_state-no_job m = ground arith

  -- The state after the end of a test, whatever the test left in the session.
  ended : (m : M env) → Quiet (control m) → Steady env (next_state env m)
  unfolding next_state
  ended m q = record { flags = Quiet-Flags _ (ground arith); no_job = next_state-no_job m }

  pub acknowledge-Keeps : (m : M env) → Steady env m → Keeps (Steady env) (acknowledge env m)
  unfolding acknowledge drop
  acknowledge-Keeps m v =
      if_elim (Keeps (Steady env)) (background env m) _ _ (λ _. returns false m v)
        λ b.
          if_elim (Keeps (Steady env)) (not (valid (completed env m))) _ _ (λ _. returns false m v)
            λ _.
              Keeps-then (Steady env) (convert_from (completed env m)) _
                (convert_from-Safe (completed env m))
                (λ r _.
                  ended
                    (record (drop env m) {
                      block_session = submit_ack r (Main.block_session (drop env m));
                    })
                    (ground arith))

  pub end_create-Keeps : (m : M env) → Steady env m → Keeps (Steady env) (end_create env m)
  unfolding end_create drop
  end_create-Keeps m v =
      if_elim (Keeps (Steady env)) (not m.creating_snapshot) _ _ (λ _. returns false m v)
        λ e.
          if_elim (Keeps (Steady env))
            (valid (completed env m) && is_op (completed env m).operation Operation.create_snapshot)
            _ _
            (λ _.
              let f = v.flags in
              let runs : runs as_create_snapshot (Session.test_in_progress m.block_session) ≡ true =
                ground arith in
              Keeps-then (Steady env)
                (create_snapshot_done env.avl (completed env m) m.block_session) _
                (create_snapshot_done-Safe env.avl (completed env m) m.block_session runs)
                (λ s _.
                  let n = record m { block_session = s; creating_snapshot = false } in
                  let q = creates-only (control m) f runs in ended (drop env n) (ground arith)))
            (λ _. returns false m v)

  pub end_discard-Keeps : (m : M env) → Steady env m → Keeps (Steady env) (end_discard env m)
  unfolding end_discard drop
  end_discard-Keeps m v =
      if_elim (Keeps (Steady env)) (not m.discard_snapshot) _ _ (λ _. returns false m v)
        λ e.
          if_elim (Keeps (Steady env))
            (valid (completed env m)
              && is_op (completed env m).operation Operation.discard_snapshot)
            _ _
            (λ _.
              let f = v.flags in
              let runs : found (Session.created_snapshots m.block_session)
                    (holds as_discard_snapshot (Session.test_in_progress m.block_session))
                  ≡ true =
                ground arith in
              Keeps-then (Steady env)
                (discard_snapshot_done env.avl (completed env m) m.block_session) _
                (discard_snapshot_done-Safe env.avl (completed env m) m.block_session runs)
                (λ s _.
                  let n = record m { block_session = s; discard_snapshot = false } in
                  let q = discards-only (control m) f (found-runs m.block_session runs) in
                  ended (drop env n) (ground arith)))
            (λ _. returns false m v)

  pub end_deinitialize-Keeps :
      (m : M env) → Steady env m → Keeps (Steady env) (end_deinitialize env m)
  unfolding end_deinitialize drop deinitialize_done end_test
  end_deinitialize-Keeps m v =
      if_elim (Keeps (Steady env)) (not (m.deinitialize && valid (completed env m))) _ _
        (λ _. returns false m v)
        λ e.
          if_elim (Keeps (Steady env))
            (not (is_op (completed env m).operation Operation.deinitialize)) _ _
            (λ _. throws _ (λ h. cc) (λ h. cc))
            λ _.
              let n = record m {
                block_session = deinitialize_done (completed env m).success m.block_session;
                deinitialize = false;
              } in
              let f = v.flags in
              let q = deinitializes-only (control m) f (ground arith) in
              returns true _ (ended (drop env n) (ground arith))

  pub end_rekey-Keeps : (m : M env) → Steady env m → Keeps (Steady env) (end_rekey env m)
  unfolding end_rekey drop rekey_done end_test
  end_rekey-Keeps m v =
      if_elim (Keeps (Steady env)) (not (m.rekey && valid (completed env m))) _ _
        (λ _. returns false m v)
        λ e.
          if_elim (Keeps (Steady env)) (not (is_op (completed env m).operation Operation.rekey)) _ _
            (λ _. throws _ (λ h. cc) (λ h. cc))
            λ _.
              let n = record m {
                block_session = rekey_done (completed env m).success m.block_session;
                rekey = false;
              } in
              let f = v.flags in
              let q = rekeys-only (control m) f (ground arith) in
              returns true _ (ended (drop env n) (ground arith))

  pub end_extend_vbd-Keeps : (m : M env) → Steady env m → Keeps (Steady env) (end_extend_vbd env m)
  unfolding end_extend_vbd drop extend_vbd_done
  end_extend_vbd-Keeps m v =
      if_elim (Keeps (Steady env)) (not (m.extend_vbd && valid (completed env m))) _ _
        (λ _. returns false m v)
        λ e.
          if_elim (Keeps (Steady env))
            (not (is_op (completed env m).operation Operation.extend_vbd)
              || not ((completed env m).count == m.extend_vbd_obj))
            _ _ (λ _. throws _ (λ h. cc) (λ h. cc))
            λ _.
              let f = v.flags in
              let runs : runs as_extend_vbd (Session.test_in_progress m.block_session) ≡ true =
                ground arith in
              let success = (completed env m).success in
              Keeps-then (Steady env) (extend_vbd_done success m.block_session) _
                (finish_extend-Safe success m.block_session _ runs)
                (λ s _.
                  let n = record m { block_session = s; extend_vbd_obj = 0; extend_vbd = false } in
                  let q = extends_vbd-only (control m) f runs in ended (drop env n) (ground arith))

  pub end_extend_ft-Keeps : (m : M env) → Steady env m → Keeps (Steady env) (end_extend_ft env m)
  unfolding end_extend_ft drop extend_ft_done
  end_extend_ft-Keeps m v =
      if_elim (Keeps (Steady env)) (not (m.extend_ft && valid (completed env m))) _ _
        (λ _. returns false m v)
        λ e.
          if_elim (Keeps (Steady env))
            (not (is_op (completed env m).operation Operation.extend_ft)
              || not ((completed env m).count == m.extend_ft_obj))
            _ _ (λ _. throws _ (λ h. cc) (λ h. cc))
            λ _.
              let f = v.flags in
              let runs : runs as_extend_ft (Session.test_in_progress m.block_session) ≡ true =
                ground arith in
              let success = (completed env m).success in
              Keeps-then (Steady env) (extend_ft_done success m.block_session) _
                (finish_extend-Safe success m.block_session _ runs)
                (λ s _.
                  let n = record m { block_session = s; extend_ft_obj = 0; extend_ft = false } in
                  let q = extends_ft-only (control m) f runs in ended (drop env n) (ground arith))
