-- ===== src/Tester/Invariant/Starts.antt =====
-- The stages of `Main::_execute_cbe` in src/app/cbe_tester/main.cc that take a test from the queue.
use cbe.Tester.Invariant.Taking.{
  Started, kept, idle, taken, Holds, Finds, start_test-Started, discard-Started, list-Started,
}
use cbe.Prelude.{
  ℕ, Bool, true, false, ◌≡◌, refl, Option, some, none, Result, ok, arith, if_elim, not,
}
use cbe.Types.Convert.{BlockRequest}
use cbe.Tester.{
  Session, start_test, with_requests, with_create_snapshot, with_discard_snapshot,
  with_deinitialize, with_list_snapshots, with_rekey, with_extend_vbd, with_extend_ft,
  as_create_snapshot, as_discard_snapshot, as_deinitialize, as_rekey, as_extend_vbd, as_extend_ft,
  as_request, as_list_snapshots,
}
use cbe.Tester.Main.{Parts, M}
use cbe.Tester.Cbe.{
  accept_requests, accept_request, start_create, begin_create, start_discard, begin_discard,
  acceptable, submit, is_valid_op,
}
use cbe.Tester.Background.{
  start_deinitialize, begin_deinitialize, list_snapshots, start_rekey, begin_rekey,
  start_extend_vbd, begin_extend_vbd, start_extend_ft, begin_extend_ft,
}
use cbe.Tester.Invariant.{
  control, Quiet, Quiet-Flags, Flags-Quiet, Keeps, returns, throws, is_job, Steady,
}

module _ {L C K Jc Jd Ji D : Type 0} (env : Parts L C K Jc Jd Ji D) where
  abbrev pub with_session : M env → Session D → M env
  with_session m s = record m { block_session = s }

  Flags-Quiet_session :
      (m : M env) (t : Session D)
      → Steady env m
      → Session.test_in_progress m.block_session ≡ none
      → Quiet (control (with_session m t))
  Flags-Quiet_session m t v e = let q = Flags-Quiet (control m) v.flags e in ground arith

  -- A stage that takes a test, by what it does with the test that it took.
  start-Keeps :
      {X : Type 0} (P : Session D → X → Type 0) (begin : M env → Option X → Result (Bool × M env))
      (m : M env) (r : Session D × Option X)
      → Started P m.block_session r
      → Steady env m
      → ((n : M env) → begin n none ≡ ok (false, n))
      → ((n : M env) (x : X)
          → Quiet (control n)
          → is_job n.state ≡ false
          → P n.block_session x
          → Keeps (Steady env) (begin n (some x)))
      → Keeps (Steady env) (begin (with_session m r.0) r.1)
  start-Keeps P begin m _ kept v f g = rw (f m) (returns false m v)
  start-Keeps P begin m _ (idle t e e' c) v f g =
      let still = Quiet-Flags (control (with_session m t)) (Flags-Quiet_session m t v e) in
      rw (f (with_session m t))
        (returns false (with_session m t) (record { flags = still; no_job = v.no_job }))
  start-Keeps P begin m _ (taken t x e c p) v f g =
      g (with_session m t) x (Flags-Quiet_session m t v e) v.no_job p

  steady : (m : M env) → Quiet (control m) → is_job m.state ≡ false → Steady env m
  steady m q j = record { flags = Quiet-Flags (control m) q; no_job = j }

  accept_request-Keeps :
      (m : M env) (r : BlockRequest)
      → Quiet (control m)
      → is_job m.state ≡ false
      → Keeps (Steady env) (accept_request env m (some r))
  unfolding accept_request submit
  accept_request-Keeps m r q j =
      if_elim (Keeps (Steady env)) (not (is_valid_op r.type)) _ _
        (λ _. returns false m (steady m q j))
        λ _.
          if_elim (Keeps (Steady env)) (not (acceptable env m)) _ _
            (λ _. returns false m (steady m q j)) λ _. returns true _ (steady _ (ground arith) refl)

  pub accept_requests-Keeps :
      (m : M env) → Steady env m → Keeps (Steady env) (accept_requests env m)
  unfolding accept_requests with_requests accept_request
  accept_requests-Keeps m v =
      start-Keeps (Holds as_request) (accept_request env) m (start_test as_request m.block_session)
        (start_test-Started as_request m.block_session) v (λ n. refl)
        (λ n r q j h. accept_request-Keeps n r q j)

  begin_create-Keeps :
      (m : M env) (x : ℕ)
      → Quiet (control m)
      → is_job m.state ≡ false
      → Holds as_create_snapshot m.block_session x
      → Keeps (Steady env) (ok (begin_create env m (some x)))
  unfolding begin_create submit
  begin_create-Keeps m x q j h =
      if_elim (λ r. Keeps (Steady env) (ok r)) (not (acceptable env m)) _ _
        (λ _. returns false m (steady m q j))
        λ _. returns true _ (record { flags = ground arith; no_job = j })

  pub start_create-Keeps : (m : M env) → Steady env m → Keeps (Steady env) (start_create env m)
  unfolding start_create with_create_snapshot begin_create
  start_create-Keeps m v =
      if_elim (Keeps (Steady env)) m.creating_snapshot _ _ (λ _. returns false m v)
        λ _.
          start-Keeps (Holds as_create_snapshot) (λ n o. ok (begin_create env n o)) m
            (with_create_snapshot m.block_session)
            (start_test-Started as_create_snapshot m.block_session) v (λ n. refl)
            (λ n x q j h. begin_create-Keeps n x q j h)

  begin_discard-Keeps :
      (m : M env) (x : ℕ)
      → Quiet (control m)
      → is_job m.state ≡ false
      → Finds m.block_session x
      → Keeps (Steady env) (ok (begin_discard env m (some x)))
  unfolding begin_discard submit
  begin_discard-Keeps m x q j h =
      if_elim (λ r. Keeps (Steady env) (ok r)) (not (acceptable env m)) _ _
        (λ _. returns false m (steady m q j))
        λ _. returns true _ (record { flags = ground arith; no_job = j })

  pub start_discard-Keeps : (m : M env) → Steady env m → Keeps (Steady env) (start_discard env m)
  unfolding start_discard with_discard_snapshot begin_discard
  start_discard-Keeps m v =
      if_elim (Keeps (Steady env)) m.discard_snapshot _ _ (λ _. returns false m v)
        λ _.
          start-Keeps (Finds) (λ n o. ok (begin_discard env n o)) m
            (with_discard_snapshot m.block_session)
            (discard-Started m.block_session _
              (start_test-Started as_discard_snapshot m.block_session))
            v (λ n. refl) (λ n x q j h. begin_discard-Keeps n x q j h)

  begin_deinitialize-Keeps :
      (m : M env) (x : Unit {0})
      → Quiet (control m)
      → is_job m.state ≡ false
      → Holds as_deinitialize m.block_session x
      → Keeps (Steady env) (begin_deinitialize env m (some x))
  unfolding begin_deinitialize submit
  begin_deinitialize-Keeps m x q j h =
      if_elim (Keeps (Steady env)) (not (acceptable env m)) _ _ (λ _. throws _ (λ h. cc) (λ h. cc))
        λ _. returns true _ (record { flags = ground arith; no_job = j })

  pub start_deinitialize-Keeps :
      (m : M env) → Steady env m → Keeps (Steady env) (start_deinitialize env m)
  unfolding start_deinitialize with_deinitialize begin_deinitialize
  start_deinitialize-Keeps m v =
      if_elim (Keeps (Steady env)) m.deinitialize _ _ (λ _. returns false m v)
        λ _.
          start-Keeps (Holds as_deinitialize) (begin_deinitialize env) m
            (with_deinitialize m.block_session) (start_test-Started as_deinitialize m.block_session)
            v (λ n. refl) (λ n x q j h. begin_deinitialize-Keeps n x q j h)

  begin_rekey-Keeps :
      (m : M env) (x : Unit {0})
      → Quiet (control m)
      → is_job m.state ≡ false
      → Holds as_rekey m.block_session x
      → Keeps (Steady env) (begin_rekey env m (some x))
  unfolding begin_rekey submit
  begin_rekey-Keeps m x q j h =
      if_elim (Keeps (Steady env)) (not (acceptable env m)) _ _ (λ _. throws _ (λ h. cc) (λ h. cc))
        λ _. returns true _ (record { flags = ground arith; no_job = j })

  pub start_rekey-Keeps : (m : M env) → Steady env m → Keeps (Steady env) (start_rekey env m)
  unfolding start_rekey with_rekey begin_rekey
  start_rekey-Keeps m v =
      if_elim (Keeps (Steady env)) m.rekey _ _ (λ _. returns false m v)
        λ _.
          start-Keeps (Holds as_rekey) (begin_rekey env) m (with_rekey m.block_session)
            (start_test-Started as_rekey m.block_session) v (λ n. refl)
            (λ n x q j h. begin_rekey-Keeps n x q j h)

  begin_extend_vbd-Keeps :
      (m : M env) (x : ℕ)
      → Quiet (control m)
      → is_job m.state ≡ false
      → Holds as_extend_vbd m.block_session x
      → Keeps (Steady env) (begin_extend_vbd env m (some x))
  unfolding begin_extend_vbd submit
  begin_extend_vbd-Keeps m x q j h =
      if_elim (Keeps (Steady env)) (not (acceptable env m)) _ _ (λ _. throws _ (λ h. cc) (λ h. cc))
        λ _. returns true _ (record { flags = ground arith; no_job = j })

  pub start_extend_vbd-Keeps :
      (m : M env) → Steady env m → Keeps (Steady env) (start_extend_vbd env m)
  unfolding start_extend_vbd with_extend_vbd begin_extend_vbd
  start_extend_vbd-Keeps m v =
      if_elim (Keeps (Steady env)) m.extend_vbd _ _ (λ _. returns false m v)
        λ _.
          start-Keeps (Holds as_extend_vbd) (begin_extend_vbd env) m
            (with_extend_vbd m.block_session) (start_test-Started as_extend_vbd m.block_session) v
            (λ n. refl) (λ n x q j h. begin_extend_vbd-Keeps n x q j h)

  begin_extend_ft-Keeps :
      (m : M env) (x : ℕ)
      → Quiet (control m)
      → is_job m.state ≡ false
      → Holds as_extend_ft m.block_session x
      → Keeps (Steady env) (begin_extend_ft env m (some x))
  unfolding begin_extend_ft submit
  begin_extend_ft-Keeps m x q j h =
      if_elim (Keeps (Steady env)) (not (acceptable env m)) _ _ (λ _. throws _ (λ h. cc) (λ h. cc))
        λ _. returns true _ (record { flags = ground arith; no_job = j })

  pub start_extend_ft-Keeps :
      (m : M env) → Steady env m → Keeps (Steady env) (start_extend_ft env m)
  unfolding start_extend_ft with_extend_ft begin_extend_ft
  start_extend_ft-Keeps m v =
      if_elim (Keeps (Steady env)) m.extend_ft _ _ (λ _. returns false m v)
        λ _.
          start-Keeps (Holds as_extend_ft) (begin_extend_ft env) m (with_extend_ft m.block_session)
            (start_test-Started as_extend_ft m.block_session) v (λ n. refl)
            (λ n x q j h. begin_extend_ft-Keeps n x q j h)

  pub list_snapshots-Keeps : (m : M env) → Steady env m → Keeps (Steady env) (list_snapshots env m)
  unfolding list_snapshots with_list_snapshots
  list_snapshots-Keeps m v =
      start-Keeps {X = Unit {0}} (λ _ _. ⊥) (λ n _. ok (false, n)) m
        (with_list_snapshots m.block_session, none)
        (list-Started m.block_session _ (start_test-Started as_list_snapshots m.block_session)) v
        (λ n. refl) (λ n x q j h. absurd h)
