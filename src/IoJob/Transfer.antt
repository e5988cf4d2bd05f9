-- ===== src/IoJob/Transfer.antt =====
-- A job of src/lib/vfs/cbe/io_job.h driven to its end, as `_handle_cbe_backend` of
-- src/lib/vfs/cbe/vfs.cc drives it: `execute` is called again as long as there was progress,
-- until the job has completed or waits for the back end.
use cbe.Types.{item, Operation}
use cbe.IoJob.Progress.{IsValid, measure, execute-IsValid, execute-measure}
use cbe.Interfaces.Contracts.{Moves}
use cbe.Prelude.{
  ℕ, Result, throw, ◌≡◌, ok, out_of_fuel, suc, >>=-eq-ok, ◌>>=◌, Bool-cases, if◌then◌else◌, inl,
  subst, ok-injective, inr, zero, false, ◌<◌, ◌≢◌, arith, Result-cases, Bytes, ◌∙◌, ◌==◌, ◌+◌, true,
}
use cbe.Interfaces.{Library, BlockFile}
use cbe.IoJob.{
  execute, IoJob, World, Turn, execute_op, read, write, read_pending, write_pending,
  read_in_progress, write_in_progress, State, pending, in_progress, complete,
}

going_on :
    {L H : Type 0} (t : Turn L H) (rest : Result (Turn L H))
    → t.job.completed ≡ false
    → t.progress ≡ true
    → rest ≡ (if t.job.completed then ok t else if t.progress then rest else ok t)
going_on t rest more going = ground arith

module _ {L H : Type 0} (lib : Library L) (fs : BlockFile H) where
  unfoldable pub run : ℕ → IoJob → World L H → Result (Turn L H)
  run zero j w = throw out_of_fuel
  run (suc n) j w = execute lib fs j w >>= λ t.
      let rest = run n t.job t.world in
      if t.job.completed then ok t else if t.progress then rest else ok t

  -- What every call of `execute` keeps, for jobs of the same operation, holds where the run
  -- stops.
  pub run_inv {ℓ} :
      (P : IoJob → World L H → Type ℓ)
      → ((j : IoJob) (w : World L H) (t : Turn L H)
          → P j w
          → execute lib fs j w ≡ ok t
          → P t.job t.world)
      → (n : ℕ) (j : IoJob) (w : World L H) (t : Turn L H) → P j w
      → run n j w ≡ ok t
      → P t.job t.world
  unfolding run
  run_inv P keep zero j w t p e = cc
  run_inv P keep (suc n) j w t p e =
      let (u, ran, rest) = >>=-eq-ok (execute lib fs j w) _ e in
      let q : P u.job u.world = keep j w u p ran in
      elim (Bool-cases u.job.completed) [
        | inl done ↦ subst (λ v. P v.job v.world) (ok-injective (rw done at rest)) q
        | inr more ↦ elim (Bool-cases u.progress) [
          | inl going ↦
              run_inv P keep n u.job u.world t q
                (going_on u (run n u.job u.world) more going ∙ rest)
          | inr stuck ↦ subst (λ v. P v.job v.world) (ok-injective (rw (more, stuck) at rest)) q
        ]
      ]

module _ {L H : Type 0} (lib : Library L) (fs : BlockFile H) where
  item-ne-out_of_fuel :
      {A : Type 0} (block : Bytes) (i : ℕ) (a : A)
      → (item block i >>= λ _. ok a) ≢ throw out_of_fuel
  unfolding item
  item-ne-out_of_fuel block i a h = elim (Bool-cases (i == 0)) [
    | inl good ↦ ground arith
    | inr wrong ↦ ground arith
  ]

  read-ne-out_of_fuel :
      (s : State) (j : IoJob) (w : World L H) → read lib fs s j w ≢ throw out_of_fuel
  unfolding read read_pending read_in_progress
  read-ne-out_of_fuel pending j w h =
      let asked = BlockFile.seek fs (j.base_offset + j.current_offset) w.handle in
      elim (Bool-cases (BlockFile.queue_read fs j.current_count asked).0) [
        | inl queued ↦ item-ne-out_of_fuel w.io_data j.index _ (rw queued at h)
        | inr busy ↦ ground arith
      ]
  read-ne-out_of_fuel in_progress j w h = item-ne-out_of_fuel w.io_data j.index _ h
  read-ne-out_of_fuel complete j w h = cc

  write-ne-out_of_fuel :
      (s : State) (j : IoJob) (w : World L H) → write lib fs s j w ≢ throw out_of_fuel
  unfolding write write_pending write_in_progress
  write-ne-out_of_fuel pending j w h = item-ne-out_of_fuel w.io_data j.index _ h
  write-ne-out_of_fuel in_progress j w h = item-ne-out_of_fuel w.io_data j.index _ h
  write-ne-out_of_fuel complete j w h = cc

  execute_op-ne-out_of_fuel :
      (o : Operation) (j : IoJob) (w : World L H) → execute_op lib fs o j w ≢ throw out_of_fuel
  unfolding execute_op
  execute_op-ne-out_of_fuel Operation.read j w h = read-ne-out_of_fuel j.state j w h
  execute_op-ne-out_of_fuel Operation.write j w h = write-ne-out_of_fuel j.state j w h
  execute_op-ne-out_of_fuel Operation.sync j w h = cc
  execute_op-ne-out_of_fuel _ j w h = cc

  execute-ne-out_of_fuel : (j : IoJob) (w : World L H) → execute lib fs j w ≢ throw out_of_fuel
  unfolding execute
  execute-ne-out_of_fuel j w h = execute_op-ne-out_of_fuel j.op j w h

module _ {L H : Type 0} (lib : Library L) (fs : BlockFile H) (productive : Moves 1 fs) where
  -- With a back end whose successful transfers move at least one byte and no more than was asked
  -- for, a job that has not completed needs no more calls of `execute` than its measure, twice
  -- the bytes left and two at most: with more fuel than that, the run ends.
  pub run_ends :
      (n len : ℕ) (j : IoJob) (w : World L H)
      → IsValid len j
      → j.completed ≡ false
      → measure j < n
      → run lib fs n j w ≢ throw out_of_fuel
  unfolding run
  run_ends zero len j w v c h e = absurd (omega arith)
  run_ends (suc n) len j w v c h e = elim (Result-cases (execute lib fs j w)) [
    | inr (x, q) ↦ execute-ne-out_of_fuel lib fs j w (q ∙ (rw q at e))
    | inl (t, q) ↦
        let e' : (let rest = run lib fs n t.job t.world in
              if t.job.completed then ok t else if t.progress then rest else ok t)
            ≡ throw out_of_fuel =
          rw q at e in
        elim (Bool-cases t.job.completed) [
          | inl done ↦ ground arith
          | inr more ↦ elim (Bool-cases t.progress) [
            | inl going ↦
                run_ends n len t.job t.world (execute-IsValid 1 lib fs productive len j w t v q).0
                  more (omega (arith, execute-measure lib fs productive len j w t v q going c))
                  (going_on t (run lib fs n t.job t.world) more going ∙ e')
            | inr stuck ↦ ground arith
          ]
        ]
  ]
