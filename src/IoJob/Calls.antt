-- ===== src/IoJob/Calls.antt =====
-- Which calls of the CBE a job of src/lib/vfs/cbe/io_job.h makes.
use cbe.Types.{Operation, item}
use cbe.Prelude.{
  Result, ok, ◌>>=◌, ◌≡◌, throw, ℕ, Bool, Bool-cases, Bytes, false, ◌==◌, inl, true, ◌+◌, inr,
}
use cbe.Interfaces.{Library, BlockFile, SyncResult, sync_queued, sync_err_invalid, sync_ok}
use cbe.IoJob.{
  IoJob, World, Turn, conclude, conclude_sync, execute, execute_op, finish, read, read_in_progress,
  settle, sync, sync_in_progress, write, write_in_progress, Outcome, after_read, read_pending,
  sync_pending, write_pending, State, advance, complete, failed, read_outcome, write_outcome,
  in_progress, pending, read_call, waits, write_call, moves, fails,
}

-- What holds of the result, if there is one.
abbrev pub IfOk {ℓ} : {A : Type 0} → (A → Type ℓ) → Result A → Type ℓ
IfOk P (ok a) = P a
IfOk P (throw x) = Unit

pub IfOk-bind {ℓ κ} :
    {A B : Type 0} (Q : A → Type κ) (P : B → Type ℓ) (m : Result A) (f : A → Result B)
    → IfOk Q m
    → ((a : A) → Q a → IfOk P (f a))
    → IfOk P (m >>= f)
IfOk-bind Q P (ok a) f q k = k a q
IfOk-bind Q P (throw x) f q k = tt

pub IfOk-ok {ℓ} : {A : Type 0} (P : A → Type ℓ) {m : Result A} {a : A} → IfOk P m → m ≡ ok a → P a
IfOk-ok P q e = rw e at q

pub IfOk-any : {A : Type 0} (m : Result A) → IfOk (λ _. Unit {0}) m
IfOk-any (ok a) = tt
IfOk-any (throw x) = tt

-- A property of the CBE's state that the two notifications of the back end keep.
module _ {L H : Type 0} (lib : Library L) (fs : BlockFile H) (P : L → Type 0)
    (begun : (i : ℕ) (l : L) → P l → P (Library.io_request_in_progress lib i l))
    (done : (i : ℕ) (b : Bool) (l : L) → P l → P (Library.io_request_completed lib i b l)) where
  abbrev Kept : Turn L H → Type 0
  Kept t = P t.world.cbe

  finish-Kept : (j : IoJob) (w : World L H) → P w.cbe → Kept (finish lib fs j w)
  unfolding finish
  finish-Kept j w p = done j.index j.success w.cbe p

  settle-Kept : (j : IoJob) (w : World L H) → P w.cbe → Kept (settle lib fs j w)
  unfolding settle
  settle-Kept j w p = elim (Bool-cases (j.current_count == 0)) [
    | inl empty ↦ rw empty (finish-Kept (record j { state = complete }) w p)
    | inr left ↦ rw left p
  ]

  conclude-Kept :
      (o : Outcome) (b : Bool) (n : ℕ) (j : IoJob) (w : World L H)
      → P w.cbe
      → Kept (conclude lib fs o b n j w)
  unfolding conclude
  conclude-Kept waits b n j w p = p
  conclude-Kept moves b n j w p = settle-Kept (advance n j) w p
  conclude-Kept fails b n j w p = finish-Kept (record (failed j) { state = complete }) w p

  read_in_progress-Kept :
      (b : Bool) (j : IoJob) (w : World L H) → P w.cbe → IfOk Kept (read_in_progress lib fs b j w)
  unfolding read_in_progress after_read
  read_in_progress-Kept b j w p =
      IfOk-bind (λ (d : Bytes). Unit {0}) Kept (item w.io_data j.index) _
        (IfOk-any (item w.io_data j.index))
        λ _ _.
          conclude-Kept (read_outcome (read_call lib fs j w).result) b
            (read_call lib fs j w).out_count j (after_read lib fs (read_call lib fs j w) j w) p

  write_in_progress-Kept :
      (b : Bool) (j : IoJob) (w : World L H) → P w.cbe → IfOk Kept (write_in_progress lib fs b j w)
  unfolding write_in_progress
  write_in_progress-Kept b j w p =
      IfOk-bind (λ (d : Bytes). Unit {0}) Kept (item w.io_data j.index) _
        (IfOk-any (item w.io_data j.index))
        λ _ _.
          conclude-Kept (write_outcome (write_call lib fs j w).result) b
            (write_call lib fs j w).out_count j
            (record w { handle = (write_call lib fs j w).handle }) p

  read-Kept : (s : State) (j : IoJob) (w : World L H) → P w.cbe → IfOk Kept (read lib fs s j w)
  unfolding read read_pending
  read-Kept pending j w p =
      let asked =
        BlockFile.queue_read fs j.current_count
          (BlockFile.seek fs (j.base_offset + j.current_offset) w.handle) in
      elim (Bool-cases asked.0) [
        | inl queued ↦ rw queued (
            read_in_progress-Kept true (record j { state = in_progress })
              (record w {
                cbe = Library.io_request_in_progress lib j.index w.cbe;
                handle = asked.1;
              })
              (begun j.index w.cbe p))
        | inr busy ↦ rw busy p
      ]
  read-Kept in_progress j w p = read_in_progress-Kept false j w p
  read-Kept complete j w p = finish-Kept j w p

  write-Kept : (s : State) (j : IoJob) (w : World L H) → P w.cbe → IfOk Kept (write lib fs s j w)
  unfolding write write_pending
  write-Kept pending j w p = write_in_progress-Kept true _ _ (begun j.index w.cbe p)
  write-Kept in_progress j w p = write_in_progress-Kept false j w p
  write-Kept complete j w p = finish-Kept j w p

  conclude_sync-Kept :
      (r : SyncResult) (b : Bool) (j : IoJob) (w : World L H)
      → P w.cbe
      → Kept (conclude_sync lib fs r b j w)
  unfolding conclude_sync
  conclude_sync-Kept sync_queued b j w p = p
  conclude_sync-Kept sync_err_invalid b j w p =
      finish-Kept (record j { success = false; state = complete }) w p
  conclude_sync-Kept sync_ok b j w p =
      finish-Kept (record j { success = true; state = complete }) w p

  sync_in_progress-Kept :
      (b : Bool) (j : IoJob) (w : World L H) → P w.cbe → Kept (sync_in_progress lib fs b j w)
  unfolding sync_in_progress
  sync_in_progress-Kept b j w p =
      let (result, h) = BlockFile.complete_sync fs w.handle in
      conclude_sync-Kept result b j (record w { handle = h }) p

  sync-Kept : (s : State) (j : IoJob) (w : World L H) → P w.cbe → Kept (sync lib fs s j w)
  unfolding sync sync_pending
  sync-Kept pending j w p = elim (Bool-cases (BlockFile.queue_sync fs w.handle).0) [
    | inl queued ↦ rw queued (
        sync_in_progress-Kept true (record j { state = in_progress })
          (record w {
            cbe = Library.io_request_in_progress lib j.index w.cbe;
            handle = (BlockFile.queue_sync fs w.handle).1;
          })
          (begun j.index w.cbe p))
    | inr busy ↦ rw busy p
  ]
  sync-Kept in_progress j w p = sync_in_progress-Kept false j w p
  sync-Kept complete j w p = finish-Kept j w p

  execute_op-Kept :
      (o : Operation) (j : IoJob) (w : World L H) → P w.cbe → IfOk Kept (execute_op lib fs o j w)
  unfolding execute_op
  execute_op-Kept Operation.read j w p = read-Kept j.state j w p
  execute_op-Kept Operation.write j w p = write-Kept j.state j w p
  execute_op-Kept Operation.sync j w p = sync-Kept j.state j w p
  execute_op-Kept _ j w p = p

  pub execute-Kept : (j : IoJob) (w : World L H) → P w.cbe → IfOk Kept (execute lib fs j w)
  unfolding execute
  execute-Kept j w p = execute_op-Kept j.op j w p
