-- ===== src/IoJob/Machine.antt =====
-- The state machine that `execute` of src/lib/vfs/cbe/io_job.h follows, as a step relation on
-- the job alone.
use cbe.Prelude.{
  ℕ, ◌^◌, ◌≤◌, ◌<◌, ◌≡◌, ◌≢◌, refl, Bool, true, false, ok, arith, ◌⊎◌, inl, inr, >>=-ok, subst,
  Bool-cases, ◌+◌, ok-injective,
}
use native.Mathlib.Decide.{dec_lt}
use cbe.Types.{item, Operation}
use cbe.Interfaces.{
  BlockFile, Library, SyncResult, sync_queued, sync_err_invalid, sync_ok, ReadResult, WriteResult,
  read_ok, write_ok,
}
use cbe.Interfaces.Contracts.{Moves}
use cbe.IoJob.{
  IoJob, World, Turn, State, pending, in_progress, complete, Outcome, waits, moves, fails, advance,
  settle, conclude, read_in_progress, read_pending, read, write_in_progress, write_pending, write,
  conclude_sync, sync_in_progress, sync_pending, sync, execute_op, execute, read_outcome,
  write_outcome, after_read, read_call, write_call,
}

-- `Step least j b k`: if a transfer that succeeds moves at least `least` bytes, one call of
-- `execute` may turn the job `j` into `k` and report `b`.
pub data Step (least : ℕ) (j : IoJob) (b : Bool) (k : IoJob) : Type 0 where
  idle : b ≡ false → k ≡ j → Step least j b k
  start : b ≡ true → j.state ≡ pending → k ≡ record j { state = in_progress } → Step least j b k
  part :
      (out : ℕ)
      → b ≡ true
      → least ≤ out
      → out < j.current_count
      → j.state ≢ complete
      → k ≡ record (advance out j) { state = pending }
      → Step least j b k
  last :
      b ≡ true
      → j.state ≢ complete
      → k ≡ record (advance j.current_count j) { state = complete; completed = true }
      → Step least j b k
  fail :
      b ≡ true
      → k ≡ record j { success = false; state = complete; completed = true }
      → Step least j b k
  synced :
      (s : Bool)
      → b ≡ true
      → j.op ≡ Operation.sync
      → k ≡ record j { success = s; state = complete; completed = true }
      → Step least j b k
  again : b ≡ true → j.state ≡ complete → k ≡ record j { completed = true } → Step least j b k

-- A job as a call of `execute` goes on with it: as it was, or started in that very call.
abbrev Started : IoJob → Bool → IoJob → Type 0
Started j b i =
    ((b ≡ false) × (i ≡ j))
    ⊎ ((b ≡ true) × (j.state ≡ pending) × (i ≡ record j { state = in_progress }))

Started-le :
    (j i : IoJob) {b : Bool} (out : ℕ)
    → Started j b i
    → out ≤ i.current_count
    → out ≤ j.current_count
Started-le j i out how h = ground arith

Started-pos : (j i : IoJob) {b : Bool} → Started j b i → 0 < j.current_count → 0 < i.current_count
Started-pos j i how h = ground arith

pub read_outcome-moves : (r : ReadResult) → read_outcome r ≡ moves → r ≡ read_ok
unfolding read_outcome
read_outcome-moves r h = ground arith

pub write_outcome-moves : (r : WriteResult) → write_outcome r ≡ moves → r ≡ write_ok
unfolding write_outcome
write_outcome-moves r h = ground arith

module _ {L H : Type 0} (least : ℕ) (lib : Library L) (fs : BlockFile H) where
  settle-Step :
      (b : Bool) (out : ℕ) (j i : IoJob) (w : World L H)
      → Started j b i
      → j.state ≢ complete
      → out ≤ j.current_count
      → (0 < j.current_count → least ≤ out)
      → j.current_count < 2 ^ 64
      → let t = settle lib fs (advance out i) w in Step least j t.progress t.job
  unfolding settle
  settle-Step b out j i w how n h enough s = elim (dec_lt out j.current_count) [
    | yes below ↦ part out (ground arith) (enough (omega arith)) below n (ground arith)
    | no whole ↦ last (ground arith) n (ground arith)
  ]

  -- What a transfer makes of a job that has started in this call, or before it.
  conclude-Step :
      (o : Outcome) (b : Bool) (out : ℕ) (j i : IoJob) (w : World L H)
      → Started j b i
      → j.state ≢ complete
      → out ≤ j.current_count
      → (o ≡ moves → 0 < j.current_count → least ≤ out)
      → j.current_count < 2 ^ 64
      → let t = conclude lib fs o b out i w in Step least j t.progress t.job
  unfolding conclude
  conclude-Step waits b out j i w (inl (p, q)) n h m s = idle p q
  conclude-Step waits b out j i w (inr (p, q, r)) n h m s = start p q r
  conclude-Step moves b out j i w how n h m s = settle-Step b out j i w how n h (m refl) s
  conclude-Step fails b out j i w how n h m s = fail refl (ground arith)

  read_in_progress-Step :
      (b : Bool) (j i : IoJob) (w : World L H) (t : Turn L H)
      → Started j b i
      → j.state ≢ complete
      → Moves least fs
      → j.current_count < 2 ^ 64
      → read_in_progress lib fs b i w ≡ ok t
      → Step least j t.progress t.job
  unfolding read_in_progress
  read_in_progress-Step b j i w t how n bounded s e =
      let r = read_call lib fs i w in
      >>=-ok (λ u. Step least j u.progress u.job) (item w.io_data i.index) _ t e
        (conclude-Step (read_outcome r.result) b r.out_count j i (after_read lib fs r i w) how n
          (Started-le j i r.out_count how (bounded.read_bounded _ i.current_count w.handle))
          (λ m p.
            bounded.read_least _ i.current_count w.handle (read_outcome-moves r.result m)
              (Started-pos j i how p))
          s)

  write_in_progress-Step :
      (b : Bool) (j i : IoJob) (w : World L H) (t : Turn L H)
      → Started j b i
      → j.state ≢ complete
      → Moves least fs
      → j.current_count < 2 ^ 64
      → write_in_progress lib fs b i w ≡ ok t
      → Step least j t.progress t.job
  unfolding write_in_progress
  write_in_progress-Step b j i w t how n bounded s e =
      let r = write_call lib fs i w in
      >>=-ok (λ u. Step least j u.progress u.job) (item w.io_data i.index) _ t e
        (conclude-Step (write_outcome r.result) b r.out_count j i (record w { handle = r.handle })
          how n (Started-le j i r.out_count how (bounded.write_bounded _ i.current_count w.handle))
          (λ m p.
            bounded.write_least _ i.current_count w.handle (write_outcome-moves r.result m)
              (Started-pos j i how p))
          s)

  sync_in_progress-Step :
      (b : Bool) (j i : IoJob) (w : World L H)
      → j.op ≡ Operation.sync
      → Started j b i
      → let t = sync_in_progress lib fs b i w in Step least j t.progress t.job
  unfolding sync_in_progress
  sync_in_progress-Step b j i w syncs how =
      go (BlockFile.complete_sync fs w.handle).0
        (record w { handle = (BlockFile.complete_sync fs w.handle).1 }) how
    where
      go :
          (r : SyncResult) (v : World L H)
          → Started j b i
          → let t = conclude_sync lib fs r b i v in Step least j t.progress t.job
      go sync_queued v (inl (p, q)) = idle p q
      go sync_queued v (inr (p, q, r)) = start p q r
      go sync_err_invalid v h = synced false refl syncs (ground arith)
      go sync_ok v h = synced true refl syncs (ground arith)

  read-Step :
      (s : State) (j : IoJob) (w : World L H) (t : Turn L H)
      → j.state ≡ s
      → Moves least fs
      → j.current_count < 2 ^ 64
      → read lib fs s j w ≡ ok t
      → Step least j t.progress t.job
  unfolding read read_pending
  read-Step pending j w t at bounded h e =
      elim (Bool-cases
        (BlockFile.queue_read fs j.current_count
          (BlockFile.seek fs (j.base_offset + j.current_offset) w.handle)).0) [
            | inl queued ↦
                read_in_progress-Step true j _ _ t (inr (refl, at, refl)) (ground arith) bounded h
                  (rw queued at e)
            | inr busy ↦ idle (ground arith) (ground arith)
          ]
  read-Step in_progress j w t at bounded h e =
      read_in_progress-Step false j j w t (inl (refl, refl)) (ground arith) bounded h e
  read-Step complete j w t at bounded h e = again (ground arith) at (ground arith)

  write-Step :
      (s : State) (j : IoJob) (w : World L H) (t : Turn L H)
      → j.state ≡ s
      → Moves least fs
      → j.current_count < 2 ^ 64
      → write lib fs s j w ≡ ok t
      → Step least j t.progress t.job
  unfolding write write_pending
  write-Step pending j w t at bounded h e =
      write_in_progress-Step true j _ _ t (inr (refl, at, refl)) (ground arith) bounded h e
  write-Step in_progress j w t at bounded h e =
      write_in_progress-Step false j j w t (inl (refl, refl)) (ground arith) bounded h e
  write-Step complete j w t at bounded h e = again (ground arith) at (ground arith)

  sync-Step :
      (s : State) (j : IoJob) (w : World L H)
      → j.op ≡ Operation.sync
      → j.state ≡ s
      → let t = sync lib fs s j w in Step least j t.progress t.job
  unfolding sync sync_pending
  sync-Step pending j w syncs at = elim (Bool-cases (BlockFile.queue_sync fs w.handle).0) [
    | inl queued ↦ rw queued (sync_in_progress-Step true j _ _ syncs (inr (refl, at, refl)))
    | inr busy ↦ rw busy (idle refl refl)
  ]
  sync-Step in_progress j w syncs at = sync_in_progress-Step false j j w syncs (inl (refl, refl))
  sync-Step complete j w syncs at = again refl at (ground arith)

  execute_op-Step :
      (o : Operation) (j : IoJob) (w : World L H) (t : Turn L H)
      → j.op ≡ o
      → Moves least fs
      → j.current_count < 2 ^ 64
      → execute_op lib fs o j w ≡ ok t
      → Step least j t.progress t.job
  unfolding execute_op
  execute_op-Step Operation.read j w t at bounded h e = read-Step j.state j w t refl bounded h e
  execute_op-Step Operation.write j w t at bounded h e = write-Step j.state j w t refl bounded h e
  execute_op-Step Operation.sync j w t at bounded h e =
      subst (λ u. Step least j u.progress u.job) (ok-injective e) (sync-Step j.state j w at refl)
  execute_op-Step _ j w t at bounded h e = idle (ground arith) (ground arith)

  -- With a back end that reports no more than it was asked for, every call of `execute` that
  -- returns, on a job with fewer than 2^64 bytes left, follows the state machine `Step`: it idles
  -- and says so, starts the job, moves a part or the rest of what is left, or completes the job.
  pub execute-Step :
      (j : IoJob) (w : World L H) (t : Turn L H)
      → Moves least fs
      → j.current_count < 2 ^ 64
      → execute lib fs j w ≡ ok t
      → Step least j t.progress t.job
  unfolding execute
  execute-Step j w t bounded h e = execute_op-Step j.op j w t refl bounded h e
