-- ===== src/Replay/Steps.antt =====
-- That each round of src/app/vfs_replay/component.cc which makes progress brings a request nearer
-- to its end.
use cbe.Prelude.{
  ℕ, ◌+◌, ◌*◌, ◌≤◌, ◌<◌, ◌≡◌, ◌⊎◌, inl, inr, refl, Bool, true, false, arith, if_elim, Result, ok,
  ◌==◌, throw, buffer_too_small, ltb,
}
use cbe.Interfaces.{
  BlockFile, SyncResult, sync_ok, sync_queued, sync_err_invalid, ReadResult, WriteResult, read_ok,
  write_ok,
}
use cbe.Interfaces.Contracts.{Moves}
use cbe.Replay.{
  Request, RequestState, RequestType, Files, Turn, Outcome, waits, moves, fails, conclude, settle,
  finish, moved, in_read, in_write, queue_read, read_in, run_read, run_write, seek_write, write_in,
  none_state, read_pending, write_pending, read_in_progress, write_in_progress, read_complete,
  write_complete, sync_pending, sync_in_progress, sync_complete, error_state, after_read, read_call,
  write_call, read_outcome, write_outcome, run_sync, sync_in, queue_sync, in_sync, conclude_sync,
}
use cbe.Replay.Loop.{idle, dispatch}

-- How far a request is from its end: three rounds for each byte that is left, and the states that
-- it still goes through for them.
abbrev pub stages : RequestState → ℕ
stages none_state = 3
stages read_pending = 2
stages write_pending = 2
stages sync_pending = 2
stages _ = 1

abbrev pub weight : Request → ℕ
weight r = 3 * r.current_count + stages r.state

-- What a turn comes to: no progress; a request that is complete; or one that goes on, and is nearer
-- to its end.
pub data Works {H : Type 0} (before : ℕ) (t : Turn H) : Type 0 where
  stops : Turn.progress t ≡ false → Works before t
  completes :
      Request.complete (Turn.request t) ≡ true
      → (idle (Request.state (Turn.request t)) ≡ true) ⊎ (weight (Turn.request t) ≤ before)
      → Works before t
  goes :
      idle (Request.state (Turn.request t)) ≡ false
      → weight (Turn.request t) < before
      → Works before t

read_outcome-moves : (x : ReadResult) → read_outcome x ≡ moves → x ≡ read_ok
unfolding read_outcome
read_outcome-moves read_ok e = refl
read_outcome-moves _ e = cc

write_outcome-moves : (x : WriteResult) → write_outcome x ≡ moves → x ≡ write_ok
unfolding write_outcome
write_outcome-moves write_ok e = refl
write_outcome-moves _ e = cc

module _ {H : Type 0} (fs : BlockFile H) (bounded : Moves 1 fs) (before : ℕ) where
  conclude-Works :
      (o : Outcome) (s : RequestState) (out : ℕ) (r : Request) (w : Files H)
      → idle s ≡ false
      → idle r.state ≡ false
      → out ≤ r.current_count
      → (o ≡ moves → 0 < r.current_count → 1 ≤ out)
      → 3 * r.current_count + stages s ≤ before
      → weight r < before
      → Works before (conclude fs o s true out r w)
  unfolding conclude settle finish
  conclude-Works waits s out r w i j b m h k = goes j k
  conclude-Works fails s out r w i j b m h k = completes refl (inl refl)
  conclude-Works moves s out r w i j b m h k =
      if_elim (Works before) ((moved out r).current_count == 0) _ _ (λ _. completes refl (inl refl))
        (λ e. goes i (let n = m refl in ground arith))

  conclude-stops :
      (o : Outcome) (s : RequestState) (out : ℕ) (r : Request) (w : Files H)
      → Works before (conclude fs o s false out r w)
  unfolding conclude settle finish
  conclude-stops waits s out r w = stops refl
  conclude-stops fails s out r w = completes refl (inl refl)
  conclude-stops moves s out r w =
      if_elim (Works before) ((moved out r).current_count == 0) _ _ (λ _. completes refl (inl refl))
        (λ _. stops refl)

  -- with the state IN_PROGRESS set in the same call
  in_read-Works :
      (r : Request) (w : Files H)
      → 3 * r.current_count + 2 ≤ before
      → Works before (in_read fs true (record r { state = read_in_progress }) w)
  unfolding in_read after_read
  in_read-Works r w h =
      let reply = read_call fs r w in
      conclude-Works (read_outcome reply.result) read_pending reply.out_count
        (record r { state = read_in_progress }) (after_read fs reply r w) refl refl
        (Moves.read_bounded bounded w.read_buffer r.current_count w.handle)
        (λ e p.
          Moves.read_least bounded w.read_buffer r.current_count w.handle
            (read_outcome-moves reply.result e) p)
        h (ground arith)

  queue_read-Works :
      (progress : Bool) (r : Request) (w : Files H)
      → 3 * r.current_count + 2 ≤ before
      → (progress ≡ false) ⊎ ((idle r.state ≡ false) × (weight r < before))
      → Works before (queue_read fs progress r w)
  unfolding queue_read
  queue_read-Works progress r w h k =
      let (queued, x) =
        BlockFile.queue_read fs r.current_count (BlockFile.seek fs r.current_offset w.handle) in
      if_elim (Works before) queued _ _ (λ _. in_read-Works r (record w { handle = x }) h)
        (λ _. elim k [ inl e ↦ stops e | inr p ↦ goes p.0 p.1 ])

  in_write-Works :
      (r : Request) (w : Files H)
      → 3 * r.current_count + 2 ≤ before
      → Works before (in_write fs true (record r { state = write_in_progress }) w)
  unfolding in_write
  in_write-Works r w h =
      let reply = write_call fs r w in
      conclude-Works (write_outcome reply.result) write_pending reply.out_count
        (record r { state = write_in_progress }) (record w { handle = reply.handle }) refl refl
        (Moves.write_bounded bounded w.write_buffer r.current_count w.handle)
        (λ e p.
          Moves.write_least bounded w.write_buffer r.current_count w.handle
            (write_outcome-moves reply.result e) p)
        h (ground arith)

  conclude_sync-Works :
      (x : SyncResult) (progress : Bool) (r : Request) (w : Files H)
      → (progress ≡ false) ⊎ ((idle r.state ≡ false) × (weight r < before))
      → Works before (conclude_sync fs x progress r w)
  unfolding conclude_sync finish
  conclude_sync-Works sync_ok progress r w k = completes refl (inl refl)
  conclude_sync-Works sync_err_invalid progress r w k = completes refl (inl refl)
  conclude_sync-Works sync_queued progress r w (inl e) = stops e
  conclude_sync-Works sync_queued progress r w (inr p) = goes p.0 p.1

  queue_sync-Works :
      (progress : Bool) (r : Request) (w : Files H)
      → 3 * r.current_count + 2 ≤ before
      → (progress ≡ false) ⊎ ((idle r.state ≡ false) × (weight r < before))
      → Works before (queue_sync fs progress r w)
  unfolding queue_sync in_sync
  queue_sync-Works progress r w h k =
      let (queued, x) = BlockFile.queue_sync fs w.handle in
      if_elim (Works before) queued _ _
        (λ _.
          conclude_sync-Works (BlockFile.complete_sync fs x).0 true
            (record r { state = sync_in_progress }) _ (inr (refl, ground arith)))
        (λ _. elim k [ inl e ↦ stops e | inr p ↦ goes p.0 p.1 ])

  -- A turn that throws does so for a buffer that is too small.
  abbrev pub Turns : Result (Turn H) → Type 0
  Turns (ok t) = Works before t
  Turns (throw e) = e ≡ buffer_too_small

  read_in-Turns :
      (s : RequestState) (r : Request) (w : Files H)
      → 3 * r.current_count + stages s ≤ before
      → Turns (read_in fs s r w)
  unfolding read_in finish in_read
  read_in-Turns none_state r w h =
      if_elim Turns (ltb w.read_size r.count) _ _ (λ _. refl)
        (λ _.
          queue_read-Works true (record r { state = read_pending }) w (omega arith)
            (inr (refl, omega arith)))
  read_in-Turns read_pending r w h = queue_read-Works false r w h (inl refl)
  read_in-Turns read_in_progress r w h = conclude-stops _ _ _ r _
  read_in-Turns read_complete r w h = completes refl (inl refl)
  read_in-Turns write_pending r w h = stops refl
  read_in-Turns write_in_progress r w h = stops refl
  read_in-Turns write_complete r w h = stops refl
  read_in-Turns sync_pending r w h = stops refl
  read_in-Turns sync_in_progress r w h = stops refl
  read_in-Turns sync_complete r w h = stops refl
  read_in-Turns error_state r w h = stops refl

  write_in-Turns :
      (s : RequestState) (r : Request) (w : Files H)
      → 3 * r.current_count + stages s ≤ before
      → Turns (write_in fs s r w)
  unfolding write_in finish in_write seek_write
  write_in-Turns none_state r w h =
      if_elim Turns (ltb w.write_size r.count) _ _ (λ _. refl)
        (λ _. in_write-Works (record r { state = write_pending }) _ (omega arith))
  write_in-Turns write_pending r w h = in_write-Works r _ h
  write_in-Turns write_in_progress r w h = conclude-stops _ _ _ r _
  write_in-Turns write_complete r w h = completes refl (inl refl)
  write_in-Turns read_pending r w h = stops refl
  write_in-Turns read_in_progress r w h = stops refl
  write_in-Turns read_complete r w h = stops refl
  write_in-Turns sync_pending r w h = stops refl
  write_in-Turns sync_in_progress r w h = stops refl
  write_in-Turns sync_complete r w h = stops refl
  write_in-Turns error_state r w h = stops refl

  sync_in-Works :
      (s : RequestState) (r : Request) (w : Files H)
      → 3 * r.current_count + stages s ≤ before
      → Works before (sync_in fs s r w)
  unfolding sync_in finish in_sync
  sync_in-Works none_state r w h =
      queue_sync-Works true (record r { state = sync_pending }) w (omega arith)
        (inr (refl, omega arith))
  sync_in-Works sync_pending r w h = queue_sync-Works false r w h (inl refl)
  sync_in-Works sync_in_progress r w h = conclude_sync-Works _ false r _ (inl refl)
  sync_in-Works sync_complete r w h = completes refl (inl refl)
  sync_in-Works read_pending r w h = stops refl
  sync_in-Works read_in_progress r w h = stops refl
  sync_in-Works read_complete r w h = stops refl
  sync_in-Works write_pending r w h = stops refl
  sync_in-Works write_in_progress r w h = stops refl
  sync_in-Works write_complete r w h = stops refl
  sync_in-Works error_state r w h = stops refl

  pub dispatch-Turns :
      (y : RequestType) (r : Request) (w : Files H)
      → ((y ≡ RequestType.invalid) × (idle r.state ≡ true)) ⊎ (weight r ≤ before)
      → Turns (dispatch fs y r w)
  unfolding dispatch run_read run_write run_sync
  dispatch-Turns RequestType.read r w (inr h) = read_in-Turns r.state r w h
  dispatch-Turns RequestType.write r w (inr h) = write_in-Turns r.state r w h
  dispatch-Turns RequestType.sync r w (inr h) = sync_in-Works r.state r w h
  dispatch-Turns RequestType.invalid r w (inr h) = completes refl (inr h)
  dispatch-Turns RequestType.invalid r w (inl p) = completes refl (inl p.1)
  dispatch-Turns RequestType.read r w (inl p) = cc
  dispatch-Turns RequestType.write r w (inl p) = cc
  dispatch-Turns RequestType.sync r w (inl p) = cc
