-- ===== src/IoJob/Reading.antt =====
-- What a read job of src/lib/vfs/cbe/io_job.h leaves in the I/O buffer.
use cbe.IoJob.Machine.{read_outcome-moves}
use cbe.Types.{item, Operation}
use native.Mathlib.Decide.{dec_lt}
use cbe.IoJob.{
  IoJob, conclude, settle, Outcome, World, after_read, in_progress, read_call, read_in_progress,
  waits, Turn, moves, advance, read_outcome, read, read_pending, State, execute, fails, execute_op,
  pending, complete,
}
use cbe.Interfaces.Contracts.{Moves, Serves}
use cbe.Prelude.{
  ℕ, Bytes, Bool, ◌<◌, ◌≡◌, memcpy, ◌+◌, Bool-cases, memcpy_before, ◌==◌, ok, ◌∙◌, >>=-ok, arith,
  ◌-◌, ap, inl, refl, ◌≤◌, inr, false, true, subst, ok-injective,
}
use cbe.Interfaces.{Library, BlockFile, ReadReply, read_ok}

module _ {L H : Type 0} (lib : Library L) (fs : BlockFile H) (least : ℕ)
    (moves_bytes : Moves least fs) (serves : Serves fs) (file : Bytes) where
  open serves use {position, content}

  -- The bytes so far stand in the buffer, the back end still holds `file`, and a job that has
  -- started finds the handle where it put it.
  pub record HasRead (j : IoJob) (w : World L H) : Type 0 where
    pub copied : (i : ℕ) → i < j.current_offset → w.io_data i ≡ file (j.base_offset + i)
    pub held : (i : ℕ) → content w.handle i ≡ file i
    pub placed : j.state ≡ in_progress → position w.handle ≡ j.base_offset + j.current_offset

  settle-HasRead :
      (j : IoJob) (w : World L H)
      → ((i : ℕ) → i < j.current_offset → w.io_data i ≡ file (j.base_offset + i))
      → ((i : ℕ) → content w.handle i ≡ file i)
      → let t = settle lib fs j w in HasRead t.job t.world
  unfolding settle
  settle-HasRead j w copied held = elim (Bool-cases (j.current_count == 0)) [
    | inl full ↦ rw full (record { copied = copied; held = held; placed = λ e. cc })
    | inr more ↦ rw more (record { copied = copied; held = held; placed = λ e. cc })
  ]

  conclude-HasRead :
      (o : Outcome) (b : Bool) (out : ℕ) (j : IoJob) (w : World L H)
      → ((i : ℕ) → i < j.current_offset → w.io_data i ≡ file (j.base_offset + i))
      → ((i : ℕ) → content w.handle i ≡ file i)
      → (o ≡ waits → j.state ≡ in_progress → position w.handle ≡ j.base_offset + j.current_offset)
      → (o ≡ moves → (i : ℕ) → i < j.current_offset + out → w.io_data i ≡ file (j.base_offset + i))
      → let t = conclude lib fs o b out j w in HasRead t.job t.world
  unfolding conclude
  conclude-HasRead waits b out j w copied held placed grown = record {
    copied = copied;
    held = held;
    placed = placed refl;
  }
  conclude-HasRead moves b out j w copied held placed grown =
      settle-HasRead (advance out j) w (grown refl) held
  conclude-HasRead fails b out j w copied held placed grown = record {
    copied = copied;
    held = held;
    placed = λ e. cc;
  }

  -- Of the bytes that a read has stored, those below the old offset are untouched, and those that
  -- it reports are the file's.
  after_read_old :
      (r : ReadReply H) (j : IoJob) (w : World L H) (i : ℕ)
      → i < j.current_offset
      → (after_read lib fs r j w).io_data i ≡ w.io_data i
  unfolding after_read
  after_read_old r j w i h = memcpy_before w.io_data j.current_offset r.stored 0 j.current_count i h

  after_read_new :
      (r : ReadReply H) (j : IoJob) (w : World L H) (i : ℕ)
      → j.current_offset ≤ i
      → i < j.current_offset + r.out_count
      → r.out_count ≤ j.current_count
      → (after_read lib fs r j w).io_data i ≡ r.stored (i - j.current_offset)
  unfolding after_read memcpy
  after_read_new r j w i low high bound = ground arith

  module _ (j : IoJob) (w : World L H) (v : HasRead j w)
      (at : position w.handle ≡ j.base_offset + j.current_offset) where
    abbrev reply : ReadReply H
    reply = read_call lib fs j w

    grown :
        reply.result ≡ read_ok
        → (i : ℕ) → i < j.current_offset + reply.out_count
        → (after_read lib fs reply j w).io_data i ≡ file (j.base_offset + i)
    grown good i h = elim (dec_lt i j.current_offset) [
      | yes old ↦ after_read_old reply j w i old ∙ v.copied i old
      | no new ↦
          after_read_new reply j w i (omega arith) h (moves_bytes.read_bounded _ _ _)
          ∙ (serves.read_stored _ _ _ (i - j.current_offset) good (omega arith)
              ∙ (v.held _ ∙ ap file (omega (arith, at))))
    ]

    read_in_progress-HasRead :
        (b : Bool) (t : Turn L H) → read_in_progress lib fs b j w ≡ ok t → HasRead t.job t.world
    unfolding read_in_progress
    read_in_progress-HasRead b t e =
        >>=-ok (λ u. HasRead u.job u.world) (item w.io_data j.index) _ t e
          (conclude-HasRead (read_outcome reply.result) b reply.out_count j
            (after_read lib fs reply j w) (λ i h. after_read_old reply j w i h ∙ v.copied i h)
            (λ i. serves.read_content _ _ _ i ∙ v.held i)
            (λ m s. serves.read_repeats _ _ _ (ground arith) ∙ at)
            (λ m. grown (read_outcome-moves reply.result m)))

  read-HasRead :
      (s : State) (j : IoJob) (w : World L H) (t : Turn L H)
      → j.state ≡ s
      → HasRead j w
      → read lib fs s j w ≡ ok t
      → HasRead t.job t.world
  unfolding read read_pending
  read-HasRead pending j w t at v e =
      let asked = BlockFile.seek fs (j.base_offset + j.current_offset) w.handle in
      let answer = BlockFile.queue_read fs j.current_count asked in
      let sought : position answer.1 ≡ j.base_offset + j.current_offset =
        serves.queue_position j.current_count asked ∙ serves.seek_position _ w.handle in
      let kept : (i : ℕ) → content answer.1 i ≡ file i = λ i.
        serves.queue_content j.current_count asked i
        ∙ (serves.seek_content _ w.handle i ∙ v.held i) in
      elim (Bool-cases answer.0) [
        | inl queued ↦
            read_in_progress-HasRead (record j { state = in_progress })
              (record w {
                cbe = Library.io_request_in_progress lib j.index w.cbe;
                handle = answer.1;
              })
              (record { copied = v.copied; held = kept; placed = λ _. sought }) sought true t
              (rw queued at e)
        | inr busy ↦
            subst (λ u. HasRead u.job u.world) (ok-injective (rw busy at e))
              (record { copied = v.copied; held = kept; placed = λ _. sought })
      ]
  read-HasRead in_progress j w t at v e = read_in_progress-HasRead j w v (v.placed at) false t e
  read-HasRead complete j w t at v e =
      subst (λ u. HasRead u.job u.world) (ok-injective e)
        (record { copied = v.copied; held = v.held; placed = v.placed })

  execute_op-HasRead :
      (o : Operation) (j : IoJob) (w : World L H) (t : Turn L H)
      → o ≡ Operation.read
      → HasRead j w
      → execute_op lib fs o j w ≡ ok t
      → HasRead t.job t.world
  unfolding execute_op
  execute_op-HasRead o j w t h v e =
      read-HasRead j.state j w t refl v (subst (λ x. execute_op lib fs x j w ≡ ok t) h e)

  -- Each call of `execute` of a read job that returns keeps `HasRead`.
  pub execute-HasRead :
      (j : IoJob) (w : World L H) (t : Turn L H)
      → j.op ≡ Operation.read
      → HasRead j w
      → execute lib fs j w ≡ ok t
      → HasRead t.job t.world
  unfolding execute
  execute-HasRead j w t o v e = execute_op-HasRead j.op j w t o v e
