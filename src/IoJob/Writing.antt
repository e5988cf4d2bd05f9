-- ===== src/IoJob/Writing.antt =====
-- What a write job of src/lib/vfs/cbe/io_job.h leaves in the back end.
use cbe.IoJob.Machine.{write_outcome-moves}
use cbe.Types.{item, Operation}
use cbe.IoJob.{
  IoJob, conclude, settle, Outcome, World, in_progress, write_in_progress, Turn, moves, write_call,
  waits, advance, fails, write_outcome, execute, execute_op, write, write_pending, State, pending,
  complete,
}
use cbe.Interfaces.Contracts.{Moves, Serves}
use cbe.Prelude.{
  ℕ, Bytes, memcpy, ◌≡◌, Bool, Bool-cases, ◌+◌, arith, ◌==◌, ◌≢◌, inl, ◌∙◌, inr, ok, >>=-ok, refl,
  ◌-◌, subst, ap, true, false, ok-injective,
}
use cbe.Interfaces.{Library, BlockFile, WriteReply, write_ok}

module _ {L H : Type 0} (lib : Library L) (fs : BlockFile H) (least : ℕ)
    (moves_bytes : Moves least fs) (serves : Serves fs) (buffer : Bytes) (old : Bytes)
    (base : ℕ) where
  open serves use {position, content}

  -- The buffer is as it was, the bytes so far stand in the back end behind `base`, the rest of it
  -- is as it was, and a job that has started finds the handle where it put it.
  pub record HasWritten (j : IoJob) (w : World L H) : Type 0 where
    pub based : j.base_offset ≡ base
    pub kept : (i : ℕ) → w.io_data i ≡ buffer i
    pub stored : (i : ℕ) → content w.handle i ≡ memcpy old base buffer 0 j.current_offset i
    pub placed : j.state ≡ in_progress → position w.handle ≡ base + j.current_offset

  settle-HasWritten :
      (j : IoJob) (w : World L H)
      → j.base_offset ≡ base
      → ((i : ℕ) → w.io_data i ≡ buffer i)
      → ((i : ℕ) → content w.handle i ≡ memcpy old base buffer 0 j.current_offset i)
      → let t = settle lib fs j w in HasWritten t.job t.world
  unfolding settle
  settle-HasWritten j w based kept stored = elim (Bool-cases (j.current_count == 0)) [
    | inl full ↦ rw full (record { based = based; kept = kept; stored = stored; placed = λ e. cc })
    | inr more ↦ rw more (record { based = based; kept = kept; stored = stored; placed = λ e. cc })
  ]

  conclude-HasWritten :
      (o : Outcome) (b : Bool) (out : ℕ) (j : IoJob) (w : World L H)
      → j.base_offset ≡ base
      → ((i : ℕ) → w.io_data i ≡ buffer i)
      → (o ≢ moves → (i : ℕ) → content w.handle i ≡ memcpy old base buffer 0 j.current_offset i)
      → (o ≡ waits → j.state ≡ in_progress → position w.handle ≡ base + j.current_offset)
      → (o ≡ moves
          → (i : ℕ) → content w.handle i ≡ memcpy old base buffer 0 (j.current_offset + out) i)
      → let t = conclude lib fs o b out j w in HasWritten t.job t.world
  unfolding conclude
  conclude-HasWritten waits b out j w based kept stored placed grown = record {
    based = based;
    kept = kept;
    stored = stored (λ e. cc);
    placed = placed refl;
  }
  conclude-HasWritten moves b out j w based kept stored placed grown =
      settle-HasWritten (advance out j) w based kept (grown refl)
  conclude-HasWritten fails b out j w based kept stored placed grown = record {
    based = based;
    kept = kept;
    stored = stored (λ e. cc);
    placed = λ e. cc;
  }

  -- Two writes one behind the other are one write.
  write_behind :
      (now src : Bytes) (p done out i : ℕ)
      → p ≡ base + done
      → ((x : ℕ) → src x ≡ buffer (done + x))
      → ((x : ℕ) → now x ≡ memcpy old base buffer 0 done x)
      → memcpy now p src 0 out i ≡ memcpy old base buffer 0 (done + out) i
  unfolding memcpy
  write_behind now src p done out i at same h = ground (arith, h i, same (i - p))

  module _ (j : IoJob) (w : World L H) (v : HasWritten j w)
      (at : position w.handle ≡ base + j.current_offset) where
    abbrev reply : WriteReply H
    reply = write_call lib fs j w

    grown :
        reply.result ≡ write_ok
        → (i : ℕ)
        → content reply.handle i ≡ memcpy old base buffer 0 (j.current_offset + reply.out_count) i
    grown good i =
        serves.write_content _ _ _ i good
        ∙ write_behind (content w.handle) _ (position w.handle) j.current_offset reply.out_count i
            at (λ x. v.kept (j.current_offset + x)) v.stored

    write_in_progress-HasWritten :
        (b : Bool) (t : Turn L H) → write_in_progress lib fs b j w ≡ ok t → HasWritten t.job t.world
    unfolding write_in_progress
    write_in_progress-HasWritten b t e =
        >>=-ok (λ u. HasWritten u.job u.world) (item w.io_data j.index) _ t e
          (conclude-HasWritten (write_outcome reply.result) b reply.out_count j
            (record w { handle = reply.handle }) v.based v.kept
            (λ m i. serves.write_refused _ _ _ i (ground arith) ∙ v.stored i)
            (λ m s. serves.write_repeats _ _ _ (ground arith) ∙ at)
            (λ m. grown (write_outcome-moves reply.result m)))

  write-HasWritten :
      (s : State) (j : IoJob) (w : World L H) (t : Turn L H)
      → j.state ≡ s
      → HasWritten j w
      → write lib fs s j w ≡ ok t
      → HasWritten t.job t.world
  unfolding write write_pending
  write-HasWritten pending j w t at v e =
      let sought =
        serves.seek_position (j.base_offset + j.current_offset) w.handle
        ∙ ap (λ b. b + j.current_offset) v.based in
      write_in_progress-HasWritten (record j { state = in_progress })
        (record w {
          cbe = Library.io_request_in_progress lib j.index w.cbe;
          handle = BlockFile.seek fs (j.base_offset + j.current_offset) w.handle;
        })
        (record {
          based = v.based;
          kept = v.kept;
          stored = λ i. serves.seek_content _ w.handle i ∙ v.stored i;
          placed = λ _. sought;
        })
        sought true t e
  write-HasWritten in_progress j w t at v e =
      write_in_progress-HasWritten j w v (v.placed at) false t e
  write-HasWritten complete j w t at v e =
      subst (λ u. HasWritten u.job u.world) (ok-injective e)
        (record { based = v.based; kept = v.kept; stored = v.stored; placed = v.placed })

  execute_op-HasWritten :
      (o : Operation) (j : IoJob) (w : World L H) (t : Turn L H)
      → o ≡ Operation.write
      → HasWritten j w
      → execute_op lib fs o j w ≡ ok t
      → HasWritten t.job t.world
  unfolding execute_op
  execute_op-HasWritten o j w t h v e =
      write-HasWritten j.state j w t refl v (subst (λ x. execute_op lib fs x j w ≡ ok t) h e)

  -- Each call of `execute` of a write job that returns keeps `HasWritten`.
  pub execute-HasWritten :
      (j : IoJob) (w : World L H) (t : Turn L H)
      → j.op ≡ Operation.write
      → HasWritten j w
      → execute lib fs j w ≡ ok t
      → HasWritten t.job t.world
  unfolding execute
  execute-HasWritten j w t o v e = execute_op-HasWritten j.op j w t o v e
