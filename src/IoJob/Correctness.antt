-- ===== src/IoJob/Correctness.antt =====
-- Whole jobs of src/lib/vfs/cbe/io_job.h: what a read and a write have done when they report
-- success.
use cbe.IoJob.Writing.{execute-HasWritten, HasWritten}
use cbe.IoJob.Reading.{execute-HasRead, HasRead}
use cbe.IoJob.Transfer.{run, run_inv}
use cbe.IoJob.Progress.{IsValid, execute-IsValid, create-IsValid}
use cbe.Types.{Operation}
use cbe.Interfaces.Contracts.{Moves, Serves}
use cbe.Prelude.{
  ℕ, Bytes, ◌<◌, ◌≡◌, ok, ◌^◌, true, ◌∙◌, ◌+◌, false, memcpy, arith, memcpy_none, sym, ap,
}
use cbe.Interfaces.{Library, BlockFile}
use cbe.IoJob.{IoJob, World, Turn, create, execute, pending}

module _ {L H : Type 0} (lib : Library L) (fs : BlockFile H) (least : ℕ)
    (moves_bytes : Moves least fs) (serves : Serves fs) where
  open serves use {content}

  module _ (file : Bytes) (len base : ℕ) where
    abbrev Reads : IoJob → World L H → Type 0
    Reads j w =
        (j.op ≡ Operation.read)
        × (j.base_offset ≡ base)
        × IsValid len j
        × HasRead lib fs least moves_bytes serves file j w

    Reads-execute :
        (j : IoJob) (w : World L H) (t : Turn L H)
        → Reads j w
        → execute lib fs j w ≡ ok t
        → Reads t.job t.world
    Reads-execute j w t r e =
        let (v, same) = execute-IsValid least lib fs moves_bytes len j w t r.2 e in
        (
          same.0 ∙ r.0,
          same.2 ∙ r.1,
          v,
          execute-HasRead lib fs least moves_bytes serves file j w t r.0 r.3 e,
        )

    -- A read job of `len` bytes at `base`, on a back end that holds `file`: when a run of calls
    -- of `execute` has completed it with success, however the back end cut the transfer, the
    -- first `len` bytes of the I/O buffer are those of `file` from `base` on, and the back end
    -- still holds `file`.
    pub read-run :
        (index fuel : ℕ) (j : IoJob) (w : World L H) (t : Turn L H)
        → len < 2 ^ 64
        → create Operation.read index base len ≡ ok j
        → ((i : ℕ) → content w.handle i ≡ file i)
        → run lib fs fuel j w ≡ ok t
        → t.job.completed ≡ true
        → t.job.success ≡ true
        → ((i : ℕ) → i < len → t.world.io_data i ≡ file (base + i))
          × ((i : ℕ) → content t.world.handle i ≡ file i)
    read-run index fuel j w t small made held ran done good = (
      λ i h. r.3.copied i (omega (arith, r.2.amount, left, h)) ∙ ap (λ b. file (b + i)) r.1,
      r.3.held,
    )
      where
        made_ok :
            IsValid len j
            × (j.op ≡ Operation.read)
            × (j.base_offset ≡ base)
            × (j.completed ≡ false)
            × (j.current_offset ≡ 0)
            × (j.state ≡ pending)
        made_ok = create-IsValid Operation.read index base len j small made

        begun : HasRead lib fs least moves_bytes serves file j w
        begun = record {
          copied = λ i h. absurd (omega (arith, made_ok.4));
          held = held;
          placed = λ e. ground (arith, made_ok.5);
        }

        r : Reads t.job t.world
        r =
            run_inv lib fs Reads Reads-execute fuel j w t (made_ok.1, made_ok.2, made_ok.0, begun)
              ran

        left : t.job.current_count ≡ 0
        left = r.2.whole (ground (arith, r.0)) (r.2.ends done) good

  module _ (buffer old : Bytes) (len base : ℕ) where
    abbrev Writes : IoJob → World L H → Type 0
    Writes j w =
        (j.op ≡ Operation.write)
        × IsValid len j
        × HasWritten lib fs least moves_bytes serves buffer old base j w

    Writes-execute :
        (j : IoJob) (w : World L H) (t : Turn L H)
        → Writes j w
        → execute lib fs j w ≡ ok t
        → Writes t.job t.world
    Writes-execute j w t r e =
        let (v, same) = execute-IsValid least lib fs moves_bytes len j w t r.1 e in
        (
          same.0 ∙ r.0,
          v,
          execute-HasWritten lib fs least moves_bytes serves buffer old base j w t r.0 r.2 e,
        )

    -- A write job of `len` bytes at `base`, with the I/O buffer `buffer`, on a back end that
    -- holds `old`: when a run of calls of `execute` has completed it with success, however the
    -- back end cut the transfer, the back end holds the first `len` bytes of `buffer` from
    -- `base` on, and `old` everywhere else.
    pub write-run :
        (index fuel : ℕ) (j : IoJob) (w : World L H) (t : Turn L H)
        → len < 2 ^ 64
        → create Operation.write index base len ≡ ok j
        → ((i : ℕ) → w.io_data i ≡ buffer i)
        → ((i : ℕ) → content w.handle i ≡ old i)
        → run lib fs fuel j w ≡ ok t
        → t.job.completed ≡ true
        → t.job.success ≡ true
        → (i : ℕ) → content t.world.handle i ≡ memcpy old base buffer 0 len i
    write-run index fuel j w t small made filled held ran done good i =
        r.2.stored i ∙ ap (λ n. memcpy old base buffer 0 n i) (omega (arith, r.1.amount, left))
      where
        made_ok :
            IsValid len j
            × (j.op ≡ Operation.write)
            × (j.base_offset ≡ base)
            × (j.completed ≡ false)
            × (j.current_offset ≡ 0)
            × (j.state ≡ pending)
        made_ok = create-IsValid Operation.write index base len j small made

        nothing : (i : ℕ) → memcpy old base buffer 0 0 i ≡ old i
        nothing i = memcpy_none old base buffer 0 i

        begun : HasWritten lib fs least moves_bytes serves buffer old base j w
        begun = record {
          based = made_ok.2;
          kept = filled;
          stored = λ i. rw made_ok.4 (held i ∙ sym (nothing i));
          placed = λ e. ground (arith, made_ok.5);
        }

        r : Writes t.job t.world
        r = run_inv lib fs Writes Writes-execute fuel j w t (made_ok.1, made_ok.0, begun) ran

        left : t.job.current_count ≡ 0
        left = r.1.whole (ground (arith, r.0)) (r.1.ends done) good
