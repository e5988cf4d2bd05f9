-- ===== src/IoJob/Progress.antt =====
-- What follows from the state machine of src/lib/vfs/cbe/io_job.h for the bounds of a job, for
-- what it reports, and for its end.
use cbe.Interfaces.Contracts.{Moves}
use cbe.Types.{Operation}
use cbe.Prelude.{ℕ, Bool, if◌then◌else◌, ◌+◌, ◌<◌, ◌≡◌, arith, false, true, ◌*◌, ◌^◌, ok, ◌≢◌}
use cbe.Interfaces.{Library, BlockFile}
use cbe.IoJob.{IoJob, State, create, pending, in_progress, World, complete, Turn, execute}
use cbe.IoJob.Machine.{Step, idle, start, part, last, fail, synced, again, execute-Step}

-- What is done and what is left make up the length that the job was created with.
pub record IsValid (n : ℕ) (j : IoJob) : Type 0 where
  pub amount : j.current_offset + j.current_count ≡ n
  pub small : n < 2 ^ 64
  pub whole : j.op ≢ Operation.sync → j.state ≡ complete → j.success ≡ true → j.current_count ≡ 0
  pub ends : j.completed ≡ true → j.state ≡ complete

Step-IsValid : {least n : ℕ} {j k : IoJob} {b : Bool} → Step least j b k → IsValid n j → IsValid n k
Step-IsValid (idle p q) v = rw q v
Step-IsValid (start p q r) v = ground arith
Step-IsValid (part out p l q n r) v = ground arith
Step-IsValid (last p n r) v = ground arith
Step-IsValid (fail p r) v = ground arith
Step-IsValid (synced s p o r) v = ground arith
Step-IsValid (again p q r) v = ground arith

abbrev pub weight : State → ℕ
weight pending = 1
weight in_progress = 0
weight complete = 0

-- How many more steps a job may take.
abbrev pub measure : IoJob → ℕ
measure j = if j.completed then 0 else 1 + (2 * j.current_count + weight j.state)

Step-measure :
    {j k : IoJob} {b : Bool} {n : ℕ}
    → Step 1 j b k
    → IsValid n j
    → b ≡ true
    → j.completed ≡ false
    → measure k < measure j
Step-measure (idle p q) v h c = cc
Step-measure (start p q r) v h c = ground arith
Step-measure (part out p l q n r) v h c = ground arith
Step-measure (last p n r) v h c = ground arith
Step-measure (fail p r) v h c = ground arith
Step-measure (synced s p o r) v h c = ground arith
Step-measure (again p q r) v h c = ground arith

abbrev pub SameJob : IoJob → IoJob → Type 0
SameJob j k = (k.op ≡ j.op) × (k.index ≡ j.index) × (k.base_offset ≡ j.base_offset)

Step-SameJob : {least : ℕ} {j k : IoJob} {b : Bool} → Step least j b k → SameJob j k
Step-SameJob (idle p q) = ground arith
Step-SameJob (start p q r) = ground arith
Step-SameJob (part out p l q n r) = ground arith
Step-SameJob (last p n r) = ground arith
Step-SameJob (fail p r) = ground arith
Step-SameJob (synced s p o r) = ground arith
Step-SameJob (again p q r) = ground arith

Step-honest : {least : ℕ} {j k : IoJob} {b : Bool} → Step least j b k → b ≡ false → k ≡ j
Step-honest (idle p q) h = q
Step-honest (start p q r) h = cc
Step-honest (part out p l q n r) h = cc
Step-honest (last p n r) h = cc
Step-honest (fail p r) h = cc
Step-honest (synced s p o r) h = cc
Step-honest (again p q r) h = cc

IsValid-count : {n : ℕ} (j : IoJob) → IsValid n j → j.current_count < 2 ^ 64
IsValid-count j v = omega arith

-- The constructor takes read, write and sync requests only, and starts the job with the whole
-- length left.
pub create-IsValid :
    (op : Operation) (index base n : ℕ) (j : IoJob)
    → n < 2 ^ 64
    → create op index base n ≡ ok j
    → IsValid n j
      × (j.op ≡ op)
      × (j.base_offset ≡ base)
      × (j.completed ≡ false)
      × (j.current_offset ≡ 0)
      × (j.state ≡ pending)
unfolding create
create-IsValid Operation.read index base n j h e = ground arith
create-IsValid Operation.write index base n j h e = ground arith
create-IsValid Operation.sync index base n j h e = ground arith
create-IsValid _ index base n j h e = cc

module _ {L H : Type 0} (least : ℕ) (lib : Library L) (fs : BlockFile H)
    (bounded : Moves least fs) where
  -- With a back end that reports no more bytes than it was asked for, a call of `execute` on a
  -- well-formed job that returns keeps offset and count within the length of the job, without
  -- wrap-around, and keeps the job's operation, index and base offset. A read or write that has
  -- completed with success has nothing left.
  pub execute-IsValid :
      (n : ℕ) (j : IoJob) (w : World L H) (t : Turn L H)
      → IsValid n j
      → execute lib fs j w ≡ ok t
      → IsValid n t.job × SameJob j t.job
  execute-IsValid n j w t v e =
      let s = execute-Step least lib fs j w t bounded (IsValid-count j v) e in
      (Step-IsValid s v, Step-SameJob s)

  -- A call of `execute` that reports no progress leaves the job as it was.
  pub execute-honest :
      (n : ℕ) (j : IoJob) (w : World L H) (t : Turn L H)
      → IsValid n j
      → execute lib fs j w ≡ ok t
      → t.progress ≡ false
      → t.job ≡ j
  execute-honest n j w t v e h =
      Step-honest (execute-Step least lib fs j w t bounded (IsValid-count j v) e) h

module _ {L H : Type 0} (lib : Library L) (fs : BlockFile H) (productive : Moves 1 fs) where
  pub execute-measure :
      (n : ℕ) (j : IoJob) (w : World L H) (t : Turn L H)
      → IsValid n j
      → execute lib fs j w ≡ ok t
      → t.progress ≡ true
      → j.completed ≡ false
      → measure t.job < measure j
  execute-measure n j w t v e h c =
      Step-measure (execute-Step 1 lib fs j w t productive (IsValid-count j v) e) v h c
