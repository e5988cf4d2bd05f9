-- ===== src/Tester.antt =====
-- src/app/cbe_tester/main.cc, class `Block_session_component`: the queue of tests, the test in
-- progress, and the snapshots that the tests created.
--
-- A `Test` is tagged by its constructor, which holds what the source constructs for that type; no
-- test of the type INVALID is ever queued. Genode's `Fifo` is a list, whose head is dequeued.
-- `Constructible<Test>` is an `Option`, and to follow its pointer where nothing was constructed is
-- the exception `not_constructed`. Log output and the allocator are left out.
pub mod Snapshots
pub mod Config
pub mod Main
pub mod Cbe
pub mod Background
pub mod Exchange
pub mod Execute
pub mod Order
pub mod Histories
pub mod Invariant
pub mod Tests
use cbe.Prelude.{
  ◌++◌, ℕ, ◌+◌, ◌%◌, Bool, true, false, ◌==◌, ltb, if◌then◌else◌, Option, some, none, List, [], ◌∷◌,
  Bytes, Result, ok, throw, not_constructed,
}
use cbe.Types.{Request, u32, u64, block_size}
use cbe.Types.Convert.{BlockRequest}
use cbe.Interfaces.Session.{ExitCode, exit_success, exit_minus_one}
use cbe.Configuration.{Configuration}
use cbe.Tester.Snapshots.{Tree, Snapshot, find_by_id, Avl}

-- `Test`, where `D` is the configuration of the library that dumps a device
pub data Test (D : Type 0) : Type 0 where
  request : BlockRequest → Test D
  create_snapshot discard_snapshot : ℕ → Test D
  rekey deinitialize : Test D
  extend_vbd extend_ft : ℕ → Test D
  initialize : Configuration → Test D
  check : Test D
  dump : D → Test D
  list_snapshots : Test D

-- `exits` and `started` are what goes out: the calls of `exit`, the last one first, and the tests
-- of which the log says that they were taken up, in their order.
pub record Session (D : Type 0) : Type 0 where
  pub test_queue : List (Test D)
  pub test_in_progress : Option (Test D)
  pub nr_of_failed_tests : ℕ
  pub blk_data : Bytes
  pub created_snapshots : Tree
  pub exits : List ExitCode
  pub started : List (Test D)

-- what a test of each type holds
abbrev pub as_request : {D : Type 0} → Test D → Option BlockRequest
as_request (request r) = some r
as_request _ = none

abbrev pub as_create_snapshot : {D : Type 0} → Test D → Option ℕ
as_create_snapshot (create_snapshot id) = some id
as_create_snapshot _ = none

abbrev pub as_discard_snapshot : {D : Type 0} → Test D → Option ℕ
as_discard_snapshot (discard_snapshot id) = some id
as_discard_snapshot _ = none

abbrev pub as_rekey : {D : Type 0} → Test D → Option (Unit {0})
as_rekey rekey = some tt
as_rekey _ = none

abbrev pub as_deinitialize : {D : Type 0} → Test D → Option (Unit {0})
as_deinitialize deinitialize = some tt
as_deinitialize _ = none

abbrev pub as_extend_vbd : {D : Type 0} → Test D → Option ℕ
as_extend_vbd (extend_vbd n) = some n
as_extend_vbd _ = none

abbrev pub as_extend_ft : {D : Type 0} → Test D → Option ℕ
as_extend_ft (extend_ft n) = some n
as_extend_ft _ = none

abbrev pub as_initialize : {D : Type 0} → Test D → Option Configuration
as_initialize (initialize c) = some c
as_initialize _ = none

abbrev pub as_check : {D : Type 0} → Test D → Option (Unit {0})
as_check check = some tt
as_check _ = none

abbrev pub as_dump : {D : Type 0} → Test D → Option D
as_dump (dump c) = some c
as_dump _ = none

abbrev pub as_list_snapshots : {D : Type 0} → Test D → Option (Unit {0})
as_list_snapshots list_snapshots = some tt
as_list_snapshots _ = none

-- Each byte of the data goes up by one, modulo the values of a `char`.
unfoldable pub change_data : Bytes → Bytes
change_data d i = if ltb i block_size then (d i + 1) % 256 else d i

module _ {D : Type 0} where
  -- The queue is empty: the program exits with what the tests came to.
  unfoldable pub all_tests_finished : Session D → Session D
  all_tests_finished s = record s {
    exits = (if ltb 0 s.nr_of_failed_tests then exit_minus_one else exit_success) ∷ s.exits;
  }

  -- The head of the queue is taken if it is of the type that is asked for; each `with_…` writes a
  -- line to the log then, and hands the test on.
  unfoldable pub take_head :
      {X : Type 0} → Session D → Test D → List (Test D) → Option X → Session D × Option X
  take_head s t q none = (s, none)
  take_head s t q (some x) = (
    record s { test_queue = q; test_in_progress = some t; started = s.started ++ t ∷ [] },
    some x,
  )

  unfoldable pub start_next :
      {X : Type 0} → (Test D → Option X) → Session D → List (Test D) → Session D × Option X
  unfolding all_tests_finished take_head
  start_next sel s [] = (all_tests_finished s, none)
  start_next sel s (t ∷ q) = take_head s t q (sel t)

  -- What the functions `with_…` have in common, and whether they call what they are given.
  unfoldable pub start_unless :
      {X : Type 0} → (Test D → Option X) → Session D → Option (Test D) → Session D × Option X
  unfolding start_next
  start_unless sel s (some t) = (s, none)
  start_unless sel s none = start_next sel s s.test_queue

  unfoldable pub start_test : {X : Type 0} → (Test D → Option X) → Session D → Session D × Option X
  unfolding start_unless
  start_test sel s = start_unless sel s s.test_in_progress

  unfoldable pub with_requests : Session D → Session D × Option BlockRequest
  unfolding start_test
  with_requests s = start_test as_request s

  unfoldable pub with_create_snapshot : Session D → Session D × Option ℕ
  unfolding start_test
  with_create_snapshot s = start_test as_create_snapshot s

  unfoldable pub with_deinitialize : Session D → Session D × Option (Unit {0})
  unfolding start_test
  with_deinitialize s = start_test as_deinitialize s

  unfoldable pub with_rekey : Session D → Session D × Option (Unit {0})
  unfolding start_test
  with_rekey s = start_test as_rekey s

  unfoldable pub with_extend_vbd : Session D → Session D × Option ℕ
  unfolding start_test
  with_extend_vbd s = start_test as_extend_vbd s

  unfoldable pub with_extend_ft : Session D → Session D × Option ℕ
  unfolding start_test
  with_extend_ft s = start_test as_extend_ft s

  unfoldable pub with_check : Session D → Session D × Option (Unit {0})
  unfolding start_test
  with_check s = start_test as_check s

  unfoldable pub with_dump : Session D → Session D × Option D
  unfolding start_test
  with_dump s = start_test as_dump s

  unfoldable pub with_initialize : Session D → Session D × Option Configuration
  unfolding start_test
  with_initialize s = start_test as_initialize s

  -- The end of a test: `_test_in_progress.destruct()`, and the count of those that failed.
  unfoldable pub end_test : Bool → Session D → Session D
  end_test success s = record s {
    test_in_progress = none;
    nr_of_failed_tests = if success then s.nr_of_failed_tests else u64 (s.nr_of_failed_tests + 1);
  }

  -- What is listed goes to the log only, and the test ends at once.
  unfoldable pub end_list : Session D × Option (Unit {0}) → Session D
  end_list (s, none) = s
  end_list (s, some _) = record s { test_in_progress = none }

  unfoldable pub with_list_snapshots : Session D → Session D
  unfolding start_test end_list
  with_list_snapshots s = end_list (start_test as_list_snapshots s)

  -- The snapshot to discard is looked up, and the test ends if there is none.
  unfoldable pub look_up : Session D → Result Snapshot → Session D × Option ℕ
  unfolding end_test
  look_up s (ok snap) = (s, some snap.generation)
  look_up s (throw _) = (end_test false s, none)

  unfoldable pub start_discard : Session D × Option ℕ → Session D × Option ℕ
  unfolding look_up
  start_discard (s, none) = (s, none)
  start_discard (s, some id) = look_up s (find_by_id id s.created_snapshots)

  unfoldable pub with_discard_snapshot : Session D → Session D × Option ℕ
  unfolding start_test start_discard
  with_discard_snapshot s = start_discard (start_test as_discard_snapshot s)

  unfoldable pub submit_ack : BlockRequest → Session D → Session D
  unfolding end_test change_data
  submit_ack r s = record (end_test r.success s) { blk_data = change_data s.blk_data }

  -- `*_test_in_progress->…`
  unfoldable pub holds : {X : Type 0} → (Test D → Option X) → Option (Test D) → Option X
  holds sel none = none
  holds sel (some t) = sel t

  unfoldable pub finish_create : Avl → Request → Session D → Option ℕ → Result (Session D)
  unfolding end_test
  finish_create avl r s none = throw not_constructed
  finish_create avl r s (some id) =
      if r.success
      then ok (record (end_test true s) {
        created_snapshots =
            Avl.insert avl (record { id = id; generation = r.offset }) s.created_snapshots;
      })
      else ok (end_test false s)

  unfoldable pub create_snapshot_done : Avl → Request → Session D → Result (Session D)
  unfolding finish_create holds
  create_snapshot_done avl r s = finish_create avl r s (holds as_create_snapshot s.test_in_progress)

  -- A lookup that throws goes on to the caller.
  unfoldable pub remove_found : Avl → Session D → Result Snapshot → Result (Session D)
  unfolding end_test
  remove_found avl s (ok snap) =
      ok (record (end_test true s) { created_snapshots = Avl.remove avl snap s.created_snapshots })
  remove_found avl s (throw e) = throw e

  unfoldable pub finish_discard : Avl → Request → Session D → Option ℕ → Result (Session D)
  unfolding end_test remove_found
  finish_discard avl r s none = throw not_constructed
  finish_discard avl r s (some id) =
      if r.success
      then remove_found avl s (find_by_id id s.created_snapshots)
      else ok (end_test false s)

  unfoldable pub discard_snapshot_done : Avl → Request → Session D → Result (Session D)
  unfolding finish_discard holds
  discard_snapshot_done avl r s =
      finish_discard avl r s (holds as_discard_snapshot s.test_in_progress)

  unfoldable pub deinitialize_done : Bool → Session D → Session D
  unfolding end_test
  deinitialize_done success s = end_test success s

  unfoldable pub rekey_done : Bool → Session D → Session D
  unfolding end_test
  rekey_done success s = end_test success s

  -- The log names the number of blocks of the test in progress.
  unfoldable pub finish_extend : Bool → Session D → Option ℕ → Result (Session D)
  unfolding end_test
  finish_extend success s none = throw not_constructed
  finish_extend success s (some n) = ok (end_test success s)

  unfoldable pub extend_vbd_done : Bool → Session D → Result (Session D)
  unfolding finish_extend holds
  extend_vbd_done success s = finish_extend success s (holds as_extend_vbd s.test_in_progress)

  unfoldable pub extend_ft_done : Bool → Session D → Result (Session D)
  unfolding finish_extend holds
  extend_ft_done success s = finish_extend success s (holds as_extend_ft s.test_in_progress)

  unfoldable pub check_done : Bool → Session D → Session D
  unfolding end_test
  check_done success s = end_test success s

  unfoldable pub dump_done : Bool → Session D → Session D
  unfolding end_test
  dump_done success s = end_test success s

  unfoldable pub initialize_done : Bool → Session D → Session D
  unfolding end_test
  initialize_done success s = end_test success s

  abbrev pub is_cbe_test : Test D → Bool
  is_cbe_test (request r) = true
  is_cbe_test (create_snapshot id) = true
  is_cbe_test (discard_snapshot id) = true
  is_cbe_test rekey = true
  is_cbe_test deinitialize = true
  is_cbe_test (extend_vbd n) = true
  is_cbe_test (extend_ft n) = true
  is_cbe_test _ = false

  -- the head of the queue, if there is one
  unfoldable pub head_is_cbe : List (Test D) → Bool
  head_is_cbe [] = false
  head_is_cbe (t ∷ q) = is_cbe_test t

  unfoldable pub cbe_request_next : Session D → Bool
  unfolding head_is_cbe
  cbe_request_next s = head_is_cbe s.test_queue
