-- ===== src/Tester/Tests.antt =====
-- Runs of the tester of src/app/cbe_tester/main.cc on small libraries.
use Prim.Native.String.{String}
use cbe.Prelude.{
  Leaves, ℕ, true, ◌==◌, ltb, if◌then◌else◌, List, [], ◌∷◌, some, Result, none, ◌≡◌, ◌≤◌, refl, ap,
  arith, inl, inr,
}
use cbe.Types.{Request, no_request, set_success}
use cbe.Interfaces.{Library}
use cbe.Interfaces.Samples.{prompt_library, quiet_crypto}
use cbe.Interfaces.Programs.{prompt_session, block_job, BlockJob, no_job}
use cbe.Interfaces.Session.{Packet}
use cbe.Tester.{Test, Session}
use cbe.Tester.Snapshots.{
  Tree, leaf, node, Snapshot, find_by_id, IsSearch, Looked, In, find_by_id-Looked,
}
use cbe.Tester.Main.{Parts, M}
use cbe.Tester.Config.{Xml, block_session}
use cbe.Tester.Execute.{execute}
use cbe.Tester.Invariant.Jobs.{Valid}
use cbe.Tester.Invariant.Rounds.{Sound}
use cbe.Tester.Order.{Ordered}
use cbe.Tester.Order.Stages.{InOrder}
use cbe.Tester.Histories.{Fresh, fresh_main, built, Reach-Sound}

-- A library that completes each request with success in the next call.
abbrev serving_library : Library Request
serving_library = record prompt_library {
  submit_client_request = λ r i l. r;
  peek_completed_client_request = λ l. set_success true l;
  drop_completed_client_request = λ r l. no_request;
}

-- A tree that is never balanced, and nothing removed from it but its root.
abbrev plain_insert : Snapshot → Tree → Tree
plain_insert s leaf = node leaf s leaf
plain_insert s (node l x r) =
    let at_left = node (plain_insert s l) x r in
    let at_right = node l x (plain_insert s r) in if ltb s.id x.id then at_right else at_left

abbrev plain_remove : Snapshot → Tree → Tree
plain_remove s leaf = leaf
plain_remove s (node l x r) = if s.id == x.id then l else node l x r

abbrev parts : Parts Request ℕ (List Packet) BlockJob BlockJob BlockJob ℕ
parts = record {
  library = serving_library;
  crypto = quiet_crypto;
  blk = prompt_session;
  check = block_job;
  dump = block_job;
  init = block_job;
  avl = record { insert = plain_insert; remove = plain_remove };
}

-- A configuration with a node for each kind of test, by their numbers.
abbrev type_of : ℕ → String
type_of n =
    if n == 1
    then "initialize"
    else if n == 2
    then "replay"
    else if n == 3
    then "check"
    else if n == 4
    then "request"
    else if n == 5
    then "create-snapshot"
    else if n == 6
    then "discard-snapshot"
    else if n == 7
    then "rekey"
    else if n == 8
    then "extend-vbd"
    else if n == 9
    then "list-snapshots"
    else "deinitialize"

abbrev subs : ℕ → List ℕ
subs n = if n == 0 then 1 ∷ 2 ∷ 3 ∷ [] else if n == 2 then 4 ∷ 5 ∷ 6 ∷ 7 ∷ 8 ∷ 10 ∷ [] else []

abbrev sample_xml : Xml ℕ ℕ
sample_xml = record {
  node_type = type_of;
  attribute = λ n name. some "write";
  value = λ text. some 1;
  value_32 = λ text. some 1;
  sub_nodes = subs;
  with_sub_node = λ n name. some 0;
  sub_attribute = λ n a b. 2;
  dump_configuration = λ n. n;
}

abbrev fresh : Fresh ℕ (List Packet) BlockJob BlockJob BlockJob
fresh = record { blk = []; cbe_check = no_job; cbe_dump = no_job; cbe_init = no_job; crypto = 0 }

-- what the tests of the configuration are read to
abbrev session : Result (Session ℕ)
session = block_session sample_xml 0

abbrev after_config : Result (Session ℕ) → Result (M parts)
after_config (Result.ok s) = execute parts 3 40 (fresh_main parts sample_xml fresh s)
after_config (Result.throw e) = Result.throw e

abbrev main_of : Result (M parts) → M parts → M parts
main_of (Result.ok m) n = m
main_of (Result.throw e) n = n

abbrev session_of : Result (Session ℕ) → Session ℕ
session_of (Result.ok s) = s
session_of (Result.throw e) = record {
  test_queue = [];
  test_in_progress = none;
  created_snapshots = leaf;
  started = [];
  nr_of_failed_tests = 0;
  blk_data = λ i. 0;
  exits = [];
}

unfoldable tests : Session ℕ
unfolding block_session
tests = session_of (block_session sample_xml 0)

tests_read : block_session sample_xml 0 ≡ Result.ok tests
unfolding block_session tests
tests_read = refl

abbrev started : M parts
started = fresh_main parts sample_xml fresh tests

Reach-Sound_example :
    Valid parts started
    × Ordered tests.test_queue started.block_session
    × Sound parts (execute parts 3 40 (record started { blk = [] }))
    × Leaves (InOrder parts tests.test_queue) (execute parts 3 40 (record started { blk = [] }))
Reach-Sound_example =
    Reach-Sound parts sample_xml tests.test_queue started [] 3 40 (built fresh 0 tests tests_read)

abbrev tree : Tree
tree =
    node (node leaf (record { id = 7; generation = 2 }) leaf) (record { id = 4; generation = 1 })
      leaf

at_left : (s : Snapshot) → In s (node leaf (record { id = 7; generation = 2 }) leaf) → 4 ≤ s.id
at_left s (inl e) = ground (arith, ap (λ t. Snapshot.id t) e)
at_left s (inr (inl i)) = absurd i
at_left s (inr (inr i)) = absurd i

tree-IsSearch : IsSearch tree
tree-IsSearch = (at_left, (λ s i. absurd i), ((λ s i. absurd i), (λ s i. absurd i), tt, tt), tt)

find_by_id-Looked_example : Looked 7 tree (find_by_id 7 tree)
find_by_id-Looked_example = find_by_id-Looked 7 tree tree-IsSearch

-- All tests of the configuration run, and none fails; the session exits again in each later round
-- of the first run, since nothing is left to start.
abbrev outcome : Result (M parts) → ℕ × List (Test ℕ)
outcome (Result.ok m) = (m.block_session.nr_of_failed_tests, m.block_session.test_queue)
outcome (Result.throw e) = (99, [])

all_tests : outcome (execute parts 3 40 (fresh_main parts sample_xml fresh tests)) ≡ (0, [])
unfolding execute fresh_main tests find_by_id
all_tests = refl

-- A test that lists the snapshots is no progress, so the run ends with the tests behind it left.
abbrev listing : Session ℕ
listing = record tests { test_queue = Test.list_snapshots ∷ Test.check ∷ [] }

list_snapshots-stops :
    outcome (execute parts 3 40 (fresh_main parts sample_xml fresh listing)) ≡ (0, Test.check ∷ [])
unfolding execute fresh_main tests find_by_id
list_snapshots-stops = refl
