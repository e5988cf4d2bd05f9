-- ===== src/Tester/Config.antt =====
-- src/app/cbe_tester/main.cc, class `Block_session_component`: the tests that the configuration
-- names, put into the queue.
--
-- Genode's XML nodes are a parameter, the record `Xml`: an attribute that is missing, which throws
-- `Nonexistent_attribute`, is `none`, and so is a value that is no number of the width asked for. A
-- node's `sub_node` and `next` are the list of its sub nodes. The exceptions `Bad_…` of the source,
-- which nothing catches, are one, `bad_node`.
use Prim.Native.String.{String}
use text.Mathlib.Text.{◌==◌}
use cbe.Prelude.{
  ℕ, ◌+◌, ◌%◌, Bool, if◌then◌else◌, ltb, Option, some, none, List, [], ◌∷◌, ◌++◌, Result, ok, throw,
  ◌>>=◌, bad_node,
}
use cbe.Types.{block_size}
use cbe.Types.Convert.{BlockOperation}
use cbe.Configuration.{configuration}
use cbe.Tester.{Test, Session}
use cbe.Tester.Snapshots.{leaf}

pub record Xml (N D : Type 0) : Type 0 where
  pub node_type : N → String
  pub attribute : N → String → Option String
  pub value : String → Option ℕ
  pub value_32 : String → Option ℕ
  pub sub_nodes : N → List N
  pub with_sub_node : N → String → Option N
  pub sub_attribute : N → String → String → ℕ
  pub dump_configuration : N → D

module _ {N D : Type 0} (xml : Xml N D) where
  abbrev Queue : Type 0
  Queue = List (Test D)

  unfoldable pub enqueue : Test D → Queue → Queue
  enqueue t q = q ++ t ∷ []

  abbrev pub required : {X : Type 0} → Option X → Result X
  required none = throw bad_node
  required (some x) = ok x

  abbrev pub attribute : N → String → Result String
  attribute node name = required (Xml.attribute xml node name)

  unfoldable pub number : N → String → Result ℕ
  number node name = attribute node name >>= λ text. required (Xml.value xml text)

  unfoldable pub number_32 : N → String → Result ℕ
  number_32 node name = attribute node name >>= λ text. required (Xml.value_32 xml text)

  unfoldable pub request_type : String → Result BlockOperation
  request_type text =
      if text == "read"
      then ok BlockOperation.read
      else if text == "write"
      then ok BlockOperation.write
      else if text == "sync"
      then ok BlockOperation.sync
      else throw bad_node

  unfoldable pub read_request_node : N → Queue → Result Queue
  unfolding request_type number enqueue
  read_request_node node q = do
    text ← attribute node "type"
    type ← request_type text
    lba ← number node "lba"
    count ← number node "count"
    ok (
        enqueue
          (Test.request (record {
            type = type;
            block_number = lba;
            count = count;
            success = Bool.false;
            offset = 0;
            tag = 0;
          }))
          q)

  unfoldable pub read_create_snapshot_node : N → Queue → Result Queue
  unfolding number enqueue
  read_create_snapshot_node node q =
      number node "id" >>= λ id. ok (enqueue (Test.create_snapshot id) q)

  unfoldable pub read_discard_snapshot_node : N → Queue → Result Queue
  unfolding number enqueue
  read_discard_snapshot_node node q =
      number node "id" >>= λ id. ok (enqueue (Test.discard_snapshot id) q)

  unfoldable pub read_rekey_node : Queue → Queue
  unfolding enqueue
  read_rekey_node q = enqueue Test.rekey q

  unfoldable pub read_deinitialize_node : Queue → Queue
  unfolding enqueue
  read_deinitialize_node q = enqueue Test.deinitialize q

  unfoldable pub read_list_snapshots_node : Queue → Queue
  unfolding enqueue
  read_list_snapshots_node q = enqueue Test.list_snapshots q

  unfoldable pub read_extend_vbd_node : N → Queue → Result Queue
  unfolding number_32 enqueue
  read_extend_vbd_node node q =
      number_32 node "nr_of_phys_blocks" >>= λ n. ok (enqueue (Test.extend_vbd n) q)

  unfoldable pub read_extend_ft_node : N → Queue → Result Queue
  unfolding number_32 enqueue
  read_extend_ft_node node q =
      number_32 node "nr_of_phys_blocks" >>= λ n. ok (enqueue (Test.extend_ft n) q)

  -- one sub node of `replay`, by its type
  unfoldable pub read_replay_sub_node : N → Queue → Result Queue
  unfolding read_request_node read_create_snapshot_node read_discard_snapshot_node read_rekey_node
      read_deinitialize_node read_list_snapshots_node read_extend_vbd_node read_extend_ft_node
  read_replay_sub_node node q =
      let type = Xml.node_type xml node in
      if type == "request"
      then read_request_node node q
      else if type == "create-snapshot"
      then read_create_snapshot_node node q
      else if type == "discard-snapshot"
      then read_discard_snapshot_node node q
      else if type == "rekey"
      then ok (read_rekey_node q)
      else if type == "deinitialize"
      then ok (read_deinitialize_node q)
      else if type == "list-snapshots"
      then ok (read_list_snapshots_node q)
      else if type == "extend-vbd"
      then read_extend_vbd_node node q
      else if type == "extend-ft"
      then read_extend_ft_node node q
      else throw bad_node

  unfoldable pub read_replay_nodes : List N → Queue → Result Queue
  unfolding read_replay_sub_node
  read_replay_nodes [] q = ok q
  read_replay_nodes (node ∷ nodes) q =
      read_replay_sub_node node q >>= λ next. read_replay_nodes nodes next

  unfoldable pub read_replay_node : N → Queue → Result Queue
  unfolding read_replay_nodes
  read_replay_node node q = read_replay_nodes (Xml.sub_nodes xml node) q

  unfoldable pub read_check_node : Queue → Queue
  unfolding enqueue
  read_check_node q = enqueue Test.check q

  unfoldable pub read_dump_node : N → Queue → Queue
  unfolding enqueue
  read_dump_node node q = enqueue (Test.dump (Xml.dump_configuration xml node)) q

  unfoldable pub read_initialize_node : N → Queue → Result Queue
  unfolding configuration enqueue
  read_initialize_node node q =
      configuration (Xml.sub_attribute xml node) >>= λ cfg. ok (enqueue (Test.initialize cfg) q)

  -- one sub node of `tests`; one of another type is passed over
  unfoldable pub read_tests_sub_node : N → Queue → Result Queue
  unfolding read_replay_node read_initialize_node read_check_node read_dump_node
  read_tests_sub_node node q =
      let type = Xml.node_type xml node in
      if type == "replay"
      then read_replay_node node q
      else if type == "initialize"
      then read_initialize_node node q
      else if type == "check"
      then ok (read_check_node q)
      else if type == "dump"
      then ok (read_dump_node node q)
      else ok q

  unfoldable pub read_tests_nodes : List N → Queue → Result Queue
  unfolding read_tests_sub_node
  read_tests_nodes [] q = ok q
  read_tests_nodes (node ∷ nodes) q =
      read_tests_sub_node node q >>= λ next. read_tests_nodes nodes next

  unfoldable pub read_tests_node : N → Queue → Result Queue
  unfolding read_tests_nodes
  read_tests_node node q = read_tests_nodes (Xml.sub_nodes xml node) q

  -- the tests of the configuration, if it has a node for them
  unfoldable pub read_config : Option N → Result Queue
  unfolding read_tests_node
  read_config none = ok []
  read_config (some tests) = read_tests_node tests []

  -- the constructor
  unfoldable pub block_session : N → Result (Session D)
  unfolding read_config
  block_session config = read_config (Xml.with_sub_node xml config "tests") >>= λ queue.
      ok (record {
        test_queue = queue;
        test_in_progress = none;
        nr_of_failed_tests = 0;
        blk_data = λ i. if ltb i block_size then (i + 1) % 256 else 0;
        created_snapshots = leaf;
        started = [];
        exits = [];
      })
