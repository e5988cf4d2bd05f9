-- ===== src/Replay/Tests.antt =====
-- Replays of src/app/vfs_replay/component.cc on a disk that moves at most two bytes at a time.
use cbe.Prelude.{◌≡◌, Bool, true, false, arith, refl, Result, ok, throw, List, [], ◌∷◌}
use cbe.Interfaces.Samples.{Disk, disk_file, disk_file-Moves}
use cbe.Interfaces.Session.{ExitCode, exit_success, exit_one}
use cbe.Replay.{Request, Files, read_name, write_name}
use cbe.Replay.Loop.{Player, Node, kick_off, kicked_off, io_progress_response_handler}
use cbe.Replay.Memory.{Reach-Bounded, IsValid}
use cbe.Replay.Bounds.{Beyond}
use cbe.Replay.Termination.{replay-Returns, Returns}
use cbe.Replay.Order.{Reach-Status, Status}

abbrev files : Files Disk
files = record {
  handle = record { at = 0; bytes = λ i. i };
  write_buffer = λ i. 85;
  write_size = 4;
  read_buffer = λ i. 0;
  read_size = 4;
}

abbrev write_node : Node
write_node = record { offset = 2; count = 4; type = write_name }

abbrev read_node : Node
read_node = record { offset = 1; count = 3; type = read_name }

abbrev unknown_node : Node
unknown_node = record { offset = 0; count = 0; type = [] }

abbrev idle_player : Player Disk
idle_player = record {
  files = files;
  nodes = [];
  request_node = unknown_node;
  curr_request_id = 0;
  current_request = record {
    type = cbe.Replay.RequestType.invalid;
    state = cbe.Replay.none_state;
    offset = 0;
    count = 0;
    out_count = 0;
    current_offset = 0;
    current_count = 0;
    success = false;
    complete = false;
  };
  finished = false;
  exits = [];
}

abbrev player_of : Result (Player Disk) → Player Disk
player_of (ok p) = p
player_of (throw e) = idle_player

abbrev nodes : List Node
nodes = read_node ∷ []

-- the end of a write and a read behind it
unfoldable replayed : Player Disk
unfolding kick_off
replayed = player_of (kick_off disk_file 40 files write_node nodes)

replays : kick_off disk_file 40 files write_node nodes ≡ ok replayed
unfolding kick_off replayed
replays = refl

Reach-Bounded_example : IsValid replayed × Beyond files replayed.files
Reach-Bounded_example =
    Reach-Bounded 1 disk_file disk_file-Moves files write_node nodes (omega arith) (omega arith)
      replayed (kicked_off 40 replayed replays)

Reach-Status_example : Status (write_node ∷ nodes) replayed
Reach-Status_example =
    Reach-Status disk_file files write_node nodes replayed (omega arith)
      (kicked_off 40 replayed replays)

replayed_exits : replayed.exits ≡ exit_success ∷ []
unfolding replayed kick_off
replayed_exits = refl

abbrev exits_of : Node → List Node → List ExitCode
unfolding kick_off
exits_of first rest = (player_of (kick_off disk_file 40 files first rest)).exits

-- A node of a type that is not known fails at the start, and succeeds behind one that succeeded.
unknown_first : exits_of unknown_node (read_node ∷ []) ≡ exit_one ∷ []
unfolding kick_off
unknown_first = refl

unknown_later : exits_of read_node (unknown_node ∷ []) ≡ exit_success ∷ []
unfolding kick_off
unknown_later = refl

-- more bytes than the buffer has
abbrev thrown : Result (Player Disk) → Bool
thrown (ok p) = false
thrown (throw e) = true

too_large : thrown (kick_off disk_file 40 files (record read_node { count = 5 }) []) ≡ true
unfolding kick_off
too_large = refl

replay-Returns_example :
    Returns (kick_off disk_file 40 files write_node nodes)
    × Returns (io_progress_response_handler disk_file 40 replayed)
unfolding replayed kick_off
replay-Returns_example =
    replay-Returns disk_file disk_file-Moves files write_node nodes (omega arith) 40 (omega arith)
      replayed (kicked_off 40 replayed replays) 40 (omega arith)
