-- ===== src/Replay/Loop.antt =====
-- src/app/vfs_replay/component.cc, class `Vfs_replay`: the loop that replays one request after the
-- other, and the calls that run it. Fuel bounds the rounds of one run of the loop.
use cbe.Prelude.{
  ℕ, ◌+◌, suc, zero, Bool, true, false, not, if◌then◌else◌, Result, ok, throw, ◌>>=◌, out_of_fuel,
  List, [], ◌∷◌, Option, some, none, get_elem?, ◌≡◌,
}
use cbe.Types.{u32}
use cbe.Interfaces.{BlockFile}
use cbe.Interfaces.Session.{ExitCode, exit_success, exit_one}
use cbe.Replay.{
  Request, RequestType, RequestState, none_state, Files, Turn, string_to_type, run_read, run_write,
  run_sync, empty_request,
}

-- The attributes of a sub node of `replay`; those that are missing are `~0` and the empty text.
pub record Node : Type 0 where
  pub offset : ℕ
  pub count : ℕ
  pub type : List ℕ

pub record Player (H : Type 0) : Type 0 where
  pub files : Files H
  pub nodes : List Node
  pub request_node : Node
  pub curr_request_id : ℕ
  pub current_request : Request
  pub finished : Bool
  pub exits : List ExitCode

abbrev pub idle : RequestState → Bool
idle none_state = true
idle _ = false

-- A request of a type that is not known leaves the members of the last one.
unfoldable pub next_request : RequestType → Node → Request → Request
next_request RequestType.invalid node r = record r { type = RequestType.invalid }
next_request type node r = record {
  type = type;
  state = none_state;
  offset = node.offset;
  count = node.count;
  out_count = 0;
  current_offset = node.offset;
  current_count = node.count;
  success = false;
  complete = false;
}

unfoldable pub begin_request : Node → Request → Request
unfolding string_to_type next_request
begin_request node r = if idle r.state then next_request (string_to_type node.type) node r else r

-- What the loop does after a round: leave, and whether a request failed, or go on.
pub data Verdict (H : Type 0) : Type 0 where
  leave : Bool → Player H → Verdict H
  again : Player H → Verdict H

module _ {H : Type 0} (fs : BlockFile H) where
  -- the `switch` of `_handle_request`
  unfoldable pub dispatch : RequestType → Request → Files H → Result (Turn H)
  unfolding run_read run_write run_sync
  dispatch RequestType.read r w = run_read fs r w
  dispatch RequestType.write r w = run_write fs r w
  dispatch RequestType.sync r w = ok (run_sync fs r w)
  dispatch RequestType.invalid r w =
      ok (record { progress = true; request = record r { complete = true }; files = w })

  -- `_handle_request`
  unfoldable pub handle_request : Player H → Result (Bool × Player H)
  unfolding begin_request dispatch
  handle_request p =
      let r = begin_request p.request_node p.current_request in
      dispatch r.type r p.files >>= λ t.
      ok (Turn.progress t, record p { current_request = Turn.request t; files = Turn.files t })

  -- the next sub node, if there is one
  unfoldable pub advance : Option Node → Player H → Verdict H
  advance none p = leave false (record p { finished = true })
  advance (some node) p = again (record p { request_node = node })

  unfoldable pub judge : Bool → Player H → Verdict H
  unfolding advance
  judge progress p =
      let id = u32 (p.curr_request_id + 1) in
      if not progress
      then leave false p
      else if not (Request.complete p.current_request)
      then again p
      else if not (Request.success p.current_request)
      then leave true (record p { finished = true })
      else advance (get_elem? p.nodes id) (record p { curr_request_id = id })

  -- What follows the loop.
  unfoldable pub conclude : Bool → Player H → Player H
  conclude failed p =
      if p.finished
      then record p { exits = (if failed then exit_one else exit_success) ∷ p.exits }
      else p

  -- `_process_replay`
  unfoldable pub process_replay : ℕ → Player H → Result (Player H)
  unfolding handle_request judge conclude
  process_replay zero p = throw out_of_fuel
  process_replay (suc fuel) p = handle_request p >>= λ r. elim (judge r.0 r.1) [
    | leave failed q ↦ ok (conclude failed q)
    | again q ↦ process_replay fuel q
  ]

  -- `io_progress_response_handler`
  unfoldable pub io_progress_response_handler : ℕ → Player H → Result (Player H)
  unfolding process_replay
  io_progress_response_handler fuel p = if p.finished then ok p else process_replay fuel p

-- `kick_off`, on a file that was opened, with the first sub node and those behind it.
unfoldable pub first_player : {H : Type 0} → Files H → Node → List Node → Player H
first_player w node rest = record {
  files = w;
  nodes = node ∷ rest;
  request_node = node;
  curr_request_id = 0;
  current_request = empty_request;
  finished = false;
  exits = [];
}

unfoldable pub kick_off :
    {H : Type 0} → BlockFile H → ℕ → Files H → Node → List Node → Result (Player H)
unfolding first_player process_replay
kick_off fs fuel w node rest = process_replay fs fuel (first_player w node rest)

-- The members after the calls so far.
pub data Reach {H : Type 0} (fs : BlockFile H) (w : Files H) (node : Node) (rest : List Node)
    : Player H → Type 0 where
  kicked_off :
      (fuel : ℕ) (p : Player H) → kick_off fs fuel w node rest ≡ ok p → Reach fs w node rest p
  responded :
      (fuel : ℕ) (p q : Player H)
      → Reach fs w node rest p
      → io_progress_response_handler fs fuel p ≡ ok q
      → Reach fs w node rest q
