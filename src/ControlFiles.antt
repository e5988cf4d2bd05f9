-- ===== src/ControlFiles.antt =====
-- src/lib/vfs/cbe/vfs.cc, the control files: `Extend_file_system`, `Rekey_file_system`,
-- `Create_snapshot_file_system` and `Discard_snapshot_file_system`.
--
-- How Genode finds an argument or a number in the text that is written is a parameter of the
-- functions: `tree`, `blocks`, `flag` and `id` are the readings of that text. A text that is read
-- is the text itself beside the number of bytes that is reported.
pub mod Writes
pub mod Tests
use Prim.Native.String.{String, len, ◌++◌}
use cbe.Prelude.{
  List, Bool, ℕ, Option, if◌then◌else◌, true, Result, false, not, ◌∷◌, [], ok, ◌==◌, none, ◌&&◌,
  some, ◌>>=◌, ltb, ◌-◌,
}
use cbe.Interfaces.{Library, Crypto, BlockFile, WriteResult, write_err_io, write_ok}
use cbe.Wrapper.{Wrapper, ControlState, TreeType, LastResult}
use cbe.Wrapper.Handle.{create_snapshot, discard_snapshot, start_extending, start_rekeying}

-- `Rekeying::state_to_cstring` and `Extending::state_to_cstring`
unfoldable pub state_to_cstring : ControlState → String
state_to_cstring ControlState.unknown = "unknown"
state_to_cstring ControlState.idle = "idle"
state_to_cstring ControlState.in_progress = "in-progress"

-- The three texts behind `last-result:`, which is `none` while a request is in progress.
unfoldable pub result_to_cstring : ControlState → LastResult → String
result_to_cstring ControlState.in_progress r = "none"
result_to_cstring s LastResult.none = "none"
result_to_cstring s LastResult.success = "success"
result_to_cstring s LastResult.failed = "failed"

unfoldable pub status_text : ControlState → LastResult → String
unfolding state_to_cstring result_to_cstring
status_text s r = state_to_cstring s ++ " last-result:" ++ result_to_cstring s r ++ "\n"

-- `Vfs_handle::read` of the first two files, at a seek position and for a buffer of `count`
-- bytes: nothing behind the start, else the text and the count that is reported.
unfoldable pub read_status : ControlState → LastResult → ℕ → ℕ → Option (String × ℕ)
unfolding status_text
read_status s r seek count =
    let text = status_text s r in
    if not (seek == 0)
    then none
    else some (text, if ltb (len text - 1) count then len text else count)

abbrev pub starts_with : List ℕ → List ℕ → Bool
starts_with [] s = true
starts_with (c ∷ cs) [] = false
starts_with (c ∷ cs) (d ∷ ds) = (c == d) && starts_with cs ds

-- `Extending::string_to_type`: the first three characters are `vbd`, or the first two `ft`.
unfoldable pub string_to_type : List ℕ → TreeType
string_to_type s =
    if starts_with (118 ∷ 98 ∷ 100 ∷ []) s
    then TreeType.vbd
    else if starts_with (102 ∷ 116 ∷ []) s
    then TreeType.ft
    else TreeType.invalid

abbrev pub is_idle : ControlState → Bool
is_idle ControlState.idle = true
is_idle _ = false

abbrev pub is_invalid : TreeType → Bool
is_invalid TreeType.invalid = true
is_invalid _ = false

module _ {L C H : Type 0} (lib : Library L) (cry : Crypto C) (fs : BlockFile H) where
  abbrev pub Written : Type 0
  Written = WriteResult × Option ℕ × Wrapper L C H

  -- `Extend_file_system`, `Vfs_handle::write`
  unfoldable pub write_extend : List ℕ → ℕ → ℕ → ℕ → Wrapper L C H → Result Written
  unfolding start_extending
  write_extend tree blocks fuel count w =
      let type = string_to_type tree in
      if not (is_idle w.extend_obj.state)
      then ok (write_err_io, none, w)
      else if is_invalid type
      then ok (write_err_io, none, w)
      else if blocks == 0
      then ok (write_err_io, none, w)
      else (start_extending lib cry fs fuel type blocks w >>= λ r.
          ok (if r.0 then (write_ok, some count, r.1) else (write_err_io, none, r.1)))

  -- `Rekey_file_system`, `Vfs_handle::write`
  unfoldable pub write_rekey : Bool → ℕ → ℕ → Wrapper L C H → Result Written
  unfolding start_rekeying
  write_rekey flag fuel count w =
      if not (is_idle w.rekey_obj.state)
      then ok (write_err_io, none, w)
      else if not flag
      then ok (write_err_io, none, w)
      else (start_rekeying lib cry fs fuel w >>= λ r.
          ok (if r.0 then (write_ok, some count, r.1) else (write_err_io, none, r.1)))

  -- `Create_snapshot_file_system`, `Vfs_handle::write`
  unfoldable pub write_create : Bool → ℕ → ℕ → Wrapper L C H → Result Written
  unfolding create_snapshot
  write_create flag fuel count w =
      if not flag
      then ok (write_err_io, none, w)
      else (create_snapshot lib cry fs fuel w >>= λ r.
          ok (write_ok, some (if r.0 then count else 0), r.1))

  -- `Discard_snapshot_file_system`, `Vfs_handle::write`
  unfoldable pub write_discard : ℕ → ℕ → ℕ → Wrapper L C H → Result Written
  unfolding discard_snapshot
  write_discard id fuel count w =
      if id == 0
      then ok (write_err_io, some 0, w)
      else (discard_snapshot lib cry fs fuel id w >>= λ r.
          ok (if not r.0 then write_ok else write_err_io, some 0, r.1))
