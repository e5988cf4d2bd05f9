-- ===== src/Wrapper.antt =====
-- src/lib/vfs/cbe/vfs.cc, class `Wrapper`: the state that the file systems of the VFS plugin
-- share.
--
-- The CBE library, the crypto component and the handle of the back end are states of the types
-- `L`, `C` and `H` behind the interfaces of `Interfaces`. The memory of the client, to whose
-- buffers the requests point by address, is `memory`. A helper request owns a block, whose
-- address is `address`. `notified` lists the handles whose `io_progress_response` was called,
-- newest first. Log output is left out.
pub mod Submit
pub mod Tests
pub mod Backend
pub mod Frontend
pub mod Encryption
pub mod Handle
use cbe.Prelude.{ℕ, Bool, false, Bytes, Option, List, [], if◌then◌else◌, true, some, ◌∷◌}
use cbe.Types.{Request, no_request}
use cbe.Interfaces.{Buffers, Library, Crypto, BlockFile}
use cbe.IoJob.{IoJob}

-- `Rekeying::State` and `Extending::State`
pub data ControlState : Type 0 where
  unknown idle in_progress : ControlState

-- `Rekeying::Result` and `Extending::Result`
pub data LastResult : Type 0 where
  none success failed : LastResult

pub record Rekeying : Type 0 where
  pub state : ControlState
  pub last_result : LastResult
  pub key_id : ℕ

-- `Extending::Type`
pub data TreeType : Type 0 where
  invalid vbd ft : TreeType

pub record Extending : Type 0 where
  pub type : TreeType
  pub state : ControlState
  pub last_result : LastResult

-- `Helper_request::State`
pub data HelperState : Type 0 where
  none pending in_progress complete error : HelperState

pub record HelperRequest : Type 0 where
  pub state : HelperState
  pub block_data : Bytes
  pub cbe_request : Request
  pub address : ℕ

-- `Frontend_request::State`
pub data FrontendState : Type 0 where
  none pending in_progress complete error error_eof : FrontendState

pub record FrontendRequest : Type 0 where
  pub state : FrontendState
  pub count : ℕ
  pub cbe_request : Request
  pub snap_id : ℕ
  pub offset : ℕ
  pub helper_offset : ℕ

abbrev pub no_frontend_request : FrontendRequest
no_frontend_request = record {
  state = FrontendState.none;
  count = 0;
  cbe_request = no_request;
  snap_id = 0;
  offset = 0;
  helper_offset = 0;
}

pub record Wrapper (L C H : Type 0) : Type 0 where
  pub cbe : L
  pub crypto : C
  pub handle : H
  pub backend_job : Option IoJob
  pub buffers : Buffers
  pub rekey_obj : Rekeying
  pub extend_obj : Extending
  pub helper_read : HelperRequest
  pub helper_write : HelperRequest
  pub frontend : FrontendRequest
  pub create_snapshot_request : FrontendRequest
  pub discard_snapshot_request : FrontendRequest
  pub memory : Bytes
  pub enqueued_handle : Option ℕ
  pub io_progress_pending : Bool
  pub notified : List ℕ

-- The tests `pending ()`, `in_progress ()` and `complete ()` of the two kinds of requests.
abbrev pub helper_pending : HelperRequest → Bool
helper_pending r = elim r.state [ HelperState.pending ↦ true | _ ↦ false ]

abbrev pub helper_in_progress : HelperRequest → Bool
helper_in_progress r = elim r.state [ HelperState.in_progress ↦ true | _ ↦ false ]

abbrev pub helper_complete : HelperRequest → Bool
helper_complete r = elim r.state [ HelperState.complete ↦ true | _ ↦ false ]

abbrev pub frontend_pending : FrontendRequest → Bool
frontend_pending r = elim r.state [ FrontendState.pending ↦ true | _ ↦ false ]

abbrev pub frontend_in_progress : FrontendRequest → Bool
frontend_in_progress r = elim r.state [ FrontendState.in_progress ↦ true | _ ↦ false ]

abbrev pub frontend_idle : FrontendRequest → Bool
frontend_idle r = elim r.state [ FrontendState.none ↦ true | _ ↦ false ]

module _ {L C H : Type 0} where
  abbrev pub set_frontend : FrontendState → Wrapper L C H → Wrapper L C H
  set_frontend s w = record w { frontend = record w.frontend { state = s } }

  abbrev pub set_helper_read : HelperState → Wrapper L C H → Wrapper L C H
  set_helper_read s w = record w { helper_read = record w.helper_read { state = s } }

  abbrev pub set_helper_write : HelperState → Wrapper L C H → Wrapper L C H
  set_helper_write s w = record w { helper_write = record w.helper_write { state = s } }

  -- A handle that waits is told at once, if progress was made while nobody waited.
  unfoldable pub enqueue_handle : ℕ → Wrapper L C H → Wrapper L C H
  enqueue_handle h w =
      if w.io_progress_pending
      then record w {
        enqueued_handle = Option.some h;
        io_progress_pending = false;
        notified = h ∷ w.notified;
      }
      else record w { enqueued_handle = Option.some h }

  unfoldable pub ack_frontend_request : Wrapper L C H → Wrapper L C H
  ack_frontend_request w = record w {
    frontend = record w.frontend { state = FrontendState.none; cbe_request = no_request };
    enqueued_handle = Option.none;
  }

  -- `frontend_request ()`
  unfoldable pub frontend_request : Wrapper L C H → FrontendRequest
  frontend_request w = w.frontend

-- The members as they are initialised, beside the library that `_initialize_cbe` constructs. The
-- helper requests have their blocks at the two addresses.
module _ {L C H : Type 0} (lib : Library L) where
  unfoldable pub fresh_wrapper : C → H → Buffers → Bytes → ℕ → ℕ → Wrapper L C H
  fresh_wrapper crypto handle buffers memory read_address write_address = record {
    cbe = Library.fresh lib;
    crypto = crypto;
    handle = handle;
    backend_job = Option.none;
    buffers = buffers;
    rekey_obj = record { state = ControlState.unknown; last_result = LastResult.none; key_id = 0 };
    extend_obj = record {
      type = TreeType.invalid;
      state = ControlState.unknown;
      last_result = LastResult.none;
    };
    helper_read = record {
      state = HelperState.none;
      block_data = λ i. 0;
      cbe_request = no_request;
      address = read_address;
    };
    helper_write = record {
      state = HelperState.none;
      block_data = λ i. 0;
      cbe_request = no_request;
      address = write_address;
    };
    frontend = no_frontend_request;
    create_snapshot_request = no_frontend_request;
    discard_snapshot_request = no_frontend_request;
    memory = memory;
    enqueued_handle = Option.none;
    io_progress_pending = false;
    notified = [];
  }
