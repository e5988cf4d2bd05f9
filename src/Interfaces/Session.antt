-- ===== src/Interfaces/Session.antt =====
-- What the programs under src/app call and do not implement: Genode's session to a block device
-- with its packet stream, and the libraries that check, dump and initialise a device, which are
-- written in Ada and SPARK.
use cbe.Prelude.{ℕ, Bool, Option, Bytes}
use cbe.Types.{Request}
use cbe.Types.Convert.{BlockOperation}

-- `Block::Packet_descriptor`
pub record Packet : Type 0 where
  pub offset : ℕ
  pub operation : BlockOperation
  pub block_number : ℕ
  pub count : ℕ
  pub succeeded : Bool

-- `Block::Connection` and its packet stream `tx ()`. `alloc_packet` yields the place of the packet
-- in the shared buffer, or throws `Packet_alloc_failed`, which is `none` here. `packet_content` is
-- read from and stored to as one block.
pub record BlockSession (K : Type 0) : Type 0 where
  pub ready_to_submit : K → Bool
  pub alloc_packet : ℕ → K → Option ℕ × K
  pub store_content : Packet → Bytes → K → K
  pub packet_content : Packet → K → Bytes
  pub try_submit_packet : Packet → K → Bool × K
  pub ack_avail : K → Bool
  pub try_get_acked_packet : K → Packet × K
  pub release_packet : Packet → K → K
  pub wakeup : K → K

-- The calls by which a library asks for block I/O, the same in all four libraries.
pub record IoSource (S : Type 0) : Type 0 where
  pub has_io_request : S → Request × ℕ
  pub io_request_in_progress : ℕ → S → S
  pub io_request_completed : ℕ → Bool → S → S

-- `Cbe_check::Library`, `Cbe_dump::Library` and `Cbe_init::Library`, which carry out one request
-- of their client. `A` is what that request says beside the request itself.
pub record JobLibrary (J A : Type 0) : Type 0 where
  pub io : IoSource J
  pub execute : Bytes → J → J × Bytes
  pub execute_progress : J → Bool
  pub client_request_acceptable : J → Bool
  pub submit_client_request : Request → A → J → J
  pub peek_completed_client_request : J → Request
  pub drop_completed_client_request : Request → J → J

-- What the programs hand to `_env.parent().exit()`. The call returns, so a program may go on, and
-- may exit again: the codes are kept in a list, newest first.
pub data ExitCode : Type 0 where
  exit_success exit_one exit_minus_one : ExitCode

-- `Cbe_init::Library::submit_client_request` takes six numbers beside the request.
pub record InitArguments : Type 0 where
  pub vbd_max_lvl_idx : ℕ
  pub vbd_degree : ℕ
  pub vbd_nr_of_leafs : ℕ
  pub ft_max_lvl_idx : ℕ
  pub ft_degree : ℕ
  pub ft_nr_of_leafs : ℕ
