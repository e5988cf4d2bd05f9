-- ===== src/Wrapper/Frontend/Helper.antt =====
-- src/lib/vfs/cbe/vfs.cc, `_handle_cbe_frontend` behind its loop: a block that was read for an
-- unaligned request is handed to the client, or merged with the client's bytes and written back.
use cbe.Types.{Operation, block_size, set_success}
use cbe.Prelude.{Bool, Bytes, memcpy, false, if◌then◌else◌, true}
use cbe.Wrapper.{Wrapper, HelperState, FrontendState, helper_complete}

module _ {L C H : Type 0} where
  unfoldable pub hand_out : Wrapper L C H → Wrapper L C H
  hand_out w = record w {
    memory =
        memcpy w.memory w.frontend.cbe_request.offset w.helper_read.block_data
          w.frontend.helper_offset w.frontend.count;
    helper_read = record w.helper_read { state = HelperState.none };
    frontend = record w.frontend {
      state = FrontendState.complete;
      cbe_request = set_success w.helper_read.cbe_request.success w.frontend.cbe_request;
    };
  }

  -- The block as it was read, with the client's bytes in their place.
  abbrev pub merged : Wrapper L C H → Bytes
  merged w =
      memcpy (memcpy w.helper_write.block_data 0 w.helper_read.block_data 0 block_size)
        w.frontend.helper_offset w.memory w.frontend.cbe_request.offset w.frontend.count

  unfoldable pub write_back : Wrapper L C H → Wrapper L C H
  write_back w = record w {
    helper_write = record w.helper_write {
      state = HelperState.pending;
      block_data = merged w;
      cbe_request = record {
        operation = Operation.write;
        success = false;
        block_number = w.helper_read.cbe_request.block_number;
        offset = w.helper_write.address;
        count = w.helper_read.cbe_request.count;
        key_id = w.helper_read.cbe_request.key_id;
        tag = w.helper_read.cbe_request.tag;
      };
    };
    helper_read = record w.helper_read { state = HelperState.none };
  }

  unfoldable pub serve_client : Operation → Wrapper L C H → Wrapper L C H
  unfolding hand_out write_back
  serve_client Operation.read w = hand_out w
  serve_client Operation.write w = write_back w
  serve_client _ w = w

  unfoldable pub finish_helper_read : Bool → Wrapper L C H → Bool × Wrapper L C H
  unfolding serve_client
  finish_helper_read progress w =
      if helper_complete w.helper_read
      then (true, serve_client w.frontend.cbe_request.operation w)
      else (progress, w)

  unfoldable pub finish_helper_write : Bool → Wrapper L C H → Bool × Wrapper L C H
  finish_helper_write progress w =
      if helper_complete w.helper_write
      then (
        true,
        record w {
          helper_write = record w.helper_write { state = HelperState.none };
          frontend = record w.frontend { state = FrontendState.complete };
        },
      )
      else (progress, w)
