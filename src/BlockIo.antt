-- ===== src/BlockIo.antt =====
-- src/app/cbe_tester/main.cc, and the same loops in src/app/cbe_check, cbe_dump and cbe_init: block
-- requests of a library to a Genode block session, one at a time.
--
-- What the loops work on is the record `Backend`: the library that asks for block I/O, the block
-- session, the request in flight `_blk_req` and the buffer `_blk_buf`. `syncs` tells whether the
-- loop knows the operation SYNC, as those for the CBE and for the initialisation do; `ratio` is
-- `_blk_ratio`, the number of blocks of the session to a block of the CBE, and 1 in the tester,
-- which has no such member. Log output is left out.
pub mod Pairing
pub mod Tests
use cbe.Prelude.{
  ℕ, ◌*◌, ◌/◌, suc, zero, Bool, true, false, ◌&&◌, ◌||◌, not, ◌==◌, if◌then◌else◌, Option, some,
  none, Bytes, Result, ok, throw, ◌>>=◌, invalid_io_request,
}
use cbe.Types.{
  Operation, Request, no_request, valid, is_read, is_write, is_sync, set_tag, item, u32, u64,
  block_size,
}
use cbe.Types.Convert.{BlockOperation}
use cbe.Interfaces.Session.{BlockSession, IoSource, Packet}
use cbe.Wrapper.Encryption.{repeat}

pub record Backend (S K : Type 0) : Type 0 where
  pub source : S
  pub session : K
  pub blk_req : Request
  pub blk_buf : Bytes

-- the `switch` on the operation
unfoldable pub opcode : Bool → Operation → Option BlockOperation
opcode syncs Operation.read = some BlockOperation.read
opcode syncs Operation.write = some BlockOperation.write
opcode syncs Operation.sync = if syncs then some BlockOperation.sync else none
opcode syncs _ = none

-- `op_match`
unfoldable pub op_match : Bool → BlockOperation → Request → Bool
op_match syncs BlockOperation.read r = is_read r
op_match syncs BlockOperation.write r = is_write r
op_match syncs BlockOperation.sync r = syncs && is_sync r
op_match syncs _ r = false

abbrev pub is_read_packet : BlockOperation → Bool
is_read_packet BlockOperation.read = true
is_read_packet _ = false

module _ {S K : Type 0} (src : IoSource S) (blk : BlockSession K) (syncs : Bool) (ratio : ℕ) where
  -- A packet for a write carries the block of the buffer.
  unfoldable pub fill_packet : Request → ℕ → Packet → Backend S K → Result K
  unfolding item
  fill_packet r index p w =
      if is_write r
      then (item w.blk_buf index >>= λ block. ok (BlockSession.store_content blk p block w.session))
      else ok w.session

  -- the body of `try`, from the packet that was allocated on
  unfoldable pub submit_packet : Request → ℕ → Packet → Backend S K → Result (Bool × Backend S K)
  unfolding fill_packet
  submit_packet r index p w = fill_packet r index p w >>= λ k. ok (
    true,
    record w {
      session = (BlockSession.try_submit_packet blk p k).1;
      blk_req = r;
      source = IoSource.io_request_in_progress src index w.source;
    },
  )

  -- The packet that was allocated, unless `Packet_alloc_failed` was thrown, which is caught.
  unfoldable pub submit_at :
      Request → ℕ → BlockOperation → Option ℕ → Backend S K → Result (Bool × Backend S K)
  unfolding submit_packet
  submit_at r index op none w = ok (false, w)
  submit_at r index op (some offset) w =
      submit_packet r index
        (record {
          offset = offset;
          operation = op;
          block_number = u64 (r.block_number * ratio);
          count = u64 (r.count * ratio);
          succeeded = false;
        })
        w

  -- the `try` block with its handler
  unfoldable pub try_submit :
      Request → ℕ → Option BlockOperation → Backend S K → Result (Bool × Backend S K)
  unfolding submit_at
  try_submit r index none w = throw invalid_io_request
  try_submit r index (some op) w =
      let (offset, k) = BlockSession.alloc_packet blk block_size w.session in
      submit_at r index op offset (record w { session = k })

  -- One round of the loop `while (_blk.tx()->ready_to_submit())`.
  unfoldable pub submit_round : Backend S K → Result (Bool × Backend S K)
  unfolding opcode try_submit
  submit_round w =
      let (r, index) = IoSource.has_io_request src w.source in
      if not (BlockSession.ready_to_submit blk w.session)
      then ok (false, w)
      else if not (valid r)
      then ok (false, w)
      else if valid w.blk_req
      then ok (false, w)
      else try_submit (set_tag (u32 index) r) index (opcode syncs r.operation) w

  -- What a packet that was read leaves in the buffer.
  unfoldable pub fetch_packet : Packet → Backend S K → Result Bytes
  unfolding item
  fetch_packet p w =
      if is_read_packet p.operation && p.succeeded
      then (item w.blk_buf w.blk_req.tag >>= λ _. ok (BlockSession.packet_content blk p w.session))
      else ok w.blk_buf

  -- The packet answers the request in flight.
  unfoldable pub complete_packet : Packet → Backend S K → Result (Bool × Backend S K)
  unfolding fetch_packet
  complete_packet p w = fetch_packet p w >>= λ buf. ok (
    true,
    record {
      source = IoSource.io_request_completed src w.blk_req.tag p.succeeded w.source;
      session = BlockSession.release_packet blk p w.session;
      blk_req = no_request;
      blk_buf = buf;
    },
  )

  -- One round of the loop `while (_blk.tx()->ack_avail())`.
  unfoldable pub ack_round : Backend S K → Result (Bool × Backend S K)
  unfolding op_match complete_packet
  ack_round w =
      let (p, k) = BlockSession.try_get_acked_packet blk w.session in
      let taken = record w { session = k } in
      if not (BlockSession.ack_avail blk w.session)
      then ok (false, w)
      else if not (valid w.blk_req)
      then ok (false, taken)
      else if not (p.block_number / ratio == w.blk_req.block_number)
          || not (op_match syncs p.operation w.blk_req)
      then ok (false, taken)
      else complete_packet p taken

  -- The two loops. Neither goes round more than twice, since one request is in flight at most.
  unfoldable pub submit_loop : Bool → Backend S K → Result (Bool × Backend S K)
  unfolding repeat submit_round
  submit_loop progress w = repeat submit_round 2 progress w

  unfoldable pub ack_loop : Bool → Backend S K → Result (Bool × Backend S K)
  unfolding repeat ack_round
  ack_loop progress w = repeat ack_round 2 progress w

  -- Both, in the order in which they stand.
  unfoldable pub exchange : Bool → Backend S K → Result (Bool × Backend S K)
  unfolding submit_loop ack_loop
  exchange progress w = submit_loop progress w >>= λ s. ack_loop s.0 s.1
