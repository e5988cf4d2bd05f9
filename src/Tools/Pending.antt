-- ===== src/Tools/Pending.antt =====
-- That the loops for block I/O in src/app/cbe_init/main.cc, src/app/cbe_check/main.cc and
-- src/app/cbe_dump/main.cc leave the request of the program with the library.
use cbe.Wrapper.Encryption.Rounds.{LeavesState, repeat-LeavesState}
use cbe.Prelude.{
  Leaves-bind, Leaves-always, ℕ, ◌/◌, Bool, true, false, ◌≡◌, ◌∙◌, ◌==◌, ◌||◌, not, Result, Option,
  some, none, Bytes, if_elim,
}
use cbe.Types.{Request, valid}
use cbe.Types.Convert.{BlockOperation}
use cbe.Interfaces.Session.{BlockSession, JobLibrary, IoSource}
use cbe.BlockIo.{
  Backend, exchange, submit_loop, ack_loop, submit_round, ack_round, try_submit, submit_at,
  submit_packet, complete_packet, fill_packet, fetch_packet, opcode, op_match,
}

-- A library with at most one request, which it completes once: `pending` tells that it was
-- submitted and has not been dropped.
pub record OneJob {J A : Type 0} (lib : JobLibrary J A) : Type 0 where
  pub pending : J → Bool
  pub peeked :
      (j : J) → valid (JobLibrary.peek_completed_client_request lib j) ≡ true → pending j ≡ true
  pub submitted :
      (r : Request) (a : A) (j : J) → pending (JobLibrary.submit_client_request lib r a j) ≡ true
  pub dropped :
      (r : Request) (j : J) → pending (JobLibrary.drop_completed_client_request lib r j) ≡ false
  pub executed : (d : Bytes) (j : J) → pending (JobLibrary.execute lib d j).0 ≡ pending j
  pub begun :
      (i : ℕ) (j : J)
      → pending (IoSource.io_request_in_progress (JobLibrary.io lib) i j) ≡ pending j
  pub completed :
      (i : ℕ) (b : Bool) (j : J)
      → pending (IoSource.io_request_completed (JobLibrary.io lib) i b j) ≡ pending j

module _ {J K A : Type 0} (lib : JobLibrary J A) (blk : BlockSession K) (syncs : Bool) (ratio : ℕ)
    (one : OneJob lib) (b : Bool) where
  -- The loops for block I/O leave the request of the program.
  abbrev pub Same : Backend J K → Type 0
  Same w = one.pending w.source ≡ b

  abbrev pub SameAfter : Result (Bool × Backend J K) → Type 0
  SameAfter r = LeavesState Same r

  submit_at-Same :
      (r : Request) (index : ℕ) (op : BlockOperation) (o : Option ℕ) (w : Backend J K)
      → Same w
      → SameAfter (submit_at (JobLibrary.io lib) blk syncs ratio r index op o w)
  unfolding submit_at submit_packet
  submit_at-Same r index op none w p = p
  submit_at-Same r index op (some offset) w p =
      Leaves-always _ (fill_packet (JobLibrary.io lib) blk syncs ratio r index _ w) _
        (λ k. one.begun index w.source ∙ p)

  try_submit-Same :
      (r : Request) (index : ℕ) (op : Option BlockOperation) (w : Backend J K)
      → Same w
      → SameAfter (try_submit (JobLibrary.io lib) blk syncs ratio r index op w)
  unfolding try_submit
  try_submit-Same r index none w p = tt
  try_submit-Same r index (some op) w p = submit_at-Same r index op _ _ p

  submit_round-Same :
      (w : Backend J K) → Same w → SameAfter (submit_round (JobLibrary.io lib) blk syncs ratio w)
  unfolding submit_round
  submit_round-Same w p =
      let (r, index) = IoSource.has_io_request (JobLibrary.io lib) w.source in
      if_elim SameAfter (not (BlockSession.ready_to_submit blk w.session)) _ _ (λ _. p)
        λ _.
          if_elim SameAfter (not (valid r)) _ _ (λ _. p)
            λ _.
              if_elim SameAfter (valid w.blk_req) _ _ (λ _. p)
                (λ _. try_submit-Same _ index (opcode syncs r.operation) w p)

  ack_round-Same :
      (w : Backend J K) → Same w → SameAfter (ack_round (JobLibrary.io lib) blk syncs ratio w)
  unfolding ack_round complete_packet
  ack_round-Same w p =
      let (q, k) = BlockSession.try_get_acked_packet blk w.session in
      if_elim SameAfter (not (BlockSession.ack_avail blk w.session)) _ _ (λ _. p)
        λ _.
          if_elim SameAfter (not (valid w.blk_req)) _ _ (λ _. p)
            λ _.
              if_elim SameAfter
                (not (q.block_number / ratio == w.blk_req.block_number)
                  || not (op_match syncs q.operation w.blk_req))
                _ _ (λ _. p)
                λ _.
                  Leaves-always _
                    (fetch_packet (JobLibrary.io lib) blk syncs ratio q (record w { session = k }))
                    _ (λ buf. one.completed _ _ w.source ∙ p)

  pub exchange-Same :
      (progress : Bool) (w : Backend J K)
      → Same w
      → SameAfter (exchange (JobLibrary.io lib) blk syncs ratio progress w)
  unfolding exchange submit_loop ack_loop
  exchange-Same progress w p =
      Leaves-bind (λ (t : Bool × Backend J K). Same t.1) _
        (submit_loop (JobLibrary.io lib) blk syncs ratio progress w) _
        (λ t q. repeat-LeavesState Same _ ack_round-Same 2 t.0 t.1 q)
        (repeat-LeavesState Same _ submit_round-Same 2 progress w p)
