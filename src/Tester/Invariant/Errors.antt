-- ===== src/Tester/Invariant/Errors.antt =====
-- Which exceptions the loops and the block I/O of src/app/cbe_tester/main.cc may throw.
use cbe.Types.Convert.{BlockOperation}
use cbe.BlockIo.{
  ack_loop, ack_round, complete_packet, exchange, submit_at, submit_loop, submit_round, try_submit,
  Backend, fetch_packet, submit_packet, fill_packet, is_read_packet, op_match,
}
use cbe.Prelude.{
  ℕ, zero, suc, Bool, true, Option, some, none, Result, ok, throw, if_elim, not, ◌>>=◌, ◌||◌, ◌&&◌,
  Bytes, ◌==◌, ◌/◌,
}
use cbe.Types.{valid, Request, item, is_write, set_tag, u32}
use cbe.Interfaces.Session.{IoSource, BlockSession, Packet}
use cbe.Wrapper.Encryption.{repeat}
use cbe.Tester.Invariant.{Keeps, returns, throws, Safe, Keeps-bind}

Safe-bind :
    {A B : Type 0} (r : Result A) (f : A → Result B)
    → Safe r
    → ((a : A) → Safe (f a))
    → Safe (r >>= f)
Safe-bind (ok a) f h k = k a
Safe-bind (throw e) f h k = h

-- A loop throws what its rounds throw, or for want of rounds.
repeat-Safe :
    {S : Type 0} (round : S → Result (Bool × S))
    → ((s : S) → Safe (round s))
    → (n : ℕ) (progress : Bool) (s : S) → Safe (repeat round n progress s)
unfolding repeat
repeat-Safe round h zero progress s = (λ e. cc, λ e. cc)
repeat-Safe round h (suc n) progress s =
    Safe-bind (round s) _ (h s)
      (λ t. if_elim Safe t.0 _ _ (λ _. repeat-Safe round h n true t.1) (λ _. tt))

pub repeat-Keeps :
    {S : Type 0} (P : S → Type 0) (round : S → Result (Bool × S))
    → ((s : S) → P s → Keeps P (round s))
    → (n : ℕ) (progress : Bool) (s : S) → P s
    → Keeps P (repeat round n progress s)
unfolding repeat
repeat-Keeps P round h zero progress s p = throws _ (λ e. cc) (λ e. cc)
repeat-Keeps P round h (suc n) progress s p = Keeps-bind P P (round s) _ (h s p) (λ b t q.
    if_elim (Keeps P) b _ _ (λ _. repeat-Keeps P round h n true t q) (λ _. returns progress t q))

pub item-Safe : (d : Bytes) (i : ℕ) → Safe (item d i)
unfolding item
item-Safe d i = if_elim Safe (i == 0) _ _ (λ _. tt) (λ _. (λ e. cc, λ e. cc))

pub item-cases :
    {M : Type 0} {P : M → Type 0} (r : Result Bytes)
    → Safe r
    → (f : Bytes → Result (Bool × M)) → ((block : Bytes) → Keeps P (f block))
    → Keeps P (r >>= f)
item-cases (ok a) h f k = k a
item-cases (throw e) h f k = throws e h.0 h.1

-- The loops for block I/O throw nothing of the tests.
module _ {S K : Type 0} (src : IoSource S) (blk : BlockSession K) (syncs : Bool) (ratio : ℕ) where
  submit_at-Safe :
      (r : Request) (index : ℕ) (op : BlockOperation) (o : Option ℕ) (w : Backend S K)
      → Safe (submit_at src blk syncs ratio r index op o w)
  unfolding submit_at submit_packet fill_packet
  submit_at-Safe r index op none w = tt
  submit_at-Safe r index op (some o) w =
      Safe-bind _ _
        (if_elim Safe (is_write r) _ _
          (λ _. Safe-bind (item w.blk_buf index) _ (item-Safe _ _) (λ _. tt)) (λ _. tt))
        (λ _. tt)

  try_submit-Safe :
      (r : Request) (index : ℕ) (o : Option BlockOperation) (w : Backend S K)
      → Safe (try_submit src blk syncs ratio r index o w)
  unfolding try_submit
  try_submit-Safe r index none w = (λ e. cc, λ e. cc)
  try_submit-Safe r index (some op) w = submit_at-Safe r index op _ _

  submit_round-Safe : (w : Backend S K) → Safe (submit_round src blk syncs ratio w)
  unfolding submit_round
  submit_round-Safe w =
      let (r, index) = IoSource.has_io_request src w.source in
      if_elim Safe (not (BlockSession.ready_to_submit blk w.session)) _ _ (λ _. tt)
        λ _.
          if_elim Safe (not (valid r)) _ _ (λ _. tt)
            λ _.
              if_elim Safe (valid w.blk_req) _ _ (λ _. tt)
                λ _. try_submit-Safe (set_tag (u32 index) r) index _ w

  complete_packet-Safe :
      (p : Packet) (w : Backend S K) → Safe (complete_packet src blk syncs ratio p w)
  unfolding complete_packet fetch_packet
  complete_packet-Safe p w =
      Safe-bind _ _
        (if_elim Safe (is_read_packet p.operation && p.succeeded) _ _
          (λ _. Safe-bind (item w.blk_buf w.blk_req.tag) _ (item-Safe _ _) (λ _. tt)) (λ _. tt))
        (λ _. tt)

  ack_round-Safe : (w : Backend S K) → Safe (ack_round src blk syncs ratio w)
  unfolding ack_round
  ack_round-Safe w =
      let (p, k) = BlockSession.try_get_acked_packet blk w.session in
      if_elim Safe (not (BlockSession.ack_avail blk w.session)) _ _ (λ _. tt)
        λ _.
          if_elim Safe (not (valid w.blk_req)) _ _ (λ _. tt)
            λ _.
              if_elim Safe
                (not (p.block_number / ratio == w.blk_req.block_number)
                  || not (op_match syncs p.operation w.blk_req))
                _ _ (λ _. tt) λ _. complete_packet-Safe p (record w { session = k })

  pub submit_loop-Safe :
      (progress : Bool) (w : Backend S K) → Safe (submit_loop src blk syncs ratio progress w)
  unfolding submit_loop
  submit_loop-Safe progress w = repeat-Safe _ submit_round-Safe 2 progress w

  pub ack_loop-Safe :
      (progress : Bool) (w : Backend S K) → Safe (ack_loop src blk syncs ratio progress w)
  unfolding ack_loop
  ack_loop-Safe progress w = repeat-Safe _ ack_round-Safe 2 progress w

  pub exchange-Safe :
      (progress : Bool) (w : Backend S K) → Safe (exchange src blk syncs ratio progress w)
  unfolding exchange
  exchange-Safe progress w =
      Safe-bind (submit_loop src blk syncs ratio progress w) _ (submit_loop-Safe progress w)
        (λ e. ack_loop-Safe e.0 e.1)
