-- ===== src/BlockIo/Pairing.antt =====
-- That the loops for block I/O of src/app end, and answer the library request by request.
use cbe.Types.Convert.{BlockOperation}
use cbe.Prelude.{
  ℕ, ◌<◌, ◌^◌, Bool, true, false, Option, some, none, if◌then◌else◌, Result, ok, throw, ◌>>=◌,
  out_of_fuel, ◌≡◌, ◌≢◌, refl, arith, Bool-cases, inl, inr, Bytes, ◌==◌, ◌&&◌, if_elim, Exception,
  not, ◌/◌, ◌||◌, ◌∙◌, ap,
}
use cbe.Types.{valid, item, Request, is_write, set_tag, u32}
use cbe.Interfaces.Session.{BlockSession, IoSource, Packet}
use cbe.Wrapper.Encryption.{repeat}
use cbe.BlockIo.{
  Backend, submit_round, ack_round, submit_loop, ack_loop, exchange, try_submit, submit_packet,
  complete_packet, fill_packet, fetch_packet, submit_at, is_read_packet, opcode, op_match,
}

-- How a library keeps its block requests: `open` is the index of the request that it takes to be
-- in progress. It begins one where there is none, and takes the completion of that one.
pub record Pairs {S : Type 0} (src : IoSource S) : Type 0 where
  pub open_request : S → Option ℕ
  pub small : (s : S) → (IoSource.has_io_request src s).1 < 2 ^ 32
  pub begun :
      (i : ℕ) (s : S)
      → open_request s ≡ none
      → open_request (IoSource.io_request_in_progress src i s) ≡ some i
  pub completed :
      (i : ℕ) (b : Bool) (s : S)
      → open_request s ≡ some i
      → open_request (IoSource.io_request_completed src i b s) ≡ none

module _ {S K : Type 0} (src : IoSource S) (blk : BlockSession K) (pairs : Pairs src) where
  -- The request that the library takes to be in progress is the one in flight, if any.
  abbrev pub Paired : Backend S K → Type 0
  Paired w =
      Pairs.open_request pairs w.source ≡ (if valid w.blk_req then some w.blk_req.tag else none)

  -- Code that returns left the two paired, and no loop of it ran out of rounds.
  abbrev pub Good : Result (Bool × Backend S K) → Type 0
  Good (ok (b, w)) = Paired w
  Good (throw e) = e ≢ out_of_fuel

  -- The same of one round, after which `P` holds if the loop goes on.
  data Round (P : Backend S K → Type 0) : Result (Bool × Backend S K) → Type 0 where
    returns : (b : Bool) (w : Backend S K) → Paired w → (b ≡ true → P w) → Round P (ok (b, w))
    throws : (e : Exception) → e ≢ out_of_fuel → Round P (throw e)

  after_first :
      (r : Result (Bool × Backend S K))
      → Round (λ _. ⊥) r
      → Good (r >>= λ t. if t.0 then throw out_of_fuel else ok (true, t.1))
  after_first _ (returns true w p k) = absurd (k refl)
  after_first _ (returns false w p k) = p
  after_first _ (throws e h) = h

  module _ (P : Backend S K → Type 0) (round : Backend S K → Result (Bool × Backend S K))
      (first : (w : Backend S K) → Paired w → Round P (round w))
      (last : (w : Backend S K) → Paired w → P w → Round (λ _. ⊥) (round w)) where
    at_first :
        (progress : Bool) (r : Result (Bool × Backend S K))
        → Round P r
        → Good (
            r >>= λ t.
            if t.0
            then (round t.1 >>= λ u. if u.0 then throw out_of_fuel else ok (true, u.1))
            else ok (progress, t.1))
    at_first progress _ (returns true w p k) = after_first (round w) (last w p (k refl))
    at_first progress _ (returns false w p k) = p
    at_first progress _ (throws e h) = h

    -- A loop whose second round is its last.
    repeat-Good : (progress : Bool) (w : Backend S K) → Paired w → Good (repeat round 2 progress w)
    unfolding repeat
    repeat-Good progress w p = at_first progress (round w) (first w p)

  module _ (syncs : Bool) (ratio : ℕ) where
    abbrev InFlight : Backend S K → Type 0
    InFlight w = valid w.blk_req ≡ true

    abbrev Empty : Backend S K → Type 0
    Empty w = valid w.blk_req ≡ false

    -- A part of a round that does not loop.
    abbrev Loopless {ℓ} : {A : Type ℓ} → Result A → Type 0
    Loopless (ok a) = Unit {0}
    Loopless (throw e) = e ≢ out_of_fuel

    bind-Round :
        {A : Type 0} (P : Backend S K → Type 0) (m : Result A) (f : A → Result (Bool × Backend S K))
        → Loopless m
        → ((a : A) → Round P (f a))
        → Round P (m >>= f)
    bind-Round P (ok a) f h k = k a
    bind-Round P (throw e) f h k = throws e h

    then-Loopless :
        {A B : Type 0} (m : Result A) (f : A → B) → Loopless m → Loopless (m >>= λ a. ok (f a))
    then-Loopless (ok a) f h = tt
    then-Loopless (throw e) f h = h

    item-Loopless : (b : Bytes) (i : ℕ) → Loopless (item b i)
    unfolding item
    item-Loopless b i = elim (Bool-cases (i == 0)) [ inl e ↦ rw e tt | inr e ↦ rw e (λ h. cc) ]

    store-Loopless :
        (b : Bool) (d : Bytes) (index : ℕ) (p : Packet) (k : K)
        → Loopless (
            if b
            then (item d index >>= λ block. ok (BlockSession.store_content blk p block k))
            else ok k)
    store-Loopless false d index p k = tt
    store-Loopless true d index p k = then-Loopless (item d index) _ (item-Loopless d index)

    fill_packet-Loopless :
        (r : Request) (index : ℕ) (p : Packet) (w : Backend S K)
        → Loopless (fill_packet src blk syncs ratio r index p w)
    unfolding fill_packet
    fill_packet-Loopless r index p w = store-Loopless (is_write r) w.blk_buf index p w.session

    fetch_packet-Loopless :
        (p : Packet) (w : Backend S K) → Loopless (fetch_packet src blk syncs ratio p w)
    unfolding fetch_packet
    fetch_packet-Loopless p w = elim (Bool-cases (is_read_packet p.operation && p.succeeded)) [
      | inl e ↦ rw e (then-Loopless (item w.blk_buf w.blk_req.tag) _ (item-Loopless _ _))
      | inr e ↦ rw e tt
    ]

    submit_packet-Round :
        (r : Request) (index : ℕ) (p : Packet) (w : Backend S K)
        → Pairs.open_request pairs w.source ≡ none
        → valid r ≡ true
        → r.tag ≡ index
        → Round InFlight (submit_packet src blk syncs ratio r index p w)
    unfolding submit_packet
    submit_packet-Round r index p w closed v t =
        bind-Round InFlight (fill_packet src blk syncs ratio r index p w) _
          (fill_packet-Loopless r index p w)
          (λ k. returns true _ (ground (arith, Pairs.begun pairs index w.source closed)) (λ _. v))

    submit_at-Round :
        (r : Request) (index : ℕ) (op : BlockOperation) (offset : Option ℕ) (w : Backend S K)
        → Pairs.open_request pairs w.source ≡ none
        → Empty w
        → valid r ≡ true
        → r.tag ≡ index
        → Round InFlight (submit_at src blk syncs ratio r index op offset w)
    unfolding submit_at
    submit_at-Round r index op none w closed e v t = returns false w (ground arith) (λ h. cc)
    submit_at-Round r index op (some offset) w closed e v t =
        submit_packet-Round r index _ w closed v t

    try_submit-Round :
        (r : Request) (index : ℕ) (op : Option BlockOperation) (w : Backend S K)
        → Pairs.open_request pairs w.source ≡ none
        → Empty w
        → valid r ≡ true
        → r.tag ≡ index
        → Round InFlight (try_submit src blk syncs ratio r index op w)
    unfolding try_submit
    try_submit-Round r index none w closed e v t = throws _ (λ h. cc)
    try_submit-Round r index (some op) w closed e v t = submit_at-Round r index op _ _ closed e v t

    stays : (P : Backend S K → Type 0) (w : Backend S K) → Paired w → Round P (ok (false, w))
    stays P w p = returns false w p (λ h. cc)

    submit_round-Round :
        (w : Backend S K) → Paired w → Round InFlight (submit_round src blk syncs ratio w)
    unfolding submit_round
    submit_round-Round w p =
        let (r, index) = IoSource.has_io_request src w.source in
        let stay = stays InFlight w p in
        if_elim (Round InFlight) (not (BlockSession.ready_to_submit blk w.session)) _ _ (λ _. stay)
          λ _.
            if_elim (Round InFlight) (not (valid r)) _ _ (λ _. stay)
              λ v.
                if_elim (Round InFlight) (valid w.blk_req) _ _ (λ _. stay)
                  λ e.
                    try_submit-Round (set_tag (u32 index) r) index (opcode syncs r.operation) w
                      (p ∙ ap (λ b. if b then some w.blk_req.tag else none) e) e (ground arith)
                      (ground (arith, Pairs.small pairs w.source))

    submit_round-last :
        (w : Backend S K)
        → Paired w
        → InFlight w
        → Round (λ _. ⊥) (submit_round src blk syncs ratio w)
    unfolding submit_round
    submit_round-last w p v =
        let (r, index) = IoSource.has_io_request src w.source in
        let stay = stays (λ _. ⊥) w p in
        if_elim (Round (λ _. ⊥)) (not (BlockSession.ready_to_submit blk w.session)) _ _ (λ _. stay)
          λ _. if_elim (Round (λ _. ⊥)) (not (valid r)) _ _ (λ _. stay) λ _. rw v stay

    complete_packet-Round :
        (p : Packet) (w : Backend S K)
        → Paired w
        → InFlight w
        → Round Empty (complete_packet src blk syncs ratio p w)
    unfolding complete_packet
    complete_packet-Round p w paired v =
        bind-Round Empty (fetch_packet src blk syncs ratio p w) _ (fetch_packet-Loopless p w) λ buf.
          returns true _
            (Pairs.completed pairs w.blk_req.tag p.succeeded w.source
              (paired ∙ ap (λ b. if b then some w.blk_req.tag else none) v))
            (λ _. refl)

    ack_round-Round : (w : Backend S K) → Paired w → Round Empty (ack_round src blk syncs ratio w)
    unfolding ack_round
    ack_round-Round w p =
        let (q, k) = BlockSession.try_get_acked_packet blk w.session in
        if_elim (Round Empty) (not (BlockSession.ack_avail blk w.session)) _ _
          (λ _. stays Empty w p)
          λ _.
            if_elim (Round Empty) (not (valid w.blk_req)) _ _ (λ _. stays Empty _ p)
              λ v.
                if_elim (Round Empty)
                  (not (q.block_number / ratio == w.blk_req.block_number)
                    || not (op_match syncs q.operation w.blk_req))
                  _ _ (λ _. stays Empty _ p)
                  λ _. complete_packet-Round q (record w { session = k }) p (ground arith)

    ack_round-last :
        (w : Backend S K) → Paired w → Empty w → Round (λ _. ⊥) (ack_round src blk syncs ratio w)
    unfolding ack_round
    ack_round-last w p e =
        if_elim (Round (λ _. ⊥)) (not (BlockSession.ack_avail blk w.session)) _ _
          (λ _. stays (λ _. ⊥) w p) λ _. rw e (stays (λ _. ⊥) _ p)

    pub submit_loop-Good :
        (progress : Bool) (w : Backend S K)
        → Paired w
        → Good (submit_loop src blk syncs ratio progress w)
    unfolding submit_loop
    submit_loop-Good progress w p =
        repeat-Good InFlight (submit_round src blk syncs ratio) submit_round-Round submit_round-last
          progress w p

    pub ack_loop-Good :
        (progress : Bool) (w : Backend S K)
        → Paired w
        → Good (ack_loop src blk syncs ratio progress w)
    unfolding ack_loop
    ack_loop-Good progress w p =
        repeat-Good Empty (ack_round src blk syncs ratio) ack_round-Round ack_round-last progress w
          p

    pub bind-Good :
        (m : Result (Bool × Backend S K)) (f : Bool × Backend S K → Result (Bool × Backend S K))
        → Good m
        → ((b : Bool) (w : Backend S K) → Paired w → Good (f (b, w)))
        → Good (m >>= f)
    bind-Good (ok (b, w)) f h k = k b w h
    bind-Good (throw e) f h k = h

    -- With a library that begins a block request where it has none in progress, and is told of the
    -- completion of that one: a pass over the two loops goes round neither more than twice,
    -- whatever the block session answers. If it returns, the request in flight is again the one
    -- that the library has in progress; so the library is never told that a request has begun
    -- while another is in progress, nor that one is complete which is not.
    pub exchange-Good :
        (progress : Bool) (w : Backend S K)
        → Paired w
        → Good (exchange src blk syncs ratio progress w)
    unfolding exchange
    exchange-Good progress w p =
        bind-Good (submit_loop src blk syncs ratio progress w) _ (submit_loop-Good progress w p)
          (λ b v q. ack_loop-Good b v q)
