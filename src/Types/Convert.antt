-- ===== src/Types/Convert.antt =====
-- include/cbe/types.h: the names of operations, and the conversions between requests of the CBE
-- and requests of a Genode block session.
use Prim.Native.String.{String}
use cbe.Prelude.{
  ◌≤◌, ◌⊎◌, inl, inr, ℕ, ◌^◌, ◌<◌, ◌≡◌, ◌≢◌, refl, Bool, Result, ok, throw,
  operation_type_not_convertable, ◌>>=◌, arith, ◌⊎◌, inl, inr,
}
use cbe.Types.{Operation, Request, code, u32}

-- `Block::Operation::Type`
pub data BlockOperation : Type 0 where
  invalid read write sync trim : BlockOperation

-- `Block::Request`, its operation's fields in line
pub record BlockRequest : Type 0 where
  pub type : BlockOperation
  pub block_number : ℕ
  pub count : ℕ
  pub success : Bool
  pub offset : ℕ
  pub tag : ℕ

-- `to_string (Block::Operation::Type)`
pub block_to_string : BlockOperation → String
block_to_string BlockOperation.invalid = "invalid"
block_to_string BlockOperation.read = "read"
block_to_string BlockOperation.write = "write"
block_to_string BlockOperation.sync = "sync"
block_to_string BlockOperation.trim = "trim"

pub to_string : Operation → String
to_string Operation.invalid = "invalid"
to_string Operation.read = "read"
to_string Operation.write = "write"
to_string Operation.sync = "sync"
to_string Operation.create_snapshot = "create_snapshot"
to_string Operation.discard_snapshot = "discard_snapshot"
to_string Operation.rekey = "rekey"
to_string Operation.extend_vbd = "extend_vbd"
to_string Operation.extend_ft = "extend_ft"
to_string Operation.resume_rekeying = "resume_rekeying"
to_string Operation.deinitialize = "deinitialize"
to_string Operation.initialize = "initialize"

-- the lambda `convert_op` of `convert_from`
unfoldable pub block_op : Operation → Result BlockOperation
block_op Operation.invalid = ok BlockOperation.invalid
block_op Operation.read = ok BlockOperation.read
block_op Operation.write = ok BlockOperation.write
block_op Operation.sync = ok BlockOperation.sync
block_op _ = throw operation_type_not_convertable

-- A cast between `uint64_t` and `off_t` keeps the 64 bits, which `offset` holds.
unfoldable pub convert_from : Request → Result BlockRequest
unfolding block_op
convert_from r = block_op r.operation >>= λ type. ok (record {
  type = type;
  block_number = r.block_number;
  count = r.count;
  success = r.success;
  offset = r.offset;
  tag = r.tag;
})

-- the lambda `convert_op` of `convert_to`
unfoldable pub cbe_op : BlockOperation → Operation
cbe_op BlockOperation.invalid = Operation.invalid
cbe_op BlockOperation.read = Operation.read
cbe_op BlockOperation.write = Operation.write
cbe_op BlockOperation.sync = Operation.sync
cbe_op BlockOperation.trim = Operation.invalid

-- The tag of a block request is an `unsigned long`, and is cut to 32 bits.
unfoldable pub convert_to : BlockRequest → Request
unfolding cbe_op
convert_to r = record {
  operation = cbe_op r.type;
  success = r.success;
  block_number = r.block_number;
  offset = r.offset;
  count = r.count;
  key_id = 0;
  tag = u32 r.tag;
}

abbrev Returns : Request → Type 0
Returns r =
    ((convert_from r ≡ throw operation_type_not_convertable) × (3 < code r.operation))
    ⊎ ((b : BlockRequest) × (convert_from r ≡ ok b)
        × (convert_to b ≡ record r { key_id = 0 })
        × (code r.operation ≤ 3))

by_operation : (o : Operation) (r : Request) → r.tag < 2 ^ 32 → Returns (record r { operation = o })
unfolding convert_from convert_to
by_operation Operation.invalid r h = inr (_, refl, ground arith, omega arith)
by_operation Operation.read r h = inr (_, refl, ground arith, omega arith)
by_operation Operation.write r h = inr (_, refl, ground arith, omega arith)
by_operation Operation.sync r h = inr (_, refl, ground arith, omega arith)
by_operation _ r h = inl (refl, omega arith)

-- A request whose operation has a number above that of SYNC is refused with an exception. Any
-- other comes back from the conversion and its reverse with its key id cleared, if its tag is a
-- 32-bit number.
pub convert_to-convert_from :
    (r : Request)
    → r.tag < 2 ^ 32
    → ((convert_from r ≡ throw operation_type_not_convertable) × (3 < code r.operation))
      ⊎ ((b : BlockRequest) × (convert_from r ≡ ok b)
          × (convert_to b ≡ record r { key_id = 0 })
          × (code r.operation ≤ 3))
convert_to-convert_from r h = by_operation r.operation r h

-- A block request that is not a trim request comes back from the conversion to a CBE request and
-- its reverse with its tag cut to 32 bits.
pub convert_from-convert_to :
    (b : BlockRequest)
    → b.type ≢ BlockOperation.trim
    → convert_from (convert_to b) ≡ ok (record b { tag = u32 b.tag })
unfolding convert_from convert_to
convert_from-convert_to b h = ground arith
