-- ===== src/Types.antt =====
-- include/cbe/types.h: the requests that the parts exchange, and the buffers that they share.
pub mod Convert
pub mod Tests
use cbe.Prelude.{
  ℕ, ◌%◌, ◌^◌, ◌<◌, ◌≡◌, refl, Bool, true, false, ◌==◌, if◌then◌else◌, Bytes, Exception, Result, ok,
  throw, bad_index, operation_type_not_convertable, List, not, arith,
}

abbrev pub block_size : ℕ
block_size = 4096

abbrev pub u32 : ℕ → ℕ
u32 n = n % 2 ^ 32

abbrev pub u64 : ℕ → ℕ
u64 n = n % 2 ^ 64

-- `~0ull`, the primitive index that stands for none
abbrev pub invalid_index_value : ℕ
invalid_index_value = 0xffff_ffff_ffff_ffff

pub data Operation : Type 0 where
  invalid read write sync create_snapshot discard_snapshot rekey extend_vbd extend_ft : Operation
  resume_rekeying deinitialize initialize : Operation

-- the numbers that the enumerators stand for
abbrev pub code : Operation → ℕ
code Operation.invalid = 0
code Operation.read = 1
code Operation.write = 2
code Operation.sync = 3
code Operation.create_snapshot = 4
code Operation.discard_snapshot = 5
code Operation.rekey = 6
code Operation.extend_vbd = 7
code Operation.extend_ft = 8
code Operation.resume_rekeying = 10
code Operation.deinitialize = 11
code Operation.initialize = 12

abbrev pub is_op : Operation → Operation → Bool
is_op a b = code a == code b

pub record Request : Type 0 where
  pub operation : Operation
  pub success : Bool
  pub block_number : ℕ
  pub offset : ℕ
  pub count : ℕ
  pub key_id : ℕ
  pub tag : ℕ

-- `Request ()`
abbrev pub no_request : Request
no_request = record {
  operation = Operation.invalid;
  success = false;
  block_number = 0;
  offset = 0;
  count = 0;
  key_id = 0;
  tag = 0;
}

-- `Request (op, false, block_number, offset, count, 0, 0)`
abbrev pub request : Operation → ℕ → ℕ → ℕ → Request
request op block_number offset count = record no_request {
  operation = op;
  block_number = block_number;
  offset = offset;
  count = count;
}

abbrev pub valid : Request → Bool
valid r = not (is_op r.operation Operation.invalid)

abbrev pub is_read : Request → Bool
is_read r = is_op r.operation Operation.read

abbrev pub is_write : Request → Bool
is_write r = is_op r.operation Operation.write

abbrev pub is_sync : Request → Bool
is_sync r = is_op r.operation Operation.sync

abbrev pub set_success : Bool → Request → Request
set_success b r = record r { success = b }

abbrev pub set_tag : ℕ → Request → Request
set_tag t r = record r { tag = t }

-- The three buffers hold one block each; `item` throws for any other index.
unfoldable pub item : Bytes → ℕ → Result Bytes
item block index = if index == 0 then ok block else throw bad_index

pub record Key : Type 0 where
  pub value : Bytes
  pub id : ℕ

pub record Info : Type 0 where
  pub valid : Bool
  pub rekeying : Bool
  pub extending_vbd : Bool
  pub extending_ft : Bool
