-- ===== src/Types/Tests.antt =====
-- The conversions of include/cbe/types.h at concrete requests, and the theorems about them there.
use cbe.Prelude.{◌≡◌, false, ok, throw, operation_type_not_convertable, ◌<◌, ◌⊎◌, ◌≤◌, arith, refl}
use cbe.Types.Convert.{
  BlockRequest, convert_from, convert_to, BlockOperation, convert_from-convert_to,
  convert_to-convert_from,
}
use cbe.Types.{Request, request, Operation, code}

abbrev write_request : Request
write_request = record (request Operation.write 7 4096 2) { key_id = 3; tag = 5 }

abbrev trim_request : BlockRequest
trim_request = record {
  type = BlockOperation.trim;
  block_number = 1;
  count = 1;
  success = false;
  offset = 0;
  tag = 0;
}

-- A trim request comes to an invalid one, and a rekeying cannot be passed on.
trim_lost :
    (convert_to trim_request ≡ request Operation.invalid 1 0 1)
    × (convert_from (request Operation.rekey 0 0 0) ≡ throw operation_type_not_convertable)
unfolding convert_to convert_from
trim_lost = (refl, refl)

convert_to-convert_from_example :
    ((convert_from write_request ≡ throw operation_type_not_convertable)
      × (3 < code write_request.operation))
    ⊎ ((b : BlockRequest) × (convert_from write_request ≡ ok b)
        × (convert_to b ≡ record write_request { key_id = 0 })
        × (code write_request.operation ≤ 3))
convert_to-convert_from_example = convert_to-convert_from write_request (omega arith)

convert_from-convert_to_example :
    convert_from (convert_to (record trim_request { type = BlockOperation.read }))
    ≡ ok (record trim_request { type = BlockOperation.read })
convert_from-convert_to_example =
    convert_from-convert_to (record trim_request { type = BlockOperation.read }) (λ e. cc)
