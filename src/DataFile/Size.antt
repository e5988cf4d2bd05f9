-- ===== src/DataFile/Size.antt =====
-- The size that `stat` of the data file in src/lib/vfs/cbe/vfs.cc reports.
use cbe.Types.{block_size, request, Operation}
use cbe.Prelude.{ℕ, ◌+◌, ◌*◌, ◌<◌, ◌^◌, ◌↔◌, ◌/◌, ◌≡◌, false, arith}
use cbe.Interfaces.{Library}
use cbe.Wrapper.Frontend.Admit.{out_of_range}
use cbe.Wrapper.{Wrapper}
use cbe.DataFile.{stat_size}

-- On a device whose size in bytes is a 64-bit number, a byte lies within the reported size
-- exactly if its block is one that the range check of the frontend lets pass.
pub stat_size_iff :
    {L C H : Type 0} (lib : Library L) (w : Wrapper L C H) (offset : ℕ)
    → (Library.max_vba lib w.cbe + 1) * block_size < 2 ^ 64
    → (offset < stat_size lib w)
      ↔ (out_of_range lib (request Operation.read (offset / block_size) 0 1) w.cbe ≡ false)
unfolding stat_size out_of_range
stat_size_iff lib w offset small = (λ h. ground arith, λ h. ground arith)
