-- ===== src/Prelude/Memory.antt =====
-- Bytes in memory: a block, or the address space of a client, as a function from positions.
use Prim.Native.Nat.{ℕ, ◌+◌, ◌-◌, ◌≤◌, ◌<◌}
use mathlib.Core.Path.{◌≡◌}
use mathlib.Core.Bool.{◌&&◌}
use native.Mathlib.Omega.{arith}
use cbe.Prelude.Tests.{ltb, leb, if◌then◌else◌}

abbrev pub Bytes : Type 0
Bytes = ℕ → ℕ

-- `memcpy (dst + d, src + s, n)`
unfoldable pub memcpy : Bytes → ℕ → Bytes → ℕ → ℕ → Bytes
memcpy dst d src s n i = if leb d i && ltb i (d + n) then src (s + (i - d)) else dst i

pub memcpy_inside :
    (dst : Bytes) (d : ℕ) (src : Bytes) (s n j : ℕ)
    → j < n
    → memcpy dst d src s n (d + j) ≡ src (s + j)
unfolding memcpy
memcpy_inside dst d src s n j h = ground arith

pub memcpy_before :
    (dst : Bytes) (d : ℕ) (src : Bytes) (s n i : ℕ) → i < d → memcpy dst d src s n i ≡ dst i
unfolding memcpy
memcpy_before dst d src s n i h = ground arith

pub memcpy_after :
    (dst : Bytes) (d : ℕ) (src : Bytes) (s n i : ℕ) → d + n ≤ i → memcpy dst d src s n i ≡ dst i
unfolding memcpy
memcpy_after dst d src s n i h = ground arith

pub memcpy_none : (dst : Bytes) (d : ℕ) (src : Bytes) (s i : ℕ) → memcpy dst d src s 0 i ≡ dst i
unfolding memcpy
memcpy_none dst d src s i = ground arith
