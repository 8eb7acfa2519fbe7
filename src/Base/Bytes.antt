-- ===== src/Base/Bytes.antt =====
-- Byte buffers as functions from the offset, and C's `memcpy` between them.
use Prim.Native.Nat.{ℕ, ◌+◌, ◌-◌, ◌<◌, ◌≤◌}
use mathlib.Core.Path.{◌≡◌}
use mathlib.Core.Bool.{◌&&◌}
use native.Mathlib.Omega.{arith}
use so_distribuido.Base.Tests.{◌==◌, if◌then◌else◌, leb, ltb}

abbrev pub Buffer : Type 0
Buffer = ℕ → ℕ

-- The pointer `buffer + offset`.
abbrev pub shift : Buffer → ℕ → Buffer
shift b offset i = b (offset + i)

-- `memcpy(target + at, source, size)`
unfoldable pub memcpy : Buffer → ℕ → Buffer → ℕ → Buffer
memcpy target at source size i = if leb at i && ltb i (at + size) then source (i - at) else target i

pub memcpy_inside :
    (target source : Buffer) (at size i : ℕ)
    → i < size
    → memcpy target at source size (at + i) ≡ source i
unfolding memcpy
memcpy_inside target source at size i h =
    let e : at + i - at ≡ i = omega arith in rw e (ground arith)

pub memcpy_start :
    (target source : Buffer) (size i : ℕ) → i < size → memcpy target 0 source size i ≡ source i
unfolding memcpy
memcpy_start target source size i h = let e : i - 0 ≡ i = omega arith in rw e (ground arith)

pub memcpy_before :
    (target source : Buffer) (at size i : ℕ) → i < at → memcpy target at source size i ≡ target i
unfolding memcpy
memcpy_before target source at size i h = ground arith

pub memcpy_after :
    (target source : Buffer) (at size i : ℕ)
    → at + size ≤ i
    → memcpy target at source size i ≡ target i
unfolding memcpy
memcpy_after target source at size i h = ground arith

-- An array as a function from the index.
module _ {ℓ} {A : Type ℓ} where
  abbrev pub update : (ℕ → A) → ℕ → A → ℕ → A
  update f i v j = if i == j then v else f j
