-- ===== src/Prelude/Words.antt =====
-- encoding/binary's LittleEndian on uint64, and arithmetic that wraps at 64 bits.
use Prim.Native.Nat.{ℕ, zero, suc, ◌+◌, ◌-◌, ◌*◌, ◌/◌, ◌%◌, ◌^◌, ◌<◌}
use mathlib.Core.List.{[], ◌∷◌}
use mathlib.Core.Path.{◌≡◌, refl, ap}
use native.Mathlib.Omega.{arith}
use pmoxs3backuproxy.Prelude.Lists.{length}
use pmoxs3backuproxy.Prelude.Strings.{Bytes}
use pmoxs3backuproxy.Prelude.Int.{ℤ, pos, negsuc}

abbrev pub two64 : ℕ
two64 = 2 ^ 64

-- a + b on uint64
abbrev pub add64 : ℕ → ℕ → ℕ
add64 a b = (a + b) % two64

-- uint64(n) of a signed integer
unfoldable pub to_uint64 : ℤ → ℕ
to_uint64 (pos n) = n % two64
to_uint64 (negsuc n) = two64 - 1 - n % two64

-- The `k` low bytes of a number, the lowest first.
unfoldable pub le_bytes : ℕ → ℕ → Bytes
le_bytes zero x = []
le_bytes (suc k) x = (x % 256) ∷ le_bytes k (x / 256)

-- binary.LittleEndian.AppendUint64(nil, x)
abbrev pub put_uint64 : ℕ → Bytes
put_uint64 x = le_bytes 8 x

-- binary.LittleEndian.Uint64(b), on the eight bytes of `b`
unfoldable pub uint64_of : Bytes → ℕ
uint64_of [] = 0
uint64_of (b ∷ bs) = b + 256 * uint64_of bs

pub length-le_bytes : (k x : ℕ) → length (le_bytes k x) ≡ k
unfolding le_bytes
length-le_bytes zero x = refl
length-le_bytes (suc k) x = ap suc (length-le_bytes k (x / 256))

pub uint64_of-put_uint64 : (x : ℕ) → x < two64 → uint64_of (put_uint64 x) ≡ x
unfolding le_bytes uint64_of
uint64_of-put_uint64 x h = omega arith
