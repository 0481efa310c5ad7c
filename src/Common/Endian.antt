-- ===== src/Common/Endian.antt =====
-- encoding/binary: little-endian and big-endian words of a number of bytes.
use Prim.Native.Nat.{ℕ, zero, suc, ◌+◌, ◌*◌, ◌/◌, ◌%◌, ◌^◌, ◌<◌}
use mathlib.Core.Path.{◌≡◌, refl, ap}
use mathlib.Core.List.{[], ◌∷◌}
use native.Mathlib.Omega.{arith}
use native.Mathlib.Nat.{pow-suc}
use meshtastic_go.Common.ByteStrings.{Bytes, IsByte}
use meshtastic_go.Common.Lists.{length, All}

-- `binary.LittleEndian.PutUint…` of `k` bytes
abbrev pub le_bytes : ℕ → ℕ → Bytes
le_bytes zero n = []
le_bytes (suc k) n = (n % 256) ∷ le_bytes k (n / 256)

abbrev pub of_le : Bytes → ℕ
of_le [] = 0
of_le (b ∷ bs) = b + 256 * of_le bs

pub length-le_bytes : (k n : ℕ) → length (le_bytes k n) ≡ k
length-le_bytes zero n = refl
length-le_bytes (suc k) n = ap suc (length-le_bytes k (n / 256))

pub of_le-le_bytes : (k n : ℕ) → n < 256 ^ k → of_le (le_bytes k n) ≡ n
of_le-le_bytes zero n h = omega arith
of_le-le_bytes (suc k) n h =
    omega (arith, of_le-le_bytes k (n / 256) (omega (arith, pow-suc 256 k)))

pub le_bytes-IsByte : (k n : ℕ) → All IsByte (le_bytes k n)
le_bytes-IsByte zero n = tt
le_bytes-IsByte (suc k) n = (omega arith, le_bytes-IsByte k (n / 256))
