-- ===== src/Loopback.antt =====
-- internal/loopback/pool.go: the pool of loopback addresses for targets.
use sshx.Prelude.{ℕ, ◌+◌, ◌<◌, ◌≡◌, [], ◌++◌, leb, if◌then◌else◌, bytes_eq, arith}
use sshx.Prelude.Text.{Bytes, codes}
use sshx.Prelude.Decimal.{itoa, itoa-injective}

abbrev pub prefix : Bytes
prefix = codes "127.64.0."

abbrev pub size : ℕ
size = 64

-- An index is a natural number here; the source also answers a negative one with "".
unfoldable pub address : ℕ → Bytes
address index = if leb size index then [] else prefix ++ itoa (index + 1)

-- Different indices of the pool have different addresses.
pub address-injective : (i j : ℕ) → i < size → j < size → address i ≡ address j → i ≡ j
unfolding address
address-injective i j hi hj e = omega (arith, itoa-injective (i + 1) (j + 1) (ground arith))
