-- ===== src/Engine/Pipes.antt =====
-- The pipe masks of packages/engine/src/resolution/flow.ts and tick.ts: a bit for each direction.
pub mod Laws
use europa_neo.Prelude.{ℕ, ◌+◌, ◌-◌, ◌==◌, if◌then◌else◌, Bool, not, bit_and, bit_or}
use europa_neo.Core.Types.{Direction, north, east, south, west}

abbrev pub bit : Direction → ℕ
bit north = 0x01
bit east = 0x02
bit south = 0x04
bit west = 0x08

-- `(mask & bit) !== 0`.
unfoldable pub has_pipe : ℕ → Direction → Bool
has_pipe mask d = not (bit_and mask (bit d) == 0)

-- `mask | bit`.
unfoldable pub add_pipe : ℕ → Direction → ℕ
add_pipe mask d = bit_or mask (bit d)

-- `mask & ~bit`, of a byte.
unfoldable pub remove_pipe : ℕ → Direction → ℕ
remove_pipe mask d = bit_and mask (255 - bit d)

abbrev count_if : Bool → ℕ
count_if b = if b then 1 else 0

unfoldable pub popcount : ℕ → ℕ
unfolding has_pipe
popcount mask =
    count_if (has_pipe mask north)
    + count_if (has_pipe mask east)
    + count_if (has_pipe mask south)
    + count_if (has_pipe mask west)
