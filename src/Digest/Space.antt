-- ===== src/Digest/Space.antt =====
-- pyzor/digest.go: Python's white space.
use gyzor.Prelude.{ℕ, ◌≡◌, arith, Bool, not, ◌&&◌, ◌||◌, leb, ◌==◌}

-- `isPySpace`
unfoldable pub is_py_space : ℕ → Bool
is_py_space r =
    r == 0x9
    || r == 0xa
    || r == 0xb
    || r == 0xc
    || r == 0xd
    || r == 0x20
    || r == 0x85
    || r == 0xa0
    || r == 0x1680
    || r == 0x2028
    || r == 0x2029
    || r == 0x202f
    || r == 0x205f
    || r == 0x3000
    || (leb 0x1c r && leb r 0x1f)
    || (leb 0x2000 r && leb r 0x200a)

-- The class `[^wsClass]` of the patterns.
unfoldable pub non_space : ℕ → Bool
unfolding is_py_space
non_space r = not (
    leb 0x9 r && leb r 0xd
    || r == 0x20
    || leb 0x1c r && leb r 0x1f
    || r == 0x85
    || r == 0xa0
    || r == 0x1680
    || leb 0x2000 r && leb r 0x200a
    || r == 0x2028
    || r == 0x2029
    || r == 0x202f
    || r == 0x205f
    || r == 0x3000)

-- The switch and the pattern's class name the same runes.
pub non_space-is_py_space : (r : ℕ) → non_space r ≡ not (is_py_space r)
unfolding non_space is_py_space
non_space-is_py_space r = ground arith
