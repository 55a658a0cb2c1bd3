-- ===== src/Digest/Whitespace.antt =====
-- pyzor/digest.go: `removePyWhitespace`, one pass over the string with byte offsets.
pub mod Correct
use gyzor.Prelude.{
  ℕ, ◌+◌, Bool, true, false, List, [], ◌∷◌, ◌++◌, Option, none, some, leb, ltb, ◌==◌, if◌then◌else◌,
  drop, take, length, Bytes, slice, ◌≡◌, refl, codes,
}
use gyzor.Go.Utf8.{Rune, runes, rune_len}
use gyzor.Digest.Space.{is_py_space}

-- The first loop: the offset of the first white space.
unfoldable pub first_space : ℕ → List Rune → Option ℕ
first_space i [] = none
first_space i (r ∷ rs) = if is_py_space r.value then some i else first_space (i + length r.raw) rs

-- The second loop, over `s[first:]`; `i` counts from there.
unfoldable pub skip_spaces : Bytes → ℕ → ℕ → List Rune → ℕ → Bytes → ℕ × Bytes
skip_spaces s first i [] last out = (last, out)
skip_spaces s first i (r ∷ rs) last out =
    let j = i + first in
    let skip = is_py_space r.value in
    skip_spaces s first (i + length r.raw) rs (if skip then j + rune_len r.value else last)
      (if skip then out ++ slice s last j else out)

unfoldable pub from_first : Bytes → Option ℕ → Bytes
unfolding skip_spaces runes
from_first s none = s
from_first s (some first) =
    let (last, out) = skip_spaces s first 0 (runes (drop first s)) first (take first s) in
    out ++ drop last s

-- `removePyWhitespace`
unfoldable pub remove_py_whitespace : Bytes → Bytes
unfolding first_space from_first is_py_space
remove_py_whitespace s = from_first s (first_space 0 (runes s))
