-- ===== src/Digest/Lines.antt =====
-- pyzor/digest.go: `splitLines`, one pass over the string with byte offsets.
pub mod Correct
use gyzor.Prelude.{
  ℕ, ◌+◌, Bool, true, false, ◌&&◌, ◌||◌, List, [], ◌∷◌, ltb, ◌==◌, if◌then◌else◌, drop, length,
  Bytes, slice, codes, ◌≡◌, refl,
}
use gyzor.Go.Utf8.{Rune, runes}

-- The runes of the first case of the switch.
unfoldable pub is_line_break : ℕ → Bool
is_line_break r =
    r == 0xa
    || r == 0xb
    || r == 0xc
    || r == 0x1c
    || r == 0x1d
    || r == 0x1e
    || r == 0x85
    || r == 0x2028
    || r == 0x2029

pub data Kind : Type 0 where
  line_feed_of_pair line_break carriage_return other : Kind

-- The case of the switch; the flag says that the rune before was `\r`, whose case passes over a
-- `\n` at the next byte.
unfoldable pub kind : Bool → ℕ → Kind
unfolding is_line_break
kind after_cr r =
    if after_cr && r == 0xa
    then Kind.line_feed_of_pair
    else if is_line_break r
    then Kind.line_break
    else if r == 0xd
    then Kind.carriage_return
    else Kind.other

-- The loop over `i`, with `start` and the lines that it appends to `out`.
unfoldable pub lines_from : Bytes → Bool → ℕ → ℕ → List Rune → List Bytes
lines_from s after_cr start i [] = if ltb start (length s) then drop start s ∷ [] else []
lines_from s after_cr start i (r ∷ rs) =
    let j = i + length r.raw in
    elim (kind after_cr r.value) [
      | Kind.line_feed_of_pair ↦ lines_from s false j j rs
      | Kind.line_break ↦ slice s start i ∷ lines_from s false j j rs
      | Kind.carriage_return ↦ slice s start i ∷ lines_from s true j j rs
      | Kind.other ↦ lines_from s false start j rs
    ]

-- `splitLines`
unfoldable pub split_lines : Bytes → List Bytes
split_lines s = lines_from s false 0 0 (runes s)
