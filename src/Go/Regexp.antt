-- ===== src/Go/Regexp.antt =====
-- The part of package regexp that the program uses: leftmost-first matching by backtracking over
-- runes, of patterns made of classes, greedy repetitions and literals, and ReplaceAllString with "".
use gyzor.Prelude.{
  ℕ, zero, suc, ◌-◌, Bool, List, [], ◌∷◌, Option, none, some, ◌==◌, if◌then◌else◌, Bytes,
}
use gyzor.Go.Utf8.{Rune, runes, bytes_of}
use mathlib.Core.Option

-- A pattern reads a prefix of the runes and says how many it took.
abbrev pub Pattern : Type 0
Pattern = List Rune → Option ℕ

-- The end of a pattern.
abbrev pub accept : Pattern
accept cs = some 0

abbrev pub first_some : Option ℕ → Option ℕ → Option ℕ
first_some (some n) o = some n
first_some none o = o

-- `c` followed by `k`
abbrev pub lit : ℕ → Pattern → Pattern
lit c k [] = none
lit c k (r ∷ rs) = if r.value == c then Option.map suc (k rs) else none

-- `[p]` followed by `k`
abbrev pub one : (ℕ → Bool) → Pattern → Pattern
one p k [] = none
one p k (r ∷ rs) = if p r.value then Option.map suc (k rs) else none

-- `[p]*` followed by `k`, the longest repetition first
abbrev pub star : (ℕ → Bool) → Pattern → Pattern
star p k [] = k []
star p k (r ∷ rs) =
    if p r.value then first_some (Option.map suc (star p k rs)) (k (r ∷ rs)) else k (r ∷ rs)

-- `[p]{n,}` followed by `k`
abbrev pub at_least : ℕ → (ℕ → Bool) → Pattern → Pattern
at_least zero p k rs = star p k rs
at_least (suc n) p k [] = none
at_least (suc n) p k (r ∷ rs) = if p r.value then Option.map suc (at_least n p k rs) else none

-- `[p]+` followed by `k`
abbrev pub plus : (ℕ → Bool) → Pattern → Pattern
plus = at_least 1

-- Drops every match, from the left; the first argument counts the runes of the last match that
-- are still to be passed. No pattern of the program matches the empty text.
unfoldable pub erase_from : Pattern → ℕ → List Rune → List Rune
erase_from m skip [] = []
erase_from m zero (r ∷ rs) = elim (m (r ∷ rs)) [
  | none ↦ r ∷ erase_from m 0 rs
  | some n ↦ erase_from m (n - 1) rs
]
erase_from m (suc k) (r ∷ rs) = erase_from m k rs

-- `ReplaceAllString(s, "")`
unfoldable pub erase_all : Pattern → Bytes → Bytes
unfolding erase_from runes
erase_all m s = bytes_of (erase_from m 0 (runes s))
