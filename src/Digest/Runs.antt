-- ===== src/Digest/Runs.antt =====
-- pyzor/digest.go: `removeLongRuns`, one pass over the string with byte offsets.
pub mod Correct
pub mod Pattern
use gyzor.Prelude.{
  ℕ, ◌+◌, ◌≡◌, Bool, true, false, not, List, [], ◌∷◌, ◌++◌, leb, ◌==◌, if◌then◌else◌, drop, length,
  Bytes, slice,
}
use gyzor.Go.Utf8.{Rune, runes}
use gyzor.Digest.Space.{is_py_space}

-- The variables of the loop. `grown` is `out.Cap() != 0`: the builder grows by `len(s)`, which is
-- not 0 where a run of ten runes was seen.
pub record Scan : Type 0 where
  pub run_start : ℕ
  pub rune_count : ℕ
  pub last : ℕ
  pub out : Bytes
  pub grown : Bool

-- The body of `if runes >= 10`, with the offset that `last` is set to.
unfoldable pub flush : Bytes → ℕ → Scan → Scan
flush s i st =
    if leb 10 st.rune_count
    then record st { out = st.out ++ slice s st.last st.run_start; last = i; grown = true }
    else st

-- One round of `for i, r := range s`.
unfoldable pub scan_rune : Bytes → ℕ → Rune → Scan → Scan
unfolding flush
scan_rune s i r st =
    if not (is_py_space r.value)
    then record st {
      run_start = if st.rune_count == 0 then i else st.run_start;
      rune_count = st.rune_count + 1;
    }
    else record (flush s i st) { rune_count = 0 }

unfoldable pub scan_runes : Bytes → ℕ → List Rune → Scan → Scan
unfolding scan_rune
scan_runes s i [] st = st
scan_runes s i (r ∷ rs) st = scan_runes s (i + length r.raw) rs (scan_rune s i r st)

unfoldable pub finish : Bytes → Scan → Bytes
unfolding flush
finish s st = let end = flush s (length s) st in if end.grown then end.out ++ drop end.last s else s

abbrev pub start : Scan
start = record { run_start = 0; rune_count = 0; last = 0; out = []; grown = false }

-- `removeLongRuns`
unfoldable pub remove_long_runs : Bytes → Bytes
unfolding scan_runes finish runes is_py_space
remove_long_runs s = finish s (scan_runes s 0 (runes s) start)
