-- ===== src/Go/Scanner.antt =====
-- `bufio.Scanner` with `ScanLines`: a line that does not fit its buffer of 65536 bytes ends the scan.
use gyzor.Prelude.{ℕ, List, [], ◌∷◌, Bytes, leb, length, ◌==◌, if◌then◌else◌}
use gyzor.Go.Strings.{split}

-- `bufio.MaxScanTokenSize`
abbrev pub max_token : ℕ
max_token = 65536

-- `dropCR`
unfoldable pub drop_cr : Bytes → Bytes
drop_cr [] = []
drop_cr (c ∷ []) = if c == b'\r' then [] else c ∷ []
drop_cr (c ∷ d ∷ s) = c ∷ drop_cr (d ∷ s)

-- The last part stands behind the last line feed: it is a line only where it is not empty.
unfoldable pub tokens : List Bytes → List Bytes
unfolding drop_cr
tokens [] = []
tokens ([] ∷ []) = []
tokens (line ∷ rest) =
    let more = tokens rest in if leb max_token (length line) then [] else drop_cr line ∷ more

unfoldable pub scan_lines : Bytes → List Bytes
unfolding tokens
scan_lines b = tokens (split b b'\n')
