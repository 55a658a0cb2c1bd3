-- ===== src/Go/Net.antt =====
-- Package net: `SplitHostPort`.
pub mod Laws
use gyzor.Prelude.{
  ℕ, suc, ◌-◌, Bool, true, false, ◌||◌, List, [], ◌∷◌, Option, none, some, Bytes, length, take,
  drop, ◌==◌, if◌then◌else◌,
}
use gyzor.Go.Strings.{index_byte, last_index_byte, contains_byte}

-- The checks for stray brackets: `[` from `j` on, `]` from `k` on.
unfoldable pub no_brackets : Bytes → Bytes → ℕ → ℕ → ℕ → Option (Bytes × Bytes)
no_brackets hostport host i j k =
    if contains_byte (drop j hostport) b'[' || contains_byte (drop k hostport) b']'
    then none
    else some (host, drop (suc i) hostport)

-- A host in brackets, which end at `end`.
unfoldable pub bracketed : Bytes → ℕ → Option ℕ → Option (Bytes × Bytes)
bracketed hostport i none = none
bracketed hostport i (some end) =
    if suc end == i
    then no_brackets hostport (take (end - 1) (drop 1 hostport)) i 1 (suc end)
    else none

unfoldable pub plain_host : Bytes → ℕ → Option (Bytes × Bytes)
plain_host hostport i =
    if contains_byte (take i hostport) b':'
    then none
    else no_brackets hostport (take i hostport) i 0 0

unfoldable pub split_from : Bytes → Option ℕ → Option (Bytes × Bytes)
split_from hostport none = none
split_from [] (some i) = none
split_from (c ∷ rest) (some i) =
    if c == b'['
    then bracketed (c ∷ rest) i (index_byte (c ∷ rest) b']')
    else plain_host (c ∷ rest) i

-- `net.SplitHostPort`; `none` is its error.
unfoldable pub split_host_port : Bytes → Option (Bytes × Bytes)
unfolding split_from
split_host_port hostport = split_from hostport (last_index_byte hostport b':')
