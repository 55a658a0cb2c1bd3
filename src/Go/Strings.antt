-- ===== src/Go/Strings.antt =====
-- Package strings, over byte strings.
pub mod Laws
pub mod Trim
use gyzor.Prelude.{
  ℕ, zero, suc, ◌-◌, length, ◌≡◌, refl, Bool, true, false, ◌&&◌, ◌||◌, List, [], ◌∷◌, ◌++◌, Option,
  none, some, arith, leb, ◌==◌, if◌then◌else◌, Bytes, Lacks,
}
use gyzor.Go.Utf8.{Rune, runes, bytes_of}
use mathlib.Core.Option

-- `strings.IndexByte`; `none` is -1.
unfoldable pub index_byte : Bytes → ℕ → Option ℕ
index_byte [] c = none
index_byte (b ∷ s) c = if b == c then some 0 else Option.map suc (index_byte s c)

-- `strings.IndexByte(s, c) >= 0`
unfoldable pub contains_byte : Bytes → ℕ → Bool
unfolding index_byte
contains_byte s c = elim (index_byte s c) [ none ↦ false | some i ↦ true ]

-- `strings.ReplaceAll(s, string(c), "")`
unfoldable pub remove_byte : ℕ → Bytes → Bytes
remove_byte c [] = []
remove_byte c (b ∷ s) = let rest = remove_byte c s in if b == c then rest else b ∷ rest

pub contains_byte-Lacks : (s : Bytes) (c : ℕ) → contains_byte s c ≡ false → Lacks c s
unfolding contains_byte
contains_byte-Lacks [] c h = tt
contains_byte-Lacks (b ∷ s) c h = ground (arith, contains_byte-Lacks s c)

pub remove_byte-Lacks : (s : Bytes) (c : ℕ) → Lacks c s → remove_byte c s ≡ s
unfolding remove_byte
remove_byte-Lacks [] c h = refl
remove_byte-Lacks (b ∷ s) c (hb, h) = ground (arith, remove_byte-Lacks s c h)

pub Lacks-remove_byte : (s : Bytes) (c : ℕ) → Lacks c (remove_byte c s)
unfolding remove_byte
Lacks-remove_byte [] c = tt
Lacks-remove_byte (b ∷ s) c = ground (arith, Lacks-remove_byte s c)

-- `strings.TrimRight(s, cutset)` for a cutset of ASCII bytes, given as a test.
unfoldable pub trim_right : (ℕ → Bool) → Bytes → Bytes
trim_right p [] = []
trim_right p (b ∷ s) = elim (trim_right p s) [ [] ↦ if p b then [] else b ∷ [] | c ∷ t ↦ b ∷ c ∷ t ]

-- The cutset `"\r"`.
unfoldable pub is_cr : ℕ → Bool
is_cr c = c == b'\r'

-- `strings.Split(s, string(sep))` for a one-byte separator.
unfoldable pub split_cons : ℕ → List Bytes → List Bytes
split_cons b [] = (b ∷ []) ∷ []
split_cons b (p ∷ ps) = (b ∷ p) ∷ ps

unfoldable pub split : Bytes → ℕ → List Bytes
unfolding split_cons
split [] sep = [] ∷ []
split (b ∷ s) sep = let rest = split s sep in if b == sep then [] ∷ rest else split_cons b rest

-- `strings.Join(parts, string(sep))` for a one-byte separator.
unfoldable pub join : List Bytes → ℕ → Bytes
join [] sep = []
join (p ∷ []) sep = p
join (p ∷ q ∷ ps) sep = p ++ (sep ∷ join (q ∷ ps) sep)

-- `unicode.IsSpace`
unfoldable pub is_space : ℕ → Bool
is_space r =
    (leb 0x9 r && leb r 0xd)
    || r == 0x20
    || r == 0x85
    || r == 0xa0
    || r == 0x1680
    || (leb 0x2000 r && leb r 0x200a)
    || r == 0x2028
    || r == 0x2029
    || r == 0x202f
    || r == 0x205f
    || r == 0x3000

unfoldable pub trim_left_runes : List Rune → List Rune
trim_left_runes [] = []
trim_left_runes (r ∷ rs) =
    let rest = trim_left_runes rs in if is_space r.value then rest else r ∷ rs

unfoldable pub trim_right_runes : List Rune → List Rune
trim_right_runes [] = []
trim_right_runes (r ∷ rs) = elim (trim_right_runes rs) [
  | [] ↦ if is_space r.value then [] else r ∷ []
  | q ∷ qs ↦ r ∷ q ∷ qs
]

-- `strings.TrimSpace`
unfoldable pub trim_space : Bytes → Bytes
unfolding runes is_space trim_left_runes trim_right_runes
trim_space s = bytes_of (trim_right_runes (trim_left_runes (runes s)))

-- `strings.HasPrefix`
unfoldable pub has_prefix : Bytes → Bytes → Bool
has_prefix s [] = true
has_prefix [] (c ∷ p) = false
has_prefix (b ∷ s) (c ∷ p) = b == c && has_prefix s p

-- `strings.LastIndexByte`; `none` is -1.
unfoldable pub last_index_byte : Bytes → ℕ → Option ℕ
last_index_byte [] c = none
last_index_byte (b ∷ s) c = elim (last_index_byte s c) [
  | some i ↦ some (suc i)
  | none ↦ if b == c then some 0 else none
]

-- `strings.ReplaceAll(s, old, "")` for an `old` that is not empty; the first argument counts the
-- bytes of the last match that are still to be passed.
unfoldable pub remove_from : ℕ → Bytes → Bytes → Bytes
unfolding has_prefix
remove_from skip old [] = []
remove_from (suc k) old (b ∷ s) = remove_from k old s
remove_from zero old (b ∷ s) = elim (has_prefix (b ∷ s) old) [
  | true ↦ remove_from (length old - 1) old s
  | false ↦ b ∷ remove_from 0 old s
]

unfoldable pub remove_all : Bytes → Bytes → Bytes
unfolding remove_from
remove_all = remove_from 0
