-- ===== src/Go/Case.antt =====
-- `strings.ToLower`. The lower case of a rune from U+0080 on is given by Unicode's tables, the
-- argument `lower` (`unicode.ToLower`).
use mathlib.Core.List.{flat_map}
use gyzor.Prelude.{
  ℕ, ◌+◌, ◌/◌, ◌%◌, Bool, true, false, ◌&&◌, ◌||◌, [], ◌∷◌, ◌≡◌, refl, map, leb, ltb, if◌then◌else◌,
  Bytes, All, ◌<◌, ◌≤◌, ◌⊎◌, arith,
}
use gyzor.Go.Utf8.{Rune, runes}

-- `utf8.AppendRune`
unfoldable pub encode_rune : ℕ → Bytes
encode_rune r =
    if ltb r 0x80
    then r ∷ []
    else if ltb r 0x800
    then (0xc0 + r / 64) ∷ (0x80 + r % 64) ∷ []
    else if leb 0xd800 r && leb r 0xdfff || ltb 0x10ffff r
    then 0xef ∷ 0xbf ∷ 0xbd ∷ []
    else if ltb r 0x10000
    then (0xe0 + r / 4096) ∷ (0x80 + r / 64 % 64) ∷ (0x80 + r % 64) ∷ []
    else (0xf0 + r / 262144) ∷ (0x80 + r / 4096 % 64) ∷ (0x80 + r / 64 % 64) ∷ (0x80 + r % 64) ∷ []

abbrev lower_ascii : ℕ → ℕ
lower_ascii c = if leb b'A' c && leb c b'Z' then c + 32 else c

abbrev is_ascii : Bytes → Bool
is_ascii [] = true
is_ascii (c ∷ s) = ltb c 0x80 && is_ascii s

-- `strings.ToLower`
unfoldable pub to_lower : (ℕ → ℕ) → Bytes → Bytes
unfolding runes encode_rune
to_lower lower s =
    if is_ascii s
    then map lower_ascii s
    else flat_map
        (λ (r : Rune).
          encode_rune (if ltb r.value 0x80 then lower_ascii r.value else lower r.value))
        (runes s)

-- A byte that `ToLower` leaves alone: ASCII, and no capital.
abbrev pub IsLower : ℕ → Type 0
IsLower c = (c < 0x80) × ((leb b'A' c && leb c b'Z') ≡ false)

lower_parts : (s : Bytes) → All IsLower s → (is_ascii s ≡ true) × (map lower_ascii s ≡ s)
lower_parts [] h = (refl, refl)
lower_parts (c ∷ s) (hc, h) = let (a, m) = lower_parts s h in (ground arith, ground arith)

pub to_lower_id : (lower : ℕ → ℕ) (s : Bytes) → All IsLower s → to_lower lower s ≡ s
unfolding to_lower
to_lower_id lower s h = let (a, m) = lower_parts s h in rw (a, m)

-- A word in any case; the first is in lower case.
abbrev pub IsAnyCase : Bytes → Bytes → Type 0
IsAnyCase [] [] = Unit
IsAnyCase [] (d ∷ s) = ⊥
IsAnyCase (c ∷ word) [] = ⊥
IsAnyCase (c ∷ word) (d ∷ s) =
    ((d ≡ c) ⊎ ((b'a' ≤ c) × (c ≤ b'z') × (d + 32 ≡ c))) × IsAnyCase word s

any_case_parts :
    (word s : Bytes)
    → All IsLower word
    → IsAnyCase word s
    → (is_ascii s ≡ true) × (map lower_ascii s ≡ word)
any_case_parts [] [] h e = (refl, refl)
any_case_parts [] (d ∷ s) h e = absurd e
any_case_parts (c ∷ word) [] h e = absurd e
any_case_parts (c ∷ word) (d ∷ s) (hc, h) (ec, e) =
    let (a, m) = any_case_parts word s h e in (ground arith, ground arith)

pub to_lower-IsAnyCase :
    (lower : ℕ → ℕ) (word s : Bytes) → All IsLower word → IsAnyCase word s → to_lower lower s ≡ word
unfolding to_lower
to_lower-IsAnyCase lower word s h e = let (a, m) = any_case_parts word s h e in rw (a, m)
