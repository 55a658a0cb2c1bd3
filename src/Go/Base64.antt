-- ===== src/Go/Base64.antt =====
-- `base64.StdEncoding.Decode`: quanta of four characters, the last one padded; `none` is its error.
use gyzor.Prelude.{
  ℕ, ◌+◌, ◌-◌, ◌*◌, ◌/◌, ◌%◌, ◌&&◌, ◌||◌, [], ◌∷◌, Option, none, some, ◌++◌, Bytes, leb, ◌==◌,
  if◌then◌else◌,
}

-- The value of a character of the alphabet.
unfoldable pub value64 : ℕ → Option ℕ
value64 c =
    if leb b'A' c && leb c b'Z'
    then some (c - b'A')
    else if leb b'a' c && leb c b'z'
    then some (c - b'a' + 26)
    else if leb b'0' c && leb c b'9'
    then some (c - b'0' + 52)
    else if c == b'+'
    then some 62
    else if c == b'/'
    then some 63
    else none

-- The last quantum: one byte before `==`, two before `=`.
unfoldable pub last64 : ℕ → ℕ → ℕ → ℕ → Option Bytes
last64 a b c d = elim (value64 a) [
  | none ↦ none
  | some x ↦ elim (value64 b) [
    | none ↦ none
    | some y ↦ if c == b'=' && d == b'=' then some ((x * 4 + y / 16) ∷ []) else (elim (value64 c) [
      | none ↦ none
      | some z ↦ if d == b'=' then some ((x * 4 + y / 16) ∷ (y % 16 * 16 + z / 4) ∷ []) else none
    ])
  ]
]

unfoldable pub quantum64 : ℕ → ℕ → ℕ → ℕ → Option Bytes
quantum64 a b c d = elim (value64 a) [
  | none ↦ none
  | some x ↦ elim (value64 b) [
    | none ↦ none
    | some y ↦ elim (value64 c) [
      | none ↦ none
      | some z ↦ elim (value64 d) [
        | none ↦ none
        | some w ↦ some ((x * 4 + y / 16) ∷ (y % 16 * 16 + z / 4) ∷ (z % 4 * 64 + w) ∷ [])
      ]
    ]
  ]
]

unfoldable pub then_bytes : Option Bytes → Option Bytes → Option Bytes
then_bytes none rest = none
then_bytes (some xs) none = none
then_bytes (some xs) (some ys) = some (xs ++ ys)

unfoldable pub or_else : Option Bytes → Option Bytes → Option Bytes
or_else none other = other
or_else (some xs) other = some xs

unfoldable pub quanta64 : Bytes → Option Bytes
unfolding then_bytes or_else
quanta64 [] = some []
quanta64 (a ∷ []) = none
quanta64 (a ∷ b ∷ []) = none
quanta64 (a ∷ b ∷ c ∷ []) = none
quanta64 (a ∷ b ∷ c ∷ d ∷ []) = or_else (quantum64 a b c d) (last64 a b c d)
quanta64 (a ∷ b ∷ c ∷ d ∷ e ∷ s) = then_bytes (quantum64 a b c d) (quanta64 (e ∷ s))

-- Line breaks are passed over wherever they stand.
unfoldable pub skip_breaks : Bytes → Bytes
skip_breaks [] = []
skip_breaks (c ∷ s) =
    let rest = skip_breaks s in if c == b'\n' || c == b'\r' then rest else c ∷ rest

unfoldable pub decode64 : Bytes → Option Bytes
decode64 s = quanta64 (skip_breaks s)
