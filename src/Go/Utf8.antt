-- ===== src/Go/Utf8.antt =====
-- unicode/utf8 and the `range` loop over a string: a string is decoded into runes, and an
-- invalid byte is the rune U+FFFD of width 1.
pub mod Laws
pub mod Encode
use gyzor.Prelude.{
  ℕ, zero, suc, ◌+◌, ◌-◌, ◌*◌, ◌≤◌, ◌<◌, ◌≡◌, refl, Bool, true, false, not, ◌&&◌, List, [], ◌∷◌,
  ◌++◌, append_assoc, arith, ltb, leb, ◌==◌, if◌then◌else◌, take, drop, length, take-append-drop,
  Bytes, ap, ◌∙◌,
}

pub record Decoded : Type 0 where
  pub value : ℕ
  pub size : ℕ

-- `utf8.RuneError`
abbrev pub rune_error : ℕ
rune_error = 0xfffd

abbrev within : ℕ → ℕ → ℕ → Bool
within lo hi c = leb lo c && leb c hi

abbrev invalid : Decoded
invalid = record { value = rune_error; size = 1 }

two : ℕ → Bytes → Decoded
two a (b ∷ _) =
    if within 0x80 0xbf b
    then record { value = (a - 0xc0) * 64 + (b - 0x80); size = 2 }
    else invalid
two a _ = invalid

three : ℕ → Bytes → Decoded
three a (b ∷ c ∷ _) =
    let lo = if a == 0xe0 then 0xa0 else 0x80 in
    let hi = if a == 0xed then 0x9f else 0xbf in
    if within lo hi b && within 0x80 0xbf c
    then record { value = (a - 0xe0) * 4096 + (b - 0x80) * 64 + (c - 0x80); size = 3 }
    else invalid
three a _ = invalid

four : ℕ → Bytes → Decoded
four a (b ∷ c ∷ d ∷ _) =
    let lo = if a == 0xf0 then 0x90 else 0x80 in
    let hi = if a == 0xf4 then 0x8f else 0xbf in
    if within lo hi b && within 0x80 0xbf c && within 0x80 0xbf d
    then record {
      value = (a - 0xf0) * 262144 + (b - 0x80) * 4096 + (c - 0x80) * 64 + (d - 0x80);
      size = 4;
    }
    else invalid
four a _ = invalid

-- `utf8.DecodeRuneInString` on a string that begins with `a`.
unfoldable pub decode_rune : ℕ → Bytes → Decoded
unfolding two three four
decode_rune a s =
    if ltb a 0x80
    then record { value = a; size = 1 }
    else if ltb a 0xc2
    then invalid
    else if ltb a 0xe0
    then two a s
    else if ltb a 0xf0
    then three a s
    else if ltb a 0xf5
    then four a s
    else invalid

-- `utf8.RuneLen` of a rune that is decoded from a string.
unfoldable pub rune_len : ℕ → ℕ
rune_len r = if ltb r 0x80 then 1 else if ltb r 0x800 then 2 else if ltb r 0x10000 then 3 else 4

two-size : (a : ℕ) (s : Bytes) → (1 ≤ (two a s).size) × ((two a s).size ≤ suc (length s))
unfolding two
two-size a [] = omega arith
two-size a (b ∷ s) = ground arith

three-size : (a : ℕ) (s : Bytes) → (1 ≤ (three a s).size) × ((three a s).size ≤ suc (length s))
unfolding three
three-size a [] = omega arith
three-size a (b ∷ []) = omega arith
three-size a (b ∷ c ∷ s) = ground arith

four-size : (a : ℕ) (s : Bytes) → (1 ≤ (four a s).size) × ((four a s).size ≤ suc (length s))
unfolding four
four-size a [] = omega arith
four-size a (b ∷ []) = omega arith
four-size a (b ∷ c ∷ []) = omega arith
four-size a (b ∷ c ∷ d ∷ s) = ground arith

-- A rune takes a byte at least, and no more than there are.
pub decode_rune-size :
    (a : ℕ) (s : Bytes) → (1 ≤ (decode_rune a s).size) × ((decode_rune a s).size ≤ suc (length s))
unfolding decode_rune
decode_rune-size a s = ground (arith, two-size a s, three-size a s, four-size a s)

-- A rune of a string, with the bytes that it is read from.
pub record Rune : Type 0 where
  pub value : ℕ
  pub raw : Bytes

-- The runes that `range s` meets; the first argument counts the bytes of the last rune that are
-- still to be passed.
unfoldable pub runes_from : ℕ → Bytes → List Rune
runes_from skip [] = []
runes_from zero (a ∷ s) =
    let d = decode_rune a s in
    record { value = d.value; raw = take d.size (a ∷ s) } ∷ runes_from (d.size - 1) s
runes_from (suc k) (a ∷ s) = runes_from k s

unfoldable pub runes : Bytes → List Rune
unfolding runes_from decode_rune
runes = runes_from 0

-- The bytes of a sequence of runes.
abbrev pub bytes_of : List Rune → Bytes
bytes_of [] = []
bytes_of (c ∷ cs) = c.raw ++ bytes_of cs

pub bytes_of-append : (cs ds : List Rune) → bytes_of (cs ++ ds) ≡ bytes_of cs ++ bytes_of ds
bytes_of-append [] ds = refl
bytes_of-append (c ∷ cs) ds = rw (bytes_of-append cs ds, append_assoc)

take-drop-pred : (n a : ℕ) (s : Bytes) → 1 ≤ n → take n (a ∷ s) ++ drop (n - 1) s ≡ a ∷ s
take-drop-pred zero a s h = absurd (omega arith)
take-drop-pred (suc n) a s h =
    let e : suc n - 1 ≡ n = omega arith in rw e (ap (◌∷◌ a) (take-append-drop n s))

bytes_of-runes_from : (k : ℕ) (s : Bytes) → bytes_of (runes_from k s) ≡ drop k s
unfolding runes_from
bytes_of-runes_from zero [] = refl
bytes_of-runes_from (suc k) [] = refl
bytes_of-runes_from zero (a ∷ s) =
    let n = (decode_rune a s).size in
    ap (◌++◌ (take n (a ∷ s))) (bytes_of-runes_from (n - 1) s)
    ∙ take-drop-pred n a s (decode_rune-size a s).0
bytes_of-runes_from (suc k) (a ∷ s) = bytes_of-runes_from k s

-- The runes of a string spell it.
pub bytes_of-runes : (s : Bytes) → bytes_of (runes s) ≡ s
unfolding runes
bytes_of-runes s = bytes_of-runes_from 0 s

-- `utf8.Valid`: no byte is read as an invalid one.
unfoldable pub valid_runes : List Rune → Bool
valid_runes [] = true
valid_runes (r ∷ rs) = not (r.value == rune_error && length r.raw == 1) && valid_runes rs

unfoldable pub valid_utf8 : Bytes → Bool
unfolding valid_runes
valid_utf8 s = valid_runes (runes s)
