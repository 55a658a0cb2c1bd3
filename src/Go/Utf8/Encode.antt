-- ===== src/Go/Utf8/Encode.antt =====
-- Encoding a decoded rune gives its bytes back, and what stands behind a rune does not change it.
use gyzor.Prelude.{
  ℕ, zero, suc, ◌-◌, ◌≤◌, ◌<◌, ◌≡◌, refl, ap, ◌∙◌, take-length, false, ◌&&◌, [], ◌∷◌, ◌++◌, Bytes,
  arith, ◌==◌, take, length,
}
use gyzor.Go.Case.{encode_rune}
use gyzor.Go.Utf8.{Decoded, runes_from, decode_rune-size, rune_error, decode_rune, two, three, four}

-- Not an invalid byte.
abbrev pub IsGood : Decoded → Type 0
IsGood d = (d.value == rune_error && d.size == 1) ≡ false

encode-two :
    (a : ℕ) (s : Bytes)
    → 0xc2 ≤ a
    → a < 0xe0
    → IsGood (two a s)
    → encode_rune (two a s).value ≡ take (two a s).size (a ∷ s)
unfolding two encode_rune
encode-two a [] lo hi g = ground arith
encode-two a (b ∷ s) lo hi g = ground arith

encode-three :
    (a : ℕ) (s : Bytes)
    → 0xe0 ≤ a
    → a < 0xf0
    → IsGood (three a s)
    → encode_rune (three a s).value ≡ take (three a s).size (a ∷ s)
unfolding three encode_rune
encode-three a [] lo hi g = ground arith
encode-three a (b ∷ []) lo hi g = ground arith
encode-three a (b ∷ c ∷ s) lo hi g = ground arith

encode-four :
    (a : ℕ) (s : Bytes)
    → 0xf0 ≤ a
    → a < 0xf5
    → IsGood (four a s)
    → encode_rune (four a s).value ≡ take (four a s).size (a ∷ s)
unfolding four encode_rune
encode-four a [] lo hi g = ground arith
encode-four a (b ∷ []) lo hi g = ground arith
encode-four a (b ∷ c ∷ []) lo hi g = ground arith
encode-four a (b ∷ c ∷ d ∷ s) lo hi g = ground arith

encode_ascii : (a : ℕ) → a < 0x80 → encode_rune a ≡ a ∷ []
unfolding encode_rune
encode_ascii a h = ground arith

-- Encoding a rune that is read from valid bytes gives these bytes back.
pub encode-decode_rune :
    (a : ℕ) (s : Bytes)
    → IsGood (decode_rune a s)
    → encode_rune (decode_rune a s).value ≡ take (decode_rune a s).size (a ∷ s)
unfolding decode_rune
encode-decode_rune a s g =
    ground (arith, encode-two a s, encode-three a s, encode-four a s, encode_ascii a)

prefix-two :
    (a : ℕ) (s t : Bytes) → IsGood (two a s) → two a (take ((two a s).size - 1) s ++ t) ≡ two a s
unfolding two
prefix-two a [] t g = ground arith
prefix-two a (b ∷ s) t g = ground arith

prefix-three :
    (a : ℕ) (s t : Bytes)
    → IsGood (three a s)
    → three a (take ((three a s).size - 1) s ++ t) ≡ three a s
unfolding three
prefix-three a [] t g = ground arith
prefix-three a (b ∷ []) t g = ground arith
prefix-three a (b ∷ c ∷ s) t g = ground arith

prefix-four :
    (a : ℕ) (s t : Bytes)
    → IsGood (four a s)
    → four a (take ((four a s).size - 1) s ++ t) ≡ four a s
unfolding four
prefix-four a [] t g = ground arith
prefix-four a (b ∷ []) t g = ground arith
prefix-four a (b ∷ c ∷ []) t g = ground arith
prefix-four a (b ∷ c ∷ d ∷ s) t g = ground arith

-- What stands behind the bytes of a rune does not change how they are read.
pub decode_rune-prefix :
    (a : ℕ) (s t : Bytes)
    → IsGood (decode_rune a s)
    → decode_rune a (take ((decode_rune a s).size - 1) s ++ t) ≡ decode_rune a s
unfolding decode_rune
decode_rune-prefix a s t g = ground (arith, prefix-two a s t, prefix-three a s t, prefix-four a s t)

skip-append : (xs t : Bytes) → runes_from (length xs) (xs ++ t) ≡ runes_from 0 t
unfolding runes_from
skip-append [] t = refl
skip-append (x ∷ xs) t = skip-append xs t

runes_read :
    (a : ℕ) (xs t : Bytes)
    → (decode_rune a (xs ++ t)).size ≡ suc (length xs)
    → runes_from 0 (a ∷ (xs ++ t))
      ≡ record { value = (decode_rune a (xs ++ t)).value; raw = a ∷ xs } ∷ runes_from 0 t
unfolding runes_from
runes_read a xs t e =
    let less : suc (length xs) - 1 ≡ length xs = omega arith in
    rw (e, less, take-length xs t, skip-append xs t) refl

length-take_le : (n : ℕ) (s : Bytes) → n ≤ length s → length (take n s) ≡ n
length-take_le zero s h = refl
length-take_le (suc n) [] h = absurd (omega arith)
length-take_le (suc n) (x ∷ s) h = ap suc (length-take_le n s (omega arith))

take-pred : (n a : ℕ) (s : Bytes) → 1 ≤ n → take n (a ∷ s) ≡ a ∷ take (n - 1) s
take-pred zero a s h = absurd (omega arith)
take-pred (suc n) a s h = let e : suc n - 1 ≡ n = omega arith in rw e refl

-- The bytes of a rune that is no invalid byte are read as that rune, whatever follows.
pub runes-suc :
    (a : ℕ) (s t : Bytes)
    → IsGood (decode_rune a s)
    → runes_from 0 (take (decode_rune a s).size (a ∷ s) ++ t)
      ≡ record { value = (decode_rune a s).value; raw = take (decode_rune a s).size (a ∷ s) }
        ∷ runes_from 0 t
runes-suc a s t g =
    let n = (decode_rune a s).size in
    let bounds = decode_rune-size a s in
    let cut = take-pred n a s bounds.0 in
    let same = decode_rune-prefix a s t g in
    let size : (decode_rune a (take (n - 1) s ++ t)).size ≡ suc (length (take (n - 1) s)) =
      ap (λ d. d.size) same
      ∙ omega (arith, bounds.0, length-take_le (n - 1) s (omega (arith, bounds.1))) in
    rw cut (runes_read a (take (n - 1) s) t size ∙ rw same refl)
