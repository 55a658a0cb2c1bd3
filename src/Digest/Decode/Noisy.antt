-- ===== src/Digest/Decode/Noisy.antt =====
-- A base64 body is decoded to what it encodes, whatever stands between its characters.
use gyzor.Prelude.{
  ℕ, ◌+◌, ◌-◌, ◌/◌, ◌%◌, ◌*◌, ◌≤◌, ◌<◌, ◌≡◌, ◌≢◌, ◌⊎◌, inl, inr, refl, ap, ◌∙◌, true, false, [],
  ◌∷◌, ◌++◌, replicate, Bytes, AllBytes, All, arith, Bool-cases, bytes_eq, codes,
}
use gyzor.Go.Base64.{decode64}
use gyzor.Go.Case.{to_lower, IsLower, IsAnyCase, to_lower-IsAnyCase}
use gyzor.Go.Strings.{trim_space}
use gyzor.Go.Strings.Laws.{IsGraphic}
use gyzor.Go.Strings.Trim.{trim_space_blanks}
use gyzor.Digest.Decode.{is_base64_byte, keep, base64_or_raw, decode_cte}
use gyzor.Digest.Decode.Base64.{char64, encode64, skip-IsPrinted, encode-IsPrinted, quanta-encode}
use gyzor.Digest.Decode.Filters.{filters-keep}

-- A byte that no value is printed as, and that is no padding.
abbrev pub IsNoise : ℕ → Type 0
IsNoise c = (c ≢ b'=') × ((v : ℕ) → v < 64 → char64 v ≢ c)

-- A body that holds the bytes of an encoding in their order, with noise between them.
pub data Noisy : Bytes → Bytes → Type 0 where
  done : Noisy [] []
  char : (c : ℕ) {body code : Bytes} → Noisy body code → Noisy (c ∷ body) (c ∷ code)
  noise : (c : ℕ) {body code : Bytes} → IsNoise c → Noisy body code → Noisy (c ∷ body) code

IsChar : ℕ → Type 0
IsChar c = (c ≡ b'=') ⊎ ((v : ℕ) × ((v < 64) × (char64 v ≡ c)))

-- The bytes that the filter keeps are those of the encoding's alphabet.
is_base64_byte-char : (v : ℕ) → v < 64 → is_base64_byte (char64 v) ≡ true
unfolding is_base64_byte char64
is_base64_byte-char v h = ground arith

-- The ranges of the alphabet.
abbrev IsRanged : ℕ → Type 0
IsRanged c =
    ((b'A' ≤ c) × (c ≤ b'Z'))
    ⊎ ((b'a' ≤ c) × (c ≤ b'z'))
    ⊎ ((b'0' ≤ c) × (c ≤ b'9'))
    ⊎ (c ≡ b'+')
    ⊎ (c ≡ b'/')
    ⊎ (c ≡ b'=')

byte-IsRanged : (c : ℕ) → is_base64_byte c ≡ true → IsRanged c
unfolding is_base64_byte
byte-IsRanged c h = ground arith

ranged-IsChar : (c : ℕ) → IsRanged c → IsChar c
unfolding IsChar char64
ranged-IsChar c (inl h) = inr (c - b'A', (omega arith, ground arith))
ranged-IsChar c (inr (inl h)) = inr (c - b'a' + 26, (omega arith, ground arith))
ranged-IsChar c (inr (inr (inl h))) = inr (c - b'0' + 52, (omega arith, ground arith))
ranged-IsChar c (inr (inr (inr (inl h)))) = inr (62, (omega arith, ground arith))
ranged-IsChar c (inr (inr (inr (inr (inl h))))) = inr (63, (omega arith, ground arith))
ranged-IsChar c (inr (inr (inr (inr (inr h))))) = inl h

byte-IsChar : (c : ℕ) → is_base64_byte c ≡ true → IsChar c
byte-IsChar c h = ranged-IsChar c (byte-IsRanged c h)

noise_dropped : (c : ℕ) → IsNoise c → is_base64_byte c ≡ false
unfolding IsChar
noise_dropped c (no_pad, no_char) = elim (Bool-cases (is_base64_byte c)) [
  | inr off ↦ off
  | inl on ↦ elim (byte-IsChar c on) [
    | inl e ↦ absurd (no_pad e)
    | inr (v, (lt, e)) ↦ absurd (no_char v lt e)
  ]
]

abbrev AllKept : Bytes → Type 0
AllKept = All (λ c. is_base64_byte c ≡ true)

pad_kept : is_base64_byte b'=' ≡ true
unfolding is_base64_byte
pad_kept = refl

encode-AllKept : (s : Bytes) → AllBytes s → AllKept (encode64 s)
unfolding encode64
encode-AllKept [] h = tt
encode-AllKept (x ∷ []) (hx, h) = (
  is_base64_byte-char (x / 4) (omega arith),
  (is_base64_byte-char (x % 4 * 16) (omega arith), (pad_kept, (pad_kept, tt))),
)
encode-AllKept (x ∷ y ∷ []) (hx, (hy, h)) = (
  is_base64_byte-char (x / 4) (omega arith),
  (
    is_base64_byte-char (x % 4 * 16 + y / 16) (omega arith),
    (is_base64_byte-char (y % 16 * 4) (omega arith), (pad_kept, tt)),
  ),
)
encode-AllKept (x ∷ y ∷ z ∷ s) (hx, (hy, (hz, h))) = (
  is_base64_byte-char (x / 4) (omega arith),
  (
    is_base64_byte-char (x % 4 * 16 + y / 16) (omega arith),
    (
      is_base64_byte-char (y % 16 * 4 + z / 64) (omega arith),
      (is_base64_byte-char (z % 64) (omega arith), encode-AllKept s h),
    ),
  ),
)

keep-Noisy : {body code : Bytes} → Noisy body code → AllKept code → keep is_base64_byte body ≡ code
unfolding keep
keep-Noisy done h = refl
keep-Noisy (char c {body} {code} n) (hc, h) = rw (hc, keep-Noisy n h) refl
keep-Noisy (noise c {body} {code} hc n) h = rw (noise_dropped c hc, keep-Noisy n h) refl

any_case-IsGraphic : (word s : Bytes) → All IsGraphic word → IsAnyCase word s → All IsGraphic s
any_case-IsGraphic [] [] h e = tt
any_case-IsGraphic [] (d ∷ s) h e = absurd e
any_case-IsGraphic (c ∷ word) [] h e = absurd e
any_case-IsGraphic (c ∷ word) (d ∷ s) (hc, h) (ec, e) =
    (ground arith, any_case-IsGraphic word s h e)

base64-IsLower : All IsLower (codes "base64")
base64-IsLower = ground arith

named_base64 :
    (lower : ℕ → ℕ) (name : Bytes) (i j : ℕ)
    → IsAnyCase (codes "base64") name
    → to_lower lower (trim_space (replicate i b' ' ++ (name ++ replicate j b' '))) ≡ codes "base64"
named_base64 lower [] i j h = absurd h
named_base64 lower (d ∷ name) i j h =
    ap (to_lower lower) (
      trim_space_blanks i d name j (any_case-IsGraphic (codes "base64") (d ∷ name) (omega arith) h))
    ∙ to_lower-IsAnyCase lower (codes "base64") (d ∷ name) base64-IsLower h

decode_named :
    (lower : ℕ → ℕ) (unquote : Bytes → Bytes) (s body cte : Bytes)
    → AllBytes s
    → Noisy body (encode64 s)
    → to_lower lower (trim_space cte) ≡ codes "base64"
    → decode_cte lower unquote body cte ≡ s
unfolding decode_cte decode64 base64_or_raw bytes_eq
decode_named lower unquote s body cte bytes noisy name =
    rw
      (
        name,
        (filters-keep body).0,
        keep-Noisy noisy (encode-AllKept s bytes),
        skip-IsPrinted (encode64 s) (encode-IsPrinted s bytes),
        quanta-encode s bytes,
      )
      refl

-- A body that holds the base64 encoding of a byte string, with any bytes between its characters that
-- are neither printed values nor padding, is decoded to that byte string by decodeCTE, when the
-- transfer encoding is the word base64 in any case, with any number of blanks round it.
pub decode_cte-encode64 :
    (lower : ℕ → ℕ) (unquote : Bytes → Bytes) (s body name : Bytes) (i j : ℕ)
    → AllBytes s
    → Noisy body (encode64 s)
    → IsAnyCase (codes "base64") name
    → decode_cte lower unquote body (replicate i b' ' ++ (name ++ replicate j b' ')) ≡ s
decode_cte-encode64 lower unquote s body name i j bytes noisy h =
    decode_named lower unquote s body _ bytes noisy (named_base64 lower name i j h)
