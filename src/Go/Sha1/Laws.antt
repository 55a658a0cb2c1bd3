-- ===== src/Go/Sha1/Laws.antt =====
-- The digits of a digest.
use gyzor.Prelude.{
  ℕ, zero, suc, ◌/◌, ◌%◌, ◌^◌, ◌≤◌, ◌<◌, ◌⊎◌, ◌++◌, [], ◌∷◌, Bytes, All, All-append, AllBytes,
  length, arith, take, drop,
}
use gyzor.Go.Case.{IsLower}
use gyzor.Go.Strings.Laws.{IsGraphic}
use gyzor.Go.Sha1.{Chain, block, blocks, padded, word_bytes, sha1, hex_digit, hex_encode}

record IsWords (s : Chain) : Type 0 where
  a_word : s.a < 2 ^ 32
  b_word : s.b < 2 ^ 32
  c_word : s.c < 2 ^ 32
  d_word : s.d < 2 ^ 32
  e_word : s.e < 2 ^ 32

block-IsWords : (s : Chain) (b : Bytes) → IsWords (block s b)
unfolding block
block-IsWords s b = omega arith

blocks-IsWords : (n : ℕ) (m : Bytes) (s : Chain) → IsWords s → IsWords (blocks n m s)
unfolding blocks
blocks-IsWords zero m s h = h
blocks-IsWords (suc n) m s h =
    blocks-IsWords n (drop 64 m) (block s (take 64 m)) (block-IsWords s (take 64 m))

word_bytes-AllBytes : (x : ℕ) → x < 2 ^ 32 → AllBytes (word_bytes x)
unfolding word_bytes
word_bytes-AllBytes x h = omega arith

start-IsWords :
    IsWords (record {
      a = 0x6745_2301;
      b = 0xefcd_ab89;
      c = 0x98ba_dcfe;
      d = 0x1032_5476;
      e = 0xc3d2_e1f0;
    })
start-IsWords = omega arith

joined : (xs ys : Bytes) → AllBytes xs → AllBytes ys → AllBytes (xs ++ ys)
joined xs ys hx hy = All-append (λ c. c ≤ 255) xs ys hx hy

chain_bytes-AllBytes :
    (s : Chain)
    → IsWords s
    → AllBytes (
        word_bytes s.a
        ++ (word_bytes s.b ++ (word_bytes s.c ++ (word_bytes s.d ++ word_bytes s.e))))
chain_bytes-AllBytes s w =
    let d =
      joined (word_bytes s.d) (word_bytes s.e) (word_bytes-AllBytes s.d w.d_word)
        (word_bytes-AllBytes s.e w.e_word) in
    let c =
      joined (word_bytes s.c) (word_bytes s.d ++ word_bytes s.e) (word_bytes-AllBytes s.c w.c_word)
        d in
    let b =
      joined (word_bytes s.b) (word_bytes s.c ++ (word_bytes s.d ++ word_bytes s.e))
        (word_bytes-AllBytes s.b w.b_word) c in
    joined (word_bytes s.a)
      (word_bytes s.b ++ (word_bytes s.c ++ (word_bytes s.d ++ word_bytes s.e)))
      (word_bytes-AllBytes s.a w.a_word) b

-- `Sum` gives bytes.
pub sha1-AllBytes : (m : Bytes) → AllBytes (sha1 m)
unfolding sha1
sha1-AllBytes m =
    chain_bytes-AllBytes _ (blocks-IsWords (length (padded m) / 64) (padded m) _ start-IsWords)

-- A lower-case hexadecimal digit.
abbrev pub IsHex : ℕ → Type 0
IsHex c = ((b'0' ≤ c) × (c ≤ b'9')) ⊎ ((b'a' ≤ c) × (c ≤ b'f'))

hex_digit-IsHex : (n : ℕ) → n < 16 → IsHex (hex_digit n)
unfolding hex_digit
hex_digit-IsHex n h = ground arith

pub hex_encode-IsHex : (s : Bytes) → AllBytes s → All IsHex (hex_encode s)
unfolding hex_encode
hex_encode-IsHex [] h = tt
hex_encode-IsHex (b ∷ s) (hb, h) = (
  hex_digit-IsHex (b / 16) (omega arith),
  (hex_digit-IsHex (b % 16) (omega arith), hex_encode-IsHex s h),
)

pub IsHex-IsLower : (s : Bytes) → All IsHex s → All IsLower s
IsHex-IsLower [] h = tt
IsHex-IsLower (c ∷ s) (hc, h) = (ground arith, IsHex-IsLower s h)

pub IsHex-IsGraphic : (s : Bytes) → All IsHex s → All IsGraphic s
IsHex-IsGraphic [] h = tt
IsHex-IsGraphic (c ∷ s) (hc, h) = (omega arith, IsHex-IsGraphic s h)
