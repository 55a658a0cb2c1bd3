-- ===== src/Go/Sha1.antt =====
-- crypto/sha1 and encoding/hex: `sha1` gives the 20 bytes of `Sum`, `hex_encode` the lower-case
-- digits of `EncodeToString`. Both run on concrete bytes.
pub mod Laws
use Prim.Native.Nat.{bit_and, bit_or, bit_xor}
use mathlib.Core.List.{reverse}
use gyzor.Prelude.{
  ℕ, zero, suc, ◌+◌, ◌-◌, ◌*◌, ◌/◌, ◌%◌, ◌^◌, List, [], ◌∷◌, ◌++◌, ltb, if◌then◌else◌, length,
  get_or, take, drop, replicate, Bytes,
}

abbrev word : ℕ → ℕ
word x = x % 0x1_0000_0000

rotate_left : ℕ → ℕ → ℕ
rotate_left n x = word (x * 2 ^ n) + x / 2 ^ (32 - n)

-- The message, a bit 1, zeros, and its length in bits as eight bytes.
padded : Bytes → Bytes
padded m =
    let bits = 8 * length m in
    m
    ++ (0x80
        ∷ (replicate ((119 - length m % 64) % 64) 0
            ++ ((bits / 2 ^ 56) % 256
                ∷ (bits / 2 ^ 48) % 256
                ∷ (bits / 2 ^ 40) % 256
                ∷ (bits / 2 ^ 32) % 256
                ∷ (bits / 2 ^ 24) % 256
                ∷ (bits / 2 ^ 16) % 256
                ∷ (bits / 2 ^ 8) % 256
                ∷ bits % 256
                ∷ [])))

-- The words of a block, the last one first.
block_words : ℕ → Bytes → List ℕ → List ℕ
block_words zero b ws = ws
block_words (suc n) (x ∷ y ∷ z ∷ w ∷ b) ws =
    block_words n b ((x * 2 ^ 24 + y * 2 ^ 16 + z * 2 ^ 8 + w) ∷ ws)
block_words (suc n) _ ws = ws

extend : ℕ → List ℕ → List ℕ
unfolding rotate_left
extend zero ws = ws
extend (suc n) ws = extend n (
    rotate_left 1 (
      bit_xor (bit_xor (get_or ws 2 0) (get_or ws 7 0)) (bit_xor (get_or ws 13 0) (get_or ws 15 0)))
    ∷ ws)

record Chain : Type 0 where
  a : ℕ
  b : ℕ
  c : ℕ
  d : ℕ
  e : ℕ

mix : ℕ → Chain → ℕ
mix t s =
    if ltb t 20
    then bit_or (bit_and s.b s.c) (bit_and (0xffff_ffff - s.b) s.d) + 0x5a82_7999
    else if ltb t 40
    then bit_xor (bit_xor s.b s.c) s.d + 0x6ed9_eba1
    else if ltb t 60
    then bit_or (bit_or (bit_and s.b s.c) (bit_and s.b s.d)) (bit_and s.c s.d) + 0x8f1b_bcdc
    else bit_xor (bit_xor s.b s.c) s.d + 0xca62_c1d6

rounds : ℕ → List ℕ → Chain → Chain
unfolding rotate_left mix
rounds t [] s = s
rounds t (w ∷ ws) s = rounds (t + 1) ws (record {
  a = word (rotate_left 5 s.a + mix t s + s.e + w);
  b = s.a;
  c = rotate_left 30 s.b;
  d = s.c;
  e = s.d;
})

block : Chain → Bytes → Chain
unfolding block_words extend rounds
block s b =
    let t = rounds 0 (reverse (extend 64 (block_words 16 b []))) s in
    record {
      a = word (s.a + t.a);
      b = word (s.b + t.b);
      c = word (s.c + t.c);
      d = word (s.d + t.d);
      e = word (s.e + t.e);
    }

blocks : ℕ → Bytes → Chain → Chain
unfolding block
blocks zero m s = s
blocks (suc n) m s = blocks n (drop 64 m) (block s (take 64 m))

word_bytes : ℕ → Bytes
word_bytes x = x / 2 ^ 24 ∷ (x / 2 ^ 16) % 256 ∷ (x / 2 ^ 8) % 256 ∷ x % 256 ∷ []

-- `sha1.Sum`
unfoldable pub sha1 : Bytes → Bytes
unfolding padded blocks word_bytes
sha1 m =
    let p = padded m in
    let s = blocks (length p / 64) p (record {
      a = 0x6745_2301;
      b = 0xefcd_ab89;
      c = 0x98ba_dcfe;
      d = 0x1032_5476;
      e = 0xc3d2_e1f0;
    }) in
    word_bytes s.a ++ word_bytes s.b ++ word_bytes s.c ++ word_bytes s.d ++ word_bytes s.e

hex_digit : ℕ → ℕ
hex_digit n = if ltb n 10 then b'0' + n else b'a' + (n - 10)

-- `hex.EncodeToString`
unfoldable pub hex_encode : Bytes → Bytes
unfolding hex_digit
hex_encode [] = []
hex_encode (b ∷ s) = hex_digit (b / 16) ∷ hex_digit (b % 16) ∷ hex_encode s
