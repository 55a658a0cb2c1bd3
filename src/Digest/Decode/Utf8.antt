-- ===== src/Digest/Decode/Utf8.antt =====
-- `utf8Ignore` drops the invalid bytes, and what it gives is valid UTF-8.
use gyzor.Prelude.{
  ℕ, zero, suc, ◌-◌, ◌≡◌, refl, sym, ap, ap₂, ◌∙◌, true, ◌&&◌, List, [], ◌∷◌, ◌++◌, Bytes, arith,
  ◌==◌, if◌then◌else◌, take, Bool-cases, inl, inr,
}
use gyzor.Go.Utf8.{
  Rune, rune_error, runes, runes_from, decode_rune, bytes_of, bytes_of-runes, valid_runes,
  valid_utf8,
}
use gyzor.Go.Utf8.Encode.{IsGood, encode-decode_rune, runes-suc}
use gyzor.Go.Utf8.Laws.{raw-size}
use gyzor.Digest.Decode.{is_bad, encode_good, utf8_ignore}

-- The runes that are no invalid bytes.
pub good : List Rune → List Rune
good [] = []
good (r ∷ rs) = let rest = good rs in if is_bad r then rest else r ∷ rest

bad_size :
    (a : ℕ) (s : Bytes)
    → is_bad (record { value = (decode_rune a s).value; raw = take (decode_rune a s).size (a ∷ s) })
      ≡ ((decode_rune a s).value == rune_error && (decode_rune a s).size == 1)
bad_size a s = rw (raw-size a s) refl

-- What the loop of `utf8Ignore` writes, and how it is read again.
good_runes :
    (k : ℕ) (s : Bytes)
    → (encode_good (runes_from k s) ≡ bytes_of (good (runes_from k s)))
      × (runes_from 0 (bytes_of (good (runes_from k s))) ≡ good (runes_from k s))
unfolding runes_from encode_good good
good_runes zero [] = (refl, refl)
good_runes (suc k) [] = (refl, refl)
good_runes (suc k) (a ∷ s) = good_runes k s
good_runes zero (a ∷ s) =
    let d = decode_rune a s in
    let (written, read) = good_runes (d.size - 1) s in
    elim (Bool-cases (is_bad (record { value = d.value; raw = take d.size (a ∷ s) }))) [
      | inl bad ↦ rw bad (written, read)
      | inr fine ↦
          let g : IsGood d = sym (bad_size a s) ∙ fine in
          rw fine (
            ap₂ ◌++◌ (encode-decode_rune a s g) written,
            runes-suc a s _ g
                ∙ ap (◌∷◌ (record { value = d.value; raw = take d.size (a ∷ s) })) read,
          )
    ]

good-valid : (rs : List Rune) → valid_runes (good rs) ≡ true
unfolding good valid_runes
good-valid [] = refl
good-valid (r ∷ rs) = ground (arith, good-valid rs)

good_of_valid : (rs : List Rune) → valid_runes rs ≡ true → good rs ≡ rs
unfolding good valid_runes
good_of_valid [] h = refl
good_of_valid (r ∷ rs) h = ground (arith, good_of_valid rs)

ignored : (b : Bytes) → utf8_ignore b ≡ bytes_of (good (runes b))
unfolding utf8_ignore valid_utf8 runes
ignored b = elim (Bool-cases (valid_runes (runes_from 0 b))) [
  | inl valid ↦ rw (valid, good_of_valid (runes_from 0 b) valid) (sym (bytes_of-runes b))
  | inr other ↦ rw other (good_runes 0 b).0
]

-- utf8Ignore gives, for every byte string, the bytes of its runes in their order without the
-- invalid bytes, and what it gives is valid UTF-8.
pub utf8_ignore-good :
    (b : Bytes) → (utf8_ignore b ≡ bytes_of (good (runes b))) × (valid_utf8 (utf8_ignore b) ≡ true)
unfolding valid_utf8 runes
utf8_ignore-good b = (
  ignored b,
  ap valid_utf8 (ignored b) ∙ ap valid_runes (good_runes 0 b).1 ∙ good-valid (runes_from 0 b),
)
