-- ===== src/Digest/Decode/Filters.antt =====
-- The filters keep just the bytes that they are meant to keep.
use gyzor.Prelude.{ℕ, ◌≡◌, refl, Bool, true, [], ◌∷◌, Bytes, arith, All, Bool-cases, inl, inr}
use gyzor.Digest.Decode.{
  is_base64_byte, first_failing, keep, keep_after, filter_base64, ascii_ignore, is_ascii_byte,
}

-- Copying what stands before the first failing byte saves work and changes nothing.
keep_after-first_failing :
    (p : ℕ → Bool) (s : Bytes) → keep_after p s (first_failing p s) ≡ keep p s
unfolding keep_after first_failing keep
keep_after-first_failing p [] = refl
keep_after-first_failing p (c ∷ s) = ground (arith, keep_after-first_failing p s)

keep-All : (p : ℕ → Bool) (s : Bytes) → All (λ c. p c ≡ true) (keep p s)
unfolding keep
keep-All p [] = tt
keep-All p (c ∷ s) = elim (Bool-cases (p c)) [
  | inl yes_p ↦ rw yes_p (yes_p, keep-All p s)
  | inr no_p ↦ rw no_p (keep-All p s)
]

-- filterBase64 gives the bytes of the base64 alphabet in their order, and asciiIgnore the bytes
-- below 0x80, for every byte string.
pub filters-keep :
    (s : Bytes)
    → (filter_base64 s ≡ keep is_base64_byte s) × (ascii_ignore s ≡ keep is_ascii_byte s)
unfolding filter_base64 ascii_ignore
filters-keep s =
    (keep_after-first_failing is_base64_byte s, keep_after-first_failing is_ascii_byte s)
