-- ===== src/Go/Strings/Laws.antt =====
-- Cutting a text into lines and fields.
use gyzor.Prelude.{
  ℕ, ◌≡◌, refl, ap, ◌∙◌, Bool, false, List, [], ◌∷◌, ◌++◌, some, ◌≤◌, ◌<◌, arith, Bytes, All, Lacks,
  length,
}
use gyzor.Go.Utf8.{Rune, decode_rune, runes_from, bytes_of, bytes_of-runes}
use gyzor.Go.Strings.{
  is_space, trim_left_runes, trim_right_runes, index_byte, trim_right, split, trim_space,
}

-- The text up to a separator is the first part.
pub split_at_sep :
    (l rest : Bytes) (sep : ℕ) → Lacks sep l → split (l ++ (sep ∷ rest)) sep ≡ l ∷ split rest sep
unfolding split
split_at_sep [] rest sep h = ground arith
split_at_sep (b ∷ l) rest sep (hb, h) = ground (arith, split_at_sep l rest sep h)

pub split_whole : (l : Bytes) (sep : ℕ) → Lacks sep l → split l sep ≡ l ∷ []
unfolding split
split_whole [] sep h = refl
split_whole (b ∷ l) sep (hb, h) = ground (arith, split_whole l sep h)

pub trim_right_id : (p : ℕ → Bool) (s : Bytes) → All (λ c. p c ≡ false) s → trim_right p s ≡ s
unfolding trim_right
trim_right_id p [] h = refl
trim_right_id p (b ∷ s) (hb, h) = ground (arith, trim_right_id p s h)

-- The first colon stands behind a key that has none.
pub index_byte-append :
    (k rest : Bytes) (c : ℕ) → Lacks c k → index_byte (k ++ (c ∷ rest)) c ≡ some (length k)
unfolding index_byte
index_byte-append [] rest c h = ground arith
index_byte-append (b ∷ k) rest c (hb, h) = ground (arith, index_byte-append k rest c h)

-- A blank in front is trimmed.
pub trim_space_blank : (v : Bytes) → trim_space (b' ' ∷ v) ≡ trim_space v
unfolding trim_space
trim_space_blank v = refl

-- A visible ASCII byte.
abbrev pub IsGraphic : ℕ → Type 0
IsGraphic c = (0x21 ≤ c) × (c ≤ 0x7e)

abbrev pub NoSpace : List Rune → Type 0
NoSpace = All (λ (r : Rune). is_space r.value ≡ false)

graphic_rune : (a : ℕ) (s : Bytes) → IsGraphic a → decode_rune a s ≡ record { value = a; size = 1 }
unfolding decode_rune
graphic_rune a s h = ground arith

pub graphic_no_space : (a : ℕ) → IsGraphic a → is_space a ≡ false
unfolding is_space
graphic_no_space a h = ground arith

pub runes-NoSpace : (s : Bytes) → All IsGraphic s → NoSpace (runes_from 0 s)
unfolding runes_from
runes-NoSpace [] h = tt
runes-NoSpace (a ∷ s) (ha, h) = rw (graphic_rune a s ha) (graphic_no_space a ha, runes-NoSpace s h)

trim_left-NoSpace : (rs : List Rune) → NoSpace rs → trim_left_runes rs ≡ rs
unfolding trim_left_runes
trim_left-NoSpace [] h = refl
trim_left-NoSpace (r ∷ rs) (hr, h) = rw hr

pub trim_right-NoSpace : (rs : List Rune) → NoSpace rs → trim_right_runes rs ≡ rs
unfolding trim_right_runes
trim_right-NoSpace [] h = refl
trim_right-NoSpace (r ∷ []) (hr, h) = rw hr
trim_right-NoSpace (r ∷ q ∷ rs) (hr, h) = rw (trim_right_runes, trim_right-NoSpace (q ∷ rs) h)

pub trim_space-IsGraphic : (s : Bytes) → All IsGraphic s → trim_space s ≡ s
unfolding trim_space
trim_space-IsGraphic s h =
    let clean = runes-NoSpace s h in
    ap (λ rs. bytes_of (trim_right_runes rs)) (trim_left-NoSpace (runes_from 0 s) clean)
    ∙ ap bytes_of (trim_right-NoSpace (runes_from 0 s) clean)
    ∙ bytes_of-runes s

pub IsGraphic-Lacks : (c : ℕ) (s : Bytes) → c < 0x21 → All IsGraphic s → Lacks c s
IsGraphic-Lacks c [] small h = tt
IsGraphic-Lacks c (a ∷ s) small (ha, h) = (omega arith, IsGraphic-Lacks c s small h)
