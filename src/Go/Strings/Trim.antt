-- ===== src/Go/Strings/Trim.antt =====
-- `TrimSpace` on printable ASCII with blanks inside it.
use gyzor.Prelude.{
  ℕ, ◌≡◌, ◌≢◌, refl, sym, ap, ◌∙◌, true, List, [], ◌∷◌, ◌++◌, append-nil, append_assoc, replicate,
  zero, suc, ◌≤◌, arith, Bytes, All, Lacks,
}
use gyzor.Go.Utf8.{Rune, decode_rune, runes_from, bytes_of, bytes_of-runes}
use gyzor.Go.Strings.{is_space, trim_left_runes, trim_right_runes, split, trim_space}
use gyzor.Go.Strings.Laws.{
  IsGraphic, NoSpace, runes-NoSpace, trim_right-NoSpace, graphic_no_space, trim_space_blank,
}

-- A printable ASCII byte, or a blank.
abbrev pub IsPlain : ℕ → Type 0
IsPlain c = (0x20 ≤ c) × (c ≤ 0x7e)

pub IsGraphic-IsPlain : (s : Bytes) → All IsGraphic s → All IsPlain s
IsGraphic-IsPlain [] h = tt
IsGraphic-IsPlain (c ∷ s) (hc, h) = (omega arith, IsGraphic-IsPlain s h)

plain_rune : (a : ℕ) (s : Bytes) → IsPlain a → decode_rune a s ≡ record { value = a; size = 1 }
unfolding decode_rune
plain_rune a s h = ground arith

runes-append :
    (u w : Bytes) → All IsPlain u → runes_from 0 (u ++ w) ≡ runes_from 0 u ++ runes_from 0 w
unfolding runes_from
runes-append [] w h = refl
runes-append (a ∷ u) w (ha, h) =
    rw (plain_rune a (u ++ w) ha, plain_rune a u ha, runes-append u w h) refl

trim_right_cons :
    (r : Rune) (rs : List Rune)
    → rs ≢ []
    → trim_right_runes rs ≡ rs
    → trim_right_runes (r ∷ rs) ≡ r ∷ rs
unfolding trim_right_runes
trim_right_cons r [] h e = absurd (h refl)
trim_right_cons r (q ∷ rs) h e = rw (trim_right_runes, e)

append_ne : (xs ys : List Rune) → ys ≢ [] → xs ++ ys ≢ []
append_ne [] ys h = h
append_ne (x ∷ xs) ys h = λ e. cc

trim_right-append :
    (xs ys : List Rune) → NoSpace ys → ys ≢ [] → trim_right_runes (xs ++ ys) ≡ xs ++ ys
trim_right-append [] ys h e = trim_right-NoSpace ys h
trim_right-append (x ∷ xs) ys h e =
    trim_right_cons x (xs ++ ys) (append_ne xs ys e) (trim_right-append xs ys h e)

trim_right_space :
    (xs : List Rune) (q : Rune)
    → is_space q.value ≡ true
    → trim_right_runes (xs ++ (q ∷ [])) ≡ trim_right_runes xs
unfolding trim_right_runes
trim_right_space [] q h = rw h
trim_right_space (x ∷ xs) q h = rw (trim_right_space xs q h) refl

trim_left_graphic :
    (c : ℕ) (s : Bytes)
    → IsGraphic c
    → trim_left_runes (runes_from 0 (c ∷ s)) ≡ runes_from 0 (c ∷ s)
unfolding trim_left_runes runes_from
trim_left_graphic c s h = rw (plain_rune c s (omega arith), graphic_no_space c h) refl

runes_ne : (d : ℕ) (v : Bytes) → runes_from 0 (d ∷ v) ≢ []
unfolding runes_from
runes_ne d v = λ e. cc

-- A text that begins and ends with visible bytes is not trimmed.
pub trim_space-ends :
    (c : ℕ) (u : Bytes) (d : ℕ) (v : Bytes)
    → IsGraphic c
    → All IsPlain u
    → All IsGraphic (d ∷ v)
    → trim_space ((c ∷ u) ++ (d ∷ v)) ≡ (c ∷ u) ++ (d ∷ v)
unfolding trim_space
trim_space-ends c u d v hc hu hv =
    let split_runes = runes-append (c ∷ u) (d ∷ v) (omega arith, hu) in
    ap (λ rs. bytes_of (trim_right_runes rs)) (trim_left_graphic c (u ++ (d ∷ v)) hc ∙ split_runes)
    ∙ ap bytes_of (
        trim_right-append (runes_from 0 (c ∷ u)) (runes_from 0 (d ∷ v)) (runes-NoSpace (d ∷ v) hv)
          (runes_ne d v))
    ∙ ap bytes_of (sym split_runes)
    ∙ bytes_of-runes ((c ∷ u) ++ (d ∷ v))

-- A blank behind a word is trimmed.
pub trim_space_padded : (v : Bytes) → All IsGraphic v → trim_space (v ++ (b' ' ∷ [])) ≡ v
unfolding trim_space
trim_space_padded [] h = refl
trim_space_padded (c ∷ v) (hc, h) =
    let blank : Rune = record { value = b' '; raw = b' ' ∷ [] } in
    let split_runes = runes-append (c ∷ v) (b' ' ∷ []) (omega arith, IsGraphic-IsPlain v h) in
    ap (λ rs. bytes_of (trim_right_runes rs))
      (trim_left_graphic c (v ++ (b' ' ∷ [])) hc ∙ split_runes)
    ∙ ap bytes_of (trim_right_space (runes_from 0 (c ∷ v)) blank refl)
    ∙ ap bytes_of (trim_right-NoSpace (runes_from 0 (c ∷ v)) (runes-NoSpace (c ∷ v) (hc, h)))
    ∙ bytes_of-runes (c ∷ v)

trim_right_spaces :
    (xs rs : List Rune)
    → All (λ (r : Rune). is_space r.value ≡ true) rs
    → trim_right_runes (xs ++ rs) ≡ trim_right_runes xs
trim_right_spaces xs [] h = ap trim_right_runes (append-nil xs)
trim_right_spaces xs (r ∷ rs) (hr, h) =
    ap trim_right_runes (sym (append_assoc xs (r ∷ []) rs))
    ∙ trim_right_spaces (xs ++ (r ∷ [])) rs h
    ∙ trim_right_space xs r hr

blank_runes :
    (j : ℕ) → All (λ (r : Rune). is_space r.value ≡ true) (runes_from 0 (replicate j b' '))
unfolding runes_from is_space decode_rune
blank_runes zero = tt
blank_runes (suc j) = (refl, blank_runes j)

trim_back :
    (c : ℕ) (v : Bytes) (j : ℕ)
    → All IsGraphic (c ∷ v)
    → trim_space ((c ∷ v) ++ replicate j b' ') ≡ c ∷ v
unfolding trim_space
trim_back c v j (hc, h) =
    let blanks : Bytes = replicate j b' ' in
    let split_runes = runes-append (c ∷ v) blanks (omega arith, IsGraphic-IsPlain v h) in
    ap (λ rs. bytes_of (trim_right_runes rs)) (trim_left_graphic c (v ++ blanks) hc ∙ split_runes)
    ∙ ap bytes_of (trim_right_spaces (runes_from 0 (c ∷ v)) (runes_from 0 blanks) (blank_runes j))
    ∙ ap bytes_of (trim_right-NoSpace (runes_from 0 (c ∷ v)) (runes-NoSpace (c ∷ v) (hc, h)))
    ∙ bytes_of-runes (c ∷ v)

-- The blanks round a word are trimmed.
pub trim_space_blanks :
    (i : ℕ) (c : ℕ) (v : Bytes) (j : ℕ)
    → All IsGraphic (c ∷ v)
    → trim_space (replicate i b' ' ++ ((c ∷ v) ++ replicate j b' ')) ≡ c ∷ v
trim_space_blanks zero c v j h = trim_back c v j h
trim_space_blanks (suc i) c v j h =
    trim_space_blank (replicate i b' ' ++ ((c ∷ v) ++ replicate j b' '))
    ∙ trim_space_blanks i c v j h

-- A part in front of a blank and a separator.
pub split_spaced :
    (v rest : Bytes) (sep : ℕ)
    → Lacks sep v
    → sep ≢ b' '
    → split (v ++ (b' ' ∷ sep ∷ rest)) sep ≡ (v ++ (b' ' ∷ [])) ∷ split rest sep
unfolding split
split_spaced [] rest sep h ne = ground arith
split_spaced (b ∷ v) rest sep (hb, h) ne = ground (arith, split_spaced v rest sep h ne)
