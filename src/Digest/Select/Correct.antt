-- ===== src/Digest/Select/Correct.antt =====
-- Which lines the digest depends on.
use mathlib.Core.List.{map-append}
use gyzor.Prelude.{
  ℕ, zero, suc, ◌+◌, ◌*◌, ◌/◌, ◌≡◌, refl, sym, ap, ◌∙◌, List, [], ◌∷◌, ◌++◌, map, leb, ◌==◌,
  if◌then◌else◌, length, length-append, length-take, length-drop, length-map, get_elem?, take, drop,
  Bytes, arith, append-nil, Bool-cases, inl, inr,
}
use gyzor.Digest.Select.{rstrip, piece, window, windows, hashed_pieces}

-- One round of the loop over the window, at the line `idx`.
drop-cons :
    (lines : List Bytes) (idx : ℕ) (n : ℕ)
    → map rstrip (take (suc n) (drop idx lines))
      ≡ piece (get_elem? lines idx) ++ map rstrip (take n (drop (suc idx) lines))
unfolding piece
drop-cons [] zero zero = refl
drop-cons [] zero (suc n) = refl
drop-cons [] (suc idx) zero = refl
drop-cons [] (suc idx) (suc n) = refl
drop-cons (l ∷ lines) zero n = refl
drop-cons (l ∷ lines) (suc idx) n = drop-cons lines idx n

window-slice :
    (lines : List Bytes) (n idx : ℕ) → window lines n idx ≡ map rstrip (take n (drop idx lines))
unfolding window
window-slice lines zero idx = refl
window-slice lines (suc n) idx =
    let e : idx + 1 ≡ suc idx = omega arith in
    rw e (
      ap (◌++◌ (piece (get_elem? lines idx))) (window-slice lines n (suc idx))
      ∙ sym (drop-cons lines idx n))

-- The lines of a message with more than four of them that the digest reads.
abbrev pub sampled : List Bytes → List Bytes
sampled lines = take 3 (drop (length lines / 5) lines) ++ take 3 (drop (3 * length lines / 5) lines)

-- Up to four lines are hashed whole; of more, three lines from a fifth and three from three fifths
-- of the way, as far as they exist.
pub hashed_pieces_lem :
    (lines : List Bytes)
    → hashed_pieces lines ≡ map rstrip (if leb (length lines) 4 then lines else sampled lines)
unfolding hashed_pieces windows
hashed_pieces_lem lines = elim (Bool-cases (leb (length lines) 4)) [
  | inl few ↦ rw few
  | inr many ↦
      let fifth : 20 * length lines / 100 ≡ length lines / 5 = omega arith in
      let three : 60 * length lines / 100 ≡ 3 * length lines / 5 = omega arith in
      rw many (rw (fifth, three, window-slice, window-slice, append-nil, map-append))
]

-- The hash is given all lines where there are at most four, five of them where there are five, and
-- six pieces else: only for five lines does a window run past the end.
pub length-hashed_pieces :
    (lines : List Bytes)
    → length (hashed_pieces lines)
      ≡ (if leb (length lines) 4 then length lines else if length lines == 5 then 5 else 6)
length-hashed_pieces lines =
    rw (hashed_pieces_lem, length-map)
      (elim (Bool-cases (leb (length lines) 4)) [
        | inl few ↦ rw few
        | inr many ↦
            let n = length lines in
            let first = take 3 (drop (n / 5) lines) in
            let second = take 3 (drop (3 * n / 5) lines) in
            rw many (
              ground (
                arith,
                length-append first second,
                length-take 3 (drop (n / 5) lines),
                length-drop (n / 5) lines,
                length-take 3 (drop (3 * n / 5) lines),
                length-drop (3 * n / 5) lines,
              ))
      ])
