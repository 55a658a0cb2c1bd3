-- ===== src/Digest/Whitespace/Correct.antt =====
-- `removePyWhitespace` against the pattern `[ws]` that it stands for.
use gyzor.Prelude.{
  ℕ, ◌+◌, ◌≡◌, refl, sym, ap, ◌∙◌, true, false, List, [], ◌∷◌, ◌++◌, append_assoc, Option, none,
  some, arith, if◌then◌else◌, Bool-cases, inl, inr, drop, take, length, length-append, drop-length,
  take-length, Bytes, slice, slice-append, All, All-append_right,
}
use gyzor.Go.Utf8.{Rune, runes, bytes_of, bytes_of-append, bytes_of-runes, rune_len}
use gyzor.Go.Utf8.Laws.{IsSized, runes-IsSized, runes-drop}
use gyzor.Go.Regexp.{Pattern, accept, one, erase_from, erase_all}
use gyzor.Digest.Space.{is_py_space}
use gyzor.Digest.Whitespace.{first_space, skip_spaces, from_first, remove_py_whitespace}

-- `[ws]`
unfoldable pub space_rune : Pattern
space_rune = one is_py_space accept

-- The runes that are no white space.
unfoldable pub visible : List Rune → List Rune
visible [] = []
visible (r ∷ rs) = if is_py_space r.value then visible rs else r ∷ visible rs

pub erase_from-visible : (cs : List Rune) → erase_from space_rune 0 cs ≡ visible cs
unfolding erase_from visible space_rune
erase_from-visible [] = refl
erase_from-visible (r ∷ rs) = elim (Bool-cases (is_py_space r.value)) [
  | inl sp ↦ rw (erase_from, sp) (erase_from-visible rs)
  | inr sp ↦ rw (erase_from, sp) (ap (◌∷◌ r) (erase_from-visible rs))
]

-- What the first loop finds.
abbrev Found : ℕ → List Rune → Option ℕ → Type 0
Found i cs none = visible cs ≡ cs
Found i cs (some f) =
    (p : List Rune) × (q : List Rune) × (cs ≡ p ++ q)
    × (visible p ≡ p)
    × (f ≡ i + length (bytes_of p))

Found-cons :
    (i : ℕ) (r : Rune) (rs : List Rune) (o : Option ℕ)
    → is_py_space r.value ≡ false
    → Found (i + length r.raw) rs o
    → Found i (r ∷ rs) o
unfolding visible
Found-cons i r rs none sp h = rw sp (ap (◌∷◌ r) h)
Found-cons i r rs (some f) sp (p, q, e, v, at) =
    (r ∷ p, q, ap (◌∷◌ r) e, rw sp (ap (◌∷◌ r) v), omega (arith, length-append r.raw (bytes_of p)))

first_space-Found : (i : ℕ) (cs : List Rune) → Found i cs (first_space i cs)
unfolding first_space visible
first_space-Found i [] = refl
first_space-Found i (r ∷ rs) = elim (Bool-cases (is_py_space r.value)) [
  | inl sp ↦ rw sp ([], r ∷ rs, refl, refl, omega arith)
  | inr sp ↦ rw sp (Found-cons i r rs _ sp (first_space-Found (i + length r.raw) rs))
]

-- What a result of the second loop stands for: `out` and the rest of the string.
abbrev written : Bytes → ℕ × Bytes → Bytes
written s (last, out) = out ++ drop last s

skip_space :
    (s : Bytes) (first i : ℕ) (r : Rune) (rs : List Rune) (last : ℕ) (out : Bytes)
    → is_py_space r.value ≡ true
    → skip_spaces s first i (r ∷ rs) last out
      ≡ skip_spaces s first
          (i + length r.raw)
          rs
          (i + first + rune_len r.value)
          (out ++ slice s last (i + first))
unfolding skip_spaces
skip_space s first i r rs last out sp = rw sp

skip_visible :
    (s : Bytes) (first i : ℕ) (r : Rune) (rs : List Rune) (last : ℕ) (out : Bytes)
    → is_py_space r.value ≡ false
    → skip_spaces s first i (r ∷ rs) last out ≡ skip_spaces s first (i + length r.raw) rs last out
unfolding skip_spaces
skip_visible s first i r rs last out sp = rw sp

-- White space is never the error rune.
space_size : (r : Rune) → IsSized r → is_py_space r.value ≡ true → rune_len r.value ≡ length r.raw
unfolding is_py_space
space_size r h sp = elim h [ inl e ↦ cc (sym (rw e at sp)) | inr e ↦ e ]

-- The second loop: `s` is `a`, which is dealt with, then `b`, which will be kept, then the runes
-- `cs` that are still to be read.
skip_spaces-visible :
    (s : Bytes) (first : ℕ) (cs : List Rune) (a b : Bytes) (i last : ℕ) (out : Bytes)
    → All IsSized cs
    → s ≡ a ++ (b ++ bytes_of cs)
    → last ≡ length a
    → i + first ≡ length a + length b
    → written s (skip_spaces s first i cs last out) ≡ out ++ (b ++ bytes_of (visible cs))
unfolding visible
skip_spaces-visible s first [] a b i last out h e at_a at_b =
    rw (e, at_a) (unfold skip_spaces in rw drop-length)
skip_spaces-visible s first (r ∷ rs) a b i last out (hr, h) e at_a at_b =
    elim (Bool-cases (is_py_space r.value)) [
      | inl sp ↦
          let cut : slice s last (i + first) ≡ b =
            rw (e, at_a, at_b) (slice-append a b (r.raw ++ bytes_of rs)) in
          rw (skip_space s first i r rs last out sp, sp, cut)
            (skip_spaces-visible s first rs (a ++ (b ++ r.raw)) [] _ _ (out ++ b) h
                (rw (e, append_assoc, append_assoc))
                (omega
                  (arith, space_size r hr sp, length-append a (b ++ r.raw), length-append b r.raw))
                (omega (arith, length-append a (b ++ r.raw), length-append b r.raw))
              ∙ append_assoc out b _)
      | inr sp ↦
          rw (skip_visible s first i r rs last out sp, sp)
            (skip_spaces-visible s first rs a (b ++ r.raw) _ last out h (rw (e, append_assoc)) at_a
                (omega (arith, length-append b r.raw))
              ∙ ap (◌++◌ out) (append_assoc b r.raw _))
    ]

visible-append : (p q : List Rune) → visible (p ++ q) ≡ visible p ++ visible q
unfolding visible
visible-append [] q = refl
visible-append (r ∷ p) q = elim (Bool-cases (is_py_space r.value)) [
  | inl sp ↦ rw sp (visible-append p q)
  | inr sp ↦ rw sp (ap (◌∷◌ r) (visible-append p q))
]

from_some :
    (s : Bytes) (p q : List Rune)
    → runes s ≡ p ++ q
    → visible p ≡ p
    → (let f = length (bytes_of p) in written s (skip_spaces s f 0 (runes (drop f s)) f (take f s)))
      ≡ bytes_of (visible (runes s))
from_some s p q e v =
    let spells : s ≡ bytes_of p ++ bytes_of q =
      sym (bytes_of-runes s) ∙ rw e (bytes_of-append p q) in
    let kept : take (length (bytes_of p)) s ≡ bytes_of p =
      rw spells (take-length (bytes_of p) (bytes_of q)) in
    rw (runes-drop s p q e, kept, e, visible-append, v, bytes_of-append)
      (skip_spaces-visible s (length (bytes_of p)) q (bytes_of p) [] 0 _ (bytes_of p)
        (All-append_right IsSized p q (rw e at (runes-IsSized s))) spells refl (omega arith))

from_first-visible :
    (s : Bytes) (o : Option ℕ) → Found 0 (runes s) o → from_first s o ≡ bytes_of (visible (runes s))
unfolding from_first
from_first-visible s none h = rw h (sym (bytes_of-runes s))
from_first-visible s (some f) (p, q, e, v, at) =
    let at' : f ≡ length (bytes_of p) = omega arith in rw at' (from_some s p q e v)

-- The two passes drop the white space and nothing else, for every byte string.
pub remove_py_whitespace-erase_all : (s : Bytes) → remove_py_whitespace s ≡ erase_all space_rune s
unfolding remove_py_whitespace erase_all
remove_py_whitespace-erase_all s =
    from_first-visible s _ (first_space-Found 0 (runes s))
    ∙ ap bytes_of (sym (erase_from-visible (runes s)))
