-- ===== src/Digest/Normalize/Reference.antt =====
-- `normalize` against the sequence of replacements that pyzor makes.
use gyzor.Prelude.{
  ℕ, zero, suc, ◌<◌, ◌≡◌, ◌≢◌, refl, sym, ap, ◌∙◌, Bool, List, [], ◌∷◌, none, arith, if◌then◌else◌,
  Bool-cases, inl, inr, Bytes, All,
}
use gyzor.Go.Utf8.{Rune, runes, bytes_of, bytes_of-runes}
use gyzor.Go.Utf8.Laws.{runes-Lacks}
use gyzor.Go.Regexp.{Pattern, accept, lit, star, at_least, erase_from, erase_all}
use gyzor.Go.Strings.{contains_byte, remove_byte, contains_byte-Lacks, remove_byte-Lacks}
use gyzor.Digest.Space.{non_space}
use gyzor.Digest.Runs.{remove_long_runs}
use gyzor.Digest.Runs.Pattern.{long_run, remove_long_runs-erase_all}
use gyzor.Digest.Whitespace.Correct.{space_rune, remove_py_whitespace-erase_all}
use gyzor.Digest.Normalize.{email_ptrn, is_scheme_letter, url_ptrn, normalize}

abbrev NoRune : ℕ → List Rune → Type 0
NoRune c = All (λ (r : Rune). r.value ≢ c)

module _ (p : ℕ → Bool) (c : ℕ) (k : Pattern) where
  star-NoRune : (cs : List Rune) → NoRune c cs → star p (lit c k) cs ≡ none
  star-NoRune [] h = refl
  star-NoRune (r ∷ rs) (hr, h) = ground (arith, star-NoRune rs h)

  at_least-NoRune : (n : ℕ) (cs : List Rune) → NoRune c cs → at_least n p (lit c k) cs ≡ none
  at_least-NoRune zero cs h = star-NoRune cs h
  at_least-NoRune (suc n) [] h = refl
  at_least-NoRune (suc n) (r ∷ rs) (hr, h) = ground (arith, at_least-NoRune n rs h)

-- A pattern that needs a rune `c` matches nothing where there is none.
module _ (m : Pattern) (c : ℕ) (needs : (cs : List Rune) → NoRune c cs → m cs ≡ none) where
  erase_from-NoRune : (cs : List Rune) → NoRune c cs → erase_from m 0 cs ≡ cs
  unfolding erase_from
  erase_from-NoRune [] h = refl
  erase_from-NoRune (r ∷ rs) (hr, h) =
      rw (erase_from, needs (r ∷ rs) (hr, h)) (ap (◌∷◌ r) (erase_from-NoRune rs h))

  -- So the guard on the byte `c` changes nothing.
  guarded :
      (s : Bytes) → c < 0x80 → (if contains_byte s c then erase_all m s else s) ≡ erase_all m s
  unfolding erase_all
  guarded s small = elim (Bool-cases (contains_byte s c)) [
    | inl has ↦ rw has
    | inr lacks ↦ rw lacks (
        sym (
          ap bytes_of
            (erase_from-NoRune (runes s) (runes-Lacks c s small (contains_byte-Lacks s c lacks)))
          ∙ bytes_of-runes s))
  ]

email-NoRune : (cs : List Rune) → NoRune b'@' cs → email_ptrn cs ≡ none
unfolding email_ptrn
email-NoRune cs = at_least-NoRune non_space b'@' (at_least 1 non_space accept) 1 cs

url-NoRune : (cs : List Rune) → NoRune b':' cs → url_ptrn cs ≡ none
unfolding url_ptrn
url-NoRune cs = at_least-NoRune is_scheme_letter b':' (at_least 1 non_space accept) 1 cs

remove_nul : (s : Bytes) → (if contains_byte s 0 then remove_byte 0 s else s) ≡ remove_byte 0 s
remove_nul s = elim (Bool-cases (contains_byte s 0)) [
  | inl has ↦ rw has
  | inr lacks ↦ rw lacks (sym (remove_byte-Lacks s 0 (contains_byte-Lacks s 0 lacks)))
]

-- `DataDigester.normalize`: each pattern is replaced by the empty text, with no guard.
pub reference : Bytes → Bytes
reference s =
    erase_all space_rune
      (erase_all url_ptrn (erase_all email_ptrn (erase_all long_run (remove_byte 0 s))))

-- The guarded and hand-written passes give what the four replacements give, for every line, invalid
-- UTF-8 included.
pub normalize-reference : (s : Bytes) → normalize s ≡ reference s
unfolding reference normalize
normalize-reference s =
    let s2 = remove_long_runs (remove_byte 0 s) in
    rw (
      remove_nul s,
      guarded email_ptrn b'@' email-NoRune s2 (omega arith),
      guarded url_ptrn b':' url-NoRune (erase_all email_ptrn s2) (omega arith),
      remove_long_runs-erase_all,
      remove_py_whitespace-erase_all,
    )
