-- ===== src/Go/Utf8/Laws.antt =====
-- How the runes of a string lie in it.
use gyzor.Prelude.{
  ℕ, zero, suc, ◌+◌, ◌-◌, ◌≤◌, ◌<◌, ◌≡◌, ◌⊎◌, inl, refl, List, [], ◌∷◌, ◌++◌, arith, take, drop,
  length, length-append, length-take, Bytes, ap, sym, ◌∙◌, All, Lacks, ◌≢◌,
}
use gyzor.Go.Utf8.{
  Rune, rune_error, rune_len, two, three, four, decode_rune, decode_rune-size, runes_from, runes,
  bytes_of,
}

-- A rune that is not an error takes as many bytes as `RuneLen` says.
abbrev pub Sized : ℕ → ℕ → Type 0
Sized value size = (value ≡ rune_error) ⊎ (rune_len value ≡ size)

two-Sized : (a : ℕ) (s : Bytes) → 0xc2 ≤ a → a < 0xe0 → Sized (two a s).value (two a s).size
unfolding two rune_len
two-Sized a [] l h = inl refl
two-Sized a (b ∷ s) l h = ground arith

three-Sized : (a : ℕ) (s : Bytes) → 0xe0 ≤ a → a < 0xf0 → Sized (three a s).value (three a s).size
unfolding three rune_len
three-Sized a [] l h = inl refl
three-Sized a (b ∷ []) l h = inl refl
three-Sized a (b ∷ c ∷ s) l h = ground arith

four-Sized : (a : ℕ) (s : Bytes) → 0xf0 ≤ a → a < 0xf5 → Sized (four a s).value (four a s).size
unfolding four rune_len
four-Sized a [] l h = inl refl
four-Sized a (b ∷ []) l h = inl refl
four-Sized a (b ∷ c ∷ []) l h = inl refl
four-Sized a (b ∷ c ∷ d ∷ s) l h = ground arith

decode_rune-Sized : (a : ℕ) (s : Bytes) → Sized (decode_rune a s).value (decode_rune a s).size
unfolding decode_rune rune_len
decode_rune-Sized a s = ground (arith, two-Sized a s, three-Sized a s, four-Sized a s)

abbrev pub IsSized : Rune → Type 0
IsSized r = Sized r.value (length r.raw)

pub raw-size :
    (a : ℕ) (s : Bytes) → length (take (decode_rune a s).size (a ∷ s)) ≡ (decode_rune a s).size
raw-size a s = omega (arith, length-take (decode_rune a s).size (a ∷ s), (decode_rune-size a s).1)

runes_from-IsSized : (k : ℕ) (s : Bytes) → All IsSized (runes_from k s)
unfolding runes_from
runes_from-IsSized zero [] = tt
runes_from-IsSized (suc k) [] = tt
runes_from-IsSized zero (a ∷ s) =
    (rw (raw-size a s) (decode_rune-Sized a s), runes_from-IsSized ((decode_rune a s).size - 1) s)
runes_from-IsSized (suc k) (a ∷ s) = runes_from-IsSized k s

pub runes-IsSized : (s : Bytes) → All IsSized (runes s)
unfolding runes
runes-IsSized s = runes_from-IsSized 0 s

drop-nil : (k : ℕ) → drop {A = ℕ} k [] ≡ []
drop-nil zero = refl
drop-nil (suc k) = refl

drop-add : (m n : ℕ) (s : Bytes) → drop (m + n) s ≡ drop n (drop m s)
drop-add zero n s = let e : 0 + n ≡ n = omega arith in rw e
drop-add (suc m) n [] = drop-nil (suc m + n) ∙ sym (drop-nil n)
drop-add (suc m) n (a ∷ s) = let e : suc m + n ≡ suc (m + n) = omega arith in rw e (drop-add m n s)

-- The runes behind the first `k` bytes, where a rune begins there.
runes_from-drop : (k : ℕ) (s : Bytes) → runes_from k s ≡ runes (drop k s)
unfolding runes runes_from
runes_from-drop zero s = refl
runes_from-drop (suc k) [] = refl
runes_from-drop (suc k) (a ∷ s) = runes_from-drop k s

drop-suc : (n a : ℕ) (s : Bytes) → 1 ≤ n → drop n (a ∷ s) ≡ drop (n - 1) s
drop-suc zero a s h = absurd (omega arith)
drop-suc (suc n) a s h = ap (λ m. drop m s) (omega arith)

abbrev first_raw : List Rune → Bytes
first_raw [] = []
first_raw (r ∷ rs) = r.raw

abbrev others : List Rune → List Rune
others [] = []
others (r ∷ rs) = rs

-- Dropping the bytes of the first rune leaves the others.
runes-tail :
    (s : Bytes) {r : Rune} {rs : List Rune} → runes s ≡ r ∷ rs → runes (drop (length r.raw) s) ≡ rs
unfolding runes runes_from
runes-tail [] e = cc
runes-tail (a ∷ s) {r} {rs} e =
    let n = (decode_rune a s).size in
    let size : length r.raw ≡ n = ap (λ t. length (first_raw t)) (sym e) ∙ raw-size a s in
    rw (size, drop-suc n a s (decode_rune-size a s).0)
      (sym (runes_from-drop (n - 1) s) ∙ ap others e)

-- The same, for any number of runes.
pub runes-drop :
    (s : Bytes) (p q : List Rune) → runes s ≡ p ++ q → runes (drop (length (bytes_of p)) s) ≡ q
runes-drop s [] q e = e
runes-drop s (r ∷ p) q e =
    rw (length-append r.raw (bytes_of p), drop-add (length r.raw) (length (bytes_of p)) s)
      (runes-drop (drop (length r.raw) s) p q (runes-tail s e))

-- A rune below 0x80 is a byte of the string.
two-big : (a : ℕ) (s : Bytes) → 0xc2 ≤ a → 0x80 ≤ (two a s).value
unfolding two
two-big a [] l = omega arith
two-big a (b ∷ s) l = ground arith

three-big : (a : ℕ) (s : Bytes) → 0xe0 ≤ a → 0x80 ≤ (three a s).value
unfolding three
three-big a [] l = omega arith
three-big a (b ∷ []) l = omega arith
three-big a (b ∷ c ∷ s) l = ground arith

four-big : (a : ℕ) (s : Bytes) → 0xf0 ≤ a → 0x80 ≤ (four a s).value
unfolding four
four-big a [] l = omega arith
four-big a (b ∷ []) l = omega arith
four-big a (b ∷ c ∷ []) l = omega arith
four-big a (b ∷ c ∷ d ∷ s) l = ground arith

decode_rune-small :
    (a : ℕ) (s : Bytes) → (decode_rune a s).value < 0x80 → (decode_rune a s).value ≡ a
unfolding decode_rune
decode_rune-small a s h = ground (arith, two-big a s, three-big a s, four-big a s)

All-drop : (c k : ℕ) (s : Bytes) → Lacks c s → Lacks c (drop k s)
All-drop c zero s h = h
All-drop c (suc k) [] h = tt
All-drop c (suc k) (a ∷ s) (ha, h) = All-drop c k s h

runes_from-Lacks :
    (c k : ℕ) (s : Bytes) → c < 0x80 → Lacks c s → All (λ (r : Rune). r.value ≢ c) (runes_from k s)
unfolding runes_from
runes_from-Lacks c zero [] small h = tt
runes_from-Lacks c (suc k) [] small h = tt
runes_from-Lacks c zero (a ∷ s) small (ha, h) = (
  λ e. ha (sym (decode_rune-small a s (omega arith)) ∙ e),
  runes_from-Lacks c ((decode_rune a s).size - 1) s small h,
)
runes_from-Lacks c (suc k) (a ∷ s) small (ha, h) = runes_from-Lacks c k s small h

-- A string without the byte `c`, which is ASCII, has no rune `c`.
pub runes-Lacks :
    (c : ℕ) (s : Bytes) → c < 0x80 → Lacks c s → All (λ (r : Rune). r.value ≢ c) (runes s)
unfolding runes
runes-Lacks c s = runes_from-Lacks c 0 s
