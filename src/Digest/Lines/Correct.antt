-- ===== src/Digest/Lines/Correct.antt =====
-- `splitLines` against the lines that the text consists of.
use gyzor.Prelude.{
  ℕ, ◌+◌, ◌≡◌, ◌≢◌, ◌⊎◌, refl, sym, ap, ap₂, ◌∙◌, Bool, true, false, ◌||◌, List, [], ◌∷◌, ◌++◌, map,
  append_assoc, append-nil, arith, ltb, ◌==◌, Bool-cases, inl, inr, length, length-append,
  drop-length, Bytes, slice, slice-append, All, All-append,
}
use gyzor.Go.Utf8.{Rune, runes, bytes_of, bytes_of-append, bytes_of-runes}
use gyzor.Digest.Lines.{Kind, is_line_break, kind, lines_from, split_lines}

abbrev pub ends_line : ℕ → Bool
ends_line r = is_line_break r || r == 0xd

-- No rune ends a line.
abbrev pub IsLine : List Rune → Type 0
IsLine = All (λ (r : Rune). ends_line r.value ≡ false)

abbrev pub StartsWithLf : List Rune → Type 0
StartsWithLf [] = ⊥
StartsWithLf (r ∷ rs) = r.value ≡ 0xa

-- What may end a line in front of `rest`: one of the line breaks, `\r\n`, or a `\r` that no `\n`
-- follows.
pub data EndOfLine : List Rune → List Rune → Type 0 where
  single : {r : Rune} {rest : List Rune} → is_line_break r.value ≡ true → EndOfLine (r ∷ []) rest
  cr : {r : Rune} {rest : List Rune} → r.value ≡ 0xd → ¬ StartsWithLf rest → EndOfLine (r ∷ []) rest
  cr_lf :
      {r q : Rune} {rest : List Rune} → r.value ≡ 0xd → q.value ≡ 0xa → EndOfLine (r ∷ q ∷ []) rest

-- The text is these lines: each but the last has its end, and the last is not empty.
pub data Splits : List Rune → List (List Rune) → Type 0 where
  done : {l : List Rune} → bytes_of l ≡ [] → Splits l []
  last : {l : List Rune} → bytes_of l ≢ [] → IsLine l → Splits l (l ∷ [])
  line :
      {l e rest cs : List Rune} {ls : List (List Rune)}
      → IsLine l
      → EndOfLine e rest
      → cs ≡ l ++ (e ++ rest)
      → Splits rest ls
      → Splits cs (l ∷ ls)

abbrev Result : List Rune → List Bytes → Type 0
Result cs lines = (ls : List (List Rune)) × Splits cs ls × (lines ≡ map bytes_of ls)

-- The loop within a line: `pend` is what has been read of it.
abbrev Within : Bytes → List Rune → Type 0
Within s cs =
    (a : Bytes) (pend : List Rune) (start i : ℕ)
    → s ≡ a ++ (bytes_of pend ++ bytes_of cs)
    → start ≡ length a
    → i ≡ length a + length (bytes_of pend)
    → IsLine pend
    → Result (pend ++ cs) (lines_from s false start i cs)

-- What the loop passes over behind a `\r`.
data Rest : List Rune → List Rune → Type 0 where
  all : {cs : List Rune} → ¬ StartsWithLf cs → Rest cs cs
  tail : {q : Rune} {cs : List Rune} → q.value ≡ 0xa → Rest (q ∷ cs) cs

abbrev AfterCr : Bytes → List Rune → Type 0
AfterCr s cs =
    (a : Bytes) (i : ℕ)
    → s ≡ a ++ bytes_of cs
    → i ≡ length a
    → (rest : List Rune) × Rest cs rest × Result rest (lines_from s true i i cs)

nil_of_length {ℓ} : {A : Type ℓ} (xs : List A) → length xs ≡ 0 → xs ≡ []
nil_of_length [] e = refl
nil_of_length (x ∷ xs) e = absurd (omega arith)

Within-nil : (s : Bytes) → Within s []
unfolding lines_from
Within-nil s a pend start i e at_a at_i h =
    let size : length s ≡ length a + length (bytes_of pend) =
      rw (e, append-nil) (length-append a (bytes_of pend)) in
    elim (Bool-cases (ltb start (length s))) [
      | inl more ↦ (
        pend ∷ [],
        rw append-nil (last (λ z. absurd (ground (arith, ap length z))) h),
        rw more (rw (e, at_a, drop-length, append-nil)),
      )
      | inr none_left ↦
          ([], done (rw append-nil (nil_of_length (bytes_of pend) (ground arith))), rw none_left)
    ]

AfterCr-nil : (s : Bytes) → AfterCr s []
unfolding lines_from
AfterCr-nil s a i e at_a =
    let size : length s ≡ length a = rw (e, append-nil) in
    let none_left : ltb i (length s) ≡ false = ground arith in
    ([], all (λ x. x), ([], done refl, rw none_left))

kind_of_break : (r : ℕ) → is_line_break r ≡ true → kind false r ≡ Kind.line_break
unfolding kind
kind_of_break r h = rw h

kind_of_cr : (r : ℕ) → r ≡ 0xd → kind false r ≡ Kind.carriage_return
unfolding kind
kind_of_cr r h = rw h

kind_of_other : (r : ℕ) → ends_line r ≡ false → kind false r ≡ Kind.other
unfolding kind
kind_of_other r h = ground arith

kind_of_lf : (r : ℕ) → r ≡ 0xa → kind true r ≡ Kind.line_feed_of_pair
unfolding kind
kind_of_lf r h = rw h

kind_ne_lf : (r : ℕ) → r ≢ 0xa → kind true r ≡ kind false r
unfolding kind
kind_ne_lf r h = ground arith

eq_or_ne : (m n : ℕ) → (m ≡ n) ⊎ (m ≢ n)
eq_or_ne m n = elim (Bool-cases (m == n)) [
  | inl e ↦ inl (ground arith)
  | inr e ↦ inr (λ h. ground arith)
]

-- The three ways that a rune can count.
rune-cases : (r : ℕ) → (is_line_break r ≡ true) ⊎ (r ≡ 0xd) ⊎ (ends_line r ≡ false)
rune-cases r = ground arith

module _ (s : Bytes) (r : Rune) (rs : List Rune) (start i : ℕ) where
  step_break :
      kind false r.value ≡ Kind.line_break
      → lines_from s false start i (r ∷ rs)
        ≡ slice s start i ∷ lines_from s false (i + length r.raw) (i + length r.raw) rs
  unfolding lines_from
  step_break k = rw (lines_from, k)

  step_cr :
      kind false r.value ≡ Kind.carriage_return
      → lines_from s false start i (r ∷ rs)
        ≡ slice s start i ∷ lines_from s true (i + length r.raw) (i + length r.raw) rs
  unfolding lines_from
  step_cr k = rw (lines_from, k)

  step_other :
      kind false r.value ≡ Kind.other
      → lines_from s false start i (r ∷ rs) ≡ lines_from s false start (i + length r.raw) rs
  unfolding lines_from
  step_other k = rw (lines_from, k)

  step_lf :
      kind true r.value ≡ Kind.line_feed_of_pair
      → lines_from s true start i (r ∷ rs)
        ≡ lines_from s false (i + length r.raw) (i + length r.raw) rs
  unfolding lines_from
  step_lf k = rw (lines_from, k)

  step_ne_lf :
      kind true r.value ≡ kind false r.value
      → lines_from s true start i (r ∷ rs) ≡ lines_from s false start i (r ∷ rs)
  unfolding lines_from
  step_ne_lf k = rw (lines_from, k)

-- The `\r` with what is passed over behind it.
end_of_cr :
    {r : Rune} {cs rest : List Rune}
    → r.value ≡ 0xd
    → Rest cs rest
    → (e : List Rune) × EndOfLine e rest × (r ∷ cs ≡ e ++ rest)
end_of_cr {r} h (all n) = (r ∷ [], cr h n, refl)
end_of_cr {r} h (tail {q} hq) = (r ∷ q ∷ [], cr_lf h hq, refl)

module _ (s : Bytes) (r : Rune) (rs : List Rune) where
  -- The end of a line at `r`: the line, and where the next one starts.
  module _ (a : Bytes) (pend : List Rune) {start i : ℕ}
      (e : s ≡ a ++ (bytes_of pend ++ bytes_of (r ∷ rs))) (at_a : start ≡ length a)
      (at_i : i ≡ length a + length (bytes_of pend)) where
    cut : slice s start i ≡ bytes_of pend
    cut = rw (e, at_a, at_i) (slice-append a (bytes_of pend) (bytes_of (r ∷ rs)))

    passed : s ≡ (a ++ (bytes_of pend ++ r.raw)) ++ bytes_of rs
    passed = rw (e, append_assoc, append_assoc)

    offset : i + length r.raw ≡ length (a ++ (bytes_of pend ++ r.raw))
    offset =
        omega (arith, length-append a (bytes_of pend ++ r.raw), length-append (bytes_of pend) r.raw)

  at_break : Within s rs → is_line_break r.value ≡ true → Within s (r ∷ rs)
  at_break w h a pend start i e at_a at_i hp =
      let at_j = offset a pend e at_a at_i in
      let (ls, sp, eq) =
        w (a ++ (bytes_of pend ++ r.raw)) [] _ _ (passed a pend e at_a at_i) at_j (omega arith)
          tt in
      (
        pend ∷ ls,
        line hp (single h) refl sp,
        step_break s r rs start i (kind_of_break r.value h) ∙ ap₂ ◌∷◌ (cut a pend e at_a at_i) eq,
      )

  at_cr : AfterCr s rs → r.value ≡ 0xd → Within s (r ∷ rs)
  at_cr c h a pend start i e at_a at_i hp =
      let (rest, passes, (ls, sp, eq)) =
        c (a ++ (bytes_of pend ++ r.raw)) _ (passed a pend e at_a at_i)
          (offset a pend e at_a at_i) in
      let (ending, is_end, joined) = end_of_cr {r = r} h passes in
      (
        pend ∷ ls,
        line hp is_end (ap (◌++◌ pend) joined) sp,
        step_cr s r rs start i (kind_of_cr r.value h) ∙ ap₂ ◌∷◌ (cut a pend e at_a at_i) eq,
      )

  at_other : Within s rs → ends_line r.value ≡ false → Within s (r ∷ rs)
  at_other w h a pend start i e at_a at_i hp =
      let (ls, sp, eq) =
        w a (pend ++ r ∷ []) start (i + length r.raw)
          (rw (e, bytes_of-append, append-nil, append_assoc)) at_a
          (rw bytes_of-append (rw append-nil (omega (arith, length-append (bytes_of pend) r.raw))))
          (All-append _ pend (r ∷ []) hp (h, tt)) in
      (
        ls,
        rw (append_assoc pend (r ∷ []) rs) at sp,
        step_other s r rs start i (kind_of_other r.value h) ∙ eq,
      )

  Within-cons : Within s rs → AfterCr s rs → Within s (r ∷ rs)
  Within-cons w c = elim (rune-cases r.value) [
    | inl h ↦ at_break w h
    | inr (inl h) ↦ at_cr c h
    | inr (inr h) ↦ at_other w h
  ]

  AfterCr-cons : Within s rs → Within s (r ∷ rs) → AfterCr s (r ∷ rs)
  AfterCr-cons w w' a i e at_a = elim (eq_or_ne r.value 0xa) [
    | inl h ↦
        let (ls, sp, eq) =
          w (a ++ r.raw) [] _ _ (rw (e, append_assoc)) (omega (arith, length-append a r.raw))
            (omega (arith, length-append a r.raw)) tt in
        (rs, tail h, (ls, sp, step_lf s r rs i i (kind_of_lf r.value h) ∙ eq))
    | inr h ↦
        let (ls, sp, eq) = w' a [] i i e at_a (omega arith) tt in
        (r ∷ rs, all h, (ls, sp, step_ne_lf s r rs i i (kind_ne_lf r.value h) ∙ eq))
  ]

both : (s : Bytes) (cs : List Rune) → Within s cs × AfterCr s cs
both s [] = (Within-nil s, AfterCr-nil s)
both s (r ∷ rs) =
    let (w, c) = both s rs in let w' = Within-cons s r rs w c in (w', AfterCr-cons s r rs w w')

-- The lines are those that the text consists of, for every byte string: no line holds the end of
-- a line, and between them stand just the ends of lines.
pub split_lines-Splits :
    (s : Bytes) → (ls : List (List Rune)) × Splits (runes s) ls × (split_lines s ≡ map bytes_of ls)
unfolding split_lines
split_lines-Splits s = (both s (runes s)).0 [] [] 0 0 (sym (bytes_of-runes s)) refl refl tt
