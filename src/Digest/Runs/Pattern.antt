-- ===== src/Digest/Runs/Pattern.antt =====
-- What the backtracking matcher of `[^ws]{10,}` finds, and the pass that drops it.
use gyzor.Prelude.{
  ℕ, zero, suc, ◌+◌, ◌≡◌, refl, sym, ap, ◌∙◌, true, false, List, [], ◌∷◌, ◌++◌, append_assoc,
  append-nil, some, none, arith, leb, if◌then◌else◌, Bool-cases, inl, inr, length, length-append,
  Bytes,
}
use gyzor.Go.Utf8.{Rune, runes, bytes_of}
use gyzor.Go.Regexp.{Pattern, accept, star, at_least, erase_from, erase_all}
use gyzor.Digest.Space.{is_py_space, non_space, non_space-is_py_space}
use gyzor.Digest.Runs.{remove_long_runs}
use gyzor.Digest.Runs.Correct.{drop_long, remove_long_runs-drop_long}

-- `[^ws]{10,}`, which pyzor and the test of `normalize` use.
unfoldable pub long_run : Pattern
long_run = at_least 10 non_space accept

-- The length of the run that a text begins with.
run_length : List Rune → ℕ
run_length [] = 0
run_length (r ∷ rs) = if is_py_space r.value then 0 else suc (run_length rs)

star-run_length : (cs : List Rune) → star non_space accept cs ≡ some (run_length cs)
unfolding run_length
star-run_length [] = refl
star-run_length (r ∷ rs) = ground (arith, non_space-is_py_space r.value, star-run_length rs)

at_least-run_length :
    (n : ℕ) (cs : List Rune)
    → at_least n non_space accept cs
      ≡ (if leb n (run_length cs) then some (run_length cs) else none)
unfolding run_length
at_least-run_length zero cs = ground (arith, star-run_length cs)
at_least-run_length (suc n) [] = ground arith
at_least-run_length (suc n) (r ∷ rs) =
    ground (arith, non_space-is_py_space r.value, at_least-run_length n rs)

module _ (m : Pattern)
    (finds : (cs : List Rune)
      → m cs ≡ (if leb 10 (run_length cs) then some (run_length cs) else none)) where
  erase_miss :
      (r : Rune) (rs : List Rune)
      → is_py_space r.value ≡ true
      → erase_from m 0 (r ∷ rs) ≡ r ∷ erase_from m 0 rs
  unfolding erase_from run_length
  erase_miss r rs sp = rw (erase_from, finds, sp)

  erase_hit :
      (r : Rune) (rs : List Rune)
      → is_py_space r.value ≡ false
      → erase_from m 0 (r ∷ rs) ≡ (
          if leb 10 (suc (run_length rs))
          then erase_from m (run_length rs) rs
          else r ∷ erase_from m 0 rs)
  unfolding erase_from run_length
  erase_hit r rs sp = elim (Bool-cases (leb 10 (suc (run_length rs)))) [
    | inl long ↦ rw (erase_from, finds, sp, long) (ap (λ n. erase_from m n rs) (omega arith))
    | inr short ↦ rw (erase_from, finds, sp, short)
  ]

  -- A match is passed over as a whole.
  erase_run :
      (cs : List Rune)
      → leb 10 (run_length cs) ≡ true
      → erase_from m 0 cs ≡ erase_from m (run_length cs) cs
  unfolding erase_from run_length
  erase_run [] long = refl
  erase_run (r ∷ rs) long = elim (Bool-cases (is_py_space r.value)) [
    | inl sp ↦ rw sp
    | inr sp ↦ erase_hit r rs sp ∙ rw (sp, (rw sp at long))
  ]

  erase_or_run :
      (cs : List Rune)
      → (if leb 10 (run_length cs) then erase_from m (run_length cs) cs else erase_from m 0 cs)
        ≡ erase_from m 0 cs
  erase_or_run cs = elim (Bool-cases (leb 10 (run_length cs))) [
    | inl long ↦ rw long (sym (erase_run cs long))
    | inr short ↦ rw short
  ]

  -- One more rune of a run, behind the runes `pend` of it.
  erase_read :
      (pend : List Rune) (r : Rune) (rs : List Rune)
      → is_py_space r.value ≡ false
      → (if leb 10 (length pend + suc (run_length rs))
          then erase_from m (run_length rs) rs
          else (pend ++ r ∷ []) ++ erase_from m 0 rs)
        ≡ (if leb 10 (length pend + suc (run_length rs))
            then erase_from m (run_length rs) rs
            else pend ++ erase_from m 0 (r ∷ rs))
  erase_read pend r rs sp = elim (Bool-cases (leb 10 (length pend + suc (run_length rs)))) [
    | inl long ↦ rw long
    | inr short ↦
        let out : leb 10 (suc (run_length rs)) ≡ false = ground arith in
        let step : erase_from m 0 (r ∷ rs) ≡ r ∷ erase_from m 0 rs = erase_hit r rs sp ∙ rw out in
        rw (short, step) (append_assoc pend (r ∷ []) (erase_from m 0 rs))
  ]

  erase-drop_long :
      (pend cs : List Rune)
      → drop_long pend cs ≡ (
          if leb 10 (length pend + run_length cs)
          then erase_from m (run_length cs) cs
          else pend ++ erase_from m 0 cs)
  unfolding erase_from run_length drop_long
  erase-drop_long pend [] =
      let e : length pend + 0 ≡ length pend = omega arith in
      rw e (elim (Bool-cases (leb 10 (length pend))) [
        | inl long ↦ rw long
        | inr short ↦ rw (short, append-nil)
      ])
  erase-drop_long pend (r ∷ rs) = elim (Bool-cases (is_py_space r.value)) [
    | inl sp ↦
        let e : length pend + 0 ≡ length pend = omega arith in
        let z : 0 + run_length rs ≡ run_length rs = omega arith in
        let rest : drop_long [] rs ≡ erase_from m 0 rs =
          erase-drop_long [] rs ∙ rw z (erase_or_run rs) in
        rw (drop_long, sp, rest, e)
          (elim (Bool-cases (leb 10 (length pend))) [
            | inl long ↦ rw long (sym (erase_miss r rs sp))
            | inr short ↦ rw short (ap (◌++◌ pend) (sym (erase_miss r rs sp)))
          ])
    | inr sp ↦
        let e : length (pend ++ r ∷ []) + run_length rs ≡ length pend + suc (run_length rs) =
          omega (arith, length-append pend (r ∷ [])) in
        rw (drop_long, sp) (erase-drop_long (pend ++ r ∷ []) rs ∙ rw e (erase_read pend r rs sp))
  ]

  drop_long-erase : (cs : List Rune) → drop_long [] cs ≡ erase_from m 0 cs
  drop_long-erase cs =
      let z : 0 + run_length cs ≡ run_length cs = omega arith in
      erase-drop_long [] cs ∙ rw z (erase_or_run cs)

-- The single pass with byte offsets drops exactly what replacing every match of `[^ws]{10,}` by
-- the empty text drops, for every byte string, invalid UTF-8 included.
pub remove_long_runs-erase_all : (s : Bytes) → remove_long_runs s ≡ erase_all long_run s
unfolding erase_all long_run
remove_long_runs-erase_all s =
    remove_long_runs-drop_long s
    ∙ ap bytes_of (drop_long-erase _ (at_least-run_length 10) (runes s))
