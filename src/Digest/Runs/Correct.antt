-- ===== src/Digest/Runs/Correct.antt =====
-- `removeLongRuns` against the pattern `[^ws]{10,}` that it stands for.
use gyzor.Prelude.{
  ℕ, ◌+◌, ◌<◌, ◌≡◌, refl, sym, ap, ◌∙◌, true, false, List, [], ◌∷◌, ◌++◌, append_assoc, append-nil,
  arith, leb, if◌then◌else◌, Bool-cases, inl, inr, length, length-append, drop-length, drop_all,
  Bytes, slice, slice-append,
}
use gyzor.Go.Utf8.{Rune, runes, bytes_of, bytes_of-append, bytes_of-runes}
use gyzor.Digest.Space.{is_py_space}
use gyzor.Digest.Runs.{Scan, scan_rune, scan_runes, finish, start, remove_long_runs}

-- A run that has ended: kept if it is short.
abbrev short_run : List Rune → List Rune
short_run pend = if leb 10 (length pend) then [] else pend

-- The runes without the long runs; `pend` is the run that is being read.
unfoldable pub drop_long : List Rune → List Rune → List Rune
drop_long pend [] = short_run pend
drop_long pend (r ∷ rs) = elim (is_py_space r.value) [
  | true ↦ short_run pend ++ (r ∷ drop_long [] rs)
  | false ↦ drop_long (pend ++ r ∷ []) rs
]

-- The string is `a`, which is dealt with, then `b`, which will be kept, the run `pend` and the
-- runes `cs` that are still to be read.
record Inv (s a b : Bytes) (pend cs : List Rune) (i : ℕ) (st : Scan) : Type 0 where
  spells : s ≡ a ++ (b ++ (bytes_of pend ++ bytes_of cs))
  offset : i ≡ length a + (length b + length (bytes_of pend))
  last_is : st.last ≡ length a
  counted : st.rune_count ≡ length pend
  started : 0 < length pend → st.run_start ≡ length a + length b
  fresh : st.grown ≡ false → (a ≡ []) × (st.out ≡ [])

no_bytes : (cs : List Rune) → length cs ≡ 0 → length (bytes_of cs) ≡ 0
no_bytes [] e = refl
no_bytes (c ∷ cs) e = absurd (omega arith)

module _ (s a b : Bytes) (pend : List Rune) (i : ℕ) (st : Scan) where
  -- What is written when a long run ends.
  written :
      (cs : List Rune)
      → Inv s a b pend cs i st
      → leb 10 (length pend) ≡ true
      → slice s st.last st.run_start ≡ b
  written cs h long =
      rw (h.last_is, h.started (ground arith), h.spells)
        (slice-append a b (bytes_of pend ++ bytes_of cs))

  -- The end of the loop.
  finish-Inv : Inv s a b pend [] i st → finish s st ≡ st.out ++ (b ++ bytes_of (drop_long pend []))
  unfolding finish drop_long
  finish-Inv h = elim (Bool-cases (leb 10 (length pend))) [
    | inl long ↦ rw (h.counted, long, written [] h long, drop_all s) (append_assoc st.out b [])
    | inr short ↦
        rw (h.counted, short)
          (elim (Bool-cases st.grown) [
            | inl g ↦ rw (g, h.last_is, h.spells, drop-length, append-nil)
            | inr g ↦ rw (g, (h.fresh g).1, h.spells, (h.fresh g).0, append-nil)
          ])
  ]

  space-Inv :
      (r : Rune) (cs : List Rune)
      → is_py_space r.value ≡ true
      → Inv s a b pend (r ∷ cs) i st
      → leb 10 (length pend) ≡ true
      → Inv s (a ++ (b ++ bytes_of pend)) r.raw [] cs (i + length r.raw) (scan_rune s i r st)
  unfolding scan_rune
  space-Inv r cs sp h long =
      rw (sp, h.counted, long)
        (record {
          spells = rw (h.spells, append_assoc, append_assoc);
          offset = omega (
            arith,
            h.offset,
            length-append a (b ++ bytes_of pend),
            length-append b (bytes_of pend),
          );
          last_is = omega (
            arith,
            h.offset,
            length-append a (b ++ bytes_of pend),
            length-append b (bytes_of pend),
          );
          counted = refl;
          started = λ lt. absurd (omega arith);
          fresh = λ e. cc;
        })

  keep-Inv :
      (r : Rune) (cs : List Rune)
      → is_py_space r.value ≡ true
      → Inv s a b pend (r ∷ cs) i st
      → leb 10 (length pend) ≡ false
      → Inv s a (b ++ (bytes_of pend ++ r.raw)) [] cs (i + length r.raw) (scan_rune s i r st)
  unfolding scan_rune
  keep-Inv r cs sp h short =
      rw (sp, h.counted, short)
        (record {
          spells = rw (h.spells, append_assoc, append_assoc);
          offset = omega (
            arith,
            h.offset,
            length-append b (bytes_of pend ++ r.raw),
            length-append (bytes_of pend) r.raw,
          );
          last_is = h.last_is;
          counted = refl;
          started = λ lt. absurd (omega arith);
          fresh = h.fresh;
        })

  read-Inv :
      (r : Rune) (cs : List Rune)
      → is_py_space r.value ≡ false
      → Inv s a b pend (r ∷ cs) i st
      → Inv s a b (pend ++ r ∷ []) cs (i + length r.raw) (scan_rune s i r st)
  unfolding scan_rune
  read-Inv r cs sp h =
      rw (sp, h.counted)
        (record {
          spells = rw (h.spells, bytes_of-append, append_assoc, append-nil);
          offset = omega (
            arith,
            h.offset,
            ap length (bytes_of-append pend (r ∷ [])),
            length-append (bytes_of pend) (r.raw ++ []),
            length-append r.raw [],
          );
          last_is = h.last_is;
          counted = omega (arith, length-append pend (r ∷ []));
          started = λ lt. ground (arith, no_bytes pend);
          fresh = h.fresh;
        })

-- What a round writes, and what the specification does there.
round_read :
    (s b : Bytes) (pend cs : List Rune) (i : ℕ) (st : Scan) (r : Rune)
    → is_py_space r.value ≡ false
    → (scan_rune s i r st).out ++ (b ++ bytes_of (drop_long (pend ++ r ∷ []) cs))
      ≡ st.out ++ (b ++ bytes_of (drop_long pend (r ∷ cs)))
unfolding scan_rune drop_long
round_read s b pend cs i st r sp = rw (drop_long, sp)

round_long :
    (s a b : Bytes) (pend cs : List Rune) (i : ℕ) (st : Scan) (r : Rune)
    → is_py_space r.value ≡ true
    → Inv s a b pend (r ∷ cs) i st
    → leb 10 (length pend) ≡ true
    → (scan_rune s i r st).out ++ (r.raw ++ bytes_of (drop_long [] cs))
      ≡ st.out ++ (b ++ bytes_of (drop_long pend (r ∷ cs)))
unfolding scan_rune drop_long
round_long s a b pend cs i st r sp h long =
    rw (drop_long, sp, h.counted, long, written s a b pend i st (r ∷ cs) h long)
      (append_assoc st.out b _)

round_short :
    (s a b : Bytes) (pend cs : List Rune) (i : ℕ) (st : Scan) (r : Rune)
    → is_py_space r.value ≡ true
    → Inv s a b pend (r ∷ cs) i st
    → leb 10 (length pend) ≡ false
    → (scan_rune s i r st).out ++ ((b ++ (bytes_of pend ++ r.raw)) ++ bytes_of (drop_long [] cs))
      ≡ st.out ++ (b ++ bytes_of (drop_long pend (r ∷ cs)))
unfolding scan_rune drop_long
round_short s a b pend cs i st r sp h short =
    rw (drop_long, sp, h.counted, short) (rw bytes_of-append (simp append_assoc))

-- The loop, from any state that it reaches.
finish-scan_runes :
    (s a b : Bytes) (pend cs : List Rune) (i : ℕ) (st : Scan)
    → Inv s a b pend cs i st
    → finish s (scan_runes s i cs st) ≡ st.out ++ (b ++ bytes_of (drop_long pend cs))
unfolding scan_runes
finish-scan_runes s a b pend [] i st h = finish-Inv s a b pend i st h
finish-scan_runes s a b pend (r ∷ cs) i st h = elim (Bool-cases (is_py_space r.value)) [
  | inr sp ↦
      finish-scan_runes s a b (pend ++ r ∷ []) cs _ _ (read-Inv s a b pend i st r cs sp h)
      ∙ round_read s b pend cs i st r sp
  | inl sp ↦ elim (Bool-cases (leb 10 (length pend))) [
    | inl long ↦
        finish-scan_runes s (a ++ (b ++ bytes_of pend)) r.raw [] cs _ _
          (space-Inv s a b pend i st r cs sp h long)
        ∙ round_long s a b pend cs i st r sp h long
    | inr short ↦
        finish-scan_runes s a (b ++ (bytes_of pend ++ r.raw)) [] cs _ _
          (keep-Inv s a b pend i st r cs sp h short)
        ∙ round_short s a b pend cs i st r sp h short
  ]
]

pub remove_long_runs-drop_long :
    (s : Bytes) → remove_long_runs s ≡ bytes_of (drop_long [] (runes s))
unfolding remove_long_runs
remove_long_runs-drop_long s = finish-scan_runes s [] [] [] (runes s) 0 start (record {
  spells = sym (bytes_of-runes s);
  offset = refl;
  last_is = refl;
  counted = refl;
  started = λ lt. absurd (omega arith);
  fresh = λ e. (refl, refl);
})
