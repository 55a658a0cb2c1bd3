-- ===== src/Client/Files/Lines.antt =====
-- Files of lines: how they are cut and what `bufio.Scanner` reads of them.
use gyzor.Prelude.{
  ℕ, ◌≡◌, ◌≢◌, refl, sym, ap, ◌∙◌, List, [], ◌∷◌, ◌++◌, map, append_assoc, ◌<◌, arith, Bytes, All,
  Lacks, length,
}
use gyzor.Go.Scanner.{max_token, drop_cr, tokens}
use gyzor.Go.Strings.{split, split_cons, join}
use gyzor.Go.Strings.Laws.{split_at_sep}
use gyzor.Go.Strings.Trim.{IsPlain}

pub split-ne : (b : Bytes) (sep : ℕ) → split b sep ≢ []
unfolding split split_cons
split-ne [] sep = λ e. cc
split-ne (c ∷ b) sep = ground (arith, split-ne b sep)

split-append : (x y : Bytes) (sep : ℕ) → split (x ++ (sep ∷ y)) sep ≡ split x sep ++ split y sep
unfolding split split_cons
split-append [] y sep = ground arith
split-append (c ∷ x) y sep = ground (arith, split-append x y sep, split-ne x sep)

join-suc :
    (k : Bytes) (ls : List Bytes) (sep : ℕ) → ls ≢ [] → join (k ∷ ls) sep ≡ k ++ (sep ∷ join ls sep)
unfolding join
join-suc k [] sep h = absurd (h refl)
join-suc k (l ∷ ls) sep h = refl

pub append-ne : {A : Type 0} (ks ls : List A) → ls ≢ [] → ks ++ ls ≢ []
append-ne [] ls h = h
append-ne (k ∷ ks) ls h = λ e. cc

-- A file of lines, as it is written.
unfoldable pub file_of : List Bytes → Bytes
file_of ls = join ls b'\n' ++ (b'\n' ∷ [])

-- The lines in front do not change how the last ones are cut.
pub split-file_of :
    (ks ls : List Bytes)
    → ls ≢ []
    → (pre : List Bytes) × (split (file_of (ks ++ ls)) b'\n' ≡ pre ++ split (file_of ls) b'\n')
unfolding file_of
split-file_of [] ls h = ([], refl)
split-file_of (k ∷ ks) ls h =
    let (pre, e) = split-file_of ks ls h in
    (
      split k b'\n' ++ pre,
      rw
          (
            join-suc k (ks ++ ls) b'\n' (append-ne ks ls h),
            append_assoc k (b'\n' ∷ join (ks ++ ls) b'\n') (b'\n' ∷ []),
            split-append k (join (ks ++ ls) b'\n' ++ (b'\n' ∷ [])) b'\n',
            e,
          )
          (sym (append_assoc (split k b'\n') pre _)),
    )

-- Lines without line feeds are cut apart again.
pub split-lines :
    (l : Bytes) (ls : List Bytes)
    → All (Lacks b'\n') (l ∷ ls)
    → split (file_of (l ∷ ls)) b'\n' ≡ (l ∷ ls) ++ ([] ∷ [])
unfolding file_of join split
split-lines l [] (hl, hs) = split_at_sep l [] b'\n' hl
split-lines l (m ∷ ls) (hl, hs) =
    rw
      (
        append_assoc l (b'\n' ∷ join (m ∷ ls) b'\n') (b'\n' ∷ []),
        split_at_sep l (join (m ∷ ls) b'\n' ++ (b'\n' ∷ [])) b'\n' hl,
      )
      (ap (◌∷◌ l) (split-lines m ls hs))

-- A line that fits the scanner's buffer.
abbrev pub IsShort : Bytes → Type 0
IsShort l = length l < max_token

tokens-suc :
    (l : Bytes) (rest : List Bytes)
    → rest ≢ []
    → IsShort l
    → tokens (l ∷ rest) ≡ drop_cr l ∷ tokens rest
unfolding tokens
tokens-suc l [] ne h = absurd (ne refl)
tokens-suc [] (m ∷ rest) ne h = refl
tokens-suc (c ∷ l) (m ∷ rest) ne h = ground arith

tokens_end : tokens ([] ∷ []) ≡ []
unfolding tokens
tokens_end = refl

pub tokens-lines :
    (ls : List Bytes) → All IsShort (ls ++ ([] ∷ [])) → tokens (ls ++ ([] ∷ [])) ≡ map drop_cr ls
tokens-lines [] h = tokens_end
tokens-lines (l ∷ ls) (hl, hs) =
    tokens-suc l (ls ++ ([] ∷ [])) (append-ne ls ([] ∷ []) (λ e. cc)) hl
    ∙ ap (◌∷◌ (drop_cr l)) (tokens-lines ls hs)

pub drop_cr_id : (s : Bytes) → All IsPlain s → drop_cr s ≡ s
unfolding drop_cr
drop_cr_id [] h = refl
drop_cr_id (c ∷ []) (hc, h) = ground arith
drop_cr_id (c ∷ d ∷ s) (hc, h) = ap (◌∷◌ c) (drop_cr_id (d ∷ s) h)
