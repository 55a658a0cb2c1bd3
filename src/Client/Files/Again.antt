-- ===== src/Client/Files/Again.antt =====
-- Saving an account a second time.
use gyzor.Prelude.{
  ℕ, ◌≡◌, ◌≢◌, refl, ap, ◌∙◌, Bool, true, false, List, [], ◌∷◌, ◌++◌, append_assoc, append-nil,
  Option, none, some, inl, inr, arith, ◌==◌, Bytes, bytes_eq, bytes_eq_iff, All, All-append, Lacks,
  Bool-cases,
}
use mathlib.Core.Path.{subst}
use gyzor.Go.Strings.{is_cr, split, split_cons, trim_right, trim_space}
use gyzor.Account.Keys.{Account}
use gyzor.Account.File.{
  account_addr_of_line, is_stale, replaced, kept_lines, kept_of, new_file, FileRead, save_account,
}
use gyzor.Client.Files.Fields.{IsStorable}
use gyzor.Client.Files.RoundTrip.{account_addr_of_line-account_line}
use gyzor.Client.Files.Lines.{split-lines, append-ne, file_of}
use gyzor.Client.Files.Saved.{lines_for, lines_for-Lacks, Storable}
use gyzor.Client.Server.{Server, addr}

split_cons-Lacks :
    (c sep : ℕ) (ls : List Bytes) → c ≢ sep → All (Lacks sep) ls → All (Lacks sep) (split_cons c ls)
unfolding split_cons
split_cons-Lacks c sep [] h hs = ((h, tt), tt)
split_cons-Lacks c sep (l ∷ ls) h (hl, hs) = ((h, hl), hs)

split-Lacks : (b : Bytes) (sep : ℕ) → All (Lacks sep) (split b sep)
unfolding split
split-Lacks [] sep = (tt, tt)
split-Lacks (c ∷ b) sep = elim (Bool-cases (c == sep)) [
  | inl e ↦ rw e (tt, split-Lacks b sep)
  | inr e ↦ rw e (split_cons-Lacks c sep (split b sep) (ground arith) (split-Lacks b sep))
]

trim_right-Lacks : (p : ℕ → Bool) (c : ℕ) (s : Bytes) → Lacks c s → Lacks c (trim_right p s)
unfolding trim_right
trim_right-Lacks p c [] h = tt
trim_right-Lacks p c (b ∷ s) (hb, h) = ground (arith, trim_right-Lacks p c s h)

trim_right_twice : (p : ℕ → Bool) (s : Bytes) → trim_right p (trim_right p s) ≡ trim_right p s
unfolding trim_right
trim_right_twice p [] = refl
trim_right_twice p (b ∷ s) = ground (arith, trim_right_twice p s)

-- A line that is kept as it is.
record IsKept (servers : List Server) (line : Bytes) : Type 0 where
  one_line : Lacks b'\n' line
  no_cr : trim_right is_cr line ≡ line
  there : bytes_eq line [] ≡ false
  fresh : is_stale servers (account_addr_of_line line) ≡ false

addr_of_trimmed :
    (line : Bytes) → account_addr_of_line (trim_right is_cr line) ≡ account_addr_of_line line
unfolding account_addr_of_line
addr_of_trimmed line = rw (trim_right_twice is_cr line) refl

trim_right-IsKept :
    (servers : List Server) (line : Bytes)
    → Lacks b'\n' line
    → bytes_eq (trim_right is_cr line) [] ≡ false
    → is_stale servers (account_addr_of_line line) ≡ false
    → IsKept servers (trim_right is_cr line)
trim_right-IsKept servers line lf there fresh = record {
  one_line = trim_right-Lacks is_cr b'\n' line lf;
  no_cr = trim_right_twice is_cr line;
  there = there;
  fresh = ap (is_stale servers) (addr_of_trimmed line) ∙ fresh;
}

kept_lines-IsKept :
    (servers : List Server) (ls : List Bytes)
    → All (Lacks b'\n') ls
    → All (IsKept servers) (kept_lines servers ls)
unfolding kept_lines
kept_lines-IsKept servers [] h = tt
kept_lines-IsKept servers (line ∷ ls) (hl, h) =
    let rest = kept_lines-IsKept servers ls h in
    elim (Bool-cases (is_stale servers (account_addr_of_line line))) [
      | inl stale ↦ rw stale rest
      | inr fresh ↦ elim (Bool-cases (bytes_eq (trim_right is_cr line) [])) [
        | inl blank ↦ rw (fresh, blank) rest
        | inr there ↦ rw (fresh, there) (trim_right-IsKept servers line hl there fresh, rest)
      ]
    ]

kept_lines-append :
    (servers : List Server) (xs ys : List Bytes)
    → kept_lines servers (xs ++ ys) ≡ kept_lines servers xs ++ kept_lines servers ys
unfolding kept_lines
kept_lines-append servers [] ys = refl
kept_lines-append servers (x ∷ xs) ys = ground (arith, kept_lines-append servers xs ys)

kept_lines_again :
    (servers : List Server) (ls : List Bytes) → All (IsKept servers) ls → kept_lines servers ls ≡ ls
unfolding kept_lines
kept_lines_again servers [] h = refl
kept_lines_again servers (l ∷ ls) (hl, h) =
    rw (hl.fresh, hl.no_cr, hl.there, kept_lines_again servers ls h) refl

replaced-suc :
    (t : Server) (servers xs : List Server)
    → All (λ s. replaced servers (addr s) ≡ true) xs
    → All (λ s. replaced (t ∷ servers) (addr s) ≡ true) xs
unfolding replaced
replaced-suc t servers [] h = tt
replaced-suc t servers (x ∷ xs) (hx, h) = (ground arith, replaced-suc t servers xs h)

replaced_self : (servers : List Server) → All (λ s. replaced servers (addr s) ≡ true) servers
unfolding replaced
replaced_self [] = tt
replaced_self (s ∷ servers) = (
  ground (arith, bytes_eq_iff (addr s) (addr s)),
  replaced-suc s servers servers (replaced_self servers),
)

blank_line : (servers : List Server) → kept_lines servers ([] ∷ []) ≡ []
unfolding kept_lines account_addr_of_line is_stale trim_right trim_space bytes_eq
blank_line servers = refl

stale_lines :
    (servers : List Server) (acc : Account) (xs : List Server)
    → Storable acc xs
    → All (λ s. replaced servers (addr s) ≡ true) xs
    → kept_lines servers (lines_for acc xs ++ ([] ∷ [])) ≡ []
unfolding kept_lines lines_for is_stale
stale_lines servers acc [] h r = blank_line servers
stale_lines servers acc (x ∷ xs) (hx, h) (rx, r) =
    rw (account_addr_of_line-account_line x acc hx, rx) (stale_lines servers acc xs h r)

kept_lines-file :
    (servers : List Server) (acc : Account) (kept : List Bytes)
    → Storable acc servers
    → All (IsKept servers) kept
    → kept_lines servers (kept ++ (lines_for acc servers ++ ([] ∷ []))) ≡ kept
kept_lines-file servers acc kept h k =
    kept_lines-append servers kept (lines_for acc servers ++ ([] ∷ []))
    ∙ ap (λ ls. kept_lines servers kept ++ ls)
        (stale_lines servers acc servers h (replaced_self servers))
    ∙ append-nil (kept_lines servers kept)
    ∙ kept_lines_again servers kept k

split-file :
    (ls : List Bytes) → ls ≢ [] → All (Lacks b'\n') ls → split (file_of ls) b'\n' ≡ ls ++ ([] ∷ [])
split-file [] ne h = absurd (ne refl)
split-file (l ∷ ls) ne h = split-lines l ls h

kept-Lacks :
    (servers : List Server) (ls : List Bytes) → All (IsKept servers) ls → All (Lacks b'\n') ls
kept-Lacks servers [] h = tt
kept-Lacks servers (l ∷ ls) (hl, h) = (hl.one_line, kept-Lacks servers ls h)

or_nil : Option (List Bytes) → List Bytes
or_nil none = []
or_nil (some ls) = ls

found-IsKept :
    (servers : List Server) (old : FileRead) → All (IsKept servers) (or_nil (kept_of servers old))
unfolding kept_of or_nil
found-IsKept servers FileRead.missing = tt
found-IsKept servers FileRead.unreadable = tt
found-IsKept servers (FileRead.contents b) =
    kept_lines-IsKept servers (split b b'\n') (split-Lacks b b'\n')

kept_of-IsKept :
    (servers : List Server) (old : FileRead) (kept : List Bytes)
    → kept_of servers old ≡ some kept
    → All (IsKept servers) kept
unfolding or_nil
kept_of-IsKept servers old kept e =
    subst (All (IsKept servers)) (ap or_nil e) (found-IsKept servers old)

kept_of-new_file :
    (s : Server) (servers : List Server) (acc : Account) (kept : List Bytes)
    → Storable acc (s ∷ servers)
    → All (IsKept (s ∷ servers)) kept
    → kept_of (s ∷ servers) (FileRead.contents (new_file (s ∷ servers) acc kept)) ≡ some kept
unfolding kept_of new_file lines_for file_of
kept_of-new_file s servers acc kept h k =
    let lines = lines_for acc (s ∷ servers) in
    let clean =
      All-append (Lacks b'\n') kept lines (kept-Lacks (s ∷ servers) kept k)
        (lines_for-Lacks acc (s ∷ servers) h) in
    ap (λ ls. some (kept_lines (s ∷ servers) ls))
      (split-file (kept ++ lines) (append-ne kept lines (λ e. cc)) clean
        ∙ append_assoc kept lines ([] ∷ []))
    ∙ ap some (kept_lines-file (s ∷ servers) acc kept h k)

-- Where every server with the account can be stored and the old file is missing or can be read,
-- SaveAccount on the file that it wrote gives what it gave on the old file: registering again
-- changes nothing.
pub save_account-again :
    (homedir : Bytes) (s : Server) (servers : List Server) (acc : Account) (made written : Bool)
    (old : FileRead) (kept : List Bytes)
    → All (λ t. IsStorable t acc) (s ∷ servers)
    → kept_of (s ∷ servers) old ≡ some kept
    → save_account homedir
        (s ∷ servers)
        acc
        made
        (FileRead.contents (new_file (s ∷ servers) acc kept))
        written
      ≡ save_account homedir (s ∷ servers) acc made old written
unfolding save_account
save_account-again homedir s servers acc made written old kept h e =
    rw (kept_of-new_file s servers acc kept h (kept_of-IsKept (s ∷ servers) old kept e), e) refl
