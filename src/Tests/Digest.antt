-- ===== src/Tests/Digest.antt =====
-- The digest on concrete lines and payloads.
use gyzor.Prelude.{List, [], ◌∷◌, map, ◌≡◌, refl, Bytes, codes, length, leb, ◌==◌, if◌then◌else◌}
use gyzor.Go.Regexp.{erase_all}
use gyzor.Go.Sha1.{sha1, hex_encode}
use gyzor.Go.Strings.{contains_byte}
use gyzor.Go.Utf8.{Rune, runes, rune_len, bytes_of}
use gyzor.Digest.Lines.{split_lines, lines_from, kind}
use gyzor.Digest.Lines.Correct.{Splits, split_lines-Splits}
use gyzor.Digest.Normalize.{normalize, email_ptrn, url_ptrn}
use gyzor.Digest.Normalize.Reference.{reference, normalize-reference}
use gyzor.Digest.Runs.Pattern.{long_run, remove_long_runs-erase_all}
use gyzor.Digest.Runs.{remove_long_runs}
use gyzor.Digest.Select.{hashed_pieces, rstrip}
use gyzor.Digest.Select.Correct.{sampled, hashed_pieces_lem, length-hashed_pieces}
use gyzor.Digest.Whitespace.Correct.{space_rune, remove_py_whitespace-erase_all}
use gyzor.Digest.Whitespace.{remove_py_whitespace}

sha1_abc : hex_encode (sha1 (codes "abc")) ≡ codes "a9993e364706816aba3e25717850c26c9cd0d89d"
unfolding hex_encode sha1
sha1_abc = refl

sha1_two_blocks :
    hex_encode (sha1 (codes "abcdbcdecdefdefgefghfghighijhijkijkljklmklmnlmnomnopnopq"))
    ≡ codes "84983e441c3bd26ebaae4aa1f95129e5e54670f1"
unfolding hex_encode sha1
sha1_two_blocks = refl

spaces_gone : remove_py_whitespace (codes "a b\tc") ≡ codes "abc"
unfolding remove_py_whitespace rune_len
spaces_gone = refl

three_lines : split_lines (codes "a\r\n\r\nb\nc") ≡ codes "a" ∷ [] ∷ codes "b" ∷ codes "c" ∷ []
unfolding split_lines lines_from kind runes
three_lines = refl

-- Cases of the repository's own test of `normalize`.
tokens_blanked : normalize (codes "longtokenABCDEFGHIJ short") ≡ codes "short"
unfolding normalize contains_byte remove_long_runs remove_py_whitespace rune_len
tokens_blanked = refl

email_blanked : normalize (codes "mail me at a@b.ex now") ≡ codes "mailmeatnow"
unfolding normalize contains_byte remove_long_runs erase_all email_ptrn remove_py_whitespace
    rune_len
email_blanked = refl

url_blanked : normalize (codes "visit http://x.y here") ≡ codes "visithere"
unfolding normalize contains_byte remove_long_runs erase_all url_ptrn remove_py_whitespace rune_len
url_blanked = refl

abbrev long_line : Bytes
long_line = codes "x 0123456789 y"

remove_long_runs-erase_all_example : remove_long_runs long_line ≡ erase_all long_run long_line
remove_long_runs-erase_all_example = remove_long_runs-erase_all long_line

remove_py_whitespace-erase_all_example :
    remove_py_whitespace long_line ≡ erase_all space_rune long_line
remove_py_whitespace-erase_all_example = remove_py_whitespace-erase_all long_line

normalize-reference_example :
    normalize (codes "to a@b.ex or ftp://c now") ≡ reference (codes "to a@b.ex or ftp://c now")
normalize-reference_example = normalize-reference (codes "to a@b.ex or ftp://c now")

split_lines-Splits_example :
    (ls : List (List Rune)) × Splits (runes (codes "a\r\nb")) ls
    × (split_lines (codes "a\r\nb") ≡ map bytes_of ls)
split_lines-Splits_example = split_lines-Splits (codes "a\r\nb")

abbrev five_lines : List Bytes
five_lines = codes "one" ∷ codes "two" ∷ codes "three" ∷ codes "four" ∷ codes "five" ∷ []

hashed_pieces_lem_example :
    hashed_pieces five_lines
    ≡ map rstrip (if leb (length five_lines) 4 then five_lines else sampled five_lines)
hashed_pieces_lem_example = hashed_pieces_lem five_lines

length-hashed_pieces_example : length (hashed_pieces five_lines) ≡ (
    if leb (length five_lines) 4
    then length five_lines
    else if length five_lines == 5
    then 5
    else 6)
length-hashed_pieces_example = length-hashed_pieces five_lines
