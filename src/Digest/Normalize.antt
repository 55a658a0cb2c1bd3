-- ===== src/Digest/Normalize.antt =====
-- pyzor/digest.go: `normalize` and the patterns that it applies.
pub mod Reference
use gyzor.Prelude.{ℕ, Bool, ◌&&◌, ◌||◌, ◌==◌, leb, if◌then◌else◌, Bytes}
use gyzor.Go.Regexp.{Pattern, accept, lit, plus, erase_all}
use gyzor.Go.Strings.{contains_byte, remove_byte}
use gyzor.Digest.Space.{non_space}
use gyzor.Digest.Runs.{remove_long_runs}
use gyzor.Digest.Whitespace.{remove_py_whitespace}

-- `emailPtrn`
unfoldable pub email_ptrn : Pattern
unfolding non_space
email_ptrn = plus non_space (lit b'@' (plus non_space accept))

-- `(?i)[a-z]`: folding adds the long s and the Kelvin sign.
unfoldable pub is_scheme_letter : ℕ → Bool
is_scheme_letter r =
    leb b'a' r && leb r b'z' || leb b'A' r && leb r b'Z' || r == 0x17f || r == 0x212a

-- `urlPtrn`
unfoldable pub url_ptrn : Pattern
unfolding non_space is_scheme_letter
url_ptrn = plus is_scheme_letter (lit b':' (plus non_space accept))

-- `normalize`
unfoldable pub normalize : Bytes → Bytes
normalize s0 =
    let s1 = if contains_byte s0 0 then remove_byte 0 s0 else s0 in
    let s2 = remove_long_runs s1 in
    let s3 = if contains_byte s2 b'@' then erase_all email_ptrn s2 else s2 in
    let s4 = if contains_byte s3 b':' then erase_all url_ptrn s3 else s3 in remove_py_whitespace s4
