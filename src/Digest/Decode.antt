-- ===== src/Digest/Decode.antt =====
-- pyzor/digest.go: `decodeCTE` and `decodeCharset` with their filters.
pub mod Filters
pub mod Utf8
pub mod Base64
pub mod Noisy
use gyzor.Prelude.{
  ℕ, zero, suc, ◌-◌, Bool, true, false, ◌&&◌, ◌||◌, List, [], ◌∷◌, ◌++◌, Option, none, some, Bytes,
  codes, bytes_eq, take, drop, length, leb, ltb, ◌==◌, if◌then◌else◌,
}
use gyzor.Go.Base64.{decode64}
use gyzor.Go.Case.{to_lower, encode_rune}
use gyzor.Go.Strings.{trim_space, remove_all}
use gyzor.Go.Utf8.{Rune, rune_error, runes, valid_utf8}

-- `isBase64Byte`
unfoldable pub is_base64_byte : ℕ → Bool
is_base64_byte c =
    (leb b'A' c && leb c b'Z')
    || (leb b'a' c && leb c b'z')
    || (leb b'0' c && leb c b'9')
    || c == b'+'
    || c == b'/'
    || c == b'='

-- The first loop of `filterBase64` and of `asciiIgnore`: the index of the first byte that fails
-- the test; `none` is -1.
unfoldable pub first_failing : (ℕ → Bool) → Bytes → Option ℕ
first_failing p [] = none
first_failing p (c ∷ s) =
    if p c then (elim (first_failing p s) [ none ↦ none | some i ↦ some (suc i) ]) else some 0

-- Their second loop.
unfoldable pub keep : (ℕ → Bool) → Bytes → Bytes
keep p [] = []
keep p (c ∷ s) = let rest = keep p s in if p c then c ∷ rest else rest

unfoldable pub keep_after : (ℕ → Bool) → Bytes → Option ℕ → Bytes
unfolding keep
keep_after p src none = src
keep_after p src (some i) = take i src ++ keep p (drop i src)

-- `filterBase64`
unfoldable pub filter_base64 : Bytes → Bytes
filter_base64 src = keep_after is_base64_byte src (first_failing is_base64_byte src)

abbrev pub is_ascii_byte : ℕ → Bool
is_ascii_byte c = ltb c 0x80

-- `asciiIgnore`
unfoldable pub ascii_ignore : Bytes → Bytes
ascii_ignore b = keep_after is_ascii_byte b (first_failing is_ascii_byte b)

-- `r == utf8.RuneError && size == 1`
abbrev pub is_bad : Rune → Bool
is_bad r = r.value == rune_error && length r.raw == 1

-- The loop of `utf8Ignore`.
unfoldable pub encode_good : List Rune → Bytes
encode_good [] = []
encode_good (r ∷ rs) =
    let rest = encode_good rs in if is_bad r then rest else encode_rune r.value ++ rest

-- `utf8Ignore`
unfoldable pub utf8_ignore : Bytes → Bytes
utf8_ignore b = if valid_utf8 b then b else encode_good (runes b)

-- U+FFFD in UTF-8.
abbrev pub replacement : Bytes
replacement = 0xef ∷ 0xbf ∷ 0xbd ∷ []

-- A decoder of x/net's charset tables, if there is one of that name: `enc.NewDecoder().Bytes`, with
-- `none` for its error.
abbrev pub Charsets : Type 0
Charsets = Bytes → Option (Bytes → Option Bytes)

unfoldable pub decode_by : Option (Bytes → Option Bytes) → Bytes → Bytes
decode_by none b = ascii_ignore b
decode_by (some decode) b = elim (decode b) [
  | none ↦ ascii_ignore b
  | some dec ↦ remove_all replacement dec
]

unfoldable pub is_ascii_name : Bytes → Bool
is_ascii_name cs =
    bytes_eq cs []
    || bytes_eq cs (codes "ascii")
    || bytes_eq cs (codes "us-ascii")
    || bytes_eq cs (codes "ansi_x3.4-1968")

unfoldable pub is_utf8_name : Bytes → Bool
is_utf8_name cs =
    bytes_eq cs (codes "utf-8") || bytes_eq cs (codes "utf8") || bytes_eq cs (codes "utf_8")

-- `decodeCharset`
unfoldable pub decode_charset : (ℕ → ℕ) → Charsets → Bytes → Bytes → Bytes
unfolding is_ascii_name is_utf8_name decode_by
decode_charset lower charsets b cs0 =
    let cs = to_lower lower (trim_space cs0) in
    if is_ascii_name cs
    then ascii_ignore b
    else if is_utf8_name cs
    then utf8_ignore b
    else decode_by (charsets cs) b

-- The `base64` branch of `decodeCTE`.
unfoldable pub base64_or_raw : Bytes → Option Bytes → Bytes
base64_or_raw body none = body
base64_or_raw body (some dec) = dec

-- `decodeCTE`; `unquote` is what reading all of a quoted-printable reader gives.
unfoldable pub decode_cte : (ℕ → ℕ) → (Bytes → Bytes) → Bytes → Bytes → Bytes
unfolding base64_or_raw
decode_cte lower unquote body cte0 =
    let cte = to_lower lower (trim_space cte0) in
    if bytes_eq cte (codes "base64")
    then base64_or_raw body (decode64 (filter_base64 body))
    else if bytes_eq cte (codes "quoted-printable")
    then unquote body
    else body
