-- ===== src/Message/Response.antt =====
-- pyzor/message.go: replies, their parser and the checks on them.
use gyzor.Prelude.{
  ℕ, suc, Bool, not, ◌&&◌, List, [], ◌∷◌, Option, none, some, Bytes, codes, take, drop,
  if◌then◌else◌,
}
use gyzor.Prelude.Int.{ℤ, pos, ltb_ℤ, eqb_ℤ}
use gyzor.Go.Maps.{lookup, insert}
use gyzor.Go.Numbers.{Parsed, atoi}
use gyzor.Go.Strings.{is_cr, split, trim_right, index_byte, trim_space}
use gyzor.Message.Request.{thread_ok_min}

-- The `fields` of a `response`.
abbrev pub Response : Type 0
Response = List (Bytes × Bytes)

-- The assignment for a line with a colon at `i`, if it has one.
unfoldable pub add_field : Bytes → Option ℕ → Response → Response
add_field line none fields = fields
add_field line (some i) fields =
    insert (trim_space (take i line)) (trim_space (drop (suc i) line)) fields

-- One round of the loop of `parseResponse`, behind `TrimRight`. An empty line has no colon, so its
-- own `continue` is the second one.
unfoldable pub parse_line : Bytes → Response → Response
unfolding add_field
parse_line [] fields = fields
parse_line (c ∷ line) fields = add_field (c ∷ line) (index_byte (c ∷ line) b':') fields

unfoldable pub parse_lines : List Bytes → Response → Response
parse_lines [] fields = fields
parse_lines (line ∷ rest) fields = parse_lines rest (parse_line (trim_right is_cr line) fields)

-- `parseResponse`
unfoldable pub parse_response : Bytes → Response
parse_response packet = parse_lines (split packet b'\n') []

-- `r.fields[key]`: a missing key gives the empty string.
unfoldable pub field : Bytes → Response → Bytes
field key r = elim (lookup key r) [ none ↦ [] | some v ↦ v ]

-- `code`: the error of `Atoi` is dropped.
unfoldable pub code : Response → ℤ
unfolding field
code r = (atoi (field (codes "Code") r)).value

-- `isOK`
unfoldable pub is_ok : Response → Bool
unfolding code
is_ok r = eqb_ℤ (code r) (pos 200)

-- `intField`
unfoldable pub int_field : Bytes → Response → ℤ
unfolding field
int_field key r = (atoi (field key r)).value

-- The errors of `validate` and `requireCounts`.
pub data Invalid : Type 0 where
  missing : Bytes → Invalid
  invalid_number : Bytes → Bytes → Invalid
  unexpected_thread : ℤ → ℤ → Invalid

-- An early return on an error, and what follows it.
unfoldable pub first_error : Option Invalid → Option Invalid → Option Invalid
first_error (some e) later = some e
first_error none later = later

-- The loop over the required keys; `none` is success.
unfoldable pub require_keys : List Bytes → Response → Option Invalid
require_keys [] r = none
require_keys (k ∷ ks) r = elim (lookup k r) [
  | none ↦ some (Invalid.missing k)
  | some v ↦ require_keys ks r
]

abbrev pub required_keys : List Bytes
required_keys = codes "Code" ∷ codes "Diag" ∷ codes "PV" ∷ codes "Thread" ∷ []

-- The check of the thread, on what `Atoi` gives for it.
unfoldable pub check_thread : ℤ → Bytes → Parsed → Option Invalid
check_thread expected text p = elim (p.failed) [
  | some e ↦ some (Invalid.invalid_number (codes "Thread") text)
  | none ↦
      if not (ltb_ℤ p.value (pos thread_ok_min)) && not (eqb_ℤ p.value expected)
      then some (Invalid.unexpected_thread p.value expected)
      else none
]

-- `validate`
unfoldable pub validate : ℤ → Response → Option Invalid
validate expected r =
    first_error (require_keys required_keys r)
      (check_thread expected (field (codes "Thread") r) (atoi (field (codes "Thread") r)))

-- One round of `requireCounts`.
unfoldable pub require_count : Bytes → Option Bytes → Option Invalid
require_count k none = some (Invalid.missing k)
require_count k (some v) = elim ((atoi v).failed) [
  | some e ↦ some (Invalid.invalid_number k v)
  | none ↦ none
]

-- `requireCounts`
unfoldable pub require_counts : Response → Option Invalid
require_counts r =
    first_error (require_count (codes "Count") (lookup (codes "Count") r))
      (require_count (codes "WL-Count") (lookup (codes "WL-Count") r))
