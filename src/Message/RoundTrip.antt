-- ===== src/Message/RoundTrip.antt =====
-- A serialised request, read by the parser of replies: what the other end finds in it.
use gyzor.Prelude.{
  ℕ, ◌≡◌, ◌≢◌, refl, sym, ap, ◌∙◌, false, List, [], ◌∷◌, ◌++◌, append_assoc, Bytes, All, All-append,
  Lacks, take-length, drop-suc, arith,
}
use gyzor.Go.Maps.{insert}
use gyzor.Go.Strings.{is_cr, index_byte, split, trim_right, trim_space}
use gyzor.Go.Strings.Laws.{split_at_sep, trim_right_id, index_byte-append, trim_space_blank}
use gyzor.Message.Request.{Header, header_line, header_string}
use gyzor.Message.Response.{Response, add_field, parse_line, parse_lines, parse_response}

-- A value that the wire keeps: on one line, and with no white space around it.
pub record IsValue (v : Bytes) : Type 0 where
  pub no_lf : Lacks b'\n' v
  pub no_cr : Lacks b'\r' v
  pub trimmed : trim_space v ≡ v

pub record IsClean (h : Header) : Type 0 where
  pub key_value : IsValue h.key
  pub no_colon : Lacks b':' h.key
  pub val_value : IsValue h.val

-- The fields that the headers set.
unfoldable pub set_all : List Header → Response → Response
set_all [] fields = fields
set_all (h ∷ hs) fields = set_all hs (insert h.key h.val fields)

parse_line-add_field :
    (line : Bytes) (fields : Response)
    → line ≢ []
    → parse_line line fields ≡ add_field line (index_byte line b':') fields
unfolding parse_line
parse_line-add_field [] fields h = absurd (h refl)
parse_line-add_field (c ∷ line) fields h = refl

Lacks-cr : (s : Bytes) → Lacks b'\r' s → All (λ c. is_cr c ≡ false) s
unfolding is_cr
Lacks-cr [] h = tt
Lacks-cr (c ∷ s) (hc, h) = (ground arith, Lacks-cr s h)

header_line-Lacks :
    (c : ℕ) (h : Header)
    → c ≢ b':'
    → c ≢ b' '
    → Lacks c h.key
    → Lacks c h.val
    → Lacks c (header_line h)
header_line-Lacks c h colon blank k v =
    All-append _ h.key _ k ((λ e. colon (sym e)), ((λ e. blank (sym e)), v))

append-ne-nil : (k rest : Bytes) (c : ℕ) → k ++ (c ∷ rest) ≢ []
append-ne-nil [] rest c e = cc
append-ne-nil (b ∷ k) rest c e = cc

-- One line sets one field.
parse-header_line :
    (h : Header) (fields : Response)
    → IsClean h
    → parse_line (trim_right is_cr (header_line h)) fields ≡ insert h.key h.val fields
unfolding add_field
parse-header_line h fields clean =
    let kept = trim_right_id is_cr (header_line h) (
      Lacks-cr (header_line h) (
        header_line-Lacks b'\r' h (omega arith) (omega arith) clean.key_value.no_cr
          clean.val_value.no_cr)) in
    rw (
      kept,
      parse_line-add_field (header_line h) fields (append-ne-nil h.key _ b':'),
      index_byte-append h.key (b' ' ∷ h.val) b':' clean.no_colon,
      take-length h.key (b':' ∷ b' ' ∷ h.val),
      drop-suc h.key (b' ' ∷ h.val) b':',
      trim_space_blank,
      clean.key_value.trimmed,
      clean.val_value.trimmed,
    )

parse_one :
    (h : Header) (rest : Bytes) (fields : Response)
    → IsClean h
    → parse_lines (split (header_line h ++ (b'\n' ∷ rest)) b'\n') fields
      ≡ parse_lines (split rest b'\n') (insert h.key h.val fields)
unfolding parse_lines
parse_one h rest fields clean =
    let whole =
      header_line-Lacks b'\n' h (omega arith) (omega arith) clean.key_value.no_lf
        clean.val_value.no_lf in
    rw (split_at_sep (header_line h) rest b'\n' whole)
      (ap (parse_lines (split rest b'\n')) (parse-header_line h fields clean))

blank_end :
    (fields : Response)
    → (parse_lines (split (b'\n' ∷ []) b'\n') fields ≡ fields)
      × (parse_lines (split (b'\n' ∷ b'\n' ∷ []) b'\n') fields ≡ fields)
unfolding split trim_right parse_line parse_lines
blank_end fields = (refl, refl)

-- Reading what `serialize` writes for these headers sets just the fields that they name.
parse-header_string :
    (hs : List Header) (fields : Response)
    → All IsClean hs
    → parse_lines (split (header_string hs ++ (b'\n' ∷ b'\n' ∷ [])) b'\n') fields
      ≡ set_all hs fields
unfolding header_string set_all
parse-header_string [] fields h = (blank_end fields).1
parse-header_string (h ∷ []) fields (c, cs) =
    parse_one h (b'\n' ∷ []) fields c ∙ (blank_end (insert h.key h.val fields)).0
parse-header_string (h ∷ g ∷ hs) fields (c, cs) =
    rw append_assoc
      (parse_one h _ fields c ∙ parse-header_string (g ∷ hs) (insert h.key h.val fields) cs)

pub parse_response-header_string :
    (hs : List Header)
    → All IsClean hs
    → parse_response (header_string hs ++ (b'\n' ∷ b'\n' ∷ [])) ≡ set_all hs []
unfolding parse_response
parse_response-header_string hs = parse-header_string hs []
