-- ===== src/Digest/Mime.antt =====
-- pyzor/digest.go: `digestPayloads`, `walkPart` and `Compute`, over what net/mail, mime,
-- mime/multipart, mime/quotedprintable, x/net/html and x/net/html/charset give.
pub mod Walk
use gyzor.Prelude.{
  ℕ, zero, suc, Bool, true, false, ◌&&◌, ◌||◌, List, [], ◌∷◌, ◌++◌, Option, none, some, Bytes,
  bytes_eq, codes, take, drop, length, ltb, ◌==◌, if◌then◌else◌,
}
use gyzor.Go.Maps.{lookup}
use gyzor.Go.Strings.{index_byte}
use gyzor.Digest.Decode.{Charsets, decode_cte, decode_charset}
use gyzor.Digest.Html.{Token, normalize_html_part}
use gyzor.Digest.Select.{digest_of_payloads}

-- A part with its `Content-Type`, its `Content-Transfer-Encoding` and its body as it is read.
pub record Part : Type 0 where
  pub ctype : Bytes
  pub cte : Bytes
  pub body : Bytes

pub record Mime : Type 0 where
  -- `mail.ReadMessage`; `none` is its error
  pub read_message : Bytes → Option Part
  -- `mime.ParseMediaType`; `none` is its error
  pub parse_media_type : Bytes → Option (Bytes × List (Bytes × Bytes))
  -- what `NextRawPart` of a reader with this boundary gives of a body, up to its first error
  pub raw_parts : Bytes → Bytes → List Part
  -- all of a quoted-printable reader
  pub unquote : Bytes → Bytes
  -- the tokens of a page, up to the `ErrorToken`
  pub tokens : Bytes → List Token
  pub charsets : Charsets
  -- `unicode.ToLower`
  pub lower : ℕ → ℕ

-- `readAllHint` of a reader that holds `b`.
unfoldable pub read_all_hint : Bytes → ℕ → Bytes
read_all_hint b hint =
    if hint == 0
    then b
    else if ltb (length b) hint
    then take (length b) b
    else take hint b ++ drop hint b

-- `splitMediaType`
unfoldable pub split_at : Bytes → Option ℕ → Bytes × Bytes
split_at mt none = (mt, [])
split_at mt (some i) = (take i mt, drop (suc i) mt)

unfoldable pub split_media_type : Bytes → Bytes × Bytes
unfolding split_at
split_media_type mt = split_at mt (index_byte mt b'/')

-- `params[key]`
unfoldable pub param : Bytes → List (Bytes × Bytes) → Bytes
param key params = elim (lookup key params) [ none ↦ [] | some v ↦ v ]

unfoldable pub or_plain : Option (Bytes × List (Bytes × Bytes)) → Bytes × List (Bytes × Bytes)
or_plain none = (codes "text/plain", [])
or_plain (some media) = media

-- What a part is: payloads of its own, or parts to walk through.
pub data Shape : Type 0 where
  leaf : List Bytes → Shape
  nested : List Part → Shape

module _ (m : Mime) where
  unfoldable pub media_of : Bytes → Bytes × List (Bytes × Bytes)
  media_of ctype = or_plain (if bytes_eq ctype [] then none else m.parse_media_type ctype)

  -- `digestPayloads` of a message, before the walk.
  unfoldable pub message_shape : Bytes → Option Part → Shape
  message_shape raw none = Shape.leaf (raw ∷ [])
  message_shape raw (some p) =
      Shape.nested (record p { body = read_all_hint p.body (length raw) } ∷ [])

  -- A text part.
  unfoldable pub text_payload : Part → Bytes → List (Bytes × Bytes) → Bytes
  text_payload p subtype params =
      let text =
        decode_charset m.lower m.charsets (decode_cte m.lower m.unquote p.body p.cte)
          (param (codes "charset") params) in
      if bytes_eq subtype (codes "html") then normalize_html_part m.lower m.tokens text else text

  -- The branches of `walkPart`.
  unfoldable pub shape_of : Part → Bytes × Bytes → List (Bytes × Bytes) → Shape
  shape_of p (maintype, subtype) params =
      let boundary = param (codes "boundary") params in
      if bytes_eq maintype (codes "multipart")
      then (if bytes_eq boundary []
          then Shape.leaf (p.body ∷ [])
          else Shape.nested (m.raw_parts boundary p.body))
      else if bytes_eq maintype (codes "message") && bytes_eq subtype (codes "rfc822")
      then message_shape p.body (m.read_message p.body)
      else if bytes_eq maintype (codes "text")
      then Shape.leaf (text_payload p subtype params ∷ [])
      else Shape.leaf (p.body ∷ [])

  unfoldable pub shape : Part → Shape
  shape p = let (media, params) = media_of p.ctype in shape_of p (split_media_type media) params

-- The payloads of a list of parts, one after another.
unfoldable pub walk_all : (Part → Option (List Bytes)) → List Part → Option (List Bytes)
walk_all walk [] = some []
walk_all walk (p ∷ ps) = elim (walk p) [
  | none ↦ none
  | some xs ↦ elim (walk_all walk ps) [ none ↦ none | some ys ↦ some (xs ++ ys) ]
]

unfoldable pub walk_shape : (Part → Option (List Bytes)) → Shape → Option (List Bytes)
walk_shape walk (Shape.leaf payloads) = some payloads
walk_shape walk (Shape.nested parts) = walk_all walk parts

unfoldable pub digest_of : Option (List Bytes) → Option Bytes
digest_of none = none
digest_of (some payloads) = some (digest_of_payloads payloads)

module _ (m : Mime) where
  -- `walkPart`, with fuel for the nesting; `none` means that it ran out.
  unfoldable pub walk_part : ℕ → Part → Option (List Bytes)
  unfolding walk_shape walk_all
  walk_part zero p = none
  walk_part (suc fuel) p = walk_shape (walk_part fuel) (shape m p)

  -- `digestPayloads`
  unfoldable pub digest_payloads : ℕ → Bytes → Option (List Bytes)
  digest_payloads fuel raw = walk_shape (walk_part fuel) (message_shape m raw (m.read_message raw))

  -- `Compute`, with enough fuel for each part to be shorter than what it stands in.
  unfoldable pub compute : Bytes → Option Bytes
  compute raw = digest_of (digest_payloads (suc (length raw)) raw)
