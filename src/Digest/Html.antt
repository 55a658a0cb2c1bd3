-- ===== src/Digest/Html.antt =====
-- pyzor/digest.go: `normalizeHTMLPart`, over the tokens of x/net/html's tokenizer up to its
-- `ErrorToken`.
pub mod Reference
use gyzor.Prelude.{
  ℕ, Bool, true, false, ◌||◌, List, [], ◌∷◌, ◌++◌, Bytes, codes, bytes_eq, if◌then◌else◌,
}
use gyzor.Go.Case.{to_lower}
use gyzor.Go.Strings.{trim_space}

pub data Token : Type 0 where
  start_tag : Bytes → Token
  end_tag : Bytes → Token
  text : Bytes → Token
  other : Token

unfoldable pub is_code_tag : (ℕ → ℕ) → Bytes → Bool
is_code_tag lower name =
    let n = to_lower lower name in bytes_eq n (codes "script") || bytes_eq n (codes "style")

-- The write of a trimmed text behind `out`.
unfoldable pub write_text : Bytes → Bytes → Bytes
write_text out [] = out
write_text [] (c ∷ t) = c ∷ t
write_text (o ∷ out) (c ∷ t) = (o ∷ out) ++ (b' ' ∷ c ∷ t)

-- The loop of `normalizeHTMLPart`.
unfoldable pub html_from : (ℕ → ℕ) → Bool → Bytes → List Token → Bytes
unfolding is_code_tag write_text
html_from lower collect out [] = out
html_from lower collect out (Token.start_tag name ∷ tokens) =
    html_from lower (if is_code_tag lower name then false else collect) out tokens
html_from lower collect out (Token.end_tag name ∷ tokens) =
    html_from lower (if is_code_tag lower name then true else collect) out tokens
html_from lower collect out (Token.text t ∷ tokens) =
    html_from lower collect (if collect then write_text out (trim_space t) else out) tokens
html_from lower collect out (Token.other ∷ tokens) = html_from lower collect out tokens

unfoldable pub normalize_html_part : (ℕ → ℕ) → (Bytes → List Token) → Bytes → Bytes
normalize_html_part lower tokens s = html_from lower true [] (tokens s)
