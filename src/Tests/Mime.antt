-- ===== src/Tests/Mime.antt =====
-- The decoders and the walk through a message on concrete inputs.
use gyzor.Prelude.{
  ℕ, ◌≤◌, ◌++◌, replicate, ◌≡◌, ◌<◌, refl, true, List, [], ◌∷◌, Option, none, some, Bytes, All,
  bytes_eq, codes, length, arith,
}
use gyzor.Go.Base64.{quanta64, quantum64, last64, value64, skip_breaks, decode64}
use gyzor.Go.Case.{to_lower}
use gyzor.Go.Strings.{trim_space, join}
use gyzor.Go.Utf8.{runes, bytes_of, valid_utf8}
use gyzor.Digest.Decode.{
  is_base64_byte, keep_after, first_failing, filter_base64, utf8_ignore, decode_cte,
}
use gyzor.Digest.Decode.Base64.{char64, encode64}
use gyzor.Digest.Decode.Noisy.{IsNoise, Noisy, done, char, noise, decode_cte-encode64}
use gyzor.Digest.Decode.Utf8.{good, utf8_ignore-good}
use gyzor.Digest.Html.{Token, normalize_html_part, html_from}
use gyzor.Digest.Html.Reference.{Shows, normalize_html-Shows}
use gyzor.Digest.Mime.{Part, Mime, digest_payloads, compute}
use gyzor.Digest.Mime.Walk.{IsShrinking, digest_payloads-ends}
use gyzor.Digest.Select.{digest_of_payloads}

-- A byte beyond ASCII is no character of the alphabet.
high-IsNoise : (c : ℕ) → 0x80 ≤ c → IsNoise c
unfolding char64
high-IsNoise c h = (λ e. ground arith, λ v lt e. ground arith)

low-IsNoise : (c : ℕ) → c ≤ b'*' → IsNoise c
unfolding char64
low-IsNoise c h = (λ e. ground arith, λ v lt e. ground arith)

-- The encoding of `Hello>` with a line break, a blank and a byte beyond ASCII in it.
Noisy-body : Noisy (codes "SGV" ++ (0xff ∷ codes "s\r\nbG8 +")) (encode64 (codes "Hello>"))
unfolding encode64 char64
Noisy-body = char b'S' (
    char b'G' (
      char b'V' (
        noise 0xff (high-IsNoise 0xff (omega arith)) (
          char b's' (
            noise b'\r' (low-IsNoise b'\r' (omega arith)) (
              noise b'\n' (low-IsNoise b'\n' (omega arith)) (
                char b'b' (
                  char b'G' (
                    char b'8'
                      (noise b' ' (low-IsNoise b' ' (omega arith)) (char b'+' done)))))))))))

decode_cte-encode64_example :
    decode_cte
      (λ c. c)
      (λ b. b)
      (codes "SGV" ++ (0xff ∷ codes "s\r\nbG8 +"))
      (replicate 1 b' ' ++ (codes "Base64" ++ replicate 2 b' '))
    ≡ codes "Hello>"
decode_cte-encode64_example =
    decode_cte-encode64 (λ c. c) (λ b. b) (codes "Hello>")
      (codes "SGV" ++ (0xff ∷ codes "s\r\nbG8 +")) (codes "Base64") 1 2 (omega arith) Noisy-body
      (ground arith)

-- Without its padding a body is no base64, and is left as it is.
unpadded : decode_cte (λ c. c) (λ b. b) (codes "SGVsbG8") (codes "base64") ≡ codes "SGVsbG8"
unfolding decode_cte decode64 quanta64 quantum64 last64 value64 skip_breaks filter_base64
    is_base64_byte to_lower trim_space bytes_eq keep_after first_failing
unpadded = refl

abbrev broken_utf8 : Bytes
broken_utf8 = 0x61 ∷ 0xff ∷ 0xc3 ∷ 0xa9 ∷ 0xe2 ∷ 0x82 ∷ []

utf8_ignore-good_example :
    (utf8_ignore broken_utf8 ≡ bytes_of (good (runes broken_utf8)))
    × (valid_utf8 (utf8_ignore broken_utf8) ≡ true)
utf8_ignore-good_example = utf8_ignore-good broken_utf8

abbrev page : List Token
page =
    Token.start_tag (codes "p")
    ∷ Token.text (codes " Buy\n")
    ∷ Token.start_tag (codes "STYLE")
    ∷ Token.text (codes "p{}")
    ∷ Token.end_tag (codes "style")
    ∷ Token.text (codes "  ")
    ∷ Token.text (codes "now")
    ∷ []

page_text : normalize_html_part (λ c. c) (λ s. page) [] ≡ codes "Buy now"
unfolding normalize_html_part html_from to_lower trim_space bytes_eq
page_text = refl

normalize_html-Shows_example :
    (texts : List Bytes) × Shows (λ c. c) page texts
    × (normalize_html_part (λ c. c) (λ s. page) [] ≡ join texts b' ')
normalize_html-Shows_example = normalize_html-Shows (λ c. c) (λ s. page) []

-- Every message is a multipart one with one part, a byte shorter, down to the last byte.
abbrev peeled : Bytes → Option Part
peeled [] = none
peeled (c ∷ s) = some (record { ctype = codes "multipart/mixed"; cte = []; body = s })

abbrev inner_parts : Bytes → List Part
inner_parts [] = []
inner_parts (c ∷ s) = record { ctype = codes "multipart/mixed"; cte = []; body = s } ∷ []

abbrev pub peeling : Mime
peeling = record {
  read_message = peeled;
  parse_media_type = λ ctype. some (ctype, (codes "boundary", codes "b") ∷ []);
  raw_parts = λ boundary body. inner_parts body;
  unquote = λ b. b;
  tokens = λ s. [];
  charsets = λ cs. none;
  lower = λ c. c;
}

inner_shorter : (body : Bytes) → All (λ p. length p.body < length body) (inner_parts body)
inner_shorter [] = tt
inner_shorter (c ∷ s) = (omega arith, tt)

peeled_shorter : (raw : Bytes) (p : Part) → peeled raw ≡ some p → length p.body < length raw
peeled_shorter [] p e = cc
peeled_shorter (c ∷ s) p e = ground arith

peeling-IsShrinking : IsShrinking peeling
peeling-IsShrinking = record {
  part_shorter = λ boundary body. inner_shorter body;
  message_shorter = peeled_shorter;
}

digest_payloads-ends_example :
    (payloads : List Bytes) × (digest_payloads peeling 9 (codes "message") ≡ some payloads)
    × (digest_payloads peeling 20 (codes "message") ≡ some payloads)
    × (compute peeling (codes "message") ≡ some (digest_of_payloads payloads))
digest_payloads-ends_example =
    digest_payloads-ends peeling peeling-IsShrinking (codes "message") 9 20 (omega arith)
      (omega arith)
