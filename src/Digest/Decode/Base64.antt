-- ===== src/Digest/Decode/Base64.antt =====
-- The base64 encoding of a byte string, and its decoding.
use gyzor.Prelude.{
  ℕ, ◌+◌, ◌-◌, ◌*◌, ◌/◌, ◌%◌, ◌≤◌, ◌<◌, ◌≡◌, refl, sym, ap, ap₂, ◌∙◌, false, ◌||◌, [], ◌∷◌, ◌++◌,
  append-nil, none, some, Bytes, AllBytes, All, arith, ltb, ◌==◌, if◌then◌else◌,
}
use gyzor.Go.Base64.{value64, last64, quantum64, quanta64, skip_breaks}

-- RFC 4648, section 4.
unfoldable pub char64 : ℕ → ℕ
char64 v =
    if ltb v 26
    then b'A' + v
    else if ltb v 52
    then b'a' + (v - 26)
    else if ltb v 62
    then b'0' + (v - 52)
    else if v == 62
    then b'+'
    else b'/'

unfoldable pub encode64 : Bytes → Bytes
unfolding char64
encode64 [] = []
encode64 (x ∷ []) = char64 (x / 4) ∷ char64 (x % 4 * 16) ∷ b'=' ∷ b'=' ∷ []
encode64 (x ∷ y ∷ []) =
    char64 (x / 4) ∷ char64 (x % 4 * 16 + y / 16) ∷ char64 (y % 16 * 4) ∷ b'=' ∷ []
encode64 (x ∷ y ∷ z ∷ s) =
    char64 (x / 4)
    ∷ char64 (x % 4 * 16 + y / 16)
    ∷ char64 (y % 16 * 4 + z / 64)
    ∷ char64 (z % 64)
    ∷ encode64 s

value-char : (v : ℕ) → v < 64 → value64 (char64 v) ≡ some v
unfolding value64 char64
value-char v h = ground arith

no_value : value64 b'=' ≡ none
unfolding value64
no_value = refl

char-ne-pad : (v : ℕ) → v < 64 → (char64 v == b'=') ≡ false
unfolding char64
char-ne-pad v h = ground arith

quantum-chars :
    (x y z w : ℕ)
    → x < 64
    → y < 64
    → z < 64
    → w < 64
    → quantum64 (char64 x) (char64 y) (char64 z) (char64 w)
      ≡ some ((x * 4 + y / 16) ∷ (y % 16 * 16 + z / 4) ∷ (z % 4 * 64 + w) ∷ [])
unfolding quantum64
quantum-chars x y z w hx hy hz hw =
    rw (value-char x hx, value-char y hy, value-char z hz, value-char w hw, quantum64)

quanta-suc :
    (a b c d : ℕ) (rest q xs : Bytes)
    → quantum64 a b c d ≡ some q
    → quanta64 rest ≡ some xs
    → quanta64 (a ∷ b ∷ c ∷ d ∷ rest) ≡ some (q ++ xs)
unfolding quanta64
quanta-suc a b c d [] q xs e es =
    let n : [] ≡ xs = cc in rw e (rw (← n) (ap some (sym (append-nil q))))
quanta-suc a b c d (r ∷ rest) q xs e es = rw (e, es)

-- One byte, and two, in front of the padding.
last-one :
    (x y : ℕ)
    → x < 64
    → y < 64
    → quanta64 (char64 x ∷ char64 y ∷ b'=' ∷ b'=' ∷ []) ≡ some ((x * 4 + y / 16) ∷ [])
unfolding quanta64 quantum64 last64
last-one x y hx hy = rw (value-char x hx, value-char y hy, no_value, quantum64, last64)

last-two :
    (x y z : ℕ)
    → x < 64
    → y < 64
    → z < 64
    → quanta64 (char64 x ∷ char64 y ∷ char64 z ∷ b'=' ∷ [])
      ≡ some ((x * 4 + y / 16) ∷ (y % 16 * 16 + z / 4) ∷ [])
unfolding quanta64 quantum64 last64
last-two x y z hx hy hz = rw (
  value-char x hx,
  value-char y hy,
  value-char z hz,
  no_value,
  char-ne-pad z hz,
  quantum64,
  last64,
)

abbrev IsPrinted : ℕ → Type 0
IsPrinted c = (c == b'\n' || c == b'\r') ≡ false

char-IsPrinted : (v : ℕ) → v < 64 → IsPrinted (char64 v)
unfolding char64
char-IsPrinted v h = ground arith

pub encode-IsPrinted : (s : Bytes) → AllBytes s → All IsPrinted (encode64 s)
unfolding encode64
encode-IsPrinted [] h = tt
encode-IsPrinted (x ∷ []) (hx, h) = (
  char-IsPrinted (x / 4) (omega arith),
  (char-IsPrinted (x % 4 * 16) (omega arith), (refl, (refl, tt))),
)
encode-IsPrinted (x ∷ y ∷ []) (hx, (hy, h)) = (
  char-IsPrinted (x / 4) (omega arith),
  (
    char-IsPrinted (x % 4 * 16 + y / 16) (omega arith),
    (char-IsPrinted (y % 16 * 4) (omega arith), (refl, tt)),
  ),
)
encode-IsPrinted (x ∷ y ∷ z ∷ s) (hx, (hy, (hz, h))) = (
  char-IsPrinted (x / 4) (omega arith),
  (
    char-IsPrinted (x % 4 * 16 + y / 16) (omega arith),
    (
      char-IsPrinted (y % 16 * 4 + z / 64) (omega arith),
      (char-IsPrinted (z % 64) (omega arith), encode-IsPrinted s h),
    ),
  ),
)

pub skip-IsPrinted : (s : Bytes) → All IsPrinted s → skip_breaks s ≡ s
unfolding skip_breaks
skip-IsPrinted [] h = refl
skip-IsPrinted (c ∷ s) (hc, h) = rw (hc, skip-IsPrinted s h)

quanta_nil : quanta64 [] ≡ some []
unfolding quanta64
quanta_nil = refl

three_bytes :
    (x y z : ℕ)
    → x ≤ 255
    → y ≤ 255
    → z ≤ 255
    → some (
        (x / 4 * 4 + (x % 4 * 16 + y / 16) / 16)
        ∷ ((x % 4 * 16 + y / 16) % 16 * 16 + (y % 16 * 4 + z / 64) / 4)
        ∷ ((y % 16 * 4 + z / 64) % 4 * 64 + z % 64)
        ∷ [])
      ≡ some (x ∷ y ∷ z ∷ [])
three_bytes x y z hx hy hz = ground arith

pub quanta-encode : (s : Bytes) → AllBytes s → quanta64 (encode64 s) ≡ some s
unfolding encode64
quanta-encode [] h = quanta_nil
quanta-encode (x ∷ []) (hx, h) =
    last-one (x / 4) (x % 4 * 16) (omega arith) (omega arith)
    ∙ ap (λ b. some (b ∷ [])) (omega arith)
quanta-encode (x ∷ y ∷ []) (hx, (hy, h)) =
    last-two (x / 4) (x % 4 * 16 + y / 16) (y % 16 * 4) (omega arith) (omega arith) (omega arith)
    ∙ ap₂ (λ b c. some (b ∷ c ∷ [])) (omega arith) (omega arith)
quanta-encode (x ∷ y ∷ z ∷ s) (hx, (hy, (hz, h))) =
    quanta-suc (char64 (x / 4)) (char64 (x % 4 * 16 + y / 16)) (char64 (y % 16 * 4 + z / 64))
      (char64 (z % 64)) (encode64 s) (x ∷ y ∷ z ∷ []) s
      (quantum-chars (x / 4) (x % 4 * 16 + y / 16) (y % 16 * 4 + z / 64) (z % 64) (omega arith)
          (omega arith) (omega arith) (omega arith)
        ∙ three_bytes x y z (omega arith) (omega arith) (omega arith))
      (quanta-encode s h)
