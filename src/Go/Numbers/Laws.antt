-- ===== src/Go/Numbers/Laws.antt =====
-- `Atoi` reads back what `Itoa` writes.
use gyzor.Prelude.{
  ℕ, zero, suc, ◌+◌, ◌-◌, ◌*◌, ◌/◌, ◌%◌, ◌^◌, ◌≤◌, ◌<◌, ◌≡◌, ◌≢◌, refl, ◌∙◌, Bool, true, false, [],
  ◌∷◌, none, ◌==◌, Bool-cases, inl, inr, Bytes, All, arith,
}
use gyzor.Prelude.Int.{ℤ, pos, negsuc}
use gyzor.Go.Numbers.{
  digits_from, digits, itoa, Unsigned, scan_digits, with_sign, parse_unsigned, atoi,
}

abbrev pub IsDigit : ℕ → Type 0
IsDigit c = (b'0' ≤ c) × (c ≤ b'9')

digits_from-IsDigit :
    (fuel n : ℕ) (out : Bytes) → All IsDigit out → All IsDigit (digits_from fuel n out)
unfolding digits_from
digits_from-IsDigit zero n out h = h
digits_from-IsDigit (suc fuel) n out h =
    let h' : All IsDigit ((b'0' + n % 10) ∷ out) = ((omega arith, omega arith), h) in
    elim (Bool-cases (n / 10 == 0)) [
      | inl last ↦ rw last h'
      | inr more ↦ rw more (digits_from-IsDigit fuel (n / 10) ((b'0' + n % 10) ∷ out) h')
    ]

pub digits-IsDigit : (n : ℕ) → All IsDigit (digits n)
unfolding digits
digits-IsDigit n = digits_from-IsDigit (suc n) n [] tt

scan_last :
    (n : ℕ) (out : Bytes)
    → n < 2 ^ 64
    → scan_digits ((b'0' + n % 10) ∷ out) (n / 10) ≡ scan_digits out n
unfolding scan_digits
scan_last n out h =
    let e : n / 10 * 10 + (b'0' + n % 10 - b'0') ≡ n = omega arith in rw e (ground arith)

scan-digits_from :
    (fuel n : ℕ) (out : Bytes)
    → n < fuel
    → n < 2 ^ 64
    → scan_digits (digits_from fuel n out) 0 ≡ scan_digits out n
unfolding digits_from
scan-digits_from zero n out lt h = absurd (omega arith)
scan-digits_from (suc fuel) n out lt h = elim (Bool-cases (n / 10 == 0)) [
  | inl last ↦ let z : n / 10 ≡ 0 = ground arith in rw last (rw z at (scan_last n out h))
  | inr more ↦ rw more (
      scan-digits_from fuel (n / 10) ((b'0' + n % 10) ∷ out) (ground arith) (omega arith)
      ∙ scan_last n out h)
]

scan-digits : (n : ℕ) → n < 2 ^ 64 → scan_digits (digits n) 0 ≡ Unsigned.number n
unfolding digits scan_digits
scan-digits n h = scan-digits_from (suc n) n [] (omega arith) h

digits_from-ne-nil : (fuel n : ℕ) (out : Bytes) → out ≢ [] → digits_from fuel n out ≢ []
unfolding digits_from
digits_from-ne-nil zero n out h = h
digits_from-ne-nil (suc fuel) n out h = elim (Bool-cases (n / 10 == 0)) [
  | inl last ↦ rw last (λ e. cc)
  | inr more ↦ rw more (digits_from-ne-nil fuel (n / 10) ((b'0' + n % 10) ∷ out) (λ e. cc))
]

pub digits-ne-nil : (n : ℕ) → digits n ≢ []
unfolding digits digits_from
digits-ne-nil n = elim (Bool-cases (n / 10 == 0)) [
  | inl last ↦ rw last (λ e. cc)
  | inr more ↦ rw more (digits_from-ne-nil n (n / 10) ((b'0' + n % 10) ∷ []) (λ e. cc))
]

parse_unsigned-scan :
    (neg : Bool) (t : Bytes) → t ≢ [] → parse_unsigned neg t ≡ with_sign neg (scan_digits t 0)
unfolding parse_unsigned
parse_unsigned-scan neg [] h = absurd (h refl)
parse_unsigned-scan neg (c ∷ t) h = refl

atoi_unsigned : (t : Bytes) → All IsDigit t → t ≢ [] → atoi t ≡ parse_unsigned false t
unfolding atoi
atoi_unsigned [] h ne = absurd (ne refl)
atoi_unsigned (c ∷ t) ((lo, hi), h) ne = ground arith

atoi_negative : (t : Bytes) → atoi (b'-' ∷ t) ≡ parse_unsigned true t
unfolding atoi
atoi_negative t = refl

-- The values of `int`.
abbrev pub InRange : ℤ → Type 0
InRange (pos n) = n < 2 ^ 63
InRange (negsuc n) = suc n ≤ 2 ^ 63

-- `Atoi` reads every `int` back from its decimal print, with no error.
pub atoi-itoa : (z : ℤ) → InRange z → atoi (itoa z) ≡ record { value = z; failed = none }
unfolding itoa
atoi-itoa (pos n) h =
    atoi_unsigned (digits n) (digits-IsDigit n) (digits-ne-nil n)
    ∙ parse_unsigned-scan false (digits n) (digits-ne-nil n)
    ∙ rw (scan-digits n (omega arith)) (unfold with_sign in ground arith)
atoi-itoa (negsuc n) h =
    atoi_negative (digits (suc n))
    ∙ parse_unsigned-scan true (digits (suc n)) (digits-ne-nil (suc n))
    ∙ rw (scan-digits (suc n) (omega arith)) (unfold with_sign in ground arith)
