-- ===== src/Client/Fanout/Family.antt =====
-- Values that are indexed by goroutine: a write at one index, and sums over the first ones.
use gyzor.Prelude.{
  ℕ, zero, suc, ◌+◌, ◌*◌, ◌≤◌, ◌<◌, ◌≡◌, refl, ap, ◌∙◌, fun_ext, ◌==◌, if◌then◌else◌, arith,
  Bool-cases, inl, inr,
}

abbrev pub update {ℓ} : {A : Type ℓ} → (ℕ → A) → ℕ → A → ℕ → A
update f i a j = if i == j then a else f j

swap_ends : (x y z : ℕ) → x + y + z ≡ z + y + x
swap_ends x y z = omega arith

module _ {ℓ} {A : Type ℓ} (weight : A → ℕ) where
  update-first : (f : ℕ → A) (a : A) → ◌≡◌ {A = ℕ → A} (λ j. update f 0 a (suc j)) (λ j. f (suc j))
  update-first f a = fun_ext (λ j. ground arith)

  update-later :
      (f : ℕ → A) (i : ℕ) (a : A)
      → ◌≡◌ {A = ℕ → A} (λ j. update f (suc i) a (suc j)) (update (λ j. f (suc j)) i a)
  update-later f i a = fun_ext (λ j. ground arith)

  unfoldable pub total : ℕ → (ℕ → A) → ℕ
  total zero f = 0
  total (suc n) f = weight (f 0) + total n (λ j. f (suc j))

  pub total-update :
      (n : ℕ) (f : ℕ → A) (i : ℕ) (a : A)
      → i < n
      → total n (update f i a) + weight (f i) ≡ total n f + weight a
  unfolding total
  total-update zero f i a h = elim h [ ]
  total-update (suc n) f zero a h =
      ap (λ g. weight a + total n g + weight (f 0)) (update-first f a)
      ∙ swap_ends (weight a) (total n (λ j. f (suc j))) (weight (f 0))
  total-update (suc n) f (suc i) a h =
      let e = ap (total n) (update-later f i a) in
      let kept : update f (suc i) a 0 ≡ f 0 = ground arith in
      omega (arith, e, ap weight kept, total-update n (λ j. f (suc j)) i a (omega arith))

  pub weight-le-total : (n : ℕ) (f : ℕ → A) (i : ℕ) → i < n → weight (f i) ≤ total n f
  unfolding total
  weight-le-total zero f i h = elim h [ ]
  weight-le-total (suc n) f zero h = omega arith
  weight-le-total (suc n) f (suc i) h =
      omega (arith, weight-le-total n (λ j. f (suc j)) i (omega arith))

  pub total-zero : (n : ℕ) (f : ℕ → A) → ((i : ℕ) → i < n → weight (f i) ≡ 0) → total n f ≡ 0
  unfolding total
  total-zero zero f h = refl
  total-zero (suc n) f h =
      omega
        (arith, h 0 (omega arith), total-zero n (λ j. f (suc j)) (λ i lt. h (suc i) (omega arith)))

  -- A sum that is not zero has a part that is not zero.
  pub total-pos : (n : ℕ) (f : ℕ → A) → 0 < total n f → (i : ℕ) × (i < n) × (0 < weight (f i))
  unfolding total
  total-pos zero f h = elim h [ ]
  total-pos (suc n) f h = elim (Bool-cases (weight (f 0) == 0)) [
    | inl none ↦
        let (i, lt, pos) = total-pos n (λ j. f (suc j)) (ground arith) in (suc i, omega arith, pos)
    | inr some ↦ (0, omega arith, ground arith)
  ]

  pub total-each : (n : ℕ) (a : A) → total n (λ i. a) ≡ weight a * n
  unfolding total
  total-each zero a = omega arith
  total-each (suc n) a = grind (arith, total-each n a)

  pub total-constant : (n : ℕ) (a : A) → weight a ≡ 0 → total n (λ i. a) ≡ 0
  total-constant n a h = total-zero n (λ i. a) (λ i lt. h)
