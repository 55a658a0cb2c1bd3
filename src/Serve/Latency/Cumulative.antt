-- ===== src/Serve/Latency/Cumulative.antt =====
-- The buckets of the histogram are cumulative.
use gyzor.Prelude.{
  ℕ, ◌+◌, ◌^◌, ◌<◌, ◌≤◌, ◌≡◌, refl, ap, ap₂, ◌∙◌, true, List, [], ◌∷◌, ◌++◌, map, length, arith,
  if◌then◌else◌,
}
use gyzor.Serve.Handlers.{inc}
use gyzor.Serve.Latency.{Floats, Histogram, bounds, new_histogram, count_buckets, observe}

-- Each number is at most the next.
abbrev pub Ascends : List ℕ → Type 0
Ascends [] = Unit
Ascends (n ∷ []) = Unit
Ascends (n ∷ m ∷ ns) = (n ≤ m) × Ascends (m ∷ ns)

module _ {F : Type 0} (fl : Floats F) where
  -- How many of the observations are at most a bound.
  pub at_most : F → List F → ℕ
  at_most b [] = 0
  at_most b (x ∷ xs) = (if fl.le x b then 1 else 0) + at_most b xs

  -- The histogram after the observations, the last of which is the first of the list.
  unfoldable pub observe_all : List F → Histogram F
  observe_all [] = new_histogram fl
  observe_all (x ∷ xs) = observe fl x (observe_all xs)

  at_most-le : (b : F) (xs : List F) → at_most b xs ≤ length xs
  unfolding at_most
  at_most-le b [] = omega arith
  at_most-le b (x ∷ xs) = ground (arith, at_most-le b xs)

  inc_small : (n : ℕ) → n + 1 < 2 ^ 64 → inc n ≡ n + 1
  unfolding inc
  inc_small n h = omega arith

  count_buckets-at_most :
      (x : F) (bs : List F) (xs : List F)
      → length xs + 1 < 2 ^ 64
      → count_buckets fl x bs (map (λ b. at_most b xs) bs) ≡ map (λ b. at_most b (x ∷ xs)) bs
  unfolding count_buckets at_most
  count_buckets-at_most x [] xs h = refl
  count_buckets-at_most x (b ∷ bs) xs h =
      ap₂ ◌∷◌ (ground (arith, at_most-le b xs, inc_small (at_most b xs)))
        (count_buckets-at_most x bs xs h)

  counts_lem :
      (xs : List F)
      → length xs < 2 ^ 64
      → ((observe_all xs).counts ≡ map (λ b. at_most b xs) (bounds fl))
        × ((observe_all xs).count ≡ length xs)
  unfolding observe_all observe new_histogram
  counts_lem [] h = (unfold bounds at_most in refl, refl)
  counts_lem (x ∷ xs) h =
      let (counts, count) = counts_lem xs (omega arith) in
      (
        ap (count_buckets fl x (bounds fl)) counts
            ∙ count_buckets-at_most x (bounds fl) xs (omega arith),
        ap inc count ∙ inc_small (length xs) (omega arith) ∙ omega arith,
      )

  at_most_mono :
      (a b : F) (xs : List F)
      → ((x : F) → fl.le x a ≡ true → fl.le x b ≡ true)
      → at_most a xs ≤ at_most b xs
  unfolding at_most
  at_most_mono a b [] h = omega arith
  at_most_mono a b (x ∷ xs) h = ground (arith, h x, at_most_mono a b xs h)

  -- Each bound is at most the next.
  abbrev pub IsAscending : List F → Type 0
  IsAscending [] = Unit
  IsAscending (b ∷ []) = Unit
  IsAscending (b ∷ c ∷ bs) = (fl.le b c ≡ true) × IsAscending (c ∷ bs)

  -- `<=` on floating-point numbers is transitive.
  abbrev pub IsTransitive : Type 0
  IsTransitive = (x a b : F) → fl.le x a ≡ true → fl.le a b ≡ true → fl.le x b ≡ true

  at_most-Ascends :
      (bs : List F) (xs : List F)
      → IsTransitive
      → IsAscending bs
      → Ascends (map (λ b. at_most b xs) bs ++ (length xs ∷ []))
  at_most-Ascends [] xs t h = tt
  at_most-Ascends (b ∷ []) xs t h = (at_most-le b xs, tt)
  at_most-Ascends (b ∷ c ∷ bs) xs t (le, h) =
      (at_most_mono b c xs (λ x hx. t x b c hx le), at_most-Ascends (c ∷ bs) xs t h)

  -- After fewer than 2 ^ 64 observations, each bucket of the histogram counts those that are at most
  -- its bound, and `count` counts all; so, where <= is transitive and the bounds ascend, the numbers
  -- that are printed for the buckets, up to the one for +Inf, ascend, as Prometheus expects of them.
  pub observe_all-Ascends :
      (xs : List F)
      → length xs < 2 ^ 64
      → IsTransitive
      → IsAscending (bounds fl)
      → ((observe_all xs).counts ≡ map (λ b. at_most b xs) (bounds fl))
        × ((observe_all xs).count ≡ length xs)
        × Ascends ((observe_all xs).counts ++ ((observe_all xs).count ∷ []))
  observe_all-Ascends xs small trans asc =
      let (counts, count) = counts_lem xs small in
      (counts, count, rw (counts, count) (at_most-Ascends (bounds fl) xs trans asc))
