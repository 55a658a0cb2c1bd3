-- ===== src/Digest/Mime/Walk.antt =====
-- The walk through a message ends, and always with payloads.
use gyzor.Prelude.{
  ℕ, zero, suc, ◌≤◌, ◌<◌, ◌≡◌, refl, sym, ap, ◌∙◌, Bool, true, false, List, [], ◌∷◌, ◌++◌, Option,
  none, some, Bytes, arith, bytes_eq, codes, take, length, take-append-drop, ◌&&◌, if◌then◌else◌,
  All, Bool-cases, inl, inr,
}
use mathlib.Core.Option.{some-injective}
use gyzor.Digest.Select.{digest_of_payloads}
use gyzor.Digest.Mime.{
  Part, Mime, Shape, read_all_hint, split_media_type, param, media_of, message_shape, shape_of,
  shape, walk_all, walk_shape, walk_part, digest_payloads, digest_of, compute,
}

-- The documented cutting of a message: a part of a multipart body stands behind a boundary line of
-- that body, and the body of a message behind its header, so each is shorter than what it stands in.
pub record IsShrinking (m : Mime) : Type 0 where
  pub part_shorter :
      (boundary body : Bytes) → All (λ p. length p.body < length body) (m.raw_parts boundary body)
  pub message_shorter :
      (raw : Bytes) (p : Part) → m.read_message raw ≡ some p → length p.body < length raw

take-all : (b : Bytes) → take (length b) b ≡ b
take-all [] = refl
take-all (c ∷ b) = ap (◌∷◌ c) (take-all b)

-- The hint for the buffer does not matter.
pub read_all_hint_lem : (b : Bytes) (hint : ℕ) → read_all_hint b hint ≡ b
unfolding read_all_hint
read_all_hint_lem b hint = ground (arith, take-all b, take-append-drop hint b)

abbrev Shorter : ℕ → Shape → Type 0
Shorter n (Shape.leaf payloads) = 0 ≤ n
Shorter n (Shape.nested parts) = All (λ p. length p.body < n) parts

leaf-Shorter :
    (n : ℕ) (b : Bool) (xs ys : List Bytes) → Shorter n (if b then Shape.leaf xs else Shape.leaf ys)
leaf-Shorter n true xs ys = omega arith
leaf-Shorter n false xs ys = omega arith

-- Of two walks the second goes at least as far as the first.
abbrev Extends : (Part → Option (List Bytes)) → (Part → Option (List Bytes)) → Part → Type 0
Extends f g p = (xs : List Bytes) × (f p ≡ some xs) × (g p ≡ some xs)

walk_all-suc :
    (f : Part → Option (List Bytes)) (p : Part) (ps : List Part) (xs ys : List Bytes)
    → f p ≡ some xs
    → walk_all f ps ≡ some ys
    → walk_all f (p ∷ ps) ≡ some (xs ++ ys)
unfolding walk_all
walk_all-suc f p ps xs ys e es = rw (e, es, walk_all)

walk_all-Extends :
    (f g : Part → Option (List Bytes)) (ps : List Part)
    → All (Extends f g) ps
    → (xs : List Bytes) × (walk_all f ps ≡ some xs) × (walk_all g ps ≡ some xs)
unfolding walk_all
walk_all-Extends f g [] h = ([], refl, refl)
walk_all-Extends f g (p ∷ ps) ((xs, e, d), h) =
    let (ys, es, ds) = walk_all-Extends f g ps h in
    (xs ++ ys, walk_all-suc f p ps xs ys e es, walk_all-suc g p ps xs ys d ds)

All-imp : (P Q : Part → Type 0) (ps : List Part) → ((p : Part) → P p → Q p) → All P ps → All Q ps
All-imp P Q [] f h = tt
All-imp P Q (p ∷ ps) f (hp, h) = (f p hp, All-imp P Q ps f h)

walk_shape-Extends :
    (f g : Part → Option (List Bytes)) (n : ℕ) (s : Shape)
    → Shorter n s
    → ((p : Part) → length p.body < n → Extends f g p)
    → (xs : List Bytes) × (walk_shape f s ≡ some xs) × (walk_shape g s ≡ some xs)
unfolding walk_shape
walk_shape-Extends f g n (Shape.leaf payloads) h e = (payloads, refl, refl)
walk_shape-Extends f g n (Shape.nested parts) h e =
    walk_all-Extends f g parts (All-imp (λ p. length p.body < n) (Extends f g) parts e h)

module _ (m : Mime) (s : IsShrinking m) where
  message-Shorter :
      (raw : Bytes) (o : Option Part)
      → m.read_message raw ≡ o
      → Shorter (length raw) (message_shape m raw o)
  unfolding message_shape
  message-Shorter raw none e = omega arith
  message-Shorter raw (some p) e =
      (rw (read_all_hint_lem p.body (length raw)) (s.message_shorter raw p e), tt)

  shape-Shorter :
      (p : Part) (media : Bytes × Bytes) (params : List (Bytes × Bytes))
      → Shorter (length p.body) (shape_of m p media params)
  unfolding shape_of
  shape-Shorter p (maintype, subtype) params =
      elim (Bool-cases (bytes_eq maintype (codes "multipart"))) [
        | inl multi ↦ elim (Bool-cases (bytes_eq (param (codes "boundary") params) [])) [
          | inl bare ↦ rw (multi, bare) (omega arith)
          | inr cut ↦ rw (multi, cut) (s.part_shorter (param (codes "boundary") params) p.body)
        ]
        | inr single ↦
            elim (Bool-cases
              (bytes_eq maintype (codes "message") && bytes_eq subtype (codes "rfc822"))) [
                | inl inner ↦
                    rw (single, inner) (message-Shorter p.body (m.read_message p.body) refl)
                | inr plain ↦
                    rw (single, plain)
                      (leaf-Shorter (length p.body) (bytes_eq maintype (codes "text")) _ _)
              ]
      ]

  -- Two walks with fuel above the length of the body give the same payloads.
  walk_part-enough :
      (f g : ℕ) (p : Part)
      → length p.body < f
      → length p.body < g
      → Extends (walk_part m f) (walk_part m g) p
  unfolding walk_part shape
  walk_part-enough zero g p hf hg = absurd (omega arith)
  walk_part-enough (suc f) zero p hf hg = absurd (omega arith)
  walk_part-enough (suc f) (suc g) p hf hg =
      let (media, params) = media_of m p.ctype in
      walk_shape-Extends (walk_part m f) (walk_part m g) (length p.body)
        (shape_of m p (split_media_type media) params)
        (shape-Shorter p (split_media_type media) params)
        (λ q lt. walk_part-enough f g q (omega arith) (omega arith))

  payloads-Extends :
      (raw : Bytes) (fuel other : ℕ)
      → length raw < fuel
      → length raw < other
      → (payloads : List Bytes) × (digest_payloads m fuel raw ≡ some payloads)
        × (digest_payloads m other raw ≡ some payloads)
  unfolding digest_payloads
  payloads-Extends raw fuel other h g =
      walk_shape-Extends (walk_part m fuel) (walk_part m other) (length raw)
        (message_shape m raw (m.read_message raw)) (message-Shorter raw (m.read_message raw) refl)
        (λ q lt. walk_part-enough fuel other q (omega arith) (omega arith))

  -- Where each part of a body is shorter than the body and the body of a message shorter than the
  -- message, digestPayloads ends with payloads for every message, the same ones with any two amounts
  -- of fuel above the length of the message; and Compute gives the digest of those payloads.
  pub digest_payloads-ends :
      (raw : Bytes) (fuel other : ℕ)
      → length raw < fuel
      → length raw < other
      → (payloads : List Bytes) × (digest_payloads m fuel raw ≡ some payloads)
        × (digest_payloads m other raw ≡ some payloads)
        × (compute m raw ≡ some (digest_of_payloads payloads))
  unfolding compute digest_of
  digest_payloads-ends raw fuel other h g =
      let (payloads, one, two) = payloads-Extends raw fuel other h g in
      let (own, same, computed) = payloads-Extends raw fuel (suc (length raw)) h (omega arith) in
      let e : own ≡ payloads = some-injective own payloads (sym same ∙ one) in
      (payloads, one, two, ap digest_of (computed ∙ ap some e))
