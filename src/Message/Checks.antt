-- ===== src/Message/Checks.antt =====
-- What the checks on a reply let through.
use gyzor.Prelude.{
  ◌≡◌, ◌≢◌, ◌↔◌, ◌⊎◌, inl, inr, refl, List, [], ◌∷◌, Option, none, some, Bytes, codes, Option-cases,
  All, arith,
}
use gyzor.Prelude.Int.{ℤ, pos, eqb_ℤ_iff, ◌<ℤ◌}
use gyzor.Go.Maps.{lookup}
use gyzor.Go.Numbers.{Parsed, atoi}
use gyzor.Message.Request.{thread_ok_min}
use gyzor.Message.Response.{
  Response, field, Invalid, first_error, require_keys, required_keys, check_thread, validate,
  require_count, require_counts,
}

-- The reply has the keys.
abbrev pub HasKeys : List Bytes → Response → Type 0
HasKeys ks r = All (λ k. lookup k r ≢ none) ks

require_keys-HasKeys : (ks : List Bytes) (r : Response) → (require_keys ks r ≡ none) ↔ HasKeys ks r
unfolding require_keys
require_keys-HasKeys [] r = (λ e. tt, λ h. refl)
require_keys-HasKeys (k ∷ ks) r = elim (Option-cases (lookup k r)) [
  | inl no_key ↦ (λ e. cc (rw (require_keys, no_key) at e), λ h. absurd (h.0 no_key))
  | inr (v, has) ↦
      let ih = require_keys-HasKeys ks r in
      rw (require_keys, has) ((λ e. ((λ z. cc), ih.0 e)), (λ h. ih.1 h.1))
]

first_error-none : (a b : Option Invalid) → (first_error a b ≡ none) ↔ ((a ≡ none) × (b ≡ none))
unfolding first_error
first_error-none none b = ground arith
first_error-none (some e) b = ground arith

-- The thread of a reply that may be an answer: in the range of error replies, or the request's own.
abbrev pub IsAnswer : ℤ → Parsed → Type 0
IsAnswer expected p = (p.failed ≡ none) × ((p.value <ℤ pos thread_ok_min) ⊎ (p.value ≡ expected))

check_thread-IsAnswer :
    (expected : ℤ) (text : Bytes) (p : Parsed)
    → (check_thread expected text p ≡ none) ↔ IsAnswer expected p
unfolding check_thread
check_thread-IsAnswer expected text p = ground (arith, eqb_ℤ_iff p.value expected)

-- `validate` accepts a reply just where it has `Code`, `Diag`, `PV` and `Thread`, and `Thread` is a
-- number that is below 1024 or the thread of the request.
pub validate_iff :
    (expected : ℤ) (r : Response)
    → (validate expected r ≡ none)
      ↔ (HasKeys required_keys r × IsAnswer expected (atoi (field (codes "Thread") r)))
unfolding validate
validate_iff expected r =
    let keys = require_keys-HasKeys required_keys r in
    let thread =
      check_thread-IsAnswer expected (field (codes "Thread") r) (atoi (field (codes "Thread") r)) in
    let both = first_error-none (require_keys required_keys r) _ in
    (
      (λ e. let (k, t) = both.0 e in (keys.0 k, thread.0 t)),
      (λ h. both.1 (keys.1 h.0, thread.1 h.1)),
    )

-- A count that `Atoi` reads without an error.
abbrev pub IsCount : Option Bytes → Type 0
IsCount none = ⊥
IsCount (some v) = (atoi v).failed ≡ none

require_count-IsCount : (k : Bytes) (o : Option Bytes) → (require_count k o ≡ none) ↔ IsCount o
unfolding require_count
require_count-IsCount k none = ground arith
require_count-IsCount k (some v) = ground arith

-- `requireCounts` accepts a reply just where `Count` and `WL-Count` are there and are numbers.
pub require_counts_iff :
    (r : Response)
    → (require_counts r ≡ none)
      ↔ (IsCount (lookup (codes "Count") r) × IsCount (lookup (codes "WL-Count") r))
unfolding require_counts
require_counts_iff r =
    let count = require_count-IsCount (codes "Count") (lookup (codes "Count") r) in
    let wl_count = require_count-IsCount (codes "WL-Count") (lookup (codes "WL-Count") r) in
    let both = first_error-none (require_count (codes "Count") (lookup (codes "Count") r)) _ in
    (
      (λ e. let (c, w) = both.0 e in (count.0 c, wl_count.0 w)),
      (λ h. both.1 (count.1 h.0, wl_count.1 h.1)),
    )
