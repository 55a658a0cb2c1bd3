-- ===== src/Serve/Rejected.antt =====
-- When the daemon tells a mail system to reject a message.
use gyzor.Prelude.{
  ℕ, ◌≡◌, refl, ap, ◌∙◌, Bool, true, false, not, ◌&&◌, ◌||◌, List, [], Option, none, some, Bytes,
  bytes_eq, codes, length, leb, ltb, ◌==◌, inl, inr, arith, Bool-cases,
}
use gyzor.Prelude.Int.{ℤ, pos, ltb_ℤ}
use gyzor.Client.Server.{ServerResult}
use gyzor.Client.Verdict.{CheckResult, aggregate, hit, all_ok}
use gyzor.Client.Verdict.Laws.{hit-aggregate}
use gyzor.Serve.Handlers.{
  Metrics, HttpRequest, Answer, read_capped, read_body, check_verdict, check_read, check_handler,
  auth, presented, max_body,
}

-- A 200 answer with the action to reject.
unfoldable pub is_reject : Answer → Bool
is_reject (Answer.refused s) = false
is_reject (Answer.checked s action h res) = (s == 200) && bytes_eq action (codes "reject")
is_reject (Answer.done s ok) = false

-- The verdict on the body, if there is one that is not too long.
unfoldable pub fits_and : (Bytes → Bool) → Option Bytes → Bool
fits_and verdict none = false
fits_and verdict (some b) = leb (length b) max_body && verdict b

pub listed : List ServerResult → ℕ → ℕ → Bool
listed srs r w =
    all_ok (aggregate srs)
    && ltb_ℤ (pos r) (aggregate srs).count
    && not (ltb_ℤ (pos w) (aggregate srs).whitelist)

verdict_flag :
    (res : CheckResult) (r w : ℤ) (m : Metrics)
    → is_reject (check_verdict res r w m).1 ≡ (all_ok res && hit res r w)
unfolding check_verdict is_reject bytes_eq
verdict_flag res r w m = elim (Bool-cases (all_ok res)) [
  | inl ok ↦ elim (Bool-cases (hit res r w)) [ inl h ↦ rw (ok, h) refl | inr h ↦ rw (ok, h) refl ]
  | inr ok ↦ rw ok refl
]

and_twice : (a b c : Bool) → (a && (a && b && c)) ≡ (a && b && c)
and_twice true b c = refl
and_twice false b c = refl

verdict-listed :
    (srs : List ServerResult) (r w : ℕ) (m : Metrics)
    → is_reject (check_verdict (aggregate srs) (pos r) (pos w) m).1 ≡ listed srs r w
unfolding listed
verdict-listed srs r w m =
    verdict_flag (aggregate srs) (pos r) (pos w) m
    ∙ ap (λ h. all_ok (aggregate srs) && h) (hit-aggregate srs r w)
    ∙ and_twice (all_ok (aggregate srs)) _ _

refused_401 : (m : Metrics) → is_reject (Answer.refused 401) ≡ false
unfolding is_reject
refused_401 m = refl

module _ (srs : Bytes → List ServerResult) (r w : ℕ) where
  body_reject :
      (m : Metrics) (body : Option Bytes)
      → is_reject
          (check_read (λ b. aggregate (srs b)) (pos r) (pos w) m (read_capped body max_body)).1
        ≡ fits_and (λ b. listed (srs b) r w) body
  unfolding check_read read_capped fits_and is_reject
  body_reject m none = refl
  body_reject m (some b) = elim (Bool-cases (ltb max_body (length b))) [
    | inl long ↦ let e : leb (length b) max_body ≡ false = ground arith in rw (long, e) refl
    | inr fits ↦
        let e : leb (length b) max_body ≡ true = ground arith in
        rw (fits, e) (verdict-listed (srs b) r w _)
  ]

  refused_405 :
      (m : Metrics)
      → is_reject (check_read (λ b. aggregate (srs b)) (pos r) (pos w) m (inr 405)).1 ≡ false
  unfolding check_read is_reject
  refused_405 m = refl

  handler_reject :
      (m : Metrics) (q : HttpRequest)
      → is_reject (check_handler (λ b. aggregate (srs b)) (pos r) (pos w) m q).1
        ≡ (bytes_eq q.method (codes "POST") && fits_and (λ b. listed (srs b) r w) q.body)
  unfolding check_handler read_body
  handler_reject m q = elim (Bool-cases (bytes_eq q.method (codes "POST"))) [
    | inl post ↦ rw (post) (body_reject m q.body)
    | inr other ↦ rw (other) (refused_405 m)
  ]

  -- With thresholds that are not negative, the daemon answers 200 with the action reject just where the request presents the token, if one
  -- is configured, is a POST, has a body that can be read and is at most 16 MiB long, all servers
  -- are OK for it, and their report count is above the one threshold and their whitelist count not
  -- above the other.
  pub serve-reject :
      (token : Bytes) (m : Metrics) (q : HttpRequest)
      → is_reject (auth token (check_handler (λ b. aggregate (srs b)) (pos r) (pos w)) m q).1 ≡ (
          (bytes_eq token [] || bytes_eq (presented q) token)
          && (bytes_eq q.method (codes "POST") && fits_and (λ b. listed (srs b) r w) q.body))
  unfolding auth
  serve-reject token m q = elim (Bool-cases (bytes_eq token [])) [
    | inl free ↦ rw (free) (handler_reject m q)
    | inr closed ↦ elim (Bool-cases (bytes_eq (presented q) token)) [
      | inl known ↦ rw (closed, known) (handler_reject m q)
      | inr stranger ↦ rw (closed, stranger) (refused_401 m)
    ]
  ]
