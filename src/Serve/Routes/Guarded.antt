-- ===== src/Serve/Routes/Guarded.antt =====
-- Which requests reach the handlers.
use gyzor.Prelude.{◌≡◌, ◌≢◌, ap, ◌⊎◌, inl, inr, [], Bytes, bytes_eq, bytes_eq_iff, codes, arith}
use gyzor.Serve.Handlers.{Metrics, HttpRequest, Answer, auth, presented}
use gyzor.Serve.Latency.{Floats}
use gyzor.Serve.Routes.{Daemon, Reply, Serving, as_reply, endpoint, route}

stranger_refused :
    {S : Type 0} (token : Bytes) (next : S → HttpRequest → S × Answer) (s : S) (r : HttpRequest)
    → token ≢ []
    → presented r ≢ token
    → auth token next s r ≡ (s, Answer.refused 401)
unfolding auth
stranger_refused token next s r given wrong =
    ground (arith, bytes_eq_iff token [], bytes_eq_iff (presented r) token)

-- The endpoints that ask the client.
abbrev pub IsGuarded : Bytes → Type 0
IsGuarded path = (path ≡ codes "/check") ⊎ (path ≡ codes "/report") ⊎ (path ≡ codes "/revoke")

module _ {F : Type 0} (fl : Floats F) (sv : Serving) (seconds : F) (took : Bytes) where
  endpoint_of_stranger :
      (name path : Bytes) (next : Metrics → HttpRequest → Metrics × Answer) (d : Daemon F)
      (r : HttpRequest)
      → sv.token ≢ []
      → presented r ≢ sv.token
      → as_reply (endpoint fl sv seconds took name path next d r)
        ≡ (d, Reply.answer (Answer.refused 401))
  unfolding endpoint as_reply
  endpoint_of_stranger name path next d r given wrong =
      ap as_reply (stranger_refused sv.token _ d r given wrong)

  -- Where a token is configured, a request to /check, /report or /revoke that does not present it is
  -- answered with 401 and changes nothing: no counter, no slot, no line of the log, and what the
  -- client would answer plays no part.
  pub route-stranger :
      (path : Bytes) (d : Daemon F) (r : HttpRequest)
      → IsGuarded path
      → sv.token ≢ []
      → presented r ≢ sv.token
      → route fl sv seconds took path d r ≡ (d, Reply.answer (Answer.refused 401))
  unfolding route bytes_eq
  route-stranger path d r (inl e) given wrong =
      rw (e) (endpoint_of_stranger (codes "check") (codes "/check") _ d r given wrong)
  route-stranger path d r (inr (inl e)) given wrong =
      rw (e) (endpoint_of_stranger (codes "report") (codes "/report") _ d r given wrong)
  route-stranger path d r (inr (inr e)) given wrong =
      rw (e) (endpoint_of_stranger (codes "revoke") (codes "/revoke") _ d r given wrong)
