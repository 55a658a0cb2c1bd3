-- ===== src/Serve/Routes.antt =====
-- cmd/gyzor/serve.go: the routes of `runServe`, with `gate` and `access` around the handlers, and
-- `instrument` of cmd/gyzor/metrics.go. One request at a time: the orders in which requests take and
-- give back the slots are in Serve/Gate.
pub mod Guarded
use gyzor.Prelude.{
  ℕ, ◌+◌, ◌-◌, Bool, true, false, not, ◌&&◌, List, [], ◌∷◌, ◌++◌, Bytes, bytes_eq, codes, ltb,
  if◌then◌else◌,
}
use gyzor.Prelude.Int.{ℤ, pos}
use gyzor.Go.Numbers.{itoa}
use gyzor.Client.Verdict.{CheckResult}
use gyzor.Serve.Handlers.{
  Metrics, HttpRequest, Answer, check_handler, report_handler, revoke_handler, auth,
}
use gyzor.Serve.Latency.{Floats, Histogram, observe, metrics_text}

-- What the handlers share: the metrics, the slots that are taken and the access log.
pub record Daemon (F : Type 0) : Type 0 where
  pub counters : Metrics
  pub latency : Histogram F
  pub sem : ℕ
  pub log : List Bytes

pub data Reply : Type 0 where
  page : ℕ → List Bytes → Reply
  answer : Answer → Reply

-- The status that `statusWriter` captures.
unfoldable pub status_code : Answer → ℕ
status_code (Answer.refused code) = code
status_code (Answer.checked code action is_hit res) = code
status_code (Answer.done code ok) = code

-- What the daemon serves with: the token, the slots, the thresholds, and the client's answers.
pub record Serving : Type 0 where
  pub token : Bytes
  pub slots : ℕ
  pub r_count : ℤ
  pub wl_count : ℤ
  pub verbose : Bool
  pub check : Bytes → CheckResult
  pub report : Bytes → Bool
  pub revoke : Bytes → Bool

abbrev pub Handler : Type 0 → Type 0
Handler F = Daemon F → HttpRequest → Daemon F × Answer

module _ {F : Type 0} where
  unfoldable pub put_counters : Daemon F → Metrics × Answer → Daemon F × Answer
  put_counters d (m, a) = (record d { counters = m }, a)

  -- A handler that only counts.
  unfoldable pub counting : (Metrics → HttpRequest → Metrics × Answer) → Handler F
  unfolding put_counters
  counting next d r = put_counters d (next d.counters r)

  unfoldable pub timed : Floats F → F → Daemon F × Answer → Daemon F × Answer
  timed fl seconds (d, a) = (record d { latency = observe fl seconds d.latency }, a)

  -- `instrument`; `seconds` is the time that `next` takes.
  unfoldable pub instrument : Floats F → F → Handler F → Handler F
  unfolding timed
  instrument fl seconds next d r = timed fl seconds (next d r)

  unfoldable pub logged : Bool → Bytes → Bytes → Daemon F × Answer → Daemon F × Answer
  logged quiet path took (d, a) = if quiet then (d, a) else (
    record d { log = (path ++ (b' ' ∷ (itoa (pos (status_code a)) ++ (b' ' ∷ took)))) ∷ d.log },
    a,
  )

  -- `access`; `took` is the printed time.
  unfoldable pub access : Bool → Bytes → Bytes → Bytes → Handler F → Handler F
  unfolding logged
  access verbose name path took next d r =
      logged (bytes_eq name (codes "check") && not verbose) path took (next d r)

  unfoldable pub give_back : Daemon F × Answer → Daemon F × Answer
  give_back (d, a) = (record d { sem = d.sem - 1 }, a)

  -- `gate`
  unfoldable pub gate : ℕ → Handler F → Handler F
  unfolding give_back
  gate slots next d r =
      if ltb d.sem slots
      then give_back (next (record d { sem = d.sem + 1 }) r)
      else (d, Answer.refused 503)

  unfoldable pub as_reply : Daemon F × Answer → Daemon F × Reply
  as_reply (d, a) = (d, Reply.answer a)

  module _ (fl : Floats F) (sv : Serving) (seconds : F) (took : Bytes) where
    -- The wrappers of an endpoint that asks the client.
    unfoldable pub endpoint : Bytes → Bytes → (Metrics → HttpRequest → Metrics × Answer) → Handler F
    endpoint name path next =
        auth sv.token
          (gate sv.slots (access sv.verbose name path took (instrument fl seconds (counting next))))

    -- The endpoints of the mux, by the path it has matched.
    unfoldable pub route : Bytes → Daemon F → HttpRequest → Daemon F × Reply
    unfolding as_reply
    route path d r =
        if bytes_eq path (codes "/healthz")
        then (d, Reply.page 200 (codes "ok" ∷ []))
        else if bytes_eq path (codes "/metrics")
        then (d, Reply.page 200 (metrics_text fl d.counters d.latency))
        else if bytes_eq path (codes "/check")
        then as_reply
            (endpoint (codes "check") path (check_handler sv.check sv.r_count sv.wl_count) d r)
        else if bytes_eq path (codes "/report")
        then as_reply (endpoint (codes "report") path (report_handler sv.report) d r)
        else if bytes_eq path (codes "/revoke")
        then as_reply (endpoint (codes "revoke") path (revoke_handler sv.revoke) d r)
        else (d, Reply.page 404 (codes "404 page not found" ∷ []))
