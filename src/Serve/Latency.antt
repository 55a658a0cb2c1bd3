-- ===== src/Serve/Latency.antt =====
-- cmd/gyzor/metrics.go: the latency histogram (`newMetrics`, `observe`) and the text that `ServeHTTP`
-- prints. Floating-point numbers are an argument.
pub mod Cumulative
use gyzor.Prelude.{
  ℕ, ◌+◌, ◌%◌, ◌^◌, Bool, true, false, List, [], ◌∷◌, ◌++◌, map, replicate, Bytes, codes,
  if◌then◌else◌,
}
use gyzor.Prelude.Int.{pos}
use gyzor.Go.Numbers.{itoa}
use gyzor.Serve.Handlers.{Metrics, inc}

-- `float64`: its literals, `<=`, `+` and `strconv.FormatFloat(_, 'g', -1, 64)`.
pub record Floats (F : Type 0) : Type 0 where
  pub literal : Bytes → F
  pub le : F → F → Bool
  pub plus : F → F → F
  pub format : F → Bytes

pub record Histogram (F : Type 0) : Type 0 where
  pub counts : List ℕ
  pub sum : F
  pub count : ℕ

module _ {F : Type 0} (fl : Floats F) where
  -- The bounds of the buckets.
  unfoldable pub bounds : List F
  bounds = map fl.literal (
      codes ".005"
      ∷ codes ".01"
      ∷ codes ".025"
      ∷ codes ".05"
      ∷ codes ".1"
      ∷ codes ".25"
      ∷ codes ".5"
      ∷ codes "1"
      ∷ codes "2.5"
      ∷ codes "5"
      ∷ codes "10"
      ∷ [])

  -- `newMetrics`
  unfoldable pub new_histogram : Histogram F
  new_histogram = record { counts = replicate 11 0; sum = fl.literal (codes "0"); count = 0 }

  -- The loop of `observe`: the bucket of a bound that `seconds` is not above is counted.
  unfoldable pub count_buckets : F → List F → List ℕ → List ℕ
  unfolding inc
  count_buckets seconds [] counts = counts
  count_buckets seconds (b ∷ bs) [] = []
  count_buckets seconds (b ∷ bs) (n ∷ counts) =
      (if fl.le seconds b then inc n else n) ∷ count_buckets seconds bs counts

  -- `observe`
  unfoldable pub observe : F → Histogram F → Histogram F
  unfolding inc count_buckets
  observe seconds h = record {
    counts = count_buckets seconds bounds h.counts;
    sum = fl.plus h.sum seconds;
    count = inc h.count;
  }

  -- A counter with its help, as `ServeHTTP` prints it.
  unfoldable pub counter_lines : Bytes → Bytes → ℕ → List Bytes
  counter_lines name help v =
      (codes "# HELP " ++ (name ++ (b' ' ∷ help)))
      ∷ (codes "# TYPE " ++ (name ++ codes " counter"))
      ∷ (name ++ (b' ' ∷ itoa (pos v)))
      ∷ []

  -- A line of a bucket.
  unfoldable pub bucket_line : Bytes → ℕ → Bytes
  bucket_line le n =
      codes "gyzor_latency_seconds_bucket{le=\"" ++ (le ++ (codes "\"} " ++ itoa (pos n)))

  unfoldable pub bucket_lines : List F → List ℕ → List Bytes
  unfolding bucket_line
  bucket_lines [] counts = []
  bucket_lines (b ∷ bs) [] = []
  bucket_lines (b ∷ bs) (n ∷ counts) = bucket_line (fl.format b) n ∷ bucket_lines bs counts

  unfoldable pub verdict_lines : Metrics → List Bytes
  verdict_lines m =
      codes "# HELP gyzor_verdict_total Check verdicts by action."
      ∷ codes "# TYPE gyzor_verdict_total counter"
      ∷ (codes "gyzor_verdict_total{verdict=\"reject\"} " ++ itoa (pos m.reject))
      ∷ (codes "gyzor_verdict_total{verdict=\"accept\"} " ++ itoa (pos m.accept))
      ∷ (codes "gyzor_verdict_total{verdict=\"unknown\"} " ++ itoa (pos m.unknown))
      ∷ []

  unfoldable pub latency_lines : Histogram F → List Bytes
  unfolding bucket_lines bucket_line bounds
  latency_lines h =
      codes "# HELP gyzor_latency_seconds Check/report/revoke latency."
      ∷ codes "# TYPE gyzor_latency_seconds histogram"
      ∷ (bucket_lines bounds h.counts
          ++ (bucket_line (codes "+Inf") h.count
              ∷ (codes "gyzor_latency_seconds_sum " ++ fl.format h.sum)
              ∷ (codes "gyzor_latency_seconds_count " ++ itoa (pos h.count))
              ∷ []))

  -- `ServeHTTP`, as lines.
  unfoldable pub metrics_text : Metrics → Histogram F → List Bytes
  unfolding counter_lines verdict_lines latency_lines
  metrics_text m h =
      counter_lines (codes "gyzor_check_total") (codes "Total /check requests.") m.check_total
      ++ (counter_lines (codes "gyzor_report_total") (codes "Total /report requests.")
            m.report_total
          ++ (counter_lines (codes "gyzor_revoke_total") (codes "Total /revoke requests.")
                m.revoke_total
              ++ (counter_lines (codes "gyzor_error_total") (codes "Total backend errors.")
                    m.error_total
                  ++ (verdict_lines m ++ latency_lines h))))
