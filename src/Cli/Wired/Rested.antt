-- ===== src/Cli/Wired/Rested.antt =====
-- What the exit status 0 of a check rests on.
use gyzor.Prelude.{ℕ, ◌<◌, ◌≤◌, ◌≡◌, refl, true, Option, none, some, Bytes, codes, length}
use gyzor.Prelude.Int.{ℤ}
use gyzor.Client.Api.{Attempt, check, check_digest}
use gyzor.Client.Api.Confirmed.{IsClear, IsReported, check_digest-IsClear}
use gyzor.Client.Query.{Client}
use gyzor.Client.Verdict.{hit, hit_servers}
use gyzor.Client.Verdict.Laws.{hit_iff}
use gyzor.Cli.Options.{Options}
use gyzor.Cli.Run.{World, dispatch}
use gyzor.Cli.Status.{check-status}
use gyzor.Cli.Wired.{result_of, wired}
use gyzor.Digest.Mime.{Mime, compute}
use gyzor.Serve.Handlers.{max_body}
use mathlib.Core.Option

module _ {Addr : Type 0} (lower : ℕ → ℕ) (m : Mime) (attempts : ℕ → Attempt Addr)
    (cli : Client) where
  -- A hit of Check is one of CheckDigest, for the digest of the message.
  hit-check :
      (digest : Option Bytes) (r w : ℤ)
      → hit (result_of (Option.map (check_digest lower cli attempts) digest)) r w ≡ true
      → (d : Bytes) × ((digest ≡ some d) × (hit (check_digest lower cli attempts d) r w ≡ true))
  unfolding hit hit_servers
  hit-check none r w h = absurd cc
  hit-check (some d) r w h = (d, (refl, h))

  -- Where the command check exits with 0, its message could be read, is at most max_body bytes long
  -- and has a digest; for that digest every server's query ended in a confirmed reply with a
  -- whitelist count that is not above its threshold, and the report count of one server is above its
  -- own.
  pub status-IsClear :
      (w : World) (o : Options) (i : ℕ)
      → (dispatch (wired lower m attempts w) cli o (codes "check")).status ≡ 0
      → i < length cli.servers
      → (raw : Bytes) × (d : Bytes) × (w.stdin ≡ some raw)
        × (length raw ≤ max_body)
        × (compute m raw ≡ some d)
        × IsClear lower cli attempts d o.wl_count i
        × IsReported lower cli attempts d o.r_count
  unfolding wired check
  status-IsClear w o i e lt =
      let (raw, (given, (short, found))) = (check-status (wired lower m attempts w) cli o).0 e in
      let (d, (digest, h)) =
        hit-check (compute m raw) o.r_count o.wl_count
          ((hit_iff (result_of (check lower cli attempts m raw)) o.r_count o.wl_count).1 found) in
      let (clear, reported) =
        check_digest-IsClear lower cli attempts d o.r_count o.wl_count i h lt in
      (raw, d, given, short, digest, clear, reported)
