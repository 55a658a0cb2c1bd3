-- ===== src/Cli/Wired.antt =====
-- The command line with the client behind it.
pub mod Rested
use gyzor.Prelude.{ℕ, [], Option, none, some, Bytes}
use gyzor.Prelude.Int.{pos}
use gyzor.Client.Api.{Attempt, check}
use gyzor.Client.Verdict.{CheckResult}
use gyzor.Digest.Mime.{Mime}
use gyzor.Cli.Run.{World}

-- A result with no server, where the digest's fuel runs out.
abbrev pub no_result : CheckResult
no_result = record { count = pos 0; whitelist = pos 0; servers = [] }

abbrev pub result_of : Option CheckResult → CheckResult
result_of none = no_result
result_of (some res) = res

-- The world whose checks the client makes.
unfoldable pub wired : {Addr : Type 0} → (ℕ → ℕ) → Mime → (ℕ → Attempt Addr) → World → World
wired lower m attempts w = record w { check = λ c raw. result_of (check lower c attempts m raw) }
