-- ===== src/Client/Verdict.antt =====
-- pyzor/client.go: `CheckDigest`'s aggregation, `Hit`, `AllOK` and the result of `broadcast`.
pub mod Laws
use gyzor.Prelude.{
  ℕ, Bool, true, false, not, ◌&&◌, ◌||◌, List, [], ◌∷◌, Option, none, some, if◌then◌else◌,
}
use gyzor.Prelude.Int.{ℤ, pos, ltb_ℤ, eqb_ℤ}
use gyzor.Client.Server.{ServerResult, QueryError}

pub record CheckResult : Type 0 where
  pub count : ℤ
  pub whitelist : ℤ
  pub servers : List ServerResult

unfoldable pub is_error : Option QueryError → Bool
is_error none = false
is_error (some e) = true

-- `sr.Err != nil || sr.Code != 200`
unfoldable pub rejects : ServerResult → Bool
unfolding is_error
rejects sr = is_error sr.err || not (eqb_ℤ sr.code (pos 200))

-- One round of the loop of `CheckDigest`.
unfoldable pub tally : ServerResult → CheckResult → CheckResult
unfolding rejects
tally sr res = if rejects sr then res else record res {
  count = if ltb_ℤ res.count sr.count then sr.count else res.count;
  whitelist = if ltb_ℤ res.whitelist sr.wl_count then sr.wl_count else res.whitelist;
}

unfoldable pub tally_all : List ServerResult → CheckResult → CheckResult
tally_all [] res = res
tally_all (sr ∷ srs) res = tally_all srs (tally sr res)

-- `CheckDigest` on the results of `queryAll`.
unfoldable pub aggregate : List ServerResult → CheckResult
unfolding tally_all
aggregate srs = tally_all srs (record { count = pos 0; whitelist = pos 0; servers = srs })

-- The loop of `Hit`.
unfoldable pub scan_hit : ℤ → ℤ → List ServerResult → Bool → Bool
scan_hit r_count wl_count [] found_hit = found_hit
scan_hit r_count wl_count (sr ∷ srs) found_hit =
    let rest = scan_hit r_count wl_count srs (if ltb_ℤ r_count sr.count then true else found_hit) in
    if rejects sr then false else if ltb_ℤ wl_count sr.wl_count then false else rest

unfoldable pub hit_servers : ℤ → ℤ → List ServerResult → Bool
hit_servers r_count wl_count [] = false
hit_servers r_count wl_count (sr ∷ srs) = scan_hit r_count wl_count (sr ∷ srs) false

-- `Hit`
unfoldable pub hit : CheckResult → ℤ → ℤ → Bool
hit res r_count wl_count = hit_servers r_count wl_count res.servers

-- The loop of `AllOK` and of `broadcast`.
unfoldable pub none_rejects : List ServerResult → Bool
none_rejects [] = true
none_rejects (sr ∷ srs) = let rest = none_rejects srs in if rejects sr then false else rest

-- The result of `broadcast` on the results of `queryAll`.
unfoldable pub broadcast_ok : List ServerResult → Bool
unfolding none_rejects
broadcast_ok [] = false
broadcast_ok (sr ∷ srs) = none_rejects (sr ∷ srs)

-- `AllOK`
unfoldable pub all_ok : CheckResult → Bool
all_ok res = broadcast_ok res.servers
