-- ===== src/Tests/Serve.antt =====
-- The daemon on a concrete request.
use gyzor.Prelude.{◌≡◌, refl, List, [], ◌∷◌, ◌&&◌, ◌||◌, true, some, none, Bytes, bytes_eq, codes}
use gyzor.Prelude.Int.{pos}
use gyzor.Go.Strings.{has_prefix}
use gyzor.Client.Server.{ServerResult, default_server}
use gyzor.Client.Verdict.{aggregate, hit, all_ok, broadcast_ok, tally, hit_servers, scan_hit}
use gyzor.Serve.Handlers.{
  Metrics, HttpRequest, auth, check_handler, check_read, check_verdict, read_body, read_capped,
  presented,
}
use gyzor.Serve.Rejected.{is_reject, fits_and, listed, serve-reject}

abbrev pub zeros : Metrics
zeros = record {
  check_total = 0;
  report_total = 0;
  revoke_total = 0;
  error_total = 0;
  reject = 0;
  accept = 0;
  unknown = 0;
}

abbrev pub request : HttpRequest
request = record {
  method = codes "POST";
  gyzor_token = [];
  authorization = codes "Bearer s3cret";
  body = some (codes "Subject: hi");
}

abbrev pub spam_server : Bytes → List ServerResult
spam_server msg =
    record {
      server = default_server;
      code = pos 200;
      diag = codes "OK";
      count = pos 12;
      wl_count = pos 0;
      err = none;
    }
    ∷ []

spam_is_rejected :
    is_reject
      (auth
        (codes "s3cret")
        (check_handler (λ b. aggregate (spam_server b)) (pos 5) (pos 0))
        zeros
        request).1
    ≡ true
unfolding is_reject auth check_handler check_read check_verdict read_body read_capped presented
    has_prefix bytes_eq aggregate hit all_ok broadcast_ok tally hit_servers scan_hit
spam_is_rejected = refl

serve-reject_example :
    is_reject
      (auth
        (codes "s3cret")
        (check_handler (λ b. aggregate (spam_server b)) (pos 5) (pos 0))
        zeros
        request).1
    ≡ ((bytes_eq (codes "s3cret") [] || bytes_eq (presented request) (codes "s3cret"))
        && (bytes_eq request.method (codes "POST")
            && fits_and (λ b. listed (spam_server b) 5 0) request.body))
serve-reject_example = serve-reject spam_server 5 0 (codes "s3cret") zeros request
