-- ===== src/Tests/Wire.antt =====
-- Requests, replies and the hashes of an account on concrete values.
use gyzor.Prelude.{[], ◌++◌, arith, ◌≡◌, ◌↔◌, refl, true, none, some, Bytes, bytes_eq, codes}
use gyzor.Prelude.Int.{pos, negsuc, max_int}
use gyzor.Go.Case.{to_lower}
use gyzor.Go.Maps.{lookup, insert}
use gyzor.Go.Numbers.{NumError, itoa, atoi}
use gyzor.Go.Sha1.{sha1, hex_encode}
use gyzor.Go.Strings.{is_cr, split, index_byte, trim_right, trim_space}
use gyzor.Account.Keys.{anonymous, anonymous_user, proto_version, hash_key, sign_msg}
use gyzor.Message.Delivered.{request_sig, serialize_signed, delivered}
use gyzor.Message.RoundTrip.{IsValue}
use gyzor.Message.Request.{header_string, new_request, stamped, serialize}
use gyzor.Message.Checks.{HasKeys, IsAnswer, validate_iff}
use gyzor.Message.Response.{
  Invalid, parse_response, parse_lines, parse_line, field, is_ok, int_field, required_keys,
  require_keys, check_thread, first_error, validate,
}

port_text : itoa (pos 24441) ≡ codes "24441"
unfolding itoa
port_text = refl

overflow_clamps :
    atoi (codes "-9223372036854775809")
    ≡ record { value = negsuc max_int; failed = some NumError.range_error }
unfolding atoi
overflow_clamps = refl

-- The vectors of the repository's tests, which pyzor's own account.py gave.
hash_key_golden :
    hash_key (λ r. r) (codes "deadbeef") (codes "alice")
    ≡ codes "50c1547d7dc9d0b7426918bb468f50dec45da57c"
unfolding hash_key hex_encode sha1 to_lower
hash_key_golden = refl

abbrev signed_text : Bytes
signed_text =
    codes
      "Op: check\nOp-Digest: 9023f0f442cd7e98b2fc98b81e362aeb95b2e07e\nThread: 4242\nPV: 2.1\nUser: anonymous\nTime: 1700000000"

sign_msg_golden :
    sign_msg (λ r. r) (hash_key (λ r. r) [] anonymous_user) (pos 1700000000) signed_text
    ≡ codes "1ae6df14c8e304cbb06d73810602f9856d97b776"
unfolding sign_msg hash_key hex_encode sha1 to_lower itoa
sign_msg_golden = refl

abbrev sample_reply : Bytes
sample_reply =
    codes "Code: 200\r\nDiag: OK\r\nPV: 2.1\r\nThread: 4242\r\nCount: 7\r\nWL-Count: 2\r\n"

sample_parsed :
    (is_ok (parse_response sample_reply) ≡ true)
    × (int_field (codes "Count") (parse_response sample_reply) ≡ pos 7)
    × (validate (pos 4242) (parse_response sample_reply) ≡ none)
    × (validate (pos 4243) (parse_response sample_reply)
        ≡ some (Invalid.unexpected_thread (pos 4242) (pos 4243)))
unfolding is_ok int_field parse_response parse_lines parse_line is_cr insert lookup split index_byte
    trim_right trim_space atoi validate require_keys check_thread first_error bytes_eq
sample_parsed = (refl, refl, refl, refl)

validate_iff_example : (validate (pos 4242) (parse_response sample_reply) ≡ none) ↔ (
    HasKeys required_keys (parse_response sample_reply)
    × IsAnswer (pos 4242) (atoi (field (codes "Thread") (parse_response sample_reply))))
validate_iff_example = validate_iff (pos 4242) (parse_response sample_reply)

abbrev sample_digest : Bytes
sample_digest = codes "9023f0f442cd7e98b2fc98b81e362aeb95b2e07e"

check-IsValue : IsValue (codes "check")
unfolding trim_space
check-IsValue = record { no_lf = omega arith; no_cr = omega arith; trimmed = refl }

sample_digest-IsValue : IsValue sample_digest
unfolding trim_space
sample_digest-IsValue = record { no_lf = omega arith; no_cr = omega arith; trimmed = refl }

anonymous-IsValue : IsValue anonymous_user
unfolding trim_space
anonymous-IsValue = record { no_lf = omega arith; no_cr = omega arith; trimmed = refl }

delivered_example :
    let r = new_request (codes "check") sample_digest true in
    let fields = parse_response (serialize (λ c. c) anonymous (pos 1700000000) (pos 4242) r) in
    (lookup (codes "Op") fields ≡ some (codes "check"))
    × (lookup (codes "Op-Digest") fields ≡ some sample_digest)
    × (lookup (codes "Thread") fields ≡ some (itoa (pos 4242)))
    × (lookup (codes "PV") fields ≡ some proto_version)
    × (lookup (codes "User") fields ≡ some anonymous_user)
    × (lookup (codes "Time") fields ≡ some (itoa (pos 1700000000)))
    × (lookup (codes "Sig") fields
        ≡ some (request_sig (λ c. c) anonymous (pos 1700000000) (pos 4242) r))
unfolding bytes_eq
delivered_example =
    delivered (λ c. c) anonymous (pos 1700000000) (pos 4242) (codes "check") sample_digest true
      check-IsValue sample_digest-IsValue anonymous-IsValue

serialize_signed_example :
    let r = new_request (codes "check") sample_digest true in
    serialize (λ c. c) anonymous (pos 1700000000) (pos 4242) r
    ≡ header_string (stamped anonymous (pos 1700000000) (pos 4242) r).headers
      ++ (codes "\nSig: "
          ++ (request_sig (λ c. c) anonymous (pos 1700000000) (pos 4242) r ++ codes "\n\n"))
serialize_signed_example =
    serialize_signed (λ c. c) anonymous (pos 1700000000) (pos 4242)
      (new_request (codes "check") sample_digest true)
