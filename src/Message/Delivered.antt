-- ===== src/Message/Delivered.antt =====
-- A serialised request, read at the other end: the fields of it and what its signature covers.
use gyzor.Prelude.{
  ℕ, suc, ◌≡◌, refl, sym, ap, ◌∙◌, Bool, Bool-cases, inl, inr, List, [], ◌∷◌, ◌++◌, append_assoc,
  none, some, Bytes, codes, bytes_eq, All, All-append, Lacks, arith, if◌then◌else◌,
}
use gyzor.Prelude.Int.{ℤ, pos, negsuc}
use gyzor.Go.Case.{to_lower, to_lower_id}
use gyzor.Go.Maps.{lookup, insert}
use gyzor.Go.Numbers.{itoa, digits}
use gyzor.Go.Numbers.Laws.{IsDigit, digits-IsDigit}
use gyzor.Go.Sha1.{sha1, hex_encode}
use gyzor.Go.Sha1.Laws.{hex_encode-IsHex, IsHex-IsLower, IsHex-IsGraphic, sha1-AllBytes}
use gyzor.Go.Strings.Laws.{IsGraphic, trim_space-IsGraphic, IsGraphic-Lacks}
use gyzor.Account.Keys.{Account, hash_key, sign_msg, proto_version}
use gyzor.Message.Request.{
  Header, Request, add, new_request, stamped, signed, serialize, header_line, header_string,
  digest_spec_flat,
}
use gyzor.Message.Response.{parse_response}
use gyzor.Message.RoundTrip.{IsValue, IsClean, set_all, parse_response-header_string}

IsGraphic-IsValue : (v : Bytes) → All IsGraphic v → IsValue v
IsGraphic-IsValue v h = record {
  no_lf = IsGraphic-Lacks b'\n' v (omega arith) h;
  no_cr = IsGraphic-Lacks b'\r' v (omega arith) h;
  trimmed = trim_space-IsGraphic v h;
}

IsDigit-IsGraphic : (s : Bytes) → All IsDigit s → All IsGraphic s
IsDigit-IsGraphic [] h = tt
IsDigit-IsGraphic (c ∷ s) (hc, h) = (omega arith, IsDigit-IsGraphic s h)

itoa-IsGraphic : (z : ℤ) → All IsGraphic (itoa z)
unfolding itoa
itoa-IsGraphic (pos n) = IsDigit-IsGraphic (digits n) (digits-IsDigit n)
itoa-IsGraphic (negsuc n) =
    (omega arith, IsDigit-IsGraphic (digits (suc n)) (digits-IsDigit (suc n)))

lower_hex-IsGraphic :
    (lower : ℕ → ℕ) (m : Bytes) → All IsGraphic (to_lower lower (hex_encode (sha1 m)))
lower_hex-IsGraphic lower m =
    let h = hex_encode-IsHex (sha1 m) (sha1-AllBytes m) in
    rw (to_lower_id lower (hex_encode (sha1 m)) (IsHex-IsLower (hex_encode (sha1 m)) h))
      (IsHex-IsGraphic (hex_encode (sha1 m)) h)

sign_msg-IsGraphic :
    (lower : ℕ → ℕ) (k : Bytes) (t : ℤ) (text : Bytes) → All IsGraphic (sign_msg lower k t text)
unfolding sign_msg
sign_msg-IsGraphic lower k t text = lower_hex-IsGraphic lower _

clean :
    (k v : Bytes)
    → All IsGraphic k
    → Lacks b':' k
    → IsValue v
    → IsClean (record { key = k; val = v })
clean k v graphic colon value = record {
  key_value = IsGraphic-IsValue k graphic;
  no_colon = colon;
  val_value = value;
}

add-IsClean :
    (k v : Bytes) (r : Request)
    → All IsGraphic k
    → Lacks b':' k
    → IsValue v
    → All IsClean r.headers
    → All IsClean (add k v r).headers
unfolding add
add-IsClean k v r graphic colon value h =
    All-append IsClean r.headers _ h (clean k v graphic colon value, tt)

new_request-IsClean :
    (op digest : Bytes) (spec : Bool)
    → IsValue op
    → IsValue digest
    → All IsClean (new_request op digest spec).headers
unfolding new_request
new_request-IsClean op digest spec vo vd =
    let o = clean (codes "Op") op (omega arith) (omega arith) vo in
    let d = clean (codes "Op-Digest") digest (omega arith) (omega arith) vd in
    let s =
      clean (codes "Op-Spec") digest_spec_flat (omega arith) (omega arith)
        (IsGraphic-IsValue digest_spec_flat (omega arith)) in
    elim (Bool-cases (bytes_eq digest [])) [
      | inl e ↦ rw e (o, tt)
      | inr e ↦ elim (Bool-cases spec) [
        | inl f ↦ rw (e, f) (o, (d, (s, tt)))
        | inr f ↦ rw (e, f) (o, (d, tt))
      ]
    ]

serialized-IsClean :
    (lower : ℕ → ℕ) (acc : Account) (timestamp thread : ℤ) (r : Request)
    → All IsClean r.headers
    → IsValue acc.username
    → All IsClean (signed lower acc timestamp thread r).headers
unfolding signed
serialized-IsClean lower acc timestamp thread r h user =
    let r1 = add (codes "Thread") (itoa thread) r in
    let h1 =
      add-IsClean (codes "Thread") (itoa thread) r (omega arith) (omega arith)
        (IsGraphic-IsValue (itoa thread) (itoa-IsGraphic thread)) h in
    let r2 = add (codes "PV") proto_version r1 in
    let h2 =
      add-IsClean (codes "PV") proto_version r1 (omega arith) (omega arith)
        (IsGraphic-IsValue proto_version (omega arith)) h1 in
    let r3 = add (codes "User") acc.username r2 in
    let h3 = add-IsClean (codes "User") acc.username r2 (omega arith) (omega arith) user h2 in
    let r4 = add (codes "Time") (itoa timestamp) r3 in
    let h4 =
      add-IsClean (codes "Time") (itoa timestamp) r3 (omega arith) (omega arith)
        (IsGraphic-IsValue (itoa timestamp) (itoa-IsGraphic timestamp)) h3 in
    let sig =
      sign_msg lower (hash_key lower acc.key acc.username) timestamp (header_string r4.headers) in
    add-IsClean (codes "Sig") sig r4 (omega arith) (omega arith)
      (IsGraphic-IsValue sig (
        sign_msg-IsGraphic lower (hash_key lower acc.key acc.username) timestamp
          (header_string r4.headers)))
      h4

header_string-append :
    (h : Header) (hs : List Header) (g : Header)
    → header_string ((h ∷ hs) ++ (g ∷ [])) ≡ header_string (h ∷ hs) ++ (b'\n' ∷ header_line g)
unfolding header_string
header_string-append h [] g = refl
header_string-append h (i ∷ hs) g =
    rw (header_string-append i hs g)
      (sym (append_assoc (header_line h) (b'\n' ∷ header_string (i ∷ hs)) (b'\n' ∷ header_line g)))

-- What the signature is made from.
abbrev pub request_sig : (ℕ → ℕ) → Account → ℤ → ℤ → Request → Bytes
request_sig lower acc timestamp thread r =
    sign_msg lower (hash_key lower acc.key acc.username) timestamp
      (header_string (stamped acc timestamp thread r).headers)

signed-text :
    (hs : List Header) (g h : Header)
    → header_string ((hs ++ (g ∷ [])) ++ (h ∷ []))
      ≡ header_string (hs ++ (g ∷ [])) ++ (b'\n' ∷ header_line h)
signed-text [] g h = header_string-append g [] h
signed-text (i ∷ hs) g h = header_string-append i (hs ++ (g ∷ [])) h

-- serialize writes the text of the stamped request, a line `Sig: ` with the signature of just that
-- text, and an empty line.
pub serialize_signed :
    (lower : ℕ → ℕ) (acc : Account) (timestamp thread : ℤ) (r : Request)
    → serialize lower acc timestamp thread r
      ≡ header_string (stamped acc timestamp thread r).headers
        ++ (codes "\nSig: " ++ (request_sig lower acc timestamp thread r ++ codes "\n\n"))
unfolding serialize
serialize_signed lower acc timestamp thread r =
    let text = header_string (stamped acc timestamp thread r).headers in
    let sig : Header = record {
      key = codes "Sig";
      val = request_sig lower acc timestamp thread r;
    } in
    let before =
      (add (codes "User") acc.username
        (add (codes "PV") proto_version (add (codes "Thread") (itoa thread) r))).headers in
    ap (λ s. s ++ codes "\n\n")
      (signed-text before (record { key = codes "Time"; val = itoa timestamp }) sig)
    ∙ append_assoc text (b'\n' ∷ header_line sig) (codes "\n\n")

-- Where the operation, the digest and the user name have no line break and no white space around
-- them, parseResponse finds in the serialised request the operation, the digest (no Op-Digest where
-- it is empty), the thread, the protocol version, the user, the time, and the signature of the text
-- of the stamped request.
pub delivered :
    (lower : ℕ → ℕ) (acc : Account) (timestamp thread : ℤ) (op digest : Bytes) (spec : Bool)
    → IsValue op
    → IsValue digest
    → IsValue acc.username
    → let r = new_request op digest spec in
      let fields = parse_response (serialize lower acc timestamp thread r) in
      (lookup (codes "Op") fields ≡ some op)
      × (lookup (codes "Op-Digest") fields ≡ (if bytes_eq digest [] then none else some digest))
      × (lookup (codes "Thread") fields ≡ some (itoa thread))
      × (lookup (codes "PV") fields ≡ some proto_version)
      × (lookup (codes "User") fields ≡ some acc.username)
      × (lookup (codes "Time") fields ≡ some (itoa timestamp))
      × (lookup (codes "Sig") fields ≡ some (request_sig lower acc timestamp thread r))
unfolding serialize new_request set_all lookup insert bytes_eq
delivered lower acc timestamp thread op digest spec vo vd vu =
    let r = new_request op digest spec in
    let read = parse_response-header_string (signed lower acc timestamp thread r).headers (
      serialized-IsClean lower acc timestamp thread r (new_request-IsClean op digest spec vo vd)
        vu) in
    rw read (elim (Bool-cases (bytes_eq digest [])) [
      | inl e ↦ rw e (refl, refl, refl, refl, refl, refl, refl)
      | inr e ↦ elim (Bool-cases spec) [
        | inl f ↦ rw (e, f) (refl, refl, refl, refl, refl, refl, refl)
        | inr f ↦ rw (e, f) (refl, refl, refl, refl, refl, refl, refl)
      ]
    ])
