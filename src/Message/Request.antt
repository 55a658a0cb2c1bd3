-- ===== src/Message/Request.antt =====
-- pyzor/message.go: requests and their signed serialisation.
use gyzor.Prelude.{ℕ, ◌+◌, Bool, List, [], ◌∷◌, ◌++◌, Bytes, codes, bytes_eq, if◌then◌else◌}
use gyzor.Prelude.Int.{ℤ, pos}
use gyzor.Go.Numbers.{itoa}
use gyzor.Account.Keys.{Account, hash_key, sign_msg, proto_version}

pub record Header : Type 0 where
  pub key : Bytes
  pub val : Bytes

pub record Request : Type 0 where
  pub headers : List Header

-- `add`
unfoldable pub add : Bytes → Bytes → Request → Request
add key val r = record { headers = r.headers ++ (record { key = key; val = val } ∷ []) }

unfoldable pub first_val : List Header → Bytes
first_val [] = []
first_val (h ∷ hs) = h.val

-- `op`
unfoldable pub op : Request → Bytes
unfolding first_val
op r = first_val r.headers

abbrev pub digest_spec_flat : Bytes
digest_spec_flat = codes "20,3,60,3"

-- `newRequest`
unfoldable pub new_request : Bytes → Bytes → Bool → Request
unfolding add
new_request op digest with_spec =
    let r = add (codes "Op") op (record { headers = [] }) in
    let d = add (codes "Op-Digest") digest r in
    if bytes_eq digest []
    then r
    else if with_spec
    then add (codes "Op-Spec") digest_spec_flat d
    else d

abbrev pub thread_ok_min : ℕ
thread_ok_min = 1024

-- `generateThread`; `n` is what `rand.Intn(65536 - threadOKMin)` gives.
unfoldable pub generate_thread : ℕ → ℤ
generate_thread n = pos (thread_ok_min + n)

-- One header as it is written.
abbrev pub header_line : Header → Bytes
header_line h = h.key ++ (b':' ∷ b' ' ∷ h.val)

-- `headerString`
unfoldable pub header_string : List Header → Bytes
header_string [] = []
header_string (h ∷ []) = header_line h
header_string (h ∷ g ∷ hs) = header_line h ++ (b'\n' ∷ header_string (g ∷ hs))

-- The request with the four headers that `serialize` adds before it signs.
unfoldable pub stamped : Account → ℤ → ℤ → Request → Request
unfolding add
stamped acc timestamp thread r = add (codes "Time") (itoa timestamp) (
    add (codes "User") acc.username
      (add (codes "PV") proto_version (add (codes "Thread") (itoa thread) r)))

-- The request with its signature.
unfoldable pub signed : (ℕ → ℕ) → Account → ℤ → ℤ → Request → Request
unfolding add stamped
signed lower acc timestamp thread r =
    let r' = stamped acc timestamp thread r in
    let sig =
      sign_msg lower (hash_key lower acc.key acc.username) timestamp (header_string r'.headers) in
    add (codes "Sig") sig r'

-- `serialize`
unfoldable pub serialize : (ℕ → ℕ) → Account → ℤ → ℤ → Request → Bytes
unfolding signed
serialize lower acc timestamp thread r =
    header_string (signed lower acc timestamp thread r).headers ++ (b'\n' ∷ b'\n' ∷ [])
