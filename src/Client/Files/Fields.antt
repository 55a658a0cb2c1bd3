-- ===== src/Client/Files/Fields.antt =====
-- The fields of a line of the accounts file.
use gyzor.Prelude.{
  suc, ◌≡◌, ◌≢◌, false, [], ◌∷◌, ◌++◌, arith, Bytes, bytes_eq, bytes_eq_iff, ◌&&◌, All, Lacks,
}
use gyzor.Prelude.Int.{ℤ, pos, negsuc}
use gyzor.Go.Numbers.{itoa, digits}
use gyzor.Go.Numbers.Laws.{IsDigit, digits-IsDigit, InRange}
use gyzor.Go.Strings.Laws.{IsGraphic}
use gyzor.Account.Keys.{Account}
use gyzor.Client.Server.{Server}

-- A field that the accounts file can hold.
pub record IsField (v : Bytes) : Type 0 where
  pub graphic : All IsGraphic v
  pub no_colon : Lacks b':' v

-- A server and an account whose line is read back: visible ASCII without colons, a host that is
-- there and is no comment, a port in range, a salt without a comma, and a key.
pub record IsStorable (s : Server) (acc : Account) : Type 0 where
  pub host_field : IsField s.host
  pub host_there : s.host ≢ []
  pub no_comment : Lacks b'#' s.host
  pub port_range : InRange s.port
  pub user_field : IsField acc.username
  pub salt_field : IsField acc.salt
  pub no_comma : Lacks b',' acc.salt
  pub key_field : IsField acc.key
  pub key_there : acc.key ≢ []

digits_parts : (s : Bytes) → All IsDigit s → All IsGraphic s × Lacks b':' s
digits_parts [] h = (tt, tt)
digits_parts (c ∷ s) (hc, h) = let (g, l) = digits_parts s h in ((omega arith, g), (omega arith, l))

pub port-IsField : (z : ℤ) → IsField (itoa z)
unfolding itoa
port-IsField (pos n) =
    let (g, l) = digits_parts (digits n) (digits-IsDigit n) in record { graphic = g; no_colon = l }
port-IsField (negsuc n) =
    let (g, l) = digits_parts (digits (suc n)) (digits-IsDigit (suc n)) in
    record { graphic = (omega arith, g); no_colon = (omega arith, l) }

unfoldable pub keys_of : Account → Bytes
keys_of acc = acc.salt ++ (b',' ∷ acc.key)

pub key_kept : (salt key : Bytes) → key ≢ [] → bytes_eq salt [] && bytes_eq key [] ≡ false
key_kept salt key h = ground (arith, bytes_eq_iff key [])
