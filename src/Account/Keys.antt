-- ===== src/Account/Keys.antt =====
-- pyzor/account.go: accounts, `hashKey`, `signMsg`, `keyFromHexStr`, `deriveKey`, `GenKey`.
use gyzor.Prelude.{ℕ, suc, [], ◌∷◌, ◌++◌, Option, none, some, Bytes, codes, take, drop}
use gyzor.Prelude.Int.{ℤ}
use gyzor.Go.Case.{to_lower}
use gyzor.Go.Numbers.{itoa}
use gyzor.Go.Sha1.{sha1, hex_encode}
use gyzor.Go.Strings.{index_byte}

pub record Account : Type 0 where
  pub username : Bytes
  pub salt : Bytes
  pub key : Bytes

abbrev pub anonymous_user : Bytes
anonymous_user = codes "anonymous"

-- `Anonymous`
abbrev pub anonymous : Account
anonymous = record { username = anonymous_user; salt = []; key = [] }

abbrev pub proto_version : Bytes
proto_version = codes "2.1"

-- `hashKey`
unfoldable pub hash_key : (ℕ → ℕ) → Bytes → Bytes → Bytes
hash_key lower key user = to_lower lower (hex_encode (sha1 (user ++ (b':' ∷ to_lower lower key))))

-- `signMsg`
unfoldable pub sign_msg : (ℕ → ℕ) → Bytes → ℤ → Bytes → Bytes
sign_msg lower hashed_key timestamp signed_text =
    to_lower lower
      (hex_encode (sha1 (sha1 signed_text ++ (b':' ∷ (itoa timestamp ++ (b':' ∷ hashed_key))))))

-- `keyFromHexStr`; `none` is the error of a missing comma.
unfoldable pub split_key : Bytes → Option ℕ → Option (Bytes × Bytes)
split_key s none = none
split_key s (some i) = some (take i s, drop (suc i) s)

unfoldable pub key_from_hex_str : Bytes → Option (Bytes × Bytes)
unfolding split_key
key_from_hex_str s = split_key s (index_byte s b',')

-- The key of `deriveKey`, by whether there is a passphrase.
unfoldable pub derived : (ℕ → ℕ) → Bytes → Bytes → Bytes → Bytes
derived lower salt_digest raw_key [] = to_lower lower (hex_encode raw_key)
derived lower salt_digest raw_key (c ∷ passphrase) =
    to_lower lower (hex_encode (sha1 (salt_digest ++ (c ∷ passphrase))))

-- `deriveKey`
unfoldable pub derive_key : (ℕ → ℕ) → Bytes → Bytes → Bytes → Bytes × Bytes
unfolding derived
derive_key lower raw_salt raw_key passphrase =
    let salt_digest = sha1 raw_salt in
    (to_lower lower (hex_encode salt_digest), derived lower salt_digest raw_key passphrase)

-- `GenKey`; the first two arguments behind `lower` are what the two reads of 20 random bytes give,
-- the second of which is made only without a passphrase. `none` is its error.
unfoldable pub gen_key : (ℕ → ℕ) → Option Bytes → Option Bytes → Bytes → Option (Bytes × Bytes)
gen_key lower none second passphrase = none
gen_key lower (some raw_salt) none [] = none
gen_key lower (some raw_salt) (some raw_key) [] = some (derive_key lower raw_salt raw_key [])
gen_key lower (some raw_salt) second (c ∷ passphrase) =
    some (derive_key lower raw_salt [] (c ∷ passphrase))
