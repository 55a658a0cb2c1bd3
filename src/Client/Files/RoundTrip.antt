-- ===== src/Client/Files/RoundTrip.antt =====
-- The lines that `SaveAccount` writes, read by `LoadAccounts` and by `accountAddrOfLine`.
use gyzor.Prelude.{
  ◌≡◌, ◌≢◌, refl, sym, ap, ◌∙◌, false, List, [], ◌∷◌, ◌++◌, append_assoc, some, arith, Bytes,
  bytes_eq, codes, All, All-append, Lacks, take-length, drop-suc,
}
use gyzor.Go.Numbers.{itoa}
use gyzor.Go.Numbers.Laws.{atoi-itoa}
use gyzor.Go.Strings.{is_cr, split, trim_space, has_prefix}
use gyzor.Go.Strings.Laws.{
  trim_right_id, IsGraphic, trim_space-IsGraphic, trim_space_blank, split_whole, index_byte-append,
}
use gyzor.Go.Strings.Trim.{
  IsPlain, IsGraphic-IsPlain, trim_space-ends, trim_space_padded, split_spaced,
}
use gyzor.Account.Keys.{Account, key_from_hex_str}
use gyzor.Account.File.{account_line, account_addr_of_line, addr_of_parts, is_skipped}
use gyzor.Client.Files.{entry_of_line, entry_of_parts}
use gyzor.Client.Server.{Server, addr}
use gyzor.Client.Files.Fields.{IsStorable, port-IsField, keys_of, key_kept}

-- The four parts of a line.
line_parts : Server → Account → List Bytes
line_parts s acc =
    (s.host ++ (b' ' ∷ []))
    ∷ (b' ' ∷ (itoa s.port ++ (b' ' ∷ [])))
    ∷ (b' ' ∷ (acc.username ++ (b' ' ∷ [])))
    ∷ (b' ' ∷ keys_of acc)
    ∷ []

split-account_line :
    (s : Server) (acc : Account)
    → IsStorable s acc
    → split (account_line s acc) b':' ≡ line_parts s acc
unfolding account_line line_parts keys_of
split-account_line s acc h =
    let p = port-IsField s.port in
    let user = b' ' ∷ acc.username in
    let keys = b' ' ∷ (acc.salt ++ (b',' ∷ acc.key)) in
    rw
      (
        split_spaced s.host _ b':' h.host_field.no_colon (omega arith),
        split_spaced (b' ' ∷ itoa s.port) _ b':' (omega arith, p.no_colon) (omega arith),
        split_spaced user keys b':' (omega arith, h.user_field.no_colon) (omega arith),
        split_whole keys b':' (
          omega arith,
          All-append _ acc.salt _ h.salt_field.no_colon (omega arith, h.key_field.no_colon),
        ),
      )
      refl

trim_space-line :
    (host rest key : Bytes)
    → host ≢ []
    → All IsGraphic host
    → All IsPlain rest
    → All IsGraphic key
    → trim_space (host ++ (rest ++ (b',' ∷ key))) ≡ host ++ (rest ++ (b',' ∷ key))
trim_space-line [] rest key ne hh hr hk = absurd (ne refl)
trim_space-line (c ∷ host) rest key ne (hc, hh) hr hk =
    let line = append_assoc (c ∷ host) rest (b',' ∷ key) in
    let inside = All-append IsPlain host rest (IsGraphic-IsPlain host hh) hr in
    ap trim_space (sym line)
    ∙ trim_space-ends c (host ++ rest) b',' key hc inside (omega arith, hk)
    ∙ line

-- What stands between the host and the comma.
middle : Server → Account → Bytes
middle s acc =
    codes " : " ++ (itoa s.port ++ (codes " : " ++ (acc.username ++ (codes " : " ++ acc.salt))))

account_line-middle :
    (s : Server) (acc : Account) → account_line s acc ≡ s.host ++ (middle s acc ++ (b',' ∷ acc.key))
unfolding account_line middle
account_line-middle s acc =
    rw (append_assoc (itoa s.port) _ (b',' ∷ acc.key), append_assoc acc.username _ (b',' ∷ acc.key))
      refl

middle-IsPlain : (s : Server) (acc : Account) → IsStorable s acc → All IsPlain (middle s acc)
unfolding middle
middle-IsPlain s acc h =
    let p = port-IsField s.port in
    let salt : All IsPlain (codes " : " ++ acc.salt) = (
      omega arith,
      (omega arith, (omega arith, IsGraphic-IsPlain acc.salt h.salt_field.graphic)),
    ) in
    let user =
      All-append IsPlain acc.username (codes " : " ++ acc.salt)
        (IsGraphic-IsPlain acc.username h.user_field.graphic) salt in
    let port =
      All-append IsPlain (itoa s.port) (codes " : " ++ (acc.username ++ (codes " : " ++ acc.salt)))
        (IsGraphic-IsPlain (itoa s.port) p.graphic)
        (omega arith, (omega arith, (omega arith, user))) in
    (omega arith, (omega arith, (omega arith, port)))

trim_space-account_line :
    (s : Server) (acc : Account)
    → IsStorable s acc
    → trim_space (account_line s acc) ≡ account_line s acc
trim_space-account_line s acc h = rw (account_line-middle s acc) (
    trim_space-line s.host (middle s acc) acc.key h.host_there h.host_field.graphic
      (middle-IsPlain s acc h) h.key_field.graphic)

not_skipped : (host rest : Bytes) → host ≢ [] → Lacks b'#' host → is_skipped (host ++ rest) ≡ false
unfolding is_skipped bytes_eq has_prefix
not_skipped [] rest ne h = absurd (ne refl)
not_skipped (c ∷ host) rest ne (hc, h) = ground arith

account_line-not-skipped :
    (s : Server) (acc : Account) → IsStorable s acc → is_skipped (account_line s acc) ≡ false
unfolding account_line
account_line-not-skipped s acc h = not_skipped s.host _ h.host_there h.no_comment

keys_split :
    (acc : Account)
    → Lacks b',' acc.salt
    → key_from_hex_str (keys_of acc) ≡ some (acc.salt, acc.key)
unfolding key_from_hex_str keys_of
keys_split acc h =
    rw
      (
        index_byte-append acc.salt acc.key b',' h,
        take-length acc.salt (b',' ∷ acc.key),
        drop-suc acc.salt acc.key b',',
      )
      refl

keys-IsGraphic : (s : Server) (acc : Account) → IsStorable s acc → All IsGraphic (keys_of acc)
unfolding keys_of
keys-IsGraphic s acc h =
    All-append IsGraphic acc.salt _ h.salt_field.graphic (omega arith, h.key_field.graphic)

word_trimmed : (v : Bytes) → All IsGraphic v → trim_space (b' ' ∷ (v ++ (b' ' ∷ []))) ≡ v
word_trimmed v h = trim_space_blank (v ++ (b' ' ∷ [])) ∙ trim_space_padded v h

parts_read :
    (s : Server) (acc : Account)
    → IsStorable s acc
    → entry_of_parts (line_parts s acc) ≡ some (addr s, acc)
unfolding entry_of_parts line_parts
parts_read s acc h =
    rw
      (
        trim_space_padded s.host h.host_field.graphic,
        word_trimmed (itoa s.port) (port-IsField s.port).graphic,
        word_trimmed acc.username h.user_field.graphic,
        trim_space_blank (keys_of acc),
        trim_space-IsGraphic (keys_of acc) (keys-IsGraphic s acc h),
        atoi-itoa s.port h.port_range,
        keys_split acc h.no_comma,
      )
      (rw (key_kept acc.salt acc.key h.key_there) refl)

-- LoadAccounts reads the account back under the server's address from the line that accountLine
-- writes, for a server and an account that the file can hold.
pub entry_of_line-account_line :
    (s : Server) (acc : Account)
    → IsStorable s acc
    → entry_of_line (account_line s acc) ≡ some (addr s, acc)
unfolding entry_of_line
entry_of_line-account_line s acc h =
    rw
      (
        trim_space-account_line s acc h,
        account_line-not-skipped s acc h,
        split-account_line s acc h,
      )
      (parts_read s acc h)

pub account_line-IsPlain :
    (s : Server) (acc : Account) → IsStorable s acc → All IsPlain (account_line s acc)
account_line-IsPlain s acc h =
    let keys : All IsPlain (b',' ∷ acc.key) =
      (omega arith, IsGraphic-IsPlain acc.key h.key_field.graphic) in
    rw (account_line-middle s acc) (
      All-append IsPlain s.host (middle s acc ++ (b',' ∷ acc.key))
        (IsGraphic-IsPlain s.host h.host_field.graphic)
        (All-append IsPlain (middle s acc) (b',' ∷ acc.key) (middle-IsPlain s acc h) keys))

line-no-cr : (s : Bytes) → All IsPlain s → All (λ c. is_cr c ≡ false) s
unfolding is_cr
line-no-cr [] h = tt
line-no-cr (c ∷ s) (hc, h) = (ground arith, line-no-cr s h)

addr_of_line_parts :
    (s : Server) (acc : Account)
    → IsStorable s acc
    → addr_of_parts (line_parts s acc) ≡ some (addr s)
unfolding addr_of_parts line_parts
addr_of_line_parts s acc h =
    rw
      (
        trim_space_padded s.host h.host_field.graphic,
        word_trimmed (itoa s.port) (port-IsField s.port).graphic,
        atoi-itoa s.port h.port_range,
      )
      refl

-- accountAddrOfLine finds the server's address in the line that accountLine writes, for a server
-- and an account that the file can hold.
pub account_addr_of_line-account_line :
    (s : Server) (acc : Account)
    → IsStorable s acc
    → account_addr_of_line (account_line s acc) ≡ some (addr s)
unfolding account_addr_of_line
account_addr_of_line-account_line s acc h =
    rw
      (
        trim_right_id is_cr (account_line s acc)
            (line-no-cr (account_line s acc) (account_line-IsPlain s acc h)),
        trim_space-account_line s acc h,
        account_line-not-skipped s acc h,
        split-account_line s acc h,
      )
      (addr_of_line_parts s acc h)
