-- ===== src/Cli/Status.antt =====
-- What the exit status of a command says.
use gyzor.Prelude.{
  ℕ, ◌≡◌, ◌≢◌, refl, sym, ap, ◌∙◌, ◌↔◌, ◌⊎◌, inl, inr, ◌≤◌, List, [], Option, none, some, arith,
  Bytes, bytes_eq, bytes_eq_iff, codes, length,
}
use mathlib.Core.Path.{subst}
use gyzor.Account.Keys.{Account}
use gyzor.Client.Query.{Client}
use gyzor.Client.Verdict.Laws.{IsHit, hit_iff}
use gyzor.Serve.Handlers.{max_body, read_capped}
use gyzor.Cli.Options.{
  Options, split_identity, build_account, build_client, client_of, parse_servers_arg,
}
use gyzor.Cli.Identity.{build_account-none}
use gyzor.Cli.Run.{
  Exit, World, exit, status_of, check_exit, do_message_op, is_message_op, with_input, dispatch,
  with_client, with_account, run_op,
}

inl-inj : (a b : Bytes) → ◌≡◌ {A = Bytes ⊎ ℕ} (inl a) (inl b) → a ≡ b
inl-inj a b e = cc

read_capped_iff :
    (stdin : Option Bytes) (max : ℕ) (raw : Bytes)
    → (read_capped stdin max ≡ inl raw) ↔ ((stdin ≡ some raw) × (length raw ≤ max))
unfolding read_capped
read_capped_iff none max raw = ground arith
read_capped_iff (some b) max raw = (λ e. ground arith, λ (e, h). ground arith)

module _ (w : World) (cli : Client) (o : Options) where
  check_dispatch :
      dispatch w cli o (codes "check")
      ≡ with_input w cli o (codes "check") (read_capped w.stdin max_body)
  unfolding dispatch is_message_op with_input bytes_eq
  check_dispatch = refl

  check_input :
      (raw : Bytes)
      → ((with_input w cli o (codes "check") (inl raw)).status ≡ 0)
        ↔ IsHit o.r_count o.wl_count (w.check cli raw).servers
  unfolding with_input do_message_op check_exit status_of bytes_eq
  check_input raw = ground (arith, hit_iff (w.check cli raw) o.r_count o.wl_count)

  unread : (status : ℕ) → (with_input w cli o (codes "check") (inr status)).status ≢ 0
  unfolding with_input
  unread status e = absurd (omega (arith, e))

  check_read :
      (input : Bytes ⊎ ℕ)
      → ((with_input w cli o (codes "check") input).status ≡ 0) ↔ (
          (raw : Bytes) × ((input ≡ inl raw)
            × IsHit o.r_count o.wl_count (w.check cli raw).servers))
  check_read (inr status) = (λ e. absurd (unread status e), λ (raw, (e, h)). absurd cc)
  check_read (inl raw) = (
    λ e. (raw, (refl, (check_input raw).0 e)),
    λ (raw', (e, h)). (check_input raw).1 (
        subst (λ r. IsHit o.r_count o.wl_count (w.check cli r).servers) (sym (inl-inj raw raw' e))
          h),
  )

-- The command check exits with 0 just where its message can be read, is at most max_body bytes long,
-- and the answers of the servers to it are a hit: every server answers without an error and with a
-- code that accepts, one at least counts more reports than the threshold, and none counts more
-- entries in its whitelist than the other.
pub check-status :
    (w : World) (cli : Client) (o : Options)
    → ((dispatch w cli o (codes "check")).status ≡ 0) ↔ (
        (raw : Bytes) × ((w.stdin ≡ some raw)
          × ((length raw ≤ max_body) × IsHit o.r_count o.wl_count (w.check cli raw).servers)))
check-status w cli o =
    let (to, from) = check_read w cli o (read_capped w.stdin max_body) in
    (
      λ e.
          let (raw, (read, h)) =
            to (sym (ap (λ (x : Exit). x.status) (check_dispatch w cli o)) ∙ e) in
          let (given, short) = (read_capped_iff w.stdin max_body raw).0 read in
          (raw, (given, (short, h))),
      λ (raw, (given, (short, h))).
          ap (λ (x : Exit). x.status) (check_dispatch w cli o)
          ∙ from (raw, ((read_capped_iff w.stdin max_body raw).1 (given, short), h)),
    )

servers_refused :
    (w : World) (o : Options) (op : Bytes) (acc : Account)
    → o.servers_arg ≢ []
    → parse_servers_arg o.servers_arg ≡ none
    → with_account w o op (some acc) ≡ exit 2
unfolding with_account with_client build_client client_of
servers_refused w o op acc h e = rw (e) (ground (arith, bytes_eq_iff o.servers_arg []))

with_none : (w : World) (o : Options) (op : Bytes) → with_account w o op none ≡ exit 2
unfolding with_account
with_none w o op = refl

either_refused :
    (w : World) (o : Options) (op : Bytes) (acc : Option Account)
    → o.servers_arg ≢ []
    → parse_servers_arg o.servers_arg ≡ none
    → with_account w o op acc ≡ exit 2
either_refused w o op none h e = with_none w o op
either_refused w o op (some acc) h e = servers_refused w o op acc h e

account_refused :
    (w : World) (op : Bytes) (o : Options)
    → op ≢ codes "register"
    → (((o.user ≡ []) × (o.key ≢ [])) ⊎ ((o.user ≢ []) × (o.key ≡ [])))
      ⊎ ((o.servers_arg ≢ []) × (parse_servers_arg o.servers_arg ≡ none))
    → with_account w o op (build_account op o.user o.key o.salt) ≡ exit 2
account_refused w op o hr (inl h) =
    ap (with_account w o op) ((build_account-none op o.user o.key o.salt hr).1 h) ∙ with_none w o op
account_refused w op o hr (inr (given, bad)) =
    either_refused w o op (build_account op o.user o.key o.salt) given bad

-- A command other than register and genkey exits with 2 at once where the user name or the key is
-- given without the other, once a key with a comma is split, or where --servers is given and is not
-- valid.
pub run_op-refused :
    (w : World) (op : Bytes) (o i : Options) (rest : List Bytes)
    → split_identity o ≡ i
    → op ≢ codes "register"
    → op ≢ codes "genkey"
    → (((i.user ≡ []) × (i.key ≢ [])) ⊎ ((i.user ≢ []) × (i.key ≡ [])))
      ⊎ ((i.servers_arg ≢ []) × (parse_servers_arg i.servers_arg ≡ none))
    → run_op w op (some (o, rest)) ≡ exit 2
unfolding run_op
run_op-refused w op o i rest same hr hg h =
    rw (same) (ground (arith, bytes_eq_iff op (codes "genkey"), account_refused w op i hr h))
