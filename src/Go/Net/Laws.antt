-- ===== src/Go/Net/Laws.antt =====
-- Addresses `host:port` are split where they were joined.
use gyzor.Prelude.{
  ℕ, suc, ◌-◌, ◌≡◌, ◌≢◌, refl, ap, ◌∙◌, false, [], ◌∷◌, ◌++◌, none, some, arith, Bytes, Lacks,
  All-append, length, take, drop, drop-suc, take-length, ◌==◌, if◌then◌else◌,
}
use gyzor.Go.Strings.{index_byte, last_index_byte, contains_byte}
use gyzor.Go.Strings.Laws.{index_byte-append}
use gyzor.Go.Net.{no_brackets, bracketed, plain_host, split_from, split_host_port}

Lacks-index_byte : (s : Bytes) (c : ℕ) → Lacks c s → index_byte s c ≡ none
unfolding index_byte
Lacks-index_byte [] c h = refl
Lacks-index_byte (b ∷ s) c (hb, h) = ground (arith, Lacks-index_byte s c h)

pub Lacks-contains_byte : (s : Bytes) (c : ℕ) → Lacks c s → contains_byte s c ≡ false
unfolding contains_byte
Lacks-contains_byte s c h = rw (Lacks-index_byte s c h, contains_byte) refl

Lacks-last_index_byte : (s : Bytes) (c : ℕ) → Lacks c s → last_index_byte s c ≡ none
unfolding last_index_byte
Lacks-last_index_byte [] c h = refl
Lacks-last_index_byte (b ∷ s) c (hb, h) = ground (arith, Lacks-last_index_byte s c h)

last_index_byte-append :
    (k rest : Bytes) (c : ℕ) → Lacks c rest → last_index_byte (k ++ (c ∷ rest)) c ≡ some (length k)
unfolding last_index_byte
last_index_byte-append [] rest c h = ground (arith, Lacks-last_index_byte rest c h)
last_index_byte-append (b ∷ k) rest c h = rw (last_index_byte-append k rest c h) refl

last_index_byte-second :
    (k rest : Bytes) (b c : ℕ)
    → Lacks c rest
    → last_index_byte (k ++ (b ∷ c ∷ rest)) c ≡ some (suc (length k))
unfolding last_index_byte
last_index_byte-second [] rest b c h = ground (arith, Lacks-last_index_byte rest c h)
last_index_byte-second (a ∷ k) rest b c h = rw (last_index_byte-second k rest b c h) refl

last_index_byte-cons :
    (a : ℕ) (s : Bytes) (c i : ℕ)
    → last_index_byte s c ≡ some i
    → last_index_byte (a ∷ s) c ≡ some (suc i)
unfolding last_index_byte
last_index_byte-cons a s c i e = rw (e) refl

drop_two : (k rest : Bytes) (b c : ℕ) → drop (suc (suc (length k))) (k ++ (b ∷ c ∷ rest)) ≡ rest
drop_two [] rest b c = refl
drop_two (a ∷ k) rest b c = drop_two k rest b c

-- A text with no brackets, which a host and a port may be.
pub record IsBare (s : Bytes) : Type 0 where
  pub no_open : Lacks b'[' s
  pub no_close : Lacks b']' s

module _ (host port : Bytes) where
  tail-IsBare : IsBare port → IsBare (b':' ∷ port)
  tail-IsBare p = record {
    no_open = (omega arith, p.no_open);
    no_close = (omega arith, p.no_close);
  }

  plain_checks :
      IsBare host
      → IsBare port
      → no_brackets (host ++ (b':' ∷ port)) host (length host) 0 0 ≡ some (host, port)
  unfolding no_brackets
  plain_checks h p =
      let bare = tail-IsBare p in
      rw
        (
          Lacks-contains_byte (host ++ (b':' ∷ port)) b'['
              (All-append (λ c. c ≢ b'[') host (b':' ∷ port) h.no_open bare.no_open),
          Lacks-contains_byte (host ++ (b':' ∷ port)) b']'
              (All-append (λ c. c ≢ b']') host (b':' ∷ port) h.no_close bare.no_close),
        )
        (ap (λ p. some (host, p)) (drop-suc host port b':'))

  plain_split :
      IsBare host
      → IsBare port
      → Lacks b':' host
      → plain_host (host ++ (b':' ∷ port)) (length host) ≡ some (host, port)
  unfolding plain_host
  plain_split h p hc =
      rw (take-length host (b':' ∷ port), Lacks-contains_byte host b':' hc) (plain_checks h p)

  bracketed_checks :
      IsBare host
      → IsBare port
      → no_brackets
          (b'[' ∷ (host ++ (b']' ∷ b':' ∷ port)))
          host
          (suc (suc (length host)))
          1
          (suc (suc (length host)))
        ≡ some (host, port)
  unfolding no_brackets
  bracketed_checks h p =
      let bare = tail-IsBare p in
      rw
        (
          drop-suc host (b':' ∷ port) b']',
          drop_two host port b']' b':',
          Lacks-contains_byte (host ++ (b']' ∷ b':' ∷ port)) b'[' (
              All-append (λ c. c ≢ b'[') host (b']' ∷ b':' ∷ port) h.no_open
                (omega arith, bare.no_open)),
          Lacks-contains_byte (b':' ∷ port) b']' bare.no_close,
        )
        refl

-- The first byte of a host with no bracket.
split_plain :
    (host port : Bytes)
    → IsBare host
    → split_from (host ++ (b':' ∷ port)) (some (length host))
      ≡ plain_host (host ++ (b':' ∷ port)) (length host)
unfolding split_from
split_plain [] port h = refl
split_plain (c ∷ host) port h = ground (arith, h.no_open)

-- Of a host with no colon and no brackets and a port with none either, joined by a colon, net's
-- SplitHostPort gives the two back.
pub split_host_port-plain :
    (host port : Bytes)
    → IsBare host
    → IsBare port
    → Lacks b':' host
    → Lacks b':' port
    → split_host_port (host ++ (b':' ∷ port)) ≡ some (host, port)
unfolding split_host_port
split_host_port-plain host port h p hc pc =
    ap (split_from (host ++ (b':' ∷ port))) (last_index_byte-append host port b':' pc)
    ∙ split_plain host port h
    ∙ plain_split host port h p hc

if_same : {A : Type 0} (n : ℕ) (x y z : A) → x ≡ z → (if n == n then x else y) ≡ z
if_same n x y z e = ground (arith, e)

bracketed_split :
    (host port : Bytes)
    → IsBare host
    → IsBare port
    → bracketed
        (b'[' ∷ (host ++ (b']' ∷ b':' ∷ port)))
        (suc (suc (length host)))
        (some (suc (length host)))
      ≡ some (host, port)
unfolding bracketed
bracketed_split host port h p =
    let cut : take (suc (length host) - 1) (host ++ (b']' ∷ b':' ∷ port)) ≡ host =
      ap (λ n. take n (host ++ (b']' ∷ b':' ∷ port))) (omega arith)
      ∙ take-length host (b']' ∷ b':' ∷ port) in
    if_same (suc (suc (length host))) _ _ _ (
      ap
        (λ x.
          no_brackets (b'[' ∷ (host ++ (b']' ∷ b':' ∷ port))) x (suc (suc (length host))) 1
            (suc (suc (length host))))
        cut
      ∙ bracketed_checks host port h p)

split_bracketed :
    (host port : Bytes)
    → IsBare host
    → IsBare port
    → split_from (b'[' ∷ (host ++ (b']' ∷ b':' ∷ port))) (some (suc (suc (length host))))
      ≡ some (host, port)
unfolding split_from
split_bracketed host port h p =
    ap (bracketed (b'[' ∷ (host ++ (b']' ∷ b':' ∷ port))) (suc (suc (length host))))
      (index_byte-append (b'[' ∷ host) (b':' ∷ port) b']' (omega arith, h.no_close))
    ∙ bracketed_split host port h p

-- Of a host in brackets, which has none itself, and a port with no colon and no brackets, joined by
-- a colon, net's SplitHostPort gives the two back.
pub split_host_port-bracketed :
    (host port : Bytes)
    → IsBare host
    → IsBare port
    → Lacks b':' port
    → split_host_port (b'[' ∷ (host ++ (b']' ∷ b':' ∷ port))) ≡ some (host, port)
unfolding split_host_port
split_host_port-bracketed host port h p pc =
    ap (split_from (b'[' ∷ (host ++ (b']' ∷ b':' ∷ port)))) (
      last_index_byte-cons b'[' (host ++ (b']' ∷ b':' ∷ port)) b':' (suc (length host))
        (last_index_byte-second host port b']' b':' pc))
    ∙ split_bracketed host port h p
