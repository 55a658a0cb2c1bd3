-- ===== src/Digest/Select.antt =====
-- pyzor/digest.go: `Compute` behind the MIME walk: which lines are kept, and which are hashed.
pub mod Correct
use mathlib.Core.List.{flatten}
use gyzor.Prelude.{
  ℕ, zero, suc, ◌+◌, ◌*◌, ◌/◌, Bool, ◌||◌, List, [], ◌∷◌, ◌++◌, map, leb, ◌==◌, if◌then◌else◌,
  length, get_elem?, Option, none, some, Bytes,
}
use gyzor.Go.Utf8.{runes}
use gyzor.Go.Strings.{trim_right}
use gyzor.Go.Sha1.{sha1, hex_encode}
use gyzor.Digest.Lines.{split_lines}
use gyzor.Digest.Normalize.{normalize}

abbrev pub min_line_length : ℕ
min_line_length = 8

abbrev pub atomic_num_lines : ℕ
atomic_num_lines = 4

-- `digestSpec`
abbrev pub digest_spec : List (ℕ × ℕ)
digest_spec = (20, 3) ∷ (60, 3) ∷ []

-- `shouldHandleLine`
unfoldable pub should_handle_line : Bytes → Bool
should_handle_line s = leb min_line_length (length (runes s))

-- The inner loop of `Compute` over the lines of a payload.
unfoldable pub handle_lines : List Bytes → List Bytes → List Bytes
handle_lines [] lines = lines
handle_lines (line ∷ rest) lines =
    let norm = normalize line in
    handle_lines rest (if should_handle_line norm then lines ++ norm ∷ [] else lines)

-- The outer loop, over the payloads.
unfoldable pub handle_payloads : List Bytes → List Bytes → List Bytes
handle_payloads [] lines = lines
handle_payloads (payload ∷ rest) lines =
    handle_payloads rest (handle_lines (split_lines payload) lines)

-- The bytes that `rstrip` cuts off.
unfoldable pub is_ascii_space : ℕ → Bool
is_ascii_space c = c == b' ' || c == 0x9 || c == 0xa || c == 0xd || c == 0xb || c == 0xc

unfoldable pub rstrip : Bytes → Bytes
rstrip = trim_right is_ascii_space

-- What is written for a line that may be out of range.
unfoldable pub piece : Option Bytes → List Bytes
piece none = []
piece (some line) = rstrip line ∷ []

-- The loop over `i` for one entry of the spec, with `n` rounds left.
unfoldable pub window : List Bytes → ℕ → ℕ → List Bytes
unfolding piece
window lines zero idx = []
window lines (suc n) idx = piece (get_elem? lines idx) ++ window lines n (idx + 1)

unfoldable pub windows : List Bytes → List (ℕ × ℕ) → List Bytes
windows lines [] = []
windows lines ((offset, count) ∷ spec) =
    window lines count (offset * length lines / 100) ++ windows lines spec

-- What is written into the hash, in order.
unfoldable pub hashed_pieces : List Bytes → List Bytes
hashed_pieces lines =
    if leb (length lines) atomic_num_lines then map rstrip lines else windows lines digest_spec

-- `Compute` on the payloads of a message.
unfoldable pub digest_of_payloads : List Bytes → Bytes
digest_of_payloads payloads =
    hex_encode (sha1 (flatten (hashed_pieces (handle_payloads payloads []))))
