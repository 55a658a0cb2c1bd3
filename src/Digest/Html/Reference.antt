-- ===== src/Digest/Html/Reference.antt =====
-- `normalizeHTMLPart` joins the visible texts of a page by blanks.
use gyzor.Prelude.{
  ℕ, ◌≡◌, ◌≢◌, ◌⊎◌, inl, inr, refl, ap, ◌∙◌, Bool, true, false, List, [], ◌∷◌, ◌++◌, append_assoc,
  Bytes, bytes_eq, bytes_eq_iff, codes, All, arith, Bool-cases, if◌then◌else◌,
}
use gyzor.Go.Case.{to_lower}
use gyzor.Go.Strings.{trim_space, join}
use gyzor.Digest.Html.{Token, is_code_tag, write_text, html_from, normalize_html_part}

module _ (lower : ℕ → ℕ) where
  -- The name of an element whose text is code.
  abbrev pub IsCode : Bytes → Type 0
  IsCode name = (to_lower lower name ≡ codes "script") ⊎ (to_lower lower name ≡ codes "style")

  -- A token that does not end a script or style element.
  abbrev pub IsInside : Token → Type 0
  IsInside (Token.end_tag name) = ¬ IsCode name
  IsInside token = Unit

  -- The texts that a page shows: those of its text tokens that are not blank, without the white
  -- space around them. Of a script or style tag on nothing is shown up to the next end of a script
  -- or style element, or up to the end of the page where there is none.
  pub data Shows : List Token → List Bytes → Type 0 where
    nothing : Shows [] []
    shown_text :
        {tokens : List Token} {texts : List Bytes} (t : Bytes)
        → trim_space t ≢ []
        → Shows tokens texts
        → Shows (Token.text t ∷ tokens) (trim_space t ∷ texts)
    blank_text :
        {tokens : List Token} {texts : List Bytes} (t : Bytes)
        → trim_space t ≡ []
        → Shows tokens texts
        → Shows (Token.text t ∷ tokens) texts
    tag :
        {tokens : List Token} {texts : List Bytes} (name : Bytes)
        → ¬ IsCode name
        → Shows tokens texts
        → Shows (Token.start_tag name ∷ tokens) texts
    end_of_tag :
        {tokens : List Token} {texts : List Bytes} (name : Bytes)
        → Shows tokens texts
        → Shows (Token.end_tag name ∷ tokens) texts
    no_text :
        {tokens : List Token} {texts : List Bytes}
        → Shows tokens texts
        → Shows (Token.other ∷ tokens) texts
    code :
        (name end : Bytes) (inside : List Token) {tokens : List Token} {texts : List Bytes}
        → IsCode name
        → All IsInside inside
        → IsCode end
        → Shows tokens texts
        → Shows (Token.start_tag name ∷ (inside ++ (Token.end_tag end ∷ tokens))) texts
    open_code :
        (name : Bytes) (inside : List Token)
        → IsCode name
        → All IsInside inside
        → Shows (Token.start_tag name ∷ inside) []

-- A text as a list of what is written of it.
unfoldable shown : Bytes → List Bytes
shown [] = []
shown (c ∷ t) = (c ∷ t) ∷ []

-- What the loop writes of a list of tokens, as texts.
unfoldable visible : (ℕ → ℕ) → Bool → List Token → List Bytes
unfolding shown
visible lower on [] = []
visible lower on (Token.start_tag name ∷ tokens) =
    visible lower (if is_code_tag lower name then false else on) tokens
visible lower on (Token.end_tag name ∷ tokens) =
    visible lower (if is_code_tag lower name then true else on) tokens
visible lower on (Token.text t ∷ tokens) =
    (if on then shown (trim_space t) else []) ++ visible lower on tokens
visible lower on (Token.other ∷ tokens) = visible lower on tokens

-- What is written so far, as a list of texts.
write-shown :
    (out t : Bytes) (more : List Bytes)
    → join (shown (write_text out t) ++ more) b' ' ≡ join (shown out ++ (shown t ++ more)) b' '
unfolding write_text shown join
write-shown [] [] more = refl
write-shown (o ∷ out) [] more = refl
write-shown [] (c ∷ t) more = refl
write-shown (o ∷ out) (c ∷ t) [] = refl
write-shown (o ∷ out) (c ∷ t) (m ∷ more) = append_assoc (o ∷ out) (b' ' ∷ c ∷ t) _

written : (out : Bytes) → out ≡ join (shown out ++ []) b' '
unfolding shown join
written [] = refl
written (o ∷ out) = refl

html_from-visible :
    (lower : ℕ → ℕ) (on : Bool) (out : Bytes) (tokens : List Token)
    → html_from lower on out tokens ≡ join (shown out ++ visible lower on tokens) b' '
unfolding html_from visible
html_from-visible lower on out [] = written out
html_from-visible lower on out (Token.start_tag name ∷ tokens) =
    html_from-visible lower (if is_code_tag lower name then false else on) out tokens
html_from-visible lower on out (Token.end_tag name ∷ tokens) =
    html_from-visible lower (if is_code_tag lower name then true else on) out tokens
html_from-visible lower true out (Token.text t ∷ tokens) =
    html_from-visible lower true (write_text out (trim_space t)) tokens
    ∙ write-shown out (trim_space t) (visible lower true tokens)
html_from-visible lower false out (Token.text t ∷ tokens) = html_from-visible lower false out tokens
html_from-visible lower on out (Token.other ∷ tokens) = html_from-visible lower on out tokens

module _ (lower : ℕ → ℕ) where
  IsCode-name : (name : Bytes) → is_code_tag lower name ≡ true → IsCode lower name
  unfolding is_code_tag
  IsCode-name name on =
      let style = bytes_eq_iff (to_lower lower name) (codes "style") in
      elim (Bool-cases (bytes_eq (to_lower lower name) (codes "script"))) [
        | inl e ↦ inl ((bytes_eq_iff (to_lower lower name) (codes "script")).0 e)
        | inr ne ↦ inr (style.0 (ground arith))
      ]

  IsCode-tag :
      (name : Bytes)
      → (IsCode lower name × (is_code_tag lower name ≡ true))
        ⊎ ((¬ IsCode lower name) × (is_code_tag lower name ≡ false))
  unfolding is_code_tag
  IsCode-tag name =
      let script = bytes_eq_iff (to_lower lower name) (codes "script") in
      let style = bytes_eq_iff (to_lower lower name) (codes "style") in
      elim (Bool-cases (is_code_tag lower name)) [
        | inl on ↦ inl (IsCode-name name on, on)
        | inr off ↦ inr ((λ c. ground (arith, script, style)), off)
      ]

  -- What the loop writes where it does not collect.
  Hidden : List Token → List Bytes → Type 0
  Hidden tokens texts =
      (All (IsInside lower) tokens × (texts ≡ []))
      ⊎ ((inside : List Token) × (end : Bytes) × (rest : List Token) × (tokens
            ≡ inside ++ (Token.end_tag end ∷ rest))
          × All (IsInside lower) inside
          × IsCode lower end
          × Shows lower rest texts)

  Both : List Token → Type 0
  Both tokens =
      Shows lower tokens (visible lower true tokens) × Hidden tokens (visible lower false tokens)

  Hidden-suc :
      (t : Token) (tokens : List Token) (texts : List Bytes)
      → IsInside lower t
      → Hidden tokens texts
      → Hidden (t ∷ tokens) texts
  unfolding Hidden
  Hidden-suc t tokens texts h (inl (all, e)) = inl ((h, all), e)
  Hidden-suc t tokens texts h (inr (inside, end, rest, e, all, c, s)) =
      inr (t ∷ inside, end, rest, ap (◌∷◌ t) e, (h, all), c, s)

  code_block :
      (name : Bytes) (tokens : List Token) (texts : List Bytes)
      → IsCode lower name
      → Hidden tokens texts
      → Shows lower (Token.start_tag name ∷ tokens) texts
  unfolding Hidden
  code_block name tokens texts c (inl (all, e)) = rw e (open_code name tokens c all)
  code_block name tokens texts c (inr (inside, end, rest, e, all, c', s)) =
      rw e (code name end inside c all c' s)

  trimmed_shown :
      (t trimmed : Bytes) (tokens : List Token) (texts : List Bytes)
      → trim_space t ≡ trimmed
      → Shows lower tokens texts
      → Shows lower (Token.text t ∷ tokens) (shown trimmed ++ texts)
  unfolding shown
  trimmed_shown t [] tokens texts e s = blank_text t e s
  trimmed_shown t (c ∷ u) tokens texts e s = rw (← e) (shown_text t (λ n. cc) s)

  text_shown :
      (t : Bytes) (tokens : List Token) (texts : List Bytes)
      → Shows lower tokens texts
      → Shows lower (Token.text t ∷ tokens) (shown (trim_space t) ++ texts)
  text_shown t tokens texts s = trimmed_shown t (trim_space t) tokens texts refl s

  start-Both :
      (name : Bytes) (tokens : List Token) → Both tokens → Both (Token.start_tag name ∷ tokens)
  unfolding Both visible
  start-Both name tokens (s, h) = elim (IsCode-tag name) [
    | inl (c, e) ↦
        rw e (code_block name tokens _ c h, Hidden-suc (Token.start_tag name) tokens _ tt h)
    | inr (n, e) ↦ rw e (tag name n s, Hidden-suc (Token.start_tag name) tokens _ tt h)
  ]

  end-Both : (name : Bytes) (tokens : List Token) → Both tokens → Both (Token.end_tag name ∷ tokens)
  unfolding Both visible Hidden
  end-Both name tokens (s, h) = elim (IsCode-tag name) [
    | inl (c, e) ↦ rw e (end_of_tag name s, inr ([], name, tokens, refl, tt, c, s))
    | inr (n, e) ↦ rw e (end_of_tag name s, Hidden-suc (Token.end_tag name) tokens _ n h)
  ]

  both : (tokens : List Token) → Both tokens
  unfolding Both visible Hidden
  both [] = (nothing, inl (tt, refl))
  both (Token.start_tag name ∷ tokens) = start-Both name tokens (both tokens)
  both (Token.end_tag name ∷ tokens) = end-Both name tokens (both tokens)
  both (Token.text t ∷ tokens) =
      let (s, h) = both tokens in (text_shown t tokens _ s, Hidden-suc (Token.text t) tokens _ tt h)
  both (Token.other ∷ tokens) =
      let (s, h) = both tokens in (no_text s, Hidden-suc Token.other tokens _ tt h)

  -- normalizeHTMLPart gives the texts that a page shows, in their order, joined by single blanks: of
  -- its text tokens those that are not blank and do not stand between a script or style tag and the
  -- next end of one or of the page, without the white space around them.
  pub normalize_html-Shows :
      (tokens : Bytes → List Token) (s : Bytes)
      → (texts : List Bytes) × Shows lower (tokens s) texts
        × (normalize_html_part lower tokens s ≡ join texts b' ')
  unfolding normalize_html_part shown Both
  normalize_html-Shows tokens s = (
    visible lower true (tokens s),
    (both (tokens s)).0,
    html_from-visible lower true [] (tokens s),
  )
