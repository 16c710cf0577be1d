-- ===== src/Config/Origins.antt =====
-- The list of CORS origins, read back from a text that lists them.
use Prim.Native.Char.{Char}
use farm_link.Common.{
  String, ◌≡◌, refl, ap, ◌∙◌, Bool, true, false, not, List, [], ◌∷◌, ◌++◌, map, select, split_on,
  none_of, none_of-append, split_on-plain, split_on-separator, Bool-cases, inl, inr, arith, ◌&&◌,
  ◌||◌, if◌then◌else◌,
}
use text.Mathlib.TextBridge.{to_list, of_list, to_list-of_list}
use farm_link.Session.{ok, err, value_error}
use farm_link.Config.{
  Settings, cors_origins_list, forbid_wildcard_cors_in_production, is_production, has_wildcard,
  is_empty, is_space, is_comma, strip_left, keep_or_drop, strip_right, strip, not_empty, origins_of,
}

-- An origin as it is meant, with spaces about it.
pub record Padded : Type 0 where
  pub before : List Char
  pub origin : List Char
  pub after : List Char

abbrev pub padded : Padded → List Char
padded p = p.before ++ (p.origin ++ p.after)

-- The origins with a comma between each two.
unfoldable pub join : Char → List Padded → List Char
join comma [] = []
join comma (p ∷ []) = padded p
join comma (p ∷ q ∷ ps) = padded p ++ comma ∷ join comma (q ∷ ps)

unfoldable pub all_space : List Char → Bool
all_space [] = true
all_space (c ∷ text) = is_space c && all_space text

abbrev pub no_comma : List Char → Bool
no_comma text = none_of is_comma text

unfoldable pub starts_plain : List Char → Bool
starts_plain [] = false
starts_plain (c ∷ text) = not (is_space c)

-- Spaces about an origin that has none at its ends, and no comma in it.
pub record IsPadded (p : Padded) : Type 0 where
  pub spaces_before : all_space p.before ≡ true
  pub spaces_after : all_space p.after ≡ true
  pub plain : no_comma p.origin ≡ true
  pub starts : starts_plain p.origin ≡ true
  pub ends : strip_right p.origin ≡ p.origin

strip_left-spaces :
    (l text : List Char) → all_space l ≡ true → strip_left (l ++ text) ≡ strip_left text
unfolding all_space strip_left
strip_left-spaces [] text h = refl
strip_left-spaces (c ∷ l) text h = ground (arith, strip_left-spaces l text, h)

strip_right-space : (r : List Char) → all_space r ≡ true → strip_right r ≡ []
unfolding all_space strip_right
strip_right-space [] h = refl
strip_right-space (c ∷ r) h = ground (arith, strip_right-space r, h)

strip_right-spaces :
    (text r : List Char) → all_space r ≡ true → strip_right (text ++ r) ≡ strip_right text
unfolding strip_right
strip_right-spaces [] r h = strip_right-space r h
strip_right-spaces (c ∷ text) r h = ap (keep_or_drop c) (strip_right-spaces text r h)

strip_left-plain : (o r : List Char) → starts_plain o ≡ true → strip_left (o ++ r) ≡ o ++ r
unfolding starts_plain strip_left
strip_left-plain [] r h = cc
strip_left-plain (c ∷ o) r h = ground (arith, h)

strip-padded : (p : Padded) → IsPadded p → strip (padded p) ≡ p.origin
unfolding strip
strip-padded p h =
    ap strip_right (
      strip_left-spaces p.before (p.origin ++ p.after) h.spaces_before
      ∙ strip_left-plain p.origin p.after h.starts)
    ∙ strip_right-spaces p.origin p.after h.spaces_after
    ∙ h.ends

space_no_comma : (c : Char) → is_space c ≡ true → is_comma c ≡ false
unfolding is_space
space_no_comma c h = ground (arith, h)

all_space-no_comma : (l : List Char) → all_space l ≡ true → no_comma l ≡ true
unfolding all_space none_of
all_space-no_comma [] h = refl
all_space-no_comma (c ∷ l) h = ground (arith, all_space-no_comma l, space_no_comma c, h)

abbrev pub AllPadded : List Padded → Type 0
AllPadded [] = Unit {0}
AllPadded (p ∷ ps) = IsPadded p × AllPadded ps

padded-no_comma : (p : Padded) → IsPadded p → no_comma (padded p) ≡ true
padded-no_comma p h =
    none_of-append is_comma p.before (p.origin ++ p.after)
      (all_space-no_comma p.before h.spaces_before)
      (none_of-append is_comma p.origin p.after h.plain (all_space-no_comma p.after h.spaces_after))

starts_plain-not_empty : (o : List Char) → starts_plain o ≡ true → not_empty o ≡ true
unfolding starts_plain
starts_plain-not_empty [] h = cc
starts_plain-not_empty (c ∷ o) h = refl

abbrev origin_of : Padded → List Char
origin_of p = p.origin

-- The texts between the commas are the padded origins; with none there is one empty text.
origins_of-join :
    (comma : Char) (ps : List Padded)
    → is_comma comma ≡ true
    → AllPadded ps
    → origins_of (join comma ps) ≡ map origin_of ps
unfolding origins_of join split_on strip strip_left strip_right select
origins_of-join comma [] here h = refl
origins_of-join comma (p ∷ []) here (h, _) =
    let one = split_on-plain is_comma (padded p) (padded-no_comma p h) in
    ap (λ texts. select not_empty (map strip texts)) one
    ∙ rw (strip-padded p h, starts_plain-not_empty p.origin h.starts) refl
origins_of-join comma (p ∷ q ∷ ps) here (h, hs) =
    let more =
      split_on-separator is_comma (padded p) (join comma (q ∷ ps)) comma here
        (padded-no_comma p h) in
    ap (λ texts. select not_empty (map strip texts)) more
    ∙ rw (strip-padded p h, starts_plain-not_empty p.origin h.starts)
        (ap (λ texts. p.origin ∷ texts) (origins_of-join comma (q ∷ ps) here hs))

-- The origins, as texts.
abbrev pub names : List Padded → List String
names ps = map of_list (map origin_of ps)

-- Where the setting lists some origins between commas, with any spaces about each, the CORS list has
-- just these origins; and the settings are refused exactly where the environment is production and
-- there is no origin, or one of them is "*".
pub cors_origins_list-join :
    (settings : Settings) (comma : Char) (ps : List Padded)
    → settings.cors_allowed_origins ≡ of_list (join comma ps)
    → is_comma comma ≡ true
    → AllPadded ps
    → (cors_origins_list settings ≡ names ps)
      × (forbid_wildcard_cors_in_production settings ≡ (
          if is_production settings && (is_empty (names ps) || has_wildcard (names ps))
          then err value_error
          else ok settings))
unfolding cors_origins_list forbid_wildcard_cors_in_production
cors_origins_list-join settings comma ps listed here h = (lists, refused)
  where
    lists : cors_origins_list settings ≡ names ps
    lists =
        ap (λ text. map of_list (origins_of (to_list text))) listed
        ∙ ap (λ text. map of_list (origins_of text)) (to_list-of_list (join comma ps))
        ∙ ap (map of_list) (origins_of-join comma ps here h)

    refused : forbid_wildcard_cors_in_production settings ≡ (
        if is_production settings && (is_empty (names ps) || has_wildcard (names ps))
        then err value_error
        else ok settings)
    refused = elim (Bool-cases (is_production settings)) [
      | inl live ↦ rw (live, lists) refl
      | inr other ↦ rw other refl
    ]
