-- ===== src/Common/Split.antt =====
-- Python's `split` on a separator of one character.
use Prim.Native.Char.{Char}
use farm_link.Common.Tests.{if◌then◌else◌}
use mathlib.Core.Path.{◌≡◌, refl}
use mathlib.Core.Bool.{Bool, true, not, ◌&&◌}
use mathlib.Core.List.{List, [], ◌∷◌, ◌++◌}
use native.Mathlib.Omega.{arith}

module _ (is_separator : Char → Bool) where
  -- A character in front of the first of some texts.
  abbrev push : Char → List (List Char) → List (List Char)
  push c [] = (c ∷ []) ∷ []
  push c (text ∷ texts) = (c ∷ text) ∷ texts

  -- Never without a text.
  unfoldable pub split_on : List Char → List (List Char)
  split_on [] = [] ∷ []
  split_on (c ∷ text) = if is_separator c then [] ∷ split_on text else push c (split_on text)

  unfoldable pub none_of : List Char → Bool
  none_of [] = true
  none_of (c ∷ text) = not (is_separator c) && none_of text

  pub none_of-append :
      (x y : List Char) → none_of x ≡ true → none_of y ≡ true → none_of (x ++ y) ≡ true
  unfolding none_of
  none_of-append [] y hx hy = hy
  none_of-append (c ∷ x) y hx hy = ground (arith, none_of-append x y, hx, hy)

  pub split_on-plain : (text : List Char) → none_of text ≡ true → split_on text ≡ text ∷ []
  unfolding split_on none_of
  split_on-plain [] h = refl
  split_on-plain (c ∷ text) h = ground (arith, split_on-plain text, h)

  pub split_on-separator :
      (text rest : List Char) (c : Char)
      → is_separator c ≡ true
      → none_of text ≡ true
      → split_on (text ++ c ∷ rest) ≡ text ∷ split_on rest
  unfolding split_on none_of
  split_on-separator [] rest c here h = rw here refl
  split_on-separator (d ∷ text) rest c here h =
      ground (arith, split_on-separator text rest c here, h)
