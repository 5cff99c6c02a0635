-- ===== src/Base/Texts.antt =====
-- Texts as lists of UTF-16 code units, and buffers as lists of bytes.
use Prim.Native.Char.{code}
use Prim.Native.String.{String}
use Prim.Native.Nat.{ℕ, ◌+◌}
use mathlib.Core.Path.{◌≡◌, refl}
use mathlib.Core.Logic.{◌↔◌, ◌⊎◌}
use mathlib.Core.Bool.{Bool, true, false, ◌&&◌, ◌||◌}
use mathlib.Core.List.{List, [], ◌∷◌, ◌++◌, map, reverse}
use mathlib.Core.Option.{Option, none, some}
use native.Mathlib.Omega.{arith}
use deedlit_dev.Base.Tests.{◌==◌, leb, if◌then◌else◌}

abbrev pub Text : Type 0
Text = List ℕ

abbrev pub Bytes : Type 0
Bytes = List ℕ

-- The code units of a literal within the basic plane.
abbrev pub codes : String → Text
codes String.[] = []
codes (String.◌∷◌ c s) = code c ∷ codes s

-- `a === b` on texts, and `a.equals(b)` on buffers.
unfoldable pub text_eq : Text → Text → Bool
text_eq [] [] = true
text_eq (x ∷ xs) (y ∷ ys) = x == y && text_eq xs ys
text_eq _ _ = false

pub text_eq_iff : (a b : Text) → (text_eq a b ≡ true) ↔ (a ≡ b)
unfolding text_eq
text_eq_iff (x ∷ a) (y ∷ b) = ground (arith, text_eq_iff a b)
text_eq_iff _ _ = ground arith

pub text_eq_refl : (a : Text) → text_eq a a ≡ true
text_eq_refl a = (text_eq_iff a a).1 refl

-- `set.has(a)` and `list.includes(a)`.
unfoldable pub has : Text → List Text → Bool
has a [] = false
has a (x ∷ xs) = text_eq a x || has a xs

-- The white space that `trim` and `\s` know.
unfoldable pub is_space : ℕ → Bool
is_space c =
    (leb 9 c && leb c 13)
    || c == 32
    || c == 160
    || c == 0x1680
    || (leb 0x2000 c && leb c 0x200a)
    || c == 0x2028
    || c == 0x2029
    || c == 0x202f
    || c == 0x205f
    || c == 0x3000
    || c == 0xfeff

-- `s.trimStart()` and, through the reversed text, `s.trim()`.
unfoldable pub trim_start : Text → Text
trim_start [] = []
trim_start (c ∷ s) = if is_space c then trim_start s else c ∷ s

unfoldable pub trim : Text → Text
unfolding trim_start is_space
trim s = reverse (trim_start (reverse (trim_start s)))

-- `s.toLowerCase()` on the ASCII letters; other code units stay as they are.
unfoldable pub lower_unit : ℕ → ℕ
lower_unit c = if leb b'A' c && leb c b'Z' then c + 32 else c

abbrev pub to_lower : Text → Text
to_lower = map lower_unit

-- `s.startsWith(p)`.
unfoldable pub starts_with : Text → Text → Bool
starts_with [] s = true
starts_with (p ∷ ps) [] = false
starts_with (p ∷ ps) (c ∷ s) = p == c && starts_with ps s

-- `s.endsWith(p)`.
unfoldable pub ends_with : Text → Text → Bool
unfolding starts_with
ends_with p s = starts_with (reverse p) (reverse s)

-- `s.includes(p)`.
unfoldable pub includes : Text → Text → Bool
unfolding starts_with
includes p [] = starts_with p []
includes p (c ∷ s) = starts_with p (c ∷ s) || includes p s

-- `s.split(c)` at a single code unit.
unfoldable pub split_at : ℕ → Text → List Text
split_at d [] = [] ∷ []
split_at d (c ∷ s) = elim (split_at d s) [
  | [] ↦ [] ∷ []
  | p ∷ ps ↦ if c == d then [] ∷ p ∷ ps else (c ∷ p) ∷ ps
]

-- `parts.join(sep)`.
unfoldable pub join : Text → List Text → Text
join sep [] = []
join sep (p ∷ []) = p
join sep (p ∷ q ∷ ps) = p ++ (sep ++ join sep (q ∷ ps))

-- `a` is an entry of the list.
abbrev pub In : Text → List Text → Type 0
In a [] = ⊥
In a (x ∷ xs) = (a ≡ x) ⊎ In a xs

pub has_iff : (a : Text) (xs : List Text) → (has a xs ≡ true) ↔ In a xs
unfolding has
has_iff a [] = ((λ h. cc), (λ h. absurd h))
has_iff a (x ∷ xs) = ground (arith, text_eq_iff a x, has_iff a xs)

-- A name cut before its last dot, where it has one.
unfoldable pub cut_last_dot : Text → Option (Text × Text)
cut_last_dot [] = none
cut_last_dot (c ∷ s) = elim (cut_last_dot s) [
  | some (stem, ext) ↦ some (c ∷ stem, ext)
  | none ↦ if c == b'.' then some ([], c ∷ s) else none
]

-- `path.extname` of a name with no separator: nothing for `.png` or `..`.
unfoldable pub extname : Text → Text
unfolding cut_last_dot
extname name = elim (cut_last_dot name) [
  | none ↦ []
  | some (stem, ext) ↦
      if text_eq stem [] || (text_eq stem (codes ".") && text_eq ext (codes ".")) then [] else ext
]

-- The last name in a path: `current` is the name read last, `ended` whether a `/` followed it.
unfoldable pub last_name_from : Bool → Text → Text → Text
last_name_from ended current [] = current
last_name_from ended current (c ∷ s) =
    let is_slash = c == b'/' in
    last_name_from is_slash
      (if is_slash then current else if ended then c ∷ [] else current ++ c ∷ []) s

-- `path.extname` of a whole POSIX path: that of its last name, trailing separators left aside.
unfoldable pub path_extname : Text → Text
unfolding extname last_name_from
path_extname path = extname (last_name_from true [] path)

-- No entry occurs twice.
abbrev pub IsDistinct : List Text → Type 0
IsDistinct [] = Unit {0}
IsDistinct (x ∷ xs) = (has x xs ≡ false) × IsDistinct xs

pub append_cancel : (p x y : Text) → p ++ x ≡ p ++ y → x ≡ y
append_cancel [] x y e = e
append_cancel (c ∷ p) x y e = append_cancel p x y (ground arith)
