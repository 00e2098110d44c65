-- ===== src/Prelude/Text.antt =====
-- Texts: joining, comparing, `str(n)` of a number that is not negative, and `upper`, `lower` and
-- `strip` on the letters and the white space of ASCII.
use Prim.Native.Nat.{ℕ, zero, suc, ◌+◌, ◌-◌, ◌/◌, ◌%◌}
use Prim.Native.Char.{Char, code}
use Prim.Native.String.{String, char_at, [] as empty, ◌∷◌ as ◌∷ₜ◌, ◌++◌ as ◌<>◌}
use mathlib.Core.Path.{◌≡◌, refl}
use mathlib.Core.List.{List, [], ◌∷◌}
use mathlib.Core.Bool.{Bool, false, ◌&&◌, ◌||◌}
use trading_ai_framework.Prelude.Tests.{leb, ◌==◌, if◌then◌else◌}
pub use Prim.Native.String.{String, ◌++◌ as ◌<>◌}
pub use text.Mathlib.Text.{◌==◌ as str_eq}

pick : List String → ℕ → String
pick [] n = ""
pick (c ∷ cs) zero = c
pick (c ∷ cs) (suc n) = pick cs n

abbrev digit_texts : List String
digit_texts = "0" ∷ "1" ∷ "2" ∷ "3" ∷ "4" ∷ "5" ∷ "6" ∷ "7" ∷ "8" ∷ "9" ∷ []

-- The digits of n before `tail`; a number has fewer digits than its fuel.
digits_before : ℕ → ℕ → String → String
digits_before zero n tail = tail
digits_before (suc fuel) n tail =
    let out = pick digit_texts (n % 10) <> tail in
    let rest = digits_before fuel (n / 10) out in if n / 10 == 0 then out else rest

unfoldable pub str : ℕ → String
unfolding digits_before pick
str n = digits_before (suc n) n ""

-- The last k digits of n, with zeros in front.
unfoldable pub pad : ℕ → ℕ → String
unfolding pick
pad zero n = ""
pad (suc k) n = pad k (n / 10) <> pick digit_texts (n % 10)

str-200 : str 200 ≡ "200"
unfolding str
str-200 = refl

-- The letter at the place of c in `letters`, if c is one of the 26 letters from `first` on.
swap_case : ℕ → String → Char → Char
swap_case first letters c =
    if leb first (code c) && leb (code c) (first + 25) then char_at letters (code c - first) else c

-- `s.upper()` and `s.lower()`
unfoldable pub upper : String → String
unfolding swap_case
upper empty = empty
upper (c ∷ₜ s) = swap_case 97 "ABCDEFGHIJKLMNOPQRSTUVWXYZ" c ∷ₜ upper s

unfoldable pub lower : String → String
unfolding swap_case
lower empty = empty
lower (c ∷ₜ s) = swap_case 65 "abcdefghijklmnopqrstuvwxyz" c ∷ₜ lower s

-- Tab, line feed, vertical tab, form feed, carriage return, the four separators, and the blank.
abbrev is_space : Char → Bool
is_space c = (leb 9 (code c) && leb (code c) 13) || (leb 28 (code c) && leb (code c) 32)

strip_left : String → String
strip_left empty = empty
strip_left (c ∷ₜ s) = let rest = strip_left s in if is_space c then rest else c ∷ₜ s

-- c before a text, unless the text is empty and c is white space.
abbrev before_stripped : Char → String → String
before_stripped c empty = if is_space c then empty else c ∷ₜ empty
before_stripped c (d ∷ₜ s) = c ∷ₜ d ∷ₜ s

strip_right : String → String
strip_right empty = empty
strip_right (c ∷ₜ s) = before_stripped c (strip_right s)

-- `s.strip()`
unfoldable pub strip : String → String
unfolding strip_left strip_right
strip s = strip_right (strip_left s)

strip-upper_test : upper (strip " sp y ") ≡ "SP Y"
unfolding strip upper
strip-upper_test = refl

-- `text in texts`
abbrev pub is_in : String → List String → Bool
is_in text [] = false
is_in text (t ∷ texts) = str_eq text t || is_in text texts
