-- ===== src/Decimal.antt =====
-- Python's `decimal.Decimal` as the backend uses it: a finite number coefficient / 10^places.
pub mod Rounding
pub mod Floor
pub mod Order
pub mod Grid
use trading_ai_framework.Prelude.{
  ℕ, suc, ◌+◌, ◌-◌, ◌*◌, ◌/◌, ◌%◌, ◌^◌, ◌≤◌, ◌<◌, max, Bool, Option, none, some, ltb, leb, ◌==◌,
  if◌then◌else◌,
}
use trading_ai_framework.Prelude.Int.{
  ℤ, pos, negsuc, pos_part, neg_part, neg_of_ℕ, ◌+ℤ◌, ◌-ℤ◌, ◌*ℤ◌,
}
use Rounding.{round_half_even}

pub record Decimal : Type 0 where
  pub coefficient : ℤ
  pub places : ℕ

abbrev pub decimal : ℕ → ℕ → Decimal
decimal c p = record { coefficient = pos c; places = p }

abbrev pub of_ℕ : ℕ → Decimal
of_ℕ n = decimal n 0

-- `Decimal("0")`
abbrev pub nought : Decimal
nought = of_ℕ 0

-- The two sides of a comparison at the common denominator.
abbrev pub side : Decimal → Decimal → ℕ
side a b = pos_part a.coefficient * 10 ^ b.places + neg_part b.coefficient * 10 ^ a.places

infix 50 ◌≼◌ ◌≺◌
abbrev pub ◌≼◌ : Decimal → Decimal → Type 0
a ≼ b = side a b ≤ side b a

abbrev pub ◌≺◌ : Decimal → Decimal → Type 0
a ≺ b = side a b < side b a

-- `a < b` and `a <= b`
abbrev pub lt : Decimal → Decimal → Bool
lt a b = ltb (side a b) (side b a)

abbrev pub le : Decimal → Decimal → Bool
le a b = leb (side a b) (side b a)

-- `a == 0`
abbrev pub is_zero : Decimal → Bool
is_zero a = pos_part a.coefficient + neg_part a.coefficient == 0

-- n * m, for m with no sign.
abbrev pub scale : ℤ → ℕ → ℤ
scale (pos n) m = pos (n * m)
scale (negsuc n) m = neg_of_ℕ (suc n * m)

unfoldable pub add : Decimal → Decimal → Decimal
add a b =
    let p = max a.places b.places in
    record {
      coefficient =
          scale a.coefficient (10 ^ (p - a.places)) +ℤ scale b.coefficient (10 ^ (p - b.places));
      places = p;
    }

unfoldable pub sub : Decimal → Decimal → Decimal
sub a b =
    let p = max a.places b.places in
    record {
      coefficient =
          scale a.coefficient (10 ^ (p - a.places)) -ℤ scale b.coefficient (10 ^ (p - b.places));
      places = p;
    }

unfoldable pub mul : Decimal → Decimal → Decimal
mul a b = record { coefficient = a.coefficient *ℤ b.coefficient; places = a.places + b.places }

-- `abs(a)`
unfoldable pub abs : Decimal → Decimal
abs a = record a { coefficient = pos (pos_part a.coefficient + neg_part a.coefficient) }

-- `min(a, b)` and `max(a, b)` return the first of two equal values.
unfoldable pub min : Decimal → Decimal → Decimal
min a b = if lt b a then b else a

unfoldable pub max_of : Decimal → Decimal → Decimal
max_of a b = if lt a b then b else a

-- n / d at a sign: the magnitude is rounded half to even.
abbrev pub round_ℤ : ℤ → ℕ → ℤ
round_ℤ (pos n) d = pos (round_half_even n d)
round_ℤ (negsuc n) d = neg_of_ℕ (round_half_even (suc n) d)

-- `a.quantize(10 ** -k)`: the context rounds half to even. The source raises where the result has more
-- than the context's 28 digits; here it is total.
unfoldable pub quantize : ℕ → Decimal → Decimal
quantize k a = record {
  coefficient = round_ℤ (scale a.coefficient (10 ^ k)) (10 ^ a.places);
  places = k;
}

-- n / d at a sign, the magnitude rounded half up.
abbrev half_up_ℤ : ℤ → ℕ → ℤ
half_up_ℤ (pos n) d = pos ((2 * n + d) / (2 * d))
half_up_ℤ (negsuc n) d = neg_of_ℕ ((2 * suc n + d) / (2 * d))

-- What a column of type `Numeric(19, k)` keeps: the database rounds halves away from zero.
unfoldable pub stored : ℕ → Decimal → Decimal
stored k a = record {
  coefficient = half_up_ℤ (scale a.coefficient (10 ^ k)) (10 ^ a.places);
  places = k;
}

-- ⌊n / d⌋
abbrev pub floor_ℤ : ℤ → ℕ → ℤ
floor_ℤ (pos n) d = pos (n / d)
floor_ℤ (negsuc n) d = negsuc (n / d)

-- `(a / b).to_integral_value(rounding=ROUND_FLOOR)` for b > 0.
unfoldable pub floor_div : Decimal → Decimal → Decimal
floor_div a b = record {
  coefficient =
      floor_ℤ (scale a.coefficient (10 ^ b.places)) (pos_part b.coefficient * 10 ^ a.places);
  places = 0;
}

-- n with the sign that division by a number of the sign of d gives it.
abbrev pub toward : ℤ → ℤ → ℤ
toward (pos d) n = n
toward (negsuc d) (pos n) = neg_of_ℕ n
toward (negsuc d) (negsuc n) = pos (suc n)

-- `(a / b).quantize(10 ** -k)`; a division by zero is the caller's to refuse.
unfoldable pub quantized_div : ℕ → Decimal → Decimal → Decimal
quantized_div k a b = record {
  coefficient =
      round_ℤ (toward b.coefficient (scale a.coefficient (10 ^ b.places * 10 ^ k)))
        ((pos_part b.coefficient + neg_part b.coefficient) * 10 ^ a.places);
  places = k;
}

-- `a or Decimal("0")`
abbrev pub or_zero : Option Decimal → Decimal
or_zero none = nought
or_zero (some a) = a
