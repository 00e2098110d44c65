-- ===== src/Decimal/Floor.antt =====
-- The floor of a quotient of decimals: the largest whole number of shares of price b that the
-- amount a pays for.
use native.Mathlib.Nat.{
  div-mul-le_self, mul-le-mul_right, suc-add, lt-div-mul-add, pow-suc, zero-add, zero-div,
}
use trading_ai_framework.Prelude.{
  ℕ, zero, suc, ◌+◌, ◌*◌, ◌-◌, ◌/◌, max, ◌^◌, ◌≤◌, ◌<◌, ◌≡◌, refl, ap, true, false, arith,
}
use trading_ai_framework.Prelude.Int.{ℤ, pos, negsuc, pos_part, neg_of_ℕ, ◌+ℤ◌, ◌*ℤ◌}
use trading_ai_framework.Decimal.{
  Decimal, decimal, of_ℕ, nought, ◌≼◌, ◌≺◌, lt, add, mul, floor_div, floor_ℤ,
}

pub pow-pos : (p : ℕ) → 0 < 10 ^ p
pow-pos zero = omega arith
pow-pos (suc p) = rw (pow-suc) (omega (arith, pow-pos p))

pub pow-add : (p q : ℕ) → 10 ^ (p + q) ≡ 10 ^ p * 10 ^ q
pow-add zero q = rw zero-add (omega arith)
pow-add (suc p) q =
    rw (suc-add, pow-suc (10) (p + q), pow-suc 10 p)
      (omega (arith, ap (λ (t : ℕ). t * 10) (pow-add p q)))

-- On numbers with no sign the operations are those of ℕ.
pub mul-decimal : (a p b s : ℕ) → mul (decimal a p) (decimal b s) ≡ decimal (a * b) (p + s)
unfolding mul ◌*ℤ◌
mul-decimal a p b s = ground arith

pub floor_div-decimal :
    (a p b s : ℕ) → floor_div (decimal a p) (decimal b s) ≡ decimal (a * 10 ^ s / (b * 10 ^ p)) 0
unfolding floor_div
floor_div-decimal a p b s = refl

-- At the same number of places a sum is the sum of the coefficients.
pub add-decimal : (a b p : ℕ) → add (decimal a p) (decimal b p) ≡ decimal (a + b) p
unfolding add ◌+ℤ◌
add-decimal a b p =
    let places : max p p ≡ p = omega arith in
    let none_left : p - p ≡ 0 = omega arith in rw (places, none_left) (ground arith)

pub floor_div_places : (a b : Decimal) → (floor_div a b).places ≡ 0
unfolding floor_div
floor_div_places a b = refl

-- What a floor of at least one says of the sign of the dividend.
floor_ℤ-neg_of_ℕ : (n d : ℕ) → pos_part (floor_ℤ (neg_of_ℕ n) d) ≡ 0
floor_ℤ-neg_of_ℕ zero d = zero-div d
floor_ℤ-neg_of_ℕ (suc n) d = refl

abbrev mk : ℤ → ℕ → Decimal
mk c p = record { coefficient = c; places = p }

negative_floor : (a pa : ℕ) (b : Decimal) → lt (floor_div (mk (negsuc a) pa) b) (of_ℕ 1) ≡ true
unfolding floor_div
negative_floor a pa b =
    ground (arith, floor_ℤ-neg_of_ℕ (suc a * 10 ^ b.places) (pos_part b.coefficient * 10 ^ pa))

module _ (n pa m pb : ℕ) (positive : 0 < m) where
  unit-pos : 0 < m * 10 ^ pa
  unit-pos = grind (arith, pow-pos pa)

  covers_decimal :
      (k r : ℕ)
      → decimal k r ≼ floor_div (decimal n pa) (decimal m pb)
      → mul (decimal k r) (decimal m pb) ≼ decimal n pa
  covers_decimal k r h =
      let floor : ℕ = n * 10 ^ pb / (m * 10 ^ pa) in
      let below : k * 1 + 0 * 10 ^ r ≤ floor * 10 ^ r + 0 * 1 =
        rw (floor_div-decimal n pa m pb) at h in
      let units : k * (m * 10 ^ pa) ≤ floor * 10 ^ r * (m * 10 ^ pa) =
        mul-le-mul_right (m * 10 ^ pa) (omega arith) in
      let paid : floor * (m * 10 ^ pa) * 10 ^ r ≤ n * 10 ^ pb * 10 ^ r =
        mul-le-mul_right (10 ^ r) (div-mul-le_self (n * 10 ^ pb) (m * 10 ^ pa)) in
      rw (mul-decimal k r m pb) (rw pow-add (omega arith))

  largest_decimal :
      decimal n pa ≺ mul (add (floor_div (decimal n pa) (decimal m pb)) (of_ℕ 1)) (decimal m pb)
  largest_decimal = rw (floor_div-decimal n pa m pb) (
      rw (add-decimal _ 1 0) (
        rw (mul-decimal _ 0 m pb) (
          rw zero-add
            (omega (arith, lt-div-mul-add {a = n * 10 ^ pb} {b = m * 10 ^ pa} unit-pos)))))

  short_decimal :
      lt (floor_div (decimal n pa) (decimal m pb)) (of_ℕ 1) ≡ true → decimal n pa ≺ decimal m pb
  short_decimal h =
      let below : lt (decimal (n * 10 ^ pb / (m * 10 ^ pa)) 0) (of_ℕ 1) ≡ true =
        rw (floor_div-decimal n pa m pb) at h in
      omega (
        arith,
        lt-div-mul-add {a = n * 10 ^ pb} {b = m * 10 ^ pa} unit-pos,
        ap (λ (t : ℕ). t * (m * 10 ^ pa)) (none_left below),
      )
    where
      none_left :
          lt (decimal (n * 10 ^ pb / (m * 10 ^ pa)) 0) (of_ℕ 1) ≡ true
          → n * 10 ^ pb / (m * 10 ^ pa) ≡ 0
      none_left e = ground arith

-- A quantity of at least one that does not exceed the floor of the quotient is paid for.
pub floor_div_covers :
    (q a b : Decimal) → nought ≺ b → lt q (of_ℕ 1) ≡ false → q ≼ floor_div a b → mul q b ≼ a
floor_div_covers q a b h k l =
    go q.coefficient q.places a.coefficient a.places b.coefficient b.places h k l
  where
    go :
        (cq : ℤ) (pq : ℕ) (ca : ℤ) (pa : ℕ) (cb : ℤ) (pb : ℕ)
        → nought ≺ mk cb pb
        → lt (mk cq pq) (of_ℕ 1) ≡ false
        → mk cq pq ≼ floor_div (mk ca pa) (mk cb pb)
        → mul (mk cq pq) (mk cb pb) ≼ mk ca pa
    go (pos k) r (pos n) pa (pos m) pb h l c = covers_decimal n pa m pb (grind arith) k r c
    go cq pq ca pa (negsuc m) pb h l c = absurd (grind (arith, pow-pos pb))
    go (negsuc k) r ca pa cb pb h l c = absurd (ground (arith, pow-pos r))
    go (pos k) r (negsuc n) pa cb pb h l c = absurd (
        ground (
          arith,
          pow-pos r,
          negative_floor n pa (mk cb pb),
          floor_div_places (mk (negsuc n) pa) (mk cb pb),
        ))

-- One share more than the floor would cost more than the amount.
pub floor_div_largest :
    (a b : Decimal)
    → nought ≺ b
    → lt (floor_div a b) (of_ℕ 1) ≡ false
    → a ≺ mul (add (floor_div a b) (of_ℕ 1)) b
floor_div_largest a b h k = go a.coefficient a.places b.coefficient b.places h k
  where
    go :
        (ca : ℤ) (pa : ℕ) (cb : ℤ) (pb : ℕ)
        → nought ≺ mk cb pb
        → lt (floor_div (mk ca pa) (mk cb pb)) (of_ℕ 1) ≡ false
        → mk ca pa ≺ mul (add (floor_div (mk ca pa) (mk cb pb)) (of_ℕ 1)) (mk cb pb)
    go (pos n) pa (pos m) pb h k = largest_decimal n pa m pb (grind arith)
    go ca pa (negsuc m) pb h k = absurd (grind (arith, pow-pos pb))
    go (negsuc n) pa cb pb h k = absurd (cc (negative_floor n pa (mk cb pb)))

-- Where the floor is below one, the amount does not pay for one share.
pub floor_div_short : (a b : Decimal) → nought ≺ b → lt (floor_div a b) (of_ℕ 1) ≡ true → a ≺ b
floor_div_short a b h k = go a.coefficient a.places b.coefficient b.places h k
  where
    go :
        (ca : ℤ) (pa : ℕ) (cb : ℤ) (pb : ℕ)
        → nought ≺ mk cb pb
        → lt (floor_div (mk ca pa) (mk cb pb)) (of_ℕ 1) ≡ true
        → mk ca pa ≺ mk cb pb
    go (pos n) pa (pos m) pb h k = short_decimal n pa m pb (grind arith) k
    go ca pa (negsuc m) pb h k = absurd (grind (arith, pow-pos pb))
    go (negsuc n) pa (pos m) pb h k = grind (arith, pow-pos pa, pow-pos pb)
