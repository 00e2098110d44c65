-- ===== src/Execution/BrokerSync/Fill.antt =====
-- The filled quantity that the trades of an order add up to
-- (backend/app/modules/execution/broker_sync.py).
use mathlib.Core.List.{foldl}
use native.Mathlib.Nat.{le_of_mul-le-mul_right, mul-le-mul_right}
use trading_ai_framework.Prelude.{
  ℕ, ◌+◌, ◌-◌, ◌*◌, ◌^◌, ◌≤◌, ◌<◌, sym, max, ◌≡◌, refl, ap, ◌∙◌, List, [], ◌∷◌, ◌++◌, arith, false,
  true, ◌==◌,
}
use trading_ai_framework.Prelude.Int.{pos_part, neg_part, ℤ, pos, negsuc, ◌+ℤ◌, ◌-ℤ◌}
use trading_ai_framework.Decimal
use trading_ai_framework.Decimal.{Decimal, ◌≼◌, add, sub, scale, nought}
use trading_ai_framework.Decimal.Floor.{pow-add, pow-pos}
use trading_ai_framework.Models.{Trade}
use trading_ai_framework.Execution.BrokerSync.{filled_quantity_by_order, of_order}

scale_one : (c : ℤ) → scale c 1 ≡ c
scale_one (pos n) = ground arith
scale_one (negsuc n) = ground arith

rest_of_rest : (x a : ℤ) → x -ℤ (a +ℤ (x -ℤ a)) ≡ pos 0
unfolding ◌+ℤ◌ ◌-ℤ◌
rest_of_rest x a = ground arith

-- After adding what is missing, nothing is missing.
pub nothing_missing : (q a : Decimal) → (sub q (add a (sub q a))).coefficient ≡ pos 0
unfolding sub add
nothing_missing q a =
    let P : ℕ = max q.places a.places in
    let e₁ : max a.places P ≡ P = omega arith in
    let e₂ : max q.places P ≡ P = omega arith in
    let e₃ : P - P ≡ 0 = omega arith in rw (e₁, e₂, e₃, scale_one, scale_one) (rest_of_rest _ _)

summed_from :
    (id : ℕ) (sum : Decimal) (trades : List Trade) (t : Trade)
    → foldl (of_order id) sum (trades ++ (t ∷ [])) ≡ of_order id (foldl (of_order id) sum trades) t
summed_from id sum [] t = refl
summed_from id sum (x ∷ trades) t = summed_from id (of_order id sum x) trades t

-- A new trade of the order adds its quantity.
pub filled_quantity-append :
    (trades : List Trade) (t : Trade)
    → filled_quantity_by_order t.order_id (trades ++ (t ∷ []))
      ≡ add (filled_quantity_by_order t.order_id trades) t.quantity
unfolding filled_quantity_by_order
filled_quantity-append trades t =
    let same : (t.order_id == t.order_id) ≡ true = ground arith in
    summed_from t.order_id nought trades t ∙ rw same refl

pub not_more : (d : Decimal) → d.coefficient ≡ pos 0 → Decimal.lt nought d ≡ false
not_more d e = rw e (ground arith)

scale-pos_part : (c : ℤ) (m : ℕ) → pos_part (scale c m) ≡ pos_part c * m
scale-pos_part (pos n) m = refl
scale-pos_part (negsuc n) m = ground arith

scale-neg_part : (c : ℤ) (m : ℕ) → neg_part (scale c m) ≡ neg_part c * m
scale-neg_part (pos n) m = omega arith
scale-neg_part (negsuc n) m = ground arith

-- An inequality between fractions that are expanded to a common denominator.
expanded :
    (A B X Y a b c d : ℕ)
    → A * X ≡ B * Y
    → 0 < A * X
    → a * X + b * Y ≤ c * Y + d * X
    → a * B + b * A ≤ c * A + d * B
expanded A B X Y a b c d e m k =
    let left : (a * B + b * A) * (A * X) ≡ (a * X + b * Y) * (A * B) =
      omega (arith, ap (λ (t : ℕ). b * A * t) e) in
    let right : (c * A + d * B) * (A * X) ≡ (c * Y + d * X) * (A * B) =
      omega (arith, ap (λ (t : ℕ). c * A * t) e) in
    le_of_mul-le-mul_right (rw (left, right) (mul-le-mul_right (A * B) k)) m

difference-le :
    (x y : ℤ) (p : ℕ)
    → Decimal.lt nought (record { coefficient = x -ℤ y; places = p }) ≡ false
    → pos_part x + neg_part y ≤ pos_part y + neg_part x
unfolding ◌-ℤ◌
difference-le x y p h = ground arith

-- Where the difference is not positive, the first number is at most the second.
pub no_rest : (q a : Decimal) → Decimal.lt nought (sub q a) ≡ false → q ≼ a
unfolding sub
no_rest q a h =
    let x : ℕ = max q.places a.places - q.places in
    let y : ℕ = max q.places a.places - a.places in
    expanded (10 ^ q.places) (10 ^ a.places) (10 ^ x) (10 ^ y) (pos_part q.coefficient)
      (neg_part a.coefficient) (pos_part a.coefficient) (neg_part q.coefficient)
      (sym (pow-add q.places x) ∙ (ap (λ (n : ℕ). 10 ^ n) (omega arith) ∙ pow-add a.places y))
      (rw (sym (pow-add q.places x)) (pow-pos _))
      (rw (scale-pos_part, scale-neg_part, scale-pos_part, scale-neg_part) at
        (difference-le _ _ _ h))
