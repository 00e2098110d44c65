-- ===== src/MarketData/Validation/Ascending.antt =====
-- Lists of times that ascend, and the sorting of those without duplicates
-- (backend/app/modules/market_data/intraday_validation.py).
use trading_ai_framework.Prelude.{
  ℕ, zero, suc, ◌+◌, ◌*◌, ◌≡◌, ◌<◌, ◌≤◌, refl, ap, ◌∙◌, inl, inr, Bool, true, false, ◌||◌, List, [],
  ◌∷◌, ◌++◌, arith, leb, ◌==◌, All, Bool-cases, if◌then◌else◌,
}
use trading_ai_framework.MarketData.Calendar.{is_among, bar_interval}
use trading_ai_framework.MarketData.Calendar.Sessions.{starts}

abbrev pub Ascending : List ℕ → Type 0
Ascending [] = Unit {0}
Ascending (x ∷ xs) = All (λ y. x < y) xs × Ascending xs

pub is_among-All : (P : ℕ → Type 0) (n : ℕ) (xs : List ℕ) → All P xs → is_among n xs ≡ true → P n
unfolding is_among
is_among-All P n [] all h = absurd (ground arith)
is_among-All P n (x ∷ xs) (p, all) h = elim (Bool-cases (n == x)) [
  | inl e ↦ let same : n ≡ x = ground arith in rw same p
  | inr e ↦ is_among-All P n xs all (ground arith)
]

-- A number below the members is none of them.
pub not_among : (n : ℕ) (xs : List ℕ) → All (λ y. n < y) xs → is_among n xs ≡ false
unfolding is_among
not_among n [] all = refl
not_among n (x ∷ xs) (p, all) = ground (arith, not_among n xs all)

-- Lists that ascend and have the same members are equal.
module _ (x : ℕ) (xs : List ℕ) (y : ℕ) (ys : List ℕ) (above : All (λ z. x < z) xs)
    (beyond : All (λ z. y < z) ys)
    (same : (n : ℕ) → is_among n (x ∷ xs) ≡ is_among n (y ∷ ys)) where
  heads : x ≡ y
  unfolding is_among
  heads = elim (Bool-cases (x == y)) [
    | inl e ↦ ground arith
    | inr e ↦
        let low : y < x = is_among-All (λ z. y < z) x ys beyond (ground (arith, same x)) in
        let high : x < y = is_among-All (λ z. x < z) y xs above (ground (arith, same y)) in
        absurd (omega (arith, low, high))
  ]

  tails : (n : ℕ) → is_among n xs ≡ is_among n ys
  unfolding is_among
  tails n = elim (Bool-cases (n == x)) [
    | inl e ↦ ground (arith, not_among x xs above, not_among y ys beyond, heads)
    | inr e ↦ ground (arith, same n, heads)
  ]

pub Ascending-unique :
    (xs ys : List ℕ)
    → Ascending xs
    → Ascending ys
    → ((n : ℕ) → is_among n xs ≡ is_among n ys)
    → xs ≡ ys
unfolding is_among
Ascending-unique [] [] a b same = refl
Ascending-unique [] (y ∷ ys) a b same = absurd (ground (arith, same y))
Ascending-unique (x ∷ xs) [] a b same = absurd (ground (arith, same x))
Ascending-unique (x ∷ xs) (y ∷ ys) (above, a) (beyond, b) same =
    rw (heads x xs y ys above beyond same)
      (ap (λ (l : List ℕ). y ∷ l) (Ascending-unique xs ys a b (tails x xs y ys above beyond same)))

pub All-map : (P Q : ℕ → Type 0) (xs : List ℕ) → ((n : ℕ) → P n → Q n) → All P xs → All Q xs
All-map P Q [] f all = tt
All-map P Q (x ∷ xs) f (p, all) = (f x p, All-map P Q xs f all)

pub All-append : (P : ℕ → Type 0) (xs ys : List ℕ) → All P xs → All P ys → All P (xs ++ ys)
All-append P [] ys all rest = rest
All-append P (x ∷ xs) ys (p, all) rest = (p, All-append P xs ys all rest)

-- The times before a bound, and then those from it on.
pub Ascending-append :
    (bound : ℕ) (xs ys : List ℕ)
    → Ascending xs
    → All (λ x. x < bound) xs
    → Ascending ys
    → All (λ y. bound ≤ y) ys
    → Ascending (xs ++ ys)
Ascending-append bound [] ys a below b from = b
Ascending-append bound (x ∷ xs) ys (above, a) (p, below) b from = (
  All-append (λ z. x < z) xs ys above
      (All-map (λ z. bound ≤ z) (λ z. x < z) ys (λ z q. omega (arith, p, q)) from),
  Ascending-append bound xs ys a below b from,
)

pub starts-All :
    (lo hi n t : ℕ)
    → lo ≤ t
    → t + n * bar_interval ≤ hi
    → All (λ x. (lo ≤ x) × (x < hi)) (starts n t)
starts-All lo hi zero t h k = tt
starts-All lo hi (suc n) t h k =
    ((h, omega arith), starts-All lo hi n (t + bar_interval) (omega arith) (omega arith))

pub starts-Ascending : (n t : ℕ) → Ascending (starts n t)
starts-Ascending zero t = tt
starts-Ascending (suc n) t = (
  All-map (λ x. (suc t ≤ x) × (x < t + bar_interval + n * bar_interval)) (λ x. t < x)
      (starts n (t + bar_interval)) (λ x (p, q). p)
      (starts-All (suc t) _ n (t + bar_interval) (omega arith) (omega arith)),
  starts-Ascending n (t + bar_interval),
)

-- Sorting.
unfoldable pub insert : ℕ → List ℕ → List ℕ
insert x [] = x ∷ []
insert x (y ∷ ys) = let later = y ∷ insert x ys in if leb x y then x ∷ y ∷ ys else later

unfoldable pub sort : List ℕ → List ℕ
unfolding insert
sort [] = []
sort (x ∷ xs) = insert x (sort xs)

is_among-insert : (n x : ℕ) (xs : List ℕ) → is_among n (insert x xs) ≡ ((n == x) || is_among n xs)
unfolding insert is_among
is_among-insert n x [] = refl
is_among-insert n x (y ∷ ys) = ground (arith, is_among-insert n x ys)

pub is_among-sort : (n : ℕ) (xs : List ℕ) → is_among n (sort xs) ≡ is_among n xs
unfolding sort is_among
is_among-sort n [] = refl
is_among-sort n (x ∷ xs) =
    is_among-insert n x (sort xs) ∙ ap (λ (b : Bool). (n == x) || b) (is_among-sort n xs)

insert-All : (P : ℕ → Type 0) (x : ℕ) (xs : List ℕ) → P x → All P xs → All P (insert x xs)
unfolding insert
insert-All P x [] p all = (p, tt)
insert-All P x (y ∷ ys) p (q, all) = elim (Bool-cases (leb x y)) [
  | inl e ↦ rw e (p, (q, all))
  | inr e ↦ rw e (q, insert-All P x ys p all)
]

pub insert-Ascending :
    (x : ℕ) (xs : List ℕ) → is_among x xs ≡ false → Ascending xs → Ascending (insert x xs)
unfolding insert is_among
insert-Ascending x [] h a = (tt, tt)
insert-Ascending x (y ∷ ys) h (above, a) = elim (Bool-cases (leb x y)) [
  | inl e ↦
      let low : x < y = ground arith in
      rw e (
        (low, All-map (λ z. y < z) (λ z. x < z) ys (λ z q. omega (arith, low, q)) above),
        (above, a),
      )
  | inr e ↦
      rw e
        (insert-All (λ z. y < z) x ys (ground arith) above, insert-Ascending x ys (ground arith) a)
]
