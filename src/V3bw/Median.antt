-- ===== src/V3bw/Median.antt =====
-- compare_longs and calc_median. `qsort` of the C library sorts by insertion here: any sort gives the
-- same list of numbers.
use mathlib.Core.List.{Permᴰ}
use mathlib.Core.List.Permᴰ
use flashflow_research.Prelude.{
  ℕ, zero, suc, ◌+◌, ◌/◌, ◌≤◌, ◌<◌, ◌≡◌, inl, inr, refl, ap, Bool, true, false, List, [], ◌∷◌,
  arith, leb, if◌then◌else◌, Bool-cases, length, get_or, take, All, count_if, length-take_of_le,
}
use flashflow_research.Prelude.Perms.{length-perm}
use flashflow_research.Prelude.Int.{ℤ, pos, pos_part, neg_part, minus_one, ltb_ℤ, ◌≤ℤ◌}

abbrev pub leb_ℤ : ℤ → ℤ → Bool
leb_ℤ a b = leb (pos_part a + neg_part b) (pos_part b + neg_part a)

unfoldable pub compare_longs : ℤ → ℤ → ℤ
compare_longs aa bb = if ltb_ℤ aa bb then minus_one else if leb_ℤ aa bb then pos 0 else pos 1

unfoldable pub insert_by : (ℤ → ℤ → ℤ) → ℤ → List ℤ → List ℤ
insert_by cmp x [] = x ∷ []
insert_by cmp x (y ∷ ys) = if leb_ℤ (cmp x y) (pos 0) then x ∷ y ∷ ys else y ∷ insert_by cmp x ys

unfoldable pub qsort : (ℤ → ℤ → ℤ) → List ℤ → List ℤ
unfolding insert_by
qsort cmp [] = []
qsort cmp (x ∷ xs) = insert_by cmp x (qsort cmp xs)

-- The array is read up to `len`.
unfoldable pub calc_median : List ℤ → ℕ → ℤ
calc_median array_in zero = pos 0
calc_median array_in (suc zero) = get_or array_in 0 (pos 0)
calc_median array_in (suc (suc n)) =
    get_or (qsort compare_longs (take (suc (suc n)) array_in)) (suc (suc n) / 2) (pos 0)

IsSorted : List ℤ → Type 0
IsSorted [] = Unit
IsSorted (x ∷ xs) = All (λ y. x ≤ℤ y) xs × IsSorted xs

insert_by-perm : (x : ℤ) (ys : List ℤ) → Permᴰ (insert_by compare_longs x ys) (x ∷ ys)
unfolding insert_by
insert_by-perm x [] = Permᴰ.refl (x ∷ [])
insert_by-perm x (y ∷ ys) = elim (Bool-cases (leb_ℤ (compare_longs x y) (pos 0))) [
  | inl before ↦ rw before (Permᴰ.refl (x ∷ y ∷ ys))
  | inr after ↦
      rw after (Permᴰ.trans (Permᴰ.cons refl (insert_by-perm x ys)) (Permᴰ.swap refl refl))
]

qsort-perm : (xs : List ℤ) → Permᴰ (qsort compare_longs xs) xs
unfolding qsort
qsort-perm [] = Permᴰ.nil
qsort-perm (x ∷ xs) =
    Permᴰ.trans (insert_by-perm x (qsort compare_longs xs)) (Permᴰ.cons refl (qsort-perm xs))

All-le-insert_by :
    (z x : ℤ) (ys : List ℤ)
    → z ≤ℤ x
    → All (λ y. z ≤ℤ y) ys
    → All (λ y. z ≤ℤ y) (insert_by compare_longs x ys)
unfolding insert_by
All-le-insert_by z x [] h k = (h, tt)
All-le-insert_by z x (y ∷ ys) h k = elim (Bool-cases (leb_ℤ (compare_longs x y) (pos 0))) [
  | inl before ↦ rw before (h, k)
  | inr after ↦ rw after (k.0, All-le-insert_by z x ys h k.1)
]

All-le_trans : (x y : ℤ) (ys : List ℤ) → x ≤ℤ y → All (λ z. y ≤ℤ z) ys → All (λ z. x ≤ℤ z) ys
All-le_trans x y [] h k = tt
All-le_trans x y (z ∷ zs) h k = (omega arith, All-le_trans x y zs h k.1)

compare_longs_le : (x y : ℤ) → leb_ℤ (compare_longs x y) (pos 0) ≡ true → x ≤ℤ y
unfolding compare_longs
compare_longs_le x y h = ground arith

compare_longs_ge : (x y : ℤ) → leb_ℤ (compare_longs x y) (pos 0) ≡ false → y ≤ℤ x
unfolding compare_longs
compare_longs_ge x y h = ground arith

insert_by-IsSorted : (x : ℤ) (ys : List ℤ) → IsSorted ys → IsSorted (insert_by compare_longs x ys)
unfolding insert_by IsSorted
insert_by-IsSorted x [] h = (tt, tt)
insert_by-IsSorted x (y ∷ ys) h = elim (Bool-cases (leb_ℤ (compare_longs x y) (pos 0))) [
  | inl before ↦
      let le = compare_longs_le x y before in rw before ((le, All-le_trans x y ys le h.0), h)
  | inr after ↦
      rw after
        (All-le-insert_by y x ys (compare_longs_ge x y after) h.0, insert_by-IsSorted x ys h.1)
]

qsort-IsSorted : (xs : List ℤ) → IsSorted (qsort compare_longs xs)
unfolding qsort IsSorted
qsort-IsSorted [] = tt
qsort-IsSorted (x ∷ xs) = insert_by-IsSorted x (qsort compare_longs xs) (qsort-IsSorted xs)

pub count_if-perm : (p : ℤ → Bool) {xs ys : List ℤ} → Permᴰ xs ys → count_if p xs ≡ count_if p ys
count_if-perm p Permᴰ.nil = refl
count_if-perm p (Permᴰ.cons {a = a} {b = b} e q) = ground (arith, ap p e, count_if-perm p q)
count_if-perm p (Permᴰ.swap e f) = ground (arith, ap p e, ap p f)
count_if-perm p (Permᴰ.trans q r) = omega (arith, count_if-perm p q, count_if-perm p r)

none_below : (v : ℤ) (xs : List ℤ) → All (λ y. v ≤ℤ y) xs → count_if (λ x. ltb_ℤ x v) xs ≡ 0
none_below v [] h = refl
none_below v (x ∷ xs) h = ground (arith, none_below v xs h.1)

All-get_or :
    (v d : ℤ) (i : ℕ) (xs : List ℤ) → i < length xs → All (λ y. v ≤ℤ y) xs → v ≤ℤ get_or xs i d
All-get_or v d i [] h k = absurd (omega arith)
All-get_or v d zero (x ∷ xs) h k = k.0
All-get_or v d (suc i) (x ∷ xs) h k = All-get_or v d i xs (omega arith) k.1

-- What stands at index `i` of a sorted list has at most `i` smaller numbers in it, and more than `i`
-- that are no larger.
sorted_rank :
    (i : ℕ) (xs : List ℤ)
    → IsSorted xs
    → i < length xs
    → (count_if (λ x. ltb_ℤ x (get_or xs i (pos 0))) xs ≤ i)
      × (i < count_if (λ x. leb_ℤ x (get_or xs i (pos 0))) xs)
unfolding IsSorted
sorted_rank i [] s h = absurd (omega arith)
sorted_rank zero (x ∷ xs) s h = ground (arith, none_below x xs s.0)
sorted_rank (suc i) (x ∷ xs) s h =
    ground (arith, sorted_rank i xs s.1, All-get_or x (pos 0) i xs (omega arith) s.0)

median_rank :
    (n : ℕ) (xs : List ℤ)
    → suc (suc n) ≤ length xs
    → let v = get_or (qsort compare_longs (take (suc (suc n)) xs)) (suc (suc n) / 2) (pos 0) in
      (count_if (λ x. ltb_ℤ x v) (take (suc (suc n)) xs) ≤ suc (suc n) / 2)
      × (suc (suc n) / 2 < count_if (λ x. leb_ℤ x v) (take (suc (suc n)) xs))
median_rank n xs k =
    let part = take (suc (suc n)) xs in
    let sorted = qsort compare_longs part in
    let perm = qsort-perm part in
    let v = get_or sorted (suc (suc n) / 2) (pos 0) in
    let size = length-take_of_le (suc (suc n)) xs k in
    let middle : suc (suc n) / 2 < length sorted = omega (arith, length-perm perm, size) in
    let rank = sorted_rank (suc (suc n) / 2) sorted (qsort-IsSorted part) middle in
    let smaller = count_if-perm (λ x. ltb_ℤ x v) perm in
    let no_larger = count_if-perm (λ x. leb_ℤ x v) perm in
    (rw (← smaller) rank.0, rw (← no_larger) rank.1)

-- The median of the first `len` numbers, when there are that many and one at least: at most
-- `len / 2` of them are smaller, and more than `len / 2` are no larger.
pub calc_median_lem :
    (xs : List ℤ) (len : ℕ)
    → 0 < len
    → len ≤ length xs
    → (count_if (λ x. ltb_ℤ x (calc_median xs len)) (take len xs) ≤ len / 2)
      × (len / 2 < count_if (λ x. leb_ℤ x (calc_median xs len)) (take len xs))
unfolding calc_median
calc_median_lem xs zero h k = absurd (omega arith)
calc_median_lem [] (suc zero) h k = absurd (omega arith)
calc_median_lem (x ∷ xs) (suc zero) h k = ground arith
calc_median_lem xs (suc (suc n)) h k = median_rank n xs k
