-- ===== src/V3bw/Order.antt =====
-- v3bw.c: the median against the order of the results.
use mathlib.Core.List.{Memᴰ, Permᴰ}
use mathlib.Core.List.Permᴰ
use mathlib.Core.Quot
use mathlib.Core.Quot.{Quot, Quot-set}
use flashflow_research.Prelude.{
  ℕ, ◌/◌, ◌≤◌, ◌<◌, ◌≡◌, inl, inr, refl, ap, true, List, [], ◌∷◌, arith, length, take_all, count_if,
  Bool-cases,
}
use flashflow_research.Prelude.Perms.{length-perm}
use flashflow_research.Prelude.Int.{ℤ, pos, negsuc, ltb_ℤ, ◌≤ℤ◌}
use flashflow_research.V3bw.Median.{leb_ℤ, calc_median, count_if-perm, calc_median_lem}

le_antisymm : (a b : ℤ) → a ≤ℤ b → b ≤ℤ a → a ≡ b
le_antisymm (pos a) (pos b) h k = ap pos (omega arith)
le_antisymm (pos a) (negsuc b) h k = absurd (omega arith)
le_antisymm (negsuc a) (pos b) h k = absurd (omega arith)
le_antisymm (negsuc a) (negsuc b) h k = ap negsuc (omega arith)

-- What is no larger than one number is smaller than a larger one.
count-le-lt :
    (v u : ℤ) (xs : List ℤ)
    → ltb_ℤ v u ≡ true
    → count_if (λ x. leb_ℤ x v) xs ≤ count_if (λ x. ltb_ℤ x u) xs
count-le-lt v u [] h = omega arith
count-le-lt v u (x ∷ xs) h = ground (arith, h, count-le-lt v u xs h)

-- The number of a rank is no larger than another of the same rank.
ranked_le :
    (v u : ℤ) (k : ℕ) (xs : List ℤ)
    → k < count_if (λ x. leb_ℤ x v) xs
    → count_if (λ x. ltb_ℤ x u) xs ≤ k
    → u ≤ℤ v
ranked_le v u k xs h l = elim (Bool-cases (ltb_ℤ v u)) [
  | inl less ↦ absurd (omega (arith, count-le-lt v u xs less, h, l))
  | inr no_less ↦ ground (arith, no_less)
]

-- A number of the rank that the median has.
abbrev pub Ranked : List ℤ → ℤ → Type 0
Ranked l v =
    (count_if (λ x. ltb_ℤ x v) l ≤ length l / 2) × (length l / 2 < count_if (λ x. leb_ℤ x v) l)

calc_median-Ranked : (l : List ℤ) → 0 < length l → Ranked l (calc_median l (length l))
calc_median-Ranked l h =
    rw (take_all (length l) l (omega arith)) at (calc_median_lem l (length l) h (omega arith))

same_rank : (l l' : List ℤ) (v u : ℤ) → Permᴰ l l' → Ranked l v → Ranked l' u → v ≡ u
same_rank l l' v u p a b =
    let size = length-perm p in
    let below = count_if-perm (λ x. ltb_ℤ x v) p in
    let upto = count_if-perm (λ x. leb_ℤ x v) p in
    le_antisymm v u (ranked_le u v (length l' / 2) l' b.1 (ground (arith, a.0, size, below)))
      (ranked_le v u (length l' / 2) l' (ground (arith, a.1, size, upto)) b.0)

-- The results in any order have the same median.
calc_median-perm :
    (xs ys : List ℤ) → Permᴰ xs ys → calc_median xs (length xs) ≡ calc_median ys (length ys)
unfolding calc_median
calc_median-perm [] [] p = refl
calc_median-perm [] (y ∷ ys) p = absurd (omega (arith, length-perm p))
calc_median-perm (x ∷ xs) [] p = absurd (omega (arith, length-perm p))
calc_median-perm (x ∷ xs) (y ∷ ys) p =
    same_rank (x ∷ xs) (y ∷ ys) _ _ p (calc_median-Ranked (x ∷ xs) (omega arith))
      (calc_median-Ranked (y ∷ ys) (omega arith))

ℤ_set : IsSet ℤ
ℤ_set = hlevel

-- The results of a relay, without their order.
abbrev pub Bag : Type 0
Bag = Quot (λ (xs ys : List ℤ). Permᴰ xs ys)

-- A number of the rank lies between the counts, so that it is in the list.
count-Mem :
    (v : ℤ) (xs : List ℤ) → count_if (λ x. ltb_ℤ x v) xs < count_if (λ x. leb_ℤ x v) xs → Memᴰ v xs
count-Mem v [] h = absurd (omega arith)
count-Mem v (x ∷ xs) h = elim (Bool-cases (ltb_ℤ x v)) [
  | inl less ↦ Memᴰ.tail (count-Mem v xs (ground (arith, less, h)))
  | inr no_less ↦ elim (Bool-cases (leb_ℤ x v)) [
    | inl upto ↦ Memᴰ.head (le_antisymm v x (ground (arith, no_less)) (ground (arith, upto)))
    | inr more ↦ Memᴰ.tail (count-Mem v xs (ground (arith, no_less, more, h)))
  ]
]

-- The median of a list: it is one of the numbers, and the only number that has the middle rank.
abbrev pub IsMedian : List ℤ → ℤ → Type 0
IsMedian xs v = Memᴰ v xs × Ranked xs v × ((u : ℤ) → Ranked xs u → u ≡ v)

calc_median-IsMedian : (xs : List ℤ) → 0 < length xs → IsMedian xs (calc_median xs (length xs))
calc_median-IsMedian xs h =
    let r = calc_median-Ranked xs h in
    (
      count-Mem (calc_median xs (length xs)) xs (omega (arith, r.0, r.1)),
      r,
      λ u q. same_rank xs xs u (calc_median xs (length xs)) (Permᴰ.refl xs) q r,
    )

-- The median belongs to the results and not to their order: there is a function of the results
-- without their order that gives what calc_median gives of the array, and of at least one result
-- that is one of the results, and the only number of which at most half as many as there are,
-- rounded down, are smaller and more than that many are no larger.
pub calc_median-Bag :
    (f : Bag → ℤ) × ((xs : List ℤ) → f (Quot.mk xs) ≡ calc_median xs (length xs))
    × ((xs : List ℤ) → 0 < length xs → IsMedian xs (f (Quot.mk xs)))
calc_median-Bag =
    let f : Bag → ℤ = Quot.lift ℤ_set (λ xs. calc_median xs (length xs)) calc_median-perm in
    (f, λ xs. refl, calc_median-IsMedian)
