-- ===== src/Sched/Count.antt =====
-- Lists of ids as sets: membership, and counting the members of one list in another.
use mathlib.Core.List.{Permᴰ}
use flashflow_research.Prelude.{
  ◌∙◌, ℕ, suc, ◌+◌, ◌≤◌, ◌≡◌, inl, inr, refl, ap, Bool, true, false, not, ◌&&◌, List, [], ◌∷◌, ◌++◌,
  arith, ◌==◌, if◌then◌else◌, Bool-cases, length, count_if, keep_if, count_if-le-length,
}

-- `Vec::contains`
abbrev pub contains : List ℕ → ℕ → Bool
contains [] a = false
contains (x ∷ xs) a = if a == x then true else contains xs a

-- No id twice: the set of the ids is as large as the list.
abbrev pub distinct : List ℕ → Bool
distinct [] = true
distinct (x ∷ xs) = not (contains xs x) && distinct xs

abbrev pub all_contained : List ℕ → List ℕ → Bool
all_contained known [] = true
all_contained known (d ∷ ds) = contains known d && all_contained known ds

pub contains-append :
    (xs ys : List ℕ) (a : ℕ)
    → contains (xs ++ ys) a ≡ (if contains xs a then true else contains ys a)
contains-append [] ys a = refl
contains-append (x ∷ xs) ys a = ground (arith, contains-append xs ys a)

pub length-keep_if {ℓ} :
    {A : Type ℓ} (p : A → Bool) (xs : List A) → length (keep_if p xs) ≡ count_if p xs
length-keep_if p [] = refl
length-keep_if p (x ∷ xs) = ground (arith, length-keep_if p xs)

pub keep_if-append {ℓ} :
    {A : Type ℓ} (p : A → Bool) (xs ys : List A)
    → keep_if p (xs ++ ys) ≡ keep_if p xs ++ keep_if p ys
keep_if-append p [] ys = refl
keep_if-append p (x ∷ xs) ys = ground (arith, keep_if-append p xs ys)

-- How often an id stands in a list.
abbrev times : ℕ → List ℕ → ℕ
times a = count_if (λ x. x == a)

pub contains_same : (ds : List ℕ) {d x : ℕ} → x ≡ d → contains ds x ≡ contains ds d
contains_same ds e = ap (contains ds) e

times-distinct :
    (a : ℕ) (xs : List ℕ) → distinct xs ≡ true → times a xs ≤ (if contains xs a then 1 else 0)
times-distinct a [] h = omega arith
times-distinct a (x ∷ xs) h = ground (arith, times-distinct a xs, contains_eq x)
  where
    contains_eq : (y : ℕ) → y ≡ a → contains xs y ≡ contains xs a
    contains_eq y e = ap (contains xs) e

count_cons :
    (d : ℕ) (ds xs : List ℕ)
    → count_if (contains (d ∷ ds)) xs ≤ times d xs + count_if (contains ds) xs
count_cons d ds [] = omega arith
count_cons d ds (x ∷ xs) = ground (arith, count_cons d ds xs)

count_nil : (xs : List ℕ) → count_if (contains []) xs ≡ 0
count_nil [] = refl
count_nil (x ∷ xs) = count_nil xs

count_repeated :
    (d : ℕ) (ds xs : List ℕ)
    → contains ds d ≡ true
    → count_if (contains (d ∷ ds)) xs ≡ count_if (contains ds) xs
count_repeated d ds [] h = refl
count_repeated d ds (x ∷ xs) h =
    ground (arith, count_repeated d ds xs h, contains_same ds {d = d} {x = x})

-- Where no id stands twice in `xs`, it has at most as many members in `ds` as `ds` has entries in `xs`.
pub count-le-count :
    (ds xs : List ℕ) → distinct xs ≡ true → count_if (contains ds) xs ≤ count_if (contains xs) ds
count-le-count [] xs h = omega (arith, count_nil xs)
count-le-count (d ∷ ds) xs h =
    ground (arith, count-le-count ds xs h, count_cons d ds xs, times-distinct d xs h)

-- Every entry is counted only if every entry is a member.
pub count_all-contained :
    (ds xs : List ℕ) → length ds ≤ count_if (contains xs) ds → all_contained xs ds ≡ true
count_all-contained [] xs h = refl
count_all-contained (d ∷ ds) xs h =
    ground (arith, count_all-contained ds xs, count_if-le-length (contains xs) ds)

pub all_contained-count :
    (ds xs : List ℕ) → all_contained xs ds ≡ true → count_if (contains xs) ds ≡ length ds
all_contained-count [] xs h = refl
all_contained-count (d ∷ ds) xs h = ground (arith, all_contained-count ds xs)

-- A list with an entry twice has fewer members in a list without repetition than it has entries.
pub count-lt-length :
    (ds xs : List ℕ)
    → distinct xs ≡ true
    → distinct ds ≡ false
    → suc (count_if (contains ds) xs) ≤ length ds
count-lt-length [] xs h k = cc
count-lt-length (d ∷ ds) xs h k = elim (Bool-cases (contains ds d)) [
  | inl twice ↦ omega (
    arith,
    count_repeated d ds xs twice,
    count-le-count ds xs h,
    count_if-le-length (contains xs) ds,
  )
  | inr once ↦ ground (
    arith,
    count-lt-length ds xs h,
    count_cons d ds xs,
    times-distinct d xs h,
    count_if-le-length (contains xs) ds,
  )
]

pub distinct-append_one :
    (xs : List ℕ) (a : ℕ)
    → distinct xs ≡ true
    → contains xs a ≡ false
    → distinct (xs ++ a ∷ []) ≡ true
distinct-append_one [] a h k = refl
distinct-append_one (x ∷ xs) a h k =
    ground (arith, distinct-append_one xs a, contains-append xs (a ∷ []) x)

-- The order of a list of ids does not matter.
pub contains-perm : (a : ℕ) {xs ys : List ℕ} → Permᴰ xs ys → contains xs a ≡ contains ys a
contains-perm a Permᴰ.nil = refl
contains-perm a (Permᴰ.cons e p) = ground (arith, contains-perm a p)
contains-perm a (Permᴰ.swap e f) = ground arith
contains-perm a (Permᴰ.trans p q) = contains-perm a p ∙ contains-perm a q

pub distinct-perm : {xs ys : List ℕ} → Permᴰ xs ys → distinct xs ≡ distinct ys
distinct-perm Permᴰ.nil = refl
distinct-perm (Permᴰ.cons {a = a} {b = b} {l₁ = xs} {l₂ = ys} e p) =
    ground (arith, distinct-perm p, contains-perm a p, contains_same ys {d = a} {x = b})
distinct-perm (Permᴰ.swap {a = a} {b = b} {a' = c} {b' = d} {l = l} e f) =
    ground (arith, contains_same l {d = a} {x = d}, contains_same l {d = b} {x = c})
distinct-perm (Permᴰ.trans p q) = distinct-perm p ∙ distinct-perm q

pub all_contained-append_one :
    (known xs : List ℕ) (a : ℕ)
    → all_contained known xs ≡ true
    → contains known a ≡ true
    → all_contained known (xs ++ a ∷ []) ≡ true
all_contained-append_one known [] a h k = ground arith
all_contained-append_one known (x ∷ xs) a h k = ground (arith, all_contained-append_one known xs a)
