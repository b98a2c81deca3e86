-- ===== src/V3bw/Info/Sums.antt =====
-- msm_info_add against the sums that it is to keep.
use mathlib.Core.List.{append-nil, append_assoc}
use flashflow_research.Prelude.{
  ℕ, zero, suc, ◌+◌, ◌-◌, ◌≤◌, ◌<◌, ◌≡◌, ◌⊎◌, inl, inr, refl, ap, ◌∙◌, List, [], ◌∷◌, ◌++◌, Result,
  Returns, Returns-bind, Returns-map, ok, ◌>>=◌, arith, leb, ltb, ◌==◌, if◌then◌else◌, Bool-cases,
  length, set, get_or, replicate, length-set, get_or-set, leb→le, le→leb, ltb→lt, lt→ltb,
}
use flashflow_research.Prelude.Text.{Bytes, long_max}
use flashflow_research.V3bw.Info.{num_msms, MsmInfo, msm_info_init, count_at, msm_info_add}

-- A result that was read: its time and its bandwidth.
pub record Sample : Type 0 where
  pub ts : ℕ
  pub bw : ℕ

-- The results after the first one of a relay, one by one.
unfoldable pub add_all : MsmInfo → List Sample → Result MsmInfo
add_all msm [] = ok msm
add_all msm (s ∷ ss) = do msm' ← msm_info_add msm s.ts s.bw; add_all msm' ss

-- What is to stand for a second: the sum of the bandwidths of all results with that time.
unfoldable pub sum_at : ℕ → List Sample → ℕ
sum_at t [] = 0
sum_at t (s ∷ ss) = (if s.ts == t then s.bw else 0) + sum_at t ss

unfoldable pub total : List Sample → ℕ
total [] = 0
total (s ∷ ss) = s.bw + total ss

sum_at-append : (t : ℕ) (xs ys : List Sample) → sum_at t (xs ++ ys) ≡ sum_at t xs + sum_at t ys
unfolding sum_at
sum_at-append t [] ys = omega arith
sum_at-append t (x ∷ xs) ys = omega (arith, sum_at-append t xs ys)

sum_at-le-total : (t : ℕ) (xs : List Sample) → sum_at t xs ≤ total xs
unfolding sum_at total
sum_at-le-total t [] = omega arith
sum_at-le-total t (x ∷ xs) = ground (arith, sum_at-le-total t xs)

-- The record stands for the results: the sum of each of the 60 seconds from the first on, and no
-- result in a second past those used.
pub record Represents (samples : List Sample) (msm : MsmInfo) : Type 0 where
  pub size : length msm.msms ≡ num_msms
  pub sums : (k : ℕ) → k < num_msms → get_or msm.msms k 0 ≡ sum_at (msm.first + k) samples
  pub some_used : 0 < msm.used
  pub used_fits : msm.used ≤ num_msms
  pub unused : (k : ℕ) → msm.used ≤ k → k < num_msms → get_or msm.msms k 0 ≡ 0

replicate-zero : (n k : ℕ) → get_or {A = ℕ} (replicate n 0) k 0 ≡ 0
replicate-zero zero k = refl
replicate-zero (suc n) zero = refl
replicate-zero (suc n) (suc k) = replicate-zero n k

init-Represents : (fp : Bytes) (s : Sample) → Represents (s ∷ []) (msm_info_init fp s.ts s.bw)
unfolding msm_info_init sum_at
init-Represents fp s = record {
  size = refl;
  sums = sums;
  some_used = omega arith;
  used_fits = omega arith;
  unused = unused;
}
  where
    sums : (k : ℕ) → k < num_msms → get_or (s.bw ∷ replicate 59 0) k 0 ≡ sum_at (s.ts + k) (s ∷ [])
    sums zero h = ground arith
    sums (suc k) h = ground (arith, replicate-zero 59 k)

    unused : (k : ℕ) → 1 ≤ k → k < num_msms → get_or (s.bw ∷ replicate 59 0) k 0 ≡ 0
    unused zero h l = absurd (omega arith)
    unused (suc k) h l = replicate-zero 59 k

same_entry : (xs : List ℕ) (k o : ℕ) → k ≡ o → get_or xs k 0 ≡ get_or xs o 0
same_entry xs k o e = ap (λ i. get_or xs i 0) e

-- The array after a bandwidth was counted at offset `o`, with the seconds used extended up to it.
counted-Represents :
    (samples : List Sample) (msm : MsmInfo) (s : Sample) (o u : ℕ)
    → Represents samples msm
    → s.ts ≡ msm.first + o
    → o < num_msms
    → msm.used ≤ u
    → o < u
    → u ≤ num_msms
    → Represents
        (samples ++ s ∷ [])
        (record msm { msms = set msm.msms o (get_or msm.msms o 0 + s.bw); used = u })
unfolding sum_at
counted-Represents samples msm s o u r at lt grows covers fits = record {
  size = length-set msm.msms o _ ∙ r.size;
  sums = λ k h. ground (
    arith,
    get_or-set msm.msms o (get_or msm.msms o 0 + s.bw) k 0,
    sum_at-append (msm.first + k) samples (s ∷ []),
    r.sums k h,
    same_entry msm.msms k o,
    r.size,
  );
  some_used = omega arith;
  used_fits = fits;
  unused = λ k h l. ground (
    arith,
    get_or-set msm.msms o (get_or msm.msms o 0 + s.bw) k 0,
    r.unused k (omega arith) l,
    r.size,
  );
}

count_at-Represents :
    (samples : List Sample) (msm : MsmInfo) (s : Sample)
    → Represents samples msm
    → msm.first ≤ s.ts
    → s.ts < msm.first + num_msms
    → total samples + s.bw ≤ long_max
    → Returns
        (count_at msm (s.ts - msm.first) s.bw)
        (λ m. Represents (samples ++ s ∷ []) m × (m.first ≡ msm.first) × (m.fp ≡ msm.fp))
unfolding count_at
count_at-Represents samples msm s r low high fits =
    let o = s.ts - msm.first in
    let room : get_or msm.msms o 0 + s.bw ≤ long_max =
      omega (arith, r.sums o (omega arith), sum_at-le-total (msm.first + o) samples) in
    rw (le→leb _ _ room) (elim (Bool-cases (leb msm.used o)) [
      | inl beyond ↦
          rw (beyond, le→leb (o + 1) num_msms (omega arith))
            (
              counted-Represents samples msm s o (o + 1) r (omega arith) (omega arith)
                  (omega (arith, leb→le _ _ beyond)) (omega arith) (omega arith),
              refl,
              refl,
            )
      | inr inside ↦ rw inside (
        counted-Represents samples msm s o msm.used r (omega arith) (omega arith) (omega arith)
            (ground arith) r.used_fits,
        refl,
        refl,
      )
    ])

-- A result outside the 60 seconds from the first on changes nothing: it is no part of the sums.
outside-Represents :
    (samples : List Sample) (msm : MsmInfo) (s : Sample)
    → Represents samples msm
    → (s.ts < msm.first) ⊎ (msm.first + num_msms ≤ s.ts)
    → Represents (samples ++ s ∷ []) msm
unfolding sum_at
outside-Represents samples msm s r out = record {
  size = r.size;
  sums = λ k h. ground (arith, sum_at-append (msm.first + k) samples (s ∷ []), r.sums k h);
  some_used = r.some_used;
  used_fits = r.used_fits;
  unused = r.unused;
}

add-Represents :
    (samples : List Sample) (msm : MsmInfo) (s : Sample)
    → Represents samples msm
    → msm.first + num_msms ≤ long_max
    → total samples + s.bw ≤ long_max
    → Returns
        (msm_info_add msm s.ts s.bw)
        (λ m. Represents (samples ++ s ∷ []) m × (m.first ≡ msm.first) × (m.fp ≡ msm.fp))
unfolding msm_info_add
add-Represents samples msm s r window fits = elim (Bool-cases (ltb s.ts msm.first)) [
  | inl early ↦ rw early (outside-Represents samples msm s r (inl (ltb→lt _ _ early)), refl, refl)
  | inr on ↦
      rw (on, le→leb _ _ window)
        (elim (Bool-cases (leb (msm.first + num_msms) s.ts)) [
          | inl late ↦
              rw late (outside-Represents samples msm s r (inr (leb→le _ _ late)), refl, refl)
          | inr within ↦
              let high : s.ts < msm.first + num_msms = ground arith in
              rw (within, lt→ltb _ _ high)
                (count_at-Represents samples msm s r (ground arith) high fits)
        ])
]

total-append : (xs ys : List Sample) → total (xs ++ ys) ≡ total xs + total ys
unfolding total
total-append [] ys = omega arith
total-append (x ∷ xs) ys = omega (arith, total-append xs ys)

add_all-Represents :
    (samples : List Sample) (msm : MsmInfo) (more : List Sample)
    → Represents samples msm
    → msm.first + num_msms ≤ long_max
    → total samples + total more ≤ long_max
    → Returns
        (add_all msm more)
        (λ m. Represents (samples ++ more) m × (m.first ≡ msm.first) × (m.fp ≡ msm.fp))
unfolding add_all total
add_all-Represents samples msm [] r window fits = (rw append-nil r, refl, refl)
add_all-Represents samples msm (s ∷ ss) r window fits =
    Returns-bind
      (λ (m : MsmInfo). Represents (samples ++ s ∷ []) m × (m.first ≡ msm.first) × (m.fp ≡ msm.fp))
      (λ (m : MsmInfo). Represents (samples ++ s ∷ ss) m × (m.first ≡ msm.first) × (m.fp ≡ msm.fp))
      (msm_info_add msm s.ts s.bw) (λ m. add_all m ss)
      (add-Represents samples msm s r window (omega arith))
      λ m (r', same_first, same_fp).
        let next =
          add_all-Represents (samples ++ s ∷ []) m ss r' (rw same_first window)
            (omega (arith, total-append samples (s ∷ []))) in
        Returns-map (add_all m ss) next
          λ m' (r'', f, g). (rw append_assoc at r'', f ∙ same_first, g ∙ same_fp)

-- The results of one relay, read one after the other, are all summed up: if the first one's minute and
-- the sum of the bandwidths fit a long, each of the 60 seconds from the first result on holds the sum
-- of the bandwidths of that second, with no second in use past the last that was counted.
pub add_all-sums :
    (fp : Bytes) (s : Sample) (more : List Sample)
    → s.ts + num_msms ≤ long_max
    → total (s ∷ more) ≤ long_max
    → Returns
        (add_all (msm_info_init fp s.ts s.bw) more)
        (λ m. Represents (s ∷ more) m × (m.first ≡ s.ts) × (m.fp ≡ fp))
unfolding msm_info_init total
add_all-sums fp s more window fits =
    add_all-Represents (s ∷ []) (msm_info_init fp s.ts s.bw) more (init-Represents fp s) window
      (omega arith)
