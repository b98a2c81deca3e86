-- ===== src/V3bw/Info.antt =====
-- struct msm_info, msm_info_init and msm_info_add: the bytes that one relay was measured with, second
-- by second. The times and bandwidths are longs that are not negative, as the reader of the input
-- lets no others through. Where a sum does not fit a long the behaviour is undefined.
pub mod Sums
use flashflow_research.Prelude.{
  ℕ, zero, suc, ◌+◌, ◌-◌, ◌≤◌, ◌<◌, ◌≡◌, ◌⊎◌, inl, inr, refl, sym, ap, ◌∙◌, Bool, true, false, ◌&&◌,
  List, [], ◌∷◌, ◌++◌, Result, Returns, Returns-bind, ok, err, assertion, undefined, ◌>>=◌, ◌>>◌,
  guard, arith, leb, ltb, ◌==◌, if◌then◌else◌, Bool-cases, length, set, get_or, replicate,
  length-set, get_or-set, length-replicate, leb→le, le→leb, ltb→lt, lt→ltb,
}
use flashflow_research.Prelude.Text.{Bytes, long_max}

-- NUM_MSMS_IN_MSM_INFO
abbrev pub num_msms : ℕ
num_msms = 60

pub record MsmInfo : Type 0 where
  pub fp : Bytes
  pub first : ℕ
  pub msms : List ℕ
  pub used : ℕ

unfoldable pub msm_info_init : Bytes → ℕ → ℕ → MsmInfo
msm_info_init fp first bw = record { fp = fp; first = first; msms = bw ∷ replicate 59 0; used = 1 }

-- The branch that counts a bandwidth at an offset into the array.
unfoldable pub count_at : MsmInfo → ℕ → ℕ → Result MsmInfo
count_at msm offset bw = do
  guard (leb (get_or msm.msms offset 0 + bw) long_max) undefined
  let msms = set msm.msms offset (get_or msm.msms offset 0 + bw)
  if leb msm.used offset
      then (do
        guard (leb (offset + 1) num_msms) assertion
        ok (record msm { msms = msms; used = offset + 1 }))
      else ok (record msm { msms = msms })

unfoldable pub msm_info_add : MsmInfo → ℕ → ℕ → Result MsmInfo
unfolding count_at
msm_info_add msm ts bw = if ltb ts msm.first then ok msm else (do
  guard (leb (msm.first + num_msms) long_max) undefined
  if leb (msm.first + num_msms) ts
      then ok msm
      else (do guard (ltb ts (msm.first + num_msms)) assertion; count_at msm (ts - msm.first) bw))
