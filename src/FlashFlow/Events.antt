-- ===== src/FlashFlow/Events.antt =====
-- flashflow.c: descriptors that can be read, and the connections that they belong to.
use flashflow_research.Prelude.{
  ℕ, suc, ◌≡◌, ◌⊎◌, inl, inr, refl, ap, ◌∙◌, subst, Bool, true, not, ◌&&◌, Option, none, some, List,
  [], ◌∷◌, ◌++◌, arith, ◌==◌, Bool-cases, get_elem?,
}
use flashflow_research.Prelude.Int.{ℤ, pos, negsuc}
use flashflow_research.Meta.{
  Meta, CsmState, authing, told_connect_target, setting_bw, measuring, state_number,
}
use flashflow_research.TorClient.Exchange.{state_number-injective}
use flashflow_research.FlashFlow.Defs.{eq_ℤ, meta_with_fd, array_contains}
use flashflow_research.FlashFlow.Loop.{fds_in}
use flashflow_research.FlashFlow.Rounds.{Fds, collect_fds, all_fds}

pub eq_ℤ-sound : (a b : ℤ) → eq_ℤ a b ≡ true → a ≡ b
eq_ℤ-sound (pos a) (pos b) h = ap pos (ground arith)
eq_ℤ-sound (pos a) (negsuc b) h = absurd (ground arith)
eq_ℤ-sound (negsuc a) (pos b) h = absurd (ground arith)
eq_ℤ-sound (negsuc a) (negsuc b) h = ap negsuc (ground arith)

pub eq_ℤ-refl : (a : ℤ) → eq_ℤ a a ≡ true
eq_ℤ-refl (pos a) = ground arith
eq_ℤ-refl (negsuc a) = ground arith

-- No descriptor stands twice.
abbrev pub distinct_fds : List ℤ → Bool
distinct_fds [] = true
distinct_fds (fd ∷ fds) = not (array_contains fds fd) && distinct_fds fds

-- The connection that a descriptor leads to.
pub record LeadsTo (metas : List Meta) (fd : ℤ) (j : ℕ) (m : Meta) : Type 0 where
  pub found : meta_with_fd fd 0 metas ≡ some j
  pub there : get_elem? metas j ≡ some m
  pub same_fd : m.fd ≡ fd

-- The descriptor of a connection that waits for a response leads back to it.
abbrev pub LeadBack : List Meta → Type 0
LeadBack metas =
    (j : ℕ) (m : Meta)
    → get_elem? metas j ≡ some m
    → (m.state ≡ authing)
      ⊎ (m.state ≡ told_connect_target)
      ⊎ (m.state ≡ setting_bw)
      ⊎ (m.state ≡ measuring)
    → meta_with_fd m.fd 0 metas ≡ some j

-- The arrays in which the descriptor of a connection stands are those of its state.
pub record Awaits (fds : Fds) (m : Meta) : Type 0 where
  pub if_authing : array_contains fds.authing_fds m.fd ≡ true → m.state ≡ authing
  pub if_connecting : array_contains fds.connecting_fds m.fd ≡ true → m.state ≡ told_connect_target
  pub if_setting : array_contains fds.setting_bw_fds m.fd ≡ true → m.state ≡ setting_bw
  pub if_measuring : array_contains fds.measuring_fds m.fd ≡ true → m.state ≡ measuring

-- An event that can be handled.
abbrev pub Ready : Fds → List Meta → ℤ → Type 0
Ready fds metas fd = (j : ℕ) × (m : Meta) × LeadsTo metas fd j m × Awaits fds m

-- A descriptor of one of the arrays is that of a connection in its state.
fds_in_sound :
    (st : CsmState) (metas : List Meta) (fd : ℤ)
    → array_contains (fds_in st metas) fd ≡ true
    → (j : ℕ) × (m : Meta) × (get_elem? metas j ≡ some m) × (m.state ≡ st) × (m.fd ≡ fd)
unfolding fds_in array_contains
fds_in_sound st [] fd h = absurd (cc h)
fds_in_sound st (m ∷ ms) fd h = elim (Bool-cases (state_number m.state == state_number st)) [
  | inr other ↦
      let (j, n, there, state, same) = fds_in_sound st ms fd (rw other at h) in
      (suc j, n, there, state, same)
  | inl mine ↦ elim (Bool-cases (eq_ℤ m.fd fd)) [
    | inl hit ↦ (0, m, refl, state_number-injective m.state st mine, eq_ℤ-sound m.fd fd hit)
    | inr miss ↦
        let (j, n, there, state, same) = fds_in_sound st ms fd (rw miss at (rw mine at h)) in
        (suc j, n, there, state, same)
  ]
]

array_contains-append :
    (xs ys : List ℤ) (fd : ℤ)
    → array_contains (xs ++ ys) fd ≡ true
    → (array_contains xs fd ≡ true) ⊎ (array_contains ys fd ≡ true)
unfolding array_contains
array_contains-append [] ys fd h = inr h
array_contains-append (x ∷ xs) ys fd h = elim (Bool-cases (eq_ℤ x fd)) [
  | inl hit ↦ inl (rw hit refl)
  | inr miss ↦ rw miss (array_contains-append xs ys fd (rw miss at h))
]

same_index : {i j : ℕ} (o : Option ℕ) → o ≡ some i → o ≡ some j → i ≡ j
same_index none h k = absurd (cc h)
same_index (some x) h k = cc (h, k)

-- Two connections of which one leads back are one where their descriptors are.
one_connection :
    (metas : List Meta) (fd : ℤ) (j k : ℕ) (m n : Meta)
    → LeadsTo metas fd j m
    → get_elem? metas k ≡ some n
    → meta_with_fd n.fd 0 metas ≡ some k
    → n.fd ≡ m.fd
    → n ≡ m
one_connection metas fd j k m n l there back same =
    let at_fd : meta_with_fd fd 0 metas ≡ some k =
      subst (λ x. meta_with_fd x 0 metas ≡ some k) (same ∙ l.same_fd) back in
    let e : j ≡ k = same_index (meta_with_fd fd 0 metas) l.found at_fd in
    let here : get_elem? metas k ≡ some m = subst (λ x. get_elem? metas x ≡ some m) e l.there in
    cc (there, here)

pub leads-Awaits :
    (metas : List Meta) (fd : ℤ) (j : ℕ) (m : Meta)
    → LeadBack metas
    → LeadsTo metas fd j m
    → Awaits (collect_fds metas) m
unfolding collect_fds
leads-Awaits metas fd j m back l =
    let by =
      λ (st : CsmState)
          (p : (n : Meta)
            → n.state ≡ st
            → (n.state ≡ authing)
              ⊎ (n.state ≡ told_connect_target)
              ⊎ (n.state ≡ setting_bw)
              ⊎ (n.state ≡ measuring))
          (h : array_contains (fds_in st metas) m.fd ≡ true).
        let (k, n, there, state, same) = fds_in_sound st metas m.fd h in
        let e : n ≡ m = one_connection metas fd j k m n l there (back k n there (p n state)) same in
        subst (λ x. x.state ≡ st) e state in
    record {
      if_authing = by authing (λ n e. inl e);
      if_connecting = by told_connect_target (λ n e. inr (inl e));
      if_setting = by setting_bw (λ n e. inr (inr (inl e)));
      if_measuring = by measuring (λ n e. inr (inr (inr e)));
    }

leads_from :
    (metas : List Meta) (fd : ℤ) (st : CsmState)
    → LeadBack metas
    → ((n : Meta)
        → n.state ≡ st
        → (n.state ≡ authing)
          ⊎ (n.state ≡ told_connect_target)
          ⊎ (n.state ≡ setting_bw)
          ⊎ (n.state ≡ measuring))
    → array_contains (fds_in st metas) fd ≡ true
    → (j : ℕ) × (m : Meta) × LeadsTo metas fd j m
leads_from metas fd st back p h =
    let (k, n, there, state, same) = fds_in_sound st metas fd h in
    (
      k,
      n,
      record {
        found = subst (λ x. meta_with_fd x 0 metas ≡ some k) same (back k n there (p n state));
        there = there;
        same_fd = same;
      },
    )

leads-polled :
    (metas : List Meta) (fd : ℤ)
    → LeadBack metas
    → array_contains (all_fds (collect_fds metas)) fd ≡ true
    → (j : ℕ) × (m : Meta) × LeadsTo metas fd j m
unfolding collect_fds
leads-polled metas fd back h =
    let a = fds_in authing metas in
    let b = fds_in told_connect_target metas in
    let c = fds_in setting_bw metas in
    let d = fds_in measuring metas in
    elim (array_contains-append ((a ++ b) ++ c) d fd h) [
      | inr in_d ↦ leads_from metas fd measuring back (λ n e. inr (inr (inr e))) in_d
      | inl abc ↦ elim (array_contains-append (a ++ b) c fd abc) [
        | inr in_c ↦ leads_from metas fd setting_bw back (λ n e. inr (inr (inl e))) in_c
        | inl ab ↦ elim (array_contains-append a b fd ab) [
          | inr in_b ↦ leads_from metas fd told_connect_target back (λ n e. inr (inl e)) in_b
          | inl in_a ↦ leads_from metas fd authing back (λ n e. inl e) in_a
        ]
      ]
    ]

-- A descriptor that was polled can be handled.
pub polled-Ready :
    (metas : List Meta) (fd : ℤ)
    → LeadBack metas
    → array_contains (all_fds (collect_fds metas)) fd ≡ true
    → Ready (collect_fds metas) metas fd
polled-Ready metas fd back h =
    let (j, m, l) = leads-polled metas fd back h in (j, m, l, leads-Awaits metas fd j m back l)
