-- ===== src/FlashFlow/Ready.antt =====
-- Events that can be handled, and what a change of one connection makes of the others.
use flashflow_research.Prelude.{
  ℕ, zero, suc, ◌+◌, ◌≡◌, ◌≢◌, inl, inr, refl, sym, ap, ◌∙◌, subst, false, none, some, List, [],
  ◌∷◌, if◌then◌else◌, Bool-cases, All, get_elem?, set,
}
use flashflow_research.Prelude.Int.{ℤ}
use flashflow_research.Meta.{Meta, CsmState}
use flashflow_research.FlashFlow.Defs.{eq_ℤ, meta_with_fd, array_contains}
use flashflow_research.FlashFlow.Events.{LeadsTo, Ready, eq_ℤ-refl}
use flashflow_research.FlashFlow.Rounds.{Fds}

pub set-same {ℓ} :
    {A : Type ℓ} (xs : List A) (j : ℕ) (x : A) → get_elem? xs j ≡ some x → xs ≡ set xs j x
set-same [] j x h = refl
set-same (y ∷ ys) zero x h = cc h
set-same (y ∷ ys) (suc j) x h = ap (◌∷◌ y) (set-same ys j x h)

get_elem-set_other {ℓ} :
    {A : Type ℓ} (xs : List A) (j k : ℕ) (x : A) → k ≢ j → get_elem? (set xs k x) j ≡ get_elem? xs j
get_elem-set_other [] j k x h = refl
get_elem-set_other (y ∷ ys) zero zero x h = absurd (h refl)
get_elem-set_other (y ∷ ys) zero (suc k) x h = refl
get_elem-set_other (y ∷ ys) (suc j) zero x h = refl
get_elem-set_other (y ∷ ys) (suc j) (suc k) x h = get_elem-set_other ys j k x (λ e. h (ap suc e))

meta_with_fd-set :
    (fd : ℤ) (i k : ℕ) (m n : Meta) (metas : List Meta)
    → get_elem? metas k ≡ some m
    → n.fd ≡ m.fd
    → meta_with_fd fd i (set metas k n) ≡ meta_with_fd fd i metas
unfolding meta_with_fd
meta_with_fd-set fd i k m n [] h e = refl
meta_with_fd-set fd i zero m n (x ∷ xs) h e =
    let same : n.fd ≡ x.fd = e ∙ sym (ap (λ o. elim o [ none ↦ x.fd | some y ↦ y.fd ]) h) in
    ap (λ f. if eq_ℤ f fd then some i else meta_with_fd fd (i + 1) xs) same
meta_with_fd-set fd i (suc k) m n (x ∷ xs) h e =
    ap (λ o. if eq_ℤ x.fd fd then some i else o) (meta_with_fd-set fd (i + 1) k m n xs h e)

-- A connection in another state leaves the events on other descriptors as they were.
Ready-set :
    (fds : Fds) (metas : List Meta) (fd fd' : ℤ) (k : ℕ) (m : Meta) (t : CsmState)
    → fd' ≢ fd
    → LeadsTo metas fd' k m
    → Ready fds metas fd
    → Ready fds (set metas k (record m { state = t })) fd
Ready-set fds metas fd fd' k m t apart l (j, n, l', a) =
    let other : k ≢ j = λ e.
      let here : get_elem? metas j ≡ some m = subst (λ x. get_elem? metas x ≡ some m) e l.there in
      let same : n ≡ m = cc (here, l'.there) in
      apart (sym l.same_fd ∙ ap (λ x. x.fd) (sym same) ∙ l'.same_fd) in
    (
      j,
      n,
      record {
        found = meta_with_fd-set fd 0 k m (record m { state = t }) metas l.there refl ∙ l'.found;
        there = get_elem-set_other metas j k (record m { state = t }) other ∙ l'.there;
        same_fd = l'.same_fd;
      },
      a,
    )

pub All-Ready-set :
    (fds : Fds) (metas : List Meta) (fd : ℤ) (k : ℕ) (m : Meta) (t : CsmState) (events : List ℤ)
    → array_contains events fd ≡ false
    → LeadsTo metas fd k m
    → All (Ready fds metas) events
    → All (Ready fds (set metas k (record m { state = t }))) events
unfolding array_contains
All-Ready-set fds metas fd k m t [] h l r = tt
All-Ready-set fds metas fd k m t (x ∷ events) h l r = elim (Bool-cases (eq_ℤ x fd)) [
  | inl same ↦ absurd (cc (rw same at h))
  | inr other ↦ (
    Ready-set fds metas x fd k m t (λ e. cc (subst (λ z. eq_ℤ x z ≡ false) e other, eq_ℤ-refl x)) l
        r.0,
    All-Ready-set fds metas fd k m t events (rw other at h) l r.1,
  )
]
