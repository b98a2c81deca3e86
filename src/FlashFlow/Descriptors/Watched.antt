-- ===== src/FlashFlow/Descriptors/Watched.antt =====
-- flashflow.c: what epoll watches, and the descriptors between two rounds.
use flashflow_research.Prelude.{
  ℕ, zero, suc, ◌+◌, ◌≤◌, ◌≡◌, ◌≢◌, ◌⊎◌, inl, inr, refl, ap, ◌∙◌, subst, Bool, true, false, some,
  List, [], ◌∷◌, All, All-get_elem?, Bool-cases, arith, get_elem?,
}
use flashflow_research.Prelude.Int.{ℤ, pos, negsuc, is_neg}
use flashflow_research.Os.{Os}
use flashflow_research.Meta.{Meta, invalid}
use flashflow_research.FlashFlow.Defs.{eq_ℤ, meta_with_fd, array_contains}
use flashflow_research.FlashFlow.Events.{eq_ℤ-refl, eq_ℤ-sound, LeadBack}
use flashflow_research.FlashFlow.Rounds.{epoll_add_all, epoll_delete_all}
use flashflow_research.FlashFlow.Descriptors.{Kernel, KernelWorks, Calm, held, opened, Wired, Keeps}

held-some :
    (d j : ℕ) (m : Meta) (ms : List Meta)
    → get_elem? ms j ≡ some m
    → eq_ℤ m.fd (pos d) ≡ true
    → 1 ≤ held d ms
held-some d j m [] e h = absurd (cc e)
held-some d zero m (x ∷ ms) e h = let same : x ≡ m = cc e in rw same (rw h (omega arith))
held-some d (suc j) m (x ∷ ms) e h = ground (arith, held-some d j m ms e h)

-- The search for a descriptor that one connection holds finds that connection.
only_one :
    (d i j : ℕ) (m : Meta) (ms : List Meta)
    → get_elem? ms j ≡ some m
    → eq_ℤ m.fd (pos d) ≡ true
    → held d ms ≤ 1
    → meta_with_fd (pos d) i ms ≡ some (i + j)
unfolding meta_with_fd
only_one d i j m [] e h one = absurd (cc e)
only_one d i zero m (x ∷ ms) e h one =
    let same : x ≡ m = cc e in rw same (rw h (ap some (omega arith)))
only_one d i (suc j) m (x ∷ ms) e h one = elim (Bool-cases (eq_ℤ x.fd (pos d))) [
  | inl hit ↦ absurd (ground (arith, held-some d j m ms e h, one, hit))
  | inr miss ↦
      let fewer : held d ms ≤ 1 = ground (arith, one, miss) in
      rw miss (only_one d (i + 1) j m ms e h fewer ∙ ap some (omega arith))
]

module _ (os : Os) (k : Kernel os) where
  open os use {World}

  -- No two connections hold the same descriptor, and each descriptor that is held is open; what is
  -- in use has a descriptor; and nothing is on the list of epoll.
  pub record Sound (ms : List Meta) (w : World) : Type 0 where
    pub live : (d : ℕ) → held d ms ≤ opened os k w d
    pub wired : All Wired ms
    pub unwatched : (fd : ℤ) → k.watched w fd ≡ false

  pub not_both : {b : Bool} → b ≡ false → b ≡ true → ⊥
  not_both h e = cc (h, e)

  pub Keeps-Sound :
      (ms ms' : List Meta) (w w' : World) → Keeps os k ms w ms' w' → Sound ms w → Sound ms' w'
  Keeps-Sound ms ms' w w' h s = record {
    live = λ d. omega (arith, h.slack d, s.live d);
    wired = h.wired s.wired;
    unwatched = λ fd. elim (Bool-cases (k.watched w' fd)) [
      | inr off ↦ off
      | inl on ↦ absurd (not_both (s.unwatched fd) (h.quiet fd on))
    ];
  }

  pub Sound-LeadBack : (ms : List Meta) (w : World) → Sound ms w → LeadBack ms
  Sound-LeadBack ms w s j m there waits =
      let used : m.state ≢ invalid = ground (arith, waits) in
      at m.fd refl (All-get_elem? Wired ms j s.wired there used)
    where
      at : (fd : ℤ) → m.fd ≡ fd → is_neg m.fd ≡ false → meta_with_fd m.fd 0 ms ≡ some j
      at (negsuc n) e h = absurd (ground (arith, e, h))
      at (pos d) e h =
          let mine : eq_ℤ m.fd (pos d) ≡ true = rw e (eq_ℤ-refl (pos d)) in
          let one : held d ms ≤ 1 = ground (arith, s.live d) in
          rw e (only_one d 0 j m ms there mine one ∙ ap some (omega arith))

module _ (os : Os) (k : Kernel os) (works : KernelWorks os k) where
  open os use {World, epoll_wait}

  pub epoll_add_all_stays :
      (fds : List ℤ) (w : World) (d : ℕ) → opened os k w d ≤ opened os k (epoll_add_all os fds w) d
  unfolding epoll_add_all
  epoll_add_all_stays [] w d = omega arith
  epoll_add_all_stays (fd ∷ fds) w d =
      omega (arith, works.epoll_add_stays fd w d, epoll_add_all_stays fds (os.epoll_add fd w) d)

  -- What is watched after a list was added was on it, or was watched before.
  pub epoll_add_all_watched :
      (fds : List ℤ) (w : World) (a : ℤ)
      → k.watched (epoll_add_all os fds w) a ≡ true
      → (array_contains fds a ≡ true) ⊎ (k.watched w a ≡ true)
  unfolding epoll_add_all array_contains
  epoll_add_all_watched [] w a h = inr h
  epoll_add_all_watched (fd ∷ fds) w a h = elim (Bool-cases (eq_ℤ fd a)) [
    | inl hit ↦ inl (rw hit refl)
    | inr miss ↦ rw miss (elim (epoll_add_all_watched fds (os.epoll_add fd w) a h) [
      | inl later ↦ inl later
      | inr now ↦ elim (works.epoll_add_one fd w a now) [
        | inl hit ↦ absurd (not_both os k miss hit)
        | inr before ↦ inr before
      ]
    ])
  ]

  pub epoll_delete_all-Calm : (fds : List ℤ) (w : World) → Calm os k w (epoll_delete_all os fds w)
  unfolding epoll_delete_all
  epoll_delete_all-Calm [] w = record { stays = λ d. omega arith; quiet = λ fd h. h }
  epoll_delete_all-Calm (fd ∷ fds) w =
      let a = works.epoll_delete_calm fd w in
      let b = epoll_delete_all-Calm fds (os.epoll_delete fd w) in
      record {
        stays = λ d. omega (arith, a.stays d, b.stays d);
        quiet = λ x h. a.quiet x (b.quiet x h);
      }

  -- Nothing of a list is watched after it was deleted.
  pub epoll_delete_all_watched :
      (fds : List ℤ) (w : World) (a : ℤ)
      → k.watched (epoll_delete_all os fds w) a ≡ true
      → array_contains fds a ≡ false
  unfolding epoll_delete_all array_contains
  epoll_delete_all_watched [] w a h = refl
  epoll_delete_all_watched (fd ∷ fds) w a h = elim (Bool-cases (eq_ℤ fd a)) [
    | inr miss ↦ rw miss (epoll_delete_all_watched fds (os.epoll_delete fd w) a h)
    | inl hit ↦
        let e : fd ≡ a = eq_ℤ-sound fd a hit in
        let off =
          subst (λ x. k.watched (os.epoll_delete fd w) x ≡ false) e (works.epoll_delete_one fd w) in
        absurd (not_both os k off ((epoll_delete_all-Calm fds (os.epoll_delete fd w)).quiet a h))
  ]
