-- ===== src/Tests/System.antt =====
-- A system with a table of open descriptors and a list of epoll.
use flashflow_research.Os.{Os}
use flashflow_research.Prelude.{
  ℕ, suc, ◌+◌, ◌≤◌, ◌≡◌, inl, inr, refl, ap, subst, true, false, not, some, List, [], ◌∷◌, All,
  arith, length, replicate, take, keep_if, ◌==◌, Bool-cases,
}
use flashflow_research.Prelude.Int.{ℤ, pos, pos_part}
use flashflow_research.Prelude.Text.{codes}
use flashflow_research.TorClient.Output.{trim_line_ends}
use flashflow_research.Sched.Count.{contains}
use flashflow_research.FlashFlow.Defs.{eq_ℤ, array_contains}
use flashflow_research.FlashFlow.Events.{eq_ℤ-refl, eq_ℤ-sound, distinct_fds}
use flashflow_research.FlashFlow.Round.{Works}
use flashflow_research.FlashFlow.Descriptors.{Kernel, KernelWorks, Calm}

pub record Table : Type 0 where
  pub open_fds : List ℕ
  pub list : List ℤ

abbrev sum : List ℕ → ℕ
sum [] = 0
sum (x ∷ xs) = x + sum xs

-- Every call works, every response is "250 OK", and the first descriptor on the list is reported.
abbrev pub system : Os
system = record {
  World = Table;
  Addr = ℕ;
  socket = λ w. let fd = suc (sum w.open_fds) in (pos fd, record w { open_fds = fd ∷ w.open_fds });
  getaddrinfo = λ host w. (some 0, w);
  connect = λ fd addr port w. (pos 0, w);
  close = λ fd w. record w { open_fds = keep_if (λ n. not (eq_ℤ fd (pos n))) w.open_fds };
  send = λ fd msg w. (pos (length msg), w);
  recv = λ fd size w. (some (codes "250 OK\n"), w);
  stack = λ size w. replicate size 0;
  now = λ w. (1000, w);
  epoll_add = λ fd w. record w { list = fd ∷ w.list };
  epoll_delete = λ fd w. record w { list = keep_if (λ x. not (eq_ℤ fd x)) w.list };
  epoll_wait = λ w. (some (take 1 w.list), w);
  gettimeofday = λ w. (some (record { tv_sec = 1000; tv_usec = 0 }), w);
  Stream = ℕ;
  print = λ file text w. w;
}

pub system-Works : Works system
unfolding trim_line_ends
system-Works = record {
  clock = λ w. (record { tv_sec = 1000; tv_usec = 0 }, refl);
  clock_fits = λ w. omega arith;
  receives = λ fd w. (omega arith, λ e. cc);
}

abbrev pub kernel : Kernel system
kernel = record {
  is_open = λ w n. contains w.open_fds n;
  watched = λ w fd. array_contains w.list fd;
}

contains-sum : (l : List ℕ) (n : ℕ) → contains l n ≡ true → n ≤ sum l
contains-sum [] n h = absurd (cc h)
contains-sum (x ∷ xs) n h = ground (arith, contains-sum xs n)

unchanged : (w : Table) → Calm system kernel w w
unchanged w = record { stays = λ d. omega arith; quiet = λ fd h. h }

closed_others :
    (fd : ℤ) (l : List ℕ) (d : ℕ)
    → eq_ℤ fd (pos d) ≡ false
    → contains (keep_if (λ n. not (eq_ℤ fd (pos n))) l) d ≡ contains l d
closed_others fd [] d h = refl
closed_others fd (x ∷ xs) d h = elim (Bool-cases (d == x)) [
  | inr other ↦ ground (arith, closed_others fd xs d h, other)
  | inl same ↦
      let e : d ≡ x = ground arith in
      let kept : eq_ℤ fd (pos x) ≡ false = subst (λ n. eq_ℤ fd (pos n) ≡ false) e h in
      rw kept (rw same refl)
]

deleted_calm :
    (fd : ℤ) (l : List ℤ) (a : ℤ)
    → array_contains (keep_if (λ x. not (eq_ℤ fd x)) l) a ≡ true
    → array_contains l a ≡ true
unfolding array_contains
deleted_calm fd [] a h = h
deleted_calm fd (x ∷ xs) a h = elim (Bool-cases (eq_ℤ x a)) [
  | inl hit ↦ rw hit refl
  | inr miss ↦ rw miss (elim (Bool-cases (eq_ℤ fd x)) [
    | inl gone ↦ deleted_calm fd xs a (rw gone at h)
    | inr kept ↦ deleted_calm fd xs a (rw miss at (rw kept at h))
  ])
]

deleted_one : (fd : ℤ) (l : List ℤ) → array_contains (keep_if (λ x. not (eq_ℤ fd x)) l) fd ≡ false
unfolding array_contains
deleted_one fd [] = refl
deleted_one fd (x ∷ xs) = elim (Bool-cases (eq_ℤ fd x)) [
  | inl gone ↦ rw gone (deleted_one fd xs)
  | inr kept ↦ elim (Bool-cases (eq_ℤ x fd)) [
    | inr apart ↦ rw (kept, apart) (deleted_one fd xs)
    | inl same ↦
        let e = eq_ℤ-sound x fd same in
        absurd (cc (subst (λ y. eq_ℤ fd y ≡ false) e kept, eq_ℤ-refl fd))
  ]
]

first_reported :
    (l events : List ℤ)
    → some (take 1 l) ≡ some events
    → (distinct_fds events ≡ true) × All (λ fd. array_contains l fd ≡ true) events
unfolding array_contains
first_reported [] events e =
    let none_left : [] ≡ events = cc e in
    subst (λ l. (distinct_fds l ≡ true) × All (λ fd. array_contains [] fd ≡ true) l) none_left
      (refl, tt)
first_reported (x ∷ xs) events e =
    let one : x ∷ [] ≡ events = cc e in
    subst (λ l. (distinct_fds l ≡ true) × All (λ fd. array_contains (x ∷ xs) fd ≡ true) l) one
      (refl, (rw (eq_ℤ-refl x) refl, tt))

fresh :
    (w : Table) (n : ℕ)
    → pos (suc (sum w.open_fds)) ≡ pos n
    → (contains w.open_fds n ≡ false) × (contains (suc (sum w.open_fds) ∷ w.open_fds) n ≡ true)
fresh w n e =
    let same : suc (sum w.open_fds) ≡ n = ap pos_part e in
    elim (Bool-cases (contains w.open_fds n)) [
      | inl old ↦ absurd (ground (arith, contains-sum w.open_fds n old, same))
      | inr new ↦ (new, ground (arith, same))
    ]

pub system-KernelWorks : KernelWorks system kernel
unfolding array_contains
system-KernelWorks = record {
  socket_fresh = λ w n e. fresh w n e;
  socket_calm = λ w. record { stays = λ d. ground arith; quiet = λ fd h. h };
  getaddrinfo_calm = λ host w. unchanged w;
  connect_calm = λ fd addr port w. unchanged w;
  send_calm = λ fd msg w. unchanged w;
  recv_calm = λ fd size w. unchanged w;
  now_calm = unchanged;
  gettimeofday_calm = unchanged;
  print_calm = λ file text w. unchanged w;
  close_others = λ fd w d h. ground (arith, closed_others fd w.open_fds d h);
  close_quiet = λ fd w a h. h;
  epoll_add_stays = λ fd w d. omega arith;
  epoll_add_one = λ fd w a h. ground arith;
  epoll_delete_calm =
      λ fd w. record { stays = λ d. omega arith; quiet = λ a h. deleted_calm fd w.list a h };
  epoll_delete_one = λ fd w. deleted_one fd w.list;
  epoll_wait_calm = unchanged;
  epoll_wait_reports = λ w events e. first_reported w.list events e;
}

-- The same, but no client answers.
abbrev pub silent_system : Os
silent_system = record system { epoll_wait = λ w. (some [], w) }

abbrev pub silent_kernel : Kernel silent_system
silent_kernel = record { is_open = kernel.is_open; watched = kernel.watched }

pub silent_system-Works : Works silent_system
silent_system-Works = record {
  clock = system-Works.clock;
  clock_fits = system-Works.clock_fits;
  receives = system-Works.receives;
}

silent_unchanged : (w : Table) → Calm silent_system silent_kernel w w
silent_unchanged w = record { stays = λ d. omega arith; quiet = λ fd h. h }

pub silent_system-KernelWorks : KernelWorks silent_system silent_kernel
silent_system-KernelWorks = record {
  socket_fresh = system-KernelWorks.socket_fresh;
  socket_calm = λ w. record { stays = λ d. ground arith; quiet = λ fd h. h };
  getaddrinfo_calm = λ host w. silent_unchanged w;
  connect_calm = λ fd addr port w. silent_unchanged w;
  send_calm = λ fd msg w. silent_unchanged w;
  recv_calm = λ fd size w. silent_unchanged w;
  now_calm = silent_unchanged;
  gettimeofday_calm = silent_unchanged;
  print_calm = λ file text w. silent_unchanged w;
  close_others = system-KernelWorks.close_others;
  close_quiet = system-KernelWorks.close_quiet;
  epoll_add_stays = system-KernelWorks.epoll_add_stays;
  epoll_add_one = system-KernelWorks.epoll_add_one;
  epoll_delete_calm = λ fd w. record {
    stays = λ d. omega arith;
    quiet = (system-KernelWorks.epoll_delete_calm fd w).quiet;
  };
  epoll_delete_one = system-KernelWorks.epoll_delete_one;
  epoll_wait_calm = silent_unchanged;
  epoll_wait_reports = λ w events e.
      let none_left : [] ≡ events = cc e in
      subst (λ l. (distinct_fds l ≡ true) × All (λ fd. array_contains w.list fd ≡ true) l) none_left
        (refl, tt);
}
