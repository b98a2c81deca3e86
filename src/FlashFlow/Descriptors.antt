-- ===== src/FlashFlow/Descriptors.antt =====
-- The descriptors that the coordinator holds, against those that the system has open and watches.
pub mod Client
pub mod Exchange
pub mod Failing
pub mod Hosts
pub mod Told
pub mod Turn
pub mod Answers
pub mod Watched
pub mod Sound
pub mod Run
use flashflow_research.Prelude.{
  ℕ, zero, suc, ◌+◌, ◌≤◌, ◌≡◌, ◌≢◌, ◌⊎◌, refl, Bool, true, false, some, List, [], ◌∷◌, All, arith,
  ◌==◌, if◌then◌else◌, get_elem?, set, length, count_if,
}
use flashflow_research.Prelude.Int.{ℤ, pos, is_neg}
use flashflow_research.Os.{Os}
use flashflow_research.Meta.{Meta, invalid}
use flashflow_research.FlashFlow.Defs.{eq_ℤ}
use flashflow_research.FlashFlow.Events.{distinct_fds}

-- What the system keeps of descriptors: those that are open, and those on the list of epoll.
pub record Kernel (os : Os) : Type 0 where
  pub is_open : os.World → ℕ → Bool
  pub watched : os.World → ℤ → Bool

-- How many connections hold a descriptor.
abbrev pub held : ℕ → List Meta → ℕ
held d = count_if (λ m. eq_ℤ m.fd (pos d))

-- A connection that is in use has a descriptor.
abbrev pub Wired : Meta → Type 0
Wired m = m.state ≢ invalid → is_neg m.fd ≡ false

module _ (os : Os) (k : Kernel os) where
  open os use {World}

  abbrev pub opened : World → ℕ → ℕ
  opened w d = if k.is_open w d then 1 else 0

  -- A call that closes nothing and adds nothing to the list of epoll.
  pub record Calm (w w' : World) : Type 0 where
    pub stays : (d : ℕ) → opened w d ≤ opened w' d
    pub quiet : (fd : ℤ) → k.watched w' fd ≡ true → k.watched w fd ≡ true

  -- The documented behaviour of the calls.
  pub record KernelWorks : Type 0 where
    -- A descriptor that was not open, or a negative number.
    pub socket_fresh :
        (w : World) (n : ℕ)
        → (os.socket w).0 ≡ pos n
        → (k.is_open w n ≡ false) × (k.is_open (os.socket w).1 n ≡ true)
    pub socket_calm : (w : World) → Calm w (os.socket w).1
    pub getaddrinfo_calm : (host : _) (w : World) → Calm w (os.getaddrinfo host w).1
    pub connect_calm :
        (fd : ℤ) (addr : os.Addr) (port : ℕ) (w : World) → Calm w (os.connect fd addr port w).1
    pub send_calm : (fd : ℤ) (msg : _) (w : World) → Calm w (os.send fd msg w).1
    pub recv_calm : (fd : ℤ) (size : ℕ) (w : World) → Calm w (os.recv fd size w).1
    pub now_calm : (w : World) → Calm w (os.now w).1
    pub gettimeofday_calm : (w : World) → Calm w (os.gettimeofday w).1
    pub print_calm : (file : os.Stream) (text : _) (w : World) → Calm w (os.print file text w)
    -- No descriptor but the one given is closed, and none comes onto the list.
    pub close_others :
        (fd : ℤ) (w : World) (d : ℕ)
        → eq_ℤ fd (pos d) ≡ false
        → opened w d ≤ opened (os.close fd w) d
    pub close_quiet :
        (fd : ℤ) (w : World) (a : ℤ) → k.watched (os.close fd w) a ≡ true → k.watched w a ≡ true
    pub epoll_add_stays : (fd : ℤ) (w : World) (d : ℕ) → opened w d ≤ opened (os.epoll_add fd w) d
    pub epoll_add_one :
        (fd : ℤ) (w : World) (a : ℤ)
        → k.watched (os.epoll_add fd w) a ≡ true
        → (eq_ℤ fd a ≡ true) ⊎ (k.watched w a ≡ true)
    pub epoll_delete_calm : (fd : ℤ) (w : World) → Calm w (os.epoll_delete fd w)
    pub epoll_delete_one : (fd : ℤ) (w : World) → k.watched (os.epoll_delete fd w) fd ≡ false
    pub epoll_wait_calm : (w : World) → Calm w (os.epoll_wait w).1
    -- What is on the list is reported, once.
    pub epoll_wait_reports :
        (w : World) (events : List ℤ)
        → (os.epoll_wait w).0 ≡ some events
        → (distinct_fds events ≡ true) × All (λ fd. k.watched w fd ≡ true) events

  -- What every part of a round keeps to: a descriptor is held as often as before, or was opened or
  -- given up meanwhile; none comes onto the list; and what is in use has a descriptor.
  pub record Keeps (ms : List Meta) (w : World) (ms' : List Meta) (w' : World) : Type 0 where
    pub slack : (d : ℕ) → held d ms' + opened w d ≤ held d ms + opened w' d
    pub quiet : (fd : ℤ) → k.watched w' fd ≡ true → k.watched w fd ≡ true
    pub wired : All Wired ms → All Wired ms'

  pub Calm-Keeps : (ms : List Meta) (w w' : World) → Calm w w' → Keeps ms w ms w'
  Calm-Keeps ms w w' c = record {
    slack = λ d. omega (arith, c.stays d);
    quiet = c.quiet;
    wired = λ h. h;
  }

  pub Keeps-refl : (ms : List Meta) (w : World) → Keeps ms w ms w
  Keeps-refl ms w = record { slack = λ d. omega arith; quiet = λ fd h. h; wired = λ h. h }

  pub Keeps-trans :
      (ms ms' ms'' : List Meta) (w w' w'' : World)
      → Keeps ms w ms' w'
      → Keeps ms' w' ms'' w''
      → Keeps ms w ms'' w''
  Keeps-trans ms ms' ms'' w w' w'' a b = record {
    slack = λ d. omega (arith, a.slack d, b.slack d);
    quiet = λ fd h. a.quiet fd (b.quiet fd h);
    wired = λ h. b.wired (a.wired h);
  }

  -- One connection, and then the others.
  pub Keeps-cons :
      (m m' : Meta) (ms ms' : List Meta) (w w' w'' : World)
      → Keeps (m ∷ []) w (m' ∷ []) w'
      → Keeps ms w' ms' w''
      → Keeps (m ∷ ms) w (m' ∷ ms') w''
  Keeps-cons m m' ms ms' w w' w'' a b = record {
    slack = λ d. ground (arith, a.slack d, b.slack d);
    quiet = λ fd h. a.quiet fd (b.quiet fd h);
    wired = λ h. ((a.wired (h.0, tt)).0, b.wired h.1);
  }

  -- One connection, wherever it stands.
  pub Keeps-set :
      (ms : List Meta) (j : ℕ) (m m' : Meta) (w w' : World)
      → get_elem? ms j ≡ some m
      → Keeps (m ∷ []) w (m' ∷ []) w'
      → Keeps ms w (set ms j m') w'
  Keeps-set [] j m m' w w' e a = absurd (cc e)
  Keeps-set (x ∷ ms) zero m m' w w' e a =
      let same : x ≡ m = cc e in rw same (Keeps-cons m m' ms ms w w' w' a (Keeps-refl ms w'))
  Keeps-set (x ∷ ms) (suc j) m m' w w' e a =
      let b = Keeps-set ms j m m' w w' e a in
      Keeps-cons x x ms (set ms j m') w w w' (Keeps-refl (x ∷ []) w) b
