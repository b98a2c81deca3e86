-- ===== src/Os.antt =====
-- The operating system that the program runs on: sockets, the clock, and the output stream. Nothing
-- of it is under this repository, so it is a parameter: a state and the calls that change it.
use flashflow_research.Prelude.{ℕ, Option, List}
use flashflow_research.Prelude.Int.{ℤ}
use flashflow_research.Prelude.Text.{Bytes}

-- `struct timeval`
pub record Timeval : Type 0 where
  pub tv_sec : ℕ
  pub tv_usec : ℕ

pub record Os : Type 1 where
  pub World : Type 0
  pub Addr : Type 0
  -- What a `FILE *` that is not NULL points to.
  pub Stream : Type 0
  -- The new descriptor, or a negative number.
  pub socket : World → ℤ × World
  -- The first address of a host, if there is one.
  pub getaddrinfo : Bytes → World → Option Addr × World
  -- Zero for success: descriptor, address, port.
  pub connect : ℤ → Addr → ℕ → World → ℤ × World
  pub close : ℤ → World → World
  -- The number of bytes sent, or a negative number.
  pub send : ℤ → Bytes → World → ℤ × World
  -- Descriptor and buffer size; what arrived, empty at the end of the stream, or `none` for an error.
  pub recv : ℤ → ℕ → World → Option Bytes × World
  -- What an automatic array of the given size holds before anything is written to it.
  pub stack : ℕ → World → Bytes
  -- `SystemTime::now()` in seconds since 1970.
  pub now : World → ℕ × World
  -- `epoll_ctl` with EPOLL_CTL_ADD and EPOLL_CTL_DEL; an error is only logged.
  pub epoll_add : ℤ → World → World
  pub epoll_delete : ℤ → World → World
  -- The descriptors that can be read, none of them after a timeout, or `none` for an error.
  pub epoll_wait : World → Option (List ℤ) × World
  pub gettimeofday : World → Option Timeval × World
  -- `fprintf` to an output stream that is open.
  pub print : Stream → Bytes → World → World
