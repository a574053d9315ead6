-- ===== src/Sim/Io/Tidy.antt =====
-- The set of descriptors of the worker thread.
use erps.Common.{
  ℕ, ◌≤◌, Bool, true, false, ◌&&◌, ◌||◌, Option, none, some, ◌==◌, ◌≡◌, ◌≢◌, inl, inr, refl, arith,
  Bool-cases,
}
use erps.Sim.Io.{RingIo, first_io, rio_accept}

-- The set of descriptors holds the socket and the end of the pipe, and nothing above `max_fd`.
pub record IsTidy (io : RingIo) : Type 0 where
  pub bounded : (i : ℕ) → io.fds i ≡ true → i ≤ io.max_fd
  pub listens : io.fds io.sock ≡ true
  pub abortable : io.fds io.abort_recv ≡ true
  pub apart : io.sock ≢ io.abort_recv

abbrev pub is_accepted : Option ℕ → ℕ → Bool
is_accepted none j = false
is_accepted (some fd) j = j == fd

or_true : (b : Bool) → (b || true) ≡ true
or_true true = refl
or_true false = refl

or_swap : (a b : Bool) → (a || b) ≡ (b || (true && a))
or_swap true true = refl
or_swap true false = refl
or_swap false true = refl
or_swap false false = refl

pub or_nothing : (a b : Bool) → (a && b) ≡ ((a || false) && b)
or_nothing true b = refl
or_nothing false b = refl

pub and_false : (b : Bool) → (b && false) ≡ false
and_false true = refl
and_false false = refl

pub and_swap : (a b : Bool) → (a && b) ≡ (b && a)
and_swap true true = refl
and_swap true false = refl
and_swap false true = refl
and_swap false false = refl

pub accepted-IsTidy : (o : Option ℕ) (io : RingIo) → IsTidy io → IsTidy (rio_accept o io)
unfolding rio_accept
accepted-IsTidy none io h = h
accepted-IsTidy (some fd) io h = record {
  bounded = λ j e. elim (Bool-cases (j == fd)) [
    | inl f ↦ ground arith
    | inr f ↦
        let g : io.fds j ≡ true = ground (arith, e, f) in let le = h.bounded j g in ground arith
  ];
  listens = rw h.listens (or_true (io.sock == fd));
  abortable = rw h.abortable (or_true (io.abort_recv == fd));
  apart = h.apart;
}

pub kept_or :
    (o : Option ℕ) (io : RingIo) (j : ℕ) → io.fds j ≡ true → (rio_accept o io).fds j ≡ true
unfolding rio_accept
kept_or none io j e = e
kept_or (some fd) io j e = rw e (or_true (j == fd))

pub accepted_fds :
    (o : Option ℕ) (io : RingIo) (j : ℕ)
    → (rio_accept o io).fds j ≡ (io.fds j || (true && is_accepted o j))
unfolding rio_accept
accepted_fds none io j = or_swap false (io.fds j)
accepted_fds (some fd) io j = or_swap (j == fd) (io.fds j)

pub accepted_same :
    (o : Option ℕ) (io : RingIo)
    → ((rio_accept o io).sock ≡ io.sock) × ((rio_accept o io).abort_recv ≡ io.abort_recv)
unfolding rio_accept
accepted_same none io = (refl, refl)
accepted_same (some fd) io = (refl, refl)

-- What `ring_io_init` makes is tidy, as the socket is another descriptor than the end of the pipe.
pub first_io-IsTidy : (fd0 fd1 sock : ℕ) → sock ≢ fd1 → IsTidy (first_io fd0 fd1 sock)
first_io-IsTidy fd0 fd1 sock n = record {
  bounded = λ j e. ground (arith, e);
  listens = ground arith;
  abortable = ground arith;
  apart = n;
}
