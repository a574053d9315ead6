-- ===== src/Sim/Io/Works.antt =====
-- The worker thread and the event loop of the daemon, call by call: the callbacks of ringd.c and the rounds
-- of ring_io.c change the same ring, one after another.
use mathlib.Core.Path.{subst}
use erps.Common.{ℕ, true, List, some, [], ◌≡◌, ◌≢◌, ap, arith, inl, inr}
use erps.Ring.Running.{IsRunning}
use erps.Sim.Outcome.{done}
use erps.Sim.Daemon.{Daemon, Sent}
use erps.Sim.Trace.{Event, handle, IsFit, handle_runs}
use erps.Sim.Setup
use erps.Sim.Started.{IsAvailable, main-Starts}
use erps.Sim.Io.{
  FdSet, RingIo, first_io, ring_io_init, Worker, timeout, ready, Round, take_up, rio_round,
}
use erps.Sim.Io.Tidy.{IsTidy, first_io-IsTidy}
use erps.Sim.Io.Attended.{IsFair, IsAttended, rio_round-IsAttended}

pub record Process : Type 0 where
  pub daemon : Daemon
  pub io : RingIo
  pub closed : List ℕ

abbrev pub worker_of : Process → Worker
worker_of p = record { io = p.io; ring = p.daemon.ring; closed = p.closed }

abbrev pub with_worker : Process → Worker → Process
with_worker p w = record {
  daemon = record p.daemon { ring = w.ring };
  io = w.io;
  closed = w.closed;
}

-- A callback, or a round in which `select` runs into its timeout or finds sockets ready.
pub data Happens (p : Process) : Process → Type 0 where
  called :
      (e : Event) (d : Daemon) (sent : Sent)
      → IsFit e p.daemon
      → handle e p.daemon ≡ done (d, sent)
      → Happens p (record p { daemon = d })
  idled :
      (t : Round) (w : Worker)
      → t.selected ≡ timeout
      → rio_round t (worker_of p) ≡ done (true, w)
      → Happens p (with_worker p w)
  served :
      (t : Round) (fds : FdSet) (w : Worker)
      → t.selected ≡ ready fds
      → IsFair t fds (worker_of p)
      → rio_round t (worker_of p) ≡ done (true, w)
      → Happens p (with_worker p w)

pub data Works (p : Process) : Process → Type 0 where
  start : Works p p
  then : {p1 p2 : Process} → Works p p1 → Happens p1 p2 → Works p p2

abbrev pub IsWell : Process → Type 0
IsWell p = IsRunning p.daemon.ring × IsTidy p.io

Happens-IsWell : {p p' : Process} → IsWell p → Happens p p' → IsWell p'
Happens-IsWell {p} (running, tidy) (called e d sent fit run) =
    let (d1, sent1, run1, running1) = handle_runs e p.daemon running fit in
    let same : d1 ≡ d = cc in (subst (λ x. IsRunning x.ring) same running1, tidy)
Happens-IsWell {p} (running, tidy) (idled t w waited run) =
    let idle : rio_round t (worker_of p) ≡ done (true, worker_of p) =
      unfold rio_round take_up in ap (λ s. take_up s t (worker_of p)) waited in
    let same : worker_of p ≡ w = cc in
    subst (λ x. IsRunning x.ring × IsTidy x.io) same (running, tidy)
Happens-IsWell {p} (running, tidy) (served t fds w chosen fair run) =
    let (w1, _, run1, attended) =
      rio_round-IsAttended t fds (worker_of p) chosen running tidy fair in
    let same : w1 ≡ w = cc in
    subst (λ x. IsRunning x.ring × IsTidy x.io) same (attended.running, attended.tidy)

Works-IsWell : {p p' : Process} → IsWell p → Works p p' → IsWell p'
Works-IsWell h start = h
Works-IsWell h (then works happens) = Happens-IsWell (Works-IsWell h works) happens

-- What the process does with the next callback or round.
pub record GoesOn (p : Process) : Type 0 where
  pub well : IsWell p
  pub calls :
      (e : Event)
      → IsFit e p.daemon
      → (d : Daemon) × (sent : Sent) × (handle e p.daemon ≡ done (d, sent))
  pub rounds :
      (t : Round) (fds : FdSet)
      → t.selected ≡ ready fds
      → IsFair t fds (worker_of p)
      → (w : Worker) × (clients : List ℕ) × (rio_round t (worker_of p) ≡ done (true, w))
        × IsAttended t fds clients (worker_of p) w

well-GoesOn : (p : Process) → IsWell p → GoesOn p
well-GoesOn p (running, tidy) = record {
  well = (running, tidy);
  calls = λ e fit. let (d, sent, run, _) = handle_runs e p.daemon running fit in (d, sent, run);
  rounds = λ t fds chosen fair. rio_round-IsAttended t fds (worker_of p) chosen running tidy fair;
}

-- From a start of `main` and `ring_io_init` on, in a system that gives them what they ask for, and with a socket that
-- is not the end of the pipe, behind any sequence of fit callbacks and fair rounds: the next fit callback is handled
-- with no exit and no fault, and in the next fair round the thread serves each client that is ready and goes on.
pub works_on :
    (s : Setup.System) (flags : List Setup.Flag) (argv : List (List ℕ)) (fd0 fd1 sock : ℕ)
    {d : Daemon} {io : RingIo} {p : Process}
    → IsAvailable s
    → Setup.main s flags argv ≡ some (done d)
    → ring_io_init fd0 fd1 (some sock) true ≡ done io
    → sock ≢ fd1
    → Works (record { daemon = d; io = io; closed = [] }) p
    → GoesOn p
works_on s flags argv fd0 fd1 sock {d} {io} {p} h run init apart works =
    elim (main-Starts s flags argv h) [
      | inl (refused, _) ↦ absurd (ground (arith, refused, run))
      | inr (o, p0, p1, node, _, _, starts) ↦
          let run0 = starts.run in
          let same : starts.daemon ≡ d = ground (arith, run0, run) in
          let running : IsRunning d.ring = subst (λ x. IsRunning x.ring) same starts.up.running in
          let same_io : first_io fd0 fd1 sock ≡ io = unfold ring_io_init in cc in
          let tidy : IsTidy io = subst IsTidy same_io (first_io-IsTidy fd0 fd1 sock apart) in
          well-GoesOn p (Works-IsWell (running, tidy) works)
    ]
