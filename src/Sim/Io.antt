-- ===== src/Sim/Io.antt =====
-- The worker thread of extras/sim/ring_io.c, which takes the commands of clients. What `pipe`, `socket`,
-- `pthread_create`, `select`, `accept` and `recv` return are parameters; `die` and a fault end the process.
pub mod Sweep
pub mod Tidy
pub mod Attended
pub mod Works
use erps.Common.{
  ℕ, zero, suc, ◌+◌, Bool, true, false, not, ◌&&◌, ◌||◌, Option, none, some, List, [], ◌∷◌, ◌++◌,
  ltb, ◌==◌, if◌then◌else◌,
}
use erps.Ring.{Ring}
use erps.Sim.Outcome.{Outcome, done, died, ◌>>=◌}
use erps.Sim.Daemon
use erps.Sim.Daemon.{command_of}

-- `fd_set`.
abbrev pub FdSet : Type 0
FdSet = ℕ → Bool

abbrev pub fd_zero : FdSet
fd_zero i = false

abbrev pub fd_set : ℕ → FdSet → FdSet
fd_set fd fds i = (i == fd) || fds i

abbrev pub fd_clr : ℕ → FdSet → FdSet
fd_clr fd fds i = not (i == fd) && fds i

-- `struct ring_io`, less the thread and the pointer to the ring.
pub record RingIo : Type 0 where
  pub sock : ℕ
  pub abort_send : ℕ
  pub abort_recv : ℕ
  pub max_fd : ℕ
  pub fds : FdSet

abbrev larger : ℕ → ℕ → ℕ
larger a b = if ltb b a then a else b

-- The fields in front of the start of the thread.
abbrev pub first_io : ℕ → ℕ → ℕ → RingIo
first_io fd0 fd1 sock = record {
  sock = sock;
  abort_send = fd0;
  abort_recv = fd1;
  max_fd = larger (larger fd0 fd1) sock;
  fds = fd_set fd1 (fd_set sock fd_zero);
}

-- `fd0` and `fd1` are the ends of the pipe, `starts` says whether the thread starts.
unfoldable pub ring_io_init : ℕ → ℕ → Option ℕ → Bool → Outcome RingIo
ring_io_init fd0 fd1 none starts = died
ring_io_init fd0 fd1 (some sock) starts = if starts then done (first_io fd0 fd1 sock) else died

-- `none` is a failure of `accept`.
unfoldable pub rio_accept : Option ℕ → RingIo → RingIo
rio_accept none io = io
rio_accept (some sock) io = record io {
  fds = fd_set sock io.fds;
  max_fd = if ltb io.max_fd sock then sock else io.max_fd;
}

-- The thread, the ring that it changes, and the sockets that it has closed, in their order.
pub record Worker : Type 0 where
  pub io : RingIo
  pub ring : Ring
  pub closed : List ℕ

-- What the socket yields: the bytes that `recv` gives, and what `param` holds beside them.
abbrev pub Received : Type 0
Received = List ℕ × ℕ

-- `rio_client`, with its cleanup.
unfoldable pub rio_client : ℕ → Received → ℕ → Worker → Outcome Worker
unfolding Daemon.rio_client
rio_client now (msg, rest) sock w = Daemon.rio_client now msg rest w.ring >>= (λ r. done (record w {
  io = record w.io { fds = fd_clr sock w.io.fds };
  ring = r;
  closed = w.closed ++ (sock ∷ []);
}))

-- What the system returns in one round of the loop.
pub data Selected : Type 0 where
  failed timeout : Selected
  ready : FdSet → Selected

pub record Round : Type 0 where
  pub now : ℕ
  pub selected : Selected
  pub accepted : Option ℕ
  pub received : ℕ → Received

-- The `for` loop from `i` on, with `n` passes left.
unfoldable pub serve : Round → FdSet → ℕ → ℕ → Worker → Outcome Worker
unfolding rio_client
serve t fds zero i w = done w
serve t fds (suc n) i w =
    (if fds i then rio_client t.now (t.received i) i w else done w) >>= serve t fds n (i + 1)

-- The part of the round behind a new client.
unfoldable pub attend : Round → FdSet → Worker → Outcome (Bool × Worker)
unfolding serve
attend t fds w =
    if fds w.io.abort_recv
    then done (false, w)
    else (serve t fds (w.io.max_fd + 1) 0 w >>= (λ w'. done (true, w')))

-- One round of `while (1)`, behind `select`; the result says whether the thread goes on.
unfoldable pub take_up : Selected → Round → Worker → Outcome (Bool × Worker)
unfolding rio_accept attend
take_up failed t w = died
take_up timeout t w = done (true, w)
take_up (ready fds) t w =
    if fds w.io.sock
    then attend t (fd_clr w.io.sock fds) (record w { io = rio_accept t.accepted w.io })
    else attend t fds w

unfoldable pub rio_round : Round → Worker → Outcome (Bool × Worker)
unfolding take_up
rio_round t w = take_up t.selected t w

-- The rounds until the thread ends.
unfoldable pub rio_worker : List Round → Worker → Outcome (Bool × Worker)
unfolding rio_round
rio_worker [] w = done (true, w)
rio_worker (t ∷ ts) w =
    rio_round t w >>= (λ next. if next.0 then rio_worker ts next.1 else done next)
