-- ===== src/Tests/Io.antt =====
-- A worker thread with a client, and the theorems at it.
use erps.Common.{ℕ, true, ◌||◌, ◌==◌, some, List, [], ◌∷◌, ◌≡◌, inr, refl, arith}
use erps.Sim.Outcome.{done}
use erps.Sim.Io.{FdSet, fd_set, first_io, ring_io_init, Worker, ready, Round, rio_round}
use erps.Sim.Io.Tidy.{IsTidy}
use erps.Sim.Io.Attended.{IsAttended, rio_round-IsAttended}
use erps.Sim.Io.Works.{GoesOn, start, works_on}
use erps.Tests.{owner}
use erps.Tests.Simulator.{owner-IsRunning}
use erps.Tests.Daemon.{system, system-IsAvailable, flags, argv, started, start_run}

-- The thread watches its socket 5, the pipe at 4, and a client at 7.
abbrev worker : Worker
worker = record {
  io = record (first_io 3 4 5) { max_fd = 7; fds = fd_set 7 (first_io 3 4 5).fds };
  ring = owner;
  closed = [];
}

worker-IsTidy : IsTidy worker.io
worker-IsTidy = record {
  bounded = λ j e. ground (arith, e);
  listens = refl;
  abortable = refl;
  apart = λ e. ground (arith, e);
}

-- Another client arrives, at 8, and the first one sends FS on port 1.
abbrev calling : FdSet
calling j = (j == 5) || (j == 7)

abbrev round : Round
round = record {
  now = 100;
  selected = ready calling;
  accepted = some 8;
  received = λ j. (4 ∷ 0 ∷ 0 ∷ 0 ∷ 0xf1 ∷ [], 0);
}

rio_round-IsAttended_example :
    (w' : Worker) × (served : List ℕ) × (rio_round round worker ≡ done (true, w'))
    × IsAttended round calling served worker w'
rio_round-IsAttended_example =
    rio_round-IsAttended round calling worker refl owner-IsRunning worker-IsTidy (record {
      part = λ j e. ground (arith, e);
      harmless = λ j e n. inr (refl, (4, 0xf1, refl, refl, λ r. tt));
      quiet = refl;
    })

init_run : ring_io_init 3 4 (some 5) true ≡ done (first_io 3 4 5)
unfolding ring_io_init
init_run = refl

works_on_example : GoesOn (record { daemon = started; io = first_io 3 4 5; closed = [] })
works_on_example =
    works_on system flags argv 3 4 5 system-IsAvailable start_run init_run (λ e. ground (arith, e))
      start
