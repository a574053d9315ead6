-- ===== src/Sim/Io/Sweep.antt =====
-- One pass of the worker over the sockets that are ready.
use erps.Common.{
  ℕ, zero, suc, ◌+◌, ◌≤◌, Bool, true, false, not, ◌&&◌, ◌||◌, List, [], ◌∷◌, ◌++◌, ltb, leb, ◌==◌,
  ◌≡◌, ◌⊎◌, inl, inr, refl, arith, Bool-cases, length, some, get_elem?, ◌*◌, ap, ◌∙◌, sym,
}
use mathlib.Core.List.{append_assoc, append-nil}
use erps.Ring.{Ring}
use erps.Ring.Running.{IsRunning}
use erps.Sim.Outcome.{Outcome, done, ◌>>=◌}
use erps.Sim.Daemon
use erps.Sim.Daemon.{command_of, param_port}
use erps.Sim.Served.{IsServed, execute-Runs}
use erps.Sim.Alive.{Runs}
use erps.Sim.Io.{FdSet, fd_clr, Worker, Received, Round, rio_client, serve}

abbrev pub elem : ℕ → List ℕ → Bool
elem i [] = false
elem i (j ∷ js) = (i == j) || elem i js

-- Rising numbers from `i` on.
abbrev pub Rises : ℕ → List ℕ → Type 0
Rises i [] = Unit {0}
Rises i (j ∷ js) = (i ≤ j) × Rises (j + 1) js

-- A message of another length than five, or a command that is served at every ring.
abbrev pub IsHarmless : Received → Type 0
IsHarmless (msg, rest) =
    ((length msg == 5) ≡ false)
    ⊎ (length msg ≡ 5)
      × ((cmd : ℕ) × (low : ℕ) × (get_elem? msg 0 ≡ some cmd)
          × (get_elem? msg 4 ≡ some low)
          × ((r : Ring) → IsServed (command_of cmd) (param_port (low + 256 * rest)) r))

pub harmless_lem :
    (now : ℕ) (received : Received) (r : Ring)
    → IsHarmless received
    → IsRunning r
    → Runs (Daemon.rio_client now received.0 received.1 r)
unfolding Daemon.rio_client
harmless_lem now (msg, rest) r (inl e) h = (r, rw e refl, h)
harmless_lem now (msg, rest) r (inr (size, (cmd, low, e0, e4, served))) h =
    let (r', run, h') =
      execute-Runs now (command_of cmd) (param_port (low + 256 * rest)) r h (served r) in
    (r', rw (size, e0, e4, run) refl, h')

-- The commands of the sockets, one after another.
unfoldable pub obey_each : Round → List ℕ → Ring → Outcome Ring
obey_each t [] r = done r
obey_each t (i ∷ is) r =
    Daemon.rio_client t.now (t.received i).0 (t.received i).1 r >>= obey_each t is

-- The descriptors of the set among the `n` from `i` on.
abbrev pub within : FdSet → ℕ → ℕ → ℕ → Bool
within fds i n j = fds j && (leb i j && ltb j (i + n))

within_skip :
    (fds : FdSet) (i n j : ℕ) → fds i ≡ false → within fds (i + 1) n j ≡ within fds i (suc n) j
within_skip fds i n j e = elim (Bool-cases (j == i)) [
  | inl f ↦ let p : j ≡ i = ground (arith, f) in let q : fds j ≡ false = ap fds p ∙ e in rw q refl
  | inr f ↦ ground (arith, f, Bool-cases (fds j))
]

within_take :
    (fds : FdSet) (i n j : ℕ)
    → fds i ≡ true
    → ((j == i) || within fds (i + 1) n j) ≡ within fds i (suc n) j
within_take fds i n j e = elim (Bool-cases (j == i)) [
  | inl f ↦
      let p : j ≡ i = ground (arith, f) in
      let q : fds j ≡ true = ap fds p ∙ e in ground (arith, f, q)
  | inr f ↦ ground (arith, f, Bool-cases (fds j))
]

taken : (a b c : Bool) → ((not a && b) && not c) ≡ (b && not (a || c))
taken true true c = refl
taken true false c = refl
taken false true c = refl
taken false false c = refl

-- What the passes from `i` on leave behind, of which `n` were left.
pub record IsSwept (t : Round) (fds : FdSet) (n i : ℕ) (served : List ℕ) (w w' : Worker)
    : Type 0 where
  pub running : IsRunning w'.ring
  pub obeyed : obey_each t served w.ring ≡ done w'.ring
  pub closed : w'.closed ≡ w.closed ++ served
  pub rises : Rises i served
  pub chosen : (j : ℕ) → elem j served ≡ within fds i n j
  pub watched : (j : ℕ) → w'.io.fds j ≡ (w.io.fds j && not (elem j served))
  pub sock : w'.io.sock ≡ w.io.sock
  pub abort_recv : w'.io.abort_recv ≡ w.io.abort_recv
  pub max_fd : w'.io.max_fd ≡ w.io.max_fd

Rises-weaken : (i : ℕ) (js : List ℕ) → Rises (i + 1) js → Rises i js
Rises-weaken i [] h = tt
Rises-weaken i (j ∷ js) (a, b) = (omega arith, b)

module _ (t : Round) (fds : FdSet)
    (harmless : (j : ℕ) → fds j ≡ true → IsHarmless (t.received j)) where
  pub serve-IsSwept :
      (n i : ℕ) (w : Worker)
      → IsRunning w.ring
      → (w' : Worker) × (served : List ℕ) × (serve t fds n i w ≡ done w')
        × IsSwept t fds n i served w w'
  unfolding serve obey_each
  serve-IsSwept zero i w h = (
    w,
    [],
    refl,
    record {
      running = h;
      obeyed = refl;
      closed = sym (append-nil w.closed);
      rises = tt;
      chosen = λ j. ground (arith, Bool-cases (fds j));
      watched = λ j. ground (arith, Bool-cases (w.io.fds j));
      sock = refl;
      abort_recv = refl;
      max_fd = refl;
    },
  )
  serve-IsSwept (suc n) i w h = elim (Bool-cases (fds i)) [
    | inr e ↦
        let (w', served, run, s) = serve-IsSwept n (i + 1) w h in
        (
          w',
          served,
          rw e run,
          record {
            running = s.running;
            obeyed = s.obeyed;
            closed = s.closed;
            rises = Rises-weaken i served s.rises;
            chosen = λ j. s.chosen j ∙ within_skip fds i n j e;
            watched = s.watched;
            sock = s.sock;
            abort_recv = s.abort_recv;
            max_fd = s.max_fd;
          },
        )
    | inl e ↦
        let (r1, run1, h1) = harmless_lem t.now (t.received i) w.ring (harmless i e) h in
        let (w', served, run, s) =
          serve-IsSwept n (i + 1)
            (record w {
              io = record w.io { fds = fd_clr i w.io.fds };
              ring = r1;
              closed = w.closed ++ (i ∷ []);
            })
            h1 in
        (
          w',
          i ∷ served,
          rw e (unfold rio_client in rw run1 run),
          record {
            running = s.running;
            obeyed = rw run1 s.obeyed;
            closed = s.closed ∙ append_assoc w.closed (i ∷ []) served;
            rises = (omega arith, s.rises);
            chosen = λ j. ap (λ b. (j == i) || b) (s.chosen j) ∙ within_take fds i n j e;
            watched = λ j. s.watched j ∙ taken (j == i) (w.io.fds j) (elem j served);
            sock = s.sock;
            abort_recv = s.abort_recv;
            max_fd = s.max_fd;
          },
        )
  ]
