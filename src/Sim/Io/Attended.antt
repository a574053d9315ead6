-- ===== src/Sim/Io/Attended.antt =====
-- One round of the worker thread.
use erps.Common.{
  ℕ, ◌+◌, ◌≤◌, true, false, not, ◌&&◌, ◌||◌, List, ◌++◌, ◌==◌, ◌≡◌, ◌≢◌, inl, inr, refl, arith,
  Bool-cases, ◌∙◌, ap,
}
use erps.Ring.Running.{IsRunning}
use erps.Sim.Outcome.{done}
use erps.Sim.Io.{FdSet, fd_clr, rio_accept, Worker, ready, Round, attend, take_up, rio_round}
use erps.Sim.Io.Tidy.{
  IsTidy, is_accepted, or_nothing, and_false, and_swap, accepted-IsTidy, kept_or, accepted_fds,
  accepted_same,
}
use erps.Sim.Io.Sweep.{elem, Rises, IsHarmless, obey_each, within, IsSwept, serve-IsSwept}

cleared : (sock j : ℕ) (fds : FdSet) → fd_clr sock fds j ≡ true → (fds j ≡ true) × (j ≢ sock)
cleared sock j fds e = (ground (arith, e, Bool-cases (fds j)), λ p. ground (arith, e, p))

-- Each client that is ready is served once, in the order of the descriptors, and its socket is closed and no more
-- watched; a new client is watched.
pub record IsAttended (t : Round) (fds : FdSet) (served : List ℕ) (w w' : Worker) : Type 0 where
  pub running : IsRunning w'.ring
  pub tidy : IsTidy w'.io
  pub obeyed : obey_each t served w.ring ≡ done w'.ring
  pub closed : w'.closed ≡ w.closed ++ served
  pub rises : Rises 0 served
  pub chosen : (j : ℕ) → elem j served ≡ (fds j && not (j == w.io.sock))
  pub watched :
      (j : ℕ)
      → w'.io.fds j
        ≡ ((w.io.fds j || (fds w.io.sock && is_accepted t.accepted j)) && not (elem j served))

all_within : (fds : FdSet) (n j : ℕ) → (fds j ≡ true → j ≤ n) → within fds 0 (n + 1) j ≡ fds j
all_within fds n j h = elim (Bool-cases (fds j)) [
  | inr e ↦ rw e refl
  | inl e ↦ let le : j ≤ n = h e in ground (arith, e, le)
]

swept-IsTidy :
    {t : Round} {fds : FdSet} {n i : ℕ} {served : List ℕ} {w w' : Worker}
    → IsTidy w.io
    → IsSwept t fds n i served w w'
    → elem w.io.sock served ≡ false
    → elem w.io.abort_recv served ≡ false
    → IsTidy w'.io
swept-IsTidy {t} {fds} {n} {i} {served} {w} {w'} h s a b = record {
  bounded = λ j e.
      let f = s.watched j in
      let g : w.io.fds j ≡ true = ground (arith, e, f, Bool-cases (w.io.fds j)) in
      let le = h.bounded j g in let m = s.max_fd in omega arith;
  listens = ap w'.io.fds s.sock ∙ (s.watched w.io.sock ∙ rw (a, h.listens) refl);
  abortable = ap w'.io.fds s.abort_recv ∙ (s.watched w.io.abort_recv ∙ rw (b, h.abortable) refl);
  apart = λ e. h.apart cc;
}

-- The part of the round behind a new client, at sockets that are in the set of the worker.
attended :
    (t : Round) (fds : FdSet) (w : Worker)
    → IsRunning w.ring
    → IsTidy w.io
    → ((j : ℕ) → fds j ≡ true → w.io.fds j ≡ true)
    → ((j : ℕ) → fds j ≡ true → IsHarmless (t.received j))
    → fds w.io.abort_recv ≡ false
    → fds w.io.sock ≡ false
    → (w' : Worker) × (served : List ℕ) × (attend t fds w ≡ done (true, w'))
      × IsTidy w'.io
      × IsSwept t fds (w.io.max_fd + 1) 0 served w w'
      × ((j : ℕ) → elem j served ≡ fds j)
unfolding attend
attended t fds w running tidy part harmless quiet silent =
    let (w', served, run, s) = serve-IsSwept t fds harmless (w.io.max_fd + 1) 0 w running in
    let all : (j : ℕ) → elem j served ≡ fds j =
      λ j. s.chosen j ∙ all_within fds w.io.max_fd j (λ e. tidy.bounded j (part j e)) in
    (
      w',
      served,
      rw (quiet, run) refl,
      swept-IsTidy tidy s (all w.io.sock ∙ silent) (all w.io.abort_recv ∙ quiet),
      s,
      all,
    )

-- What the system may return, for a socket of the worker and one command for each client.
pub record IsFair (t : Round) (fds : FdSet) (w : Worker) : Type 0 where
  pub part : (j : ℕ) → fds j ≡ true → w.io.fds j ≡ true
  pub harmless : (j : ℕ) → fds j ≡ true → j ≢ w.io.sock → IsHarmless (t.received j)
  pub quiet : fds w.io.abort_recv ≡ false

but_sock : (fds : FdSet) (sock j : ℕ) → fds sock ≡ false → fds j ≡ (fds j && not (j == sock))
but_sock fds sock j e = elim (Bool-cases (j == sock)) [
  | inl f ↦
      let p : j ≡ sock = ground (arith, f) in let q : fds j ≡ false = ap fds p ∙ e in rw q refl
  | inr f ↦ ground (arith, f, Bool-cases (fds j))
]

module _ (t : Round) (fds : FdSet) (w : Worker) where
  no_client :
      fds w.io.sock ≡ false
      → IsRunning w.ring
      → IsTidy w.io
      → IsFair t fds w
      → (w' : Worker) × (served : List ℕ) × (attend t fds w ≡ done (true, w'))
        × IsAttended t fds served w w'
  no_client e running tidy fair =
      let (w', served, run, tidy', s, all) =
        attended t fds w running tidy fair.part
          (λ j f. fair.harmless j f (λ p. ground (arith, f, e, ap fds p))) fair.quiet e in
      (
        w',
        served,
        run,
        record {
          running = s.running;
          tidy = tidy';
          obeyed = s.obeyed;
          closed = s.closed;
          rises = s.rises;
          chosen = λ j. all j ∙ but_sock fds w.io.sock j e;
          watched = λ j. s.watched j ∙ rw e (or_nothing (w.io.fds j) (not (elem j served)));
        },
      )

  new_client :
      fds w.io.sock ≡ true
      → IsRunning w.ring
      → IsTidy w.io
      → IsFair t fds w
      → (w' : Worker) × (served : List ℕ) × (attend t
            (fd_clr w.io.sock fds)
            (record w { io = rio_accept t.accepted w.io })
          ≡ done (true, w'))
        × IsAttended t fds served w w'
  new_client e running tidy fair =
      let rest = fd_clr w.io.sock fds in
      let io1 = rio_accept t.accepted w.io in
      let (same_sock, same_abort) = accepted_same t.accepted w.io in
      let (w', served, run, tidy', s, all) =
        attended t rest (record w { io = io1 }) running (accepted-IsTidy t.accepted w.io tidy)
          (λ j f. kept_or t.accepted w.io j (fair.part j (cleared w.io.sock j fds f).0))
          (λ j f. let (g, n) = cleared w.io.sock j fds f in fair.harmless j g n)
          (ap rest same_abort ∙ rw fair.quiet (and_false (not (w.io.abort_recv == w.io.sock))))
          (ap rest same_sock ∙ ground arith) in
      (
        w',
        served,
        run,
        record {
          running = s.running;
          tidy = tidy';
          obeyed = s.obeyed;
          closed = s.closed;
          rises = s.rises;
          chosen = λ j. all j ∙ and_swap (not (j == w.io.sock)) (fds j);
          watched = λ j.
              s.watched j
              ∙ rw e (ap (λ b. b && not (elem j served)) (accepted_fds t.accepted w.io j));
        },
      )

taken_up :
    (t : Round) (fds : FdSet) (w : Worker)
    → IsRunning w.ring
    → IsTidy w.io
    → IsFair t fds w
    → (w' : Worker) × (served : List ℕ) × (take_up (ready fds) t w ≡ done (true, w'))
      × IsAttended t fds served w w'
unfolding take_up
taken_up t fds w running tidy fair = elim (Bool-cases (fds w.io.sock)) [
  | inr e ↦ rw e (no_client t fds w e running tidy fair)
  | inl e ↦ rw e (new_client t fds w e running tidy fair)
]

-- A round of a worker with a tidy set and a running ring, at which `select` returns some of the watched descriptors
-- but not the pipe, and each of the clients sends a command that is served at every ring or a message of a wrong
-- length: the thread goes on, with a tidy set and a running ring, and each client that is ready is served once, in
-- the order of the descriptors, and its socket is closed and no more watched, while a new client is watched.
pub rio_round-IsAttended :
    (t : Round) (fds : FdSet) (w : Worker)
    → t.selected ≡ ready fds
    → IsRunning w.ring
    → IsTidy w.io
    → IsFair t fds w
    → (w' : Worker) × (served : List ℕ) × (rio_round t w ≡ done (true, w'))
      × IsAttended t fds served w w'
unfolding rio_round
rio_round-IsAttended t fds w chosen running tidy fair =
    let same = ap (λ s. take_up s t w) chosen in
    let (w', served, run, s) = taken_up t fds w running tidy fair in (w', served, same ∙ run, s)
