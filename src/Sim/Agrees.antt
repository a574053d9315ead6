-- ===== src/Sim/Agrees.antt =====
-- The step with `new_state` and the action that writes the state at once: rules that go through
-- both program texts.
use erps.Common.{
  ℕ, Bool, not, ◌||◌, Option, none, some, ◌≡◌, refl, arith, inl, inr, Bool-cases, Option-cases,
  ◌==◌,
}
use erps.Raps.{RapsRequest, code}
use erps.Ring.{
  State, PortRef, ref0, ref1, Ring, Act, only_if, if_else, with_rpl, if_blocked, is_port_blocked,
  port_of, start_wtr_timer, stop_wtr_timer, start_wtb_timer, stop_wtb_timer, start_guard_timer,
  stop_guard_timer, block_port, unblock_port, flush_fdb, unblock_nonfailed_ports, start_tx, stop_tx,
  enter, stay,
}
use erps.Ring
use erps.Sim
use erps.Sim.Actions
use erps.Sim.{Step, on, goto, skip, when, either, if_port_blocked, at_rpl}

-- `r->state = new_state` at the end of `ring_fsm`.
abbrev pub finish : Option (Ring × State) → Option Ring
finish none = none
finish (some (r, s)) = some (record r { state = s })

pub record Agrees (m : Step) (a : Act) : Type 0 where
  pub run : (r : Ring) (s : State) → finish (m r s) ≡ a (record r { state = s })

-- A test that does not look at the state.
pub record Blind (test : Ring → Bool) : Type 0 where
  pub run : (r : Ring) (s : State) → test (record r { state = s }) ≡ test r

pub Agrees->> :
    (m n : Step) (a b : Act) → Agrees m a → Agrees n b → Agrees (Sim.◌>>◌ m n) (Ring.◌>>◌ a b)
unfolding Sim.◌>>◌ Ring.◌>>◌
Agrees->> m n a b ka kb = record {
  run = λ r s. elim (Option-cases (m r s)) [
    | inl e ↦ ground (arith, e, ka.run r s)
    | inr ((r1, s1), e) ↦ ground (arith, e, ka.run r s, kb.run r1 s1)
  ];
}

pub Agrees-when :
    (test : Ring → Bool) (m : Step) (a : Act)
    → Blind test
    → Agrees m a
    → Agrees (when test m) (only_if test a)
unfolding when only_if
Agrees-when test m a blind k = record {
  run = λ r s. elim (Bool-cases (test r)) [
    | inl e ↦ rw (blind.run r s, e) (k.run r s)
    | inr e ↦ rw (blind.run r s, e) refl
  ];
}

pub Agrees-either :
    (test : Ring → Bool) (m n : Step) (a b : Act)
    → Blind test
    → Agrees m a
    → Agrees n b
    → Agrees (either test m n) (if_else test a b)
unfolding either if_else
Agrees-either test m n a b blind k l = record {
  run = λ r s. elim (Bool-cases (test r)) [
    | inl e ↦ rw (blind.run r s, e) (k.run r s)
    | inr e ↦ rw (blind.run r s, e) (l.run r s)
  ];
}

pub Agrees-at_rpl :
    (f : Option PortRef → Step) (g : Option PortRef → Act)
    → ((q : Option PortRef) → Agrees (f q) (g q))
    → Agrees (at_rpl f) (with_rpl g)
unfolding at_rpl with_rpl
Agrees-at_rpl f g k = record { run = λ r s. (k r.rpl_port).run r s }

pub Agrees-if_port_blocked :
    (p : Option PortRef) (m n : Step) (a b : Act)
    → Agrees m a
    → Agrees n b
    → Agrees (if_port_blocked p m n) (if_blocked p a b)
unfolding if_port_blocked if_blocked Actions.is_port_blocked is_port_blocked
Agrees-if_port_blocked none m n a b k l = record { run = λ r s. refl }
Agrees-if_port_blocked (some ref0) m n a b k l = record {
  run = λ r s. elim (Bool-cases r.port0.is_blocked) [
    | inl e ↦ simp e (k.run r s)
    | inr e ↦ simp e (l.run r s)
  ];
}
Agrees-if_port_blocked (some ref1) m n a b k l = record {
  run = λ r s. elim (Bool-cases r.port1.is_blocked) [
    | inl e ↦ simp e (k.run r s)
    | inr e ↦ simp e (l.run r s)
  ];
}

pub Agrees-goto : (t : State) → Agrees (goto t) (enter t)
unfolding goto enter
Agrees-goto t = record { run = λ r s. refl }

pub Agrees-skip : Agrees skip stay
unfolding skip stay
Agrees-skip = record { run = λ r s. refl }

pub Agrees-start_wtr_timer :
    (now : ℕ) → Agrees (on (Actions.start_wtr_timer now)) (start_wtr_timer now)
unfolding on Actions.start_wtr_timer start_wtr_timer
Agrees-start_wtr_timer now = record { run = λ r s. refl }

pub Agrees-stop_wtr_timer : Agrees (on Actions.stop_wtr_timer) stop_wtr_timer
unfolding on Actions.stop_wtr_timer stop_wtr_timer
Agrees-stop_wtr_timer = record { run = λ r s. refl }

pub Agrees-start_wtb_timer :
    (now : ℕ) → Agrees (on (Actions.start_wtb_timer now)) (start_wtb_timer now)
unfolding on Actions.start_wtb_timer start_wtb_timer
Agrees-start_wtb_timer now = record { run = λ r s. refl }

pub Agrees-stop_wtb_timer : Agrees (on Actions.stop_wtb_timer) stop_wtb_timer
unfolding on Actions.stop_wtb_timer stop_wtb_timer
Agrees-stop_wtb_timer = record { run = λ r s. refl }

pub Agrees-start_guard_timer :
    (now : ℕ) → Agrees (on (Actions.start_guard_timer now)) (start_guard_timer now)
unfolding on Actions.start_guard_timer start_guard_timer
Agrees-start_guard_timer now = record { run = λ r s. refl }

pub Agrees-stop_guard_timer : Agrees (on Actions.stop_guard_timer) stop_guard_timer
unfolding on Actions.stop_guard_timer stop_guard_timer
Agrees-stop_guard_timer = record { run = λ r s. refl }

pub Agrees-stop_tx : Agrees (on Actions.stop_tx) stop_tx
unfolding on Actions.stop_tx stop_tx
Agrees-stop_tx = record { run = λ r s. refl }

pub Agrees-flush_fdb : Agrees (on Actions.flush_fdb) flush_fdb
unfolding on Actions.flush_fdb flush_fdb
Agrees-flush_fdb = record { run = λ r s. refl }

pub Agrees-block_port : (p : Option PortRef) → Agrees (on (Actions.block_port p)) (block_port p)
unfolding on Actions.block_port block_port
Agrees-block_port none = record { run = λ r s. refl }
Agrees-block_port (some ref0) = record { run = λ r s. refl }
Agrees-block_port (some ref1) = record { run = λ r s. refl }

pub Agrees-unblock_port :
    (p : Option PortRef) → Agrees (on (Actions.unblock_port p)) (unblock_port p)
unfolding on Actions.unblock_port unblock_port
Agrees-unblock_port none = record { run = λ r s. refl }
Agrees-unblock_port (some ref0) = record { run = λ r s. refl }
Agrees-unblock_port (some ref1) = record { run = λ r s. refl }

pub Agrees-unblock_nonfailed_ports :
    Agrees (on Actions.unblock_nonfailed_ports) unblock_nonfailed_ports
unfolding on Actions.unblock_nonfailed_ports unblock_nonfailed_ports
Agrees-unblock_nonfailed_ports = record {
  run = λ r s. elim (Bool-cases r.port0.is_failed) [
    | inl e ↦ elim (Bool-cases r.port1.is_failed) [
      | inl f ↦ rw (e, f) refl
      | inr f ↦ rw (e, f) refl
    ]
    | inr e ↦ elim (Bool-cases r.port1.is_failed) [
      | inl f ↦ rw (e, f) refl
      | inr f ↦ rw (e, f) refl
    ]
  ];
}

pub Agrees-start_tx : (q : RapsRequest) (f : ℕ) → Agrees (on (Actions.start_tx q f)) (start_tx q f)
unfolding on Actions.start_tx start_tx
Agrees-start_tx q f = record {
  run = λ r s. elim (Bool-cases (not (code r.raps.request == code q) || not (r.raps.flags == f))) [
    | inl e ↦ rw e refl
    | inr e ↦ rw e refl
  ];
}

pub ruleset agrees_rules = (
  Agrees->>, Agrees-when, Agrees-either, Agrees-at_rpl, Agrees-if_port_blocked, Agrees-goto,
  Agrees-skip, Agrees-start_wtr_timer, Agrees-stop_wtr_timer, Agrees-start_wtb_timer,
  Agrees-stop_wtb_timer, Agrees-start_guard_timer, Agrees-stop_guard_timer, Agrees-stop_tx,
  Agrees-flush_fdb, Agrees-block_port, Agrees-unblock_port, Agrees-unblock_nonfailed_ports,
  Agrees-start_tx,
)
