-- ===== src/Ring/Moved.antt =====
-- Partial correctness of actions with regard to the state: rules that go through the program text.
use erps.Common.{Bool, ℕ, Option, none, some, ◌≡◌, arith, Bool-cases, inl, inr}
use erps.Raps.{RapsRequest}
use erps.Ring.{
  State, PortRef, ref0, ref1, Ring, Act, ◌>>◌, only_if, if_else, with_rpl, if_blocked,
  is_port_blocked, start_wtr_timer, stop_wtr_timer, start_wtb_timer, stop_wtb_timer,
  start_guard_timer, stop_guard_timer, block_port, unblock_port, flush_fdb, unblock_nonfailed_ports,
  start_tx, stop_tx, enter, stay, port_of,
}
use erps.Ring.Effects.{start_tx-Sends}

-- If the action ends, it takes a ring in state `s` to one in state `t`.
pub record Moved (s t : State) (a : Act) : Type 0 where
  pub run : (r r' : Ring) → r.state ≡ s → a r ≡ some r' → r'.state ≡ t

pub >>_split :
    (a b : Act) (r : Ring) {r' : Ring}
    → (a >> b) r ≡ some r'
    → (r1 : Ring) × (a r ≡ some r1) × (b r1 ≡ some r')
unfolding ◌>>◌
>>_split a b r h = ground arith

module _ {s t : State} where
  pub Moved->> : (a b : Act) → Moved s s a → Moved s t b → Moved s t (a >> b)
  Moved->> a b ka kb = record {
    run = λ r r' e h. let (r1, h1, h2) = >>_split a b r h in kb.run r1 r' (ka.run r r1 e h1) h2;
  }

  pub Moved-if_else :
      (test : Ring → Bool) (a b : Act) → Moved s t a → Moved s t b → Moved s t (if_else test a b)
  unfolding if_else
  Moved-if_else test a b ka kb = record {
    run = λ r r' e h. elim (Bool-cases (test r)) [
      | inl x ↦ ka.run r r' e (ground arith)
      | inr x ↦ kb.run r r' e (ground arith)
    ];
  }

  pub Moved-enter : Moved s t (enter t)
  unfolding enter
  Moved-enter = record { run = λ r r' e h. ground arith }

module _ {s : State} where
  pub Moved-only_if : (test : Ring → Bool) (a : Act) → Moved s s a → Moved s s (only_if test a)
  unfolding only_if
  Moved-only_if test a ka = record {
    run = λ r r' e h. elim (Bool-cases (test r)) [
      | inl x ↦ ka.run r r' e (ground arith)
      | inr x ↦ ground arith
    ];
  }

  pub Moved-with_rpl :
      (f : Option PortRef → Act) → ((q : Option PortRef) → Moved s s (f q)) → Moved s s (with_rpl f)
  unfolding with_rpl
  Moved-with_rpl f k = record { run = λ r r' e h. (k r.rpl_port).run r r' e h }

  pub Moved-if_blocked :
      (p : Option PortRef) (a b : Act) → Moved s s a → Moved s s b → Moved s s (if_blocked p a b)
  unfolding if_blocked is_port_blocked
  Moved-if_blocked none a b ka kb = record { run = λ r r' e h. cc }
  Moved-if_blocked (some p) a b ka kb = record {
    run = λ r r' e h. elim (Bool-cases (port_of r p).is_blocked) [
      | inl x ↦ ka.run r r' e (rw (x, is_port_blocked) at h)
      | inr x ↦ kb.run r r' e (rw (x, is_port_blocked) at h)
    ];
  }

  pub Moved-stay : Moved s s stay
  unfolding stay
  Moved-stay = record { run = λ r r' e h. ground arith }

  pub Moved-start_wtr_timer : (now : ℕ) → Moved s s (start_wtr_timer now)
  unfolding start_wtr_timer
  Moved-start_wtr_timer now = record { run = λ r r' e h. ground arith }

  pub Moved-stop_wtr_timer : Moved s s stop_wtr_timer
  unfolding stop_wtr_timer
  Moved-stop_wtr_timer = record { run = λ r r' e h. ground arith }

  pub Moved-start_wtb_timer : (now : ℕ) → Moved s s (start_wtb_timer now)
  unfolding start_wtb_timer
  Moved-start_wtb_timer now = record { run = λ r r' e h. ground arith }

  pub Moved-stop_wtb_timer : Moved s s stop_wtb_timer
  unfolding stop_wtb_timer
  Moved-stop_wtb_timer = record { run = λ r r' e h. ground arith }

  pub Moved-start_guard_timer : (now : ℕ) → Moved s s (start_guard_timer now)
  unfolding start_guard_timer
  Moved-start_guard_timer now = record { run = λ r r' e h. ground arith }

  pub Moved-stop_guard_timer : Moved s s stop_guard_timer
  unfolding stop_guard_timer
  Moved-stop_guard_timer = record { run = λ r r' e h. ground arith }

  pub Moved-stop_tx : Moved s s stop_tx
  unfolding stop_tx
  Moved-stop_tx = record { run = λ r r' e h. ground arith }

  pub Moved-flush_fdb : Moved s s flush_fdb
  unfolding flush_fdb
  Moved-flush_fdb = record { run = λ r r' e h. ground arith }

  pub Moved-block_port : (p : Option PortRef) → Moved s s (block_port p)
  unfolding block_port
  Moved-block_port none = record { run = λ r r' e h. cc }
  Moved-block_port (some ref0) = record { run = λ r r' e h. ground arith }
  Moved-block_port (some ref1) = record { run = λ r r' e h. ground arith }

  pub Moved-unblock_port : (p : Option PortRef) → Moved s s (unblock_port p)
  unfolding unblock_port
  Moved-unblock_port none = record { run = λ r r' e h. cc }
  Moved-unblock_port (some ref0) = record { run = λ r r' e h. ground arith }
  Moved-unblock_port (some ref1) = record { run = λ r r' e h. ground arith }

  pub Moved-unblock_nonfailed_ports : Moved s s unblock_nonfailed_ports
  unfolding unblock_nonfailed_ports
  Moved-unblock_nonfailed_ports = search (Moved->>, Moved-only_if, Moved-unblock_port)

  pub Moved-start_tx : (q : RapsRequest) (f : ℕ) → Moved s s (start_tx q f)
  Moved-start_tx q f = record {
    run = λ r r' e h. let (r1, h1, sends) = start_tx-Sends q f r in ground (arith, h1, sends);
  }

pub ruleset moved_rules = (
  Moved->>, Moved-if_else, Moved-enter, Moved-only_if, Moved-with_rpl, Moved-if_blocked, Moved-stay,
  Moved-start_wtr_timer, Moved-stop_wtr_timer, Moved-start_wtb_timer, Moved-stop_wtb_timer,
  Moved-start_guard_timer, Moved-stop_guard_timer, Moved-stop_tx, Moved-flush_fdb, Moved-block_port,
  Moved-unblock_port, Moved-unblock_nonfailed_ports, Moved-start_tx,
)
