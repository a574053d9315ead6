-- ===== src/Ring/Resting.antt =====
-- How a node that is not the owner goes back to IDLE from PENDING, when the owner says that it has blocked the RPL.
use mathlib.Core.Path.{subst}
use erps.Common.{ℕ, true, false, Option, some, ◌≡◌, arith, inl, inr, Bool-cases, Option-cases}
use erps.Raps.{NodeId}
use erps.Ring.{pending, raps_nr_rb, PortRef, ref0, ref1, Ring}
use erps.Ring.Created.{BlocksOne}
use erps.Ring.Rows.Pending.{pending_nr_rb, fsm_pending}
use erps.Ring.Fsm.{is_dupe, save_request, execute_row, unless_dupe, ring_fsm}

-- A neighbour of the RPL blocks that and opens the other port, any other node opens both; the node falls silent.
pub record Rests (r r' : Ring) : Type 0 where
  pub open0 : r.is_rpl_neighbour ≡ false → r'.port0.is_blocked ≡ false
  pub open1 : r.is_rpl_neighbour ≡ false → r'.port1.is_blocked ≡ false
  pub blocks : (p : PortRef) → r.is_rpl_neighbour ≡ true → r.rpl_port ≡ some p → BlocksOne r' p
  pub silent : r'.is_sending_raps ≡ false
  pub guard : r'.guard_timer_active ≡ r.guard_timer_active

-- What the branch for the neighbour leaves.
neighbour-Rests :
    (q : PortRef) (r : Ring) {r' : Ring}
    → r.is_rpl_neighbour ≡ true
    → r.rpl_port ≡ some q
    → BlocksOne r' q × (r'.is_sending_raps ≡ false) × (r'.guard_timer_active ≡ r.guard_timer_active)
    → Rests r r'
neighbour-Rests q r {r'} e f (b, s, g) = record {
  open0 = λ n. ground (arith, e, n);
  open1 = λ n. ground (arith, e, n);
  blocks = λ p _ k. let same : q ≡ p = cc in subst (BlocksOne r') same b;
  silent = s;
  guard = g;
}

row-Rests : (r : Ring) {r' : Ring} → r.is_rpl_owner ≡ false → pending_nr_rb r ≡ some r' → Rests r r'
unfolding pending_nr_rb
row-Rests r {r'} plain h = elim (Bool-cases r.is_rpl_neighbour) [
  | inr e ↦
      let g = rw (plain, e) at h in
      record {
        open0 = λ _. ground (arith, g);
        open1 = λ _. ground (arith, g);
        blocks = λ p f. ground (arith, e, f);
        silent = ground (arith, g);
        guard = ground (arith, g);
      }
  | inl e ↦ elim (Option-cases r.rpl_port) [
    | inl f ↦ cc (rw (plain, e, f) at h)
    | inr (ref0, f) ↦
        let g = rw (plain, e, f) at h in neighbour-Rests ref0 r e f (ground (arith, g))
    | inr (ref1, f) ↦
        let g = rw (plain, e, f) at h in neighbour-Rests ref1 r e f (ground (arith, g))
  ]
]

-- What has been saved of the request makes no difference.
saved :
    (port : Option PortRef) (remote : Option NodeId) (r : Ring) {r' : Ring}
    → Rests (save_request raps_nr_rb port remote r) r'
    → Rests r r'
unfolding save_request
saved port remote r y = record {
  open0 = y.open0;
  open1 = y.open1;
  blocks = y.blocks;
  silent = y.silent;
  guard = y.guard;
}

-- A message NR and RB in PENDING, on a node that is not the owner, that is not a repetition: what the state machine
-- leaves, if it returns.
pub ring_fsm-Rests :
    (now : ℕ) (port : Option PortRef) (remote : Option NodeId) {r r' : Ring}
    → r.state ≡ pending
    → r.is_rpl_owner ≡ false
    → is_dupe raps_nr_rb port remote r ≡ some false
    → ring_fsm now raps_nr_rb port remote r ≡ some r'
    → Rests r r'
unfolding ring_fsm
ring_fsm-Rests now port remote {r} {r'} s plain fresh h =
    let row : execute_row now r.state raps_nr_rb port remote (save_request raps_nr_rb port remote r)
        ≡ some r' =
      rw (fresh, unless_dupe) at h in
    let row' : execute_row now pending raps_nr_rb port remote
          (save_request raps_nr_rb port remote r)
        ≡ some r' =
      subst
        (λ t.
          execute_row now t raps_nr_rb port remote (save_request raps_nr_rb port remote r)
          ≡ some r')
        s row in
    saved port remote r (
      unfold execute_row fsm_pending save_request in
      row-Rests (save_request raps_nr_rb port remote r) plain row')
