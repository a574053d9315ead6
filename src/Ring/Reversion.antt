-- ===== src/Ring/Reversion.antt =====
-- How the owner of the RPL goes back to IDLE from PENDING.
use mathlib.Core.Path.{subst}
use erps.Common.{ℕ, bit_or, Bool, true, false, Option, some, ◌≡◌, arith}
use erps.Raps.{flag_dnf, flag_rb, NodeId}
use erps.Raps
use erps.Ring.{
  idle, pending, Request, wtr_expires, wtb_expires, req_clear, PortRef, ref0, ref1, Ring, ◌>>◌,
  only_if, with_rpl, stop_wtr_timer, stop_wtb_timer, enter,
}
use erps.Ring.Rows.{block_rpl}
use erps.Ring.Rows.Pending.{fsm_pending}
use erps.Ring.Fsm.{is_dupe, save_request, execute_row, unless_dupe, ring_fsm}
use erps.Ring.Moved.{>>_split}
use erps.Ring.Effects.{Switched, block_rpl-Switched}

-- The three requests that end the wait.
pub data Ends : Request → Type 0 where
  cleared : Ends req_clear
  wtr_over : Ends wtr_expires
  wtb_over : Ends wtb_expires

-- The RPL is blocked, the other port open, and the ring is told so with RB, and with DNF if the RPL was blocked before.
abbrev pub Reverts : PortRef → Ring → Ring → Type 0
Reverts p r r' = (r'.state ≡ idle) × Switched Raps.nr (bit_or flag_rb flag_dnf) flag_rb p r r'

-- The end of the rows: timers have been stopped, which `r0` had.
closing :
    (p : PortRef) (r : Ring) (a b : Bool) {r1 r' : Ring}
    → block_rpl (some p) (record r { wtr_timer_active = a; wtb_timer_active = b }) ≡ some r1
    → enter idle r1 ≡ some r'
    → Reverts p r r'
unfolding enter
closing ref0 r a b h e = let s = block_rpl-Switched ref0 h in ground (arith, s, e)
closing ref1 r a b h e = let s = block_rpl-Switched ref1 h in ground (arith, s, e)

row-Reverts :
    (req : Request) (port : Option PortRef) (remote : Option NodeId) (p : PortRef) (r : Ring)
    {r' : Ring}
    → Ends req
    → r.is_rpl_owner ≡ true
    → r.rpl_port ≡ some p
    → fsm_pending req port remote r ≡ some r'
    → Reverts p r r'
unfolding fsm_pending ◌>>◌ only_if with_rpl stop_wtr_timer stop_wtb_timer
row-Reverts req port remote p r cleared o q h =
    let (r1, h1, h2) =
      >>_split
        (only_if (λ r. r.is_rpl_owner) (do stop_wtr_timer; stop_wtb_timer; with_rpl block_rpl))
        (enter idle) r h in
    let g : block_rpl (some p) (record r { wtr_timer_active = false; wtb_timer_active = false })
        ≡ some r1 =
      ground (arith, h1, o, q) in
    closing p r false false g h2
row-Reverts req port remote p r wtr_over o q h =
    let (r1, h1, h2) =
      >>_split (only_if (λ r. r.is_rpl_owner) (do stop_wtb_timer; with_rpl block_rpl)) (enter idle)
        r h in
    let g : block_rpl (some p)
          (record r { wtr_timer_active = r.wtr_timer_active; wtb_timer_active = false })
        ≡ some r1 =
      ground (arith, h1, o, q) in
    closing p r r.wtr_timer_active false g h2
row-Reverts req port remote p r wtb_over o q h =
    let (r1, h1, h2) =
      >>_split (only_if (λ r. r.is_rpl_owner) (do stop_wtr_timer; with_rpl block_rpl)) (enter idle)
        r h in
    let g : block_rpl (some p)
          (record r { wtr_timer_active = false; wtb_timer_active = r.wtb_timer_active })
        ≡ some r1 =
      ground (arith, h1, o, q) in
    closing p r false r.wtb_timer_active g h2

-- What has been saved of the request makes no difference.
saved :
    (p : PortRef) (req : Request) (port : Option PortRef) (remote : Option NodeId) (r r' : Ring)
    → Reverts p (save_request req port remote r) r'
    → Reverts p r r'
unfolding save_request
saved ref0 req port remote r r' (e, s) = (e, ground (arith, s))
saved ref1 req port remote r r' (e, s) = (e, ground (arith, s))

-- On the owner, CLEAR and the ends of both timers, unless they are repetitions, lead from PENDING to IDLE and block the
-- RPL, if the state machine returns.
pub ring_fsm-Reverts :
    (now : ℕ) (req : Request) (port : Option PortRef) (remote : Option NodeId) (p : PortRef)
    {r r' : Ring}
    → Ends req
    → r.state ≡ pending
    → r.is_rpl_owner ≡ true
    → r.rpl_port ≡ some p
    → is_dupe req port remote r ≡ some false
    → ring_fsm now req port remote r ≡ some r'
    → Reverts p r r'
unfolding ring_fsm
ring_fsm-Reverts now req port remote p {r} {r'} ends s o q fresh h =
    let row : execute_row now r.state req port remote (save_request req port remote r) ≡ some r' =
      rw (fresh, unless_dupe) at h in
    let row' : execute_row now pending req port remote (save_request req port remote r) ≡ some r' =
      subst (λ t. execute_row now t req port remote (save_request req port remote r) ≡ some r') s
        row in
    saved p req port remote r r'
      (unfold execute_row save_request in row-Reverts req port remote p _ ends o q row')
