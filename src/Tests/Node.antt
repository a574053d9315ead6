-- ===== src/Tests/Node.antt =====
-- A node as a whole, and the theorems at it.
use erps.Common.{ℕ, Option, none, some, List, ◌≡◌, refl, arith}
use erps.Raps
use erps.Raps.{zero_id, er_is_raps_frame, er_is_local_raps_frame, er_raps_parse}
use erps.Raps.Frame.{frame_of}
use erps.Ring.{Ring, pending, raps_nr_rb}
use erps.Ring.Fsm.{ring_fsm, dupe, group}
use erps.Ring.Priority.{ring_process_request}
use erps.Ring.Receive.{Clock, er_forward_lookup, process_raps_frame}
use erps.Control.{eriocinit}
use erps.Netmap.{er_netmap_on_recv}
use erps.Netmap.Total.{IsNode}
use erps.Node.{Event, frame, ioctl, step, Reaches, here, next}
use erps.Node.Total.{step-total}
use erps.Node.Moves.{Holds}
use erps.Node.Refines.{Follows, Reaches-Follows}
use erps.Node.Idle.{step_to_idle}
use erps.Tests.{there, owner, owner-IsSound, message, foreign, clock}
use erps.Tests.Creation.{kernel, request, up, init_run}

abbrev learning : List ℕ → ℕ → ℕ
learning buf bdg_port = 3

abbrev arriving : Event
arriving = frame clock 1 (frame_of foreign) 55 3

step-total_example :
    (g' : Option Ring) × (step 255 learning arriving (some owner) ≡ some g') × IsNode g'
step-total_example =
    step-total 255 learning arriving (some owner) (ground arith, refl) owner-IsSound

-- ERIOCINIT.
abbrev initialising : Event
initialising = ioctl kernel eriocinit (some request)

initialised : Reaches 255 learning none (some up)
initialised = next {g2 = some up} initialising here refl (unfold step in rw init_run refl)

Reaches-Follows_example : Follows none (some pending)
Reaches-Follows_example = Reaches-Follows 255 learning initialised

-- NR, RB of the other node.
abbrev reverted : Raps.Raps
reverted = record message { node_id = there }

abbrev before : Ring
before = record owner { state = pending }

abbrev behind : Ring
behind = record owner { prev_request = raps_nr_rb }

revert_run :
    step 255 learning (frame clock 1 (frame_of reverted) 55 3) (some before) ≡ some (some behind)
unfolding step er_netmap_on_recv er_forward_lookup er_is_raps_frame er_is_local_raps_frame
    process_raps_frame er_raps_parse ring_process_request ring_fsm dupe group
revert_run = refl

step_to_idle_example :
    (clock' : Clock) × (ring_nr : ℕ) × (buf : List ℕ) × (len : ℕ) × (bdg_port : ℕ) × (frame clock 1
        (frame_of reverted)
        55
        3
      ≡ frame clock' ring_nr buf len bdg_port)
    × Holds buf len raps_nr_rb
step_to_idle_example =
    step_to_idle 255 learning (frame clock 1 (frame_of reverted) 55 3) before behind revert_run
      (λ e. ground (arith, e)) refl
