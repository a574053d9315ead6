-- ===== src/Netmap.antt =====
-- `er_netmap_on_recv` of src/sys/dev/erps/er_netmap.c. The learning switch of netmap, and its port
-- number for a frame that is dropped, are parameters.
pub mod Total
pub mod Calls
pub mod Named
use erps.Common.{ℕ, not, Option, none, some, List, ◌==◌, if◌then◌else◌, ◌>>=◌}
use erps.Ring.{PortRef, ref0, ref1, Ring}
use erps.Ring.Receive.{Clock, er_forward_lookup}
use erps.Ring.Lifecycle.{er_lookup_ring}

-- The ring port on which the bridge received.
unfoldable pub recv_port_of : Ring → ℕ → Option PortRef
recv_port_of r bdg_port =
    if r.port0.idx == bdg_port
    then some ref0
    else if r.port1.idx == bdg_port
    then some ref1
    else none

module _ (nm_bdg_noport : ℕ) (netmap_bdg_learning : List ℕ → ℕ → ℕ) where
  unfoldable pub er_netmap_on_recv :
      Clock → ℕ → List ℕ → ℕ → ℕ → Option Ring → Option (ℕ × Option Ring)
  unfolding er_lookup_ring recv_port_of
  er_netmap_on_recv clock ring_nr buf len bdg_port er_global =
      elim (er_lookup_ring er_global ring_nr) [
        | none ↦ some (nm_bdg_noport, er_global)
        | some r ↦ if not r.active then some (nm_bdg_noport, er_global) else (do
          (pass, r') ← er_forward_lookup clock (recv_port_of r bdg_port) buf len r
          some (if pass then netmap_bdg_learning buf bdg_port else nm_bdg_noport, some r'))
      ]
