-- ===== src/Netmap/Total.antt =====
-- The bridge hook on any frame.
use erps.Common.{
  ℕ, ◌≤◌, length, true, false, Option, none, some, List, ◌≡◌, ◌⊎◌, inl, inr, refl, arith,
  Bool-cases,
}
use erps.Ring.{Ring}
use erps.Ring.Receive.{Clock}
use erps.Ring.Lifecycle.{er_lookup_ring}
use erps.Ring.Total.{IsSound}
use erps.Ring.LookupTotal.{er_forward_lookup-total}
use erps.Netmap.{recv_port_of, er_netmap_on_recv}

-- What the node keeps between two frames.
abbrev pub IsNode : Option Ring → Type 0
IsNode none = Unit {0}
IsNode (some r) = IsSound r

module _ (nm_bdg_noport : ℕ) (netmap_bdg_learning : List ℕ → ℕ → ℕ) where
  -- With memory for a message, and for a frame of any content in a buffer of at least the given length, received on any port of the bridge, a node
  -- with no ring or with a sound one answers with no read outside the buffer and no fault, with the port of the
  -- learning switch or the port for dropped frames, and stays such a node. With no active ring it drops the frame
  -- and changes nothing.
  pub er_netmap_on_recv-total :
      (clock : Clock) (ring_nr : ℕ) (buf : List ℕ) (len bdg_port : ℕ) (g : Option Ring)
      → len ≤ length buf
      → clock.raps_allocated ≡ true
      → IsNode g
      → (port : ℕ) × (g' : Option Ring) × (er_netmap_on_recv nm_bdg_noport netmap_bdg_learning clock
            ring_nr buf len bdg_port g
          ≡ some (port, g'))
        × ((port ≡ nm_bdg_noport) ⊎ (port ≡ netmap_bdg_learning buf bdg_port))
        × IsNode g'
        × (((r : Ring) → g ≡ some r → r.active ≡ false) → (port ≡ nm_bdg_noport) × (g' ≡ g))
  unfolding er_netmap_on_recv er_lookup_ring
  er_netmap_on_recv-total clock ring_nr buf len bdg_port none fits memory h =
      (_, _, refl, inl refl, tt, λ _. (refl, refl))
  er_netmap_on_recv-total clock ring_nr buf len bdg_port (some r) fits memory h =
      elim (Bool-cases r.active) [
        | inr e ↦ (nm_bdg_noport, some r, rw e refl, inl refl, h, λ _. (refl, refl))
        | inl e ↦
            let (pass, r', run, h', _) =
              er_forward_lookup-total clock buf len fits memory (recv_port_of r bdg_port) r h in
            elim (Bool-cases pass) [
              | inl p ↦ (
                netmap_bdg_learning buf bdg_port,
                some r',
                rw (run, p, e) refl,
                inr refl,
                h',
                λ off. absurd (ground (arith, off r refl, e)),
              )
              | inr p ↦ (
                nm_bdg_noport,
                some r',
                rw (run, p, e) refl,
                inl refl,
                h',
                λ off. absurd (ground (arith, off r refl, e)),
              )
            ]
      ]
