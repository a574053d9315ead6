-- ===== src/Sim/Relay.antt =====
-- Where a processed message goes on: `port_cb` of extras/sim/ringd.c beside `er_forward_lookup`.
use erps.Common.{
  ℕ, true, false, some, List, [], ◌∷◌, ◌≡◌, ◌⊎◌, inl, inr, refl, arith, take, Bool-cases,
}
use erps.Ring.{PortRef, ref0, ref1, Ring, port_of}
use erps.Ring.Receive.{forward_raps, as_bool}
use erps.Sim.Actions.{ring_other_port}
use erps.Sim.Daemon.{relay}

-- From a blocked port neither the simulator nor the kernel module sends a message on, and from an open port to an open
-- one both do, the kernel module if the index of that is not 0. From an open port to a blocked one the simulator sends
-- it and the kernel module does not.
pub relay-forward_raps :
    (p q : PortRef) (buf : List ℕ) (len : ℕ) (r : Ring)
    → ring_other_port (some p) ≡ some q
    → ((port_of r p).is_blocked ≡ true) × (relay p buf len r ≡ []) × (forward_raps p r ≡ false)
      ⊎ ((port_of r p).is_blocked ≡ false)
        × ((port_of r q).is_blocked ≡ false)
        × (relay p buf len r ≡ (q, take len buf) ∷ [])
        × (forward_raps p r ≡ as_bool (port_of r q).idx)
      ⊎ ((port_of r p).is_blocked ≡ false)
        × ((port_of r q).is_blocked ≡ true)
        × (relay p buf len r ≡ (q, take len buf) ∷ [])
        × (forward_raps p r ≡ false)
unfolding relay forward_raps
relay-forward_raps ref0 ref0 buf len r e = ground (arith, e)
relay-forward_raps ref1 ref1 buf len r e = ground (arith, e)
relay-forward_raps ref0 ref1 buf len r e = elim (Bool-cases r.port0.is_blocked) [
  | inl a ↦ inl (a, rw a refl, rw a refl)
  | inr a ↦ elim (Bool-cases r.port1.is_blocked) [
    | inl b ↦ inr (inr (a, b, rw a refl, rw (a, b) refl))
    | inr b ↦ inr (inl (a, b, rw a refl, rw (a, b) refl))
  ]
]
relay-forward_raps ref1 ref0 buf len r e = elim (Bool-cases r.port1.is_blocked) [
  | inl a ↦ inl (a, rw a refl, rw a refl)
  | inr a ↦ elim (Bool-cases r.port0.is_blocked) [
    | inl b ↦ inr (inr (a, b, rw a refl, rw (a, b) refl))
    | inr b ↦ inr (inl (a, b, rw a refl, rw (a, b) refl))
  ]
]
