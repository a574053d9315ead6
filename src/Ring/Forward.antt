-- ===== src/Ring/Forward.antt =====
-- Which frames pass `er_forward_lookup`.
use mathlib.Core.Path.{subst}
use erps.Common.{
  ℕ, Bool, true, false, Option, none, some, List, ◌≡◌, ◌≢◌, ◌⊎◌, inl, inr, refl, arith,
  Option-cases,
}
use erps.Raps.{er_is_raps_frame, er_is_local_raps_frame}
use erps.Ring.{PortRef, ref0, ref1, Ring, port_of}
use erps.Ring.Receive.{
  Clock, process_raps_frame, forward_raps, lookup_raps, lookup_other, er_forward_lookup,
}

abbrev pub other : PortRef → PortRef
other ref0 = ref1
other ref1 = ref0

-- A message that passes: it came in on a ring port, it is not the node's own, and once it has been processed both
-- ports of the node are open and the other one has an index that is not 0.
pub record RapsPasses (p : PortRef) (buf : List ℕ) (len : ℕ) (r r' : Ring) : Type 0 where
  pub foreign : er_is_local_raps_frame r.node_id buf len ≡ some false
  pub open0 : r'.port0.is_blocked ≡ false
  pub open1 : r'.port1.is_blocked ≡ false
  pub index : (port_of r' (other p)).idx ≢ 0

forward_raps_open :
    (p : PortRef) (r : Ring)
    → forward_raps p r ≡ true
    → (r.port0.is_blocked ≡ false) × (r.port1.is_blocked ≡ false) × ((port_of r (other p)).idx ≢ 0)
unfolding forward_raps
forward_raps_open ref0 r h = ground arith
forward_raps_open ref1 r h = ground arith

-- What the last `return` of the branch for messages says.
module _ (clock : Clock) (buf : List ℕ) (len : ℕ) (r : Ring) (p : PortRef) where
  passed :
      {r1 r' : Ring} {mine : Bool}
      → process_raps_frame clock buf len p r ≡ some r1
      → er_is_local_raps_frame r.node_id buf len ≡ some mine
      → lookup_raps clock (some p) buf len r ≡ some (true, r')
      → (forward_raps p r1 ≡ true) × (r1 ≡ r') × (mine ≡ false)
  unfolding lookup_raps
  passed f e h = ground arith

other_passed :
    (recv_port : Option PortRef) (r : Ring) {r' : Ring}
    → ◌≡◌ {A = Option (Bool × Ring)} (some (lookup_other recv_port r, r)) (some (true, r'))
    → (r' ≡ r) × (lookup_other recv_port r ≡ true)
other_passed recv_port r h = (cc, cc)

lookup_raps_passes :
    (clock : Clock) (recv_port : Option PortRef) (buf : List ℕ) (len : ℕ) {r r' : Ring}
    → lookup_raps clock recv_port buf len r ≡ some (true, r')
    → (p : PortRef) × (recv_port ≡ some p)
      × (process_raps_frame clock buf len p r ≡ some r')
      × RapsPasses p buf len r r'
unfolding lookup_raps
lookup_raps_passes clock none buf len h = absurd (ground arith)
lookup_raps_passes clock (some p) buf len {r} {r'} h =
    elim (Option-cases (er_is_local_raps_frame r.node_id buf len)) [
      | inl e ↦ absurd (ground arith)
      | inr (mine, e) ↦ elim (Option-cases (process_raps_frame clock buf len p r)) [
        | inl f ↦ absurd (ground arith)
        | inr (r1, f) ↦
            let (passes, same, foreign) = passed clock buf len r p f e h in
            let (open0, open1, index) = forward_raps_open p r1 passes in
            (
              p,
              refl,
              cc,
              subst (λ x. RapsPasses p buf len r x) same
                  (record { foreign = cc; open0 = open0; open1 = open1; index = index }),
            )
      ]
    ]

lookup_other_open :
    (recv_port : Option PortRef) (r : Ring)
    → lookup_other recv_port r ≡ true
    → (recv_port ≡ none)
      ⊎ ((p : PortRef) × (recv_port ≡ some p) × ((port_of r p).is_blocked ≡ false))
unfolding lookup_other
lookup_other_open none r h = inl refl
lookup_other_open (some p) r h = inr (p, refl, ground arith)

-- A frame passes only in one of two ways. It is an R-APS message of another node that came in on a
-- ring port, it has been processed, and both ports are open behind that, the other one with an index
-- that is not 0. Or it is no R-APS
-- message, nothing changes, and it came in beside the ring or on an open ring port.
pub er_forward_lookup-passes :
    (clock : Clock) (recv_port : Option PortRef) (buf : List ℕ) (len : ℕ) {r r' : Ring}
    → er_forward_lookup clock recv_port buf len r ≡ some (true, r')
    → (er_is_raps_frame buf len ≡ some true)
        × ((p : PortRef) × (recv_port ≡ some p)
            × (process_raps_frame clock buf len p r ≡ some r')
            × RapsPasses p buf len r r')
      ⊎ (er_is_raps_frame buf len ≡ some false)
        × (r' ≡ r)
        × ((recv_port ≡ none)
            ⊎ ((p : PortRef) × (recv_port ≡ some p) × ((port_of r p).is_blocked ≡ false)))
unfolding er_forward_lookup
er_forward_lookup-passes clock recv_port buf len {r} {r'} h =
    elim (Option-cases (er_is_raps_frame buf len)) [
      | inl e ↦ absurd (ground arith)
      | inr (true, e) ↦ inl (e, lookup_raps_passes clock recv_port buf len (rw e at h))
      | inr (false, e) ↦
          let (same, passes) = other_passed recv_port r (rw e at h) in
          inr (e, same, lookup_other_open recv_port r passes)
    ]
