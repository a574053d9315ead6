-- ===== src/Ring/LookupTotal.antt =====
-- `er_forward_lookup` on any frame.
use erps.Common.{
  ℕ, ◌≤◌, length, List, Bool, true, false, Option, none, some, ◌≡◌, refl, inl, inr, arith,
  Bool-cases,
}
use erps.Raps.{Raps}
use erps.Raps.Safe.{er_raps_parse_total, er_is_raps_frame_total, er_is_local_raps_frame_total}
use erps.Ring.{PortRef, Ring}
use erps.Ring.Receive.{
  Clock, guarded, stored, process_raps_frame, forward_raps, lookup_raps, lookup_other,
  er_forward_lookup,
}
use erps.Ring.Steady.{IsConfigured}
use erps.Ring.Total.{IsSound, IsConfigured-refl}
use erps.Ring.ReceiveTotal.{Lands, Lands-self, Lands-from, process_parsed_total}

module _ (clock : Clock) (buf : List ℕ) (len : ℕ) (fits : len ≤ length buf)
    (allocated : clock.raps_allocated ≡ true) where
  expire_IsSound : (r : Ring) → IsSound r → IsSound (record r { guard_timer_active = false })
  expire_IsSound r h = record {
    has_rpl = h.has_rpl;
    frame = record {
      buffer = h.frame.buffer;
      buffer_len = h.frame.buffer_len;
      in_sync = h.frame.in_sync;
    };
  }

  stored_lem : (o : Option Raps) → stored clock o ≡ some o
  unfolding stored
  stored_lem none = refl
  stored_lem (some raps) = rw allocated refl

  pub process_raps_frame_total :
      (origin : PortRef) (r : Ring)
      → IsSound r
      → Lands r (process_raps_frame clock buf len origin r)
  unfolding process_raps_frame
  process_raps_frame_total origin r h = elim (Bool-cases (guarded clock r)) [
    | inl e ↦ rw e (Lands-self r h)
    | inr e ↦
        let (o, parsed) = er_raps_parse_total buf len fits in
        rw (e, parsed, stored_lem o)
          (Lands-from (ground arith) (
            process_parsed_total clock o origin (record r { guard_timer_active = false })
              (expire_IsSound r h)))
  ]

  -- The result of a lookup that ends, with the ring behind it.
  abbrev Answers : Ring → Option (Bool × Ring) → Type 0
  Answers r o = (b : Bool) × (r' : Ring) × (o ≡ some (b, r')) × IsSound r' × IsConfigured r r'

  Answers-self : (b : Bool) (r : Ring) → IsSound r → Answers r (some (b, r))
  Answers-self b r h = (b, r, refl, h, IsConfigured-refl r)

  lookup_raps_total :
      (recv_port : Option PortRef) (r : Ring)
      → IsSound r
      → Answers r (lookup_raps clock recv_port buf len r)
  unfolding lookup_raps
  lookup_raps_total none r h = Answers-self false r h
  lookup_raps_total (some p) r h =
      let (mine, e) = er_is_local_raps_frame_total buf r.node_id len fits in
      elim (Bool-cases mine) [
        | inl t ↦ rw (e, t) (Answers-self false r h)
        | inr t ↦
            let (r', run, h', k) = process_raps_frame_total p r h in
            rw (e, t, run) (forward_raps p r', r', refl, h', k)
      ]

  -- A frame of any content, received on any port, and memory for its message: a sound ring answers whether it passes, with no
  -- read outside the buffer and no fault, and stays a sound ring of the same configuration.
  pub er_forward_lookup-total :
      (recv_port : Option PortRef) (r : Ring)
      → IsSound r
      → (b : Bool) × (r' : Ring) × (er_forward_lookup clock recv_port buf len r ≡ some (b, r'))
        × IsSound r'
        × IsConfigured r r'
  unfolding er_forward_lookup
  er_forward_lookup-total recv_port r h =
      let (is_raps, e) = er_is_raps_frame_total buf len fits in
      elim (Bool-cases is_raps) [
        | inl t ↦ rw (e, t) (lookup_raps_total recv_port r h)
        | inr t ↦ rw (e, t) (Answers-self (lookup_other recv_port r) r h)
      ]
