-- ===== src/Ring/Steady.antt =====
-- What no action of the state machine changes, and the frame that is sent.
use erps.Common.{
  ℕ, ◌<◌, Bool, not, ◌||◌, ◌⊎◌, inl, inr, Option, some, List, length, ◌==◌, ◌≡◌, refl, arith,
  Bool-cases,
}
use erps.Raps.{RapsRequest, code, Raps, er_raps_encode}
use erps.Raps.Frame.{frame_of, encode_fields_exact, length-encode_fields}
use erps.Ring.{
  PortRef, ref0, ref1, Ring, start_wtr_timer, stop_wtr_timer, start_wtb_timer, stop_wtb_timer,
  start_guard_timer, stop_guard_timer, block_port, unblock_port, flush_fdb, er_ring_other_port,
  same_port, unblock_nonfailed_ports, start_tx, stop_tx, State, enter,
}
use erps.Ring.Logic.{Keeps, Keeps->>, Keeps-only_if}

-- The frame buffer has 55 bytes, and holds the message of `raps` once one has been encoded (a new
-- ring has the flags 0xff, which no message has).
pub record HasFrame (r : Ring) : Type 0 where
  pub buffer : length r.raps_frame ≡ 55
  pub buffer_len : r.raps_frame_len ≡ 55
  pub in_sync : (r.raps.flags ≡ 0xff) ⊎ (r.raps_frame ≡ frame_of r.raps)

-- `r` has the configuration of `r0`.
pub record IsConfigured (r0 r : Ring) : Type 0 where
  pub owner : r.is_rpl_owner ≡ r0.is_rpl_owner
  pub neighbour : r.is_rpl_neighbour ≡ r0.is_rpl_neighbour
  pub revertive : r.is_revertive ≡ r0.is_revertive
  pub rpl : r.rpl_port ≡ r0.rpl_port
  pub version : r.version ≡ r0.version
  pub id : r.id ≡ r0.id
  pub vid : r.raps_vid ≡ r0.raps_vid
  pub node_id : r.node_id ≡ r0.node_id
  pub active : r.active ≡ r0.active
  pub name0 : r.port0.name ≡ r0.port0.name
  pub name1 : r.port1.name ≡ r0.port1.name
  pub idx0 : r.port0.idx ≡ r0.port0.idx
  pub idx1 : r.port1.idx ≡ r0.port1.idx
  pub failed0 : r.port0.is_failed ≡ r0.port0.is_failed
  pub failed1 : r.port1.is_failed ≡ r0.port1.is_failed
  pub source : r.raps.node_id ≡ r0.raps.node_id
  pub message_vid : r.raps.vid ≡ r0.raps.vid
  pub message_ring : r.raps.ring_id ≡ r0.raps.ring_id
  pub message_subcode : r.raps.subcode ≡ r0.raps.subcode

-- `r` has the memory of `r0` for requests.
pub record IsRemembered (r0 r : Ring) : Type 0 where
  pub local : r.local_request ≡ r0.local_request
  pub request : r.prev_request ≡ r0.prev_request
  pub port : r.prev_request_port ≡ r0.prev_request_port
  pub remote : r.prev_request_remote_node_id ≡ r0.prev_request_remote_node_id

pub record IsSteady (r0 r : Ring) : Type 0 where
  pub configured : IsConfigured r0 r
  pub remembered : IsRemembered r0 r
  pub frame : HasFrame r

-- Encoding into a buffer of the right size writes the message.
er_raps_encode-frame_of :
    (raps : Raps) (buf : List ℕ) (len : ℕ)
    → length buf ≡ 55
    → len ≡ 55
    → ((er_raps_encode raps buf len).1 ≡ frame_of raps)
      × (length (er_raps_encode raps buf len).1 ≡ 55)
unfolding er_raps_encode
er_raps_encode-frame_of raps buf len size fits =
    rw fits (
      encode_fields_exact raps buf size,
      omega (arith, length-encode_fields raps buf (omega arith)),
    )

abbrev differs : RapsRequest → ℕ → Ring → Bool
differs q f r = not (code r.raps.request == code q) || not (r.raps.flags == f)

module _ (r0 : Ring) where
  pub Steady-start_wtr_timer : (now : ℕ) → Keeps (IsSteady r0) (start_wtr_timer now)
  unfolding start_wtr_timer
  Steady-start_wtr_timer now = record { run = λ r h. (_, refl, ground arith) }

  pub Steady-stop_wtr_timer : Keeps (IsSteady r0) stop_wtr_timer
  unfolding stop_wtr_timer
  Steady-stop_wtr_timer = record { run = λ r h. (_, refl, ground arith) }

  pub Steady-start_wtb_timer : (now : ℕ) → Keeps (IsSteady r0) (start_wtb_timer now)
  unfolding start_wtb_timer
  Steady-start_wtb_timer now = record { run = λ r h. (_, refl, ground arith) }

  pub Steady-stop_wtb_timer : Keeps (IsSteady r0) stop_wtb_timer
  unfolding stop_wtb_timer
  Steady-stop_wtb_timer = record { run = λ r h. (_, refl, ground arith) }

  pub Steady-start_guard_timer : (now : ℕ) → Keeps (IsSteady r0) (start_guard_timer now)
  unfolding start_guard_timer
  Steady-start_guard_timer now = record { run = λ r h. (_, refl, ground arith) }

  pub Steady-stop_guard_timer : Keeps (IsSteady r0) stop_guard_timer
  unfolding stop_guard_timer
  Steady-stop_guard_timer = record { run = λ r h. (_, refl, ground arith) }

  pub Steady-stop_tx : Keeps (IsSteady r0) stop_tx
  unfolding stop_tx
  Steady-stop_tx = record { run = λ r h. (_, refl, ground arith) }

  pub Steady-enter : (s : State) → Keeps (IsSteady r0) (enter s)
  unfolding enter
  Steady-enter s = record { run = λ r h. (_, refl, ground arith) }

  pub Steady-flush_fdb : Keeps (IsSteady r0) flush_fdb
  unfolding flush_fdb
  Steady-flush_fdb = record { run = λ r h. (r, refl, h) }

  pub Steady-block_port : (p : PortRef) → Keeps (IsSteady r0) (block_port (some p))
  unfolding block_port
  Steady-block_port ref0 = record { run = λ r h. (_, refl, ground arith) }
  Steady-block_port ref1 = record { run = λ r h. (_, refl, ground arith) }

  pub Steady-unblock_port : (p : PortRef) → Keeps (IsSteady r0) (unblock_port (some p))
  unfolding unblock_port
  Steady-unblock_port ref0 = record { run = λ r h. (_, refl, ground arith) }
  Steady-unblock_port ref1 = record { run = λ r h. (_, refl, ground arith) }

  pub Steady-unblock_other :
      (q : Option PortRef) → Keeps (IsSteady r0) (unblock_port (er_ring_other_port q))
  unfolding er_ring_other_port
  Steady-unblock_other q = elim (Bool-cases (same_port q (some ref1))) [
    | inl e ↦ rw e (Steady-unblock_port ref0)
    | inr e ↦ rw e (Steady-unblock_port ref1)
  ]

  pub Steady-unblock_nonfailed_ports : Keeps (IsSteady r0) unblock_nonfailed_ports
  unfolding unblock_nonfailed_ports
  Steady-unblock_nonfailed_ports = search (Keeps->>, Keeps-only_if, Steady-unblock_port)

  pub Steady-start_tx : (q : RapsRequest) (f : ℕ) → f < 0xff → Keeps (IsSteady r0) (start_tx q f)
  unfolding start_tx
  Steady-start_tx q f small = record {
    run = λ r h.
        let raps = record r.raps { request = q; flags = f } in
        let (message, size) =
          er_raps_encode-frame_of raps r.raps_frame r.raps_frame_len h.frame.buffer
            h.frame.buffer_len in
        elim (Bool-cases (differs q f r)) [
          | inl e ↦ rw e (_, refl, ground (arith, message, size))
          | inr e ↦ rw e (_, refl, ground arith)
        ];
  }
