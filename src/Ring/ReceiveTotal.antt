-- ===== src/Ring/ReceiveTotal.antt =====
-- The receive path and the filter in front of the state machine on sound rings.
use erps.Common.{
  ℕ, ◌&&◌, Option, none, some, ◌≡◌, refl, inl, inr, arith, Bool-cases, Option-cases, ltb,
}
use erps.Raps.{NodeId, Raps}
use erps.Ring.{Request, rank, raps_nr, req_clear, PortRef, Ring}
use erps.Ring.Priority.{
  unsupported, separating, denied, is_req, local_sf_cleared, clear_local_sf, retain, compete,
  ring_process_request,
}
use erps.Ring.Receive.{Clock, request_of, process_parsed}
use erps.Ring.Steady.{IsConfigured}
use erps.Ring.RowsTotal.{IsCall}
use erps.Ring.Total.{IsSound, IsConfigured-refl, IsConfigured-trans, ring_fsm-total}

-- `o` is a sound ring with the configuration of `r`.
abbrev pub Lands : Ring → Option Ring → Type 0
Lands r o = (r' : Ring) × (o ≡ some r') × IsSound r' × IsConfigured r r'

pub Lands-self : (r : Ring) → IsSound r → Lands r (some r)
Lands-self r h = (r, refl, h, IsConfigured-refl r)

-- The ring that the state machine is given.
pub IsSound-relabel :
    (r : Ring) (q : Request) → IsSound r → IsSound (record r { local_request = q })
IsSound-relabel r q h = record {
  has_rpl = h.has_rpl;
  frame = record {
    buffer = h.frame.buffer;
    buffer_len = h.frame.buffer_len;
    in_sync = h.frame.in_sync;
  };
}

IsConfigured-relabel : (r : Ring) (q : Request) → IsConfigured r (record r { local_request = q })
IsConfigured-relabel r q = ground arith

clear_local_sf_lem :
    (request : Request) (r : Ring)
    → IsSound r
    → IsSound (clear_local_sf request r) × IsConfigured r (clear_local_sf request r)
unfolding clear_local_sf
clear_local_sf_lem request r h = elim (Bool-cases (local_sf_cleared request r)) [
  | inl e ↦ rw e (IsSound-relabel r Request.invalid h, IsConfigured-relabel r Request.invalid)
  | inr e ↦ rw e (h, IsConfigured-refl r)
]

-- What holds behind a ring of the same configuration holds of the ring.
pub Lands-from : {a b : Ring} {o : Option Ring} → IsConfigured a b → Lands b o → Lands a o
Lands-from k (r', e, h, k') = (r', e, h, IsConfigured-trans k k')

compete_total :
    (now : ℕ) (request : Request) (port : Option PortRef) (remote : Option NodeId) (r : Ring)
    → IsSound r
    → IsCall request port remote
    → Lands r (compete now request port remote r)
unfolding compete
compete_total now request port remote r h c =
    elim (Bool-cases (ltb (rank r.local_request) (rank request))) [
      | inl e ↦ rw e (
          Lands-from (IsConfigured-relabel r (retain request)) (
            ring_fsm-total now request port remote (record r { local_request = retain request })
              (IsSound-relabel r (retain request) h) c))
      | inr e ↦ rw e (Lands-self r h)
    ]

-- On a sound ring and a complete call a request is filtered, or run by the state machine, with no
-- fault; the ring stays sound and keeps its configuration.
pub ring_process_request-total :
    (now : ℕ) (request : Request) (port : Option PortRef) (remote : Option NodeId) (r : Ring)
    → IsSound r
    → IsCall request port remote
    → (r' : Ring) × (ring_process_request now request port remote r ≡ some r')
      × IsSound r'
      × IsConfigured r r'
unfolding ring_process_request
ring_process_request-total now request port remote r h c =
    elim (Bool-cases (unsupported request r)) [
      | inl e ↦ rw e (Lands-self r h)
      | inr e ↦ elim (Bool-cases (separating request r)) [
        | inl f ↦ rw (e, f) (Lands-self r h)
        | inr f ↦ elim (Bool-cases (is_req request req_clear && denied r)) [
          | inl g ↦ rw (e, f, g) (Lands-self r h)
          | inr g ↦
              let (h', k) = clear_local_sf_lem request r h in
              rw (e, f, g)
                (Lands-from k
                  (compete_total now request port remote (clear_local_sf request r) h' c))
        ]
      ]
    ]

-- Every request of a message comes with a port and an address.
IsCall-full : (request : Request) (p : PortRef) (n : NodeId) → IsCall request (some p) (some n)
IsCall-full raps_nr p n = tt
IsCall-full _ p n = tt

pub process_parsed_total :
    (clock : Clock) (o : Option Raps) (origin : PortRef) (r : Ring)
    → IsSound r
    → Lands r (process_parsed clock o origin r)
unfolding process_parsed
process_parsed_total clock none origin r h = Lands-self r h
process_parsed_total clock (some raps) origin r h = elim (Option-cases (request_of raps)) [
  | inl e ↦ rw (e, process_parsed) (Lands-self r h)
  | inr (request, e) ↦
      rw (e, process_parsed)
        (ring_process_request-total clock.ticks request (some origin) (some raps.node_id) r h
          (IsCall-full request origin raps.node_id))
]
