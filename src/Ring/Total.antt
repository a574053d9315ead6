-- ===== src/Ring/Total.antt =====
-- `ring_fsm` on complete calls: sound rings before and behind it.
use mathlib.Core.Path.{subst₃}
use erps.Common.{
  ◌∙◌, ℕ, Bool, true, false, ◌⊎◌, inl, inr, Option, none, some, ◌≡◌, refl, sym, arith, Bool-cases,
  ◌==◌,
}
use erps.Raps.{NodeId}
use erps.Ring.{
  Request, rank, raps_nr, raps_nr_rb, req_raps_ms, req_raps_sf, req_raps_fs, PortRef, Ring,
}
use erps.Ring.Fsm.{group, dupe, is_dupe, unless_dupe, save_request, ring_fsm}
use erps.Ring.Steady.{IsSteady, IsConfigured, IsRemembered, HasFrame}
use erps.Ring.RowsTotal.{IsCall, HasRpl, Steady-execute_row}

-- The test for repetitions has the address that it reads.
pub dupe_total :
    (req : Request) (same : Bool) (port : Option PortRef) (remote : Option NodeId) (r : Ring)
    → IsCall req port remote
    → (b : Bool) × (dupe (group req) same port remote r ≡ some b)
unfolding dupe group
dupe_total raps_nr true port none r c = elim c [ ]
dupe_total raps_nr_rb true port none r c = elim c [ ]
dupe_total req_raps_ms true port none r c = elim c [ ]
dupe_total req_raps_sf true port none r c = elim c [ ]
dupe_total req_raps_fs true port none r c = elim c [ ]
dupe_total raps_nr true port (some n) r c = (_, refl)
dupe_total raps_nr_rb true port (some n) r c = (_, refl)
dupe_total req_raps_ms true port (some n) r c = (_, refl)
dupe_total req_raps_sf true port (some n) r c = (_, refl)
dupe_total req_raps_fs true port (some n) r c = (_, refl)
dupe_total _ same port remote r c = (_, refl)

-- A ring that every operation of the state machine leaves as one.
pub record IsSound (r : Ring) : Type 0 where
  pub has_rpl : HasRpl r
  pub frame : HasFrame r

-- Saving the request leaves the rest of the ring.
save_request-IsSteady :
    (req : Request) (port : Option PortRef) (remote : Option NodeId) (r : Ring)
    → IsSound r
    → IsSound (save_request req port remote r)
      × IsConfigured r (save_request req port remote r)
      × IsSteady (save_request req port remote r) (save_request req port remote r)
unfolding save_request
save_request-IsSteady req port remote r h = (
  record {
    has_rpl = h.has_rpl;
    frame = record {
      buffer = h.frame.buffer;
      buffer_len = h.frame.buffer_len;
      in_sync = h.frame.in_sync;
    };
  },
  ground arith,
  record {
    configured = ground arith;
    remembered = ground arith;
    frame = record {
      buffer = h.frame.buffer;
      buffer_len = h.frame.buffer_len;
      in_sync = h.frame.in_sync;
    };
  },
)

pub IsConfigured-refl : (r : Ring) → IsConfigured r r
IsConfigured-refl r = ground arith

IsSteady-IsSound : {r r' : Ring} → IsSound r → IsSteady r r' → IsSound r'
IsSteady-IsSound {r} {r'} h s = record {
  has_rpl =
      subst₃ (λ o n q. (o ≡ true) ⊎ (n ≡ true) → (p : PortRef) × (q ≡ some p))
        (sym s.configured.owner) (sym s.configured.neighbour) (sym s.configured.rpl) h.has_rpl;
  frame = s.frame;
}

pub IsConfigured-trans : {a b c : Ring} → IsConfigured a b → IsConfigured b c → IsConfigured a c
IsConfigured-trans h k = record {
  owner = k.owner ∙ h.owner;
  neighbour = k.neighbour ∙ h.neighbour;
  revertive = k.revertive ∙ h.revertive;
  rpl = k.rpl ∙ h.rpl;
  version = k.version ∙ h.version;
  id = k.id ∙ h.id;
  vid = k.vid ∙ h.vid;
  node_id = k.node_id ∙ h.node_id;
  active = k.active ∙ h.active;
  name0 = k.name0 ∙ h.name0;
  name1 = k.name1 ∙ h.name1;
  idx0 = k.idx0 ∙ h.idx0;
  idx1 = k.idx1 ∙ h.idx1;
  failed0 = k.failed0 ∙ h.failed0;
  failed1 = k.failed1 ∙ h.failed1;
  source = k.source ∙ h.source;
  message_vid = k.message_vid ∙ h.message_vid;
  message_ring = k.message_ring ∙ h.message_ring;
  message_subcode = k.message_subcode ∙ h.message_subcode;
}

-- What a run of a row that is no repetition leaves behind.
pub run_row :
    (now : ℕ) (req : Request) (port : Option PortRef) (remote : Option NodeId) (r : Ring)
    → IsSound r
    → IsCall req port remote
    → is_dupe req port remote r ≡ some false
    → (r' : Ring) × (ring_fsm now req port remote r ≡ some r')
      × IsSound r'
      × IsConfigured r r'
      × IsRemembered (save_request req port remote r) r'
unfolding ring_fsm
run_row now req port remote r h c fresh =
    let (saved, kept, steady) = save_request-IsSteady req port remote r h in
    let (r', run, h') =
      (Steady-execute_row (save_request req port remote r) saved.has_rpl now r.state req port remote
          c).run
        (save_request req port remote r) steady in
    (
      r',
      rw (fresh, unless_dupe) run,
      IsSteady-IsSound saved h',
      IsConfigured-trans kept h'.configured,
      h'.remembered,
    )

pub skip_row :
    (now : ℕ) (req : Request) (port : Option PortRef) (remote : Option NodeId) (r : Ring)
    → is_dupe req port remote r ≡ some true
    → ring_fsm now req port remote r ≡ some r
unfolding ring_fsm
skip_row now req port remote r repeated = rw (repeated, unless_dupe)

-- On a sound ring and a complete call the state machine ends with no fault, in a sound ring with
-- the same configuration: roles, RPL port, version, identifiers, activity, and the names, indices
-- and failures of both ports.
pub ring_fsm-total :
    (now : ℕ) (req : Request) (port : Option PortRef) (remote : Option NodeId) (r : Ring)
    → IsSound r
    → IsCall req port remote
    → (r' : Ring) × (ring_fsm now req port remote r ≡ some r') × IsSound r' × IsConfigured r r'
ring_fsm-total now req port remote r h c =
    let (b, e) = dupe_total req (rank req == rank r.prev_request) port remote r c in
    elim (Bool-cases b) [
      | inl repeated ↦
          (r, skip_row now req port remote r (rw repeated at e), h, IsConfigured-refl r)
      | inr fresh ↦
          let (r', run, h', kept, _) = run_row now req port remote r h c (rw fresh at e) in
          (r', run, h', kept)
    ]
