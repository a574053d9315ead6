-- ===== src/Ring/Created.antt =====
-- The ring that `er_ring_create` returns.
use mathlib.Core.Path.{subst}
use erps.Common.{
  ℕ, List, [], Bool, true, false, not, ◌==◌, Option, none, some, ◌≡◌, refl, inl, inr, arith,
  Bool-cases,
}
use erps.Raps.{NodeId, zero_id}
use erps.Raps
use erps.Port.{Port}
use erps.Ring.{pending, invalid, ref0, ref1, PortRef, Ring, start_tx}
use erps.Ring.Fsm.{dupe, group, save_request, ring_fsm}
use erps.Ring.Rows.{fsm_init}
use erps.Ring.Lifecycle.{
  Kernel, NetmapCall, er_port_create, rpl_pointer, new_ring, finish_ring, join_ports,
  er_ring_create, rpl_ref,
}
use erps.Ring.Total.{IsSound, ring_fsm-total}

pub new_ring-IsSound :
    (id : ℕ) (p0 p1 : Port) (owner neighbour : ℕ) → IsSound (new_ring id p0 p1 owner neighbour)
unfolding new_ring
new_ring-IsSound id p0 p1 owner neighbour = record {
  has_rpl = λ h. elim (Bool-cases (neighbour == 0)) [
    | inl e ↦ elim (Bool-cases (owner == 0)) [
      | inl f ↦ ground arith
      | inr f ↦ (rpl_ref owner, rw (e, f))
    ]
    | inr e ↦ (rpl_ref neighbour, rw e)
  ];
  frame = record { buffer = refl; buffer_len = refl; in_sync = inl refl };
}

-- One of the ports is blocked, the other one is not.
abbrev pub BlocksOne : Ring → PortRef → Type 0
BlocksOne r ref0 = (r.port0.is_blocked ≡ true) × (r.port1.is_blocked ≡ false)
BlocksOne r ref1 = (r.port1.is_blocked ≡ true) × (r.port0.is_blocked ≡ false)

-- The port that row 01 blocks.
abbrev pub first_blocked : Option PortRef → PortRef
first_blocked none = ref0
first_blocked (some p) = p

pub record IsStarted (r : Ring) : Type 0 where
  pub in_pending : r.state ≡ pending
  pub sends : r.is_sending_raps ≡ true
  pub says : r.raps.request ≡ Raps.nr
  pub flags : r.raps.flags ≡ 0
  pub quiet : r.wtr_timer_active ≡ false
  pub no_request : r.local_request ≡ invalid
  pub blocks : BlocksOne r (first_blocked r.rpl_port)

-- The ring in front of row 01, with its role and its RPL port.
abbrev fresh : Bool → Bool → Option PortRef → Ring → Ring
fresh o n q r = record r {
  is_rpl_owner = o;
  is_rpl_neighbour = n;
  rpl_port = q;
  is_revertive = false;
  local_request = invalid;
  raps = record r.raps { flags = 0xff; request = Raps.nr };
}

now-IsStarted :
    {o : Option Ring} {r r' : Ring} → o ≡ some r → some r' ≡ o → IsStarted r' → IsStarted r
now-IsStarted {r} {r'} e e' s = let p : r' ≡ r = cc in subst IsStarted p s

-- Row 01, at each role and RPL port.
row_01 :
    (now : ℕ) (o n : Bool) (q : Option PortRef) (r0 : Ring) {r : Ring}
    → ((o ≡ false) × (n ≡ false) → q ≡ none)
    → fsm_init now (fresh o n q r0) ≡ some r
    → IsStarted r
unfolding fsm_init start_tx
row_01 now true n none r0 d h = cc
row_01 now true n (some ref0) r0 d h = now-IsStarted h refl (ground arith)
row_01 now true n (some ref1) r0 d h = now-IsStarted h refl (ground arith)
row_01 now false true none r0 d h = cc
row_01 now false true (some ref0) r0 d h = now-IsStarted h refl (ground arith)
row_01 now false true (some ref1) r0 d h = now-IsStarted h refl (ground arith)
row_01 now false false none r0 d h = now-IsStarted h refl (ground arith)
row_01 now false false (some p) r0 d h = cc (d (refl, refl))

no_role :
    (owner neighbour : ℕ)
    → (not (owner == 0) ≡ false) × (not (neighbour == 0) ≡ false)
    → rpl_pointer owner neighbour ≡ none
unfolding rpl_pointer
no_role owner neighbour h = ground arith

started :
    (now id : ℕ) (p0 p1 : Port) (owner neighbour : ℕ) {r : Ring}
    → ring_fsm now invalid none none (new_ring id p0 p1 owner neighbour) ≡ some r
    → IsStarted r
unfolding ring_fsm dupe group new_ring
started now id p0 p1 owner neighbour h =
    row_01 now (not (owner == 0)) (not (neighbour == 0)) (rpl_pointer owner neighbour)
      (save_request invalid none none (new_ring id p0 p1 owner neighbour)) (no_role owner neighbour)
      h

pub finish_ring_lem :
    (k : Kernel) (r0 : Ring) {r : Ring}
    → finish_ring k r0 ≡ some (some r)
    → ring_fsm k.ticks invalid none none r0 ≡ some r
unfolding finish_ring
finish_ring_lem k r0 h = ground arith

-- What the ring of a successful creation is.
pub record IsNew (owner neighbour : ℕ) (r : Ring) : Type 0 where
  pub sound : IsSound r
  pub started : IsStarted r
  pub rpl : r.rpl_port ≡ rpl_pointer owner neighbour
  pub id_zero : r.node_id ≡ zero_id
  pub source_zero : r.raps.node_id ≡ zero_id

IsNew-ring_fsm :
    (now id : ℕ) (p0 p1 : Port) (owner neighbour : ℕ) {r : Ring}
    → ring_fsm now invalid none none (new_ring id p0 p1 owner neighbour) ≡ some r
    → IsNew owner neighbour r
unfolding new_ring
IsNew-ring_fsm now id p0 p1 owner neighbour {r} h =
    let (r', e, sound, kept) =
      ring_fsm-total now invalid none none (new_ring id p0 p1 owner neighbour)
        (new_ring-IsSound id p0 p1 owner neighbour) tt in
    let same : r' ≡ r = cc in
    record {
      sound = subst IsSound same sound;
      started = started now id p0 p1 owner neighbour h;
      rpl = subst (λ x. x.rpl_port ≡ rpl_pointer owner neighbour) same kept.rpl;
      id_zero = subst (λ x. x.node_id ≡ zero_id) same kept.node_id;
      source_zero = subst (λ x. x.raps.node_id ≡ zero_id) same kept.source;
    }

join_ports-IsNew :
    (k : Kernel) (id : ℕ) (first second : Option Port × List NetmapCall) (owner neighbour : ℕ)
    {r : Ring} {calls : List NetmapCall}
    → join_ports k id first second owner neighbour ≡ some (some r, calls)
    → IsNew owner neighbour r
unfolding join_ports
join_ports-IsNew k id (none, c) second owner neighbour h = cc
join_ports-IsNew k id (some p0, c) (none, d) owner neighbour h = cc
join_ports-IsNew k id (some p0, c) (some p1, d) owner neighbour h =
    IsNew-ring_fsm k.ticks id p0 p1 owner neighbour
      (finish_ring_lem k (new_ring id p0 p1 owner neighbour) (ground arith))

pub er_ring_create-IsNew :
    (k : Kernel) (id : ℕ) (name0 name1 : List ℕ) (owner neighbour : ℕ) (node_id : NodeId) {r : Ring}
    {calls : List NetmapCall}
    → er_ring_create k id name0 name1 owner neighbour node_id ≡ some (some r, calls)
    → IsNew owner neighbour r
unfolding er_ring_create
er_ring_create-IsNew k id name0 name1 owner neighbour node_id {r} {calls} h =
    elim (Bool-cases k.ring_allocated) [
      | inl e ↦
          join_ports-IsNew k id (er_port_create k [] id name0)
            (er_port_create k (er_port_create k [] id name0).1 id name1) owner neighbour
            {calls = calls} (ground arith)
      | inr e ↦ absurd (ground arith)
    ]

-- With memory for the message, the part behind the ports ends with no fault.
finish_ring_total :
    (k : Kernel) (r0 : Ring)
    → IsSound r0
    → k.raps_allocated ≡ true
    → (o : Option Ring) × (finish_ring k r0 ≡ some o)
unfolding finish_ring
finish_ring_total k r0 h raps = elim (Bool-cases k.frame_allocated) [
  | inl e ↦
      let (r', run, _, _) = ring_fsm-total k.ticks invalid none none r0 h tt in
      (some r', rw (run, raps, e) refl)
  | inr e ↦ rw (raps, e) (_, refl)
]

join_ports_total :
    (k : Kernel) (id : ℕ) (first second : Option Port × List NetmapCall) (owner neighbour : ℕ)
    → k.raps_allocated ≡ true
    → (o : Option Ring) × (calls : List NetmapCall) × (join_ports k id first second owner neighbour
        ≡ some (o, calls))
unfolding join_ports
join_ports_total k id (none, c) second owner neighbour raps = (_, _, refl)
join_ports_total k id (some p0, c) (none, d) owner neighbour raps = (_, _, refl)
join_ports_total k id (some p0, c) (some p1, d) owner neighbour raps =
    let (o, run) =
      finish_ring_total k (new_ring id p0 p1 owner neighbour)
        (new_ring-IsSound id p0 p1 owner neighbour) raps in
    rw run (_, _, refl)

-- Unless there is no memory for the message, `er_ring_create` follows no null pointer, whatever else fails.
pub er_ring_create-total :
    (k : Kernel) (id : ℕ) (name0 name1 : List ℕ) (owner neighbour : ℕ) (node_id : NodeId)
    → k.raps_allocated ≡ true
    → (o : Option Ring) × (calls : List NetmapCall) × (er_ring_create k id name0 name1 owner
          neighbour node_id
        ≡ some (o, calls))
unfolding er_ring_create
er_ring_create-total k id name0 name1 owner neighbour node_id raps =
    elim (Bool-cases k.ring_allocated) [
      | inl e ↦
          let (o, calls, run) =
            join_ports_total k id (er_port_create k [] id name0)
              (er_port_create k (er_port_create k [] id name0).1 id name1) owner neighbour raps in
          (o, calls, rw (run, e) refl)
      | inr e ↦ (none, [], rw e refl)
    ]
