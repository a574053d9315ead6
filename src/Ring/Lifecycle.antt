-- ===== src/Ring/Lifecycle.antt =====
-- Creation and destruction of rings and ports: `er_port_create` and `er_port_destroy` of
-- src/sys/dev/erps/er_port.c, `er_ring_create`, `er_ring_destroy`, `er_activate_ring`,
-- `er_deactivate_ring`, `er_lookup_ring_port` and the list of rings of er_ring.c.
-- The netmap functions and the allocator are parameters; the calls to netmap are listed in order.
use erps.Common.{
  ℕ, ◌%◌, Bool, true, false, not, Option, none, some, List, [], ◌∷◌, ◌++◌, ◌==◌, if◌then◌else◌,
  take, replicate, memcmp, is_eq, ◌&&◌, ◌>>=◌, length,
}
use erps.Raps.{NodeId, zero_id, er_raps_create, er_raps_get_len}
use erps.Port.{Port}
use erps.Ring.{init, invalid, PortRef, ref0, ref1, Ring}
use erps.Ring.Fsm.{ring_fsm}

pub data NetmapCall : Type 0 where
  attach detach get_adapter unget_adapter get_indices : List ℕ → NetmapCall
  regops : ℕ → NetmapCall

-- What the calls of one creation return. Those for a port depend on its name and on the calls to netmap before it.
pub record Kernel : Type 0 where
  pub ticks : ℕ
  pub ring_allocated : Bool
  pub port_allocated : List NetmapCall → List ℕ → Bool
  pub raps_allocated : Bool
  pub frame_allocated : Bool
  pub attaches : List NetmapCall → List ℕ → Bool
  pub has_adapter : List NetmapCall → List ℕ → Bool
  pub port_index : List NetmapCall → ℕ → List ℕ → Option ℕ
  pub nm_bdg_noport : ℕ

-- The value of `port->idx` behind `er_netmap_get_indices`.
abbrev index_or : Option ℕ → ℕ → ℕ
index_or none d = d
index_or (some i) d = i

-- `strncpy(port->name, name, 16)` with its last character set to NUL.
abbrev pub port_name : List ℕ → List ℕ
port_name name = take 15 name

unfoldable pub er_port_create :
    Kernel → List NetmapCall → ℕ → List ℕ → Option Port × List NetmapCall
er_port_create k before id name =
    let n = port_name name in
    let idx = index_or (k.port_index before id n) k.nm_bdg_noport in
    if not (k.port_allocated before name)
    then (none, [])
    else if not (k.attaches before n)
    then (none, attach n ∷ unget_adapter n ∷ detach n ∷ [])
    else if not (k.has_adapter before n)
    then (none, attach n ∷ get_adapter n ∷ unget_adapter n ∷ detach n ∷ [])
    else (
      some (record { name = n; idx = idx; is_blocked = false; is_failed = false }),
      attach n ∷ get_adapter n ∷ get_indices n ∷ [],
    )

unfoldable pub er_port_destroy : Port → List NetmapCall
er_port_destroy port = unget_adapter port.name ∷ detach port.name ∷ []

-- ERPS_RPL_NONE is 0, ERPS_RPL_PORT0 is 1.
abbrev pub rpl_ref : ℕ → PortRef
rpl_ref p = if p == 1 then ref0 else ref1

-- The RPL port: a neighbour's overwrites an owner's.
unfoldable pub rpl_pointer : ℕ → ℕ → Option PortRef
rpl_pointer rpl_owner rpl_neighbour =
    if not (rpl_neighbour == 0)
    then some (rpl_ref rpl_neighbour)
    else if not (rpl_owner == 0)
    then some (rpl_ref rpl_owner)
    else none

-- The ring in front of the call of `ring_fsm`. The allocator clears the memory.
unfoldable pub new_ring : ℕ → Port → Port → ℕ → ℕ → Ring
unfolding er_raps_create er_raps_get_len rpl_pointer
new_ring ring_id p0 p1 rpl_owner rpl_neighbour =
    let raps = record er_raps_create {
      vid = 4093;
      ring_id = ring_id % 256;
      node_id = zero_id;
      subcode = 0;
      flags = 0xff;
    } in
    record {
      port0 = p0;
      port1 = p1;
      is_rpl_owner = not (rpl_owner == 0);
      is_rpl_neighbour = not (rpl_neighbour == 0);
      is_revertive = false;
      rpl_port = rpl_pointer rpl_owner rpl_neighbour;
      version = 0;
      id = ring_id;
      raps_vid = 4093;
      node_id = zero_id;
      guard_timer_active = false;
      guard_timer_active_since = 0;
      wtr_timer_active = false;
      wtr_timer_active_since = 0;
      wtb_timer_active = false;
      wtb_timer_active_since = 0;
      local_request = invalid;
      state = init;
      prev_request = invalid;
      prev_request_port = none;
      prev_request_remote_node_id = zero_id;
      is_sending_raps = false;
      raps = raps;
      raps_frame = replicate (er_raps_get_len raps) 0;
      raps_frame_len = er_raps_get_len raps;
      raps_bursts_remain = 0;
      guard_time = 0;
      wtr_time = 0;
      wtb_time = 0;
      active = false;
    }

-- The part of `er_ring_create` behind the ports. Without memory for `raps` the function writes
-- through a null pointer.
unfoldable pub finish_ring : Kernel → Ring → Option (Option Ring)
finish_ring k r =
    if not k.raps_allocated
    then none
    else if not k.frame_allocated
    then some none
    else (do r' ← ring_fsm k.ticks invalid none none r; some (some r'))

-- `er_ring_create` with its ports, and the calls so far.
unfoldable pub join_ports :
    Kernel
    → ℕ
    → Option Port × List NetmapCall
    → Option Port × List NetmapCall
    → ℕ
    → ℕ
    → Option (Option Ring × List NetmapCall)
join_ports k ring_id (none, calls0) second rpl_owner rpl_neighbour = some (none, calls0)
join_ports k ring_id (some p0, calls0) (none, calls1) rpl_owner rpl_neighbour =
    some (none, calls0 ++ calls1)
join_ports k ring_id (some p0, calls0) (some p1, calls1) rpl_owner rpl_neighbour = do
  ring ← finish_ring k (new_ring ring_id p0 p1 rpl_owner rpl_neighbour)
  some (ring, calls0 ++ (calls1 ++ regops ring_id ∷ []))

-- The parameter `node_id` is not used.
unfoldable pub er_ring_create :
    Kernel → ℕ → List ℕ → List ℕ → ℕ → ℕ → NodeId → Option (Option Ring × List NetmapCall)
er_ring_create k ring_id port0_name port1_name rpl_owner rpl_neighbour node_id =
    if not k.ring_allocated
    then some (none, [])
    else join_ports k ring_id (er_port_create k [] ring_id port0_name)
        (er_port_create k (er_port_create k [] ring_id port0_name).1 ring_id port1_name) rpl_owner
        rpl_neighbour

unfoldable pub er_activate_ring : Ring → Bool × Ring
er_activate_ring r = (true, record r { active = true })

unfoldable pub er_deactivate_ring : Ring → Bool × Ring
er_deactivate_ring r = (true, record r { active = false })

-- Both port pointers of a finished ring are set.
unfoldable pub er_ring_destroy : Ring → List NetmapCall
unfolding er_deactivate_ring er_port_destroy
er_ring_destroy r =
    let r' = if r.active then (er_deactivate_ring r).1 else r in
    er_port_destroy r'.port0 ++ er_port_destroy r'.port1

-- `strcmp`: names of one length that agree.
abbrev pub same_name : List ℕ → List ℕ → Bool
same_name a b = (length a == length b) && is_eq (memcmp a b)

unfoldable pub er_lookup_ring_port : Ring → List ℕ → Option PortRef
er_lookup_ring_port r name =
    if same_name r.port0.name name
    then some ref0
    else if same_name r.port1.name name
    then some ref1
    else none

-- `er_global` behind the call, and the calls to netmap.
unfoldable pub er_destroy_all_rings : Option Ring → Option Ring × List NetmapCall
unfolding er_ring_destroy
er_destroy_all_rings none = (none, [])
er_destroy_all_rings (some r) = (none, er_ring_destroy r)

unfoldable pub er_lookup_ring : Option Ring → ℕ → Option Ring
er_lookup_ring er_global ring_id = er_global
