-- ===== src/Control.antt =====
-- The control device: `er_ioctl` of src/sys/dev/erps/erps.c and the request of sys/net/erps.h.
pub mod Init
pub mod Module
use erps.Common.{
  ℕ, ◌+◌, ◌*◌, ◌%◌, ◌^◌, Bool, true, not, ◌&&◌, ◌||◌, Option, none, some, List, [], ltb, leb, ◌==◌,
  if◌then◌else◌, ◌>>=◌,
}
use erps.Raps.{NodeId}
use erps.Ring.{Ring}
use erps.Ring.Lifecycle.{Kernel, NetmapCall, er_ring_create, er_activate_ring, er_lookup_ring}

pub record Erreq : Type 0 where
  pub er_port0 : List ℕ
  pub er_port1 : List ℕ
  pub er_port0_failed : Bool
  pub er_port1_failed : Bool
  pub er_port0_blocked : Bool
  pub er_port1_blocked : Bool
  pub er_node_id : NodeId
  pub er_id : ℕ
  pub er_version : ℕ
  pub er_guard_time : ℕ
  pub er_wtr_time : ℕ
  pub er_raps_vid : ℕ
  pub er_revertive : ℕ
  pub er_rpl_port : ℕ
  pub er_rpl_owner : ℕ
  pub er_rpl_neighbour : ℕ
  pub er_cmd : ℕ

pub data Command : Type 0 where
  eriocinit eriocaddif eriocdelif eriocstatus erioccommand unknown : Command

pub data Errno : Type 0 where
  success einval enxio : Errno

-- What an ioctl leaves behind: its result, `er_global`, the request and the calls to netmap.
pub record Answer : Type 0 where
  pub err : Errno
  pub er_global : Option Ring
  pub req : Option Erreq
  pub calls : List NetmapCall

-- `!!x` of a C number.
abbrev pub truth : ℕ → Bool
truth x = not (x == 0)

-- The RPL configuration is refused.
unfoldable pub bad_rpl : Erreq → Bool
bad_rpl req =
    if truth req.er_rpl_owner && truth req.er_rpl_neighbour
    then true
    else if not (truth req.er_rpl_owner) && not (truth req.er_rpl_neighbour)
    then truth req.er_rpl_port
    else req.er_rpl_port == 0

unfoldable pub valid_vid : ℕ → ℕ
valid_vid v = if leb v 0 || leb 4094 v then 2000 else v

unfoldable pub valid_guard_time : ℕ → ℕ
valid_guard_time t = if ltb t 10 || ltb 2000 t then 500 else t

unfoldable pub valid_wtr_time : ℕ → ℕ
valid_wtr_time t = if ltb t (1 * 60000) || ltb (12 * 60000) t then 5 * 60000 else t

-- The configuration of a new ring by the request.
unfoldable pub configure : Erreq → Ring → Ring
unfolding valid_vid valid_guard_time valid_wtr_time
configure req r =
    let guard = valid_guard_time req.er_guard_time in
    record r {
      version = if r.version == 0 then 2 else r.version;
      raps_vid = valid_vid req.er_raps_vid;
      guard_time = guard;
      wtr_time = valid_wtr_time req.er_wtr_time;
      wtb_time = (guard + 5000) % 2 ^ 32;
      is_revertive = truth req.er_revertive;
    }

-- `er_ring_create` with the checked RPL configuration; `rpl_owner_port` and `rpl_neighbour_port`
-- are bytes.
unfoldable pub create_for : Kernel → Erreq → Option (Option Ring × List NetmapCall)
create_for k req =
    let owner = if truth req.er_rpl_owner then req.er_rpl_port % 256 else 0 in
    let neighbour = if truth req.er_rpl_neighbour then req.er_rpl_port % 256 else 0 in
    er_ring_create k req.er_id req.er_port0 req.er_port1 owner neighbour req.er_node_id

-- The part of ERIOCINIT behind `er_ring_create`.
unfoldable pub install : Erreq → Option Ring × List NetmapCall → Answer
unfolding configure er_activate_ring
install req (none, calls) = record { err = einval; er_global = none; req = some req; calls = calls }
install req (some r, calls) =
    let (activated, r') = er_activate_ring (configure req r) in
    record {
      err = if activated then success else einval;
      er_global = some r';
      req = some req;
      calls = calls;
    }

unfoldable pub refuse : Erreq → Option Ring → Answer
refuse req er_global = record { err = einval; er_global = er_global; req = some req; calls = [] }

unfoldable pub ioctl_init : Kernel → Erreq → Option Ring → Option Answer
unfolding refuse install create_for
ioctl_init k req (some r) = some (refuse req (some r))
ioctl_init k req none =
    if bad_rpl req
    then some (refuse req none)
    else (do created ← create_for k req; some (install req created))

unfoldable pub ioctl_status : Erreq → Option Ring → Answer
unfolding er_lookup_ring
ioctl_status req er_global = elim (er_lookup_ring er_global req.er_id) [
  | none ↦ record { err = einval; er_global = er_global; req = some req; calls = [] }
  | some r ↦ record {
    err = success;
    er_global = er_global;
    req = some (record req {
      er_port0 = r.port0.name;
      er_port1 = r.port1.name;
      er_port0_failed = r.port0.is_failed;
      er_port1_failed = r.port1.is_failed;
      er_port0_blocked = r.port0.is_blocked;
      er_port1_blocked = r.port1.is_blocked;
      er_rpl_owner = if r.is_rpl_owner then 1 else 0;
      er_rpl_neighbour = if r.is_rpl_neighbour then 1 else 0;
    });
    calls = [];
  }
]

-- `none` is the request pointer null; commands are not implemented.
unfoldable pub er_ioctl : Kernel → Command → Option Erreq → Option Ring → Option Answer
unfolding ioctl_init ioctl_status er_lookup_ring
er_ioctl k cmd none er_global =
    some (record { err = einval; er_global = er_global; req = none; calls = [] })
er_ioctl k eriocinit (some req) er_global = ioctl_init k req (er_lookup_ring er_global req.er_id)
er_ioctl k eriocdelif (some req) er_global =
    some (record { err = success; er_global = er_global; req = some req; calls = [] })
er_ioctl k eriocstatus (some req) er_global = some (ioctl_status req er_global)
er_ioctl k erioccommand (some req) er_global =
    some (record { err = einval; er_global = er_global; req = some req; calls = [] })
er_ioctl k _ (some req) er_global =
    some (record { err = enxio; er_global = er_global; req = some req; calls = [] })
