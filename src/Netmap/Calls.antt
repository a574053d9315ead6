-- ===== src/Netmap/Calls.antt =====
-- The wrappers around the calls of netmap in src/sys/dev/erps/er_netmap.c, in the build without FBSD12.
-- Names are lists of ASCII codes.
use erps.Common.{
  ℕ, zero, suc, ◌+◌, ◌/◌, ◌%◌, Bool, true, false, not, Option, none, some, List, [], ◌∷◌, ◌++◌,
  ◌==◌, ltb, if◌then◌else◌, take,
}
use erps.Ring.Lifecycle.{Kernel}

-- NETMAP_BDG_ATTACH and its fellows.
pub data BdgCommand : Type 0 where
  bdg_attach bdg_detach bdg_list bdg_regops : BdgCommand

-- `struct nmreq`, whose other fields are zero or constant; `all_nic` is NR_REG_ALL_NIC.
pub record Nmreq : Type 0 where
  pub nr_cmd : BdgCommand
  pub all_nic : Bool
  pub nr_name : List ℕ

-- What `netmap_bdg_ctl` answers: its error, and `nr_arg1` and `nr_arg2` of the request.
pub record BdgAnswer : Type 0 where
  pub err : ℕ
  pub nr_arg1 : ℕ
  pub nr_arg2 : ℕ

-- netmap: `netmap_bdg_ctl`; the error of `netmap_get_na`, and whether it finds an adapter; its number
-- for no port.
pub record Netmap : Type 0 where
  pub netmap_bdg_ctl : Nmreq → BdgAnswer
  pub netmap_get_na : List ℕ → ℕ × Bool
  pub nm_bdg_noport : ℕ

-- `%d` of a number of 16 bits, which has five digits at most.
abbrev pub digits : ℕ → ℕ → List ℕ
digits zero n = []
digits (suc k) n =
    let front = digits k (n / 10) in
    if ltb n 10 then (48 + n) ∷ [] else front ++ ((48 + n % 10) ∷ [])

-- `snprintf` into 15 of the 16 characters of a name, the last of which is NUL.
abbrev pub printed : List ℕ → List ℕ
printed name = take 14 name

-- "valeR%d:".
unfoldable pub vale_name : ℕ → List ℕ
vale_name ring_id = printed ((118 ∷ 97 ∷ 108 ∷ 101 ∷ 82 ∷ []) ++ (digits 5 ring_id ++ 58 ∷ []))

unfoldable pub er_netmap_attach : Netmap → List ℕ → List ℕ → ℕ
er_netmap_attach nm vale port =
    (nm.netmap_bdg_ctl
      (record { nr_cmd = bdg_attach; all_nic = true; nr_name = printed (vale ++ port) })).err

unfoldable pub er_netmap_detach : Netmap → List ℕ → List ℕ → ℕ
er_netmap_detach nm vale port =
    (nm.netmap_bdg_ctl
      (record { nr_cmd = bdg_detach; all_nic = false; nr_name = printed (vale ++ port) })).err

-- The error, and on success the indices of the bridge and of the port.
unfoldable pub er_netmap_get_indices : Netmap → ℕ → List ℕ → ℕ × Option (ℕ × ℕ)
er_netmap_get_indices nm ring_id port_name =
    let a = nm.netmap_bdg_ctl (record {
      nr_cmd = bdg_list;
      all_nic = false;
      nr_name = printed ((118 ∷ 97 ∷ 108 ∷ 101 ∷ 82 ∷ []) ++ (digits 5 ring_id ++ 58 ∷ port_name));
    }) in
    if a.err == 0 then (0, some (a.nr_arg1, a.nr_arg2)) else (a.err, none)

-- What is made of the result of `netmap_get_na`; 22 is EINVAL.
abbrev pub adapted : ℕ × Bool → ℕ × Bool
adapted (err, has_na) =
    if not (err == 0) then (22, false) else if not has_na then (22, true) else (0, false)

-- The error, and whether the adapter is released again.
unfoldable pub er_netmap_get_adapter : Netmap → List ℕ → ℕ × Bool
er_netmap_get_adapter nm port_name = adapted (nm.netmap_get_na (printed port_name))

unfoldable pub er_netmap_regops : Netmap → List ℕ → ℕ
er_netmap_regops nm vale =
    (nm.netmap_bdg_ctl
      (record { nr_cmd = bdg_regops; all_nic = false; nr_name = printed vale })).err

abbrev pub port_index : ℕ × Option (ℕ × ℕ) → Option ℕ
port_index (err, none) = none
port_index (err, some (bridge_idx, port_idx)) = some port_idx

-- What the calls of one creation return, in memory that is never short.
abbrev pub kernel_of : Netmap → ℕ → ℕ → Kernel
kernel_of nm ticks ring_id = record {
  ticks = ticks;
  ring_allocated = true;
  port_allocated = λ before name. true;
  raps_allocated = true;
  frame_allocated = true;
  attaches = λ before name. er_netmap_attach nm (vale_name ring_id) name == 0;
  has_adapter = λ before name. (er_netmap_get_adapter nm name).0 == 0;
  port_index = λ before id name. port_index (er_netmap_get_indices nm id name);
  nm_bdg_noport = nm.nm_bdg_noport;
}
