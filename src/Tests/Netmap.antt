-- ===== src/Tests/Netmap.antt =====
-- A netmap that takes every port, and the creation of a port with it.
use erps.Common.{true, false, some, List, [], ◌∷◌, ◌≡◌, ◌≢◌, ◌⊎◌, refl, take}
use erps.Port.{Port}
use erps.Ring.Lifecycle.{NetmapCall, attach, get_adapter, get_indices, er_port_create}
use erps.Netmap.Calls.{
  Netmap, kernel_of, vale_name, er_netmap_attach, er_netmap_get_adapter, er_netmap_get_indices,
}
use erps.Netmap.Named.{attaching, listing, er_port_create_named}
use erps.Tests.Creation.{name0}

abbrev netmap : Netmap
netmap = record {
  netmap_bdg_ctl = λ req. record { err = 0; nr_arg1 = 1; nr_arg2 = 2 };
  netmap_get_na = λ name. (0, true);
  nm_bdg_noport = 255;
}

abbrev attached : Port
attached = record { name = name0; idx = 2; is_blocked = false; is_failed = false }

abbrev calls : List NetmapCall
calls = attach name0 ∷ get_adapter name0 ∷ get_indices name0 ∷ []

port_run : er_port_create (kernel_of netmap 100 1) [] 1 name0 ≡ (some attached, calls)
unfolding er_port_create er_netmap_attach er_netmap_get_adapter er_netmap_get_indices vale_name
port_run = refl

er_port_create_named_example :
    (attached.name ≡ take 15 name0)
    × ((netmap.netmap_bdg_ctl (attaching 1 attached.name)).err ≡ 0)
    × (netmap.netmap_get_na (take 14 attached.name) ≡ (0, true))
    × (((netmap.netmap_bdg_ctl (listing 1 attached.name)).err ≡ 0)
          × (attached.idx ≡ (netmap.netmap_bdg_ctl (listing 1 attached.name)).nr_arg2)
        ⊎ ((netmap.netmap_bdg_ctl (listing 1 attached.name)).err ≢ 0)
          × (attached.idx ≡ netmap.nm_bdg_noport))
er_port_create_named_example = er_port_create_named netmap 100 [] 1 name0 {calls = calls} port_run
