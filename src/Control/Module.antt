-- ===== src/Control/Module.antt =====
-- Loading and unloading the kernel module: the last part of src/sys/dev/erps/erps.c.
use erps.Common.{ℕ, Bool, true, false, Option, none, List, [], ◌==◌}
use erps.Ring.{Ring}
use erps.Ring.Lifecycle.{NetmapCall, er_destroy_all_rings}

-- MOD_LOAD, MOD_UNLOAD, and the other events of a module.
pub data ModuleEvent : Type 0 where
  mod_load mod_unload other : ModuleEvent

-- What the handler leaves behind: its error number, `er_global`, the calls to netmap, and what it did
-- to the device.
pub record Handled : Type 0 where
  pub err : ℕ
  pub er_global : Option Ring
  pub calls : List NetmapCall
  pub makes_device : Bool
  pub destroys_device : Bool

-- `err` is what `make_dev_p` returns.
unfoldable pub er_module_init : ℕ → Handled
er_module_init err = record {
  err = err;
  er_global = none;
  calls = [];
  makes_device = err == 0;
  destroys_device = false;
}

unfoldable pub er_module_fini : Option Ring → Handled
unfolding er_destroy_all_rings
er_module_fini g =
    let (g', calls) = er_destroy_all_rings g in
    record { err = 0; er_global = g'; calls = calls; makes_device = false; destroys_device = true }

-- EOPNOTSUPP of FreeBSD.
abbrev pub eopnotsupp : ℕ
eopnotsupp = 45

unfoldable pub er_module_handler : ℕ → ModuleEvent → Option Ring → Handled
unfolding er_module_init er_module_fini
er_module_handler make_dev_err mod_load g = er_module_init make_dev_err
er_module_handler make_dev_err mod_unload g = er_module_fini g
er_module_handler make_dev_err other g = record {
  err = eopnotsupp;
  er_global = g;
  calls = [];
  makes_device = false;
  destroys_device = false;
}
