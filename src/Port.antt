-- ===== src/Port.antt =====
-- Ring ports: src/sys/dev/erps/er_port.h and the port tests and switches of er_port.c.
-- The netmap adapter and the interface behind a port belong to other code and are left out.
use erps.Common.{ℕ, Bool, true, false, List}

pub record Port : Type 0 where
  pub name : List ℕ  -- the characters in front of the terminating NUL
  pub idx : ℕ
  pub is_blocked : Bool
  pub is_failed : Bool

unfoldable pub er_port_is_failed : Port → Bool
er_port_is_failed port = port.is_failed

unfoldable pub er_port_is_blocked : Port → Bool
er_port_is_blocked port = port.is_blocked

unfoldable pub er_port_unblock : Port → Port
er_port_unblock port = record port { is_blocked = false }

unfoldable pub er_port_block : Port → Port
er_port_block port = record port { is_blocked = true }
