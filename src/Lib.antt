-- ===== src/Lib.antt =====
-- ERPS: the Ethernet ring protection (ITU-T G.8032) of the kernel module under src/sys/dev/erps, its
-- control program src/usr.sbin/erps-ctl, and the simulator under extras/sim, a daemon in user space
-- with a copy of the protocol. A node has two ring ports. Its state machine blocks one of them when
-- the ring is whole and opens it when a link fails; nodes tell one another in R-APS frames.
--
-- The kernel module and its files:
-- - Common: tests on the native numbers, lists of bytes, bit masks, 32-bit integers of C, and
--   chains of operations that may fault.
-- - Raps: er_raps.c and er_raps.h, the frames. A buffer is the list of its bytes; `none` is a read
--   outside of it.
-- - Port: er_port.h and the tests and switches of er_port.c.
-- - Ring: er_ring.h and the actions of er_ring.c. Ring.Rows and its children are the rows of the
--   `switch` in `ring_fsm`, one file for each state; Ring.Fsm is `ring_fsm` itself, Ring.Priority
--   `ring_process_request`, Ring.Receive `process_raps_frame` and `er_forward_lookup`,
--   Ring.Lifecycle `er_port_create`, `er_ring_create` and their counterparts. The other children of
--   Ring hold proofs.
-- - Netmap: `er_netmap_on_recv` of er_netmap.c; Netmap.Calls: the requests that er_netmap.c makes of
--   netmap, with netmap as a parameter.
-- - Control: `er_ioctl` of erps.c and the request of src/sys/net/erps.h. Control.Module is the
--   handler of module events of erps.c.
-- - Node: frames, ioctls and module events as the steps of one node, whose state is `er_global`;
--   Node.Refines has the abstract machine on the states of the protocol.
-- - Ctl: erps-ctl.c, from its arguments to the ioctls and the exit code.
--
-- The simulator and its files:
-- - Sim.Rows: the rows of `ring_fsm` in extras/sim/ring.c, with `new_state` as a variable of its own;
--   Sim.Actions: the actions up to `stop_tx`; Sim.Fsm: `ring_fsm` and `ring_process_request`. The
--   tables of repeated requests and of the filter are those of er_ring.c word for word, and their
--   definitions serve for both.
-- - Sim.Node: creation, timers, transmission and reception of ring.c, with ring_raps.c and tick.c.
-- - Sim.Daemon: the callbacks of ringd.c and the commands of ring_io.c; Sim.Setup: `main` of ringd.c
--   up to the event loop, and `ring_port_create`; Sim.Client: ring-ctl.c.
-- - Sim.Trace: the events of a daemon as steps. Sim.Io: the worker thread of ring_io.c, which takes the
--   commands of clients; Sim.Io.Works has the thread beside the callbacks. Sim.Network: daemons on a
--   line of links, each with the frames that the one in front of it has sent; its children follow the
--   messages SF, NR and NR, RB through the nodes, and Sim.Network.Healing puts the three together;
--   Sim.Network.Resending has the frames that go out again behind lost ones. The other children of
--   Sim hold proofs; Sim.Agrees and Sim.Same compare the rows of both programs.
--
-- Bridge: extras/benchmarks/bridge.c, a bridge in user space to compare with, in both of its builds.
--
-- - Tests and its children: concrete nodes, daemons and runs, and the theorems at these.
--
-- A frame comes from the bridge to `er_netmap_on_recv`, which finds the ring port and asks
-- `er_forward_lookup` whether the frame passes; this hands a message of another node to
-- `process_raps_frame`, `ring_process_request` and `ring_fsm`, which return the changed ring. The
-- ioctls create the ring that `er_global` points to; erps-ctl sends the ioctls. In the simulator
-- `port_cb` takes the place of the bridge, `rio_client` that of the ioctls, and the callbacks of two
-- timers end the WTR timer and send the frame of the node.
--
-- A function that changes `struct er_ring` or `struct ring` returns the new record `Ring`; `none` is a
-- null pointer that is followed or a read outside a buffer. The simulator has the results `done`,
-- `died` (a call of `die`, which ends the process) and `crashed` (a null pointer or a read outside a
-- buffer). A pointer to a ring port is a `PortRef`, with an `Option` around it where it may be null.
-- The rows of the kernel module write `new_state` at once: no row reads `r->state` behind that. `ticks`
-- and `hz`, the results of netmap and of the allocator are parameters, in `Clock`, `Netmap` and
-- `Kernel`; so are the results of the system in `System`, and `getopt` and `sscanf`. The simulator reads its clock
-- once in each callback. Memory that C leaves uninitialised is a parameter too: the frame of a new
-- ring, the padding of a command, and the bytes of it that are not received. Sizes: `int` has 32 bits
-- and wraps around (the kernel is built with -fwrapv), `tick_t` has 64, a byte is written with `% 256`,
-- the machine is little-endian. No definition needs fuel: the loops over options and over events are
-- recursion on lists.
--
-- Not modelled: logging and usage texts, the mutex and the callout of a ring, the build for FreeBSD
-- 12, the wrappers around pcap, the event loop of libev and the patches. The callbacks of the daemon and
-- the rounds of its worker thread are taken one after another, although the thread takes no lock. The
-- descriptors of the thread are below FD_SETSIZE, and one call of select does not change the timeout of
-- the next. In Sim.Network a link delivers each frame, and a node is given the frames of one neighbour
-- at a time: all frames go round in one direction first. A write of the encoder outside the buffer would be dropped; the buffer of a ring has the 55 bytes
-- that it writes.
pub mod Common
pub mod Raps
pub mod Port
pub mod Ring
pub mod Netmap
pub mod Control
pub mod Node
pub mod Ctl
pub mod Sim
pub mod Bridge
mod Tests
