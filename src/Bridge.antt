-- ===== src/Bridge.antt =====
-- extras/benchmarks/bridge.c: a bridge between two interfaces in user space, with which the kernel module is
-- compared. What pcap and `select` return are parameters. It is built with a loop on `select`
-- or with the event loop of libev.
pub mod Order
use erps.Common.{
  ℕ, Bool, true, false, Option, none, some, List, [], ◌∷◌, ◌++◌, length, take, ltb, ◌==◌,
  if◌then◌else◌,
}

-- `struct iface`, whose device `pcap` keeps.
pub record Iface : Type 0 where
  pub name : List ℕ
  pub fd : ℕ

-- `fd` is what `pcap_get_selectable_fd` returns.
unfoldable pub iface_open : List ℕ → ℕ → Iface
iface_open dev fd = record { name = dev; fd = fd }

-- The captured bytes, if `pcap_next_ex` returned some, and their number, which is 0 otherwise.
unfoldable pub iface_recv : Option (List ℕ) → ℕ × List ℕ
iface_recv none = (0, [])
iface_recv (some captured) = (length captured, captured)

pub data Side : Type 0 where
  port1 port2 : Side

-- The calls of `pcap_inject`, in their order: the interface and the bytes.
abbrev pub Sent : Type 0
Sent = List (Side × List ℕ)

unfoldable pub iface_send : Side → List ℕ → ℕ → Sent
iface_send iface buf len = (iface, take len buf) ∷ []

-- `len = iface_recv(a, &data); if (len > 0) iface_send(b, data, len);`, which is the body of `port_cb` too.
unfoldable pub pass : Side → Option (List ℕ) → Sent
unfolding iface_recv iface_send
pass send_port captured =
    let (len, buf) = iface_recv captured in if ltb 0 len then iface_send send_port buf len else []

-- What `select` returns, and what is captured at either interface if it is read.
pub data Selected : Type 0 where
  failed timeout : Selected
  ready : (ℕ → Bool) → Selected

pub record Round : Type 0 where
  pub selected : Selected
  pub captured1 : Option (List ℕ)
  pub captured2 : Option (List ℕ)

-- One round of the loop behind `select`; the result says whether the process goes on.
unfoldable pub take_up : Selected → Iface → Iface → Round → Bool × Sent
unfolding pass
take_up failed p1 p2 t = (false, [])
take_up timeout p1 p2 t = (true, [])
take_up (ready fds) p1 p2 t = (
  true,
  (if fds p1.fd then pass port2 t.captured1 else [])
      ++ (if fds p2.fd then pass port1 t.captured2 else []),
)

unfoldable pub select_loop : Iface → Iface → List Round → Bool × Sent
unfolding take_up
select_loop p1 p2 [] = (true, [])
select_loop p1 p2 (t ∷ ts) =
    let (on, sent) = take_up t.selected p1 p2 t in
    let rest = select_loop p1 p2 ts in if on then (rest.0, sent ++ rest.1) else (false, sent)

-- A callback of libev: the interface that can be read, and what is captured there.
pub record Callback : Type 0 where
  pub recv_port : Side
  pub captured : Option (List ℕ)

-- The other interface, as the watchers are set up.
abbrev pub send_port_of : Side → Side
send_port_of port1 = port2
send_port_of port2 = port1

unfoldable pub port_cb : Callback → Sent
unfolding pass
port_cb c = pass (send_port_of c.recv_port) c.captured

unfoldable pub ev_loop : List Callback → Sent
unfolding port_cb
ev_loop [] = []
ev_loop (c ∷ cs) = port_cb c ++ ev_loop cs

-- `main`, which opens both interfaces: 1 for a wrong number of arguments, 2 when `select` has failed; otherwise it
-- does not end, and has sent what it has sent.
pub data Result : Type 0 where
  usage : Result
  exited : Sent → Result
  running : Sent → Result

unfoldable pub main : List (List ℕ) → ℕ → ℕ → List Round → Result
unfolding iface_open select_loop
main (name ∷ dev1 ∷ dev2 ∷ []) fd1 fd2 ts =
    let (on, sent) = select_loop (iface_open dev1 fd1) (iface_open dev2 fd2) ts in
    if on then running sent else exited sent
main _ fd1 fd2 ts = usage
