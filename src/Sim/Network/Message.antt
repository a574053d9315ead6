-- ===== src/Sim/Network/Message.antt =====
-- A message at a daemon, from the bytes on the link on.
use mathlib.Core.Path.{subst}
use mathlib.Core.List.{append-nil}
use erps.Common.{ℕ, List, take, ◌∷◌, true, false, memcmp_refl, some, [], ◌≡◌, refl, is_eq, memcmp}
use erps.Raps.{Raps, NodeId, bytes, er_raps_parse}
use erps.Raps.Frame.{frame_of}
use erps.Raps.Roundtrip.{IsMessage, received, parse_frame}
use erps.Ring.{Request, PortRef, ref0, ref1, port_of, Ring}
use erps.Ring.Receive.{request_of}
use erps.Sim.Outcome.{done}
use erps.Sim.Fsm.{ring_process_request}
use erps.Sim.Node.{ring_process_raps, holds_back, dispatch, ri_raps_parse}
use erps.Sim.Daemon.{Daemon, relay, port_cb, is_erps_frame, is_local_erps_frame}
use erps.Sim.Network.{opposite, Hop}
use erps.Sim.Network.Line.{Passes}

-- The addresses of two nodes compare as different.
abbrev pub Differ : NodeId → NodeId → Type 0
Differ source node_id = is_eq (memcmp (bytes source) (bytes node_id)) ≡ false

parse_exact : (m : Raps) → IsMessage m → er_raps_parse (frame_of m) 55 ≡ some (some (received m))
parse_exact m h =
    subst (λ buf. er_raps_parse buf 55 ≡ some (some (received m))) (append-nil (frame_of m))
      (parse_frame m [] 55 h refl)

-- The ring in front of the request: the guard timer has been seen to be over.
abbrev pub unguarded : Ring → Ring
unguarded r = record r { guard_timer_active = false }

-- A message of another node reaches the state machine as the request it stands for, and goes on.
pub port_cb_message :
    (now : ℕ) (p : PortRef) (m : Raps) (d : Daemon) (request : Request) {r' : Ring}
    → IsMessage m
    → Differ m.node_id d.ring.node_id
    → holds_back now d.ring ≡ false
    → request_of (received m) ≡ some request
    → ring_process_request now request (some p) (some m.node_id) (unguarded d.ring) ≡ done r'
    → port_cb now true p (some (frame_of m, 55)) d
      ≡ done (record d { ring = r' }, relay p (frame_of m) 55 r')
unfolding port_cb is_erps_frame is_local_erps_frame ring_process_raps ri_raps_parse dispatch
port_cb_message now p m d request {r'} h other free stands run =
    let reached : dispatch now (some (received m)) p (unguarded d.ring) ≡ done r' =
      rw (stands, dispatch) run in
    rw (other, free, parse_exact m h, reached) refl

-- From an open port the message goes on.
relay_open :
    (p : PortRef) (buf : List ℕ) (len : ℕ) (r : Ring)
    → (port_of r p).is_blocked ≡ false
    → relay p buf len r ≡ (opposite p, take len buf) ∷ []
unfolding relay
relay_open ref0 buf len r e = rw e refl
relay_open ref1 buf len r e = rw e refl

-- So the node passes it on, if the port that it came in on is open behind the request.
pub port_cb-Passes :
    (now : ℕ) (m : Raps) (hop : Hop) (request : Request) {r' : Ring}
    → IsMessage m
    → Differ m.node_id hop.daemon.ring.node_id
    → holds_back now hop.daemon.ring ≡ false
    → request_of (received m) ≡ some request
    → ring_process_request now request (some hop.entry) (some m.node_id) (unguarded hop.daemon.ring)
      ≡ done r'
    → (port_of r' hop.entry).is_blocked ≡ false
    → Passes now (frame_of m) hop (record hop.daemon { ring = r' })
port_cb-Passes now m hop request {r'} h other free stands run unblocked =
    subst
      (λ sent.
        port_cb now true hop.entry (some (frame_of m, 55)) hop.daemon
        ≡ done (record hop.daemon { ring = r' }, sent))
      (relay_open hop.entry (frame_of m) 55 r' unblocked)
      (port_cb_message now hop.entry m hop.daemon request h other free stands run)

-- A message of the node itself ends here.
pub port_cb_own :
    (now : ℕ) (p : PortRef) (m : Raps) (d : Daemon)
    → m.node_id ≡ d.ring.node_id
    → port_cb now true p (some (frame_of m, 55)) d ≡ done (d, [])
unfolding port_cb is_erps_frame is_local_erps_frame
port_cb_own now p m d own =
    let same : is_eq (memcmp (bytes m.node_id) (bytes d.ring.node_id)) ≡ true =
      subst (λ n. is_eq (memcmp (bytes m.node_id) (bytes n)) ≡ true) own
        (memcmp_refl (bytes m.node_id)) in
    rw same refl
