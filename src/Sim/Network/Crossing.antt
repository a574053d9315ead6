-- ===== src/Sim/Network/Crossing.antt =====
-- The other copy of the message NR, RB of the owner, which crosses the RPL.
use mathlib.Core.Path.{subst}
use erps.Common.{
  ℕ, true, false, some, List, [], ◌∷◌, length, ◌≡◌, ◌⊎◌, inl, inr, refl, ◌∙◌, ap, sym,
  if◌then◌else◌, is_eq, memcmp, memcmp_refl, Bool-cases,
}
use erps.Raps.{Raps, NodeId, bytes}
use erps.Raps
use erps.Raps.Frame.{frame_of}
use erps.Raps.Roundtrip.{IsMessage}
use erps.Ring.{raps_nr_rb, PortRef, ref0, ref1, Ring, port_of}
use erps.Ring.Fsm.{group, dupe, is_dupe}
use erps.Ring.Priority.{retain}
use erps.Ring.Admission.{ring_process_request-Admitted}
use erps.Ring.Total.{skip_row}
use erps.Ring.Running.{IsSettled-relabel}
use erps.Sim.Outcome.{done, lift}
use erps.Sim.Fsm.{ring_process_request}
use erps.Sim.Equal.{same_process_request}
use erps.Sim.Alive.{IsRunning-unguarded}
use erps.Sim.Node.{holds_back}
use erps.Sim.Daemon.{Daemon, relay, port_cb}
use erps.Sim.Network.{opposite, sent_on, receive_all, Hop, along}
use erps.Sim.Network.Line.{Every, Passes, Role, role_of, roles, receive_one, sent_on_lem}
use erps.Sim.Network.Message.{unguarded, port_cb_message, port_cb-Passes}
use erps.Sim.Network.Resting.{HasRested, nr_rb_Admitted, nr_rb_stands}

-- What is left of the frame behind the line: a neighbour of the RPL does not pass it on.
abbrev pub left : List ℕ → List Role → List (List ℕ)
left frame [] = frame ∷ []
left frame (role ∷ line) = if role.is_rpl_neighbour then [] else left frame line

-- The node has rested, behind a message from its other side.
abbrev pub IsAtRest : NodeId → Hop → Type 0
IsAtRest source hop = HasRested source (opposite hop.entry) hop.daemon.ring

-- The same request once more, on any port.
rested_again :
    (now : ℕ) (p from : PortRef) (source : NodeId) (r : Ring)
    → HasRested source from r
    → (r' : Ring) × (ring_process_request now raps_nr_rb (some p) (some source) (unguarded r)
        ≡ done r')
      × (role_of p r' ≡ role_of p r)
      × HasRested source from r'
rested_again now p from source r h =
    let r0 : Ring = unguarded r in
    let asked : Ring = record r0 { local_request = retain raps_nr_rb } in
    let again : is_eq (memcmp (bytes source) (bytes r.prev_request_remote_node_id)) ≡ true =
      subst (λ n. is_eq (memcmp (bytes source) (bytes n)) ≡ true) (sym h.remote)
        (memcmp_refl (bytes source)) in
    let known : is_dupe raps_nr_rb (some p) (some source) asked ≡ some true =
      unfold dupe group in rw (h.request, again) refl in
    let h0 = IsRunning-unguarded r h.running in
    elim (ring_process_request-Admitted now raps_nr_rb (some p) (some source) r0) [
      | inl (refused, _) ↦ absurd (refused (nr_rb_Admitted r0 h.unasked))
      | inr (_, granted) ↦ (
        asked,
        same_process_request now raps_nr_rb (some p) (some source) r0 (unfold group in refl)
            ∙ ap lift (granted ∙ skip_row now raps_nr_rb (some p) (some source) asked known),
        refl,
        record {
          running = record {
            settled =
                IsSettled-relabel r0 (retain raps_nr_rb) (unfold retain in inl refl) h0.settled;
            timed = h0.timed;
          };
          in_idle = h.in_idle;
          silent = h.silent;
          unguarded = refl;
          request = h.request;
          remote = h.remote;
          unasked = unfold retain in refl;
          other = h.other;
          ports = h.ports;
        },
      )
    ]

-- A blocked port passes nothing on.
relay_blocked :
    (p : PortRef) (buf : List ℕ) (len : ℕ) (r : Ring)
    → (port_of r p).is_blocked ≡ true
    → relay p buf len r ≡ []
unfolding relay
relay_blocked ref0 buf len r e = rw e refl
relay_blocked ref1 buf len r e = rw e refl

-- The port that the copy comes in on is blocked exactly at the neighbour.
entry_blocked :
    (source : NodeId) (p : PortRef) (r : Ring)
    → HasRested source (opposite p) r
    → (port_of r p).is_blocked ≡ r.is_rpl_neighbour
entry_blocked source ref0 r h = elim h.ports [
  | inl (n, a, b) ↦ a ∙ sym n
  | inr (n, _, (a, b)) ↦ a ∙ sym n
]
entry_blocked source ref1 r h = elim h.ports [
  | inl (n, a, b) ↦ b ∙ sym n
  | inr (n, _, (a, b)) ↦ a ∙ sym n
]

-- What such a node makes of the copy.
abbrev Meets : ℕ → List ℕ → NodeId → Hop → Type 0
Meets now frame source hop =
    (d : Daemon) × (role_of hop.entry d.ring ≡ role_of hop.entry hop.daemon.ring)
    × IsAtRest source (record hop { daemon = d })
    × ((hop.daemon.ring.is_rpl_neighbour ≡ true)
          × (port_cb now true hop.entry (some (frame, length frame)) hop.daemon ≡ done (d, []))
        ⊎ (hop.daemon.ring.is_rpl_neighbour ≡ false) × Passes now frame hop d)

meets :
    (now : ℕ) (m : Raps)
    → IsMessage m
    → m.request ≡ Raps.nr
    → (m.flags ≡ 0x80) ⊎ (m.flags ≡ 0xc0)
    → (hop : Hop) → IsAtRest m.node_id hop
    → Meets now (frame_of m) m.node_id hop
meets now m message says flags hop h =
    let (r', run, role, h') =
      rested_again now hop.entry (opposite hop.entry) m.node_id hop.daemon.ring h in
    let stands = nr_rb_stands m says flags in
    let listens : holds_back now hop.daemon.ring ≡ false = rw h.unguarded refl in
    let same : r'.is_rpl_neighbour ≡ hop.daemon.ring.is_rpl_neighbour =
      ap (λ x. x.is_rpl_neighbour) role in
    let blocked : (port_of r' hop.entry).is_blocked ≡ hop.daemon.ring.is_rpl_neighbour =
      entry_blocked m.node_id hop.entry r' h' ∙ same in
    (
      record hop.daemon { ring = r' },
      role,
      h',
      elim (Bool-cases hop.daemon.ring.is_rpl_neighbour) [
        | inl e ↦ inl (
          e,
          subst
              (λ sent.
                port_cb now true hop.entry (some (frame_of m, 55)) hop.daemon
                ≡ done (record hop.daemon { ring = r' }, sent))
              (relay_blocked hop.entry (frame_of m) 55 r' (blocked ∙ e))
              (port_cb_message now hop.entry m hop.daemon raps_nr_rb message h.other listens stands
                run),
        )
        | inr e ↦ inr (
          e,
          port_cb-Passes now m hop raps_nr_rb message h.other listens stands run (blocked ∙ e),
        )
      ],
    )

-- With no frame nothing happens.
quiet : (now : ℕ) (hops : List Hop) → along now [] hops ≡ done (hops, [])
unfolding along receive_all sent_on
quiet now [] = refl
quiet now (hop ∷ hops) = rw (quiet now hops) refl

receive_last :
    (now : ℕ) (frame : List ℕ) (hop : Hop) (d : Daemon)
    → port_cb now true hop.entry (some (frame, length frame)) hop.daemon ≡ done (d, [])
    → receive_all now hop.entry (frame ∷ []) hop.daemon ≡ done (d, [])
unfolding receive_all
receive_last now frame hop d e = rw e refl

-- The copy on a line of nodes at rest.
pub along-left :
    (now : ℕ) (frame : List ℕ) (source : NodeId)
    → ((hop : Hop) → IsAtRest source hop → Meets now frame source hop)
    → (hops : List Hop) → Every (IsAtRest source) hops
    → (hops' : List Hop) × (along now (frame ∷ []) hops ≡ done (hops', left frame (roles hops)))
      × (roles hops' ≡ roles hops)
      × Every (IsAtRest source) hops'
unfolding along sent_on
along-left now frame source each [] h = ([], refl, refl, tt)
along-left now frame source each (hop ∷ hops) (h, hs) =
    let (d, role, h', met) = each hop h in
    elim met [
      | inl (e, run) ↦ (
        record hop { daemon = d } ∷ hops,
        rw (receive_last now frame hop d run, quiet now hops, e) refl,
        λ i. role i ∷ roles hops,
        (h', hs),
      )
      | inr (e, run) ↦
          let (hops', es, kept, qs) = along-left now frame source each hops hs in
          (
            record hop { daemon = d } ∷ hops',
            rw (receive_one now frame hop d run, sent_on_lem (opposite hop.entry) frame, es, e)
                refl,
            λ i. role i ∷ kept i,
            (h', qs),
          )
    ]

-- A message NR, RB behind the first copy of it.
pub crosses :
    (now : ℕ) (m : Raps)
    → IsMessage m
    → m.request ≡ Raps.nr
    → (m.flags ≡ 0x80) ⊎ (m.flags ≡ 0xc0)
    → (hops : List Hop) → Every (IsAtRest m.node_id) hops
    → (hops' : List Hop) × (along now (frame_of m ∷ []) hops
        ≡ done (hops', left (frame_of m) (roles hops)))
      × (roles hops' ≡ roles hops)
      × Every (IsAtRest m.node_id) hops'
crosses now m message says flags hops h =
    along-left now (frame_of m) m.node_id (meets now m message says flags) hops h
