-- ===== src/Sim/Network/Restoration.antt =====
-- The end of a failure on a ring of daemons of extras/sim: the owner of the RPL restores it.
use mathlib.Core.Path.{subst}
use erps.Common.{
  true, sym, ap, ◌⊎◌, ℕ, ◌+◌, ◌≤◌, ◌<◌, ◌^◌, List, [], ◌∷◌, ◌≡◌, ◌≢◌, inl, inr, ◌∙◌, arith, some,
}
use erps.Raps.{NodeId, nr, code_injective}
use erps.Raps.Frame.{frame_of}
use erps.Raps.Roundtrip.{IsMessage}
use erps.Ring.{PortRef, Ring}
use erps.Sim.Outcome.{done}
use erps.Sim.Node.{ring_send_raps}
use erps.Sim.Daemon.{Daemon, port_cb}
use erps.Sim.Reversion.{IsWaiting, IsRestored, run_seconds, every_second, wtr_restores}
use erps.Sim.Network.{opposite, sent_on, Hop, along}
use erps.Sim.Network.Line.{Every, along-Every, Every-turned, turned, roles, flipped, roles-turned}
use erps.Sim.Network.Message.{port_cb_own}
use erps.Sim.Network.Failing.{HasIdentity, HasIdentity-IsConfigured, ring_send_raps_lem, sends_both}
use erps.Sim.Network.Crossing.{left, IsAtRest, crosses}
use erps.Sim.Network.Failure.{one_each}
use erps.Sim.Network.Resting.{IsPatient, HasRested, rests}

restored-IsMessage : (p : PortRef) (r : Ring) → IsRestored p r → HasIdentity r → IsMessage r.raps
restored-IsMessage p r h i = record {
  ring_id_fits = i.ring_id_fits;
  flags_fit = elim h.flags [ inl e ↦ omega arith | inr e ↦ omega arith ];
  subcode_fits = i.subcode_fits;
  sent = let e = h.says in λ f. ground (arith, e, f);
}

restored_flags : (p : PortRef) (r : Ring) → IsRestored p r → r.raps.flags ≢ 0xff
restored_flags p r h =
    λ e. elim h.flags [ inl f ↦ ground (arith, e, f) | inr f ↦ ground (arith, e, f) ]

-- What the nodes are behind the end of the WTR timer: `r'` is the ring of the owner, and the others, `hops'`, have had
-- the copy of its message that went out on port `q`, and, as `hops2`, the one from its other port, too.
pub record IsReverted (later : ℕ) (q : PortRef) (src : Daemon) (hops : List Hop) (r' : Ring)
    : Type 0 where
  pub hops' : List Hop
  pub hops2 : List Hop
  pub there : along later (sent_on q (ring_send_raps r')) hops ≡ done (hops', frame_of r'.raps ∷ [])
  pub first : Every (λ hop. HasRested src.ring.node_id hop.entry hop.daemon.ring) hops'
  pub back :
      along later (sent_on (opposite q) (ring_send_raps r')) (turned hops')
      ≡ done (hops2, left (frame_of r'.raps) (flipped (roles hops)))
  pub kept : roles hops2 ≡ flipped (roles hops)
  pub rested : Every (IsAtRest src.ring.node_id) hops2
  pub ends :
      (p : PortRef)
      → port_cb later true p (some (frame_of r'.raps, 55)) (record src { ring = r' })
        ≡ done (record src { ring = r' }, [])

-- The message NR, RB of a ring, at patient nodes.
reverts :
    (later : ℕ) (q : PortRef) (src : Daemon) (hops : List Hop) (r' : Ring)
    → IsMessage r'.raps
    → r'.raps.request ≡ nr
    → (r'.raps.flags ≡ 0x80) ⊎ (r'.raps.flags ≡ 0xc0)
    → ring_send_raps r' ≡ sends_both r'.raps
    → r'.raps.node_id ≡ r'.node_id
    → r'.raps.node_id ≡ src.ring.node_id
    → Every (λ hop. IsPatient later src.ring.node_id hop.entry hop.daemon.ring) hops
    → IsReverted later q src hops r'
reverts later q src hops r' message says flags sends own source patient =
    let P : NodeId → Hop → Type 0 = λ n hop. IsPatient later n hop.entry hop.daemon.ring in
    let Q : NodeId → Hop → Type 0 = λ n hop. HasRested n hop.entry hop.daemon.ring in
    let (hops1, there, roles1, rested) =
      along-Every later (frame_of r'.raps) _ (Q r'.raps.node_id)
        (rests later r'.raps message says flags) hops
        (subst (λ n. Every (P n) hops) (sym source) patient) in
    let (hops2, back, roles2, again) =
      crosses later r'.raps message says flags (turned hops1)
        (Every-turned (λ p d. HasRested r'.raps.node_id p d.ring) hops1 rested) in
    let same : roles (turned hops1) ≡ flipped (roles hops) =
      roles-turned hops1 ∙ ap flipped roles1 in
    record {
      hops' = hops1;
      hops2 = hops2;
      there = rw (one_each q r' sends) there;
      first = subst (λ n. Every (Q n) hops1) source rested;
      back =
          rw (one_each (opposite q) r' sends)
            (back ∙ ap (λ line. done (hops2, left (frame_of r'.raps) line)) same);
      kept = roles2 ∙ same;
      rested = subst (λ n. Every (IsAtRest n) hops2) source again;
      ends = λ p. port_cb_own later p r'.raps (record src { ring = r' }) own;
    }

-- The owner of the RPL, with no local request, whose messages have its own address and fields that fit, waits in
-- PENDING for its WTR timer, and the other nodes in PENDING for its message: running, not owners, of another address,
-- with no local request and no guard timer that holds the message back, not behind another NR, RB, and, if
-- one is the neighbour of the RPL, reached by the copy from port `q` over its other port. If no other event comes
-- between, sixteen calls of the timer callback a second apart, from any time behind the start of the timer that is far
-- from the end of the clock, lead the owner to IDLE with the RPL blocked. Its frame goes out on both
-- ports. The copy from port `q` goes through all other nodes, which it leads to IDLE, silent, with both ports open or,
-- at the neighbour of the RPL, with only the RPL blocked, and ends at the owner. The other copy, behind that, changes
-- nothing: the neighbour stops it, and if there is none it goes through all nodes and ends at the owner, too.
-- All nodes keep their roles.
pub owner_restores :
    (now later : ℕ) (p q : PortRef) (src : Daemon) (hops : List Hop)
    → IsWaiting p src.ring
    → HasIdentity src.ring
    → src.ring.wtr_timer_active_since ≤ now
    → now + 15000 < 2 ^ 64
    → Every (λ hop. IsPatient later src.ring.node_id hop.entry hop.daemon.ring) hops
    → (r' : Ring) × (run_seconds (every_second 16 now) src.ring ≡ done r')
      × IsRestored p r'
      × IsReverted later q src hops r'
owner_restores now later p q src hops waiting id since small patient =
    let (r', run, back, kept) = wtr_restores now p src.ring waiting since small in
    let id' : HasIdentity r' = HasIdentity-IsConfigured kept id in
    (
      r',
      run,
      back,
      reverts later q src hops r' (restored-IsMessage p r' back id')
          (code_injective r'.raps.request nr back.says) back.flags
          (ring_send_raps_lem r' back.running.settled.sound.frame (restored_flags p r' back))
          id'.own (id'.own ∙ kept.node_id) patient,
    )
