-- ===== src/Sim/Network/Recovering.antt =====
-- The command `recover` of extras/sim/ring_io.c at the node of a failure.
use mathlib.Core.Path.{subst}
use erps.Common.{
  ℕ, ◌+◌, ◌≤◌, ◌<◌, ◌^◌, true, false, none, some, ◌≡◌, inl, inr, refl, arith, ◌∙◌, ap,
}
use erps.Raps.{NodeId, nr, code_injective}
use erps.Raps.Roundtrip.{IsMessage}
use erps.Ring.{protection, pending, req_clear_sf, req_sf, invalid, PortRef, ref0, ref1, Ring}
use erps.Ring.Fsm.{group, dupe, is_dupe, save_request}
use erps.Ring.Priority.{retain}
use erps.Ring.Admission.{Admitted, ring_process_request-Admitted}
use erps.Ring.Created.{BlocksOne}
use erps.Ring.Rows.{some_blocked}
use erps.Ring.Total.{run_row}
use erps.Ring.Transitions.{ring_fsm-target, target}
use erps.Ring.Recovery.{Clears, ring_fsm-Clears}
use erps.Ring.Running.{IsRunning, IsSettled, IsSettled-relabel, ring_process_request-IsRunning}
use erps.Sim.Outcome.{done, lift}
use erps.Sim.Fsm.{ring_process_request}
use erps.Sim.Equal.{same_process_request}
use erps.Sim.Node.{ring_send_raps, tick_diff_msec}
use erps.Sim.Daemon.{recover, set_failed, execute}
use erps.Sim.Served.{IsRunning-set_failed}
use erps.Sim.Network.{opposite}
use erps.Sim.Network.Line.{role_of, role_of-IsConfigured}
use erps.Sim.Network.Message.{Differ}
use erps.Sim.Network.Failing.{
  HasIdentity, HasIdentity-IsConfigured, ring_send_raps_lem, sends_both, IsAlarmed,
}
use erps.Sim.Network.Resting.{IsPatient}

-- A running node in PROTECTION with a local SF, which the last request was.
pub record IsFailed (p : PortRef) (r : Ring) : Type 0 where
  pub running : IsRunning r
  pub protected : r.state ≡ protection
  pub asked : r.local_request ≡ req_sf
  pub request : r.prev_request ≡ req_sf
  pub blocks : BlocksOne r p
  pub identity : HasIdentity r

-- It keeps the port blocked and says on both ports, under its own address, that there is no request; its guard
-- timer runs.
pub record IsRecovered (now : ℕ) (p : PortRef) (r r' : Ring) : Type 0 where
  pub running : IsRunning r'
  pub in_pending : r'.state ≡ pending
  pub blocks : BlocksOne r' p
  pub sending : r'.is_sending_raps ≡ true
  pub sends : ring_send_raps r' ≡ sends_both r'.raps
  pub says : r'.raps.request ≡ nr
  pub flags : r'.raps.flags ≡ 0
  pub message : IsMessage r'.raps
  pub own : r'.raps.node_id ≡ r'.node_id
  pub kept : r'.node_id ≡ r.node_id
  pub role : (entry : PortRef) → role_of entry r' ≡ role_of entry r
  pub guarded : r'.guard_timer_active ≡ true
  pub since : r'.guard_timer_active_since ≡ now
  pub unasked : r'.local_request ≡ invalid
  pub request : r'.prev_request ≡ req_clear_sf

clear_sf_Admitted : (r : Ring) → r.local_request ≡ req_sf → Admitted req_clear_sf r
clear_sf_Admitted r h = record {
  supported = λ e. (λ g. ground (arith, g), λ g. ground (arith, g));
  no_separation = λ e. ground (arith, e);
  clearable = λ e. ground (arith, e);
  severe = inr (h, refl);
}

still : (now : ℕ) (p : PortRef) (r r' : Ring) → BlocksOne r p → Clears now r r' → BlocksOne r' p
still now ref0 r r' b c = ground (arith, b, c)
still now ref1 r r' b c = ground (arith, b, c)

-- A node that is alarmed is such a node.
pub alarmed-IsFailed : (p : PortRef) (r r' : Ring) → IsAlarmed p r r' → IsFailed p r'
alarmed-IsFailed p r r' h = record {
  running = h.running;
  protected = h.protected;
  asked = h.asked;
  request = h.request;
  blocks = h.blocks;
  identity = record {
    own = h.own;
    ring_id_fits = h.message.ring_id_fits;
    subcode_fits = h.message.subcode_fits;
  };
}

blocks_asked :
    (p : PortRef) (r : Ring)
    → BlocksOne r p
    → BlocksOne (record r { local_request = retain req_clear_sf }) p
blocks_asked ref0 r b = b
blocks_asked ref1 r b = b

-- The request CLEAR_SF of the command.
cleared :
    (now : ℕ) (p : PortRef) (r : Ring)
    → IsFailed p r
    → (r' : Ring) × (ring_process_request now req_clear_sf (some p) none r ≡ done r')
      × IsRecovered now p r r'
cleared now p r h =
    let asked : Ring = record r { local_request = retain req_clear_sf } in
    let fresh : is_dupe req_clear_sf (some p) none asked ≡ some false =
      unfold dupe group in rw h.request refl in
    let settled : IsSettled asked =
      IsSettled-relabel r (retain req_clear_sf) (unfold retain in inl refl) h.running.settled in
    let (r', run, sound, kept, memory) =
      run_row now req_clear_sf (some p) none asked settled.sound tt fresh in
    let c : Clears now asked r' = ring_fsm-Clears now (some p) none asked h.protected fresh run in
    let id' : HasIdentity r' = HasIdentity-IsConfigured kept (record {
      own = h.identity.own;
      ring_id_fits = h.identity.ring_id_fits;
      subcode_fits = h.identity.subcode_fits;
    }) in
    let says : r'.raps.request ≡ nr = code_injective r'.raps.request nr c.says in
    let moved : r'.state ≡ pending = elim (ring_fsm-target now req_clear_sf (some p) none run) [
      | inl (e, _) ↦ absurd (ground (arith, e, fresh))
      | inr (_, e) ↦ e ∙ ap (λ s. target s req_clear_sf (some_blocked asked)) h.protected
    ] in
    elim (ring_process_request-Admitted now req_clear_sf (some p) none r) [
      | inl (refused, _) ↦ absurd (refused (clear_sf_Admitted r h.asked))
      | inr (_, granted) ↦
          let (r1, run1, running1) =
            ring_process_request-IsRunning now req_clear_sf (some p) none r h.running tt
              (λ e. ground (arith, e)) in
          let same : r1 ≡ r' = cc in
          (
            r',
            same_process_request now req_clear_sf (some p) none r (unfold group in refl)
                ∙ ap lift (granted ∙ run),
            record {
              running = subst IsRunning same running1;
              in_pending = moved;
              blocks = still now p asked r' (blocks_asked p r h.blocks) c;
              sending = c.sending;
              sends =
                  let f = c.flags in ring_send_raps_lem r' sound.frame (λ e. ground (arith, e, f));
              says = says;
              flags = c.flags;
              message = record {
                ring_id_fits = id'.ring_id_fits;
                flags_fit = let f = c.flags in omega arith;
                subcode_fits = id'.subcode_fits;
                sent = λ e. ground (arith, says, e);
              };
              own = id'.own;
              kept = kept.node_id;
              role = λ entry. role_of-IsConfigured entry kept;
              guarded = c.guarded;
              since = c.since;
              unasked = unfold save_request retain in memory.local;
              request = unfold save_request in memory.request;
            },
          )
    ]

IsFailed-set_failed : (p : PortRef) (r : Ring) → IsFailed p r → IsFailed p (set_failed false p r)
unfolding set_failed
IsFailed-set_failed ref0 r h = record {
  running = unfold set_failed in IsRunning-set_failed false ref0 r h.running;
  protected = h.protected;
  asked = h.asked;
  request = h.request;
  blocks = h.blocks;
  identity = record {
    own = h.identity.own;
    ring_id_fits = h.identity.ring_id_fits;
    subcode_fits = h.identity.subcode_fits;
  };
}
IsFailed-set_failed ref1 r h = record {
  running = unfold set_failed in IsRunning-set_failed false ref1 r h.running;
  protected = h.protected;
  asked = h.asked;
  request = h.request;
  blocks = h.blocks;
  identity = record {
    own = h.identity.own;
    ring_id_fits = h.identity.ring_id_fits;
    subcode_fits = h.identity.subcode_fits;
  };
}

recovered_id : (p : PortRef) (r : Ring) → (set_failed false p r).node_id ≡ r.node_id
unfolding set_failed
recovered_id ref0 r = refl
recovered_id ref1 r = refl

-- The node of the failure recovers at the command.
pub execute-IsRecovered :
    (now : ℕ) (p : PortRef) (r : Ring)
    → IsFailed p r
    → (r' : Ring) × (execute now (some recover) (some p) r ≡ done r')
      × IsRecovered now p (set_failed false p r) r'
      × (r'.node_id ≡ r.node_id)
unfolding execute
execute-IsRecovered now p r h =
    let (r', run, recovered) = cleared now p (set_failed false p r) (IsFailed-set_failed p r h) in
    (r', run, recovered, recovered.kept ∙ recovered_id p r)

-- Half a second later it waits for the message of the owner.
pub recovered-IsPatient :
    (now later : ℕ) (owner : NodeId) (p q : PortRef) (r r' : Ring)
    → IsRecovered now p r r'
    → now + 500 ≤ later
    → later < 2 ^ 64
    → r'.is_rpl_owner ≡ false
    → Differ owner r'.node_id
    → (r'.is_rpl_neighbour ≡ true → r'.rpl_port ≡ some (opposite q))
    → IsPatient later owner q r'
unfolding tick_diff_msec
recovered-IsPatient now later owner p q r r' h since small plain other away = record {
  running = h.running;
  in_pending = h.in_pending;
  plain = plain;
  news = λ e. let f = h.request in ground (arith, e, f);
  unasked = h.unasked;
  listens = let s = h.since in let g = h.guarded in ground (arith, s, g, since, small);
  other = other;
  away = away;
}
