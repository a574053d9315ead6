-- ===== src/Sim/Network/Failing.antt =====
-- The command `fail` of extras/sim/ring_io.c at a node of the ring.
use mathlib.Core.Path.{subst}
use erps.Common.{
  ℕ, ◌<◌, Bool, true, false, none, some, List, [], ◌∷◌, ◌≡◌, ◌≢◌, inl, inr, refl, arith, ◌∙◌, ap,
  ◌==◌, Bool-cases, sym,
}
use erps.Raps.{Raps, code_injective, sf, flag_dnf}
use erps.Raps.Frame.{frame_of}
use erps.Raps.Roundtrip.{IsMessage}
use erps.Ring.{
  State, protection, forced_switch, Request, rank, req_sf, PortRef, ref0, ref1, Ring, port_of,
}
use erps.Ring.Fsm.{group, dupe, is_dupe, save_request}
use erps.Ring.Priority.{retain}
use erps.Ring.Admission.{Admitted, ring_process_request-Admitted}
use erps.Ring.Created.{BlocksOne}
use erps.Ring.Steady.{HasFrame, IsConfigured}
use erps.Ring.Rows.{some_blocked}
use erps.Ring.Total.{run_row}
use erps.Ring.Transitions.{ring_fsm-target, target}
use erps.Ring.Yielding.{Free, at_rest, in_wait}
use erps.Ring.Effects.{Switched}
use erps.Ring.Switching.{switches, ring_fsm-Switched}
use erps.Ring.Running.{IsRunning, IsSettled, IsSettled-relabel, ring_process_request-IsRunning}
use erps.Sim.Outcome.{done, lift}
use erps.Sim.Fsm.{ring_process_request}
use erps.Sim.Equal.{same_process_request}
use erps.Sim.Node.{ring_send_raps}
use erps.Sim.Daemon.{fail, set_failed, execute}
use erps.Sim.Served.{IsRunning-set_failed}
use erps.Sim.Network.Line.{role_of, role_of-IsConfigured}

-- The messages of the node have its own address and fields that fit.
pub record HasIdentity (r : Ring) : Type 0 where
  pub own : r.raps.node_id ≡ r.node_id
  pub ring_id_fits : r.raps.ring_id < 256
  pub subcode_fits : r.raps.subcode < 16

pub HasIdentity-IsConfigured : {r r' : Ring} → IsConfigured r r' → HasIdentity r → HasIdentity r'
HasIdentity-IsConfigured {r} {r'} k h = record {
  own = k.source ∙ (h.own ∙ sym k.node_id);
  ring_id_fits = subst (λ x. x < 256) (sym k.message_ring) h.ring_id_fits;
  subcode_fits = subst (λ x. x < 16) (sym k.message_subcode) h.subcode_fits;
}

-- A running node in IDLE or PENDING that has not been asked for anything as urgent as SF, and whose
-- messages have its own address.
pub record IsCalm (r : Ring) : Type 0 where
  pub running : IsRunning r
  pub free : Free r.state
  pub news : r.prev_request ≢ req_sf
  pub weaker : rank r.local_request < rank req_sf
  pub identity : HasIdentity r

-- The frames of the message, on both ports.
abbrev pub sends_both : Raps → List (PortRef × List ℕ)
sends_both m = (ref0, frame_of m) ∷ (ref1, frame_of m) ∷ []

-- The port is blocked and the other one open; the message goes out, on both ports, under the address
-- of the node.
pub record IsAlarmed (p : PortRef) (r r' : Ring) : Type 0 where
  pub running : IsRunning r'
  pub protected : r'.state ≡ protection
  pub blocks : BlocksOne r' p
  pub sending : r'.is_sending_raps ≡ true
  pub sends : ring_send_raps r' ≡ sends_both r'.raps
  pub says : r'.raps.request ≡ sf
  pub message : IsMessage r'.raps
  pub own : r'.raps.node_id ≡ r'.node_id
  pub kept : r'.node_id ≡ r.node_id
  pub role : (entry : PortRef) → role_of entry r' ≡ role_of entry r
  pub asked : r'.local_request ≡ req_sf
  pub request : r'.prev_request ≡ req_sf

pub ring_send_raps_lem :
    (r : Ring) → HasFrame r → r.raps.flags ≢ 0xff → ring_send_raps r ≡ sends_both r.raps
unfolding ring_send_raps
ring_send_raps_lem r h n = elim h.in_sync [
  | inl e ↦ absurd (n e)
  | inr e ↦ rw (h.buffer_len, e) refl
]

not_last : (q : Request) → q ≢ req_sf → (rank req_sf == rank q) ≡ false
not_last req_sf n = absurd (n refl)
not_last _ n = refl

led : {s : State} (b : Bool) → Free s → target s req_sf b ≡ protection
led b at_rest = refl
led b in_wait = refl

not_forced : {s : State} → Free s → s ≢ forced_switch
not_forced at_rest e = ground (arith, e)
not_forced in_wait e = ground (arith, e)

sf_fresh :
    (p : PortRef) (r : Ring) → r.prev_request ≢ req_sf → is_dupe req_sf (some p) none r ≡ some false
unfolding dupe group
sf_fresh p r n = rw (not_last r.prev_request n) refl

sf_Admitted : (r : Ring) → Free r.state → rank r.local_request < rank req_sf → Admitted req_sf r
sf_Admitted r f h = record {
  supported = λ e. (λ g. ground (arith, g), λ g. ground (arith, g));
  no_separation = λ e g. not_forced f g;
  clearable = λ e. ground (arith, e);
  severe = inl h;
}

obeys : {s : State} → Free s → switches s req_sf ≡ some sf
obeys at_rest = refl
obeys in_wait = refl

-- The flags of the message: DNF if the port was blocked, none otherwise.
sf_flags :
    (p : PortRef) (r r' : Ring)
    → Switched sf flag_dnf 0 p r r'
    → (r'.raps.flags < 256) × (r'.raps.flags ≢ 0xff)
sf_flags p r r' s = elim (Bool-cases (port_of r p).is_blocked) [
  | inl e ↦ let f = s.quiet e in (omega arith, λ g. ground (arith, f, g))
  | inr e ↦ let f = s.loud e in (omega arith, λ g. ground (arith, f, g))
]

-- The request SF of the command.
raised :
    (now : ℕ) (p : PortRef) (r : Ring)
    → IsCalm r
    → (r' : Ring) × (ring_process_request now req_sf (some p) none r ≡ done r') × IsAlarmed p r r'
raised now p r h =
    let asked : Ring = record r { local_request = retain req_sf } in
    let fresh : is_dupe req_sf (some p) none asked ≡ some false = sf_fresh p asked h.news in
    let settled : IsSettled asked =
      IsSettled-relabel r (retain req_sf) (unfold retain in ground arith) h.running.settled in
    let (r', run, sound, kept, memory) =
      run_row now req_sf (some p) none asked settled.sound tt fresh in
    let s : Switched sf flag_dnf 0 p asked r' =
      ring_fsm-Switched now req_sf p none sf fresh (obeys h.free) run in
    let (fits, known) = sf_flags p asked r' s in
    let id' : HasIdentity r' = HasIdentity-IsConfigured kept (record {
      own = h.identity.own;
      ring_id_fits = h.identity.ring_id_fits;
      subcode_fits = h.identity.subcode_fits;
    }) in
    let says : r'.raps.request ≡ sf = code_injective r'.raps.request sf s.says in
    let moved : r'.state ≡ protection = elim (ring_fsm-target now req_sf (some p) none run) [
      | inl (e, _) ↦ absurd (ground (arith, e, fresh))
      | inr (_, e) ↦ e ∙ led (some_blocked asked) h.free
    ] in
    elim (ring_process_request-Admitted now req_sf (some p) none r) [
      | inl (refused, _) ↦ absurd (refused (sf_Admitted r h.free h.weaker))
      | inr (_, granted) ↦
          let (r1, run1, running1) =
            ring_process_request-IsRunning now req_sf (some p) none r h.running tt
              (λ e. ground (arith, e)) in
          let same : r1 ≡ r' = cc in
          (
            r',
            same_process_request now req_sf (some p) none r (unfold group in refl)
                ∙ ap lift (granted ∙ run),
            record {
              running = subst IsRunning same running1;
              protected = moved;
              blocks = s.blocks;
              sending = s.sending;
              sends = ring_send_raps_lem r' sound.frame known;
              says = says;
              message = record {
                ring_id_fits = id'.ring_id_fits;
                flags_fit = fits;
                subcode_fits = id'.subcode_fits;
                sent = λ e. ground (arith, says, e);
              };
              own = id'.own;
              kept = kept.node_id;
              role = λ entry. role_of-IsConfigured entry kept;
              asked = unfold save_request retain in memory.local;
              request = unfold save_request in memory.request;
            },
          )
    ]

IsCalm-set_failed : (p : PortRef) (r : Ring) → IsCalm r → IsCalm (set_failed true p r)
unfolding set_failed
IsCalm-set_failed ref0 r h = record {
  running = unfold set_failed in IsRunning-set_failed true ref0 r h.running;
  free = h.free;
  news = h.news;
  weaker = h.weaker;
  identity = record {
    own = h.identity.own;
    ring_id_fits = h.identity.ring_id_fits;
    subcode_fits = h.identity.subcode_fits;
  };
}
IsCalm-set_failed ref1 r h = record {
  running = unfold set_failed in IsRunning-set_failed true ref1 r h.running;
  free = h.free;
  news = h.news;
  weaker = h.weaker;
  identity = record {
    own = h.identity.own;
    ring_id_fits = h.identity.ring_id_fits;
    subcode_fits = h.identity.subcode_fits;
  };
}

failed_id : (p : PortRef) (r : Ring) → (set_failed true p r).node_id ≡ r.node_id
unfolding set_failed
failed_id ref0 r = refl
failed_id ref1 r = refl

-- A calm node is alarmed by the command.
pub execute-IsAlarmed :
    (now : ℕ) (p : PortRef) (r : Ring)
    → IsCalm r
    → (r' : Ring) × (execute now (some fail) (some p) r ≡ done r')
      × IsAlarmed p (set_failed true p r) r'
      × (r'.node_id ≡ r.node_id)
unfolding execute
execute-IsAlarmed now p r h =
    let (r', run, alarmed) = raised now p (set_failed true p r) (IsCalm-set_failed p r h) in
    (r', run, alarmed, alarmed.kept ∙ failed_id p r)
