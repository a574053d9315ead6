-- ===== src/Ring/Effects.antt =====
-- What the shared moves of the rows do to the ports and to what is sent.
use erps.Common.{
  ℕ, true, false, not, ◌||◌, ◌==◌, some, ◌≡◌, inl, inr, refl, arith, Bool-cases, bit_or,
}
use erps.Raps.{RapsRequest, code, flag_dnf, flag_rb}
use erps.Raps
use erps.Ring.{PortRef, ref0, ref1, Ring, start_tx, port_of}
use erps.Ring.Rows.{switch_to, block_rpl}
use erps.Ring.Created.{BlocksOne}

-- What `start_tx` leaves behind: it sends the request with the flags, and changes no port.
pub record Sends (q : RapsRequest) (f : ℕ) (r r' : Ring) : Type 0 where
  pub sending : r'.is_sending_raps ≡ true
  pub says : code r'.raps.request ≡ code q
  pub flags : r'.raps.flags ≡ f
  pub port0 : r'.port0 ≡ r.port0
  pub port1 : r'.port1 ≡ r.port1
  pub state : r'.state ≡ r.state
  pub owner : r'.is_rpl_owner ≡ r.is_rpl_owner
  pub rpl : r'.rpl_port ≡ r.rpl_port

pub start_tx-Sends :
    (q : RapsRequest) (f : ℕ) (r : Ring) → (r' : Ring) × (start_tx q f r ≡ some r') × Sends q f r r'
unfolding start_tx
start_tx-Sends q f r =
    elim (Bool-cases (not (code r.raps.request == code q) || not (r.raps.flags == f))) [
      | inl e ↦ rw e (_, refl, ground arith)
      | inr e ↦ rw e (_, refl, ground arith)
    ]

-- A port is blocked and the other one open; the ring is told which request made it so, and whether the port was
-- blocked before.
pub record Switched (q : RapsRequest) (f g : ℕ) (p : PortRef) (r r' : Ring) : Type 0 where
  pub blocks : BlocksOne r' p
  pub sending : r'.is_sending_raps ≡ true
  pub says : code r'.raps.request ≡ code q
  pub quiet : (port_of r p).is_blocked ≡ true → r'.raps.flags ≡ f
  pub loud : (port_of r p).is_blocked ≡ false → r'.raps.flags ≡ g
  pub owner : r'.is_rpl_owner ≡ r.is_rpl_owner
  pub rpl : r'.rpl_port ≡ r.rpl_port

-- The ring with the port blocked.
abbrev blocked_at : PortRef → Ring → Ring
blocked_at ref0 r = record r { port0 = record r.port0 { is_blocked = true } }
blocked_at ref1 r = record r { port1 = record r.port1 { is_blocked = true } }

pub switch_to-Switched :
    (q : RapsRequest) (p : PortRef) {r r' : Ring}
    → switch_to q (some p) r ≡ some r'
    → Switched q flag_dnf 0 p r r'
unfolding switch_to
switch_to-Switched q ref0 {r} {r'} h = elim (Bool-cases r.port0.is_blocked) [
  | inl e ↦ let (r1, run, s) = start_tx-Sends q flag_dnf r in ground (arith, run, s)
  | inr e ↦ let (r1, run, s) = start_tx-Sends q 0 (blocked_at ref0 r) in ground (arith, run, s)
]
switch_to-Switched q ref1 {r} {r'} h = elim (Bool-cases r.port1.is_blocked) [
  | inl e ↦ let (r1, run, s) = start_tx-Sends q flag_dnf r in ground (arith, run, s)
  | inr e ↦ let (r1, run, s) = start_tx-Sends q 0 (blocked_at ref1 r) in ground (arith, run, s)
]

pub block_rpl-Switched :
    (p : PortRef) {r r' : Ring}
    → block_rpl (some p) r ≡ some r'
    → Switched Raps.nr (bit_or flag_rb flag_dnf) flag_rb p r r'
unfolding block_rpl
block_rpl-Switched ref0 {r} {r'} h = elim (Bool-cases r.port0.is_blocked) [
  | inl e ↦
      let (r1, run, s) = start_tx-Sends Raps.nr (bit_or flag_rb flag_dnf) r in
      ground (arith, run, s)
  | inr e ↦
      let (r1, run, s) = start_tx-Sends Raps.nr flag_rb (blocked_at ref0 r) in
      ground (arith, run, s)
]
block_rpl-Switched ref1 {r} {r'} h = elim (Bool-cases r.port1.is_blocked) [
  | inl e ↦
      let (r1, run, s) = start_tx-Sends Raps.nr (bit_or flag_rb flag_dnf) r in
      ground (arith, run, s)
  | inr e ↦
      let (r1, run, s) = start_tx-Sends Raps.nr flag_rb (blocked_at ref1 r) in
      ground (arith, run, s)
]
