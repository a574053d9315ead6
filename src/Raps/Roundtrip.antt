-- ===== src/Raps/Roundtrip.antt =====
-- Parsing what was encoded.
use erps.Common.{
  ℕ, ◌+◌, ◌*◌, ◌/◌, ◌%◌, ◌≤◌, ◌<◌, bit_and, bit_or, ◌==◌, ==_iff, ltb, length, drop, List, true,
  false, some, ◌≡◌, ◌≢◌, refl, arith, ◌++◌, is_eq, memcmp,
}
use erps.Common.Bits.{bit_and_0xf0, bit_and_0xe0, sweep, sweep_covers}
use erps.Raps.{
  RapsRequest, nr, ms, sf, fs, event, code, Raps, NodeId, er_raps_encode, er_raps_parse,
  raps_request_of, er_is_raps_frame, er_is_local_raps_frame, bytes,
}
use erps.Raps.Frame.{frame_of, encode_fields-eq-append}

-- The fields hold values of their widths, the subcode is a nibble, and the request is one that
-- is sent.
pub record IsMessage (raps : Raps) : Type 0 where
  pub ring_id_fits : raps.ring_id < 256
  pub flags_fit : raps.flags < 256
  pub subcode_fits : raps.subcode < 16
  pub sent : raps.request ≢ event

nibble_table : (q : RapsRequest) → sweep (λ x. bit_or (code q * 16) x == code q * 16 + x) 16 ≡ true
unfolding sweep
nibble_table nr = refl
nibble_table ms = refl
nibble_table sf = refl
nibble_table fs = refl
nibble_table event = refl

-- The high nibble holds the code, the low one the subcode.
nibbles : (q : RapsRequest) (s : ℕ) → s < 16 → bit_or (code q * 16) s ≡ code q * 16 + s
nibbles q s h =
    (==_iff _ _).0
      (sweep_covers (λ x. bit_or (code q * 16) x == code q * 16 + x) 16 h (nibble_table q))

code-lt : (q : RapsRequest) → code q < 16
code-lt nr = omega arith
code-lt ms = omega arith
code-lt sf = omega arith
code-lt fs = omega arith
code-lt event = omega arith

raps_request_of-code : (q : RapsRequest) → q ≢ event → raps_request_of (code q) ≡ some q
unfolding raps_request_of
raps_request_of-code nr h = refl
raps_request_of-code ms h = refl
raps_request_of-code sf h = refl
raps_request_of-code fs h = refl
raps_request_of-code event h = absurd (h refl)

-- The request code that the parser extracts, from a byte and the byte behind it.
code_extracted :
    (q : RapsRequest) (s next : ℕ)
    → s < 16
    → bit_and (bit_or (code q * 16) s % 256 + 256 * next) 0xf0 / 16 % 256 ≡ code q
code_extracted q s next h =
    omega
      (arith, nibbles q s h, code-lt q, bit_and_0xf0 (bit_or (code q * 16) s % 256 + 256 * next))

flags_extracted : (f next : ℕ) → f < 256 → bit_and (f % 256 + 256 * next) 0xe0 % 256 ≡ f / 32 * 32
flags_extracted f next h = omega (arith, bit_and_0xe0 (f % 256 + 256 * next))

low_byte : (x next : ℕ) → x < 256 → (x % 256 + 256 * next) % 256 ≡ x
low_byte x next h = omega arith

-- What the parser returns for a message: the VLAN, the version and the subcode are lost, and so are
-- the five low bits of the flags.
abbrev pub received : Raps → Raps
received raps = record {
  ring_id = raps.ring_id;
  vid = 0;
  version = 0;
  flags = raps.flags / 32 * 32;
  request = raps.request;
  subcode = 0;
  node_id = raps.node_id;
}

pub parse_frame :
    (raps : Raps) (rest : List ℕ) (len : ℕ)
    → IsMessage raps
    → ltb len 55 ≡ false
    → er_raps_parse (frame_of raps ++ rest) len ≡ some (some (received raps))
unfolding er_raps_parse
parse_frame raps rest len m long =
    rw
      (
        long,
        code_extracted raps.request raps.subcode (raps.flags % 256) m.subcode_fits,
        raps_request_of-code raps.request m.sent,
        flags_extracted raps.flags raps.node_id.b0 m.flags_fit,
        low_byte raps.ring_id raps.node_id.b0 m.ring_id_fits,
      )
      refl

encode_lem :
    (raps : Raps) (buf : List ℕ) (max_len : ℕ)
    → 55 ≤ max_len
    → max_len ≤ length buf
    → er_raps_encode raps buf max_len ≡ (true, frame_of raps ++ drop 55 buf)
unfolding er_raps_encode
encode_lem raps buf max_len long fits =
    let e : ltb max_len 55 ≡ false = ground arith in
    rw (e, encode_fields-eq-append raps buf (omega arith))

-- For a message that is no EVENT, with a subcode below 16 and a ring id and flags of one byte: into a
-- buffer of the stated size of at least 55 bytes the encoder succeeds, and from the buffer the parser,
-- given a length of at least 55, reads the message back with no fault: the ring id, the request, the node id and the
-- three high bits of the flags are those that were encoded.
pub er_raps_parse-er_raps_encode :
    (raps : Raps) (buf : List ℕ) (max_len len : ℕ)
    → IsMessage raps
    → 55 ≤ max_len
    → max_len ≤ length buf
    → 55 ≤ len
    → ((er_raps_encode raps buf max_len).0 ≡ true)
      × (er_raps_parse (er_raps_encode raps buf max_len).1 len ≡ some (some (received raps)))
er_raps_parse-er_raps_encode raps buf max_len len m long fits h =
    rw (encode_lem raps buf max_len long fits)
      (refl, parse_frame raps (drop 55 buf) len m (ground arith))

-- The bytes of every message encoded into a buffer of at least 55 bytes pass the test for R-APS frames, and are local
-- to exactly the nodes whose address compares equal to that of the message.
pub er_is_local_raps_frame-er_raps_encode :
    (raps : Raps) (buf : List ℕ) (max_len len : ℕ) (node_id : NodeId)
    → 55 ≤ max_len
    → max_len ≤ length buf
    → 55 ≤ len
    → (er_is_raps_frame (er_raps_encode raps buf max_len).1 len ≡ some true)
      × (er_is_local_raps_frame node_id (er_raps_encode raps buf max_len).1 len
          ≡ some (is_eq (memcmp (bytes raps.node_id) (bytes node_id))))
unfolding er_is_raps_frame er_is_local_raps_frame
er_is_local_raps_frame-er_raps_encode raps buf max_len len node_id long fits h =
    let e : ltb len 55 ≡ false = ground arith in
    rw (encode_lem raps buf max_len long fits, e) (refl, refl)
