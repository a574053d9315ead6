-- ===== src/Raps.antt =====
-- R-APS frames: src/sys/dev/erps/er_raps.h and er_raps.c.
-- A buffer is the list of its bytes; a read outside of it is a fault, `none`.
pub mod Frame
pub mod Safe
pub mod Roundtrip
use erps.Common.{
  ℕ, ◌+◌, ◌*◌, ◌/◌, ◌%◌, bit_and, bit_or, Bool, true, false, not, Option, none, some, List, [], ◌∷◌,
  ltb, ◌==◌, if◌then◌else◌, get_elem?, replicate, write_at, memcmp, is_eq, ◌>>=◌, ◌≡◌, refl, arith,
}

pub data RapsRequest : Type 0 where
  nr ms sf fs event : RapsRequest

-- The values of the enumeration.
abbrev pub code : RapsRequest → ℕ
code nr = 0x0
code ms = 0x7
code sf = 0xb
code fs = 0xd
code event = 0xe

pub code_injective : (q q' : RapsRequest) → code q ≡ code q' → q ≡ q'
code_injective nr nr e = refl
code_injective ms ms e = refl
code_injective sf sf e = refl
code_injective fs fs e = refl
code_injective event event e = refl
code_injective _ _ e = ground (arith, e)

abbrev pub flag_dnf : ℕ
flag_dnf = 0x40

abbrev pub flag_rb : ℕ
flag_rb = 0x80

-- `uint8_t node_id[6]`.
pub record NodeId : Type 0 where
  pub b0 : ℕ
  pub b1 : ℕ
  pub b2 : ℕ
  pub b3 : ℕ
  pub b4 : ℕ
  pub b5 : ℕ

abbrev pub bytes : NodeId → List ℕ
bytes n = n.b0 ∷ n.b1 ∷ n.b2 ∷ n.b3 ∷ n.b4 ∷ n.b5 ∷ []

abbrev pub zero_id : NodeId
zero_id = record { b0 = 0; b1 = 0; b2 = 0; b3 = 0; b4 = 0; b5 = 0 }

pub record Raps : Type 0 where
  pub ring_id : ℕ  -- uint8
  pub vid : ℕ  -- uint16
  pub version : ℕ  -- uint8
  pub flags : ℕ  -- uint8
  pub request : RapsRequest
  pub subcode : ℕ  -- uint8
  pub node_id : NodeId

-- What `er_raps_create` allocates: all zero.
unfoldable pub er_raps_create : Raps
er_raps_create = record {
  ring_id = 0;
  vid = 0;
  version = 0;
  flags = 0;
  request = nr;
  subcode = 0;
  node_id = zero_id;
}

-- `READ_BYTE` loads a 16-bit word, on a little-endian machine.
unfoldable pub read_byte : List ℕ → ℕ → Option ℕ
read_byte buf i = do lo ← get_elem? buf i; hi ← get_elem? buf (i + 1); some (lo + 256 * hi)

-- `READ_WORD`, in network byte order.
unfoldable pub read_word : List ℕ → ℕ → Option ℕ
read_word buf i = do hi ← get_elem? buf i; lo ← get_elem? buf (i + 1); some (256 * hi + lo)

unfoldable pub read_node_id : List ℕ → ℕ → Option NodeId
read_node_id buf i = do
  x0 ← get_elem? buf i
  x1 ← get_elem? buf (i + 1)
  x2 ← get_elem? buf (i + 2)
  x3 ← get_elem? buf (i + 3)
  x4 ← get_elem? buf (i + 4)
  x5 ← get_elem? buf (i + 5)
  some (record { b0 = x0; b1 = x1; b2 = x2; b3 = x3; b4 = x4; b5 = x5 })

-- The first five octets of the destination address of every R-APS frame.
abbrev pub raps_prefix : List ℕ
raps_prefix = 0x01 ∷ 0x19 ∷ 0xa7 ∷ 0x00 ∷ 0x00 ∷ []

unfoldable pub er_is_raps_frame : List ℕ → ℕ → Option Bool
er_is_raps_frame buf len = if ltb len 55 then some false else do
  x0 ← get_elem? buf 0
  x1 ← get_elem? buf 1
  x2 ← get_elem? buf 2
  x3 ← get_elem? buf 3
  x4 ← get_elem? buf 4
  some (is_eq (memcmp (x0 ∷ x1 ∷ x2 ∷ x3 ∷ x4 ∷ []) raps_prefix))

unfoldable pub er_is_keepalive_frame : List ℕ → ℕ → Bool
er_is_keepalive_frame buf len = false

unfoldable pub er_is_valid_raps_frame : List ℕ → ℕ → Bool
er_is_valid_raps_frame buf len = true

unfoldable pub er_raps_get_len : Raps → ℕ
er_raps_get_len raps = 55

-- The codes that the `switch` of `er_raps_parse` lets pass.
unfoldable pub raps_request_of : ℕ → Option RapsRequest
raps_request_of c =
    if c == 0x0
    then some nr
    else if c == 0x7
    then some ms
    else if c == 0xd
    then some fs
    else if c == 0xb
    then some sf
    else none

-- The `switch` on the request code, and what follows it; the R-APS part begins at `base`.
unfoldable pub parse_request : List ℕ → ℕ → ℕ → Option RapsRequest → Option (Option Raps)
unfolding read_byte read_node_id
parse_request buf base ring_id none = some none
parse_request buf base ring_id (some request) = do
  f ← read_byte buf (base + 1)
  node_id ← read_node_id buf (base + 2)
  let flags = bit_and f 0xe0 % 256
  some (
      some (record {
        ring_id = ring_id;
        vid = 0;
        version = 0;
        flags = flags;
        request = request;
        subcode = 0;
        node_id = node_id;
      }))

-- The part of `er_raps_parse` behind the Ethernet and VLAN headers, which end at `base`.
unfoldable pub parse_cfm : List ℕ → ℕ → ℕ → Option (Option Raps)
unfolding read_byte parse_request raps_request_of
parse_cfm buf base ring_id = do
  v ← read_byte buf base
  if ltb 2 (bit_and v 0x1f % 256) then some none else do
    op ← read_byte buf (base + 1)
    if not (op % 256 == 40) then some none else do
      c ← read_byte buf (base + 4)
      parse_request buf (base + 4) ring_id (raps_request_of (bit_and c 0xf0 / 16 % 256))

-- `some none` is the result `false`; the third argument of the source is the result.
unfoldable pub er_raps_parse : List ℕ → ℕ → Option (Option Raps)
unfolding read_byte read_word parse_cfm
er_raps_parse buf len = if ltb len 55 then some none else do
  id ← read_byte buf 5
  eth_type ← read_word buf 12
  if eth_type == 0x8100
      then read_word buf (14 + 2) >>= (λ tag. parse_cfm buf (14 + 4) (id % 256))
      else parse_cfm buf 14 (id % 256)

abbrev write_byte : ℕ → ℕ → List ℕ → List ℕ
write_byte i x buf = write_at i (x % 256 ∷ []) buf

abbrev write_word : ℕ → ℕ → List ℕ → List ℕ
write_word i x buf = write_at i (x / 256 % 256 ∷ x % 256 ∷ []) buf

-- The writes of `er_raps_encode`, in their order.
unfoldable pub encode_fields : Raps → List ℕ → List ℕ
encode_fields raps buf0 =
    let buf1 = write_at 0 (replicate 55 0) buf0 in
    let buf2 = write_at 0 raps_prefix buf1 in
    let buf3 = write_byte 5 raps.ring_id buf2 in
    let buf4 = write_at 6 (bytes raps.node_id) buf3 in
    let buf5 = write_word 12 0x8100 buf4 in
    let buf6 = write_word 14 raps.vid buf5 in
    let buf7 = write_word (14 + 2) 0x8902 buf6 in
    let buf8 = write_byte 18 0x02 buf7 in
    let buf9 = write_byte (18 + 1) 40 buf8 in
    let buf10 = write_byte (18 + 3) 32 buf9 in
    let buf11 = write_byte 22 (bit_or (code raps.request * 16) raps.subcode) buf10 in
    let buf12 = write_byte (22 + 1) raps.flags buf11 in write_at (22 + 2) (bytes raps.node_id) buf12

-- The result and the buffer behind `buf`, whose size the caller guarantees to be `max_len`.
unfoldable pub er_raps_encode : Raps → List ℕ → ℕ → Bool × List ℕ
unfolding encode_fields
er_raps_encode raps buf max_len =
    if ltb max_len 55 then (false, buf) else (true, encode_fields raps buf)

unfoldable pub er_is_local_raps_frame : NodeId → List ℕ → ℕ → Option Bool
unfolding read_word read_node_id
er_is_local_raps_frame node_id buf len = if ltb len 55 then some false else do
  eth_type ← read_word buf 12
  let offset = if eth_type == 0x8100 then 4 else 0
  source ← read_node_id buf (14 + offset + 6)
  some (is_eq (memcmp (bytes source) (bytes node_id)))
