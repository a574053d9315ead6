-- ===== src/Raps/Safe.antt =====
-- The frame tests and the parser on buffers that are long enough.
use erps.Common.{
  ℕ, ◌+◌, ◌≤◌, ◌<◌, bit_and, ◌/◌, ◌%◌, ◌==◌, ltb, Bool, not, Option, some, none, List, length,
  get_elem?-lt, ◌≡◌, refl, arith, inl, inr, Bool-cases,
}
use erps.Raps.{
  RapsRequest, NodeId, Raps, read_byte, read_word, read_node_id, er_is_raps_frame, raps_request_of,
  parse_request, parse_cfm, er_raps_parse, er_is_local_raps_frame,
}

module _ (buf : List ℕ) where
  read_byte_total : (i : ℕ) → i + 1 < length buf → (v : ℕ) × (read_byte buf i ≡ some v)
  unfolding read_byte
  read_byte_total i h =
      let (lo, e) = get_elem?-lt buf i (omega arith) in
      let (hi, f) = get_elem?-lt buf (i + 1) h in rw (e, f) (_, refl)

  read_word_total : (i : ℕ) → i + 1 < length buf → (v : ℕ) × (read_word buf i ≡ some v)
  unfolding read_word
  read_word_total i h =
      let (hi, e) = get_elem?-lt buf i (omega arith) in
      let (lo, f) = get_elem?-lt buf (i + 1) h in rw (e, f) (_, refl)

  read_node_id_total : (i : ℕ) → i + 5 < length buf → (n : NodeId) × (read_node_id buf i ≡ some n)
  unfolding read_node_id
  read_node_id_total i h =
      let (x0, e0) = get_elem?-lt buf i (omega arith) in
      let (x1, e1) = get_elem?-lt buf (i + 1) (omega arith) in
      let (x2, e2) = get_elem?-lt buf (i + 2) (omega arith) in
      let (x3, e3) = get_elem?-lt buf (i + 3) (omega arith) in
      let (x4, e4) = get_elem?-lt buf (i + 4) (omega arith) in
      let (x5, e5) = get_elem?-lt buf (i + 5) (omega arith) in rw (e0, e1, e2, e3, e4, e5) (_, refl)

  parse_request_total :
      (base id : ℕ) (c : Option RapsRequest)
      → base + 8 < length buf
      → (o : Option Raps) × (parse_request buf base id c ≡ some o)
  unfolding parse_request
  parse_request_total base id none h = (none, refl)
  parse_request_total base id (some q) h =
      let (f, e) = read_byte_total (base + 1) (omega arith) in
      let (n, e') = read_node_id_total (base + 2) (omega arith) in rw (e, e') (_, refl)

  parse_cfm_total :
      (base id : ℕ) → base + 12 < length buf → (o : Option Raps) × (parse_cfm buf base id ≡ some o)
  unfolding parse_cfm
  parse_cfm_total base id h =
      let (v, e) = read_byte_total base (omega arith) in
      let (op, e') = read_byte_total (base + 1) (omega arith) in
      let (c, e'') = read_byte_total (base + 4) (omega arith) in
      elim (Bool-cases (ltb 2 (bit_and v 0x1f % 256))) [
        | inl t ↦ (none, rw (e, t))
        | inr t ↦ elim (Bool-cases (not (op % 256 == 40))) [
          | inl u ↦ (none, rw (e, t, e', u))
          | inr u ↦
              let (o, d) =
                parse_request_total (base + 4) id (raps_request_of (bit_and c 0xf0 / 16 % 256))
                  (omega arith) in
              (o, rw (e, t, e', u, e'') d)
        ]
      ]

  pub er_raps_parse_total :
      (len : ℕ) → len ≤ length buf → (o : Option Raps) × (er_raps_parse buf len ≡ some o)
  unfolding er_raps_parse
  er_raps_parse_total len h = elim (Bool-cases (ltb len 55)) [
    | inl t ↦ (none, rw t)
    | inr t ↦
        let long : 55 ≤ len = ground arith in
        let (id, e) = read_byte_total 5 (omega arith) in
        let (w, e') = read_word_total 12 (omega arith) in
        let (x, e'') = read_word_total 16 (omega arith) in
        elim (Bool-cases (w == 0x8100)) [
          | inl u ↦
              let (o, d) = parse_cfm_total 18 (id % 256) (omega arith) in
              (o, rw (t, e, e', u, e'') d)
          | inr u ↦
              let (o, d) = parse_cfm_total 14 (id % 256) (omega arith) in (o, rw (t, e, e', u) d)
        ]
  ]

  pub er_is_raps_frame_total :
      (len : ℕ) → len ≤ length buf → (b : Bool) × (er_is_raps_frame buf len ≡ some b)
  unfolding er_is_raps_frame
  er_is_raps_frame_total len h = elim (Bool-cases (ltb len 55)) [
    | inl t ↦ rw t (_, refl)
    | inr t ↦
        let long : 55 ≤ len = ground arith in
        let (x0, e0) = get_elem?-lt buf 0 (omega arith) in
        let (x1, e1) = get_elem?-lt buf 1 (omega arith) in
        let (x2, e2) = get_elem?-lt buf 2 (omega arith) in
        let (x3, e3) = get_elem?-lt buf 3 (omega arith) in
        let (x4, e4) = get_elem?-lt buf 4 (omega arith) in rw (t, e0, e1, e2, e3, e4) (_, refl)
  ]

  pub er_is_local_raps_frame_total :
      (node_id : NodeId) (len : ℕ)
      → len ≤ length buf
      → (b : Bool) × (er_is_local_raps_frame node_id buf len ≡ some b)
  unfolding er_is_local_raps_frame
  er_is_local_raps_frame_total node_id len h = elim (Bool-cases (ltb len 55)) [
    | inl t ↦ rw t (_, refl)
    | inr t ↦
        let long : 55 ≤ len = ground arith in
        let (w, e) = read_word_total 12 (omega arith) in
        elim (Bool-cases (w == 0x8100)) [
          | inl u ↦ let (n, d) = read_node_id_total 24 (omega arith) in rw (t, e, u, d) (_, refl)
          | inr u ↦ let (n, d) = read_node_id_total 20 (omega arith) in rw (t, e, u, d) (_, refl)
        ]
  ]
