-- ===== src/Raps/Frame.antt =====
-- The bytes that `er_raps_encode` writes.
use erps.Common.{
  ℕ, ◌*◌, ◌/◌, ◌%◌, ◌≤◌, bit_or, ◌≡◌, arith, List, [], ◌∷◌, ◌++◌, length, drop, replicate,
  overlay-append, length-drop, drop_all,
}
use mathlib.Core.List.{append-nil}
use erps.Raps.{Raps, code, bytes, encode_fields}

-- The 55 bytes of the message, by the layout of the format.
abbrev pub frame_of : Raps → List ℕ
frame_of raps =
    (0x01 ∷ 0x19 ∷ 0xa7 ∷ 0x00 ∷ 0x00 ∷ raps.ring_id % 256 ∷ [])
    ++ (bytes raps.node_id
        ++ ((0x81 ∷ 0x00 ∷ raps.vid / 256 % 256 ∷ raps.vid % 256 ∷ 0x89 ∷ 0x02 ∷ [])
            ++ ((0x02 ∷ 40 ∷ 0 ∷ 32 ∷ [])
                ++ ((bit_or (code raps.request * 16) raps.subcode % 256 ∷ raps.flags % 256 ∷ [])
                    ++ (bytes raps.node_id ++ replicate 25 0)))))

-- Into a buffer of at least 55 bytes the encoder writes the message, and keeps what is behind.
pub encode_fields-eq-append :
    (raps : Raps) (buf : List ℕ)
    → 55 ≤ length buf
    → encode_fields raps buf ≡ frame_of raps ++ drop 55 buf
unfolding encode_fields
encode_fields-eq-append raps buf h = rw (overlay-append (replicate 55 0) buf h)

pub length-encode_fields :
    (raps : Raps) (buf : List ℕ) → 55 ≤ length buf → length (encode_fields raps buf) ≡ length buf
length-encode_fields raps buf h =
    rw (encode_fields-eq-append raps buf h) (omega (arith, length-drop {0} 55 buf))

-- A buffer of just the size of the message holds the message.
pub encode_fields_exact :
    (raps : Raps) (buf : List ℕ) → length buf ≡ 55 → encode_fields raps buf ≡ frame_of raps
encode_fields_exact raps buf h =
    rw (encode_fields-eq-append raps buf (omega arith), drop_all 55 buf (omega arith))
      (append-nil (frame_of raps))
