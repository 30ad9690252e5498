-- ===== src/Transport/Record/RoundTrip.antt =====
-- Records of transport/mod.rs written and read back.
use emersia.Base.{
  ℕ, ◌+◌, ◌≤◌, ◌^◌, Bool, some, List, ◌++◌, ◌≡◌, refl, sym, length, slice?, slice?-append,
  length-slice?, get_or-lt, Option-cases, ◌↔◌, AreBytes, ok, err, arith, inl, inr,
}
use emersia.Base.Words.{of_be16-be16, of_be32-be32}
use emersia.Transport.Types.{payload_too_large}
use emersia.Transport.Record.{
  FrameHeader, IsWellFormed, to_bytes, from_bytes, build_record, parse_record, record_header,
  frame_header_len,
}

-- A header is read back from its bytes, whatever follows them.
pub from_bytes-to_bytes :
    (h : FrameHeader) (rest : List ℕ) → IsWellFormed h → from_bytes (to_bytes h ++ rest) ≡ some h
unfolding from_bytes to_bytes
from_bytes-to_bytes h rest v = ground (
  arith,
  of_be16-be16 h.payload_len,
  of_be16-be16 h.frag_index,
  of_be16-be16 h.frag_count,
  of_be32-be32 h.sequence,
  of_be32-be32 h.frame_sequence,
  of_be32-be32 h.timestamp,
)

pub length-to_bytes : (h : FrameHeader) → length (to_bytes h) ≡ frame_header_len
unfolding to_bytes
length-to_bytes h = refl

-- A well-formed header before a payload of the length that it states is parsed into the two.
pub parse_record-append :
    (h : FrameHeader) (payload : List ℕ)
    → IsWellFormed h
    → h.payload_len ≡ length payload
    → parse_record (to_bytes h ++ payload) ≡ ok (h, payload)
unfolding parse_record
parse_record-append h payload v e =
    let front =
      slice?-append (to_bytes h) payload frame_header_len (frame_header_len + h.payload_len)
        (sym (length-to_bytes h)) (omega arith) in
    rw (from_bytes-to_bytes h payload v) (rw front refl)

-- If the header of a record is well-formed, that is, its fields fit their widths and its fragment's
-- index is below the count of fragments, then the record is built, and it is parsed back into the
-- header and the payload.
pub parse_record-build_record :
    (sequence frame_sequence timestamp : ℕ) (keyframe : Bool) (payload_type : ℕ) (payload : List ℕ)
    (frag_index frag_count : ℕ)
    → IsWellFormed (
        record_header sequence frame_sequence timestamp keyframe payload_type payload frag_index
          frag_count)
    → (bytes : List ℕ) × (build_record sequence frame_sequence timestamp keyframe payload_type
          payload frag_index frag_count
        ≡ ok bytes)
      × (parse_record bytes
          ≡ ok (
            record_header sequence frame_sequence timestamp keyframe payload_type payload frag_index
                frag_count,
            payload,
          ))
unfolding build_record
parse_record-build_record s f t k p payload i n v =
    (to_bytes h ++ payload, ground arith, parse_record-append h payload v refl)
  where
    h : FrameHeader
    h = record_header s f t k p payload i n

-- `build_record` refuses exactly the payloads whose length does not fit 16 bits.
pub build_record_too_large :
    (sequence frame_sequence timestamp : ℕ) (keyframe : Bool) (payload_type : ℕ) (payload : List ℕ)
    (frag_index frag_count : ℕ)
    → (build_record sequence frame_sequence timestamp keyframe payload_type payload frag_index
          frag_count
        ≡ err (payload_too_large (length payload)))
      ↔ (2 ^ 16 ≤ length payload)
unfolding build_record
build_record_too_large s f t k p payload i n = ground arith

from_bytes-IsWellFormed :
    (bytes : List ℕ) (h : FrameHeader) → AreBytes bytes → from_bytes bytes ≡ some h → IsWellFormed h
unfolding from_bytes
from_bytes-IsWellFormed bytes h b e = ground (
  arith,
  get_or-lt bytes 2 b,
  get_or-lt bytes 4 b,
  get_or-lt bytes 5 b,
  get_or-lt bytes 6 b,
  get_or-lt bytes 7 b,
  get_or-lt bytes 8 b,
  get_or-lt bytes 9 b,
  get_or-lt bytes 10 b,
  get_or-lt bytes 11 b,
  get_or-lt bytes 12 b,
  get_or-lt bytes 13 b,
  get_or-lt bytes 14 b,
  get_or-lt bytes 15 b,
  get_or-lt bytes 16 b,
  get_or-lt bytes 17 b,
  get_or-lt bytes 18 b,
  get_or-lt bytes 19 b,
  get_or-lt bytes 20 b,
  get_or-lt bytes 21 b,
)

-- What `parse_record` accepts has a well-formed header, and a payload of the stated length that
-- lies within the record.
pub parse_record-IsWellFormed :
    (bytes payload : List ℕ) (h : FrameHeader)
    → AreBytes bytes
    → parse_record bytes ≡ ok (h, payload)
    → IsWellFormed h
      × (length payload ≡ h.payload_len)
      × (frame_header_len + length payload ≤ length bytes)
unfolding parse_record
parse_record-IsWellFormed bytes payload h b e = elim (Option-cases (from_bytes bytes)) [
  | inl n ↦ ground arith
  | inr (g, p) ↦
      elim (Option-cases (slice? bytes frame_header_len (frame_header_len + g.payload_len))) [
        | inl n ↦ ground arith
        | inr (q, s) ↦ ground (
          arith,
          from_bytes-IsWellFormed bytes g b p,
          length-slice? bytes frame_header_len (frame_header_len + g.payload_len) s,
        )
      ]
]
