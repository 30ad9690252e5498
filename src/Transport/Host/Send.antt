-- ===== src/Transport/Host/Send.antt =====
-- `HostEndpoint::send_frame` of transport/udp.rs. The nonce that the random source gives for the
-- n-th fragment, and whether sending it fails, are functions of n.
use emersia.Base.{
  ℕ, suc, ◌+◌, ◌<◌, ◌≤◌, ◌%◌, ◌^◌, Bool, true, false, Option, none, some, List, [], ◌∷◌, ◌++◌, map,
  length, All, All-map, ltb, lt→ltb, if◌then◌else◌, Result, ok, err, ◌>>=◌, ◌≡◌, refl, sym, ap,
  subst, ◌∙◌, arith,
}
use emersia.Base.Words.{wrapping_add}
use emersia.Base.Assoc.{bytes_eq_eq, lookup}
use emersia.Crypto.Primitives.{Primitives, IsLawful}
use emersia.Crypto.Aad.{host_to_device}
use emersia.Crypto.Session.{Session}
use emersia.Crypto.Session.Keys.{HasKeys}
use emersia.Transport.Types.{TransportError, payload_too_large, dropped}
use emersia.Transport.Record.{FrameHeader, record_header, to_bytes, build_record, IsWellFormed}
use emersia.Transport.Replay.{ReplayWindow, default, check, commit}
use emersia.Transport.Reassembly.{budget, payload_chunks}
use emersia.Transport.Reassembly.Chunks.{payload_chunks_bounds}
use emersia.Transport.Packet.{seal_packet, open_packet}
use emersia.Transport.Packet.RoundTrip.{open_packet-seal_packet}
use emersia.Transport.Host.{HostEndpoint, Peer}

pub record Wire : Type 0 where
  pub nonce : ℕ → Option (List ℕ)
  pub send_fails : ℕ → Bool

-- What all the records of one frame share.
pub record Shared : Type 0 where
  pub frame_sequence : ℕ
  pub timestamp : ℕ
  pub keyframe : Bool
  pub payload_type : ℕ
  pub frag_count : ℕ

abbrev pub header_of : Shared → ℕ → ℕ → List ℕ → FrameHeader
header_of f index sequence chunk =
    record_header sequence f.frame_sequence f.timestamp f.keyframe f.payload_type chunk
      (index % 2 ^ 16) f.frag_count

module _ (p : Primitives) (wire : Wire) (session : Session) (f : Shared) where
  unfoldable pub fragment_packet : ℕ → ℕ → List ℕ → Result TransportError (List ℕ)
  fragment_packet index sequence chunk =
      build_record sequence f.frame_sequence f.timestamp f.keyframe f.payload_type chunk
        (index % 2 ^ 16) f.frag_count
      >>= λ bytes. seal_packet p (wire.nonce index) session host_to_device sequence bytes

  -- How the loop ends, the next sequence number, and the packets that were sent.
  unfoldable pub send_fragments :
      ℕ → ℕ → List (List ℕ) → Result TransportError (Unit {0}) × ℕ × List (List ℕ)
  send_fragments index next [] = (ok tt, next, [])
  send_fragments index next (chunk ∷ rest) =
      let others = send_fragments (suc index) (wrapping_add next 1) rest in
      elim (fragment_packet index next chunk) [
        | err e ↦ (err e, wrapping_add next 1, [])
        | ok packet ↦
            if wire.send_fails index
            then (err (dropped "send failed"), wrapping_add next 1, [])
            else (others.0, others.1, packet ∷ others.2)
      ]

abbrev pub counted_as : ℕ → Result TransportError (Unit {0}) → Result TransportError ℕ
counted_as n (ok _) = ok n
counted_as n (err e) = err e

-- The answer, the endpoint, and the packets with the address that they are sent to.
unfoldable pub send_frame :
    Primitives
    → Wire
    → HostEndpoint
    → List ℕ
    → ℕ
    → Bool
    → ℕ
    → List ℕ
    → Result TransportError ℕ × HostEndpoint × List (ℕ × List ℕ)
send_frame p wire st device_id timestamp keyframe payload_type payload =
    elim (lookup device_id st.peers) [
      | none ↦ (err (dropped "no such peer"), st, [])
      | some peer ↦
          let chunks = payload_chunks payload in
          let shared : Shared = record {
            frame_sequence = st.next_sequence;
            timestamp = timestamp;
            keyframe = keyframe;
            payload_type = payload_type;
            frag_count = length chunks;
          } in
          let sent =
            send_fragments p wire peer.session shared 0 (wrapping_add st.next_sequence 1) chunks in
          if ltb (length chunks) (2 ^ 16)
          then (
            counted_as (length chunks) sent.0,
            record st { next_sequence = sent.1 },
            map (λ packet. (peer.addr, packet)) sent.2,
          )
          else (err (payload_too_large (length payload)), st, [])
    ]

-- The fields that a frame's records share fit their machine words.
pub record IsFit (f : Shared) : Type 0 where
  pub payload_type_u8 : f.payload_type < 256
  pub frame_sequence_u32 : f.frame_sequence < 2 ^ 32
  pub timestamp_u32 : f.timestamp < 2 ^ 32
  pub frag_count_u16 : f.frag_count < 2 ^ 16

wrapping_add-lt : (n : ℕ) → wrapping_add n 1 < 2 ^ 32
unfolding wrapping_add
wrapping_add-lt n = omega arith

module _ (p : Primitives) (lawful : IsLawful p) (wire : Wire) (session : Session)
    (keys : HasKeys session) (f : Shared) (fit : IsFit f) (nonces : ℕ → List ℕ)
    (given : (n : ℕ) → wire.nonce n ≡ some (nonces n))
    (random_12 : (n : ℕ) → length (nonces n) ≡ 12) where
  -- The packet is opened into the fragment's record by every window to which its number is fresh.
  abbrev pub Opens : ℕ → ℕ → List ℕ → List ℕ → Type 0
  Opens index sequence chunk packet =
      (w : ReplayWindow)
      → check w sequence ≡ true
      → open_packet p session host_to_device w packet
        ≡ (ok (header_of f index sequence chunk, chunk), (commit w sequence).1)

  header_of-IsWellFormed :
      (index sequence : ℕ) (chunk : List ℕ)
      → index < f.frag_count
      → sequence < 2 ^ 32
      → length chunk ≤ budget
      → IsWellFormed (header_of f index sequence chunk)
  header_of-IsWellFormed index sequence chunk within small sized = record {
    version_one = refl;
    payload_type_u8 = fit.payload_type_u8;
    sequence_u32 = small;
    frame_sequence_u32 = fit.frame_sequence_u32;
    timestamp_u32 = fit.timestamp_u32;
    payload_len_u16 = omega arith;
    frag_count_u16 = fit.frag_count_u16;
    frag_within = omega (arith, fit.frag_count_u16);
  }

  built :
      (index sequence : ℕ) (chunk : List ℕ)
      → length chunk ≤ budget
      → fragment_packet p wire session f index sequence chunk
        ≡ seal_packet p
            (some (nonces index))
            session
            host_to_device
            sequence
            (to_bytes (header_of f index sequence chunk) ++ chunk)
  unfolding fragment_packet build_record
  built index sequence chunk sized = rw (fits, given index)
    where
      fits : ltb (length chunk) (2 ^ 16) ≡ true
      fits = ground arith

  default-check : (sequence : ℕ) → check default sequence ≡ true
  unfolding check
  default-check sequence = refl

  ok_inj : (a b : List ℕ) → ◌≡◌ {A = Result TransportError (List ℕ)} (ok a) (ok b) → a ≡ b
  ok_inj a b e = cc

  fragment_packet-Opens :
      (index sequence : ℕ) (chunk : List ℕ)
      → index < f.frag_count
      → sequence < 2 ^ 32
      → length chunk ≤ budget
      → (packet : List ℕ) × (fragment_packet p wire session f index sequence chunk ≡ ok packet)
        × Opens index sequence chunk packet
  fragment_packet-Opens index sequence chunk within small sized =
      let h = header_of f index sequence chunk in
      let packets =
        open_packet-seal_packet p lawful session keys (nonces index) (random_12 index)
          host_to_device h chunk (header_of-IsWellFormed index sequence chunk within small sized)
          refl in
      let (packet, sealed, _) = packets default (default-check sequence) in
      (
        packet,
        built index sequence chunk sized ∙ sealed,
        λ w fresh.
            ap (open_packet p session host_to_device w)
              (ok_inj packet (packets w fresh).0 (sym sealed ∙ (packets w fresh).1))
            ∙ (packets w fresh).2,
      )

  -- The packets are those of the chunks, in order, under consecutive sequence numbers.
  abbrev pub AreOpened : ℕ → ℕ → List (List ℕ) → List (List ℕ) → Type 0
  AreOpened index sequence [] [] = Unit {0}
  AreOpened index sequence [] (packet ∷ packets) = ⊥
  AreOpened index sequence (chunk ∷ rest) [] = ⊥
  AreOpened index sequence (chunk ∷ rest) (packet ∷ packets) =
      Opens index sequence chunk packet
      × AreOpened (suc index) (wrapping_add sequence 1) rest packets

  send_fragments-sent :
      (index next : ℕ) (chunk : List ℕ) (rest : List (List ℕ)) (packet : List ℕ)
      → fragment_packet p wire session f index next chunk ≡ ok packet
      → wire.send_fails index ≡ false
      → let others = send_fragments p wire session f (suc index) (wrapping_add next 1) rest in
        send_fragments p wire session f index next (chunk ∷ rest)
        ≡ (others.0, others.1, packet ∷ others.2)
  unfolding send_fragments
  send_fragments-sent index next chunk rest packet e sends = rw (e, send_fragments) (rw sends)

  send_fragments-AreOpened :
      (index next : ℕ) (chunks : List (List ℕ))
      → ((n : ℕ) → wire.send_fails n ≡ false)
      → index + length chunks ≤ f.frag_count
      → next < 2 ^ 32
      → All (λ c. length c ≤ budget) chunks
      → ((send_fragments p wire session f index next chunks).0 ≡ ok tt)
        × AreOpened index next chunks (send_fragments p wire session f index next chunks).2
  unfolding send_fragments
  send_fragments-AreOpened index next [] sends within small sized = (refl, tt)
  send_fragments-AreOpened index next (chunk ∷ rest) sends within small sized =
      let (packet, e, opens) = fragment_packet-Opens index next chunk (omega arith) small sized.0 in
      let others =
        send_fragments-AreOpened (suc index) (wrapping_add next 1) rest sends (omega arith)
          (wrapping_add-lt next) sized.1 in
      let eq = send_fragments-sent index next chunk rest packet e (sends index) in
      (
        ap (λ o. o.0) eq ∙ others.0,
        subst (AreOpened index next (chunk ∷ rest)) (sym (ap (λ o. o.2) eq)) (opens, others.1),
      )

-- The records' shared fields of the frame that the endpoint sends next.
abbrev pub next_frame : HostEndpoint → ℕ → Bool → ℕ → List ℕ → Shared
next_frame st timestamp keyframe payload_type payload = record {
  frame_sequence = st.next_sequence;
  timestamp = timestamp;
  keyframe = keyframe;
  payload_type = payload_type;
  frag_count = length (payload_chunks payload);
}

chunks-sized : (payload : List ℕ) → All (λ c. length c ≤ budget) (payload_chunks payload)
chunks-sized payload =
    All-map (payload_chunks payload) (λ c h. h.1) (payload_chunks_bounds payload).1

send_frame-peer :
    (p : Primitives) (wire : Wire) (st : HostEndpoint) (device_id : List ℕ) (timestamp : ℕ)
    (keyframe : Bool) (payload_type : ℕ) (payload : List ℕ) (peer : Peer)
    → lookup device_id st.peers ≡ some peer
    → length (payload_chunks payload) < 2 ^ 16
    → let sent =
        send_fragments p wire peer.session
          (next_frame st timestamp keyframe payload_type payload)
          0
          (wrapping_add st.next_sequence 1)
          (payload_chunks payload) in
      send_frame p wire st device_id timestamp keyframe payload_type payload ≡ (
        counted_as (length (payload_chunks payload)) sent.0,
        record st { next_sequence = sent.1 },
        map (λ packet. (peer.addr, packet)) sent.2,
      )
unfolding send_frame
send_frame-peer p wire st device_id timestamp keyframe payload_type payload peer found small =
    rw (found, send_frame) (rw fits)
  where
    fits : ltb (length (payload_chunks payload)) (2 ^ 16) ≡ true
    fits = lt→ltb (length (payload_chunks payload)) (2 ^ 16) small

-- A frame for a peer is sent as one packet for each chunk of the payload, all to the peer's address,
-- if the random source and the socket do not fail and the words fit. The i-th packet is opened by
-- every window to which its number is fresh, into the i-th chunk under a header with the frame's
-- number, its index and the count; the numbers follow each other.
pub send_frame-AreOpened :
    (p : Primitives) (lawful : IsLawful p) (wire : Wire) (st : HostEndpoint) (device_id : List ℕ)
    (timestamp : ℕ) (keyframe : Bool) (payload_type : ℕ) (payload : List ℕ) (peer : Peer)
    (nonces : ℕ → List ℕ) (given : (n : ℕ) → wire.nonce n ≡ some (nonces n))
    (random_12 : (n : ℕ) → length (nonces n) ≡ 12) (keys : HasKeys peer.session)
    (fit : IsFit (next_frame st timestamp keyframe payload_type payload))
    → lookup device_id st.peers ≡ some peer
    → ((n : ℕ) → wire.send_fails n ≡ false)
    → (packets : List (List ℕ)) × (st' : HostEndpoint) × (send_frame p wire st device_id timestamp
          keyframe payload_type payload
        ≡ (ok (length (payload_chunks payload)), st', map (λ packet. (peer.addr, packet)) packets))
      × AreOpened p lawful wire peer.session keys
          (next_frame st timestamp keyframe payload_type payload)
          fit
          nonces
          given
          random_12
          0
          (wrapping_add st.next_sequence 1)
          (payload_chunks payload)
          packets
send_frame-AreOpened p lawful wire st device_id timestamp keyframe payload_type payload peer nonces
      given random_12 keys fit found sends =
    let f = next_frame st timestamp keyframe payload_type payload in
    let first = wrapping_add st.next_sequence 1 in
    let sent = send_fragments p wire peer.session f 0 first (payload_chunks payload) in
    let all_sent =
      send_fragments-AreOpened p lawful wire peer.session keys f fit nonces given random_12 0 first
        (payload_chunks payload) sends (omega arith) (wrapping_add-lt st.next_sequence)
        (chunks-sized payload) in
    (
      sent.2,
      record st { next_sequence = sent.1 },
      send_frame-peer p wire st device_id timestamp keyframe payload_type payload peer found
            fit.frag_count_u16
          ∙ ap
              (λ o. (
                counted_as (length (payload_chunks payload)) o,
                record st { next_sequence = sent.1 },
                map (λ packet. (peer.addr, packet)) sent.2,
              ))
              all_sent.0,
      all_sent.1,
    )
