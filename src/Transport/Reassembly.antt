-- ===== src/Transport/Reassembly.antt =====
-- Fragments of host/crates/emersia-daemon/src/transport/mod.rs: `payload_chunks`, `PendingFrame`
-- and `Reassembler` with its `push`.
pub mod Chunks
pub mod Valid
pub mod Fill
pub mod Delivery
use emersia.Base.{
  ℕ, suc, ◌+◌, ◌-◌, ◌<◌, ◌≤◌, Bool, true, false, not, ◌&&◌, ◌||◌, Option, none, some, List, [], ◌∷◌,
  ◌++◌, ltb, leb, ◌==◌, if◌then◌else◌, length, get_elem?, set, replicate, chunks, ◌≡◌,
}
use emersia.Transport.Record.{FrameHeader, frame_header_len}

abbrev pub record_mtu : ℕ
record_mtu = 1200

-- What is left of a datagram for the payload.
abbrev pub budget : ℕ
budget = record_mtu - frame_header_len

unfoldable pub payload_chunks : List ℕ → List (List ℕ)
payload_chunks payload = if leb (length payload) budget then payload ∷ [] else chunks budget payload

pub record PendingFrame : Type 0 where
  pub frame_sequence : ℕ
  pub frag_count : ℕ
  pub fragments : List (Option (List ℕ))
  pub received : ℕ

pub record Reassembler : Type 0 where
  pub current : Option PendingFrame

-- The current frame is the header's, with another number of fragments.
unfoldable pub clashes : Option PendingFrame → FrameHeader → Bool
clashes none h = false
clashes (some c) h = (c.frame_sequence == h.frame_sequence) && not (c.frag_count == h.frag_count)

abbrev pub new_frame : FrameHeader → PendingFrame
new_frame h = record {
  frame_sequence = h.frame_sequence;
  frag_count = h.frag_count;
  fragments = replicate h.frag_count none;
  received = 0;
}

-- The frame that the fragment goes to: the current one, or a new one in its place.
unfoldable pub ensure_frame : Option PendingFrame → FrameHeader → PendingFrame
ensure_frame none h = new_frame h
ensure_frame (some c) h = if c.frame_sequence == h.frame_sequence then c else new_frame h

-- `into_iter().flatten()` of the fragments, appended one after the other
abbrev pub concat_some : List (Option (List ℕ)) → List ℕ
concat_some [] = []
concat_some (none ∷ fs) = concat_some fs
concat_some (some f ∷ fs) = f ++ concat_some fs

-- A frame with one more fragment: it is taken when the last one lands.
unfoldable pub finish_if_complete : PendingFrame → Option (List ℕ) × Reassembler
finish_if_complete c =
    if ltb c.received c.frag_count
    then (none, record { current = some c })
    else (some (concat_some c.fragments), record { current = none })

-- An index out of range panics: that is the outer `none`.
unfoldable pub store : PendingFrame → ℕ → List ℕ → Option (Option (List ℕ) × Reassembler)
store c index payload = elim (get_elem? c.fragments index) [
  | none ↦ none
  | some slot ↦ elim slot [
    | some old ↦ some (none, record { current = some c })
    | none ↦ some (
        finish_if_complete (record c {
          fragments = set c.fragments index (some payload);
          received = c.received + 1;
        }))
  ]
]

unfoldable pub push : Reassembler → FrameHeader → List ℕ → Option (Option (List ℕ) × Reassembler)
push r h payload =
    if h.frag_count == 0 || leb h.frag_count h.frag_index
    then some (none, r)
    else if h.frag_count == 1
    then some (some payload, record { current = none })
    else if clashes r.current h
    then some (none, r)
    else store (ensure_frame r.current h) h.frag_index payload
