-- ===== src/Tests/Endpoints.antt =====
-- The theorems about sending and receiving in transport/udp.rs at concrete inputs.
use emersia.Base.{ℕ, true, false, some, List, [], ◌∷◌, map, length, replicate, ok, ◌≡◌, refl, arith}
use emersia.Base.Words.{wrapping_add}
use emersia.Base.Assoc.{bytes_eq_eq, lookup}
use emersia.Crypto.Session.{Session}
use emersia.Crypto.Session.Keys.{HasKeys}
use emersia.Transport.Replay.{default}
use emersia.Transport.Reassembly.{payload_chunks}
use emersia.Transport.Handshake.{at_done}
use emersia.Transport.Host.{HostEndpoint, Peer, bind}
use emersia.Transport.Host.Send.{
  Wire, IsFit, next_frame, send_frame, AreOpened, send_frame-AreOpened,
}
use emersia.Transport.Client.{ClientEndpoint}
use emersia.Tests.Toy.{toy, toy-IsLawful}
use emersia.Tests.Handshake.{id, hs, client}

abbrev session : Session
session = record {
  host_to_device_keys = record { key = replicate 32 5 };
  device_to_host_keys = record { key = replicate 32 6 };
  salt = replicate 16 0;
}

session-HasKeys : HasKeys session
session-HasKeys = record { host_to_device_32 = refl; device_to_host_32 = refl }

abbrev peer : Peer
peer = record { addr = 77; session = session; window = default }

-- The sequence number is about to wrap.
abbrev host : HostEndpoint
host = record (bind hs) { peers = (id, peer) ∷ []; next_sequence = 4294967295 }

abbrev nonces : ℕ → List ℕ
nonces n = replicate 12 9

abbrev wire : Wire
wire = record { nonce = λ n. some (nonces n); send_fails = λ n. false }

abbrev payload : List ℕ
payload = 1 ∷ 2 ∷ 3 ∷ []

host-IsFit : IsFit (next_frame host 1000 true 2 payload)
unfolding payload_chunks
host-IsFit = record {
  payload_type_u8 = omega arith;
  frame_sequence_u32 = omega arith;
  timestamp_u32 = omega arith;
  frag_count_u16 = omega arith;
}

is_peer : lookup id host.peers ≡ some peer
unfolding lookup
is_peer = refl

nonce_given : (n : ℕ) → wire.nonce n ≡ some (nonces n)
nonce_given n = refl

nonce_12 : (n : ℕ) → length (nonces n) ≡ 12
nonce_12 n = refl

sends : (n : ℕ) → wire.send_fails n ≡ false
sends n = refl

send_frame-AreOpened_example :
    (packets : List (List ℕ)) × (st' : HostEndpoint) × (send_frame toy wire host id 1000 true 2
        payload
      ≡ (ok (length (payload_chunks payload)), st', map (λ packet. (77, packet)) packets))
    × AreOpened toy toy-IsLawful wire session session-HasKeys
        (next_frame host 1000 true 2 payload)
        host-IsFit
        nonces
        nonce_given
        nonce_12
        0
        (wrapping_add 4294967295 1)
        (payload_chunks payload)
        packets
send_frame-AreOpened_example =
    send_frame-AreOpened toy toy-IsLawful wire host id 1000 true 2 payload peer nonces nonce_given
      nonce_12 session-HasKeys host-IsFit is_peer sends

abbrev device : ClientEndpoint
device = record {
  handshake = some (record client { step = at_done });
  session = some session;
  window = default;
}

abbrev stray : List ℕ
stray = 16 ∷ 0 ∷ 0 ∷ 0 ∷ 7 ∷ 1 ∷ 2 ∷ []
