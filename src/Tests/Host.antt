-- ===== src/Tests/Host.antt =====
-- The theorems about transport/udp.rs at concrete inputs.
use Prim.Native.String.{String}
use emersia.Base.{
  ℕ, ◌≤◌, false, ◌&&◌, Option, none, some, List, [], ◌∷◌, ◌++◌, replicate, bytes_eq, Result, ok,
  ◌≡◌, refl, arith,
}
use emersia.Base.Assoc.{
  nat_eq, bytes_eq_eq, lookup, remove, insert, retain, count_values, occurrences,
}
use emersia.Crypto.Session.{Session}
use emersia.Transport.Replay.{default}
use emersia.Transport.Types.PacketType
use emersia.Transport.Handshake.{strip_type}
use emersia.Transport.Host.{
  HostOutcome, silent, reply, Peer, Pending, HostEndpoint, Authorizer, Surroundings, is_of, bind,
  max_pending_handshakes, max_pending_handshakes_per_device, device_id_of, disconnect,
  handle_packet,
}
use emersia.Transport.Host.Steps.{pruned_twice}
use emersia.Transport.Host.Bounds.{IsBounded, share}
use emersia.Transport.Host.Share.{
  ReplacesOwn, Displaces, handle_packet-share, handle_packet-displaced,
}
use emersia.Transport.Host.Confirm.{Confirms, handle_packet-Confirms}
use emersia.Transport.Host.Pump.{Turn, datagram, pump, pump-IsBounded}
use emersia.Transport.Host.Deny.{
  IsAuthorized, IsNoPeer, handle_packet-IsAuthorized, pump-disconnect,
}
use emersia.Tests.Toy.{toy}
use emersia.Tests.Handshake.{id, ds, hs, he}

abbrev session : Session
session = record {
  host_to_device_keys = record { key = replicate 32 5 };
  device_to_host_keys = record { key = replicate 32 6 };
  salt = replicate 16 0;
}

abbrev around : Surroundings
around = record {
  arrived = 100;
  handled = 101;
  created = 102;
  ephemeral = some he;
  nonce = some (replicate 12 2);
}

-- Only the test's device is trusted.
abbrev trusting : Authorizer
trusting device_id key = bytes_eq device_id id && bytes_eq key (toy.public_key ds)

abbrev pub denying : Authorizer
denying device_id key = false

abbrev waiting : Pending
waiting = record {
  device_id = id;
  device_static = toy.public_key ds;
  session = session;
  created_at = 90;
}

-- A handshake of the device is pending at the address 77.
abbrev host : HostEndpoint
host = record (bind hs) { pending = (77, waiting) ∷ [] }

-- The packet that confirms it, under the test's cipher.
abbrev confirmation : List ℕ
confirmation =
    3
    ∷ (replicate 12 9
        ++ (replicate 32 6 ++ (replicate 12 9 ++ (1 ∷ 0 ∷ 0 ∷ 0 ∷ 0 ∷ 0 ∷ 0 ∷ 0 ∷ 1 ∷ []))))

abbrev peer : Peer
peer = record { addr = 77; session = session; window = default }

abbrev pub confirmed_host : HostEndpoint
confirmed_host = record (bind hs) { peers = (id, peer) ∷ [] }

confirms : handle_packet toy around trusting host confirmation 77 ≡ some (silent, confirmed_host)
unfolding handle_packet emersia.Transport.Host.dispatch emersia.Transport.Host.prune_pending retain
    emersia.Transport.Host.handle_confirm lookup emersia.Transport.Host.confirm_pending
    emersia.Transport.Handshake.verify_confirm strip_type emersia.Crypto.Seal.open_sealed
    emersia.Crypto.Session.keys_for emersia.Crypto.Aad.build_aad insert remove
confirms = refl

no_peer : lookup id host.peers ≡ none
unfolding lookup
no_peer = refl

is_peer : lookup id confirmed_host.peers ≡ some peer
unfolding lookup
is_peer = refl

handle_packet-Confirms_example : Confirms toy around trusting host confirmation 77 id peer
handle_packet-Confirms_example =
    handle_packet-Confirms toy around trusting host confirmation 77 (silent, confirmed_host) id peer
      no_peer confirms is_peer

-- What the device of the test sends at first, behind the type byte.
abbrev init_bytes : List ℕ
init_bytes =
    id
    ++ (replicate 32 12
        ++ (replicate 32 14
            ++ (replicate 12 1
                ++ (replicate 32 187
                    ++ (replicate 12 1 ++ (1 ∷ 0 ∷ 0 ∷ 0 ∷ 0 ∷ 0 ∷ 0 ∷ 0 ∷ 1 ∷ id))))))

abbrev init_packet : List ℕ
init_packet = 1 ∷ init_bytes

-- The response and the state that handling a packet gives, where it answers.
abbrev answer : Option (HostOutcome × HostEndpoint) → List ℕ × HostEndpoint
answer (some (reply response, st)) = (response, st)
answer _ = ([], bind hs)

abbrev answered : HostEndpoint → List ℕ × HostEndpoint
answered st = answer (handle_packet toy around trusting st init_packet 77)

-- Another device's handshake is pending at the same address.
abbrev other : Pending
other = record waiting { device_id = 9 ∷ 9 ∷ 9 ∷ 9 ∷ 9 ∷ 9 ∷ 9 ∷ 9 ∷ [] }

abbrev occupied : HostEndpoint
occupied = record (bind hs) { pending = (77, other) ∷ [] }

answers :
    handle_packet toy around trusting (bind hs) init_packet 77
    ≡ some (reply (answered (bind hs)).0, (answered (bind hs)).1)
unfolding handle_packet emersia.Transport.Host.dispatch emersia.Transport.Host.prune_pending retain
    lookup remove insert count_values emersia.Transport.Host.handle_init
    emersia.Transport.Host.admit_body emersia.Transport.Host.over_budget
    emersia.Transport.Host.admit emersia.Transport.Handshake.accept_init
    emersia.Transport.Handshake.answer_init strip_type emersia.Crypto.Session.agree
    emersia.Crypto.Session.transcript emersia.Crypto.Session.transcript_input
    emersia.Transport.Handshake.master_key emersia.Transport.Handshake.key_session
    emersia.Crypto.Session.from_key_material emersia.Crypto.Session.expand emersia.Crypto.Seal.seal
    emersia.Crypto.Seal.open_sealed emersia.Crypto.Session.keys_for emersia.Crypto.Aad.build_aad
answers = refl

displaces :
    handle_packet toy around trusting occupied init_packet 77
    ≡ some (reply (answered occupied).0, (answered occupied).1)
unfolding handle_packet emersia.Transport.Host.dispatch emersia.Transport.Host.prune_pending retain
    lookup remove insert count_values emersia.Transport.Host.handle_init
    emersia.Transport.Host.admit_body emersia.Transport.Host.over_budget
    emersia.Transport.Host.admit emersia.Transport.Handshake.accept_init
    emersia.Transport.Handshake.answer_init strip_type emersia.Crypto.Session.agree
    emersia.Crypto.Session.transcript emersia.Crypto.Session.transcript_input
    emersia.Transport.Handshake.master_key emersia.Transport.Handshake.key_session
    emersia.Crypto.Session.from_key_material emersia.Crypto.Session.expand emersia.Crypto.Seal.seal
    emersia.Crypto.Seal.open_sealed emersia.Crypto.Session.keys_for emersia.Crypto.Aad.build_aad
displaces = refl

handle_packet-IsAuthorized_example : IsAuthorized trusting init_packet
handle_packet-IsAuthorized_example =
    handle_packet-IsAuthorized toy around trusting (bind hs) init_packet 77 (answered (bind hs)).0
      (answered (bind hs)).1 answers

none_pending :
    ReplacesOwn toy around trusting
      (bind hs)
      init_packet
      77
      (reply (answered (bind hs)).0, (answered (bind hs)).1)
unfolding emersia.Transport.Host.prune_pending retain lookup
none_pending body q s l = absurd (ground arith)

no_share : share id (bind hs) ≤ max_pending_handshakes_per_device
unfolding count_values
no_share = omega arith

handle_packet-share_example : share id (answered (bind hs)).1 ≤ max_pending_handshakes_per_device
handle_packet-share_example =
    handle_packet-share toy around trusting (bind hs) init_packet 77
      (reply (answered (bind hs)).0, (answered (bind hs)).1) id none_pending no_share answers

stripped : strip_type init_packet PacketType.handshake_init ≡ some init_bytes
unfolding strip_type
stripped = refl

found : lookup 77 (pruned_twice toy around trusting occupied init_packet 77).pending ≡ some other
unfolding emersia.Transport.Host.prune_pending retain lookup
found = refl

found_once : occurrences 77 (pruned_twice toy around trusting occupied init_packet 77).pending ≡ 1
unfolding emersia.Transport.Host.prune_pending retain occurrences
found_once = refl

handle_packet-displaced_example :
    Displaces toy around trusting occupied init_packet 77
      (answered occupied).0
      (answered occupied).1
      id
      other
      (answered occupied).1
handle_packet-displaced_example =
    handle_packet-displaced toy around trusting occupied init_packet 77 (answered occupied).0
      (answered occupied).1 id other init_bytes stripped refl found found_once refl displaces

abbrev pub turns : Authorizer → ℕ → Turn
turns authorized n = record {
  now = 95;
  received = datagram confirmation 77;
  around = around;
  authorized = authorized;
  send_error = none;
}

abbrev after_pump : Option (Result String ℕ × HostEndpoint) → Result String ℕ × HostEndpoint
after_pump none = (ok 0, bind hs)
after_pump (some out) = out

pumped_denied :
    pump toy (turns denying) 1 0 (disconnect id host).1
    ≡ some (after_pump (pump toy (turns denying) 1 0 (disconnect id host).1))
unfolding pump disconnect handle_packet emersia.Transport.Host.dispatch
    emersia.Transport.Host.prune_pending retain emersia.Transport.Host.handle_confirm lookup
pumped_denied = refl

pump-disconnect_example :
    IsNoPeer id (after_pump (pump toy (turns denying) 1 0 (disconnect id host).1)).1
pump-disconnect_example =
    pump-disconnect toy (turns denying) id 1 0 host
      (after_pump (pump toy (turns denying) 1 0 (disconnect id host).1)) (λ n key. refl)
      pumped_denied

pumped : pump toy (turns trusting) 1 0 host ≡ some (ok 1, confirmed_host)
unfolding pump handle_packet emersia.Transport.Host.dispatch emersia.Transport.Host.prune_pending
    retain emersia.Transport.Host.handle_confirm lookup emersia.Transport.Host.confirm_pending
    emersia.Transport.Handshake.verify_confirm strip_type emersia.Crypto.Seal.open_sealed
    emersia.Crypto.Session.keys_for emersia.Crypto.Aad.build_aad insert remove
pumped = refl

pump-IsBounded_example : IsBounded confirmed_host
pump-IsBounded_example =
    pump-IsBounded toy (turns trusting) 1 0 host (ok 1, confirmed_host) (omega arith) pumped
