-- ===== src/Service/Engine.antt =====
-- The engine's turn of the transport in `run_engine` of service.rs: the revoked devices are
-- disconnected, then datagrams are handled, with the store read at each decision, and the service is
-- told how many peers there are. The restart of the encoder for a new peer, and the capture and
-- encoding part of the loop, are left out.
pub mod Revoked
pub mod Restored
use Prim.Native.String.{String}
use emersia.Base.{
  ℕ, zero, suc, ◌+◌, ◌-◌, Bool, true, false, not, ◌&&◌, ◌||◌, Option, none, some, List, [], ◌∷◌,
  leb, if◌then◌else◌, bytes_eq, map, Result, ok, err,
}
use emersia.Crypto.Primitives.{Primitives}
use emersia.Pairing.{Device, PairingDb, devices}
use emersia.Transport.Host.{HostEndpoint, Authorizer, disconnect, peer_count}
use emersia.Transport.Host.Pump.{Turn, pump}
use emersia.Service.{Service, take_revoked, set_stream_peers}

abbrev pub to_ascii_lowercase : ℕ → ℕ
to_ascii_lowercase c = if leb b'A' c && leb c b'Z' then c + 32 else c

unfoldable pub eq_ignore_ascii_case : List ℕ → List ℕ → Bool
eq_ignore_ascii_case xs ys = bytes_eq (map to_ascii_lowercase xs) (map to_ascii_lowercase ys)

-- The test of one device on record.
abbrev pub admits : List ℕ → List ℕ → Device → Bool
admits got_id got_key d =
    bytes_eq d.id got_id && (eq_ignore_ascii_case d.public_key got_key && not d.revoked)

abbrev pub any_admits : List ℕ → List ℕ → List Device → Bool
any_admits got_id got_key [] = false
any_admits got_id got_key (d ∷ ds) = admits got_id got_key d || any_admits got_id got_key ds

-- `hex_encode` stands for `hex::encode`.
unfoldable pub allowed : (List ℕ → List ℕ) → PairingDb → Authorizer
allowed hex_encode db id pubkey = any_admits (hex_encode id) (hex_encode pubkey) (devices db)

unfoldable pub disconnect_each : List (List ℕ) → HostEndpoint → HostEndpoint
disconnect_each [] st = st
disconnect_each (id ∷ ids) st = disconnect_each ids (disconnect id st).1

-- The store as the n-th decision finds it is `stores n`.
abbrev pub with_stores : (List ℕ → List ℕ) → (ℕ → PairingDb) → (ℕ → Turn) → ℕ → Turn
with_stores hex_encode stores turns n = record (turns n) {
  authorized = allowed hex_encode (stores n);
}

abbrev pub pump_limit : ℕ
pump_limit = 16

abbrev pub counted :
    Service → Option (Result String ℕ × HostEndpoint) → Option (Service × HostEndpoint)
counted s none = none
counted s (some (result, st)) = some (set_stream_peers (peer_count st) s, st)

-- An error of `pump` is only printed. The outer `none` is a panic.
unfoldable pub stream_turn :
    Primitives
    → (List ℕ → List ℕ)
    → (ℕ → PairingDb)
    → (ℕ → Turn)
    → Service
    → HostEndpoint
    → Option (Service × HostEndpoint)
stream_turn p hex_encode stores turns s st =
    let (ids, s') = take_revoked s in
    counted s' (pump p (with_stores hex_encode stores turns) pump_limit 0 (disconnect_each ids st))
