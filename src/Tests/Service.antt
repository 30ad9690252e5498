-- ===== src/Tests/Service.antt =====
-- The theorems about service.rs at concrete inputs.
use Prim.Native.String.{String}
use emersia.Base.{
  ℕ, zero, suc, ◌+◌, ◌/◌, ◌%◌, true, false, Option, none, some, List, [], ◌∷◌, ◌++◌, ltb,
  if◌then◌else◌, Result, ok, err, ◌≡◌, refl, arith,
}
use emersia.Base.Assoc.{bytes_eq_eq, lookup}
use emersia.Base.Text.{codes}
use emersia.Pairing.{PairingError, Device, default_db, PairingDb, Circumstances}
use emersia.Protocol
use emersia.Protocol.{StartArgs, Request, Response}
use emersia.Transport.Host.{HostEndpoint}
use emersia.Transport.Host.Pump.{Turn, nothing_waiting}
use emersia.Transport.Host.Deny.{IsNoPeer}
use emersia.Service.{ScreenInfo, Service, new_service}
use emersia.Service.Handle.{
  Payload, Call, handle, handle_start, ok_response, of_revoke, decode_device_id,
}
use emersia.Service.Start.{Answers, handle_start-Answers}
use emersia.Service.Commands.{label, handle-streams_after}
use emersia.Service.Replies.{IsServable, handle-IsServable}
use emersia.Service.Engine.{stream_turn}
use emersia.Service.Engine.Revoked.{revoke_request, revoke-stream_turn}
use emersia.Tests.Toy.{toy}
use emersia.Tests.Host.{turns, denying, confirmed_host}

abbrev digit : ℕ → ℕ
digit d = if ltb d 10 then 48 + d else 87 + d

-- `hex::encode`
abbrev hex : List ℕ → List ℕ
hex [] = []
hex (b ∷ bs) = digit (b / 16) ∷ digit (b % 16) ∷ hex bs

abbrev same : List ℕ → List ℕ
same text = text

abbrev told : PairingError → String
told e = "error"

abbrev bytes : List ℕ
bytes = 1 ∷ 2 ∷ 3 ∷ 4 ∷ 5 ∷ 6 ∷ 7 ∷ 8 ∷ []

abbrev id : List ℕ
id = codes "0102030405060708"

abbrev device : Device
device = record {
  id = id;
  name = 65 ∷ [];
  public_key = [];
  paired_at = 1;
  revoked = false;
  revoked_at = none;
}

abbrev store : PairingDb
store = record { db = record default_db { devices = (id, device) ∷ [] }; file = none }

abbrev service : Service
service = new_service store []

abbrev screen : ScreenInfo
screen = record { name = codes "DP-1"; width = 1920; height = 1080; transform = codes "normal" }

abbrev with_screen : Service
with_screen = record service { inner = record service.inner { outputs = screen ∷ [] } }

abbrev call : Call
call = record {
  around = record { now = 5; save_error = none; code_bytes = []; salt = none };
  instant = 0;
}

abbrev start_args : StartArgs
start_args = record { output = none; fps = some 60 }

abbrev start_request : Request
start_request = record { v = 1; id = 55 ∷ []; command = Protocol.start start_args }

handle_start-Answers_example :
    Answers true start_args with_screen.inner (handle_start (55 ∷ []) start_args with_screen.inner)
handle_start-Answers_example = handle_start-Answers (55 ∷ []) start_args with_screen.inner

handle-streams_after_example :
    (handle told toy same same call start_request with_screen).1.inner.streaming ≡ true
handle-streams_after_example =
    handle-streams_after told toy same same call start_request with_screen

handle-IsServable_example :
    let (response, s') = handle told toy same same call start_request with_screen in
    (label response ≡ (1, 55 ∷ [])) × IsServable s'.inner
handle-IsServable_example =
    handle-IsServable told toy same same call start_request with_screen
      ((omega arith, omega arith), refl)

on_record : lookup id store.db.devices ≡ some device
unfolding lookup
on_record = refl

decoded : decode_device_id id ≡ some bytes
unfolding decode_device_id emersia.Service.Handle.hex_bytes emersia.Service.Handle.hex_byte
    emersia.Service.Handle.hex_digit
decoded = refl

abbrev revoked : Response Payload × Service
revoked = handle told toy hex same call (revoke_request 1 (56 ∷ []) id) service

abbrev one_turn : ℕ → Turn
one_turn zero = turns denying 0
one_turn (suc n) = record (turns denying n) { received = nothing_waiting }

-- The engine's turn, in which the device confirms once more.
abbrev turned : Option (Service × HostEndpoint)
turned = stream_turn toy hex (λ n. revoked.1.pairing) one_turn revoked.1 confirmed_host

abbrev out : Option (Service × HostEndpoint) → Service × HostEndpoint
out none = (service, confirmed_host)
out (some found) = found

turns_well : turned ≡ some (out turned)
unfolding stream_turn emersia.Transport.Host.Pump.pump emersia.Transport.Host.handle_packet
    emersia.Transport.Host.dispatch emersia.Transport.Host.prune_pending
    emersia.Service.Engine.disconnect_each emersia.Transport.Host.disconnect handle
    emersia.Service.Handle.handle_command emersia.Service.Handle.handle_revoke
    emersia.Pairing.revoke emersia.Service.take_revoked emersia.Base.Assoc.lookup
    emersia.Transport.Host.handle_confirm emersia.Base.Assoc.retain decode_device_id
    emersia.Service.Handle.hex_bytes emersia.Service.Handle.hex_byte
    emersia.Service.Handle.hex_digit
turns_well = refl

revoke-stream_turn_example :
    (revoked.0 ≡ ok_response (56 ∷ []) (of_revoke id))
    × (IsNoPeer bytes (out turned).1 × ((out turned).0.inner.revoked_pending ≡ []))
revoke-stream_turn_example =
    revoke-stream_turn told toy hex same call 1 (56 ∷ []) id bytes service device one_turn
      confirmed_host (out turned) on_record refl refl (refl, tt) refl decoded refl turns_well
