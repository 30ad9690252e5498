-- ===== src/Service/Handle.antt =====
-- `Service::handle` of service.rs with the handlers of its commands, `status_payload` and
-- `pairing_error_code`. Messages leave out what they quote.
use Prim.Native.String.{String}
use emersia.Base.{
  ℕ, suc, ◌+◌, ◌-◌, ◌*◌, Bool, true, false, not, ◌&&◌, ◌||◌, Option, none, some, List, [], ◌∷◌,
  ◌++◌, length, ltb, leb, ◌==◌, if◌then◌else◌, map, bytes_eq, Result, ok, err,
}
use emersia.Crypto.Primitives.{Primitives}
use emersia.Crypto.Code.{display}
use emersia.Pairing.{
  PairingError, no_config_dir, io, corrupt, no_pending_code, wrong_code, too_many_attempts,
  not_found, invalid, Device, PairingDb, Circumstances, code_ttl, devices, active_devices, new_code,
  accept_code, revoke,
}
use emersia.Protocol
use emersia.Protocol.{
  ErrorCode, ErrorInfo, StartArgs, PairArgs, PairAction, DeviceInfo, Command, Request, Response,
  success, failure, protocol_version,
}
use emersia.Service.{ScreenInfo, Rate, Inner, Service, current_fps, elapsed_ms, new_window}

-- What `status` reports, without the timings.
pub record Status : Type 0 where
  pub streaming : Bool
  pub backend : Option (List ℕ)
  pub selected_output : Option (List ℕ)
  pub fps_target : ℕ
  pub capture_measured_fps : Rate
  pub capture_window_frames : ℕ
  pub capture_window_elapsed_ms : ℕ
  pub connected_devices : ℕ
  pub paired_devices : ℕ
  pub encoder : Option (List ℕ)
  pub encoder_software : Bool
  pub encoder_frames_in : ℕ
  pub encoder_frames_out : ℕ
  pub encoder_frames_dropped : ℕ
  pub encoded_packets : ℕ
  pub last_error : Option (List ℕ)
  pub version : ℕ
  pub host_public_key : List ℕ

-- The JSON values that the commands answer with, one constructor for each shape.
pub data Payload : Type 0 where
  of_status : Status → Payload
  of_screens : List ScreenInfo → Payload
  of_start : (output : List ℕ) (fps : ℕ) → Payload
  of_stop : Payload
  of_events : Status → Payload
  of_code : (code : List ℕ) (expires_in_s : ℕ) → Payload
  of_pairing : (device name : List ℕ) → Payload
  of_devices : (listed : List DeviceInfo) (active : ℕ) → Payload
  of_revoke : (device : List ℕ) → Payload
  of_select : Payload

abbrev pub ok_response : List ℕ → Payload → Response Payload
ok_response id payload = success (record { v = protocol_version; id = id; payload = payload })

abbrev pub err_response : List ℕ → ErrorCode → String → Response Payload
err_response id code message =
    failure
      (record { v = protocol_version; id = id; error = record { code = code; message = message } })

-- A hex digit's value.
unfoldable pub hex_digit : ℕ → Option ℕ
hex_digit c =
    if leb b'0' c && leb c b'9'
    then some (c - b'0')
    else if leb b'a' c && leb c b'f'
    then some (c - b'a' + 10)
    else if leb b'A' c && leb c b'F'
    then some (c - b'A' + 10)
    else none

-- `u8::from_str_radix` of two characters, in base 16; a plus sign may come first.
unfoldable pub hex_byte : ℕ → ℕ → Option ℕ
hex_byte high low = elim (hex_digit low) [
  | none ↦ none
  | some l ↦ elim (hex_digit high) [
    | some h ↦ some (h * 16 + l)
    | none ↦ if high == b'+' then some l else none
  ]
]

unfoldable pub hex_bytes : List ℕ → Option (List ℕ)
hex_bytes (high ∷ low ∷ rest) = elim (hex_byte high low) [
  | none ↦ none
  | some byte ↦ elim (hex_bytes rest) [ none ↦ none | some bytes ↦ some (byte ∷ bytes) ]
]
hex_bytes _ = some []

-- Of a text that is ASCII, as every id is that `derive_device_id` makes.
unfoldable pub decode_device_id : List ℕ → Option (List ℕ)
decode_device_id hex_str = if not (length hex_str == 16) then none else hex_bytes hex_str

unfoldable pub pairing_error_code : PairingError → ErrorCode
pairing_error_code wrong_code = Protocol.not_paired
pairing_error_code no_pending_code = Protocol.not_paired
pairing_error_code too_many_attempts = Protocol.not_paired
pairing_error_code (not_found id) = Protocol.not_found
pairing_error_code (invalid why) = Protocol.invalid_args
pairing_error_code (io why) = Protocol.internal
pairing_error_code (corrupt why) = Protocol.internal
pairing_error_code no_config_dir = Protocol.internal

-- `outputs.iter().any(|o| &o.name == want)`
unfoldable pub is_known : List ℕ → List ScreenInfo → Bool
is_known want [] = false
is_known want (o ∷ os) = bytes_eq o.name want || is_known want os

abbrev pub first_name : List ScreenInfo → Option (List ℕ)
first_name [] = none
first_name (o ∷ os) = some o.name

-- The output that the next capture takes: the one asked for, the one selected before, or the first.
abbrev pub pick : Option (List ℕ) → Option (List ℕ) → List ScreenInfo → Option (List ℕ)
pick (some want) selected outputs = some want
pick none (some name) outputs = some name
pick none none outputs = first_name outputs

abbrev pub chosen : Option (List ℕ) → Inner → Option (List ℕ)
chosen output inner = pick output inner.selected inner.outputs

abbrev pub is_offered : Option (List ℕ) → List ScreenInfo → Bool
is_offered none outputs = true
is_offered (some want) outputs = is_known want outputs

abbrev pub begun : List ℕ → Inner → Option (List ℕ) → Response Payload × Inner
begun id inner none =
    (err_response id Protocol.no_capture_backend "no outputs detected on this compositor", inner)
begun id inner (some name) = (
  ok_response id (of_start name inner.fps_target),
  record inner {
    selected = some name;
    capture_rate = new_window;
    streaming = true;
    last_error = none;
  },
)

-- What follows the checks of the arguments.
unfoldable pub begin_stream : List ℕ → Option (List ℕ) → Inner → Response Payload × Inner
begin_stream id output inner = begun id inner (chosen output inner)

-- A target is kept also when no output is found after it.
unfoldable pub with_fps : List ℕ → Option (List ℕ) → Option ℕ → Inner → Response Payload × Inner
unfolding begin_stream
with_fps id output none inner = begin_stream id output inner
with_fps id output (some fps) inner =
    if (fps == 0) || ltb 240 fps
    then (err_response id Protocol.invalid_args "fps must be 1..=240", inner)
    else begin_stream id output (record inner { fps_target = fps })

unfoldable pub handle_start : List ℕ → StartArgs → Inner → Response Payload × Inner
handle_start id args inner =
    if inner.streaming
    then (err_response id Protocol.busy "already streaming", inner)
    else if not (is_offered args.output inner.outputs)
    then (err_response id Protocol.not_found "no output of that name", inner)
    else with_fps id args.output args.fps inner

unfoldable pub handle_stop : List ℕ → Inner → Response Payload × Inner
handle_stop id inner = (
  if inner.streaming
      then ok_response id of_stop
      else err_response id Protocol.busy "not streaming; nothing to stop",
  record inner { streaming = false },
)

unfoldable pub handle_select : List ℕ → List (List ℕ) → Inner → Response Payload × Inner
handle_select id [] inner =
    (ok_response id of_select, record inner { streaming = false; selected = none })
handle_select id (target ∷ targets) inner = (
  err_response id Protocol.invalid_args
      "multi-target select is not implemented yet; use start --output",
  inner,
)

abbrev pub device_info : Device → DeviceInfo
device_info d = record { id = d.id; name = d.name; paired_at = d.paired_at; revoked = d.revoked }

abbrev pub count_active : List DeviceInfo → ℕ
count_active [] = 0
count_active (d ∷ ds) = if not d.revoked then suc (count_active ds) else count_active ds

unfoldable pub handle_devices : List ℕ → PairingDb → Response Payload
handle_devices id db =
    let listed = map device_info (devices db) in
    ok_response id (of_devices listed (count_active listed))

unfoldable pub status_payload : ℕ → Service → Status
status_payload now s = record {
  streaming = s.inner.streaming;
  backend = s.inner.backend;
  selected_output = s.inner.selected;
  fps_target = s.inner.fps_target;
  capture_measured_fps = current_fps now s.inner.capture_rate;
  capture_window_frames = s.inner.capture_rate.frames;
  capture_window_elapsed_ms = elapsed_ms now s.inner.capture_rate;
  connected_devices = s.inner.stream_peers;
  paired_devices = length (active_devices s.pairing);
  encoder = s.inner.encoder_name;
  encoder_software = s.inner.encoder_software;
  encoder_frames_in = s.inner.encoder_frames_in;
  encoder_frames_out = s.inner.encoder_frames_out;
  encoder_frames_dropped = s.inner.encoder_frames_dropped;
  encoded_packets = s.inner.encoded_packets;
  last_error = s.inner.last_error;
  version = protocol_version;
  host_public_key = s.host_public_key;
}

-- What a call meets: that of the store, and the clock's instant.
pub record Call : Type 0 where
  pub around : Circumstances
  pub instant : ℕ

abbrev pub on_inner : Service → Response Payload × Inner → Response Payload × Service
on_inner s (response, inner) = (response, record s { inner = inner })

abbrev pub with_revoked : Option (List ℕ) → Inner → Inner
with_revoked none inner = inner
with_revoked (some bytes) inner = record inner {
  revoked_pending = inner.revoked_pending ++ (bytes ∷ []);
}

-- `to_string` stands for the text of an error.
module _ (told : PairingError → String) where
  abbrev pub pairing_failure : List ℕ → PairingError → Response Payload
  pairing_failure id e = err_response id (pairing_error_code e) (told e)

  -- The device's id goes to the engine.
  abbrev pub revoke_reply :
      List ℕ → Service → Result PairingError Device × PairingDb → Response Payload × Service
  revoke_reply id s (ok device, db) = (
    ok_response id (of_revoke device.id),
    record s { pairing = db; inner = with_revoked (decode_device_id device.id) s.inner },
  )
  revoke_reply id s (err e, db) = (pairing_failure id e, record s { pairing = db })

  unfoldable pub handle_revoke : Call → List ℕ → List ℕ → Service → Response Payload × Service
  handle_revoke call id device s = revoke_reply id s (revoke call.around device s.pairing)

  abbrev pub code_reply : List ℕ → Result PairingError (List ℕ) → Response Payload
  code_reply id (ok code) = ok_response id (of_code (display code) code_ttl)
  code_reply id (err e) = pairing_failure id e

  abbrev pub pair_reply : List ℕ → Result PairingError Device → Response Payload
  pair_reply id (ok device) = ok_response id (of_pairing device.id device.name)
  pair_reply id (err e) = pairing_failure id e

  module _ (p : Primitives) (hex_encode trim : List ℕ → List ℕ) where
    unfoldable pub handle_accept :
        Call
        → List ℕ
        → Option (List ℕ)
        → Option (List ℕ)
        → Option (List ℕ)
        → PairingDb
        → Response Payload × PairingDb
    handle_accept call id (some code) (some name) (some key) db =
        let accepted = accept_code p hex_encode trim call.around code name key db in
        (pair_reply id accepted.0, accepted.1)
    handle_accept call id _ _ _ db = (
      err_response id Protocol.invalid_args
          "pair accept needs a code, a device name and a public key",
      db,
    )

    unfoldable pub handle_pair : Call → List ℕ → PairArgs → PairingDb → Response Payload × PairingDb
    handle_pair call id args db = elim args.action [
      | Protocol.new ↦
          let made = new_code p hex_encode trim call.around db in (code_reply id made.0, made.1)
      | Protocol.accept ↦ handle_accept call id args.code args.name args.public_key db
    ]

    abbrev pub on_pairing : Service → Response Payload × PairingDb → Response Payload × Service
    on_pairing s (response, db) = (response, record s { pairing = db })

    unfoldable pub handle_command : Call → List ℕ → Command → Service → Response Payload × Service
    handle_command call id Protocol.status s =
        (ok_response id (of_status (status_payload call.instant s)), s)
    handle_command call id Protocol.screens s = (ok_response id (of_screens s.inner.outputs), s)
    handle_command call id (Protocol.start args) s = on_inner s (handle_start id args s.inner)
    handle_command call id Protocol.stop s = on_inner s (handle_stop id s.inner)
    handle_command call id Protocol.events s =
        (ok_response id (of_events (status_payload call.instant s)), s)
    handle_command call id (Protocol.pair args) s =
        on_pairing s (handle_pair call id args s.pairing)
    handle_command call id Protocol.devices s = (handle_devices id s.pairing, s)
    handle_command call id (Protocol.revoke args) s = handle_revoke call id args.device s
    handle_command call id (Protocol.select args) s =
        on_inner s (handle_select id args.targets s.inner)
    handle_command call id Protocol.unknown s =
        (err_response id Protocol.unknown_cmd "unknown command", s)

    unfoldable pub handle : Call → Request → Service → Response Payload × Service
    unfolding handle_command
    handle call req s = handle_command call req.id req.command s
