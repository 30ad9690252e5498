-- ===== src/Service.antt =====
-- host/crates/emersia-daemon/src/service.rs: the control-plane state `Inner` and `Service` with its
-- operations. The children have the requests and the engine's turn of the transport. A text is the
-- list of its code points, and an instant is a number of nanoseconds. Of the statistics only the
-- capture rate is here, a rate being frames over nanoseconds, of which the source takes the quotient
-- as a float. A lock is held for one operation at a time, so an operation is a function of the state.
pub mod Handle
pub mod Start
pub mod Engine
pub mod Replies
pub mod Commands
use emersia.Base.{
  ℕ, suc, ◌+◌, ◌-◌, ◌*◌, ◌^◌, ◌%◌, max, Bool, true, false, not, ◌&&◌, Option, none, some, List, [],
  ◌∷◌, ◌++◌, length, ltb, leb, ◌==◌, if◌then◌else◌,
}
use emersia.Pairing.{PairingDb}

abbrev pub default_fps : ℕ
default_fps = 30

-- Two seconds.
abbrev pub capture_rate_window : ℕ
capture_rate_window = 2 * 10 ^ 9

-- `kind` is always "output".
pub record ScreenInfo : Type 0 where
  pub name : List ℕ
  pub width : ℕ
  pub height : ℕ
  pub transform : List ℕ

abbrev pub Rate : Type 0
Rate = ℕ × ℕ

abbrev pub no_rate : Rate
no_rate = (0, 1)

pub record CaptureRateWindow : Type 0 where
  pub started : Option ℕ
  pub frames : ℕ
  pub latest_fps : Rate
  pub last_success : Option ℕ

-- `Default` and `reset`.
abbrev pub new_window : CaptureRateWindow
new_window = record { started = none; frames = 0; latest_fps = no_rate; last_success = none }

-- A full window gives its rate, and the frame begins the next.
unfoldable pub record_at : ℕ → CaptureRateWindow → CaptureRateWindow
record_at now w = elim w.started [
  | none ↦ record w { started = some now; frames = 1; last_success = some now }
  | some started ↦
      let elapsed = now - started in
      if leb capture_rate_window elapsed
      then record {
        started = some now;
        frames = 1;
        latest_fps =
            if ltb 0 w.frames && not (elapsed == 0) then (w.frames, elapsed) else w.latest_fps;
        last_success = some now;
      }
      else record w { frames = (w.frames + 1) % 2 ^ 64; last_success = some now }
]

unfoldable pub current_fps : ℕ → CaptureRateWindow → Rate
current_fps now w = elim w.last_success [
  | none ↦ no_rate
  | some last_success ↦
      if leb capture_rate_window (now - last_success) then no_rate else w.latest_fps
]

-- In nanoseconds.
unfoldable pub elapsed_ms : ℕ → CaptureRateWindow → ℕ
elapsed_ms now w = elim w.started [ none ↦ 0 | some started ↦ now - started ]

pub record Inner : Type 0 where
  pub streaming : Bool
  pub fps_target : ℕ
  pub selected : Option (List ℕ)
  pub outputs : List ScreenInfo
  pub backend : Option (List ℕ)
  pub capture_rate : CaptureRateWindow
  pub last_error : Option (List ℕ)
  pub stream_peers : ℕ
  pub revoked_pending : List (List ℕ)
  pub encoded_packets : ℕ
  pub encoder_name : Option (List ℕ)
  pub encoder_software : Bool
  pub encoder_frames_in : ℕ
  pub encoder_frames_out : ℕ
  pub encoder_frames_dropped : ℕ

pub record Service : Type 0 where
  pub inner : Inner
  pub shutdown : Bool
  pub pairing : PairingDb
  pub host_public_key : List ℕ

abbrev pub new_inner : Inner
new_inner = record {
  streaming = false;
  fps_target = default_fps;
  selected = none;
  outputs = [];
  backend = none;
  capture_rate = new_window;
  last_error = none;
  stream_peers = 0;
  revoked_pending = [];
  encoded_packets = 0;
  encoder_name = none;
  encoder_software = false;
  encoder_frames_in = 0;
  encoder_frames_out = 0;
  encoder_frames_dropped = 0;
}

abbrev pub new_service : PairingDb → List ℕ → Service
new_service pairing host_public_key_hex = record {
  inner = new_inner;
  shutdown = false;
  pairing = pairing;
  host_public_key = host_public_key_hex;
}

unfoldable pub record_encoded : ℕ → Service → Service
record_encoded count s = record s {
  inner = record s.inner { encoded_packets = (s.inner.encoded_packets + count) % 2 ^ 64 };
}

unfoldable pub set_encoder_with_drops : Option (List ℕ) → Bool → ℕ → ℕ → ℕ → Service → Service
set_encoder_with_drops name software frames_in frames_out frames_dropped s = record s {
  inner = record s.inner {
    encoder_name = name;
    encoder_software = software;
    encoder_frames_in = frames_in;
    encoder_frames_out = frames_out;
    encoder_frames_dropped = frames_dropped;
  };
}

unfoldable pub set_encoder : Option (List ℕ) → Bool → ℕ → ℕ → Service → Service
unfolding set_encoder_with_drops
set_encoder name software frames_in frames_out s =
    set_encoder_with_drops name software frames_in frames_out 0 s

unfoldable pub set_stream_peers : ℕ → Service → Service
set_stream_peers count s = record s { inner = record s.inner { stream_peers = count } }

-- `std::mem::take`
unfoldable pub take_revoked : Service → List (List ℕ) × Service
take_revoked s =
    (s.inner.revoked_pending, record s { inner = record s.inner { revoked_pending = [] } })

unfoldable pub publish_discovery : List ScreenInfo → Option (List ℕ) → Service → Service
publish_discovery outputs backend s = record s {
  inner = record s.inner { outputs = outputs; backend = backend };
}

unfoldable pub fps_target : Service → ℕ
fps_target s = max s.inner.fps_target 1

unfoldable pub set_selected_output : Option (List ℕ) → Service → Service
set_selected_output selected s = record s { inner = record s.inner { selected = selected } }

unfoldable pub set_error : List ℕ → Service → Service
set_error message s = record s { inner = record s.inner { last_error = some message } }

unfoldable pub clear_error : Service → Service
clear_error s = record s { inner = record s.inner { last_error = none } }

unfoldable pub request_shutdown : Service → Service
request_shutdown s = record s { shutdown = true }

-- Without the timings of the last capture.
unfoldable pub record_capture : ℕ → Service → Service
record_capture now s = record s {
  inner = record s.inner { capture_rate = record_at now s.inner.capture_rate };
}

unfoldable pub reset_capture_metrics : Service → Service
reset_capture_metrics s = record s { inner = record s.inner { capture_rate = new_window } }

unfoldable pub record_error : List ℕ → Service → Service
record_error message s = record s {
  inner = record s.inner { streaming = false; last_error = some message };
}
