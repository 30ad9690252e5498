-- ===== src/Service/Commands.antt =====
-- What the commands of service.rs change, and what they answer.
use Prim.Native.String.{String}
use emersia.Base.{
  ℕ, Bool, false, ◌||◌, Option, none, some, List, [], ◌∷◌, Result, ok, err, ◌≡◌, refl,
}
use emersia.Crypto.Primitives.{Primitives}
use emersia.Pairing.{PairingError, Device, PairingDb, revoke}
use emersia.Protocol
use emersia.Protocol.{
  StartArgs, PairArgs, PairAction, Command, Request, Response, success, failure, protocol_version,
}
use emersia.Service.{Inner, Service}
use emersia.Service.Handle.{
  Payload, handle_stop, handle_select, Call, revoke_reply, handle_revoke, handle_command, handle,
  decode_device_id, with_revoked,
}
use emersia.Service.Start.{can_start, handle_start-Answers}

-- The id of the request, and the version, that a reply carries.
abbrev pub label : Response Payload → ℕ × List ℕ
label (success r) = (r.v, r.id)
label (failure r) = (r.v, r.id)

-- Whether a stream is on after a command.
abbrev pub streams_after : Command → Inner → Bool
streams_after (Protocol.start args) inner = inner.streaming || can_start args inner
streams_after Protocol.stop inner = false
streams_after (Protocol.select args) inner = elim args.targets [
  | [] ↦ false
  | target ∷ targets ↦ inner.streaming
]
streams_after command inner = inner.streaming

handle_select-streaming :
    (id : List ℕ) (targets : List (List ℕ)) (inner : Inner)
    → (handle_select id targets inner).1.streaming
      ≡ elim targets [ [] ↦ false | target ∷ rest ↦ inner.streaming ]
unfolding handle_select
handle_select-streaming id [] inner = refl
handle_select-streaming id (target ∷ targets) inner = refl

with_revoked-streaming :
    (bytes : Option (List ℕ)) (inner : Inner)
    → (with_revoked bytes inner).streaming ≡ inner.streaming
with_revoked-streaming none inner = refl
with_revoked-streaming (some bytes) inner = refl

module _ (told : PairingError → String) (p : Primitives) (hex_encode trim : List ℕ → List ℕ) where
  revoke_reply-streaming :
      (id : List ℕ) (s : Service) (r : Result PairingError Device × PairingDb)
      → (revoke_reply told id s r).1.inner.streaming ≡ s.inner.streaming
  revoke_reply-streaming id s (ok device, db) =
      with_revoked-streaming (decode_device_id device.id) s.inner
  revoke_reply-streaming id s (err e, db) = refl

  handle_command-streaming :
      (call : Call) (id : List ℕ) (command : Command) (s : Service)
      → (handle_command told p hex_encode trim call id command s).1.inner.streaming
        ≡ streams_after command s.inner
  unfolding handle_command handle_stop handle_revoke
  handle_command-streaming call id Protocol.status s = refl
  handle_command-streaming call id Protocol.screens s = refl
  handle_command-streaming call id (Protocol.start args) s =
      (handle_start-Answers id args s.inner).1.0
  handle_command-streaming call id Protocol.stop s = refl
  handle_command-streaming call id Protocol.events s = refl
  handle_command-streaming call id (Protocol.pair args) s = refl
  handle_command-streaming call id Protocol.devices s = refl
  handle_command-streaming call id (Protocol.revoke args) s =
      revoke_reply-streaming id s (revoke call.around args.device s.pairing)
  handle_command-streaming call id (Protocol.select args) s =
      handle_select-streaming id args.targets s.inner
  handle_command-streaming call id Protocol.unknown s = refl

  -- A stream begins only by a `start` whose conditions hold and ends, of the requests, only by `stop`
  -- and by a `select` of nothing; every other request leaves it on or off.
  pub handle-streams_after :
      (call : Call) (req : Request) (s : Service)
      → (handle told p hex_encode trim call req s).1.inner.streaming
        ≡ streams_after req.command s.inner
  handle-streams_after call req s =
      unfold handle in handle_command-streaming call req.id req.command s
