-- ===== src/Service/Replies.antt =====
-- The label of a reply of service.rs, and the state that a stream needs.
use Prim.Native.String.{String}
use emersia.Base.{
  ℕ, ◌≤◌, Bool, true, false, not, ◌||◌, Option, none, some, is_some, List, [], ◌∷◌, Bool-cases, inl,
  inr, Result, ok, err, ltb, ◌==◌, if◌then◌else◌, ◌≡◌, refl, sym, subst, arith,
}
use emersia.Crypto.Primitives.{Primitives}
use emersia.Pairing.{PairingError, Device, PairingDb, revoke, accept_code, new_code}
use emersia.Protocol
use emersia.Protocol.{
  StartArgs, PairArgs, PairAction, Command, Request, Response, success, failure, protocol_version,
}
use emersia.Service.{Inner, Service}
use emersia.Service.Handle.{
  Payload, of_stop, ok_response, err_response, chosen, is_offered, begun, begin_stream, with_fps,
  handle_start, handle_stop, handle_select, Call, revoke_reply, handle_revoke, code_reply,
  pair_reply, handle_accept, handle_pair, handle_devices, handle_command, handle, decode_device_id,
  with_revoked,
}
use emersia.Service.Start.{handle_start-busy, handle_start-unknown, handle_start-goes}
use emersia.Service.Commands.{label}

-- What a stream needs: a rate between 1 and 240, and an output while it is on.
abbrev pub IsServable : Inner → Type 0
IsServable inner =
    ((1 ≤ inner.fps_target) × (inner.fps_target ≤ 240))
    × (not inner.streaming || is_some inner.selected ≡ true)

-- A reply with the label, and a state that a stream can be served from.
abbrev IsGood : List ℕ → Response Payload × Inner → Type 0
IsGood id (response, inner) = (label response ≡ (protocol_version, id)) × IsServable inner

module _ (id : List ℕ) where
  begun-IsGood :
      (inner : Inner) (o : Option (List ℕ)) → IsServable inner → IsGood id (begun id inner o)
  begun-IsGood inner none g = (refl, g)
  begun-IsGood inner (some name) (fps, selected) = (refl, (fps, refl))

  with_fps-IsGood :
      (output : Option (List ℕ)) (fps : Option ℕ) (inner : Inner)
      → IsServable inner
      → IsGood id (with_fps id output fps inner)
  unfolding with_fps begin_stream
  with_fps-IsGood output none inner g = begun-IsGood inner (chosen output inner) g
  with_fps-IsGood output (some fps) inner (range, selected) =
      elim (Bool-cases ((fps == 0) || ltb 240 fps)) [
        | inl bad ↦ rw bad (refl, (range, selected))
        | inr fits ↦ rw fits (
            begun-IsGood (record inner { fps_target = fps }) (chosen output inner)
              (range_of fps fits, selected))
      ]
    where
      range_of : (n : ℕ) → (n == 0) || ltb 240 n ≡ false → (1 ≤ n) × (n ≤ 240)
      range_of n h = (ground (arith, h), ground (arith, h))

  handle_start-IsGood :
      (args : StartArgs) (inner : Inner) → IsServable inner → IsGood id (handle_start id args inner)
  handle_start-IsGood args inner g = elim (Bool-cases inner.streaming) [
    | inl on ↦ subst (IsGood id) (sym (handle_start-busy id args inner on)) (refl, g)
    | inr off ↦ elim (Bool-cases (is_offered args.output inner.outputs)) [
      | inr missing ↦
          subst (IsGood id) (sym (handle_start-unknown id args inner off missing)) (refl, g)
      | inl known ↦
          subst (IsGood id) (sym (handle_start-goes id args inner off known))
            (with_fps-IsGood args.output args.fps inner g)
    ]
  ]

  handle_stop-IsGood : (inner : Inner) → IsServable inner → IsGood id (handle_stop id inner)
  unfolding handle_stop
  handle_stop-IsGood inner (range, selected) = (labelled inner.streaming, (range, refl))
    where
      labelled :
          (on : Bool)
          → label (
              if on
              then ok_response id of_stop
              else err_response id Protocol.busy "not streaming; nothing to stop")
            ≡ (protocol_version, id)
      labelled true = refl
      labelled false = refl

  handle_select-IsGood :
      (targets : List (List ℕ)) (inner : Inner)
      → IsServable inner
      → IsGood id (handle_select id targets inner)
  unfolding handle_select
  handle_select-IsGood [] inner (range, selected) = (refl, (range, refl))
  handle_select-IsGood (target ∷ targets) inner g = (refl, g)

with_revoked-IsServable :
    (bytes : Option (List ℕ)) (inner : Inner)
    → IsServable inner
    → IsServable (with_revoked bytes inner)
with_revoked-IsServable none inner g = g
with_revoked-IsServable (some bytes) inner g = g

abbrev IsReply : List ℕ → Response Payload × Service → Type 0
IsReply id r = IsGood id (r.0, r.1.inner)

module _ (told : PairingError → String) (p : Primitives) (hex_encode trim : List ℕ → List ℕ)
    (id : List ℕ) where
  revoke_reply-IsReply :
      (s : Service) (r : Result PairingError Device × PairingDb)
      → IsServable s.inner
      → IsReply id (revoke_reply told id s r)
  revoke_reply-IsReply s (ok device, db) g =
      (refl, with_revoked-IsServable (decode_device_id device.id) s.inner g)
  revoke_reply-IsReply s (err e, db) g = (refl, g)

  code_reply-label :
      (r : Result PairingError (List ℕ)) → label (code_reply told id r) ≡ (protocol_version, id)
  code_reply-label (ok code) = refl
  code_reply-label (err e) = refl

  pair_reply-label :
      (r : Result PairingError Device) → label (pair_reply told id r) ≡ (protocol_version, id)
  pair_reply-label (ok device) = refl
  pair_reply-label (err e) = refl

  handle_accept-label :
      (call : Call) (code name key : Option (List ℕ)) (db : PairingDb)
      → label (handle_accept told p hex_encode trim call id code name key db).0
        ≡ (protocol_version, id)
  unfolding handle_accept
  handle_accept-label call (some code) (some name) (some key) db =
      pair_reply-label (accept_code p hex_encode trim call.around code name key db).0
  handle_accept-label call none name key db = refl
  handle_accept-label call (some code) none key db = refl
  handle_accept-label call (some code) (some name) none db = refl

  handle_pair-label :
      (call : Call) (action : PairAction) (code name key : Option (List ℕ)) (db : PairingDb)
      → label
          (handle_pair told p hex_encode trim call id
            (record { action = action; code = code; name = name; public_key = key })
            db).0
        ≡ (protocol_version, id)
  unfolding handle_pair
  handle_pair-label call Protocol.new code name key db =
      code_reply-label (new_code p hex_encode trim call.around db).0
  handle_pair-label call Protocol.accept code name key db =
      handle_accept-label call code name key db

  handle_command-IsReply :
      (call : Call) (command : Command) (s : Service)
      → IsServable s.inner
      → IsReply id (handle_command told p hex_encode trim call id command s)
  unfolding handle_command handle_revoke handle_devices
  handle_command-IsReply call Protocol.status s g = (refl, g)
  handle_command-IsReply call Protocol.screens s g = (refl, g)
  handle_command-IsReply call (Protocol.start args) s g = handle_start-IsGood id args s.inner g
  handle_command-IsReply call Protocol.stop s g = handle_stop-IsGood id s.inner g
  handle_command-IsReply call Protocol.events s g = (refl, g)
  handle_command-IsReply call (Protocol.pair args) s g =
      (handle_pair-label call args.action args.code args.name args.public_key s.pairing, g)
  handle_command-IsReply call Protocol.devices s g = (refl, g)
  handle_command-IsReply call (Protocol.revoke args) s g =
      revoke_reply-IsReply s (revoke call.around args.device s.pairing) g
  handle_command-IsReply call (Protocol.select args) s g =
      handle_select-IsGood id args.targets s.inner g
  handle_command-IsReply call Protocol.unknown s g = (refl, g)

module _ (told : PairingError → String) (p : Primitives) (hex_encode trim : List ℕ → List ℕ) where
  -- Every request is answered with its own id, and no request spoils what a stream needs: the rate
  -- asked for stays between 1 and 240, and while a stream is on an output is selected.
  pub handle-IsServable :
      (call : Call) (req : Request) (s : Service)
      → IsServable s.inner
      → let (response, s') = handle told p hex_encode trim call req s in
        (label response ≡ (protocol_version, req.id)) × IsServable s'.inner
  handle-IsServable call req s g =
      unfold handle in handle_command-IsReply told p hex_encode trim req.id call req.command s g
