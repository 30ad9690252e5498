-- ===== src/Transport/Handshake.antt =====
-- host/crates/emersia-daemon/src/transport/handshake.rs: `HandshakeClient` with `init`, `finish`
-- and `confirm`, `HandshakeServer` with `accept_init`, and `verify_confirm`. An identity is its
-- secret scalar. What the random source gives is an argument of each call: the ephemeral secret and
-- the nonces. A panic, as of `expect`, is an error of its own.
pub mod Schedule
pub mod Claims
pub mod Agreement
use emersia.Base.{
  ℕ, ◌+◌, Bool, true, false, not, ◌&&◌, Option, none, some, List, [], ◌∷◌, ◌++◌, length, take, drop,
  concat, ltb, ◌==◌, if◌then◌else◌, bytes_eq, replicate, Result, ok, err, ok_or, map_err, ensure,
  ◌>>=◌, ◌>>◌,
}
use emersia.Base.Text.{codes}
use emersia.Crypto.Primitives.{Primitives}
use emersia.Crypto.Aad.{host_to_device, device_to_host}
use emersia.Crypto.Session.{Session, agree, from_key_material, transcript}
use emersia.Crypto.Seal.{seal, open_sealed}
use emersia.Transport.Types.PacketType
use emersia.Transport.Packet.{first_is}

abbrev pub context : List ℕ
context = codes "emersia/handshake-v1"

abbrev pub device_id_len : ℕ
device_id_len = 8

pub data HandshakeError : Type 0 where
  bad_init bad_response bad_confirm out_of_order not_the_host : HandshakeError

-- An error that is returned, or a panic.
pub data Failure : Type 0 where
  fails : HandshakeError → Failure
  panics : Failure

pub data HandshakeStep : Type 0 where
  at_init at_response at_done : HandshakeStep

abbrev pub is_init : HandshakeStep → Bool
is_init at_init = true
is_init _ = false

abbrev pub is_response : HandshakeStep → Bool
is_response at_response = true
is_response _ = false

unfoldable pub strip_type : List ℕ → ℕ → Option (List ℕ)
strip_type packet ty = if first_is packet ty then some (drop 1 packet) else none

pub record HandshakeClient : Type 0 where
  pub device_id : List ℕ
  pub static_identity : List ℕ
  pub host_static : List ℕ
  pub ephemeral : List ℕ
  pub step : HandshakeStep

-- `HandshakeClient::new`, with the ephemeral identity that it generates.
abbrev pub new_client : List ℕ → List ℕ → List ℕ → List ℕ → HandshakeClient
new_client device_id identity host_static ephemeral = record {
  device_id = device_id;
  static_identity = identity;
  host_static = host_static;
  ephemeral = ephemeral;
  step = at_init;
}

-- What the host learned from a valid `init`.
pub record InitOutcome : Type 0 where
  pub response : List ℕ
  pub device_id : List ℕ
  pub session : Session

pub record HandshakeServer : Type 0 where
  pub host_identity : List ℕ
  pub step : HandshakeStep
  pub device_id : List ℕ

abbrev pub new_server : List ℕ → HandshakeServer
new_server host_identity = record {
  host_identity = host_identity;
  step = at_init;
  device_id = replicate device_id_len 0;
}

module _ (p : Primitives) where
  unfoldable pub master_key : List (List ℕ) → List ℕ → List ℕ → Result Failure (List ℕ)
  master_key ikm_parts salt label =
      ok_or (p.hkdf salt (concat ikm_parts) (context ++ label) 32) panics

  unfoldable pub key_session : List ℕ → List ℕ → List ℕ → Result Failure Session
  key_session master salt label =
      map_err (from_key_material p master salt (context ++ label)) panics

  -- The clear body of `init`: the device id and the two public keys.
  unfoldable pub init_body : HandshakeClient → List ℕ
  init_body c = c.device_id ++ (p.public_key c.static_identity ++ p.public_key c.ephemeral)

  unfoldable pub init_keys : HandshakeClient → Option (List ℕ × List ℕ × List ℕ)
  init_keys c = elim (agree p c.static_identity c.host_static) [
    | none ↦ none
    | some dh_ds_hs ↦ elim (agree p c.ephemeral c.host_static) [
      | none ↦ none
      | some dh_de_hs ↦ some (dh_ds_hs, dh_de_hs, transcript p (init_body c ∷ []))
    ]
  ]

  unfoldable pub init :
      Option (List ℕ) → HandshakeClient → Result Failure (List ℕ × HandshakeClient)
  init entropy c = do
    ensure (is_init c.step) panics
    keys ← ok_or (init_keys c) panics
    k1 ← master_key (keys.0 ∷ keys.1 ∷ []) keys.2 (codes "k1")
    k1_session ← key_session k1 keys.2 (codes "k1")
    tag ← map_err (seal p entropy k1_session device_to_host 1 c.device_id) panics
    ok (PacketType.handshake_init ∷ (init_body c ++ tag), record c { step = at_response })

  -- The session that `finish` returns, in the right step.
  unfoldable pub finish_response : HandshakeClient → List ℕ → Result Failure Session
  finish_response c response = do
    packet ← ok_or (strip_type response PacketType.handshake_response) (fails bad_response)
    ensure (not (ltb (length packet) 32)) (fails bad_response)
    let host_eph = take 32 packet
    let tag = drop 32 packet
    keys ← ok_or (init_keys c) (fails not_the_host)
    k1 ← master_key (keys.0 ∷ keys.1 ∷ []) keys.2 (codes "k1")
    k1_session ← key_session k1 keys.2 (codes "k1")
    opened ← map_err (open_sealed p k1_session host_to_device 1 tag) (fails not_the_host)
    ensure (bytes_eq opened c.device_id) (fails not_the_host)
    dh_de_he ← ok_or (agree p c.ephemeral host_eph) (fails bad_response)
    let salt2 = transcript p (keys.2 ∷ host_eph ∷ [])
    k2 ← master_key (dh_de_he ∷ k1 ∷ []) salt2 (codes "k2")
    map_err (from_key_material p k2 salt2 context) (fails bad_response)

  -- The step is over once a response is looked at, whatever comes of it.
  unfoldable pub finish : HandshakeClient → List ℕ → Result Failure Session × HandshakeClient
  finish c response =
      if not (is_response c.step)
      then (err (fails out_of_order), c)
      else (finish_response c response, record c { step = at_done })

  unfoldable pub confirm : Option (List ℕ) → Session → Result Failure (List ℕ)
  confirm entropy session = do
    sealed ← map_err (seal p entropy session device_to_host 1 []) panics
    ok (PacketType.handshake_confirm ∷ sealed)

  -- The outcome of an `init` in the right step; `ephemeral` and `entropy` are what the random source
  -- gives.
  unfoldable pub answer_init :
      Option (List ℕ) → Option (List ℕ) → List ℕ → List ℕ → Result Failure InitOutcome
  answer_init ephemeral entropy host_identity packet = do
    body ← ok_or (strip_type packet PacketType.handshake_init) (fails bad_init)
    ensure (not (ltb (length body) (device_id_len + 64))) (fails bad_init)
    let header_len = device_id_len + 64
    let device_id = take device_id_len body
    let device_static = take 32 (drop device_id_len body)
    let device_eph = take 32 (drop (device_id_len + 32) body)
    let tag = drop header_len body
    dh_ds_hs ← ok_or (agree p host_identity device_static) (fails bad_init)
    dh_de_hs ← ok_or (agree p host_identity device_eph) (fails bad_init)
    let salt1 = transcript p (take header_len body ∷ [])
    k1 ← master_key (dh_ds_hs ∷ dh_de_hs ∷ []) salt1 (codes "k1")
    k1_session ← key_session k1 salt1 (codes "k1")
    opened ← map_err (open_sealed p k1_session device_to_host 1 tag) (fails bad_init)
    ensure (bytes_eq opened device_id) (fails bad_init)
    secret ← ok_or ephemeral panics
    dh_de_he ← ok_or (agree p secret device_eph) (fails bad_init)
    let host_eph = p.public_key secret
    let salt2 = transcript p (salt1 ∷ host_eph ∷ [])
    k2 ← master_key (dh_de_he ∷ k1 ∷ []) salt2 (codes "k2")
    session ← map_err (from_key_material p k2 salt2 context) (fails bad_init)
    sealed ← map_err (seal p entropy k1_session host_to_device 1 device_id) (fails bad_init)
    ok (record {
      response = PacketType.handshake_response ∷ (host_eph ++ sealed);
      device_id = device_id;
      session = session;
    })

  -- The step moves on only on success.
  unfoldable pub accept_init :
      Option (List ℕ)
      → Option (List ℕ)
      → HandshakeServer
      → List ℕ
      → Result Failure InitOutcome × HandshakeServer
  accept_init ephemeral entropy s packet =
      if not (is_init s.step)
      then (err (fails out_of_order), s)
      else elim (answer_init ephemeral entropy s.host_identity packet) [
        | err e ↦ (err e, s)
        | ok outcome ↦ (ok outcome, record s { step = at_response; device_id = outcome.device_id })
      ]

  unfoldable pub verify_confirm : Session → List ℕ → Result HandshakeError (Unit {0})
  verify_confirm session packet = do
    tag ← ok_or (strip_type packet PacketType.handshake_confirm) bad_confirm
    opened ← map_err (open_sealed p session device_to_host 1 tag) bad_confirm
    ok tt
