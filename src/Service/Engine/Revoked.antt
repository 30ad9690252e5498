-- ===== src/Service/Engine/Revoked.antt =====
-- From a `revoke` request in service.rs to the end of the device's session.
use Prim.Native.String.{String}
use emersia.Base.{
  ℕ, true, false, ◌||◌, Option, none, some, some_inj, List, [], ◌∷◌, ◌++◌, map, bytes_eq,
  Bool-cases, Option-cases, inl, inr, ◌≡◌, refl, sym, ap, subst, ◌∙◌, arith,
}
use emersia.Base.Assoc.{bytes_eq_eq, lookup, remove, insert, lookup-remove_self, lookup-remove-none}
use emersia.Crypto.Primitives.{Primitives}
use emersia.Pairing.{PairingError, Device, DbFile, PairingDb, Circumstances, devices, revoked_now}
use emersia.Pairing.Revoke.{revoke_twice, struck}
use emersia.Protocol
use emersia.Protocol.{Request, Response}
use emersia.Transport.Host.{HostEndpoint, disconnect}
use emersia.Transport.Host.Pump.{Turn, pump, pump-keeps}
use emersia.Transport.Host.Deny.{IsDenied, IsNoPeer, IsNoPeer-IsKept}
use emersia.Service.{Service, take_revoked, set_stream_peers}
use emersia.Service.Handle.{
  Payload, Call, ok_response, of_revoke, decode_device_id, with_revoked, revoke_reply,
  handle_revoke, handle_command, handle,
}
use emersia.Service.Engine.{
  admits, any_admits, allowed, disconnect_each, with_stores, counted, pump_limit, stream_turn,
}

-- Each device is on record under its own id.
abbrev pub IsKeyed : List (List ℕ × Device) → Type 0
IsKeyed [] = Unit {0}
IsKeyed ((id, device) ∷ entries) = (device.id ≡ id) × IsKeyed entries

module _ (id key : List ℕ) where
  admits-other : (d : Device) → bytes_eq d.id id ≡ false → admits id key d ≡ false
  admits-other d e = simp (e)

  admits-revoked : (d : Device) → d.revoked ≡ true → admits id key d ≡ false
  admits-revoked d e = ground (arith, e)

  any_admits-removed :
      (m : List (List ℕ × Device))
      → IsKeyed m
      → any_admits id key (map (λ entry. entry.1) (remove id m)) ≡ false
  unfolding remove
  any_admits-removed [] k = refl
  any_admits-removed ((j, d) ∷ m) (same, keyed) = elim (Bool-cases (bytes_eq j id)) [
    | inl e ↦ simp (e, any_admits-removed m keyed)
    | inr e ↦
        simp (e, admits-other d (ap (λ i. bytes_eq i id) same ∙ e), any_admits-removed m keyed)
  ]

  -- A store in which the device of the id is revoked admits the id with no key.
  pub any_admits-struck :
      (around : Circumstances) (device : Device) (db : DbFile)
      → IsKeyed db.devices
      → any_admits id key (map (λ entry. entry.1) (struck around id device db).devices) ≡ false
  unfolding insert
  any_admits-struck around device db keyed =
      ap (λ b. b || any_admits id key (map (λ entry. entry.1) (remove id db.devices)))
        (admits-revoked (revoked_now around.now device) refl)
      ∙ any_admits-removed db.devices keyed

disconnect-IsNoPeer :
    (d e : List ℕ) (st : HostEndpoint) → IsNoPeer d st → IsNoPeer d (disconnect e st).1
unfolding disconnect
disconnect-IsNoPeer d e st n = lookup-remove-none d e st.peers n

disconnect_each-IsNoPeer :
    (d : List ℕ) (ids : List (List ℕ)) (st : HostEndpoint)
    → IsNoPeer d st
    → IsNoPeer d (disconnect_each ids st)
unfolding disconnect_each
disconnect_each-IsNoPeer d [] st n = n
disconnect_each-IsNoPeer d (e ∷ ids) st n =
    disconnect_each-IsNoPeer d ids (disconnect e st).1 (disconnect-IsNoPeer d e st n)

-- Of the devices that are disconnected none is a peer.
disconnect_each-last :
    (d : List ℕ) (ids : List (List ℕ)) (st : HostEndpoint)
    → IsNoPeer d (disconnect_each (ids ++ (d ∷ [])) st)
unfolding disconnect_each disconnect
disconnect_each-last d [] st = lookup-remove_self d st.peers
disconnect_each-last d (e ∷ ids) st = disconnect_each-last d ids (disconnect e st).1

-- The request.
abbrev pub revoke_request : ℕ → List ℕ → List ℕ → Request
revoke_request v rid id = record {
  v = v;
  id = rid;
  command = Protocol.revoke (record { device = id });
}

-- The service after the request: the store has the device as revoked, and its id waits.
abbrev pub after_revoke : Call → List ℕ → List ℕ → Device → Service → Service
after_revoke call id bytes device s =
    let db = struck call.around id device s.pairing.db in
    record s {
      pairing = record { db = db; file = some db };
      inner = with_revoked (some bytes) s.inner;
    }

module _ (told : PairingError → String) (p : Primitives) (hex_encode trim : List ℕ → List ℕ) where
  -- What the request does to a device on record that is active, as the store can be saved.
  handle-revoke :
      (call : Call) (v : ℕ) (rid id bytes : List ℕ) (s : Service) (device : Device)
      → lookup id s.pairing.db.devices ≡ some device
      → device.revoked ≡ false
      → device.id ≡ id
      → call.around.save_error ≡ none
      → decode_device_id id ≡ some bytes
      → handle told p hex_encode trim call (revoke_request v rid id) s
        ≡ (ok_response rid (of_revoke id), after_revoke call id bytes device s)
  unfolding handle handle_command handle_revoke
  handle-revoke call v rid id bytes s device there active same saved decoded =
      let db = struck call.around id device s.pairing.db in
      let reply : List ℕ → Option (List ℕ) → Response Payload × Service = λ i b. (
        ok_response rid (of_revoke i),
        record s { pairing = record { db = db; file = some db }; inner = with_revoked b s.inner },
      ) in
      ap (revoke_reply told rid s)
        (revoke_twice call.around call.around id s.pairing device there active saved).0
      ∙ ap (λ i. reply i (decode_device_id i)) same
      ∙ ap (reply id) decoded

  stream_turn-IsNoPeer :
      (stores : ℕ → PairingDb) (turns : ℕ → Turn) (s : Service) (st : HostEndpoint) (d : List ℕ)
      (before : List (List ℕ)) (out : Service × HostEndpoint)
      → s.inner.revoked_pending ≡ before ++ (d ∷ [])
      → ((n : ℕ) → IsDenied d (allowed hex_encode (stores n)))
      → stream_turn p hex_encode stores turns s st ≡ some out
      → IsNoPeer d out.1 × (out.0.inner.revoked_pending ≡ [])
  unfolding stream_turn set_stream_peers take_revoked
  stream_turn-IsNoPeer stores turns s st d before out pending denied e =
      let all = with_stores hex_encode stores turns in
      let start = disconnect_each s.inner.revoked_pending st in
      let gone : IsNoPeer d start =
        subst (λ ids. IsNoPeer d (disconnect_each ids st)) (sym pending)
          (disconnect_each-last d before st) in
      elim (Option-cases (pump p all pump_limit 0 start)) [
        | inl panicked ↦
            let other = sym (ap (counted (take_revoked s).1) panicked) ∙ e in
            absurd (ground (arith, other))
        | inr (r, ran) ↦
            let same = some_inj (sym (ap (counted (take_revoked s).1) ran) ∙ e) in
            (
              subst (IsNoPeer d) (ap (λ o. o.1) same) (
                  pump-keeps p all (IsDenied d) (IsNoPeer d) (IsNoPeer-IsKept p d) denied pump_limit
                    0 start r gone ran),
              sym (ap (λ o. o.0.inner.revoked_pending) same),
            )
      ]

  -- `revoke` of a device that is on record under its own id and active, with a store that can be
  -- saved and ids in hex, succeeds, and after the engine's next turn the device is no peer of the
  -- stream, whatever datagrams came in that turn, its own too; nothing waits to be disconnected.
  pub revoke-stream_turn :
      (call : Call) (v : ℕ) (rid id bytes : List ℕ) (s : Service) (device : Device)
      (turns : ℕ → Turn) (st : HostEndpoint) (out : Service × HostEndpoint)
      → lookup id s.pairing.db.devices ≡ some device
      → device.revoked ≡ false
      → device.id ≡ id
      → IsKeyed s.pairing.db.devices
      → call.around.save_error ≡ none
      → decode_device_id id ≡ some bytes
      → hex_encode bytes ≡ id
      → let (response, s') = handle told p hex_encode trim call (revoke_request v rid id) s in
        stream_turn p hex_encode (λ n. s'.pairing) turns s' st ≡ some out
        → (response ≡ ok_response rid (of_revoke id))
          × (IsNoPeer bytes out.1 × (out.0.inner.revoked_pending ≡ []))
  revoke-stream_turn call v rid id bytes s device turns st out there active same keyed saved decoded
        hexed e =
      let done = handle-revoke call v rid id bytes s device there active same saved decoded in
      let s' = after_revoke call id bytes device s in
      let denied : IsDenied bytes (allowed hex_encode s'.pairing) = λ key.
        unfold allowed devices in
        ap (λ i. any_admits i (hex_encode key) (devices s'.pairing)) hexed
        ∙ any_admits-struck id (hex_encode key) call.around device s.pairing.db keyed in
      (
        ap (λ r. r.0) done,
        stream_turn-IsNoPeer (λ n. s'.pairing) turns s' st bytes s.inner.revoked_pending out refl
            (λ n. denied)
            (subst (λ r. stream_turn p hex_encode (λ n. r.1.pairing) turns r.1 st ≡ some out) done
              e),
      )
