-- ===== src/Transport/Handshake/Agreement.antt =====
-- An undisturbed run of the handshake in transport/handshake.rs.
use emersia.Base.{
  ℕ, ◌<◌, ◌^◌, false, some, List, [], ◌∷◌, ◌++◌, append_assoc, length, length-append, take, drop,
  take-append, drop-append, ltb, bytes_eq_refl, ok, ◌≡◌, refl, sym, ap, ◌∙◌, arith,
}
use emersia.Base.Text.{codes}
use emersia.Crypto.Primitives.{Primitives, IsLawful}
use emersia.Crypto.Aad.{host_to_device, device_to_host}
use emersia.Crypto.Session.{Session, agree, all_zero, from_key_material, transcript}
use emersia.Crypto.Session.Keys.{HasKeys, from_key_material-HasKeys}
use emersia.Crypto.Seal.{seal, open_sealed}
use emersia.Crypto.Seal.RoundTrip.{open_sealed-seal}
use emersia.Transport.Types.PacketType
use emersia.Transport.Handshake.{
  HandshakeClient, InitOutcome, context, strip_type, new_client, new_server, at_init, at_response,
  HandshakeStep, master_key, key_session, init_body, init_keys, init, finish_response, finish,
  confirm, answer_init, accept_init, verify_confirm,
}
use emersia.Transport.Handshake.Schedule.{master_key-total, key_session-total}

-- The parts of an `init` behind its type byte.
module _ (id u v tag : List ℕ) (id_8 : length id ≡ 8) (u_32 : length u ≡ 32)
    (v_32 : length v ≡ 32) where
  abbrev bytes : List ℕ
  bytes = (id ++ (u ++ v)) ++ tag

  regroup : bytes ≡ id ++ (u ++ (v ++ tag))
  regroup = append_assoc id (u ++ v) tag ∙ ap (λ r. id ++ r) (append_assoc u v tag)

  head_id : take 8 bytes ≡ id
  head_id = ap (take 8) regroup ∙ take-append id (u ++ (v ++ tag)) 8 (sym id_8)

  after_id : drop 8 bytes ≡ u ++ (v ++ tag)
  after_id = ap (drop 8) regroup ∙ drop-append id (u ++ (v ++ tag)) 8 (sym id_8)

  head_static : take 32 (drop 8 bytes) ≡ u
  head_static = ap (take 32) after_id ∙ take-append u (v ++ tag) 32 (sym u_32)

  after_static : drop 40 bytes ≡ v ++ tag
  after_static =
      ap (drop 40) (regroup ∙ sym (append_assoc id u (v ++ tag)))
      ∙ drop-append (id ++ u) (v ++ tag) 40 (omega (arith, length-append id u))

  head_ephemeral : take 32 (drop 40 bytes) ≡ v
  head_ephemeral = ap (take 32) after_static ∙ take-append v tag 32 (sym v_32)

  length-header : length (id ++ (u ++ v)) ≡ 72
  length-header = omega (arith, length-append id (u ++ v), length-append u v)

  head_header : take 72 bytes ≡ id ++ (u ++ v)
  head_header = take-append (id ++ (u ++ v)) tag 72 (sym length-header)

  after_header : drop 72 bytes ≡ tag
  after_header = drop-append (id ++ (u ++ v)) tag 72 (sym length-header)

  header_fits : ltb (length bytes) 72 ≡ false
  header_fits = ground (arith, length-append (id ++ (u ++ v)) tag, length-header)

module _ (p : Primitives) (lawful : IsLawful p) (id ds de hs he n₁ n₂ n₃ : List ℕ)
    (id_8 : length id ≡ 8) (n₁_12 : length n₁ ≡ 12) (n₂_12 : length n₂ ≡ 12)
    (n₃_12 : length n₃ ≡ 12)
    (static_fits : all_zero (p.diffie_hellman ds (p.public_key hs)) ≡ false)
    (ephemeral_fits : all_zero (p.diffie_hellman de (p.public_key hs)) ≡ false)
    (session_fits : all_zero (p.diffie_hellman de (p.public_key he)) ≡ false) where
  abbrev client : HandshakeClient
  client = new_client id ds (p.public_key hs) de

  abbrev header : List ℕ
  header = id ++ (p.public_key ds ++ p.public_key de)

  abbrev salt₁ : List ℕ
  salt₁ = transcript p (header ∷ [])

  abbrev salt₂ : List ℕ
  salt₂ = transcript p (salt₁ ∷ p.public_key he ∷ [])

  abbrev dh_ds_hs : List ℕ
  dh_ds_hs = p.diffie_hellman ds (p.public_key hs)

  abbrev dh_de_hs : List ℕ
  dh_de_hs = p.diffie_hellman de (p.public_key hs)

  abbrev dh_de_he : List ℕ
  dh_de_he = p.diffie_hellman de (p.public_key he)

  agree_lem :
      (a b : List ℕ)
      → all_zero (p.diffie_hellman a b) ≡ false
      → agree p a b ≡ some (p.diffie_hellman a b)
  unfolding agree
  agree_lem a b e = rw e

  -- The other side of an exchange.
  agree_comm :
      (a b : List ℕ)
      → all_zero (p.diffie_hellman a (p.public_key b)) ≡ false
      → agree p b (p.public_key a) ≡ some (p.diffie_hellman a (p.public_key b))
  agree_comm a b e =
      let same = lawful.diffie_hellman_comm b a in
      agree_lem b (p.public_key a) (ap all_zero same ∙ e) ∙ ap some same

  init_keys-client :
      (st : HandshakeStep)
      → init_keys p (record client { step = st }) ≡ some (dh_ds_hs, dh_de_hs, salt₁)
  unfolding init_keys init_body
  init_keys-client st =
      rw (agree_lem ds (p.public_key hs) static_fits, init_keys)
        (rw (agree_lem de (p.public_key hs) ephemeral_fits))

  -- What the two sides compute in common.
  record Schedule : Type 0 where
    k₁ : List ℕ
    k₂ : List ℕ
    guard : Session
    session : Session
    k₁_lem : master_key p (dh_ds_hs ∷ dh_de_hs ∷ []) salt₁ (codes "k1") ≡ ok k₁
    guard_lem : key_session p k₁ salt₁ (codes "k1") ≡ ok guard
    guard_keys : HasKeys guard
    k₂_lem : master_key p (dh_de_he ∷ k₁ ∷ []) salt₂ (codes "k2") ≡ ok k₂
    session_lem : from_key_material p k₂ salt₂ context ≡ ok session
    session_keys : HasKeys session

  schedule : Schedule
  schedule =
      let (k₁, e₁) = master_key-total p lawful (dh_ds_hs ∷ dh_de_hs ∷ []) salt₁ (codes "k1") in
      let (guard, eg, kg) = key_session-total p lawful k₁ salt₁ (codes "k1") in
      let (k₂, e₂) = master_key-total p lawful (dh_de_he ∷ k₁ ∷ []) salt₂ (codes "k2") in
      let (session, es, ks) = from_key_material-HasKeys p lawful k₂ salt₂ context in
      record {
        k₁ = k₁;
        k₂ = k₂;
        guard = guard;
        session = session;
        k₁_lem = e₁;
        guard_lem = eg;
        guard_keys = kg;
        k₂_lem = e₂;
        session_lem = es;
        session_keys = ks;
      }

  module _ (t : Schedule) where
    init-client :
        (tag : List ℕ)
        → seal p (some n₁) t.guard device_to_host 1 id ≡ ok tag
        → init p (some n₁) client
          ≡ ok (PacketType.handshake_init ∷ (header ++ tag), record client { step = at_response })
    unfolding init init_body
    init-client tag e = rw (init_keys-client at_init) (rw t.k₁_lem (rw t.guard_lem (rw e)))

    abbrev outcome : List ℕ → InitOutcome
    outcome sealed = record {
      response = PacketType.handshake_response ∷ (p.public_key he ++ sealed);
      device_id = id;
      session = t.session;
    }

    answer_init-client :
        (tag sealed : List ℕ)
        → open_sealed p t.guard device_to_host 1 tag ≡ ok id
        → seal p (some n₂) t.guard host_to_device 1 id ≡ ok sealed
        → answer_init p (some he) (some n₂) hs (PacketType.handshake_init ∷ (header ++ tag))
          ≡ ok (outcome sealed)
    unfolding answer_init strip_type
    answer_init-client tag sealed opened e = rw (header_fits id u v tag id_8 u_32 v_32) (
        rw (head_static id u v tag id_8 u_32 v_32) (
          rw (agree_comm ds hs static_fits) (
            rw (head_ephemeral id u v tag id_8 u_32 v_32) (
              rw (agree_comm de hs ephemeral_fits) (
                rw (head_header id u v tag id_8 u_32 v_32) (
                  rw t.k₁_lem (
                    rw t.guard_lem (
                      rw (after_header id u v tag id_8 u_32 v_32) (
                        rw opened (
                          rw (head_id id u v tag id_8 u_32 v_32) (
                            rw (bytes_eq_refl id) (
                              rw (agree_comm de he session_fits)
                                (rw t.k₂_lem (rw t.session_lem (rw e)))))))))))))))
      where
        u : List ℕ
        u = p.public_key ds

        v : List ℕ
        v = p.public_key de

        u_32 : length u ≡ 32
        u_32 = lawful.length-public_key ds

        v_32 : length v ≡ 32
        v_32 = lawful.length-public_key de

    finish_response-client :
        (sealed : List ℕ)
        → open_sealed p t.guard host_to_device 1 sealed ≡ ok id
        → finish_response p (record client { step = at_response }) (outcome sealed).response
          ≡ ok t.session
    unfolding finish_response strip_type
    finish_response-client sealed opened = rw response_fits (
        rw (init_keys-client at_response) (
          rw t.k₁_lem (
            rw t.guard_lem (
              rw (drop-append (p.public_key he) sealed 32 (sym (lawful.length-public_key he))) (
                rw opened (
                  rw (bytes_eq_refl id) (
                    rw (take-append (p.public_key he) sealed 32 (sym (lawful.length-public_key he)))
                      (rw (agree_lem de (p.public_key he) session_fits)
                        (rw t.k₂_lem (rw t.session_lem))))))))))
      where
        response_fits : ltb (length (p.public_key he ++ sealed)) 32 ≡ false
        response_fits =
            ground (arith, length-append (p.public_key he) sealed, lawful.length-public_key he)

  -- Both sides end an undisturbed handshake with the same session: the host accepts the device's
  -- `init` under the device's id, the device accepts the response, and the host accepts the
  -- confirmation. This holds for any two long-term keys, ephemeral keys and nonces of the right
  -- sizes for which no key exchange gives the all-zero secret.
  pub handshake_agrees :
      (packet : List ℕ) × (waiting : HandshakeClient) × (out : InitOutcome) × (closing : List ℕ)
      × (init p (some n₁) client ≡ ok (packet, waiting))
      × ((accept_init p (some he) (some n₂) (new_server hs) packet).0 ≡ ok out)
      × (out.device_id ≡ id)
      × ((finish p waiting out.response).0 ≡ ok out.session)
      × (confirm p (some n₃) out.session ≡ ok closing)
      × (verify_confirm p out.session closing ≡ ok tt)
      × HasKeys out.session
  unfolding accept_init finish confirm verify_confirm strip_type
  handshake_agrees =
      let t = schedule in
      let small : length id < 2 ^ 32 = omega arith in
      let (tag, et, ot) =
        open_sealed-seal p lawful t.guard t.guard_keys n₁ n₁_12 device_to_host 1 id small in
      let (reply, er, or) =
        open_sealed-seal p lawful t.guard t.guard_keys n₂ n₂_12 host_to_device 1 id small in
      let (last, el, ol) =
        open_sealed-seal p lawful t.session t.session_keys n₃ n₃_12 device_to_host 1 []
          (omega arith) in
      (
        PacketType.handshake_init ∷ (header ++ tag),
        record client { step = at_response },
        outcome t reply,
        PacketType.handshake_confirm ∷ last,
        init-client t tag et,
        rw (answer_init-client t tag reply ot er),
        refl,
        finish_response-client t reply or,
        rw el,
        rw ol,
        t.session_keys,
      )
