-- ===== src/Transport/Host/Steps.antt =====
-- What handling one datagram in transport/udp.rs can come to, with what was checked on the way.
use emersia.Base.{
  ℕ, ◌+◌, true, false, none, some, List, [], ◌∷◌, length, ltb, ◌==◌, ok, err, Result-cases, ◌≡◌,
  sym, ap, subst, Bool-cases, Option-cases, inl, inr, some_inj,
}
use emersia.Base.Assoc.{nat_eq, bytes_eq_eq, lookup, remove, insert}
use emersia.Crypto.Primitives.{Primitives}
use emersia.Transport.Types.PacketType
use emersia.Transport.Replay.{default}
use emersia.Transport.Handshake.{
  device_id_len, InitOutcome, HandshakeError, fails, panics, strip_type, new_server, accept_init,
  verify_confirm,
}
use emersia.Transport.Host.{
  HostOutcome, silent, reply, HostEndpoint, Pending, Peer, Authorizer, Surroundings, prune_pending,
  over_budget, device_id_of, device_static_of, admit, admit_body, handle_init, confirm_pending,
  handle_confirm, handle_data, dispatch, handle_packet,
}

module _ (p : Primitives) (around : Surroundings) (authorized : Authorizer) (st : HostEndpoint)
    (packet : List ℕ) (from : ℕ) where
  -- The state after the first and after the second pruning.
  abbrev pub pruned : HostEndpoint
  pruned = prune_pending around.arrived st

  abbrev pub pruned_twice : HostEndpoint
  pruned_twice = prune_pending around.handled pruned

  abbrev pub new_entry : List ℕ → InitOutcome → Pending
  new_entry body outcome = record {
    device_id = outcome.device_id;
    device_static = device_static_of body;
    session = outcome.session;
    created_at = around.created;
  }

  abbrev pub new_peer : Pending → Peer
  new_peer q = record { addr = from; session = q.session; window = default }

  pub data Step (out : HostOutcome × HostEndpoint) : Type 0 where
    -- The packet is of no known type.
    unknown : out ≡ (silent, pruned) → Step out
    -- The handshake message is refused, or no handshake is pending for it.
    refused : out ≡ (silent, pruned_twice) → Step out
    -- An `init` is answered.
    admitted :
        (body : List ℕ) (outcome : InitOutcome)
        → strip_type packet PacketType.handshake_init ≡ some body
        → authorized (device_id_of body) (device_static_of body) ≡ true
        → over_budget pruned_twice from (device_id_of body) ≡ false
        → (accept_init p around.ephemeral around.nonce (new_server st.host_identity) packet).0
          ≡ ok outcome
        → out ≡ (
          reply outcome.response,
          record pruned_twice {
            pending = insert from (new_entry body outcome) pruned_twice.pending;
          },
        )
        → Step out
    -- The device that confirms is no longer trusted.
    revoked :
        (q : Pending)
        → lookup from pruned_twice.pending ≡ some q
        → authorized q.device_id q.device_static ≡ false
        → out ≡ (
          silent,
          record pruned_twice {
            pending = remove from pruned_twice.pending;
            peers = remove q.device_id st.peers;
          },
        )
        → Step out
    -- The confirmation does not verify.
    unconfirmed :
        (q : Pending)
        → lookup from pruned_twice.pending ≡ some q
        → out ≡ (silent, record pruned_twice { pending = remove from pruned_twice.pending })
        → Step out
    -- The handshake is confirmed.
    confirmed :
        (q : Pending)
        → lookup from pruned_twice.pending ≡ some q
        → authorized q.device_id q.device_static ≡ true
        → verify_confirm p q.session packet ≡ ok tt
        → out ≡ (
          silent,
          record pruned_twice {
            pending = remove from pruned_twice.pending;
            peers = insert q.device_id (new_peer q) st.peers;
          },
        )
        → Step out
    -- A data packet goes to the peer at the address.
    received : out ≡ (silent, handle_data p pruned packet from) → Step out

  admitted-Step :
      (body : List ℕ) (out : HostOutcome × HostEndpoint)
      → strip_type packet PacketType.handshake_init ≡ some body
      → authorized (device_id_of body) (device_static_of body) ≡ true
      → over_budget pruned_twice from (device_id_of body) ≡ false
      → admit p around pruned_twice from
          (device_static_of body)
          (accept_init p around.ephemeral around.nonce (new_server st.host_identity) packet).0
        ≡ some out
      → Step out
  unfolding admit
  admitted-Step body out s a b e =
      elim (Result-cases
        (accept_init p around.ephemeral around.nonce (new_server st.host_identity) packet).0) [
          | inl (outcome, accepted) ↦
              admitted body outcome s a b accepted (sym (some_inj (rw (accepted, admit) at e)))
          | inr (fails x, failed) ↦ refused (sym (some_inj (rw (failed, admit) at e)))
          | inr (panics, failed) ↦ absurd (none≢some (rw (failed, admit) at e))
        ]
    where
      none≢some : none ≡ some out → ⊥
      none≢some h = cc

  admit_body-Step :
      (body : List ℕ) (out : HostOutcome × HostEndpoint)
      → strip_type packet PacketType.handshake_init ≡ some body
      → admit_body p around authorized pruned_twice packet from body ≡ some out
      → Step out
  unfolding admit_body prune_pending
  admit_body-Step body out s e = elim (Bool-cases (ltb (length body) (device_id_len + 64))) [
    | inl short ↦ refused (sym (some_inj (rw short at e)))
    | inr long ↦ elim (Bool-cases (authorized (device_id_of body) (device_static_of body))) [
      | inr denied ↦ refused (sym (some_inj (rw (long, denied) at e)))
      | inl allowed ↦ elim (Bool-cases (over_budget pruned_twice from (device_id_of body))) [
        | inl over ↦ refused (sym (some_inj (rw (long, allowed, over) at e)))
        | inr within ↦ admitted-Step body out s allowed within (rw (long, allowed, within) at e)
      ]
    ]
  ]

  handle_init-Step :
      (out : HostOutcome × HostEndpoint)
      → handle_init p around authorized pruned packet from ≡ some out
      → Step out
  unfolding handle_init
  handle_init-Step out e = elim (Option-cases (strip_type packet PacketType.handshake_init)) [
    | inl n ↦ refused (sym (some_inj (rw (n, handle_init) at e)))
    | inr (body, s) ↦ admit_body-Step body out s (rw (s, handle_init) at e)
  ]

  module _ (q : Pending) where
    confirm_pending-revoked :
        authorized q.device_id q.device_static ≡ false
        → confirm_pending p authorized pruned_twice packet from q ≡ record pruned_twice {
          pending = remove from pruned_twice.pending;
          peers = remove q.device_id st.peers;
        }
    unfolding confirm_pending prune_pending
    confirm_pending-revoked denied = rw denied

    confirm_pending-failed :
        (x : HandshakeError)
        → authorized q.device_id q.device_static ≡ true
        → verify_confirm p q.session packet ≡ err x
        → confirm_pending p authorized pruned_twice packet from q
          ≡ record pruned_twice { pending = remove from pruned_twice.pending }
    unfolding confirm_pending
    confirm_pending-failed x allowed failed = rw allowed (rw failed)

    confirm_pending-confirmed :
        (u : Unit {0})
        → authorized q.device_id q.device_static ≡ true
        → verify_confirm p q.session packet ≡ ok u
        → confirm_pending p authorized pruned_twice packet from q ≡ record pruned_twice {
          pending = remove from pruned_twice.pending;
          peers = insert q.device_id (new_peer q) st.peers;
        }
    unfolding confirm_pending prune_pending
    confirm_pending-confirmed u allowed verified = rw allowed (rw verified)

    confirm_pending-Step :
        lookup from pruned_twice.pending ≡ some q
        → Step (silent, confirm_pending p authorized pruned_twice packet from q)
    confirm_pending-Step l = elim (Bool-cases (authorized q.device_id q.device_static)) [
      | inr denied ↦ revoked q l denied (ap (λ s. (silent, s)) (confirm_pending-revoked denied))
      | inl allowed ↦ elim (Result-cases (verify_confirm p q.session packet)) [
        | inl (u, verified) ↦
            confirmed q l allowed verified
              (ap (λ s. (silent, s)) (confirm_pending-confirmed u allowed verified))
        | inr (x, failed) ↦
            unconfirmed q l (ap (λ s. (silent, s)) (confirm_pending-failed x allowed failed))
      ]
    ]

  handle_confirm-Step :
      (out : HostOutcome × HostEndpoint)
      → handle_confirm p around authorized pruned packet from ≡ out
      → Step out
  unfolding handle_confirm
  handle_confirm-Step out e = elim (Option-cases (lookup from pruned_twice.pending)) [
    | inl n ↦ refused (sym (rw (n, handle_confirm) at e))
    | inr (q, l) ↦ subst Step (rw (l, handle_confirm) at e) (confirm_pending-Step q l)
  ]

pub silent≢reply :
    (response : List ℕ) (a b : HostEndpoint)
    → ◌≡◌ {A = HostOutcome × HostEndpoint} (silent, a) (reply response, b)
    → ⊥
silent≢reply response a b e = answers (ap (λ o. o.0) e)
  where
    answers : silent ≡ reply response → ⊥
    answers h = cc

-- Whenever `handle_packet` returns, it took one of these steps.
pub handle_packet-Step :
    (p : Primitives) (around : Surroundings) (authorized : Authorizer) (st : HostEndpoint)
    (packet : List ℕ) (from : ℕ) (out : HostOutcome × HostEndpoint)
    → handle_packet p around authorized st packet from ≡ some out
    → Step p around authorized st packet from out
unfolding handle_packet dispatch
handle_packet-Step p around authorized st [] from out e = unknown (sym (some_inj e))
handle_packet-Step p around authorized st (ty ∷ rest) from out e =
    elim (Bool-cases (ty == PacketType.handshake_init)) [
      | inl is_init ↦ handle_init-Step p around authorized st (ty ∷ rest) from out (rw is_init at e)
      | inr not_init ↦ elim (Bool-cases (ty == PacketType.handshake_confirm)) [
        | inl is_confirm ↦
            handle_confirm-Step p around authorized st (ty ∷ rest) from out
              (some_inj (rw (not_init, is_confirm) at e))
        | inr not_confirm ↦ elim (Bool-cases (ty == PacketType.record_data)) [
          | inl is_data ↦ received (sym (some_inj (rw (not_init, not_confirm, is_data) at e)))
          | inr other ↦ unknown (sym (some_inj (rw (not_init, not_confirm, other) at e)))
        ]
      ]
    ]
