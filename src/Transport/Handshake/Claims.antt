-- ===== src/Transport/Handshake/Claims.antt =====
-- What an accepted `init` of transport/handshake.rs says of its packet, and the order of the steps.
use emersia.Base.{ℕ, Option, some, List, take, ok, err, Result-cases, ◌≡◌, inl, inr, arith}
use emersia.Crypto.Primitives.{Primitives}
use emersia.Transport.Types.PacketType
use emersia.Transport.Handshake.{
  HandshakeClient, InitOutcome, fails, out_of_order, at_init, new_server, strip_type, answer_init,
  accept_init, finish,
}

module _ (p : Primitives) (ephemeral entropy : Option (List ℕ)) where
  answer_init-device_id :
      (host_identity packet body : List ℕ) (outcome : InitOutcome)
      → strip_type packet PacketType.handshake_init ≡ some body
      → answer_init p ephemeral entropy host_identity packet ≡ ok outcome
      → outcome.device_id ≡ take 8 body
  unfolding answer_init
  answer_init-device_id host_identity packet body outcome s e = ground arith

  -- The device id of an accepted `init` is the one in the clear, which the host's endpoint has
  -- checked.
  pub accept_init-device_id :
      (host_identity packet body : List ℕ) (outcome : InitOutcome)
      → strip_type packet PacketType.handshake_init ≡ some body
      → (accept_init p ephemeral entropy (new_server host_identity) packet).0 ≡ ok outcome
      → outcome.device_id ≡ take 8 body
  unfolding accept_init
  accept_init-device_id host_identity packet body outcome s e =
      elim (Result-cases (answer_init p ephemeral entropy host_identity packet)) [
        | inl (o, a) ↦ ground (arith, answer_init-device_id host_identity packet body o s a)
        | inr (x, a) ↦ ground arith
      ]

-- A client that has not sent `init`, or has looked at a response before, refuses every response and
-- is left as it is.
pub finish_out_of_order :
    (p : Primitives) (c : HandshakeClient) (first second : List ℕ)
    → (c.step ≡ at_init → finish p c first ≡ (err (fails out_of_order), c))
      × (finish p (finish p c first).1 second ≡ (err (fails out_of_order), (finish p c first).1))
unfolding finish
finish_out_of_order p c first second = (λ e. ground arith, ground arith)
