-- ===== src/Transport/Host/Pump.antt =====
-- `HostEndpoint::pump` of transport/udp.rs. What the socket, the clock and the authoriser give while
-- the n-th datagram is read and answered are functions of n.
use emersia.Base.{
  ℕ, zero, suc, Option, none, some, List, Result, ok, err, ◌≡◌, refl, subst, some_inj, Option-cases,
  inl, inr,
}
use Prim.Native.String.{String}
use emersia.Crypto.Primitives.{Primitives}
use emersia.Transport.Host.{
  HostOutcome, silent, reply, HostEndpoint, Authorizer, Surroundings, prune_pending, handle_packet,
}
use emersia.Transport.Host.Bounds.{IsBounded, prune_pending-IsBounded, handle_packet-IsBounded}

-- What `recv_from` gives: a datagram with its address, a timeout or an interruption, or another
-- error.
pub data Received : Type 0 where
  datagram : List ℕ → ℕ → Received
  nothing_waiting : Received
  broken : String → Received

-- One turn of the loop: the clock's reading at its start, and the error of `send_to`, if any.
pub record Turn : Type 0 where
  pub now : ℕ
  pub received : Received
  pub around : Surroundings
  pub authorized : Authorizer
  pub send_error : Option String

module _ (p : Primitives) (turns : ℕ → Turn) where
  -- `left` turns are allowed after `processed` datagrams. The outer `none` is a panic.
  unfoldable pub pump :
      (left processed : ℕ) → HostEndpoint → Option (Result String ℕ × HostEndpoint)
  pump zero processed st = some (ok processed, st)
  pump (suc left) processed st =
      let turn = turns processed in
      let st' = prune_pending turn.now st in
      elim turn.received [
        | nothing_waiting ↦ some (ok processed, st')
        | broken e ↦ some (err e, st')
        | datagram packet from ↦
            elim (handle_packet p turn.around turn.authorized st' packet from) [
              | none ↦ none
              | some (silent, next) ↦ pump left (suc processed) next
              | some (reply bytes, next) ↦ elim turn.send_error [
                | some e ↦ some (err e, next)
                | none ↦ pump left (suc processed) next
              ]
            ]
      ]

data Cases (r : Received) : Type 0 where
  none_left : r ≡ nothing_waiting → Cases r
  failed : (e : String) → r ≡ broken e → Cases r
  arrived : (packet : List ℕ) (from : ℕ) → r ≡ datagram packet from → Cases r

Received-Cases : (r : Received) → Cases r
Received-Cases (datagram packet from) = arrived packet from refl
Received-Cases nothing_waiting = none_left refl
Received-Cases (broken e) = failed e refl

-- A property of the endpoint, of which pruning and a handled datagram make another that keeps it.
pub record IsKept (p : Primitives) (Allowed : Authorizer → Type 0) (Inv : HostEndpoint → Type 0)
    : Type 0 where
  pub by_prune : (now : ℕ) (st : HostEndpoint) → Inv st → Inv (prune_pending now st)
  pub by_packet :
      (around : Surroundings) (authorized : Authorizer) (st : HostEndpoint) (packet : List ℕ)
      (from : ℕ) (out : HostOutcome × HostEndpoint)
      → Allowed authorized
      → Inv st
      → handle_packet p around authorized st packet from ≡ some out
      → Inv out.1

module _ (p : Primitives) (turns : ℕ → Turn) (Allowed : Authorizer → Type 0)
    (Inv : HostEndpoint → Type 0) (kept : IsKept p Allowed Inv)
    (allowed : (n : ℕ) → Allowed (turns n).authorized) where
  -- What handling one datagram keeps, the whole loop keeps, however it ends.
  pub pump-keeps :
      (left processed : ℕ) (st : HostEndpoint) (out : Result String ℕ × HostEndpoint)
      → Inv st
      → pump p turns left processed st ≡ some out
      → Inv out.1
  unfolding pump
  pump-keeps zero processed st out i e = subst (λ o. Inv o.1) (some_inj e) i
  pump-keeps (suc left) processed st out i e =
      let turn = turns processed in
      let st' = prune_pending turn.now st in
      let i' = kept.by_prune turn.now st i in
      elim (Received-Cases turn.received) [
        | none_left r ↦ subst (λ o. Inv o.1) (some_inj (rw (r, pump) at e)) i'
        | failed x r ↦ subst (λ o. Inv o.1) (some_inj (rw (r, pump) at e)) i'
        | arrived packet from r ↦
            elim (Option-cases (handle_packet p turn.around turn.authorized st' packet from)) [
              | inl h ↦ absurd (none≢some (rw (r, h, pump) at e))
              | inr ((silent, next), h) ↦
                  pump-keeps left (suc processed) next out
                    (kept.by_packet turn.around turn.authorized st' packet from (silent, next)
                      (allowed processed) i' h)
                    (rw (r, h, pump) at e)
              | inr ((reply bytes, next), h) ↦
                  let i'' =
                    kept.by_packet turn.around turn.authorized st' packet from (reply bytes, next)
                      (allowed processed) i' h in
                  elim (Option-cases turn.send_error) [
                    | inl sent ↦
                        pump-keeps left (suc processed) next out i'' (rw (r, h, sent, pump) at e)
                    | inr (x, unsent) ↦
                        subst (λ o. Inv o.1) (some_inj (rw (r, h, unsent, pump) at e)) i''
                  ]
            ]
      ]
    where
      none≢some : none ≡ some out → ⊥
      none≢some h = cc

-- However many datagrams arrive from wherever, at most 64 handshakes are pending, whatever the
-- authoriser, the clock and the socket do and however the loop ends.
pub pump-IsBounded :
    (p : Primitives) (turns : ℕ → Turn) (left processed : ℕ) (st : HostEndpoint)
    (out : Result String ℕ × HostEndpoint)
    → IsBounded st
    → pump p turns left processed st ≡ some out
    → IsBounded out.1
pump-IsBounded p turns left processed st out =
    pump-keeps p turns (λ _. Unit) IsBounded
      (record {
        by_prune = prune_pending-IsBounded;
        by_packet = λ around authorized st packet from out _.
            handle_packet-IsBounded p around authorized st packet from out;
      })
      (λ _. tt) left processed st out
