-- ===== src/Transport/Host/Bounds.antt =====
-- The bounds on pending handshakes in transport/udp.rs.
use emersia.Base.{ℕ, ◌≤◌, false, some, List, length, ◌≡◌, ap, arith}
use emersia.Base.Assoc.{
  nat_eq, insert, count_values, length-remove-le, length-remove-lt, length-retain-le,
  count_values-retain-le,
}
use emersia.Crypto.Primitives.{Primitives}
use emersia.Transport.Host.{
  HostOutcome, HostEndpoint, Pending, Authorizer, Surroundings, prune_pending, over_budget,
  device_id_of, is_of, max_pending_handshakes, handle_data, handle_packet,
}
use emersia.Transport.Host.Steps.{
  Step, unknown, refused, admitted, revoked, unconfirmed, confirmed, received, pruned_twice,
  new_entry, handle_packet-Step,
}

abbrev pub IsBounded : HostEndpoint → Type 0
IsBounded st = length st.pending ≤ max_pending_handshakes

-- How many handshakes of a device are pending.
abbrev pub share : List ℕ → HostEndpoint → ℕ
share d st = count_values (is_of d) st.pending

pending-prune :
    (now : ℕ) (st : HostEndpoint) → length (prune_pending now st).pending ≤ length st.pending
unfolding prune_pending
pending-prune now st = length-retain-le _ st.pending

pub prune_pending-IsBounded :
    (now : ℕ) (st : HostEndpoint) → IsBounded st → IsBounded (prune_pending now st)
prune_pending-IsBounded now st b = omega (arith, pending-prune now st)

pub share-prune :
    (d : List ℕ) (now : ℕ) (st : HostEndpoint) → share d (prune_pending now st) ≤ share d st
unfolding prune_pending
share-prune d now st = count_values-retain-le (is_of d) _ st.pending

-- An entry that passed the budget's test keeps the bound.
insert-IsBounded :
    (st : HostEndpoint) (from : ℕ) (d : List ℕ) (q : Pending)
    → IsBounded st
    → over_budget st from d ≡ false
    → length (insert from q st.pending) ≤ max_pending_handshakes
unfolding over_budget insert
insert-IsBounded st from d q b o =
    ground (arith, length-remove-lt from st.pending, length-remove-le from st.pending)

module _ (p : Primitives) (around : Surroundings) (authorized : Authorizer) (st : HostEndpoint)
    (packet : List ℕ) (from : ℕ) (out : HostOutcome × HostEndpoint) where
  abbrev pub before : HostEndpoint
  before = pruned_twice p around authorized st packet from

  pending-before : length before.pending ≤ length st.pending
  pending-before = omega (
    arith,
    pending-prune around.handled (prune_pending around.arrived st),
    pending-prune around.arrived st,
  )

  pub share-before : (d : List ℕ) → share d before ≤ share d st
  share-before d = omega (
    arith,
    share-prune d around.handled (prune_pending around.arrived st),
    share-prune d around.arrived st,
  )

  Step-IsBounded : Step p around authorized st packet from out → IsBounded st → IsBounded out.1
  unfolding handle_data
  Step-IsBounded (unknown e) b =
      omega (arith, ap (λ o. length o.1.pending) e, pending-prune around.arrived st)
  Step-IsBounded (refused e) b = omega (arith, ap (λ o. length o.1.pending) e, pending-before)
  Step-IsBounded (admitted body outcome s a within accepted e) b = omega (
    arith,
    ap (λ o. length o.1.pending) e,
    insert-IsBounded before from (device_id_of body)
        (new_entry p around authorized st packet from body outcome) (omega (arith, pending-before))
        within,
  )
  Step-IsBounded (revoked q l a e) b =
      omega (
        arith,
        ap (λ o. length o.1.pending) e,
        pending-before,
        length-remove-le from before.pending,
      )
  Step-IsBounded (unconfirmed q l e) b =
      omega (
        arith,
        ap (λ o. length o.1.pending) e,
        pending-before,
        length-remove-le from before.pending,
      )
  Step-IsBounded (confirmed q l a v e) b =
      omega (
        arith,
        ap (λ o. length o.1.pending) e,
        pending-before,
        length-remove-le from before.pending,
      )
  Step-IsBounded (received e) b =
      omega (arith, ap (λ o. length o.1.pending) e, pending-prune around.arrived st)

-- However many datagrams arrive from wherever, at most 64 handshakes are pending.
pub handle_packet-IsBounded :
    (p : Primitives) (around : Surroundings) (authorized : Authorizer) (st : HostEndpoint)
    (packet : List ℕ) (from : ℕ) (out : HostOutcome × HostEndpoint)
    → IsBounded st
    → handle_packet p around authorized st packet from ≡ some out
    → IsBounded out.1
handle_packet-IsBounded p around authorized st packet from out b e =
    Step-IsBounded p around authorized st packet from out
      (handle_packet-Step p around authorized st packet from out e) b
