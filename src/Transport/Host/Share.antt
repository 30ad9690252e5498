-- ===== src/Transport/Host/Share.antt =====
-- The share of pending handshakes that one device may have in transport/udp.rs, and how it is
-- exceeded.
use emersia.Base.{
  some_inj, ℕ, suc, ◌≤◌, true, false, some, List, bytes_eq, bytes_eq→eq, bytes_eq_refl, ◌≡◌, sym,
  ap, subst, ◌∙◌, Bool-cases, Option-cases, inl, inr, arith,
}
use emersia.Base.Assoc.{
  nat_eq, lookup, remove, insert, count_values, occurrences, count_values-remove-le,
  count_values-remove-lt, count_values-remove_other, count_values-remove_once, lookup-insert_self,
  nat_beq_refl,
}
use emersia.Crypto.Primitives.{Primitives}
use emersia.Transport.Types.PacketType
use emersia.Transport.Handshake.{InitOutcome, strip_type}
use emersia.Transport.Handshake.Claims.{accept_init-device_id}
use emersia.Transport.Host.{
  HostOutcome, reply, HostEndpoint, Pending, Authorizer, Surroundings, over_budget, device_id_of,
  is_of, max_pending_handshakes_per_device, handle_data, handle_packet,
}
use emersia.Transport.Host.Steps.{
  Step, unknown, refused, admitted, revoked, unconfirmed, confirmed, received, pruned_twice,
  new_entry, silent≢reply, handle_packet-Step,
}
use emersia.Transport.Host.Bounds.{share, before, share-prune, share-before}

module _ (p : Primitives) (around : Surroundings) (authorized : Authorizer) (st : HostEndpoint)
    (packet : List ℕ) (from : ℕ) (out : HostOutcome × HostEndpoint) where
  abbrev state : HostEndpoint
  state = before p around authorized st packet from out

  is_of_self : (d : List ℕ) (q : Pending) → q.device_id ≡ d → is_of d q ≡ true
  is_of_self d q e = ap (λ i. bytes_eq i d) e ∙ bytes_eq_refl d

  -- The packet does not replace a pending handshake of another device.
  abbrev pub ReplacesOwn : Type 0
  ReplacesOwn =
      (body : List ℕ) (q : Pending)
      → strip_type packet PacketType.handshake_init ≡ some body
      → lookup from state.pending ≡ some q
      → q.device_id ≡ device_id_of body

  module _ (d body : List ℕ) (outcome : InitOutcome) where
    abbrev entry : Pending
    entry = new_entry p around authorized st packet from body outcome

    -- An entry of another device does not add to the share.
    share-insert_other :
        bytes_eq outcome.device_id d ≡ false
        → count_values (is_of d) (insert from entry state.pending) ≤ share d state
    unfolding insert count_values
    share-insert_other other = ground (arith, count_values-remove-le (is_of d) from state.pending)

    -- An entry of the device itself passed the budget's test, or takes the place of another of its own.
    share-insert_own :
        ((q : Pending) → lookup from state.pending ≡ some q → is_of d q ≡ true)
        → over_budget state from d ≡ false
        → share d state ≤ max_pending_handshakes_per_device
        → count_values (is_of d) (insert from entry state.pending)
          ≤ max_pending_handshakes_per_device
    unfolding insert count_values over_budget
    share-insert_own own within b = elim (Option-cases (lookup from state.pending)) [
      | inl n ↦ ground (arith, count_values-remove-le (is_of d) from state.pending)
      | inr (q, l) ↦
          ground (arith, count_values-remove-lt (is_of d) from state.pending q l (own q l))
    ]

  removed : (d : List ℕ) → count_values (is_of d) (remove from state.pending) ≤ share d st
  removed d = omega (
    arith,
    count_values-remove-le (is_of d) from state.pending,
    share-before p around authorized st packet from out d,
  )

  Step-share :
      (d : List ℕ)
      → ReplacesOwn
      → share d st ≤ max_pending_handshakes_per_device
      → Step p around authorized st packet from out
      → share d out.1 ≤ max_pending_handshakes_per_device
  unfolding handle_data
  Step-share d own b (unknown e) =
      omega (arith, ap (λ o. share d o.1) e, share-prune d around.arrived st)
  Step-share d own b (refused e) =
      omega (arith, ap (λ o. share d o.1) e, share-before p around authorized st packet from out d)
  Step-share d own b (admitted body outcome s a within accepted e) =
      elim (Bool-cases (bytes_eq outcome.device_id d)) [
        | inl mine ↦
            let same : device_id_of body ≡ d =
              sym (
                accept_init-device_id p around.ephemeral around.nonce st.host_identity packet body
                  outcome s accepted)
              ∙ bytes_eq→eq outcome.device_id d mine in
            omega (
              arith,
              ap (λ o. share d o.1) e,
              share-insert_own d body outcome (λ q l. is_of_self d q (own body q s l ∙ same))
                  (ap (over_budget state from) (sym same) ∙ within)
                  (omega (arith, share-before p around authorized st packet from out d)),
            )
        | inr other ↦ omega (
          arith,
          ap (λ o. share d o.1) e,
          share-insert_other d body outcome other,
          share-before p around authorized st packet from out d,
        )
      ]
  Step-share d own b (revoked q l a e) = omega (arith, ap (λ o. share d o.1) e, removed d)
  Step-share d own b (unconfirmed q l e) = omega (arith, ap (λ o. share d o.1) e, removed d)
  Step-share d own b (confirmed q l a v e) = omega (arith, ap (λ o. share d o.1) e, removed d)
  Step-share d own b (received e) =
      omega (arith, ap (λ o. share d o.1) e, share-prune d around.arrived st)

-- A device keeps to its share of four pending handshakes, as long as an `init` does not take the
-- place of another device's pending handshake from the same address.
pub handle_packet-share :
    (p : Primitives) (around : Surroundings) (authorized : Authorizer) (st : HostEndpoint)
    (packet : List ℕ) (from : ℕ) (out : HostOutcome × HostEndpoint) (d : List ℕ)
    → ReplacesOwn p around authorized st packet from out
    → share d st ≤ max_pending_handshakes_per_device
    → handle_packet p around authorized st packet from ≡ some out
    → share d out.1 ≤ max_pending_handshakes_per_device
handle_packet-share p around authorized st packet from out d own b e =
    Step-share p around authorized st packet from out d own b
      (handle_packet-Step p around authorized st packet from out e)

bytes_eq-flip : (xs ys : List ℕ) → bytes_eq xs ys ≡ false → bytes_eq ys xs ≡ false
bytes_eq-flip xs ys h = elim (Bool-cases (bytes_eq ys xs)) [
  | inr different ↦ different
  | inl same ↦
      let equal = ap (λ zs. bytes_eq xs zs) (bytes_eq→eq ys xs same) ∙ bytes_eq_refl xs in
      absurd (ground (arith, h, equal))
]

module _ (p : Primitives) (around : Surroundings) (authorized : Authorizer) (st : HostEndpoint)
    (packet : List ℕ) (from : ℕ) (response : List ℕ) (st' : HostEndpoint) (d : List ℕ)
    (q : Pending) where
  -- The host's state when the `init` is judged.
  abbrev judged : HostEndpoint
  judged = pruned_twice p around authorized st packet from

  share-displaced :
      (entry : Pending)
      → bytes_eq entry.device_id d ≡ true
      → lookup from judged.pending ≡ some q
      → occurrences from judged.pending ≡ 1
      → is_of d q ≡ false
      → count_values (is_of d) (insert from entry judged.pending) ≡ suc (share d judged)
  unfolding insert count_values
  share-displaced entry mine l o other =
      rw mine (ap suc (count_values-remove_other (is_of d) from judged.pending q l o other))

  share-replaced :
      (entry : Pending)
      → bytes_eq entry.device_id q.device_id ≡ false
      → lookup from judged.pending ≡ some q
      → occurrences from judged.pending ≡ 1
      → suc (count_values (is_of q.device_id) (insert from entry judged.pending))
        ≡ share q.device_id judged
  unfolding insert count_values
  share-replaced entry other l o = rw other (
      count_values-remove_once (is_of q.device_id) from judged.pending q l o
        (bytes_eq_refl q.device_id))

  -- The device has one handshake more, at the address, and the device whose place it takes one less.
  abbrev pub Displaces : HostEndpoint → Type 0
  Displaces after =
      (share d after ≡ suc (share d judged))
      × (suc (share q.device_id after) ≡ share q.device_id judged)
      × ((entry : Pending) × (lookup from after.pending ≡ some entry) × (entry.device_id ≡ d))

  insert-Displaces :
      (entry : Pending)
      → entry.device_id ≡ d
      → lookup from judged.pending ≡ some q
      → occurrences from judged.pending ≡ 1
      → is_of d q ≡ false
      → Displaces (record judged { pending = insert from entry judged.pending })
  insert-Displaces entry mine l o other = (
    share-displaced entry (ap (λ x. bytes_eq x d) mine ∙ bytes_eq_refl d) l o other,
    share-replaced entry (ap (λ x. bytes_eq x q.device_id) mine ∙ bytes_eq-flip q.device_id d other)
        l o,
    (entry, lookup-insert_self from from entry judged.pending (nat_beq_refl from), mine),
  )

  Step-Displaces :
      (body : List ℕ)
      → strip_type packet PacketType.handshake_init ≡ some body
      → device_id_of body ≡ d
      → lookup from judged.pending ≡ some q
      → occurrences from judged.pending ≡ 1
      → is_of d q ≡ false
      → Step p around authorized st packet from (reply response, st')
      → Displaces st'
  Step-Displaces body s i l o other (unknown e) = absurd (silent≢reply response _ _ (sym e))
  Step-Displaces body s i l o other (refused e) = absurd (silent≢reply response _ _ (sym e))
  Step-Displaces body s i l o other (admitted body' outcome s' a within accepted e) =
      let same : device_id_of body' ≡ d = ap device_id_of (some_inj (sym s' ∙ s)) ∙ i in
      let mine : outcome.device_id ≡ d =
        accept_init-device_id p around.ephemeral around.nonce st.host_identity packet body' outcome
          s' accepted
        ∙ same in
      subst Displaces (sym (ap (λ o. o.1) e)) (
        insert-Displaces (new_entry p around authorized st packet from body' outcome) mine l o
          other)
  Step-Displaces body s i l o other (revoked q' l' a e) = absurd (silent≢reply response _ _ (sym e))
  Step-Displaces body s i l o other (unconfirmed q' l' e) =
      absurd (silent≢reply response _ _ (sym e))
  Step-Displaces body s i l o other (confirmed q' l' a v e) =
      absurd (silent≢reply response _ _ (sym e))
  Step-Displaces body s i l o other (received e) = absurd (silent≢reply response _ _ (sym e))

-- An answered `init` of a device, from an address at which one handshake, of another device, is
-- pending, takes its place: the address now has a handshake of the device, whose share is one more,
-- whether or not it was below four, and the share of the other device is one less. Shares are counted
-- after the pending handshakes that are too old are dropped.
pub handle_packet-displaced :
    (p : Primitives) (around : Surroundings) (authorized : Authorizer) (st : HostEndpoint)
    (packet : List ℕ) (from : ℕ) (response : List ℕ) (st' : HostEndpoint) (d : List ℕ) (q : Pending)
    (body : List ℕ)
    → strip_type packet PacketType.handshake_init ≡ some body
    → device_id_of body ≡ d
    → lookup from (pruned_twice p around authorized st packet from).pending ≡ some q
    → occurrences from (pruned_twice p around authorized st packet from).pending ≡ 1
    → is_of d q ≡ false
    → handle_packet p around authorized st packet from ≡ some (reply response, st')
    → Displaces p around authorized st packet from response st' d q st'
handle_packet-displaced p around authorized st packet from response st' d q body s i l o other e =
    Step-Displaces p around authorized st packet from response st' d q body s i l o other
      (handle_packet-Step p around authorized st packet from (reply response, st') e)
