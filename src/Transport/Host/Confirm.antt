-- ===== src/Transport/Host/Confirm.antt =====
-- How a device becomes a peer in transport/udp.rs.
use emersia.Base.{
  ℕ, true, none, some, List, [], ◌∷◌, bytes_eq, bytes_eq→eq, ok, ◌≡◌, refl, sym, ap, ◌∙◌,
  Bool-cases, inl, inr, arith, some_inj,
}
use emersia.Base.Assoc.{
  nat_eq, bytes_eq_eq, lookup, remove, insert, lookup-remove-none, lookup-insert_other,
  lookup-insert_self, lookup-retain,
}
use emersia.Crypto.Primitives.{Primitives}
use emersia.Transport.Handshake.{verify_confirm}
use emersia.Transport.Host.{
  HostOutcome, HostEndpoint, Pending, Peer, Authorizer, Surroundings, prune_pending, is_live,
  open_for, handle_data, handle_packet,
}
use emersia.Transport.Host.Steps.{
  Step, unknown, refused, admitted, revoked, unconfirmed, confirmed, received, pruned_twice,
  new_peer, handle_packet-Step,
}

-- A data packet brings no new peer.
open_for-none :
    (p : Primitives) (packet : List ℕ) (from : ℕ) (d : List ℕ) (peers : List (List ℕ × Peer))
    → lookup d peers ≡ none
    → lookup d (open_for p packet from peers) ≡ none
unfolding open_for lookup
open_for-none p packet from d [] h = refl
open_for-none p packet from d ((id, peer) ∷ rest) h =
    ground (arith, open_for-none p packet from d rest)

module _ (p : Primitives) (around : Surroundings) (authorized : Authorizer) (st : HostEndpoint)
    (packet : List ℕ) (from : ℕ) (d : List ℕ) (peer : Peer) where
  -- The device has a young pending handshake from this address, is authorised with the key of its
  -- `init` at this moment, and its confirmation verifies under the session's keys.
  abbrev pub Confirms : Type 0
  Confirms =
      (q : Pending) × (lookup from (pruned_twice p around authorized st packet from).pending
        ≡ some q)
      × (is_live around.handled q ≡ true)
      × (q.device_id ≡ d)
      × (authorized d q.device_static ≡ true)
      × (verify_confirm p q.session packet ≡ ok tt)
      × (peer ≡ new_peer p around authorized st packet from q)

  live :
      (q : Pending)
      → lookup from (pruned_twice p around authorized st packet from).pending ≡ some q
      → is_live around.handled q ≡ true
  unfolding prune_pending
  live q l =
      lookup-retain (is_live around.handled) from (prune_pending around.arrived st).pending q l

  absent : (m : List (List ℕ × Peer)) → lookup d m ≡ none → lookup d m ≡ some peer → Confirms
  absent m n s = absurd cc

  Step-Confirms :
      (out : HostOutcome × HostEndpoint)
      → lookup d st.peers ≡ none
      → Step p around authorized st packet from out
      → lookup d out.1.peers ≡ some peer
      → Confirms
  unfolding prune_pending handle_data
  Step-Confirms out n (unknown e) l = absent st.peers n (sym (ap (λ o. lookup d o.1.peers) e) ∙ l)
  Step-Confirms out n (refused e) l = absent st.peers n (sym (ap (λ o. lookup d o.1.peers) e) ∙ l)
  Step-Confirms out n (admitted body outcome s a b c e) l =
      absent st.peers n (sym (ap (λ o. lookup d o.1.peers) e) ∙ l)
  Step-Confirms out n (revoked q k a e) l =
      absent (remove q.device_id st.peers) (lookup-remove-none d q.device_id st.peers n)
        (sym (ap (λ o. lookup d o.1.peers) e) ∙ l)
  Step-Confirms out n (unconfirmed q k e) l =
      absent st.peers n (sym (ap (λ o. lookup d o.1.peers) e) ∙ l)
  Step-Confirms out n (confirmed q k a v e) l =
      let added = new_peer p around authorized st packet from q in
      let there = sym (ap (λ o. lookup d o.1.peers) e) ∙ l in
      elim (Bool-cases (bytes_eq q.device_id d)) [
        | inl same ↦
            let id = bytes_eq→eq q.device_id d same in
            (
              q,
              k,
              live q k,
              id,
              sym (ap (λ i. authorized i q.device_static) id) ∙ a,
              v,
              some_inj (sym there ∙ lookup-insert_self d q.device_id added st.peers same),
            )
        | inr other ↦
            absent (insert q.device_id added st.peers)
              (lookup-insert_other d q.device_id added st.peers other n) there
      ]
  Step-Confirms out n (received e) l =
      absent (open_for p packet from st.peers) (open_for-none p packet from d st.peers n)
        (sym (ap (λ o. lookup d o.1.peers) e) ∙ l)

-- A device that is no peer becomes one only by a packet that confirms a handshake it has pending at
-- that address, not older than ten seconds, while it is authorised with the static key of its
-- `init`; the new peer has that handshake's session and a fresh replay window.
pub handle_packet-Confirms :
    (p : Primitives) (around : Surroundings) (authorized : Authorizer) (st : HostEndpoint)
    (packet : List ℕ) (from : ℕ) (out : HostOutcome × HostEndpoint) (d : List ℕ) (peer : Peer)
    → lookup d st.peers ≡ none
    → handle_packet p around authorized st packet from ≡ some out
    → lookup d out.1.peers ≡ some peer
    → Confirms p around authorized st packet from d peer
handle_packet-Confirms p around authorized st packet from out d peer n e l =
    Step-Confirms p around authorized st packet from d peer out n
      (handle_packet-Step p around authorized st packet from out e) l
