-- ===== src/Transport/Host/Deny.antt =====
-- Default-deny and `disconnect` in transport/udp.rs.
use emersia.Base.{ℕ, Bool, true, false, none, some, List, Result, ◌≡◌, sym, Option-cases, inl, inr}
use emersia.Base.Assoc.{nat_eq, bytes_eq_eq, lookup, lookup-remove_self, count_values-retain-not}
use Prim.Native.String.{String}
use emersia.Crypto.Primitives.{Primitives}
use emersia.Transport.Types.PacketType
use emersia.Transport.Handshake.{strip_type}
use emersia.Transport.Host.{
  HostOutcome, reply, HostEndpoint, Authorizer, Surroundings, prune_pending, device_id_of,
  device_static_of, is_of, disconnect, handle_packet,
}
use emersia.Transport.Host.Steps.{
  Step, unknown, refused, admitted, revoked, unconfirmed, confirmed, received, silent≢reply,
  handle_packet-Step,
}
use emersia.Transport.Host.Bounds.{share}
use emersia.Transport.Host.Confirm.{handle_packet-Confirms}
use emersia.Transport.Host.Pump.{Turn, pump, IsKept, pump-keeps}

-- The packet is an `init` whose device id and static key the authoriser accepts.
abbrev pub IsAuthorized : Authorizer → List ℕ → Type 0
IsAuthorized authorized packet =
    (body : List ℕ) × (strip_type packet PacketType.handshake_init ≡ some body)
    × (authorized (device_id_of body) (device_static_of body) ≡ true)

Step-IsAuthorized :
    (p : Primitives) (around : Surroundings) (authorized : Authorizer) (st : HostEndpoint)
    (packet : List ℕ) (from : ℕ) (response : List ℕ) (st' : HostEndpoint)
    → Step p around authorized st packet from (reply response, st')
    → IsAuthorized authorized packet
Step-IsAuthorized p around authorized st packet from response st' (unknown e) =
    absurd (silent≢reply response _ _ (sym e))
Step-IsAuthorized p around authorized st packet from response st' (refused e) =
    absurd (silent≢reply response _ _ (sym e))
Step-IsAuthorized p around authorized st packet from response st'
      (admitted body outcome s a b c e) =
    (body, s, a)
Step-IsAuthorized p around authorized st packet from response st' (revoked q l a e) =
    absurd (silent≢reply response _ _ (sym e))
Step-IsAuthorized p around authorized st packet from response st' (unconfirmed q l e) =
    absurd (silent≢reply response _ _ (sym e))
Step-IsAuthorized p around authorized st packet from response st' (confirmed q l a v e) =
    absurd (silent≢reply response _ _ (sym e))
Step-IsAuthorized p around authorized st packet from response st' (received e) =
    absurd (silent≢reply response _ _ (sym e))

-- The host answers a datagram only if it is an `init` of a device id and static key that the
-- authoriser accepts.
pub handle_packet-IsAuthorized :
    (p : Primitives) (around : Surroundings) (authorized : Authorizer) (st : HostEndpoint)
    (packet : List ℕ) (from : ℕ) (response : List ℕ) (st' : HostEndpoint)
    → handle_packet p around authorized st packet from ≡ some (reply response, st')
    → IsAuthorized authorized packet
handle_packet-IsAuthorized p around authorized st packet from response st' e =
    Step-IsAuthorized p around authorized st packet from response st'
      (handle_packet-Step p around authorized st packet from (reply response, st') e)

-- The device is refused with every key.
abbrev pub IsDenied : List ℕ → Authorizer → Type 0
IsDenied d authorized = (key : List ℕ) → authorized d key ≡ false

abbrev pub IsNoPeer : List ℕ → HostEndpoint → Type 0
IsNoPeer d st = lookup d st.peers ≡ none

handle_packet-IsNoPeer :
    (p : Primitives) (d : List ℕ) (around : Surroundings) (authorized : Authorizer)
    (st : HostEndpoint) (packet : List ℕ) (from : ℕ) (out : HostOutcome × HostEndpoint)
    → IsDenied d authorized
    → IsNoPeer d st
    → handle_packet p around authorized st packet from ≡ some out
    → IsNoPeer d out.1
handle_packet-IsNoPeer p d around authorized st packet from out denied n e =
    elim (Option-cases (lookup d out.1.peers)) [
      | inl absent ↦ absent
      | inr (peer, there) ↦
          let confirms =
            handle_packet-Confirms p around authorized st packet from out d peer n e there in
          let allowed = confirms.4 in absurd (clash (denied confirms.0.device_static) allowed)
    ]
  where
    clash : {b : Bool} → b ≡ false → b ≡ true → ⊥
    clash f t = cc

prune_pending-IsNoPeer :
    (d : List ℕ) (now : ℕ) (st : HostEndpoint) → IsNoPeer d st → IsNoPeer d (prune_pending now st)
unfolding prune_pending
prune_pending-IsNoPeer d now st n = n

pub IsNoPeer-IsKept : (p : Primitives) (d : List ℕ) → IsKept p (IsDenied d) (IsNoPeer d)
IsNoPeer-IsKept p d = record {
  by_prune = prune_pending-IsNoPeer d;
  by_packet = handle_packet-IsNoPeer p d;
}

-- `disconnect` leaves neither a peer nor a pending handshake of the device, and says whether there
-- was one.
pub disconnect-removes :
    (d : List ℕ) (st : HostEndpoint)
    → (lookup d (disconnect d st).1.peers ≡ none) × (share d (disconnect d st).1 ≡ 0)
unfolding disconnect
disconnect-removes d st =
    (lookup-remove_self d st.peers, count_values-retain-not (is_of d) st.pending)

-- A device that was disconnected and is refused from then on does not become a peer again, whatever
-- datagrams arrive and however the loop over them ends.
pub pump-disconnect :
    (p : Primitives) (turns : ℕ → Turn) (d : List ℕ) (left processed : ℕ) (st : HostEndpoint)
    (out : Result String ℕ × HostEndpoint)
    → ((n : ℕ) → IsDenied d (turns n).authorized)
    → pump p turns left processed (disconnect d st).1 ≡ some out
    → IsNoPeer d out.1
pump-disconnect p turns d left processed st out denied =
    pump-keeps p turns (IsDenied d) (IsNoPeer d) (IsNoPeer-IsKept p d) denied left processed
      (disconnect d st).1 out (disconnect-removes d st).0
