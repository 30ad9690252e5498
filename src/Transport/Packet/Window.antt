-- ===== src/Transport/Packet/Window.antt =====
-- What `open_packet` of transport/mod.rs does to the replay window.
use emersia.Base.{
  ℕ, ◌^◌, ◌%◌, true, false, List, [], ◌∷◌, elem, length, drop, ltb, Result, ok, err, Result-cases,
  ◌≡◌, sym, ap, subst, ◌∙◌, ◌⊎◌, inl, inr, Bool-cases, arith,
}
use emersia.Crypto.Primitives.{Primitives}
use emersia.Crypto.Aad.{Direction}
use emersia.Crypto.Session.{Session}
use emersia.Transport.Types.{TransportError, dropped}
use emersia.Transport.Types.PacketType
use emersia.Transport.Record.{FrameHeader}
use emersia.Transport.Replay.{ReplayWindow, check, commit, commit-check}
use emersia.Transport.Replay.Ideal.{is_fresh, is_within, accept, elem-le-newest}
use emersia.Transport.Replay.Refines.{Represents, Follows, check-is_fresh, commit_refines}
use emersia.Transport.Packet.{first_is, wire_sequence, authenticate, commit_opened, open_packet}

module _ (p : Primitives) (s : Session) (d : Direction) (w : ReplayWindow) (packet : List ℕ) where
  abbrev sequence_of : ℕ
  sequence_of = wire_sequence (drop 1 packet)

  -- What an outcome says: nothing was accepted and the window is as before, or the packet's number
  -- was fresh, its record authentic, and the number is committed.
  abbrev pub Keeps : Result TransportError (FrameHeader × List ℕ) × ReplayWindow → Type 0
  Keeps out =
      ((e : TransportError) × (out ≡ (err e, w)))
      ⊎ ((parsed : FrameHeader × List ℕ) × (out ≡ (ok parsed, (commit w sequence_of).1))
          × (check w sequence_of ≡ true)
          × (authenticate p s d (drop 1 packet) ≡ ok parsed))

  abbrev Outcome : Type 0
  Outcome = Result TransportError (FrameHeader × List ℕ) × ReplayWindow

  -- The branches of `open_packet`, in the order in which it takes them.
  module _ (is_data : first_is packet PacketType.record_data ≡ true) where
    open_packet-stale :
        ltb (length (drop 1 packet)) 4 ≡ false
        → check w sequence_of ≡ false
        → open_packet p s d w packet ≡ (err (dropped "replayed or too old"), w)
    unfolding open_packet
    open_packet-stale long stale = rw (is_data, long, stale)

    module _ (long : ltb (length (drop 1 packet)) 4 ≡ false)
        (fresh : check w sequence_of ≡ true) where
      open_packet-failed :
          (e : TransportError)
          → authenticate p s d (drop 1 packet) ≡ err e
          → open_packet p s d w packet ≡ (err e, w)
      unfolding open_packet
      open_packet-failed e a = rw (is_data, long, fresh) (rw a)

      pub open_packet-opened :
          (parsed : FrameHeader × List ℕ)
          → authenticate p s d (drop 1 packet) ≡ ok parsed
          → open_packet p s d w packet ≡ (ok parsed, (commit w sequence_of).1)
      unfolding open_packet commit_opened
      open_packet-opened parsed a =
          rw (is_data, long, fresh) (rw a (rw (commit-check w sequence_of ∙ fresh)))

  open_packet-other :
      first_is packet PacketType.record_data ≡ false
      → open_packet p s d w packet ≡ (err (dropped "not a data packet"), w)
  unfolding open_packet
  open_packet-other other = rw other

  open_packet-short :
      first_is packet PacketType.record_data ≡ true
      → ltb (length (drop 1 packet)) 4 ≡ true
      → open_packet p s d w packet ≡ (err (dropped "packet too short"), w)
  unfolding open_packet
  open_packet-short is_data short = rw (is_data, short)

  -- Whatever arrives, `open_packet` either fails and leaves the window as it was, or returns a
  -- record that is authentic and whose number was fresh, with the number committed. So no packet
  -- that fails authentication moves the window.
  pub open_packet-Keeps : Keeps (open_packet p s d w packet)
  open_packet-Keeps = elim (Bool-cases (first_is packet PacketType.record_data)) [
    | inr other ↦ inl (_, open_packet-other other)
    | inl is_data ↦ elim (Bool-cases (ltb (length (drop 1 packet)) 4)) [
      | inl short ↦ inl (_, open_packet-short is_data short)
      | inr long ↦ elim (Bool-cases (check w sequence_of)) [
        | inr stale ↦ inl (_, open_packet-stale is_data long stale)
        | inl fresh ↦ elim (Result-cases (authenticate p s d (drop 1 packet))) [
          | inl (parsed, e) ↦ inr (parsed, open_packet-opened is_data long fresh parsed e, fresh, e)
          | inr (x, e) ↦ inl (x, open_packet-failed is_data long fresh x e)
        ]
      ]
    ]
  ]

  is_fresh-elem : (hs : List ℕ) (n : ℕ) → elem n hs ≡ true → is_fresh hs n ≡ false
  unfolding is_fresh is_within
  is_fresh-elem [] n e = cc
  is_fresh-elem (h ∷ hs) n e = ground (arith, elem-le-newest (h ∷ hs) n e)

  -- A packet whose number was accepted before is dropped, and the window stays, if the number is
  -- near the newest one accepted.
  pub open_packet_replay :
      (hs : List ℕ) (n : ℕ)
      → Represents w hs
      → Follows hs n
      → elem n hs ≡ true
      → sequence_of ≡ n % 2 ^ 32
      → first_is packet PacketType.record_data ≡ true
      → ltb (length (drop 1 packet)) 4 ≡ false
      → open_packet p s d w packet ≡ (err (dropped "replayed or too old"), w)
  open_packet_replay hs n r f old number is_data long =
      open_packet-stale is_data long
        (ap (check w) number ∙ check-is_fresh w hs n r f ∙ is_fresh-elem hs n old)

  -- On success the window stands for a history with the packet's number added, which it had not.
  pub open_packet-Represents :
      (hs : List ℕ) (n : ℕ) (parsed : FrameHeader × List ℕ)
      → Represents w hs
      → Follows hs n
      → sequence_of ≡ n % 2 ^ 32
      → (open_packet p s d w packet).0 ≡ ok parsed
      → Represents (open_packet p s d w packet).1 (n ∷ hs) × (elem n hs ≡ false)
  open_packet-Represents hs n parsed r f number success = elim open_packet-Keeps [
    | inl (e, failed) ↦ absurd (clash (sym success ∙ ap (λ o. o.0) failed))
    | inr (q, done, fresh, _) ↦
        let new : is_fresh hs n ≡ true =
          sym (check-is_fresh w hs n r f) ∙ ap (check w) (sym number) ∙ fresh in
        let added = (commit_refines w hs n r f).1 in
        (
          subst (λ v. Represents v (n ∷ hs))
              (ap (λ k. (commit w k).1) (sym number) ∙ ap (λ o. o.1) (sym done))
              (subst (Represents (commit w (n % 2 ^ 32)).1) (accept-fresh hs n new) added),
          not_elem hs n new,
        )
  ]
    where
      clash : {e : TransportError} → ok parsed ≡ err e → ⊥
      clash e = cc

      accept-fresh : (l : List ℕ) (m : ℕ) → is_fresh l m ≡ true → (accept l m).1 ≡ m ∷ l
      accept-fresh l m e = unfold accept in rw e

      not_elem : (l : List ℕ) (m : ℕ) → is_fresh l m ≡ true → elem m l ≡ false
      not_elem l m e = ground (arith, is_fresh-elem l m)
