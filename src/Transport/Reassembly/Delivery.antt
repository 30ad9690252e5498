-- ===== src/Transport/Reassembly/Delivery.antt =====
-- The fragments of one frame handed to `Reassembler::push` of transport/mod.rs, in any order.
use emersia.Base.{
  ℕ, zero, suc, ◌+◌, ◌-◌, ◌<◌, ◌≤◌, false, Option, none, some, List, [], ◌∷◌, concat, elem, length,
  get_elem?, get_or, get_elem?-get_or, set, ◌≡◌, ◌≢◌, refl, sym, ap, ◌∙◌, arith, All,
}
use emersia.Transport.Record.{FrameHeader}
use emersia.Transport.Reassembly.{
  PendingFrame, Reassembler, clashes, ensure_frame, finish_if_complete, store, push,
}
use emersia.Transport.Reassembly.Valid.{count_some, count_some-replicate, store-free}
use emersia.Transport.Reassembly.Fill.{
  fill, fill-nil, get_elem?-fill, set-fill, concat_some-fill, count_some-fill,
}

-- The indices are distinct, and none is in `done`.
abbrev pub AreNew : List ℕ → List ℕ → Type 0
AreNew done [] = Unit {0}
AreNew done (i ∷ is) = (elem i done ≡ false) × AreNew (i ∷ done) is

-- No fragment of the frame is pending.
abbrev pub IsOther : Option PendingFrame → ℕ → Type 0
IsOther none s = Unit {0}
IsOther (some c) s = c.frame_sequence ≢ s

module _ (cs : List (List ℕ)) (h : FrameHeader) where
  -- The header of fragment `i`; the record sequence, timestamp and flags may be any.
  abbrev pub fragment_header : ℕ → FrameHeader
  fragment_header i = record h { frag_index = i; frag_count = length cs }

  -- Hands the fragments of these indices over, and lists what `push` returns.
  unfoldable pub deliver : Reassembler → List ℕ → Option (List (Option (List ℕ)) × Reassembler)
  deliver r [] = some ([], r)
  deliver r (i ∷ is) = elim (push r (fragment_header i) (get_or cs i [])) [
    | none ↦ none
    | some (out, r') ↦ elim (deliver r' is) [
      | none ↦ none
      | some (outs, r'') ↦ some (out ∷ outs, r'')
    ]
  ]

  abbrev partial : List ℕ → PendingFrame
  partial done = record {
    frame_sequence = h.frame_sequence;
    frag_count = length cs;
    fragments = fill done 0 cs;
    received = length done;
  }

  -- The next fragment goes to the frame that holds the fragments `done`.
  abbrev Leads : Option PendingFrame → List ℕ → Type 0
  Leads o done =
      (i : ℕ)
      → (ensure_frame o (fragment_header i) ≡ partial done)
        × (clashes o (fragment_header i) ≡ false)

  Leads-other : (o : Option PendingFrame) → IsOther o h.frame_sequence → Leads o []
  unfolding ensure_frame clashes
  Leads-other none other i = (ground (arith, fill-nil 0 cs), refl)
  Leads-other (some c) other i = (ground (arith, fill-nil 0 cs), ground arith)

  Leads-partial : (done : List ℕ) → Leads (some (partial done)) done
  unfolding ensure_frame clashes
  Leads-partial done i = (ground arith, ground arith)

  push-several :
      (o : Option PendingFrame) (done : List ℕ) (i : ℕ) (p : List ℕ)
      → 2 ≤ length cs
      → i < length cs
      → Leads o done
      → push (record { current = o }) (fragment_header i) p ≡ store (partial done) i p
  unfolding push
  push-several o done i p several within l = rw ((l i).0, (l i).1) (ground arith)

  store-partial :
      (done : List ℕ) (i : ℕ) (p : List ℕ)
      → i < length cs
      → get_elem? cs i ≡ some p
      → elem i done ≡ false
      → store (partial done) i p ≡ some (finish_if_complete (partial (i ∷ done)))
  store-partial done i p within e new =
      store-free (partial done) i p (get_elem?-fill done 0 i cs within (rw start new))
      ∙ ap (λ c. some (finish_if_complete c)) same
    where
      start : 0 + i ≡ i
      start = omega arith

      same :
          record (partial done) {
            fragments = set (fill done 0 cs) i (some p);
            received = length done + 1;
          }
          ≡ partial (i ∷ done)
      same = ground (arith, set-fill done 0 i i cs p (sym start) e)

  -- What a frame's fragments produce: nothing `n` times, and then the whole frame.
  abbrev pub only_last : ℕ → List (Option (List ℕ))
  only_last zero = some (concat cs) ∷ []
  only_last (suc n) = none ∷ only_last n

  deliver-cons :
      (r : Reassembler) (i : ℕ) (is : List ℕ) {out : Option (List ℕ)} {r' r'' : Reassembler}
      {outs : List (Option (List ℕ))}
      → push r (fragment_header i) (get_or cs i []) ≡ some (out, r')
      → deliver r' is ≡ some (outs, r'')
      → deliver r (i ∷ is) ≡ some (out ∷ outs, r'')
  unfolding deliver
  deliver-cons r i is p d = rw (p, deliver) (rw d)

  -- One fragment that is new to the frame.
  push-new :
      (o : Option PendingFrame) (done : List ℕ) (i : ℕ)
      → 2 ≤ length cs
      → Leads o done
      → i < length cs
      → elem i done ≡ false
      → push (record { current = o }) (fragment_header i) (get_or cs i [])
        ≡ some (finish_if_complete (partial (i ∷ done)))
  push-new o done i several l within new =
      push-several o done i (get_or cs i []) several within l
      ∙ store-partial done i (get_or cs i []) within (get_elem?-get_or cs i [] within) new

  counted :
      (done : List ℕ) (i : ℕ)
      → count_some (fill done 0 cs) ≡ length done
      → i < length cs
      → elem i done ≡ false
      → count_some (fill (i ∷ done) 0 cs) ≡ length (i ∷ done)
  counted done i count within new =
      count_some-fill done i cs (get_or cs i []) (get_elem?-get_or cs i [] within) within new
      ∙ ap suc count

  finish-last :
      (done : List ℕ)
      → length done ≡ length cs
      → count_some (fill done 0 cs) ≡ length done
      → finish_if_complete (partial done) ≡ (some (concat cs), record { current = none })
  unfolding finish_if_complete
  finish-last done total count = ground (arith, concat_some-fill done 0 cs)

  finish-more :
      (done : List ℕ)
      → length done < length cs
      → finish_if_complete (partial done) ≡ (none, record { current = some (partial done) })
  unfolding finish_if_complete
  finish-more done more = ground arith

  deliver-from :
      (o : Option PendingFrame) (done : List ℕ) (i : ℕ) (is : List ℕ)
      → 2 ≤ length cs
      → Leads o done
      → count_some (fill done 0 cs) ≡ length done
      → length done + length (i ∷ is) ≡ length cs
      → All (λ j. j < length cs) (i ∷ is)
      → AreNew done (i ∷ is)
      → deliver (record { current = o }) (i ∷ is)
        ≡ some (only_last (length is), record { current = none })
  deliver-from o done i [] several l count total within new =
      deliver-cons (record { current = o }) i []
        (push-new o done i several l within.0 new.0
          ∙ ap some (finish-last (i ∷ done) (omega arith) (counted done i count within.0 new.0)))
        (unfold deliver in refl)
  deliver-from o done i (j ∷ is) several l count total within new =
      deliver-cons (record { current = o }) i (j ∷ is)
        (push-new o done i several l within.0 new.0
          ∙ ap some (finish-more (i ∷ done) (omega arith)))
        (deliver-from (some (partial (i ∷ done))) (i ∷ done) j is several (Leads-partial (i ∷ done))
          (counted done i count within.0 new.0) (omega arith) within.1 new.1)

-- The fragments of a frame, each once and in any order, are put together into the frame when the
-- last one arrives, and give nothing before. No other frame's fragments come in between; a frame
-- that was pending before is given up.
pub deliver_any_order :
    (cs : List (List ℕ)) (h : FrameHeader) (r : Reassembler) (order : List ℕ)
    → 2 ≤ length cs
    → IsOther r.current h.frame_sequence
    → length order ≡ length cs
    → All (λ i. i < length cs) order
    → AreNew [] order
    → deliver cs h r order ≡ some (only_last cs h (length cs - 1), record { current = none })
deliver_any_order cs h r [] several other total within new = absurd (omega arith)
deliver_any_order cs h r (i ∷ is) several other total within new =
    deliver-from cs h r.current [] i is several (Leads-other cs h r.current other)
      (ap count_some (fill-nil 0 cs) ∙ count_some-replicate (length cs)) (omega arith) within new
    ∙ ap (λ n. some (only_last cs h n, record { current = none })) (omega arith)
