-- ===== src/Transport/Reassembly/Valid.antt =====
-- The invariant of `Reassembler` in transport/mod.rs: the counter counts the fragments that are
-- there, and an unfinished frame lacks one at least.
use emersia.Base.{
  ℕ, zero, suc, ◌+◌, ◌<◌, ◌≤◌, false, Option, none, some, List, [], ◌∷◌, length, length-set,
  length-replicate, get_elem?, set, replicate, ◌==◌, ltb, leb, ◌||◌, ◌≡◌, refl, Bool-cases, inl,
  inr, ◌⊎◌, arith,
}
use emersia.Transport.Record.{FrameHeader}
use emersia.Transport.Reassembly.{
  PendingFrame, Reassembler, clashes, new_frame, ensure_frame, finish_if_complete, store, push,
}

abbrev pub count_some : List (Option (List ℕ)) → ℕ
count_some [] = 0
count_some (none ∷ fs) = count_some fs
count_some (some f ∷ fs) = suc (count_some fs)

pub record IsPending (c : PendingFrame) : Type 0 where
  pub slots : length c.fragments ≡ c.frag_count
  pub counted : c.received ≡ count_some c.fragments
  pub unfinished : c.received < c.frag_count
  pub several : 2 ≤ c.frag_count

abbrev pub IsValidCurrent : Option PendingFrame → Type 0
IsValidCurrent none = Unit {0}
IsValidCurrent (some c) = IsPending c

abbrev pub IsValid : Reassembler → Type 0
IsValid r = IsValidCurrent r.current

pub count_some-replicate : (n : ℕ) → count_some (replicate n none) ≡ 0
count_some-replicate zero = refl
count_some-replicate (suc n) = count_some-replicate n

pub count_some-set :
    (fs : List (Option (List ℕ))) (i : ℕ) (p : List ℕ)
    → get_elem? fs i ≡ some none
    → count_some (set fs i (some p)) ≡ suc (count_some fs)
count_some-set [] i p e = cc
count_some-set (none ∷ fs) zero p e = refl
count_some-set (some f ∷ fs) zero p e = absurd (ground arith)
count_some-set (none ∷ fs) (suc i) p e = count_some-set fs i p e
count_some-set (some f ∷ fs) (suc i) p e = omega (arith, count_some-set fs i p e)

new_frame-IsPending : (h : FrameHeader) → 2 ≤ h.frag_count → IsPending (new_frame h)
new_frame-IsPending h several = record {
  slots = length-replicate h.frag_count none;
  counted = omega (arith, count_some-replicate h.frag_count);
  unfinished = omega arith;
  several = several;
}

ensure_frame-IsPending :
    (o : Option PendingFrame) (h : FrameHeader)
    → IsValidCurrent o
    → 2 ≤ h.frag_count
    → clashes o h ≡ false
    → IsPending (ensure_frame o h) × ((ensure_frame o h).frag_count ≡ h.frag_count)
unfolding ensure_frame clashes
ensure_frame-IsPending none h v several c = (new_frame-IsPending h several, refl)
ensure_frame-IsPending (some f) h v several c =
    elim (Bool-cases (f.frame_sequence == h.frame_sequence)) [
      | inl same ↦ rw same (v, ground arith)
      | inr other ↦ rw other (new_frame-IsPending h several, refl)
    ]

get_elem?-within :
    (fs : List (Option (List ℕ))) (i : ℕ)
    → i < length fs
    → (get_elem? fs i ≡ some none) ⊎ ((f : List ℕ) × (get_elem? fs i ≡ some (some f)))
get_elem?-within [] i h = absurd (omega arith)
get_elem?-within (none ∷ fs) zero h = inl refl
get_elem?-within (some f ∷ fs) zero h = inr (f, refl)
get_elem?-within (f ∷ fs) (suc i) h = get_elem?-within fs i (omega arith)

-- `push` goes on from a valid state: it returns, and the state is valid.
abbrev pub Continues : Option (Option (List ℕ) × Reassembler) → Type 0
Continues o = (out : Option (List ℕ) × Reassembler) × (o ≡ some out) × IsValid out.1

store-taken :
    (c : PendingFrame) (i : ℕ) (p f : List ℕ)
    → get_elem? c.fragments i ≡ some (some f)
    → store c i p ≡ some (none, record { current = some c })
unfolding store
store-taken c i p f e = rw (e, store)

pub store-free :
    (c : PendingFrame) (i : ℕ) (p : List ℕ)
    → get_elem? c.fragments i ≡ some none
    → store c i p
      ≡ some (
          finish_if_complete
            (record c { fragments = set c.fragments i (some p); received = c.received + 1 }))
unfolding store
store-free c i p e = rw (e, store)

finish-IsValid :
    (c : PendingFrame)
    → length c.fragments ≡ c.frag_count
    → c.received ≡ count_some c.fragments
    → 2 ≤ c.frag_count
    → IsValid (finish_if_complete c).1
unfolding finish_if_complete
finish-IsValid c slots counted several = elim (Bool-cases (ltb c.received c.frag_count)) [
  | inl more ↦
      rw more
        (record { slots = slots; counted = counted; unfinished = ground arith; several = several })
  | inr last ↦ rw last tt
]

store-Continues :
    (c : PendingFrame) (i : ℕ) (p : List ℕ)
    → IsPending c
    → i < c.frag_count
    → Continues (store c i p)
store-Continues c i p v h = elim (get_elem?-within c.fragments i (omega arith)) [
  | inl free ↦ (
    finish_if_complete
        (record c { fragments = set c.fragments i (some p); received = c.received + 1 }),
    store-free c i p free,
    finish-IsValid _ (omega (arith, length-set c.fragments i (some p)))
        (omega (arith, count_some-set c.fragments i p free)) (omega arith),
  )
  | inr (f, taken) ↦ ((none, record { current = some c }), store-taken c i p f taken, v)
]

-- Whatever header comes, `push` indexes within the fragments and keeps the invariant.
pub push-IsValid :
    (r : Reassembler) (h : FrameHeader) (p : List ℕ) → IsValid r → Continues (push r h p)
unfolding push
push-IsValid r h p v = elim (Bool-cases (h.frag_count == 0 || leb h.frag_count h.frag_index)) [
  | inl bad ↦ rw bad ((none, r), refl, v)
  | inr good ↦ rw good (elim (Bool-cases (h.frag_count == 1)) [
    | inl single ↦ rw single ((some p, record { current = none }), refl, tt)
    | inr several ↦ rw several (elim (Bool-cases (clashes r.current h)) [
      | inl clash ↦ rw clash ((none, r), refl, v)
      | inr fits ↦
          let (pending, count) = ensure_frame-IsPending r.current h v (ground arith) fits in
          rw fits (store-Continues (ensure_frame r.current h) h.frag_index p pending (ground arith))
    ])
  ])
]
