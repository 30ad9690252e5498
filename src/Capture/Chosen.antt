-- ===== src/Capture/Chosen.antt =====
-- What the choices of capture/mod.rs come to.
use Prim.Native.String.{String}
use emersia.Base.{
  ℕ, suc, true, false, Option, none, some, some_inj, List, [], ◌∷◌, get_elem?, bytes_eq,
  bytes_eq→eq, Bool-cases, Option-cases, inl, inr, Result, ok, err, ◌≡◌, refl, sym, ap, subst, ◌∙◌,
  arith,
}
use emersia.Frame.Decode.{Format, argb8888, xrgb8888, xbgr8888, rgba8888, Pixel, convert}
use emersia.Capture.{position, select_output, offers, pick_shm_format}

-- A format that is offered and that `decode` reads, or none of those is offered.
abbrev pub Usable : List Format → Result String Format → Type 0
Usable formats (ok f) =
    (offers f formats ≡ true) × ((g : ℕ → ℕ → ℕ → ℕ → Pixel) × (convert f ≡ some g))
Usable formats (err e) =
    (offers xrgb8888 formats ≡ false)
    × ((offers argb8888 formats ≡ false)
        × ((offers xbgr8888 formats ≡ false) × (offers rgba8888 formats ≡ false)))

-- The format that is picked is one that the compositor offers and that `decode` of frame.rs converts;
-- picking fails only when no such format is offered.
pub pick_shm_format-Usable : (formats : List Format) → Usable formats (pick_shm_format formats)
unfolding pick_shm_format convert
pick_shm_format-Usable formats = elim (Bool-cases (offers xrgb8888 formats)) [
  | inl x ↦ rw x (x, (_, refl))
  | inr x ↦ rw x (elim (Bool-cases (offers argb8888 formats)) [
    | inl a ↦ rw a (a, (_, refl))
    | inr a ↦ rw a (elim (Bool-cases (offers xbgr8888 formats)) [
      | inl b ↦ rw b (b, (_, refl))
      | inr b ↦ rw b (elim (Bool-cases (offers rgba8888 formats)) [
        | inl r ↦ rw r (r, (_, refl))
        | inr r ↦ rw r (x, (a, (b, r)))
      ])
    ])
  ])
]

abbrev after : Option ℕ → Option ℕ
after none = none
after (some i) = some (suc i)

module _ (name l : List ℕ) (ls : List (List ℕ)) where
  position-here : bytes_eq l name ≡ true → position name (l ∷ ls) ≡ some 0
  unfolding position
  position-here e = simp (e)

  position-later : bytes_eq l name ≡ false → position name (l ∷ ls) ≡ after (position name ls)
  unfolding position
  position-later e = simp (e)

position-some :
    (name : List ℕ) (ls : List (List ℕ)) (i : ℕ)
    → position name ls ≡ some i
    → get_elem? ls i ≡ some name
position-some name [] i e = absurd (unfold position in ground (arith, e))
position-some name (l ∷ ls) i e = elim (Bool-cases (bytes_eq l name)) [
  | inl here ↦
      subst (λ j. get_elem? (l ∷ ls) j ≡ some name)
        (some_inj (sym (position-here name l ls here) ∙ e)) (ap some (bytes_eq→eq l name here))
  | inr other ↦ elim (Option-cases (position name ls)) [
    | inl absent ↦
        let nothing = sym (ap after absent) ∙ sym (position-later name l ls other) ∙ e in
        absurd (ground (arith, nothing))
    | inr (j, found) ↦
        subst (λ k. get_elem? (l ∷ ls) k ≡ some name)
          (some_inj (sym (ap after found) ∙ sym (position-later name l ls other) ∙ e))
          (position-some name ls j found)
  ]
]

-- The output that is asked for is the one selected, and without a request it is the first.
abbrev pub Selects : List (List ℕ) → Option (List ℕ) → Result String ℕ → Type 0
Selects labels want (err e) = Unit {0}
Selects labels none (ok i) = i ≡ 0
Selects labels (some name) (ok i) = get_elem? labels i ≡ some name

-- A name that is asked for selects an output of that name, and nothing asked for selects the first.
pub select_output-Selects :
    (labels : List (List ℕ)) (want : Option (List ℕ))
    → Selects labels want (select_output labels want)
unfolding select_output
select_output-Selects [] want = tt
select_output-Selects (l ∷ ls) none = refl
select_output-Selects (l ∷ ls) (some name) = elim (Option-cases (position name (l ∷ ls))) [
  | inl absent ↦
      subst
        (λ o.
          Selects (l ∷ ls) (some name)
            (elim o [ none ↦ err "no output of that name" | some i ↦ ok i ]))
        (sym absent) tt
  | inr (i, found) ↦
      subst
        (λ o.
          Selects (l ∷ ls) (some name)
            (elim o [ none ↦ err "no output of that name" | some i ↦ ok i ]))
        (sym found) (position-some name (l ∷ ls) i found)
]
