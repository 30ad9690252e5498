-- ===== src/Transport/Reassembly/Chunks.antt =====
-- What `payload_chunks` of transport/mod.rs cuts a frame into.
use emersia.Base.{
  leb→le, leb_false→lt, ℕ, zero, suc, ◌+◌, ◌≤◌, ◌/◌, min, max, List, [], ◌∷◌, ◌++◌, leb, length,
  take, drop, concat, All, All-map, chunks_fuel, take-append-drop, length-take, length-drop, ◌≡◌,
  refl, ap, ◌∙◌, append-nil, Bool-cases, inl, inr, arith,
}
use emersia.Transport.Reassembly.{budget, payload_chunks}

concat-chunks_fuel :
    (fuel n : ℕ) (xs : List ℕ) → length xs ≤ fuel → concat (chunks_fuel fuel (suc n) xs) ≡ xs
concat-chunks_fuel fuel n [] h = refl
concat-chunks_fuel zero n (x ∷ xs) h = absurd (omega arith)
concat-chunks_fuel (suc fuel) n (x ∷ xs) h =
    ap (λ r. x ∷ (take n xs ++ r))
      (concat-chunks_fuel fuel n (drop n xs) (omega (arith, length-drop n xs)))
    ∙ ap (◌∷◌ x) (take-append-drop n xs)

chunks_fuel-bounds :
    (fuel n : ℕ) (xs : List ℕ)
    → All (λ c. (1 ≤ length c) × (length c ≤ suc n)) (chunks_fuel fuel (suc n) xs)
chunks_fuel-bounds fuel n [] = tt
chunks_fuel-bounds zero n (x ∷ xs) = tt
chunks_fuel-bounds (suc fuel) n (x ∷ xs) =
    ((omega arith, omega (arith, length-take n xs)), chunks_fuel-bounds fuel n (drop n xs))

-- The chunks of a payload, one after the other, are the payload.
pub concat-payload_chunks : (payload : List ℕ) → concat (payload_chunks payload) ≡ payload
unfolding payload_chunks
concat-payload_chunks payload = elim (Bool-cases (leb (length payload) budget)) [
  | inl small ↦ rw (small, append-nil)
  | inr large ↦ rw large (concat-chunks_fuel (length payload) 1175 payload (omega arith))
]

length-chunks_fuel :
    (fuel : ℕ) (xs : List ℕ)
    → length xs ≤ fuel
    → length (chunks_fuel fuel budget xs) ≡ (length xs + 1175) / 1176
length-chunks_fuel fuel [] h = refl
length-chunks_fuel zero (x ∷ xs) h = absurd (omega arith)
length-chunks_fuel (suc fuel) (x ∷ xs) h = omega (
  arith,
  length-chunks_fuel fuel (drop 1175 xs) (omega (arith, length-drop 1175 xs)),
  length-drop 1175 xs,
)

-- A payload is cut into as few chunks as fit a datagram, and into one if it is empty. Each chunk
-- leaves room for the header, and only that of the empty payload is empty.
pub payload_chunks_bounds :
    (payload : List ℕ)
    → (length (payload_chunks payload) ≡ max 1 ((length payload + 1175) / 1176))
      × All
          (λ c. (min 1 (length payload) ≤ length c) × (length c ≤ budget))
          (payload_chunks payload)
unfolding payload_chunks
payload_chunks_bounds payload = elim (Bool-cases (leb (length payload) budget)) [
  | inl small ↦ let short = leb→le (length payload) budget small in rw small (omega arith)
  | inr large ↦
      let long = leb_false→lt (length payload) budget large in
      rw large (
        omega (arith, length-chunks_fuel (length payload) payload (omega arith)),
        All-map _ (λ c b. (omega (arith, b.0), b.1))
            (chunks_fuel-bounds (length payload) 1175 payload),
      )
]
