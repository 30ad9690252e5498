-- ===== src/Crypto/Code/RoundTrip.antt =====
-- Pairing codes of crypto.rs generated, shown and parsed.
use emersia.Base.{
  ℕ, zero, suc, ◌+◌, ◌<◌, ◌≤◌, ◌%◌, true, ◌&&◌, List, [], ◌∷◌, ◌++◌, length, length-append, take,
  drop, take-append-drop, ltb, if◌then◌else◌, ok, ◌≡◌, refl, ap, ◌∙◌, Bool-cases, inl, inr, arith,
}
use emersia.Crypto.Code.{
  pairing_code_digits, pairing_digit_from_byte, random_pairing_digit, generate_digits, generate,
  clean, all_digits, parse, display,
}

-- Six decimal digits.
abbrev pub IsCode : List ℕ → Type 0
IsCode c = (length c ≡ pairing_code_digits) × (all_digits c ≡ true)

clean-append : (xs ys : List ℕ) → clean (xs ++ ys) ≡ clean xs ++ clean ys
unfolding clean
clean-append [] ys = refl
clean-append (x ∷ xs) ys = ground (arith, clean-append xs ys)

clean_digits : (c : List ℕ) → all_digits c ≡ true → clean c ≡ c
unfolding clean
clean_digits [] e = refl
clean_digits (x ∷ xs) e = ground (arith, clean_digits xs)

all_digits-append : (xs ys : List ℕ) → all_digits (xs ++ ys) ≡ (all_digits xs && all_digits ys)
all_digits-append [] ys = refl
all_digits-append (x ∷ xs) ys = ground (arith, all_digits-append xs ys)

parse-code : (input c : List ℕ) → clean input ≡ c → IsCode c → parse input ≡ ok c
unfolding parse
parse-code input c e code = rw e (ground arith)

display-clean : (c : List ℕ) → all_digits c ≡ true → clean (display c) ≡ c
unfolding display
display-clean c e =
    clean-append (take 3 c) (b'-' ∷ drop 3 c) ∙ ap (λ r. clean (take 3 c) ++ r) dash ∙ halves
  where
    parts : (all_digits (take 3 c) && all_digits (drop 3 c)) ≡ true
    parts = rw (← all_digits-append (take 3 c) (drop 3 c), take-append-drop 3 c) e

    dash : clean (b'-' ∷ drop 3 c) ≡ clean (drop 3 c)
    dash = unfold clean in refl

    halves : clean (take 3 c) ++ clean (drop 3 c) ≡ c
    halves =
        rw (clean_digits (take 3 c) (ground arith), clean_digits (drop 3 c) (ground arith))
          (take-append-drop 3 c)

-- A code is read back from the form in which it is shown.
pub parse-display : (c : List ℕ) → IsCode c → parse (display c) ≡ ok c
parse-display c code = parse-code (display c) c (display-clean c code.1) code

-- What is parsed is a code, and is parsed into itself however it is shown again.
pub parse-IsCode :
    (input c : List ℕ)
    → parse input ≡ ok c
    → IsCode c × (parse c ≡ ok c) × (parse (display c) ≡ ok c)
parse-IsCode input c e =
    let code = parsed input c e in
    (code, parse-code c c (clean_digits c code.1) code, parse-display c code)
  where
    parsed : (i d : List ℕ) → parse i ≡ ok d → IsCode d
    parsed i d p = unfold parse in ground arith

all_digits-snoc :
    (code : List ℕ) (d : ℕ)
    → all_digits code ≡ true
    → d < 10
    → all_digits (code ++ ((b'0' + d) ∷ [])) ≡ true
all_digits-snoc code d e h = all_digits-append code ((b'0' + d) ∷ []) ∙ ground arith

-- The bytes that give a digit.
abbrev pub usable : List ℕ → ℕ
usable [] = 0
usable (b ∷ bs) = if ltb b 250 then suc (usable bs) else usable bs

digit_step :
    (b : ℕ) (bs : List ℕ)
    → random_pairing_digit (b ∷ bs)
      ≡ (if ltb b 250 then ok (b % 10, bs) else random_pairing_digit bs)
unfolding random_pairing_digit pairing_digit_from_byte
digit_step b bs = ground arith

random_pairing_digit-total :
    (bytes : List ℕ) (n : ℕ)
    → suc n ≤ usable bytes
    → (found : ℕ × List ℕ) × (random_pairing_digit bytes ≡ ok found)
      × (found.0 < 10)
      × (n ≤ usable found.1)
random_pairing_digit-total [] n h = absurd (omega arith)
random_pairing_digit-total (b ∷ bs) n h = elim (Bool-cases (ltb b 250)) [
  | inl fits ↦ ((b % 10, bs), digit_step b bs ∙ rw fits, omega arith, ground arith)
  | inr rejected ↦
      let (found, e, small, left) = random_pairing_digit-total bs n (ground arith) in
      (found, digit_step b bs ∙ rw rejected e, small, left)
]

generate_digits-IsCode :
    (rounds : ℕ) (code bytes : List ℕ)
    → rounds ≤ usable bytes
    → all_digits code ≡ true
    → (c : List ℕ) × (generate_digits rounds code bytes ≡ ok c)
      × (length c ≡ length code + rounds)
      × (all_digits c ≡ true)
unfolding generate_digits
generate_digits-IsCode zero code bytes h e = (code, refl, omega arith, e)
generate_digits-IsCode (suc rounds) code bytes h e =
    let (found, eq, small, left) = random_pairing_digit-total bytes rounds h in
    let code' = code ++ ((b'0' + found.0) ∷ []) in
    let (c, done, len, digits) =
      generate_digits-IsCode rounds code' found.1 left (all_digits-snoc code found.0 e small) in
    (c, rw eq done, omega (arith, length-append code ((b'0' + found.0) ∷ [])), digits)

-- With six usable bytes to come from the random source a code is generated, however many bytes are
-- rejected on the way, and it is read back from the form in which it is shown.
pub generate-parse :
    (bytes : List ℕ)
    → pairing_code_digits ≤ usable bytes
    → (c : List ℕ) × (generate bytes ≡ ok c) × IsCode c × (parse (display c) ≡ ok c)
unfolding generate
generate-parse bytes h =
    let (c, e, len, digits) = generate_digits-IsCode 6 [] bytes h refl in
    let code : IsCode c = (omega arith, digits) in (c, e, code, parse-display c code)
