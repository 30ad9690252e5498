-- ===== src/Tests/Toy.antt =====
-- Cryptography of the same shapes as the real one and without its strength, to run the code on.
use emersia.Base.{
  ℕ, ◌+◌, ◌%◌, Option, none, some, List, [], ◌∷◌, ◌++◌, length, length-replicate, take, drop,
  take-append, drop-append, replicate, ◌==◌, ==_iff, if◌then◌else◌, bytes_eq, bytes_eq_refl, ◌≡◌,
  refl, sym, ap, ◌∙◌, arith,
}
use emersia.Crypto.Primitives.{Primitives, IsLawful}

abbrev pub sum : List ℕ → ℕ
sum [] = 0
sum (b ∷ bs) = b + sum bs

abbrev pub secret_value : List ℕ → ℕ
secret_value s = sum s % 100 + 1

abbrev pub first : List ℕ → ℕ
first [] = 0
first (b ∷ bs) = b

abbrev pub prefix : List ℕ → List ℕ → List ℕ → List ℕ
prefix k n a = k ++ (n ++ a)

abbrev pub toy_decrypt : List ℕ → List ℕ → Option (List ℕ)
toy_decrypt expected c =
    if bytes_eq (take (length expected) c) expected then some (drop (length expected) c) else none

abbrev pub toy : Primitives
toy = record {
  sha256 = λ m. replicate 32 (sum m % 256);
  hkdf = λ salt ikm info n. some (replicate n ((sum salt + sum ikm + sum info) % 256));
  key_fits = λ k. length k == 32;
  nonce_fits = λ n. length n == 12;
  encrypt = λ k n a m. some (prefix k n a ++ m);
  decrypt = λ k n a c. toy_decrypt (prefix k n a) c;
  public_key = λ s. replicate 32 (secret_value s);
  diffie_hellman = λ s q. replicate 32 (secret_value s + first q);
  hex_decode = λ text. some text;
}

toy_decrypt-append : (expected m : List ℕ) → toy_decrypt expected (expected ++ m) ≡ some m
toy_decrypt-append expected m =
    rw (take-append expected m (length expected) refl)
      (rw (bytes_eq_refl expected) (rw (drop-append expected m (length expected) refl)))

pub toy_decrypt-encrypt :
    (k n a m c : List ℕ) → toy.encrypt k n a m ≡ some c → toy.decrypt k n a c ≡ some m
toy_decrypt-encrypt k n a m c e =
    ap (toy_decrypt (prefix k n a)) (sym same) ∙ toy_decrypt-append (prefix k n a) m
  where
    same : prefix k n a ++ m ≡ c
    same = ground (arith, e)

abbrev pub toy-IsLawful : IsLawful toy
toy-IsLawful = record {
  key_fits_iff = λ k. ==_iff (length k) 32;
  nonce_fits_iff = λ n. ==_iff (length n) 12;
  hkdf_total = λ salt ikm info n small.
      (replicate n ((sum salt + sum ikm + sum info) % 256), refl, length-replicate n _);
  encrypt_total = λ k n a m fits_key fits_nonce small. (prefix k n a ++ m, refl);
  decrypt-encrypt = λ k n a m c fits_key fits_nonce. toy_decrypt-encrypt k n a m c;
  length-sha256 = λ m. refl;
  length-public_key = λ s. refl;
  diffie_hellman_comm = λ a b. ap (replicate 32) (omega arith);
}
