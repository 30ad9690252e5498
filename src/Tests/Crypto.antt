-- ===== src/Tests/Crypto.antt =====
-- The theorems about crypto.rs at concrete inputs.
use emersia.Base.{ℕ, some, List, [], ◌∷◌, replicate, ok, ◌≡◌, refl, arith}
use emersia.Crypto.Aad.{host_to_device}
use emersia.Crypto.Session.{Session}
use emersia.Crypto.Session.Keys.{HasKeys}
use emersia.Crypto.Session.Transcript.{transcript_input_injective}
use emersia.Crypto.Seal.{seal, open_sealed}
use emersia.Crypto.Seal.RoundTrip.{open_sealed-seal}
use emersia.Crypto.Code.{generate, parse, display}
use emersia.Crypto.Code.RoundTrip.{IsCode, generate-parse}
use emersia.Tests.Toy.{toy, toy-IsLawful}

abbrev parts : List (List ℕ)
parts = (1 ∷ 2 ∷ []) ∷ [] ∷ (3 ∷ []) ∷ []

transcript_input_injective_example : parts ≡ parts
transcript_input_injective_example =
    transcript_input_injective parts parts (ground arith) (ground arith) refl

abbrev session : Session
session = record {
  host_to_device_keys = record { key = replicate 32 5 };
  device_to_host_keys = record { key = replicate 32 6 };
  salt = replicate 16 0;
}

session-HasKeys : HasKeys session
session-HasKeys = record { host_to_device_32 = refl; device_to_host_32 = refl }

open_sealed-seal_example :
    (sealed : List ℕ) × (seal toy (some (replicate 12 9)) session host_to_device 7 (1 ∷ 2 ∷ 3 ∷ [])
      ≡ ok sealed)
    × (open_sealed toy session host_to_device 7 sealed ≡ ok (1 ∷ 2 ∷ 3 ∷ []))
open_sealed-seal_example =
    open_sealed-seal toy toy-IsLawful session session-HasKeys (replicate 12 9) refl host_to_device 7
      (1 ∷ 2 ∷ 3 ∷ []) (omega arith)

-- `12 34-56`
abbrev typed : List ℕ
typed = 49 ∷ 50 ∷ 32 ∷ 51 ∷ 52 ∷ 45 ∷ 53 ∷ 54 ∷ []

abbrev code : List ℕ
code = 49 ∷ 50 ∷ 51 ∷ 52 ∷ 53 ∷ 54 ∷ []

-- Two of the bytes are rejected.
abbrev random_bytes : List ℕ
random_bytes = 250 ∷ 1 ∷ 2 ∷ 3 ∷ 255 ∷ 4 ∷ 5 ∷ 6 ∷ []

generate-parse_example :
    (c : List ℕ) × (generate random_bytes ≡ ok c) × IsCode c × (parse (display c) ≡ ok c)
generate-parse_example = generate-parse random_bytes (ground arith)
