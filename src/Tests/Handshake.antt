-- ===== src/Tests/Handshake.antt =====
-- The theorems about transport/handshake.rs at concrete inputs.
use emersia.Base.{ℕ, some, List, [], ◌∷◌, replicate, ok, ◌≡◌, refl}
use emersia.Crypto.Session.Keys.{HasKeys}
use emersia.Transport.Handshake.{
  HandshakeClient, InitOutcome, new_client, new_server, init, accept_init, finish, confirm,
  verify_confirm,
}
use emersia.Transport.Handshake.Agreement.{handshake_agrees}
use emersia.Tests.Toy.{toy, toy-IsLawful}

abbrev pub id : List ℕ
id = 1 ∷ 2 ∷ 3 ∷ 4 ∷ 5 ∷ 6 ∷ 7 ∷ 8 ∷ []

-- The secrets of the device and of the host, and the two ephemeral ones.
abbrev pub ds : List ℕ
ds = 11 ∷ []

abbrev pub de : List ℕ
de = 13 ∷ []

abbrev pub hs : List ℕ
hs = 17 ∷ []

abbrev pub he : List ℕ
he = 19 ∷ []

abbrev pub client : HandshakeClient
client = new_client id ds (toy.public_key hs) de

handshake_agrees_example :
    (packet : List ℕ) × (waiting : HandshakeClient) × (out : InitOutcome) × (closing : List ℕ)
    × (init toy (some (replicate 12 1)) client ≡ ok (packet, waiting))
    × ((accept_init toy (some he) (some (replicate 12 2)) (new_server hs) packet).0 ≡ ok out)
    × (out.device_id ≡ id)
    × ((finish toy waiting out.response).0 ≡ ok out.session)
    × (confirm toy (some (replicate 12 3)) out.session ≡ ok closing)
    × (verify_confirm toy out.session closing ≡ ok tt)
    × HasKeys out.session
handshake_agrees_example =
    handshake_agrees toy toy-IsLawful id ds de hs he (replicate 12 1) (replicate 12 2)
      (replicate 12 3) refl refl refl refl refl refl refl
