-- ===== src/Transport/Handshake/Schedule.antt =====
-- The key schedule of transport/handshake.rs never fails on lawful libraries.
use emersia.Base.{ℕ, ◌++◌, List, concat, ok, ◌≡◌, arith}
use emersia.Crypto.Primitives.{Primitives, IsLawful}
use emersia.Crypto.Session.{Session}
use emersia.Crypto.Session.Keys.{HasKeys, from_key_material-HasKeys}
use emersia.Transport.Handshake.{context, master_key, key_session}

module _ (p : Primitives) (lawful : IsLawful p) where
  pub master_key-total :
      (parts : List (List ℕ)) (salt label : List ℕ)
      → (k : List ℕ) × (master_key p parts salt label ≡ ok k)
  unfolding master_key
  master_key-total parts salt label =
      let (k, e, _) = lawful.hkdf_total salt (concat parts) (context ++ label) 32 (omega arith) in
      (k, rw e)

  pub key_session-total :
      (k salt label : List ℕ) → (s : Session) × (key_session p k salt label ≡ ok s) × HasKeys s
  unfolding key_session
  key_session-total k salt label =
      let (s, e, keys) = from_key_material-HasKeys p lawful k salt (context ++ label) in
      (s, rw e, keys)
