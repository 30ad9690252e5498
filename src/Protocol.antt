-- ===== src/Protocol.antt =====
-- host/crates/emersia-protocol/src/lib.rs: the requests and replies of the control socket. A text is
-- the list of its code points, and `serde_json` and `str::trim` are arguments. The JSON of a reply is
-- a value of any type.
use Prim.Native.String.{String}
use emersia.Base.{
  ℕ, Bool, not, Option, List, [], ◌∷◌, ◌++◌, ◌==◌, if◌then◌else◌, Result, ok, err, ◌≡◌, ap, ◌∙◌,
}

abbrev pub protocol_version : ℕ
protocol_version = 1

pub data ErrorCode : Type 0 where
  unknown_cmd not_paired busy no_capture_backend denied invalid_args not_found internal : ErrorCode

pub record ErrorInfo : Type 0 where
  pub code : ErrorCode
  pub message : String

pub record StartArgs : Type 0 where
  pub output : Option (List ℕ)
  pub fps : Option ℕ

pub data PairAction : Type 0 where
  new accept : PairAction

pub record PairArgs : Type 0 where
  pub action : PairAction
  pub code : Option (List ℕ)
  pub name : Option (List ℕ)
  pub public_key : Option (List ℕ)

pub record DeviceInfo : Type 0 where
  pub id : List ℕ
  pub name : List ℕ
  pub paired_at : ℕ
  pub revoked : Bool

pub record RevokeArgs : Type 0 where
  pub device : List ℕ

pub record SelectArgs : Type 0 where
  pub targets : List (List ℕ)

pub data Command : Type 0 where
  status screens : Command
  start : StartArgs → Command
  stop events : Command
  pair : PairArgs → Command
  devices : Command
  revoke : RevokeArgs → Command
  select : SelectArgs → Command
  unknown : Command

pub record Request : Type 0 where
  pub v : ℕ
  pub id : List ℕ
  pub command : Command

pub record ResponseOk (Value : Type 0) : Type 0 where
  pub v : ℕ
  pub id : List ℕ
  pub payload : Value

pub record ResponseErr : Type 0 where
  pub v : ℕ
  pub id : List ℕ
  pub error : ErrorInfo

pub data Response (Value : Type 0) : Type 0 where
  success : ResponseOk Value → Response Value
  failure : ResponseErr → Response Value

pub data ProtocolError : Type 0 where
  json : String → ProtocolError
  version : (found expected : ℕ) → ProtocolError

-- `\n`
abbrev pub newline : ℕ
newline = 10

-- The line's end, behind what `serde_json::to_string` gives.
abbrev with_end : Result String (List ℕ) → Result ProtocolError (List ℕ)
with_end (err e) = err (json e)
with_end (ok line) = ok (line ++ (newline ∷ []))

unfoldable pub encode_request :
    (Request → Result String (List ℕ)) → Request → Result ProtocolError (List ℕ)
encode_request to_string req = with_end (to_string req)

unfoldable pub encode_response :
    {Value : Type 0}
    → (Response Value → Result String (List ℕ))
    → Response Value
    → Result ProtocolError (List ℕ)
encode_response to_string res = with_end (to_string res)

abbrev of_version : Result String Request → Result ProtocolError Request
of_version (err e) = err (json e)
of_version (ok req) =
    if not (req.v == protocol_version) then err (version req.v protocol_version) else ok req

module _ (trim : List ℕ → List ℕ) where
  unfoldable pub decode_request :
      (List ℕ → Result String Request) → List ℕ → Result ProtocolError Request
  decode_request from_str line = of_version (from_str (trim line))

  unfoldable pub decode_response :
      {Value : Type 0}
      → (List ℕ → Result String (Response Value))
      → List ℕ
      → Result ProtocolError (Response Value)
  decode_response from_str line = elim (from_str (trim line)) [
    | err e ↦ err (json e)
    | ok res ↦ ok res
  ]

-- A request that is written as a line and read again, by a JSON printer and a parser that agree on it
-- and a `trim` that takes the line's end away, is that request if it is of this version, and is
-- refused for its version if it is of another.
pub encode_request-decode_request :
    (to_string : Request → Result String (List ℕ)) (from_str : List ℕ → Result String Request)
    (trim : List ℕ → List ℕ) (req : Request) (line : List ℕ)
    → to_string req ≡ ok line
    → from_str line ≡ ok req
    → trim (line ++ (newline ∷ [])) ≡ line
    → (encode_request to_string req ≡ ok (line ++ (newline ∷ [])))
      × (decode_request trim from_str (line ++ (newline ∷ [])) ≡ (
          if not (req.v == protocol_version) then err (version req.v protocol_version) else ok req))
encode_request-decode_request to_string from_str trim req line printed parsed trimmed = (
  unfold encode_request in ap with_end printed,
  unfold decode_request in ap (λ l. of_version (from_str l)) trimmed ∙ ap of_version parsed,
)
