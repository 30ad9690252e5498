-- ===== src/Control.antt =====
-- host/crates/emersia-daemon/src/control.rs: the lines of a connection and the replies to them. The
-- children have the connection slots and the laws of the lines. What a client sends before it closes
-- is a list of bytes; `serde_json`, `str::from_utf8` and `str::trim` are arguments, and so are the
-- credentials' check and the errors of `write_all`. A reply is what was written of it.
pub mod Slots
pub mod Lines
use Prim.Native.String.{String}
use emersia.Base.{
  ℕ, zero, suc, ◌+◌, ◌*◌, ◌-◌, Bool, true, false, not, Option, none, some, List, [], ◌∷◌, length,
  take, drop, ltb, leb, ◌==◌, if◌then◌else◌, Result, ok, err,
}
use emersia.Protocol.{
  ErrorCode, denied, invalid_args, Request, Response, ProtocolError, json, version, decode_request,
  encode_response, newline,
}
use emersia.Service.{Service}
use emersia.Service.Handle.{Payload, err_response}

abbrev pub max_line_bytes : ℕ
max_line_bytes = 64 * 1024

pub data RequestLine : Type 0 where
  eof too_long : RequestLine
  line : List ℕ → RequestLine

-- The bytes to the first end of a line, or as many as the limit allows, and those after.
unfoldable pub read_until : ℕ → List ℕ → List ℕ × List ℕ
read_until zero bytes = ([], bytes)
read_until (suc limit) [] = ([], [])
read_until (suc limit) (b ∷ bytes) =
    if b == newline
    then (b ∷ [], bytes)
    else (let (read, rest) = read_until limit bytes in (b ∷ read, rest))

-- `ends_with` and `strip_suffix`: what stands before the end of the line.
unfoldable pub strip_newline : List ℕ → Option (List ℕ)
strip_newline [] = none
strip_newline (b ∷ []) = if b == newline then some [] else none
strip_newline (b ∷ c ∷ bytes) = elim (strip_newline (c ∷ bytes)) [
  | none ↦ none
  | some front ↦ some (b ∷ front)
]

abbrev pub text_found : Option (List ℕ) → Result String RequestLine
text_found none = err "invalid utf-8"
text_found (some text) = ok (line text)

module _ (from_utf8 : List ℕ → Option (List ℕ)) where
  abbrev pub text_of : List ℕ → Result String RequestLine
  text_of front = text_found (from_utf8 front)

  abbrev pub line_of : Option (List ℕ) → Result String RequestLine
  line_of none = ok too_long
  line_of (some front) = text_of front

  abbrev pub classified : List ℕ → Result String RequestLine
  classified [] = ok eof
  classified (b ∷ buf) =
      if ltb max_line_bytes (length (b ∷ buf))
      then ok too_long
      else line_of (strip_newline (b ∷ buf))

  unfoldable pub read_request_line : List ℕ → Result String RequestLine × List ℕ
  unfolding read_until
  read_request_line bytes =
      let (buf, rest) = read_until (max_line_bytes + 1) bytes in (classified buf, rest)

unfoldable pub error_response : List ℕ → ProtocolError → Response Payload
error_response id (version found expected) = err_response id denied "unsupported protocol version"
error_response id (json e) = err_response id invalid_args "malformed JSON line"

-- The replies that were written, how the connection ended, and the service then.
abbrev pub Conversation : Type 0
Conversation = (List (List ℕ) × Result String (Unit {0})) × Service

abbrev pub ended : Service → Conversation
ended s = (([], ok tt), s)

abbrev pub broken : String → Service → Conversation
broken e s = (([], err e), s)

-- `write_error n` is the error of the n-th reply's `write_all` or `flush`, and `serves n` handles the
-- n-th request.
module _ (from_utf8 : List ℕ → Option (List ℕ)) (trim : List ℕ → List ℕ)
    (from_str : List ℕ → Result String Request)
    (to_string : Response Payload → Result String (List ℕ))
    (serves : ℕ → Request → Service → Response Payload × Service)
    (write_error : ℕ → Option String) where
  abbrev pub sent :
      Result ProtocolError (List ℕ) → Option String → Service → Conversation → Conversation
  sent (err e) failed s later = broken "encoding" s
  sent (ok bytes) (some e) s later = broken e s
  sent (ok bytes) none s ((replies, finish), s') = ((bytes ∷ replies, finish), s')

  unfoldable pub respond : ℕ → List ℕ → Service → Response Payload × Service
  respond n text s = elim (decode_request trim from_str text) [
    | err e ↦ (error_response [] e, s)
    | ok req ↦ serves n req s
  ]

  -- Each round reads a byte at least. The reply to a line that is too long is the last.
  unfoldable pub converse : ℕ → ℕ → List ℕ → Service → Conversation
  converse zero n bytes s = ended s
  converse (suc rounds) n bytes s =
      let (read, rest) = read_request_line from_utf8 bytes in
      elim read [
        | err e ↦ broken e s
        | ok found ↦ elim found [
          | eof ↦ ended s
          | too_long ↦
              sent
                (encode_response to_string
                  (err_response [] invalid_args "control request exceeds 65536 bytes"))
                (write_error n) s (ended s)
          | line text ↦ elim (length (trim text) == 0) [
            | true ↦ converse rounds n rest s
            | false ↦
                let (response, s') = respond n (trim text) s in
                sent (encode_response to_string response) (write_error n) s'
                  (converse rounds (suc n) rest s')
          ]
        ]
      ]

  -- A peer of another user is not read from.
  unfoldable pub handle_connection : Bool → List ℕ → Service → Conversation
  unfolding converse
  handle_connection peer_is_same_uid bytes s =
      if not peer_is_same_uid
      then broken "rejected peer with mismatched UID" s
      else converse (suc (length bytes)) 0 bytes s
