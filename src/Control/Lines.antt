-- ===== src/Control/Lines.antt =====
-- The lines that control.rs reads, and the replies that a client gets for the requests that it sends.
use Prim.Native.String.{String}
use emersia.Base.{
  ℕ, zero, suc, ◌+◌, ◌≤◌, ◌<◌, Bool, true, false, ◌||◌, Option, none, some, List, [], ◌∷◌, ◌++◌,
  length, length-append, ltb, ◌==◌, if◌then◌else◌, Bool-cases, inl, inr, Result, ok, err, ◌≡◌, refl,
  ap, ◌∙◌, arith,
}
use emersia.Protocol.{Request, Response, decode_request, encode_response, newline, invalid_args}
use emersia.Service.{Service}
use emersia.Service.Handle.{Payload, err_response}
use emersia.Control.{
  max_line_bytes, RequestLine, eof, too_long, line, text_found, read_until, strip_newline, text_of,
  classified, read_request_line, Conversation, ended, broken, sent, respond, converse,
  handle_connection,
}

abbrev pub has_newline : List ℕ → Bool
has_newline [] = false
has_newline (b ∷ bytes) = (b == newline) || has_newline bytes

read_until-line :
    (limit : ℕ) (front rest : List ℕ)
    → has_newline front ≡ false
    → length front < limit
    → read_until limit (front ++ (newline ∷ rest)) ≡ (front ++ (newline ∷ []), rest)
unfolding read_until
read_until-line zero front rest clean h = absurd (omega arith)
read_until-line (suc limit) [] rest clean h = refl
read_until-line (suc limit) (b ∷ front) rest clean h =
    let b_clean : (b == newline) ≡ false = ground (arith, clean) in
    let front_clean : has_newline front ≡ false = ground (arith, clean) in
    simp (b_clean, read_until-line limit front rest front_clean (omega arith))

-- A line that is as long as the limit fills the buffer.
read_until-full :
    (limit : ℕ) (front : List ℕ) (b : ℕ) (rest : List ℕ)
    → has_newline front ≡ false
    → limit ≤ length front + 1
    → length (read_until limit (front ++ (b ∷ rest))).0 ≡ limit
unfolding read_until
read_until-full zero front b rest clean h = refl
read_until-full (suc zero) [] b rest clean h = elim (Bool-cases (b == newline)) [
  | inl e ↦ simp (e)
  | inr e ↦ simp (e)
]
read_until-full (suc (suc limit)) [] b rest clean h = absurd (omega arith)
read_until-full (suc limit) (c ∷ front) b rest clean h =
    let c_clean : (c == newline) ≡ false = ground (arith, clean) in
    let front_clean : has_newline front ≡ false = ground (arith, clean) in
    simp (c_clean, read_until-full limit front b rest front_clean (omega arith))

strip_newline-line : (front : List ℕ) → strip_newline (front ++ (newline ∷ [])) ≡ some front
unfolding strip_newline
strip_newline-line [] = refl
strip_newline-line (b ∷ []) = refl
strip_newline-line (b ∷ c ∷ front) = simp (strip_newline-line (c ∷ front))

module _ (from_utf8 : List ℕ → Option (List ℕ)) where
  classified-line :
      (front : List ℕ)
      → length front < max_line_bytes
      → classified from_utf8 (front ++ (newline ∷ [])) ≡ text_of from_utf8 front
  classified-line [] h = unfold strip_newline in refl
  classified-line (b ∷ front) h =
      let fits : ltb max_line_bytes (length (b ∷ (front ++ (newline ∷ [])))) ≡ false =
        ground (arith, h, length-append front (newline ∷ [])) in
      simp (fits, strip_newline-line (b ∷ front))

  classified-long :
      (buf : List ℕ) → max_line_bytes < length buf → classified from_utf8 buf ≡ ok too_long
  classified-long [] h = absurd (omega arith)
  classified-long (b ∷ buf) h =
      let over : ltb max_line_bytes (length (b ∷ buf)) ≡ true = ground (arith, h) in simp (over)

  read_request_line-fits :
      (front rest : List ℕ)
      → has_newline front ≡ false
      → length front < max_line_bytes
      → read_request_line from_utf8 (front ++ (newline ∷ rest)) ≡ (text_of from_utf8 front, rest)
  unfolding read_request_line
  read_request_line-fits front rest clean h =
      ap (λ r. (classified from_utf8 r.0, r.1))
        (read_until-line (max_line_bytes + 1) front rest clean (omega arith))
      ∙ ap (λ r. (r, rest)) (classified-line front h)

  read_request_line-long :
      (front rest : List ℕ)
      → has_newline front ≡ false
      → max_line_bytes ≤ length front
      → (read_request_line from_utf8 (front ++ (newline ∷ rest))).0 ≡ ok too_long
  unfolding read_request_line
  read_request_line-long front rest clean h =
      classified-long (read_until (max_line_bytes + 1) (front ++ (newline ∷ rest))).0 (
        omega
          (arith, read_until-full (max_line_bytes + 1) front newline rest clean (omega (arith, h))))

  -- A line of fewer than 65,536 bytes before its end is read as its text, and one of more is refused,
  -- whatever follows.
  pub read_request_line-line :
      (front rest : List ℕ)
      → has_newline front ≡ false
      → (read_request_line from_utf8 (front ++ (newline ∷ rest))).0
        ≡ (if ltb (length front) max_line_bytes then text_of from_utf8 front else ok too_long)
  read_request_line-line front rest clean = elim (Bool-cases (ltb (length front) max_line_bytes)) [
    | inl fits ↦
        rw fits (ap (λ r. r.0) (read_request_line-fits front rest clean (ground (arith, fits))))
    | inr long ↦ rw long (read_request_line-long front rest clean (ground (arith, long)))
  ]

module _ (from_utf8 : List ℕ → Option (List ℕ)) (trim : List ℕ → List ℕ)
    (from_str : List ℕ → Result String Request) (print : Response Payload → List ℕ)
    (serves : ℕ → Request → Service → Response Payload × Service) where
  abbrev to_string : Response Payload → Result String (List ℕ)
  to_string response = ok (print response)

  abbrev never_fails : ℕ → Option String
  never_fails n = none

  -- Requests, each in a line of its own.
  pub data AreRequests : List ℕ → List Request → Type 0 where
    none_left : AreRequests [] []
    one_more :
        (front text : List ℕ) (req : Request) (bytes : List ℕ) (reqs : List Request)
        → has_newline front ≡ false
        → length front < max_line_bytes
        → from_utf8 front ≡ some text
        → (length (trim text) == 0) ≡ false
        → decode_request trim from_str (trim text) ≡ ok req
        → AreRequests bytes reqs
        → AreRequests (front ++ (newline ∷ bytes)) (req ∷ reqs)

  -- The requests handled one after the other, and the lines of the replies.
  abbrev pub serve_all : ℕ → List Request → Service → Conversation
  serve_all n [] s = ended s
  serve_all n (req ∷ reqs) s =
      let (response, s') = serves n req s in
      let ((replies, finish), last) = serve_all (suc n) reqs s' in
      (((print response ++ (newline ∷ [])) ∷ replies, finish), last)

  abbrev replied : ℕ → ℕ → Service → List ℕ → List ℕ → Conversation
  replied rounds n s rest text = elim (length (trim text) == 0) [
    | true ↦ converse from_utf8 trim from_str to_string serves never_fails rounds n rest s
    | false ↦
        let (response, s') =
          respond from_utf8 trim from_str to_string serves never_fails n (trim text) s in
        sent from_utf8 trim from_str to_string serves never_fails
          (encode_response to_string response) none s'
          (converse from_utf8 trim from_str to_string serves never_fails rounds (suc n) rest s')
  ]

  abbrev round_of : ℕ → ℕ → Service → Result String RequestLine × List ℕ → Conversation
  round_of rounds n s r = elim r.0 [
    | err e ↦ broken e s
    | ok found ↦ elim found [
      | eof ↦ ended s
      | too_long ↦
          sent from_utf8 trim from_str to_string serves never_fails
            (encode_response to_string
              (err_response [] invalid_args "control request exceeds 65536 bytes"))
            none s (ended s)
      | line text ↦ replied rounds n s r.1 text
    ]
  ]

  converse-round :
      (rounds n : ℕ) (bytes : List ℕ) (s : Service)
      → converse from_utf8 trim from_str to_string serves never_fails (suc rounds) n bytes s
        ≡ round_of rounds n s (read_request_line from_utf8 bytes)
  unfolding converse
  converse-round rounds n bytes s = refl

  respond-request :
      (n : ℕ) (text : List ℕ) (req : Request) (s : Service)
      → decode_request trim from_str text ≡ ok req
      → respond from_utf8 trim from_str to_string serves never_fails n text s ≡ serves n req s
  unfolding respond
  respond-request n text req s e = rw (e, respond) refl

  sent_reply :
      (response : Response Payload) (s : Service) (later : Conversation)
      → sent from_utf8 trim from_str to_string serves never_fails
          (encode_response to_string response)
          none
          s
          later
        ≡ (((print response ++ (newline ∷ [])) ∷ later.0.0, later.0.1), later.1)
  unfolding encode_response
  sent_reply response s later = refl

  replied-request :
      (rounds n : ℕ) (s : Service) (rest text : List ℕ) (req : Request)
      → (length (trim text) == 0) ≡ false
      → decode_request trim from_str (trim text) ≡ ok req
      → replied rounds n s rest text ≡ (
          let (response, s') = serves n req s in
          let later =
            converse from_utf8 trim from_str to_string serves never_fails rounds (suc n) rest s' in
          (((print response ++ (newline ∷ [])) ∷ later.0.0, later.0.1), later.1))
  replied-request rounds n s rest text req some_text decoded =
      let later : Service → Conversation = λ s'.
        converse from_utf8 trim from_str to_string serves never_fails rounds (suc n) rest s' in
      let answer : Response Payload × Service → Conversation = λ r.
        sent from_utf8 trim from_str to_string serves never_fails (encode_response to_string r.0)
          none r.1 (later r.1) in
      ap
        (λ b. elim b [
          | true ↦ converse from_utf8 trim from_str to_string serves never_fails rounds n rest s
          | false ↦
              answer (respond from_utf8 trim from_str to_string serves never_fails n (trim text) s)
        ])
        some_text
      ∙ ap answer (respond-request n (trim text) req s decoded)
      ∙ sent_reply (serves n req s).0 (serves n req s).1 (later (serves n req s).1)

  converse-serve_all :
      (rounds n : ℕ) (bytes : List ℕ) (reqs : List Request) (s : Service)
      → AreRequests bytes reqs
      → length bytes < rounds
      → converse from_utf8 trim from_str to_string serves never_fails rounds n bytes s
        ≡ serve_all n reqs s
  converse-serve_all zero n bytes reqs s a h = absurd (omega arith)
  converse-serve_all (suc rounds) n bytes reqs s none_left h =
      converse-round rounds n [] s ∙ (unfold read_request_line in unfold read_until in refl)
  converse-serve_all (suc rounds) n bytes' reqs' s
        (one_more front text req bytes reqs clean fits utf8 some_text decoded rest) h =
      let served = serves n req s in
      converse-round rounds n (front ++ (newline ∷ bytes)) s
      ∙ ap (round_of rounds n s) (
          read_request_line-fits from_utf8 front bytes clean fits
          ∙ ap (λ o. (text_found o, bytes)) utf8)
      ∙ replied-request rounds n s bytes text req some_text decoded
      ∙ ap (λ c. (((print served.0 ++ (newline ∷ [])) ∷ c.0.0, c.0.1), c.1))
          (converse-serve_all rounds (suc n) bytes reqs served.1 rest
            (omega (arith, h, length-append front (newline ∷ bytes))))

  -- A client of the same user sends requests and then closes. If each stands in a line of its own, of
  -- fewer than 65,536 bytes before its end and in UTF-8, that is not empty and is decoded to the
  -- request, and if neither printing nor writing a reply fails, then the client gets the replies in
  -- that order, each in a line, and the service is as the handlers leave it one after the other.
  pub handle_connection-serve_all :
      (bytes : List ℕ) (reqs : List Request) (s : Service)
      → AreRequests bytes reqs
      → handle_connection from_utf8 trim from_str to_string serves never_fails true bytes s
        ≡ serve_all 0 reqs s
  unfolding handle_connection
  handle_connection-serve_all bytes reqs s a =
      converse-serve_all (suc (length bytes)) 0 bytes reqs s a (omega arith)
