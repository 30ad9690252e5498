-- ===== src/Tests/Control.antt =====
-- The theorems about control.rs at concrete inputs.
use Prim.Native.String.{String}
use emersia.Base.{ℕ, true, none, some, List, [], ◌∷◌, ◌++◌, Result, ok, ◌≡◌, refl, arith}
use emersia.Base.Text.{codes}
use emersia.Pairing.{default_db}
use emersia.Protocol
use emersia.Protocol.{Request, Response, success, failure, newline}
use emersia.Service.{Service, new_service}
use emersia.Service.Handle.{Payload, ok_response, of_stop}
use emersia.Control.{RequestLine, line, read_request_line, Conversation, handle_connection}
use emersia.Control.Slots.{
  Slots, no_slots, Step, accepted, finished, Steps, here, then_step, IsCounted, Steps-IsCounted,
}
use emersia.Control.Lines.{
  AreRequests, none_left, one_more, read_request_line-line, handle_connection-serve_all,
}

abbrev one_slot : Slots
one_slot = record { count = 1; workers = 1 }

one_accepted : Step no_slots one_slot
unfolding emersia.Control.Slots.try_acquire_connection
one_accepted = accepted no_slots 1 refl

Steps-IsCounted_example : IsCounted one_slot
Steps-IsCounted_example = Steps-IsCounted one_slot (then_step (here no_slots) one_accepted)

read_request_line-line_example :
    (read_request_line some (codes "stop" ++ (newline ∷ []))).0 ≡ ok (line (codes "stop"))
read_request_line-line_example = read_request_line-line some (codes "stop") [] refl

abbrev service : Service
service = new_service (record { db = default_db; file = none }) []

abbrev request : Request
request = record { v = 1; id = 49 ∷ []; command = Protocol.stop }

abbrev same : List ℕ → List ℕ
same text = text

abbrev parsed : List ℕ → Result String Request
parsed text = ok request

abbrev print : Response Payload → List ℕ
print (success r) = codes "ok"
print (failure r) = codes "error"

abbrev serves : ℕ → Request → Service → Response Payload × Service
serves n req s = (ok_response req.id of_stop, s)

are_requests :
    AreRequests some same parsed print serves (codes "stop" ++ (newline ∷ [])) (request ∷ [])
unfolding emersia.Protocol.decode_request
are_requests =
    one_more (codes "stop") (codes "stop") request [] [] refl (omega arith) refl refl refl none_left

handle_connection-serve_all_example :
    handle_connection some same parsed
      (λ response. ok (print response))
      serves
      (λ n. none)
      true
      (codes "stop" ++ (newline ∷ []))
      service
    ≡ ((((codes "ok" ++ (newline ∷ [])) ∷ []), ok tt), service)
handle_connection-serve_all_example =
    handle_connection-serve_all some same parsed print serves (codes "stop" ++ (newline ∷ []))
      (request ∷ []) service are_requests
