-- ===== src/Tests/Frames.antt =====
-- The theorems about fragments of transport/mod.rs at concrete inputs.
use emersia.Base.{ℕ, true, none, some, List, [], ◌∷◌, ◌≡◌, refl, arith}
use emersia.Transport.Record.{FrameHeader, record_header}
use emersia.Transport.Reassembly.{Reassembler, push}
use emersia.Transport.Reassembly.Valid.{Continues, push-IsValid}
use emersia.Transport.Reassembly.Delivery.{deliver, deliver_any_order}

abbrev payload : List ℕ
payload = 10 ∷ 20 ∷ 30 ∷ []

abbrev header : FrameHeader
header = record_header 9 4 1000 true 2 payload 1 3

abbrev empty : Reassembler
empty = record { current = none }

push-IsValid_example : Continues (push empty header payload)
push-IsValid_example = push-IsValid empty header payload tt

-- Three fragments, the last one first.
abbrev parts : List (List ℕ)
parts = (1 ∷ 2 ∷ []) ∷ (3 ∷ []) ∷ (4 ∷ 5 ∷ []) ∷ []

deliver_any_order_example :
    deliver parts header empty (2 ∷ 0 ∷ 1 ∷ [])
    ≡ some (none ∷ none ∷ some (1 ∷ 2 ∷ 3 ∷ 4 ∷ 5 ∷ []) ∷ [], empty)
deliver_any_order_example =
    deliver_any_order parts header empty (2 ∷ 0 ∷ 1 ∷ []) (omega arith) tt refl (ground arith)
      (ground arith)
