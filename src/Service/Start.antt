-- ===== src/Service/Start.antt =====
-- When a stream begins and ends in service.rs.
use Prim.Native.String.{String}
use emersia.Base.{
  ℕ, Bool, true, false, not, ◌&&◌, ◌||◌, or_false, or_true, Option, none, some, is_some, List,
  Bool-cases, inl, inr, ltb, ◌==◌, if◌then◌else◌, ◌≡◌, refl, sym, subst,
}
use emersia.Protocol
use emersia.Protocol.{StartArgs, Command, Request, Response, success, failure, protocol_version}
use emersia.Service.{Inner}
use emersia.Service.Handle.{
  Payload, err_response, chosen, is_offered, begun, begin_stream, with_fps, handle_start,
}

abbrev pub is_success : Response Payload → Bool
is_success (success r) = true
is_success (failure r) = false

abbrev pub fps_fits : Option ℕ → Bool
fps_fits none = true
fps_fits (some fps) = not ((fps == 0) || ltb 240 fps)

-- The conditions of `start`, independently of the order in which they are tested.
abbrev pub can_start : StartArgs → Inner → Bool
can_start args inner =
    not inner.streaming
    && (is_offered args.output inner.outputs
        && (fps_fits args.fps && is_some (chosen args.output inner)))

-- What an answer to `start` and the state after it say.
abbrev pub Answers : Bool → StartArgs → Inner → Response Payload × Inner → Type 0
Answers started args inner (response, inner') =
    (is_success response ≡ started)
    × ((inner'.streaming ≡ inner.streaming || started)
        × ((inner'.selected ≡ (if started then chosen args.output inner else inner.selected))
            × (inner'.last_error ≡ (if started then none else inner.last_error))))

module _ (id : List ℕ) (args : StartArgs) where
  refusal :
      (code : Protocol.ErrorCode) (why : String) (inner : Inner)
      → Answers false args inner (err_response id code why, inner)
  refusal code why inner = (refl, (sym (or_false inner.streaming), (refl, refl)))

  begun-Answers :
      (inner : Inner) (o : Option (List ℕ))
      → chosen args.output inner ≡ o
      → Answers (is_some o) args inner (begun id inner o)
  begun-Answers inner none e =
      refusal Protocol.no_capture_backend "no outputs detected on this compositor" inner
  begun-Answers inner (some name) e = (refl, (sym (or_true inner.streaming), (sym e, refl)))

  begin_stream-Answers :
      (inner : Inner)
      → Answers (is_some (chosen args.output inner)) args inner (begin_stream id args.output inner)
  begin_stream-Answers inner =
      unfold begin_stream in begun-Answers inner (chosen args.output inner) refl

  with_fps-bad :
      (inner : Inner) (fps : ℕ)
      → (fps == 0) || ltb 240 fps ≡ true
      → with_fps id args.output (some fps) inner
        ≡ (err_response id Protocol.invalid_args "fps must be 1..=240", inner)
  unfolding with_fps
  with_fps-bad inner fps bad = simp (bad)

  with_fps-fits :
      (inner : Inner) (fps : ℕ)
      → (fps == 0) || ltb 240 fps ≡ false
      → with_fps id args.output (some fps) inner
        ≡ begin_stream id args.output (record inner { fps_target = fps })
  unfolding with_fps
  with_fps-fits inner fps fits = simp (fits)

  with_fps-Answers :
      (inner : Inner) (fps : Option ℕ)
      → Answers
          (fps_fits fps && is_some (chosen args.output inner))
          args
          inner
          (with_fps id args.output fps inner)
  with_fps-Answers inner none = unfold with_fps in begin_stream-Answers inner
  with_fps-Answers inner (some fps) = elim (Bool-cases ((fps == 0) || ltb 240 fps)) [
    | inl bad ↦
        subst
          (λ b.
            Answers (not b && is_some (chosen args.output inner)) args inner
              (with_fps id args.output (some fps) inner))
          (sym bad)
          (subst (Answers false args inner) (sym (with_fps-bad inner fps bad))
            (refusal Protocol.invalid_args "fps must be 1..=240" inner))
    | inr fits ↦
        subst
          (λ b.
            Answers (not b && is_some (chosen args.output inner)) args inner
              (with_fps id args.output (some fps) inner))
          (sym fits)
          (subst (Answers (is_some (chosen args.output inner)) args inner)
            (sym (with_fps-fits inner fps fits))
            (begin_stream-Answers (record inner { fps_target = fps })))
  ]

  pub handle_start-busy :
      (inner : Inner)
      → inner.streaming ≡ true
      → handle_start id args inner ≡ (err_response id Protocol.busy "already streaming", inner)
  unfolding handle_start
  handle_start-busy inner e = simp (e)

  pub handle_start-unknown :
      (inner : Inner)
      → inner.streaming ≡ false
      → is_offered args.output inner.outputs ≡ false
      → handle_start id args inner
        ≡ (err_response id Protocol.not_found "no output of that name", inner)
  unfolding handle_start
  handle_start-unknown inner e e' = simp (e, e')

  pub handle_start-goes :
      (inner : Inner)
      → inner.streaming ≡ false
      → is_offered args.output inner.outputs ≡ true
      → handle_start id args inner ≡ with_fps id args.output args.fps inner
  unfolding handle_start
  handle_start-goes inner e e' = simp (e, e')

-- `start` succeeds just when no stream is on, the output asked for is known, the rate asked for is
-- between 1 and 240, and there is an output to take. Then the stream is on with that output and the
-- error is cleared; otherwise the stream, the selection and the error are as they were.
pub handle_start-Answers :
    (id : List ℕ) (args : StartArgs) (inner : Inner)
    → Answers (can_start args inner) args inner (handle_start id args inner)
handle_start-Answers id args inner = elim (Bool-cases inner.streaming) [
  | inl on ↦
      subst (λ r. Answers (can_start args inner) args inner r)
        (sym (handle_start-busy id args inner on))
        (by_result (err_response id Protocol.busy "already streaming", inner) false (simp (on))
          (refusal id args Protocol.busy "already streaming" inner))
  | inr off ↦ elim (Bool-cases (is_offered args.output inner.outputs)) [
    | inr unknown ↦
        subst (λ r. Answers (can_start args inner) args inner r)
          (sym (handle_start-unknown id args inner off unknown))
          (by_result (err_response id Protocol.not_found "no output of that name", inner) false
            (simp (off, unknown))
            (refusal id args Protocol.not_found "no output of that name" inner))
    | inl known ↦
        subst (λ r. Answers (can_start args inner) args inner r)
          (sym (handle_start-goes id args inner off known))
          (by_result (with_fps id args.output args.fps inner)
            (fps_fits args.fps && is_some (chosen args.output inner)) (simp (off, known))
            (with_fps-Answers id args inner args.fps))
  ]
]
  where
    by_result :
        (r : Response Payload × Inner) (b : Bool)
        → can_start args inner ≡ b
        → Answers b args inner r
        → Answers (can_start args inner) args inner r
    by_result r b e a = subst (λ c. Answers c args inner r) (sym e) a
