-- ===== src/Approval/Examples.antt =====
-- A run of the gate with two requests of one call, and the theorems at it.
use harness_ai.Prelude.{◌≡◌, refl, List, [], ◌∷◌}
use harness_ai.Domain.{AskResolution}
use harness_ai.Approval.{PendingKey, Gate, new_gate}
use harness_ai.Approval.Steps.{
  Label, requested, taken, sent, returned, register, take, send, receive, takes, Run, start, next,
  request_step, take_step, send_step, receive_step,
}
use harness_ai.Approval.Once.{Run-agreed}
use harness_ai.Approval.Awake.{Answerable, Run-Answerable}

abbrev call : PendingKey
call = record { session_id = "s"; call_id = "c1" }

abbrev asked_twice : Gate
asked_twice = register (register new_gate call) call

abbrev answered : Gate
answered =
    receive (send (take asked_twice call AskResolution.allowed 1) 1 AskResolution.allowed) 1
      AskResolution.allowed

abbrev labels : List Label
labels =
    returned 1
    ∷ sent 1
    ∷ taken call AskResolution.allowed 1
    ∷ requested call 1
    ∷ requested call 0
    ∷ []

answered-Run : Run labels answered
unfolding register take send receive
answered-Run =
    next
      (next
        (next (next (next start (request_step call)) (request_step call))
          (take_step call AskResolution.allowed 1 refl))
        (send_step 1 AskResolution.allowed refl))
      (receive_step 1 AskResolution.allowed refl refl)

Run-agreed_example : takes 1 labels ≡ (call, AskResolution.allowed) ∷ []
unfolding register take send receive
Run-agreed_example = Run-agreed 1 AskResolution.allowed answered-Run refl

-- The first request waits on, since the second has taken its place.
Run-Answerable_example : Answerable answered 0
unfolding register take send receive
Run-Answerable_example = Run-Answerable 0 answered-Run refl
