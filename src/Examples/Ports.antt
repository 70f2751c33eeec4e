-- ===== src/Examples/Ports.antt =====
-- The theorems on ports, queues and deadlines at concrete states.
use moxa_4vrs_gateway.Prelude.{
  ℕ, ◌+◌, ◌≤◌, ◌<◌, ◌≡◌, refl, ◌⊎◌, inl, inr, true, false, ◌&&◌, List, [], ◌∷◌, ◌++◌, arith, ltb,
  leb, add32, pos, negsuc,
}
use mathlib.Core.List.{Perm}
use moxa_4vrs_gateway.Deadline.{half_range, deadline_after, deadline_expired}
use moxa_4vrs_gateway.Deadline.Window.{expired-after}
use moxa_4vrs_gateway.Queue.{empty, push}
use moxa_4vrs_gateway.Queue.Fifo.{Holds, push_refines, enqueue, contents}
use moxa_4vrs_gateway.Port.State.{Port, ready, waiting, reconfiguring}
use moxa_4vrs_gateway.Port.Control.{request_reconfigure, reconfigurable}
use moxa_4vrs_gateway.Port.Machine.{init, config_valid}
use moxa_4vrs_gateway.Port.Submit.{submit_operation}
use moxa_4vrs_gateway.Port.Step.{step}
use moxa_4vrs_gateway.Port.Valid.{IsValid}
use moxa_4vrs_gateway.Port.Transitions.{Moved, step-Moved}
use moxa_4vrs_gateway.Port.History.{history}
use moxa_4vrs_gateway.Port.Admission.{Outcome, requested, submit_operation-Outcome}
use moxa_4vrs_gateway.Port.Requests.{Arrived, request_reconfigure-Arrived}
use moxa_4vrs_gateway.Port.Life.{
  Call, submits, steps, cancels, stops, run, all_handed_out, run_conserves,
}
use moxa_4vrs_gateway.Port.Outcomes.{
  Dispatched, drop_expired, Answered, Settled, step_ready-Dispatched, step_waiting_response,
  step_reconfiguring-Settled,
}
use moxa_4vrs_gateway.Examples.{
  answer, device, question, port_in, port_in-IsValid, sent, two_queued, two_queued-IsValid, serial,
}

abbrev ready_port : Port ℕ
ready_port = port_in ready false (sent 0) two_queued

ready_port-IsValid : IsValid ready_port
ready_port-IsValid =
    port_in-IsValid ready false (sent 0) two_queued refl (inl refl) two_queued-IsValid

abbrev waiting_port : Port ℕ
waiting_port = port_in waiting true (sent 9) two_queued

waiting_port-IsValid : IsValid waiting_port
unfolding sent
waiting_port-IsValid =
    port_in-IsValid waiting true (sent 9) two_queued refl (inr refl) two_queued-IsValid

abbrev calls : List Call
calls = submits question 2 ∷ steps 3 ∷ steps 4 ∷ cancels 5 ∷ stops 6 9 ∷ []

run_conserves_example :
    IsValid (run device ready_port calls)
    × Perm
        (history (run device ready_port calls))
        (history ready_port ++ all_handed_out device ready_port calls)
run_conserves_example = run_conserves device ready_port calls ready_port-IsValid refl

step-Moved_example : Moved waiting_port (step device waiting_port 3)
step-Moved_example = step-Moved device waiting_port 3 waiting_port-IsValid.sound refl

-- The first queued transaction is late, and the second is taken.
step_ready-Dispatched_example :
    Dispatched ready_port (step device ready_port 50) 50 (drop_expired 50 (contents two_queued))
step_ready-Dispatched_example =
    step_ready-Dispatched device ready_port 50 ready_port-IsValid refl refl

step_waiting_response_example : Answered waiting_port (step device waiting_port 3) 3 (answer 1)
unfolding init
step_waiting_response_example =
    step_waiting_response device waiting_port 3 (pos 1) (answer 1) 1 waiting_port-IsValid refl refl
      refl refl refl refl refl

abbrev late_port : Port ℕ
late_port = record waiting_port { backend_context = 7 }

step_reconfiguring-Settled_example :
    Settled device
      (port_in reconfiguring false (sent 0) empty)
      (step device (port_in reconfiguring false (sent 0) empty) 3)
      3
step_reconfiguring-Settled_example =
    step_reconfiguring-Settled device (port_in reconfiguring false (sent 0) empty) 3 refl refl

submit_operation-Outcome_example :
    Outcome ready_port (requested ready_port question 3) (submit_operation ready_port question 3)
submit_operation-Outcome_example = submit_operation-Outcome ready_port question 3 ready_port-IsValid

push_refines_example : Holds (push two_queued (sent 3)) (enqueue (contents two_queued) (sent 3))
unfolding sent
push_refines_example = push_refines two_queued (sent 3) two_queued-IsValid (omega arith)

-- Across the wrap of the counter.
expired-after_example :
    deadline_expired (deadline_after 0xffff_fffe 5) (add32 0xffff_fffe 6)
    ≡ (ltb 5 half_range && leb 5 6 && ltb 6 (5 + half_range))
expired-after_example = expired-after 0xffff_fffe 5 6 (omega arith) (omega arith) (omega arith)

request_reconfigure-Arrived_example :
    let timeout : ℕ = 10 in
    (((config_valid serial ≡ false)
        ⊎ (timeout ≡ 0)
        ⊎ (half_range ≤ timeout)
        ⊎ (reconfigurable waiting ≡ false))
      × (request_reconfigure device waiting_port serial 3 10 ≡ (negsuc 0, waiting_port)))
    ⊎ ((config_valid serial ≡ true)
        × (0 < timeout)
        × (timeout < half_range)
        × (reconfigurable waiting ≡ true)
        × Arrived waiting_port reconfiguring []
            (request_reconfigure device waiting_port serial 3 10))
request_reconfigure-Arrived_example =
    request_reconfigure-Arrived device waiting_port serial 3 10 waiting_port-IsValid
