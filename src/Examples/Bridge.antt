-- ===== src/Examples/Bridge.antt =====
-- A concrete run of src/bridge/client.ts.
use fire_sync.Prelude.{String, ◌≡◌, true, false, none, List, [], ◌∷◌}
use fire_sync.Prelude.Result.{ok, err}
use fire_sync.Bridge.Client.{
  bridge_error, new_client, Event, called, message, timed_out, port_lost, BridgeClient, run, step,
  call, on_message, teardown,
}
use fire_sync.Bridge.Client.Once.{IsOnce, count, ids, run-Once, run-ended}

-- Two calls, the second answered, an answer to no call, a call that cannot be posted, and a timer.
abbrev events : List (Event String)
events =
    called true true
    ∷ called true true
    ∷ message 2 (ok "info")
    ∷ message 9 (err ("late", none))
    ∷ called true false
    ∷ timed_out 1
    ∷ called true true
    ∷ []

run-Once_example : IsOnce 2 (run events (new_client String))
run-Once_example = run-Once events 2

abbrev lost : BridgeClient String
lost = step (port_lost (bridge_error "lost" none)) (run events (new_client String))

run-ended_example : (lost.pending ≡ []) × (lost.port ≡ false) × (count 4 (ids lost.settled) ≡ 1)
unfolding run step call on_message teardown
run-ended_example = run-ended events (port_lost (bridge_error "lost" none)) 4 tt
