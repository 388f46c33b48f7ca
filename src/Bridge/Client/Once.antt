-- ===== src/Bridge/Client/Once.antt =====
-- How the calls of src/bridge/client.ts end.
use fire_sync.Prelude.{
  ℕ, suc, ◌+◌, ◌≤◌, ◌≡◌, refl, ap, Bool, true, false, ◌&&◌, List, [], ◌∷◌, ◌++◌, map, eqb, ltb, leb,
  if◌then◌else◌, arith, Bool-cases, inl, inr,
}
use fire_sync.Prelude.Result.{Result}
use fire_sync.Bridge.Client.{
  BridgeFailure, BridgeClient, new_client, Settled, Event, called, message, port_lost, timed_out,
  disconnected, has_id, without_id, settle, rejected, on_message, teardown, call, call_with,
  disconnect, step, run,
}

-- How often an id stands in a list.
abbrev pub count : ℕ → List ℕ → ℕ
count id [] = 0
count id (i ∷ is) = let rest = count id is in if eqb i id then suc rest else rest

count-append : (id : ℕ) (is js : List ℕ) → count id (is ++ js) ≡ count id is + count id js
count-append id [] js = omega arith
count-append id (i ∷ is) js = ground (arith, count-append id is js)

count-without :
    (id j : ℕ) (is : List ℕ) → count id (without_id j is) ≡ (if eqb j id then 0 else count id is)
count-without id j [] = ground arith
count-without id j (i ∷ is) = ground (arith, count-without id j is)

count-has : (id : ℕ) (is : List ℕ) → has_id id is ≡ true → 1 ≤ count id is
count-has id (i ∷ is) h = elim (Bool-cases (eqb i id)) [
  | inl same ↦ ground arith
  | inr other ↦ ground (arith, count-has id is (ground arith))
]
count-has id [] h = cc

module _ {T : Type 0} where
  abbrev pub ids : List (Settled T) → List ℕ
  ids l = map (λ s. s.0) l

  ids-rejected :
      (failure : BridgeFailure) (is : List ℕ) (l : List (Settled T))
      → ids (rejected failure is ++ l) ≡ is ++ ids l
  ids-rejected failure [] l = refl
  ids-rejected failure (i ∷ is) l = ap (λ r. i ∷ r) (ids-rejected failure is l)

  -- An id that was given out is pending or has ended, once; no other is either.
  abbrev pub IsOnce : ℕ → BridgeClient T → Type 0
  IsOnce id c =
      count id c.pending + count id (ids c.settled)
      ≡ (if leb 1 id && ltb id c.next_id then 1 else 0)

  settle-IsOnce :
      (id j : ℕ) (o : Result BridgeFailure T) (c : BridgeClient T)
      → IsOnce id c
      → IsOnce id (settle j o c)
  settle-IsOnce id j o c h = elim (Bool-cases (has_id j c.pending)) [
    | inr absent ↦ rw absent h
    | inl there ↦
        rw there (ground (arith, h, count-without id j c.pending, count-has j c.pending there))
  ]

  teardown-IsOnce :
      (id : ℕ) (failure : BridgeFailure) (c : BridgeClient T)
      → IsOnce id c
      → IsOnce id (teardown failure c)
  unfolding teardown
  teardown-IsOnce id failure c h =
      rw (ids-rejected failure c.pending c.settled, count-append id c.pending (ids c.settled))
        (omega (arith, h))

  call-IsOnce :
      (id : ℕ) (connects posts port : Bool) (c : BridgeClient T)
      → 1 ≤ c.next_id
      → IsOnce id c
      → IsOnce id (call_with port connects posts c)
  call-IsOnce id connects true true c low h = ground (arith, h)
  call-IsOnce id connects false true c low h = ground (arith, h)
  call-IsOnce id true true false c low h = ground (arith, h)
  call-IsOnce id true false false c low h = ground (arith, h)
  call-IsOnce id false posts false c low h = h

  call-next :
      (connects posts port : Bool) (c : BridgeClient T)
      → 1 ≤ c.next_id
      → 1 ≤ (call_with port connects posts c).next_id
  call-next connects true true c low = omega arith
  call-next connects false true c low = omega arith
  call-next true true false c low = omega arith
  call-next true false false c low = omega arith
  call-next false posts false c low = low

  settle-next :
      (j : ℕ) (o : Result BridgeFailure T) (c : BridgeClient T)
      → 1 ≤ c.next_id
      → 1 ≤ (settle j o c).next_id
  settle-next j o c low = elim (Bool-cases (has_id j c.pending)) [
    | inr absent ↦ rw absent low
    | inl there ↦ rw there low
  ]

  step-IsOnce :
      (id : ℕ) (e : Event T) (c : BridgeClient T)
      → 1 ≤ c.next_id
      → IsOnce id c
      → (1 ≤ (step e c).next_id) × IsOnce id (step e c)
  unfolding step on_message disconnect call teardown
  step-IsOnce id (called connects posts) c low h =
      (call-next connects posts c.port c low, call-IsOnce id connects posts c.port c low h)
  step-IsOnce id (message j answer) c low h = (settle-next j _ c low, settle-IsOnce id j _ c h)
  step-IsOnce id (port_lost failure) c low h =
      (low, teardown-IsOnce id failure (record c { port = false }) h)
  step-IsOnce id (timed_out j) c low h = (settle-next j _ c low, settle-IsOnce id j _ c h)
  step-IsOnce id disconnected c low h = (low, teardown-IsOnce id _ (record c { port = false }) h)

  step-next : (e : Event T) (c : BridgeClient T) → 1 ≤ c.next_id → 1 ≤ (step e c).next_id
  unfolding step on_message disconnect call teardown
  step-next (called connects posts) c low = call-next connects posts c.port c low
  step-next (message j answer) c low = settle-next j _ c low
  step-next (port_lost failure) c low = low
  step-next (timed_out j) c low = settle-next j _ c low
  step-next disconnected c low = low

  run-from :
      (id : ℕ) (es : List (Event T)) (c : BridgeClient T)
      → 1 ≤ c.next_id
      → IsOnce id c
      → IsOnce id (run es c)
  unfolding run
  run-from id [] c low h = h
  run-from id (e ∷ es) c low h =
      let (low', h') = step-IsOnce id e c low h in run-from id es (step e c) low' h'

  -- Whatever the host answers, and whenever timers fire and the port is lost, each id that was given to
  -- a call is either pending or has ended, and that once; no other id is either.
  pub run-Once : (es : List (Event T)) (id : ℕ) → IsOnce id (run es (new_client T))
  run-Once es id = run-from id es (new_client T) (omega arith) (ground arith)

  -- The loss of the port, and `disconnect`.
  abbrev pub IsEnd : Event T → Type 0
  IsEnd (called connects posts) = ⊥
  IsEnd (message id answer) = ⊥
  IsEnd (port_lost failure) = Unit
  IsEnd (timed_out id) = ⊥
  IsEnd disconnected = Unit

  ends-pending : (e : Event T) (c : BridgeClient T) → IsEnd e → (step e c).pending ≡ []
  unfolding step disconnect teardown
  ends-pending (port_lost failure) c h = refl
  ends-pending disconnected c h = refl
  ends-pending (called connects posts) c h = absurd h
  ends-pending (message id answer) c h = absurd h
  ends-pending (timed_out id) c h = absurd h

  ends-port : (e : Event T) (c : BridgeClient T) → IsEnd e → (step e c).port ≡ false
  unfolding step disconnect teardown
  ends-port (port_lost failure) c h = refl
  ends-port disconnected c h = refl
  ends-port (called connects posts) c h = absurd h
  ends-port (message id answer) c h = absurd h
  ends-port (timed_out id) c h = absurd h

  ends-next : (e : Event T) (c : BridgeClient T) → IsEnd e → (step e c).next_id ≡ c.next_id
  unfolding step disconnect teardown
  ends-next (port_lost failure) c h = refl
  ends-next disconnected c h = refl
  ends-next (called connects posts) c h = absurd h
  ends-next (message id answer) c h = absurd h
  ends-next (timed_out id) c h = absurd h

  run-next : (es : List (Event T)) (c : BridgeClient T) → 1 ≤ c.next_id → 1 ≤ (run es c).next_id
  unfolding run
  run-next [] c low = low
  run-next (e ∷ es) c low = run-next es (step e c) (step-next e c low)

  -- When the port is lost or the client disconnects, whatever happened before, no call is left pending,
  -- there is no port, and every id that was given to a call has ended once.
  pub run-ended :
      (es : List (Event T)) (e : Event T) (id : ℕ)
      → IsEnd e
      → let before = run es (new_client T) in
        let after = step e before in
        (after.pending ≡ [])
        × (after.port ≡ false)
        × (count id (ids after.settled) ≡ (if leb 1 id && ltb id before.next_id then 1 else 0))
  run-ended es e id h =
      let c = run es (new_client T) in
      let none_left = ends-pending e c h in
      let once : IsOnce id (step e c) =
        (step-IsOnce id e c (run-next es (new_client T) (omega arith)) (run-Once es id)).1 in
      (
        none_left,
        ends-port e c h,
        (let counted : count id [] + count id (ids (step e c).settled)
                ≡ (if leb 1 id && ltb id c.next_id then 1 else 0) =
              (rw (none_left, ends-next e c h) at once) in
            omega (arith, counted)),
      )
