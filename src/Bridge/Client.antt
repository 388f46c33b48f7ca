-- ===== src/Bridge/Client.antt =====
-- src/bridge/client.ts: the calls in flight. The promise of a call is named by its id; a timer that has
-- not been cleared belongs to a pending call. The host's port and its messages are events.
pub mod Once
use fire_sync.Prelude.{
  ℕ, zero, suc, ◌+◌, String, Bool, true, false, not, ◌&&◌, Option, none, some, List, [], ◌∷◌, ◌++◌,
  map, eqb, if◌then◌else◌,
}
use fire_sync.Prelude.Result.{Result, ok, err}

pub data BridgeErrorCode : Type 0 where
  unsupported not_found primary_password_required primary_password_wrong : BridgeErrorCode
  legacy_profile timeout cancelled : BridgeErrorCode

-- `BridgeError` with its code, and `BridgeUnavailableError`.
pub data BridgeFailure : Type 0 where
  bridge_error : String → Option BridgeErrorCode → BridgeFailure
  bridge_unavailable : BridgeFailure

module _ (T : Type 0) where
  -- How a promise ends.
  abbrev pub Settled : Type 0
  Settled = ℕ × Result BridgeFailure T

  -- `port` is whether there is one; `settled` lists the promises that have ended, last first, and
  -- `refused` counts the calls that end before they have an id.
  pub record BridgeClient : Type 0 where
    pub port : Bool
    pub next_id : ℕ
    pub pending : List ℕ
    pub settled : List Settled
    pub refused : ℕ

  abbrev pub new_client : BridgeClient
  new_client = record { port = false; next_id = 1; pending = []; settled = []; refused = 0 }

  -- What happens to a client: a call, where a missing port can or cannot be connected and the request
  -- can or cannot be posted; a message of the host; the loss of the port; a timer; `disconnect`.
  pub data Event : Type 0 where
    called : Bool → Bool → Event
    message : ℕ → Result (String × Option BridgeErrorCode) T → Event
    port_lost : BridgeFailure → Event
    timed_out : ℕ → Event
    disconnected : Event

-- `this.pending.get(id) !== undefined`
abbrev pub has_id : ℕ → List ℕ → Bool
has_id id [] = false
has_id id (i ∷ is) = if eqb i id then true else has_id id is

-- `this.pending.delete(id)`
abbrev pub without_id : ℕ → List ℕ → List ℕ
without_id id [] = []
without_id id (i ∷ is) = let rest = without_id id is in if eqb i id then rest else i ∷ rest

module _ {T : Type 0} where
  -- The promise of a pending call ends; the message of any other id is dropped.
  abbrev pub settle : ℕ → Result BridgeFailure T → BridgeClient T → BridgeClient T
  settle id outcome c =
      if has_id id c.pending
      then record c { pending = without_id id c.pending; settled = (id, outcome) ∷ c.settled }
      else c

  abbrev pub outcome_of : Result (String × Option BridgeErrorCode) T → Result BridgeFailure T
  outcome_of (ok value) = ok value
  outcome_of (err (text, code)) = err (bridge_error text code)

  unfoldable pub on_message :
      ℕ → Result (String × Option BridgeErrorCode) T → BridgeClient T → BridgeClient T
  on_message id answer c = settle id (outcome_of answer) c

  abbrev pub rejected : BridgeFailure → List ℕ → List (Settled T)
  rejected failure ids = map (λ id. (id, err failure)) ids

  unfoldable pub teardown : BridgeFailure → BridgeClient T → BridgeClient T
  teardown failure c = record c { pending = []; settled = rejected failure c.pending ++ c.settled }

  -- The request is posted, or its promise ends at once.
  abbrev pub posted : Bool → BridgeClient T → BridgeClient T
  posted true c = record c { next_id = suc c.next_id; pending = c.next_id ∷ c.pending }
  posted false c = record c {
    next_id = suc c.next_id;
    settled = (c.next_id, err bridge_unavailable) ∷ c.settled;
  }

  abbrev pub call_with : Bool → Bool → Bool → BridgeClient T → BridgeClient T
  call_with true connects posts c = posted posts c
  call_with false true posts c = posted posts (record c { port = true })
  call_with false false posts c = record c { refused = suc c.refused }

  unfoldable pub call : Bool → Bool → BridgeClient T → BridgeClient T
  call connects posts c = call_with c.port connects posts c

  unfoldable pub disconnect : BridgeClient T → BridgeClient T
  unfolding teardown
  disconnect c = teardown (bridge_error "bridge disconnected" none) (record c { port = false })

  unfoldable pub step : Event T → BridgeClient T → BridgeClient T
  step (called connects posts) c = call connects posts c
  step (message id answer) c = on_message id answer c
  step (port_lost failure) c = teardown failure (record c { port = false })
  step (timed_out id) c = settle id (err (bridge_error "bridge call timed out" (some timeout))) c
  step disconnected c = disconnect c

  unfoldable pub run : List (Event T) → BridgeClient T → BridgeClient T
  run [] c = c
  run (e ∷ es) c = run es (step e c)
