-- ===== src/Controller/Conditions.antt =====
-- internal/controller/helpers.go: the conditions of a resource, and the thresholds per chain.
pub mod Laws
use chainplane.Prelude.{
  ℕ, ◌*◌, String, Bool, true, false, Option, none, some, List, [], ◌∷◌, ◌&&◌, ltb, str_eq,
  if◌then◌else◌, map,
}
use chainplane.Api.{
  Chain, ChainInstance, Condition, ConditionStatus, status_true, status_false, status_unknown,
}
use chainplane.Time.{second, minute}

-- The constants of api/v1alpha2/chaininstance_types.go
abbrev pub condition_ready : String
condition_ready = "Ready"

abbrev pub condition_syncing : String
condition_syncing = "Syncing"

abbrev pub condition_degraded : String
condition_degraded = "Degraded"

abbrev pub same_status : ConditionStatus → ConditionStatus → Bool
same_status status_true status_true = true
same_status status_false status_false = true
same_status status_unknown status_unknown = true
same_status _ _ = false

-- The loop that both writers of conditions run: the first condition of the kind is changed in its
-- place, and if there is none, a new one is put at the end.
unfoldable pub upsert :
    String → (Condition → Condition) → Condition → List Condition → List Condition
upsert kind change new [] = new ∷ []
upsert kind change new (c ∷ cs) =
    let rest = upsert kind change new cs in if str_eq c.kind kind then change c ∷ cs else c ∷ rest

-- What setCondition makes of a condition of the kind: nothing, if it says the same already.
unfoldable pub refreshed : Condition → Condition → Condition
refreshed new c =
    if same_status c.status new.status && str_eq c.reason new.reason && str_eq c.message new.message
    then c
    else if same_status c.status new.status
    then record new { last_transition_time = c.last_transition_time }
    else new

-- The condition that both writers put together.
abbrev pub new_condition : ℕ → String → ConditionStatus → String → String → ℕ → Condition
new_condition generation kind status reason message now = record {
  kind = kind;
  status = status;
  reason = reason;
  message = message;
  last_transition_time = now;
  observed_generation = generation;
}

abbrev pub with_conditions : List Condition → ChainInstance → ChainInstance
with_conditions cs node = record node { status = record node.status { conditions = cs } }

-- setCondition, the function
unfoldable pub set_condition :
    String → ConditionStatus → String → String → ℕ → ChainInstance → ChainInstance
set_condition kind status reason message now node =
    let new = new_condition node.generation kind status reason message now in
    with_conditions (upsert kind (refreshed new) new node.status.conditions) node

-- findCondition
unfoldable pub find_condition : List Condition → String → Option Condition
find_condition [] kind = none
find_condition (c ∷ cs) kind =
    let rest = find_condition cs kind in if str_eq c.kind kind then some c else rest

abbrev pub lag_threshold_eth : ℕ
lag_threshold_eth = 30

abbrev pub lag_threshold_btc : ℕ
lag_threshold_btc = 2

abbrev pub lag_threshold_tron : ℕ
lag_threshold_tron = 200

-- lagThreshold
unfoldable pub lag_threshold : ChainInstance → ℕ
lag_threshold node = elim node.spec.health.block_lag_threshold [
  | some n ↦ n
  | none ↦
      if str_eq node.spec.chain "bitcoin"
      then lag_threshold_btc
      else if str_eq node.spec.chain "litecoin"
      then lag_threshold_btc
      else if str_eq node.spec.chain "dash"
      then lag_threshold_btc
      else if str_eq node.spec.chain "tron"
      then lag_threshold_tron
      else lag_threshold_eth
]

-- The cases of chainBlockTime, in seconds.
abbrev block_times : List (Chain × ℕ)
block_times =
    ("bitcoin", 600)
    ∷ ("litecoin", 150)
    ∷ ("dash", 156)
    ∷ ("ethereum", 12)
    ∷ ("ethereum-archive", 12)
    ∷ ("bsc", 3)
    ∷ ("tron", 3)
    ∷ ("polygon", 2)
    ∷ ("avalanche", 2)
    ∷ ("xrp", 4)
    ∷ ("stellar", 5)
    ∷ ("ton", 5)
    ∷ ("near", 1)
    ∷ ("sui", 1)
    ∷ ("cosmos", 7)
    ∷ ("aptos", 1)
    ∷ ("cardano", 20)
    ∷ []

abbrev first_time : List (Chain × ℕ) → Chain → ℕ
first_time [] chain = 12
first_time ((c, s) ∷ ts) chain =
    let rest = first_time ts chain in if str_eq chain c then s else rest

-- chainBlockTime
unfoldable pub chain_block_time : Chain → ℕ
chain_block_time chain = first_time block_times chain * second

abbrev pub stall_floor : ℕ
stall_floor = 5 * minute

-- syncStallThreshold
unfoldable pub sync_stall_threshold : Chain → ℕ
sync_stall_threshold chain =
    let d = 10 * chain_block_time chain in if ltb d stall_floor then stall_floor else d
