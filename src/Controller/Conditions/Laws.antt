-- ===== src/Controller/Conditions/Laws.antt =====
-- What the writer of conditions keeps and changes.
use chainplane.Prelude.{
  ℕ, ◌≡◌, ◌≢◌, refl, inl, inr, String, true, Option, none, some, List, [], ◌∷◌, arith, eq_iff,
  str_eq, sym, ◌∙◌, Option-cases, Bool-cases, if◌then◌else◌,
}
use chainplane.Api.{
  ChainInstance, Condition, ConditionStatus, status_true, status_false, status_unknown,
}
use chainplane.Controller.Conditions.{
  upsert, refreshed, set_condition, new_condition, find_condition, same_status,
}

-- The condition that an upsert leaves of its kind.
abbrev pub upserted : (Condition → Condition) → Condition → Option Condition → Condition
upserted change new none = new
upserted change new (some c) = change c

module _ (kind : String) (change : Condition → Condition) (new : Condition) where
  pub find_condition-upsert :
      (new.kind ≡ kind)
      → ((c : Condition) → c.kind ≡ kind → (change c).kind ≡ kind)
      → (cs : List Condition)
      → find_condition (upsert kind change new cs) kind
        ≡ some (upserted change new (find_condition cs kind))
  unfolding find_condition upsert
  find_condition-upsert e keeps [] = ground (arith, eq_iff new.kind kind)
  find_condition-upsert e keeps (c ∷ cs) = elim (Bool-cases (str_eq c.kind kind)) [
    | inl h ↦
        let same = keeps c (ground (arith, eq_iff c.kind kind)) in
        ground (arith, eq_iff (change c).kind kind)
    | inr h ↦ let rest = find_condition-upsert e keeps cs in ground arith
  ]

  pub find_condition-upsert_other :
      (new.kind ≡ kind)
      → ((c : Condition) → c.kind ≡ kind → (change c).kind ≡ kind)
      → (cs : List Condition) (other : String) → other ≢ kind
      → find_condition (upsert kind change new cs) other ≡ find_condition cs other
  unfolding find_condition upsert
  find_condition-upsert_other e keeps [] other ne = ground (arith, eq_iff new.kind other)
  find_condition-upsert_other e keeps (c ∷ cs) other ne = elim (Bool-cases (str_eq c.kind kind)) [
    | inl h ↦
        let was : c.kind ≡ kind = ground (arith, eq_iff c.kind kind) in
        let same = keeps c was in ground (arith, eq_iff (change c).kind other, eq_iff c.kind other)
    | inr h ↦ let rest = find_condition-upsert_other e keeps cs other ne in ground arith
  ]

-- When a condition last flipped, after a status is written at a time: now, unless there was one
-- of the kind with the same status.
abbrev pub flipped_at : ℕ → ConditionStatus → Option Condition → ℕ
flipped_at now status none = now
flipped_at now status (some c) = if same_status c.status status then c.last_transition_time else now

-- The condition says what was written, and when it last flipped.
pub record Says (status : ConditionStatus) (reason message : String) (time : ℕ) (c : Condition)
    : Type 0 where
  pub status_is : c.status ≡ status
  pub reason_is : c.reason ≡ reason
  pub message_is : c.message ≡ message
  pub time_is : c.last_transition_time ≡ time

pub same_status-eq : (a b : ConditionStatus) → same_status a b ≡ true → a ≡ b
same_status-eq status_true status_true h = refl
same_status-eq status_false status_false h = refl
same_status-eq status_unknown status_unknown h = refl
same_status-eq status_true status_false h = absurd (ground arith)
same_status-eq status_true status_unknown h = absurd (ground arith)
same_status-eq status_false status_true h = absurd (ground arith)
same_status-eq status_false status_unknown h = absurd (ground arith)
same_status-eq status_unknown status_true h = absurd (ground arith)
same_status-eq status_unknown status_false h = absurd (ground arith)

refreshed-kind : (new c : Condition) → new.kind ≡ c.kind → (refreshed new c).kind ≡ c.kind
unfolding refreshed
refreshed-kind new c h = ground arith

refreshed-Says :
    (new c : Condition)
    → Says new.status new.reason new.message
        (flipped_at new.last_transition_time new.status (some c))
        (refreshed new c)
unfolding refreshed
refreshed-Says new c = elim (Bool-cases (same_status c.status new.status)) [
  | inl h ↦
      let same = same_status-eq c.status new.status h in
      ground (arith, eq_iff c.reason new.reason, eq_iff c.message new.message)
  | inr h ↦ ground arith
]

-- setCondition: afterwards the resource has a condition of the kind with the given status, reason
-- and message, and its transition time is the given one, unless there was one of the kind
-- with the same status: then the time is kept.
pub set_condition-Says :
    (kind : String) (status : ConditionStatus) (reason message : String) (now : ℕ)
    (node : ChainInstance)
    → (c : Condition) × (find_condition
          (set_condition kind status reason message now node).status.conditions
          kind
        ≡ some c)
      × Says status reason message
          (flipped_at now status (find_condition node.status.conditions kind))
          c
unfolding set_condition
set_condition-Says kind status reason message now node =
    let new = new_condition node.generation kind status reason message now in
    let found =
      find_condition-upsert kind (refreshed new) new refl (λ c e. refreshed-kind new c (sym e) ∙ e)
        node.status.conditions in
    elim (Option-cases (find_condition node.status.conditions kind)) [
      | inl e ↦ (
        new,
        rw e at found,
        rw e (record { status_is = refl; reason_is = refl; message_is = refl; time_is = refl }),
      )
      | inr (c, e) ↦ (refreshed new c, rw e at found, rw e (refreshed-Says new c))
    ]

-- setCondition leaves the conditions of every other kind as they are.
pub set_condition_others :
    (kind : String) (status : ConditionStatus) (reason message : String) (now : ℕ)
    (node : ChainInstance) (other : String)
    → other ≢ kind
    → find_condition (set_condition kind status reason message now node).status.conditions other
      ≡ find_condition node.status.conditions other
unfolding set_condition
set_condition_others kind status reason message now node other ne =
    let new = new_condition node.generation kind status reason message now in
    find_condition-upsert_other kind (refreshed new) new refl
      (λ c e. refreshed-kind new c (sym e) ∙ e) node.status.conditions other ne
