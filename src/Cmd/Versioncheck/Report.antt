-- ===== src/Cmd/Versioncheck/Report.antt =====
-- The status of a result in the report of the version check, and the images with the updates applied.
use chainplane.Prelude.{
  ◌≡◌, refl, ◌⊎◌, inl, inr, ℕ, suc, String, Bool, true, false, Option, none, some, List, [], ◌∷◌,
  Any, arith, eq_iff, not, str_eq, ◌&&◌, ◌||◌, Map, insert, Bool-cases, Option-cases, if◌then◌else◌,
}
use chainplane.Api.{Chain}
use chainplane.Cmd.Versioncheck.{VersionResult, replace_tag, count_failures}

-- The texts of resultStatus.
pub data ResultStatus : Type 0 where
  error : ResultStatus
  no_match : ResultStatus
  major_available_same_line : String → ResultStatus
  major_available : ResultStatus
  update_available : ResultStatus
  up_to_date : ResultStatus

-- resultStatus
unfoldable pub result_status : VersionResult → ResultStatus
result_status r =
    if r.failed
    then error
    else if r.no_match
    then no_match
    else if r.is_major && not (str_eq r.same_major_tag "")
    then major_available_same_line r.same_major_tag
    else if r.is_major
    then major_available
    else if r.is_newer
    then update_available
    else up_to_date

-- The images of versions_gen.go, by chain and client.
abbrev pub ChainImages : Type 0
ChainImages = Map (Map String)

-- A round of the loop of applyUpdates.
unfoldable pub apply_update : VersionResult → ChainImages → ChainImages
apply_update u images = elim (images u.chain) [
  | none ↦ images
  | some clients ↦ elim (clients u.client) [
    | none ↦ images
    | some old_ref ↦
        insert u.chain (insert u.client (replace_tag old_ref u.latest_tag) clients) images
  ]
]

-- The loop of applyUpdates.
unfoldable pub apply_updates : List VersionResult → ChainImages → ChainImages
apply_updates [] images = images
apply_updates (u ∷ us) images = apply_updates us (apply_update u images)

-- The image of a chain and client.
unfoldable pub image_of : ChainImages → Chain → String → Option String
image_of images chain client = elim (images chain) [ none ↦ none | some clients ↦ clients client ]

-- The reference has the tag of the update, which is one for this chain and client.
pub record IsRetag (chain client ref : String) (u : VersionResult) : Type 0 where
  pub old_ref : String
  pub for_chain : chain ≡ u.chain
  pub for_client : client ≡ u.client
  pub tagged : ref ≡ replace_tag old_ref u.latest_tag

image_of_set :
    (images : ChainImages) (clients : Map String)
    (at_chain at_client new_ref chain client ref : String)
    → images at_chain ≡ some clients
    → image_of (insert at_chain (insert at_client new_ref clients) images) chain client ≡ some ref
    → (image_of images chain client ≡ some ref)
      ⊎ ((chain ≡ at_chain) × (client ≡ at_client) × (ref ≡ new_ref))
unfolding image_of
image_of_set images clients at_chain at_client new_ref chain client ref e h =
    elim (Bool-cases (str_eq chain at_chain)) [
      | inr other ↦ inl (rw (other, image_of) at h)
      | inl same ↦
          let here : chain ≡ at_chain = ground (arith, eq_iff chain at_chain) in
          elim (Bool-cases (str_eq client at_client)) [
            | inl this ↦
                let that : client ≡ at_client = ground (arith, eq_iff client at_client) in
                inr (here, that, ground arith)
            | inr other ↦ inl (rw (here, e, image_of) (rw (same, other, image_of) at h))
          ]
    ]

apply_update_lem :
    (u : VersionResult) (images : ChainImages) (chain client ref : String)
    → image_of (apply_update u images) chain client ≡ some ref
    → (image_of images chain client ≡ some ref) ⊎ IsRetag chain client ref u
unfolding apply_update image_of
apply_update_lem u images chain client ref h = elim (Option-cases (images u.chain)) [
  | inl none_is ↦ inl (rw (none_is, apply_update) at h)
  | inr (clients, e) ↦ elim (Option-cases (clients u.client)) [
    | inl none_is ↦ inl (rw (e, none_is, apply_update) at h)
    | inr (old, f) ↦
        elim (image_of_set images clients u.chain u.client (replace_tag old u.latest_tag) chain
          client ref e (rw (e, f, apply_update) at h)) [
            | inl same ↦ inl same
            | inr (c, k, t) ↦
                inr (record { old_ref = old; for_chain = c; for_client = k; tagged = t })
          ]
  ]
]

-- After applyUpdates, an image is the one it was, or has the tag of an update of its chain and client.
pub apply_updates_lem :
    (us : List VersionResult) (images : ChainImages) (chain client ref : String)
    → image_of (apply_updates us images) chain client ≡ some ref
    → (image_of images chain client ≡ some ref) ⊎ Any (IsRetag chain client ref) us
unfolding apply_updates
apply_updates_lem [] images chain client ref h = inl h
apply_updates_lem (u ∷ us) images chain client ref h =
    elim (apply_updates_lem us (apply_update u images) chain client ref h) [
      | inr later ↦ inr (inr later)
      | inl now ↦ elim (apply_update_lem u images chain client ref now) [
        | inl same ↦ inl same
        | inr set ↦ inr (inl set)
      ]
    ]

-- The results that the report shows as an error or as without a match.
unfoldable pub is_alarm : ResultStatus → Bool
is_alarm error = true
is_alarm no_match = true
is_alarm _ = false

unfoldable pub count_alarms : List VersionResult → ℕ
count_alarms [] = 0
count_alarms (r ∷ rs) =
    let rest = count_alarms rs in if is_alarm (result_status r) then suc rest else rest

is_alarm-result_status : (r : VersionResult) → is_alarm (result_status r) ≡ (r.failed || r.no_match)
unfolding is_alarm result_status
is_alarm-result_status r = ground arith

-- The failures that fail the run are the lines that the report shows as an error or as without a match.
pub count_failures-count_alarms : (rs : List VersionResult) → count_failures rs ≡ count_alarms rs
unfolding count_failures count_alarms
count_failures-count_alarms [] = refl
count_failures-count_alarms (r ∷ rs) =
    let rest = count_failures-count_alarms rs in let same = is_alarm-result_status r in ground arith
