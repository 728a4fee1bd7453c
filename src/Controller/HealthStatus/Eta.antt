-- ===== src/Controller/HealthStatus/Eta.antt =====
-- internal/controller/reconcile_health.go: the estimate of the time that a sync still takes. A duration
-- is a word of 64 bits with a sign.
use chainplane.Adapters.Int64.{is_positive, lt64}
use chainplane.Prelude.{
  ℕ, ◌+◌, ◌*◌, ◌^◌, ◌%◌, String, Bool, Option, none, some, List, not, ltb, leb, ◌&&◌, ◌||◌, str_eq,
  get, insert, erase, if◌then◌else◌,
}
use chainplane.Errors.{Result, ok, err}
use chainplane.Api.{ChainInstance}
use chainplane.Time.{second, minute}
use chainplane.Float.{Float}
use chainplane.Kube.{Action, pure, gets, attempt, ◌>>=◌, ◌>>◌}
use chainplane.Controller.HealthStatus.{Environment, annotate, persist_annotations, stamp_at}

-- What the branch of a syncing node takes from outside: floating point; now.Sub(at).Seconds(), of the
-- nanoseconds of both; strconv.ParseInt, as a float64; Duration.Round and Duration.String; the last
-- log lines of the pod; and of such a line the text behind the mark of the progress, which is trimmed,
-- with fmt.Sscanf for it.
pub record SyncTools (F : Type 0) : Type 0 where
  pub float : Float F
  pub seconds_between : (at now : ℕ) → F
  pub parse_int : String → Option F
  pub round : ℕ → ℕ → ℕ
  pub show_word : ℕ → String
  pub log_lines : ℕ → ChainInstance → Option (List String)
  pub after_mark : String → Option String
  pub scan_float : String → Option F

abbrev pub annotation_progress_snapshot_pct : String
annotation_progress_snapshot_pct = "chains.chainplane.io/progress-snapshot-pct"

abbrev pub annotation_progress_snapshot_at : String
annotation_progress_snapshot_at = "chains.chainplane.io/progress-snapshot-at"

abbrev pub annotation_block_snapshot_height : String
annotation_block_snapshot_height = "chains.chainplane.io/block-snapshot-height"

abbrev pub annotation_block_snapshot_at : String
annotation_block_snapshot_at = "chains.chainplane.io/block-snapshot-at"

abbrev pub progress_snapshot_interval : ℕ
progress_snapshot_interval = 5 * minute

abbrev pub hour : ℕ
hour = 60 * minute

abbrev pub max_eta_hours : ℕ
max_eta_hours = 8760

abbrev pub is_negative : ℕ → Bool
is_negative word = leb (2 ^ 63) word

module _ {F : Type 0} (tools : SyncTools F) (e : Environment) where
  -- humanDuration
  unfoldable pub human_duration : ℕ → String
  human_duration d =
      if is_negative d || ltb d (2 * minute)
      then tools.show_word (tools.round d second)
      else if ltb d (2 * hour)
      then tools.show_word (tools.round d minute)
      else tools.show_word (tools.round d (15 * minute))

  -- `time.Duration(remaining) * time.Second`
  abbrev pub duration_of : F → ℕ
  duration_of remaining = tools.float.whole remaining * second % 2 ^ 64

  -- The value and the time of a snapshot, where both can be read.
  abbrev pub snapshot_of : (String → Option F) → String → String → Option (F × ℕ)
  snapshot_of parse value_text at_text =
      if not (str_eq value_text "") && not (str_eq at_text "")
      then (elim (e.time.parse at_text) [
        | none ↦ none
        | some at ↦ elim (parse value_text) [ none ↦ none | some v ↦ some (v, at) ]
      ])
      else none

  -- `now.Sub(snapshotAt) >= progressSnapshotInterval`
  abbrev pub is_old : ℕ → ℕ → Bool
  is_old now at = leb (at * second + progress_snapshot_interval) now

  -- The end of progressBasedETA.
  unfoldable pub progress_eta : ℕ → F → F → ℕ → String
  progress_eta now progress snapshot_pct at =
      let f = tools.float in
      let elapsed = tools.seconds_between (at * second) now in
      let delta = f.minus progress snapshot_pct in
      if f.greater (f.decimal 60 0) elapsed || f.at_least (f.decimal 0 0) delta
      then ""
      else human_duration
          (duration_of (f.over (f.minus (f.decimal 100 0) progress) (f.over delta elapsed)))

  -- The new snapshot of the progress.
  unfoldable pub save_progress : ℕ → F → Action (Result (Unit {0}))
  save_progress now progress = do
    annotate λ m.
        insert annotation_progress_snapshot_at (stamp_at e now)
          (insert annotation_progress_snapshot_pct (tools.float.fixed 4 progress) m)
    attempt persist_annotations

  -- A failure to persist the snapshot ends the estimate.
  abbrev pub eta_if_saved : ℕ → F → F → ℕ → Result (Unit {0}) → Action String
  eta_if_saved now progress snapshot_pct at (ok _) =
      pure (progress_eta now progress snapshot_pct at)
  eta_if_saved now progress snapshot_pct at (err _) = pure ""

  -- The part of progressBasedETA that follows a snapshot from which the progress has not regressed.
  unfoldable pub eta_since : ℕ → F → F → ℕ → Action String
  eta_since now progress snapshot_pct at =
      if is_old now at
      then save_progress now progress >>= eta_if_saved now progress snapshot_pct at
      else pure (progress_eta now progress snapshot_pct at)

  -- The part of progressBasedETA that follows a regression of the progress.
  unfoldable pub clear_progress : Action String
  clear_progress = do
    annotate λ m. erase annotation_progress_snapshot_at (erase annotation_progress_snapshot_pct m)
    pure ""

  -- The first snapshot of progressBasedETA.
  unfoldable pub first_snapshot : ℕ → F → Action String
  first_snapshot now progress = do _ ← save_progress now progress; pure ""

  -- `progress <= 0`
  abbrev pub is_unknown : F → Bool
  is_unknown progress = tools.float.at_least (tools.float.decimal 0 0) progress

  abbrev pub progress_snapshot : ChainInstance → Option (F × ℕ)
  progress_snapshot node =
      snapshot_of tools.float.parse (get node.annotations annotation_progress_snapshot_pct)
        (get node.annotations annotation_progress_snapshot_at)

  -- `(snapshotPct-progress) > 5.0`
  abbrev pub has_regressed : F → F → Bool
  has_regressed progress snapshot_pct =
      tools.float.greater (tools.float.minus snapshot_pct progress) (tools.float.decimal 5 0)

  -- progressBasedETA, by the node
  unfoldable pub progress_eta_of : F → ℕ → ChainInstance → Action String
  progress_eta_of progress now node =
      if is_unknown progress then pure "" else (elim (progress_snapshot node) [
        | none ↦ first_snapshot now progress
        | some (snapshot_pct, at) ↦
            if has_regressed progress snapshot_pct
            then clear_progress
            else eta_since now progress snapshot_pct at
      ])

  -- progressBasedETA
  unfoldable pub progress_based_eta : F → ℕ → Action String
  progress_based_eta progress now = gets (λ w. w.node) >>= progress_eta_of progress now

  -- The end of blockRateETA.
  unfoldable pub block_eta : ℕ → ℕ → ℕ → F → ℕ → String
  block_eta now tip block snapshot_block at =
      let f = tools.float in
      let rate =
        f.over (f.minus (f.decimal block 0) snapshot_block)
          (tools.seconds_between (at * second) now) in
      let eta = duration_of (f.over (f.minus (f.decimal tip 0) (f.decimal block 0)) rate) in
      if f.at_least (f.decimal 0 0) rate
      then ""
      else if not (is_negative eta) && ltb (max_eta_hours * hour) eta
      then ""
      else human_duration eta

  -- The new snapshot of the height; a failure to persist it is logged only.
  unfoldable pub save_block : ℕ → ℕ → Action String
  save_block now block = do
    annotate λ m.
        insert annotation_block_snapshot_at (stamp_at e now)
          (insert annotation_block_snapshot_height (e.show block) m)
    _ ← attempt persist_annotations
    pure ""

  -- The part of blockRateETA that follows the public tip.
  unfoldable pub eta_to_tip : ℕ → ℕ → ℕ → ChainInstance → Action String
  eta_to_tip tip block now node =
      let height = get node.annotations annotation_block_snapshot_height in
      elim (snapshot_of tools.parse_int height
        (get node.annotations annotation_block_snapshot_at)) [
          | none ↦ save_block now block
          | some (snapshot_block, at) ↦
              if is_old now at
              then save_block now block
              else pure (block_eta now tip block snapshot_block at)
        ]

  -- blockRateETA, by the node
  unfoldable pub block_eta_of : ℕ → ℕ → ChainInstance → Action String
  block_eta_of block now node =
      if not (is_positive block) then pure "" else (elim (e.public_tip now node.spec.chain) [
        | none ↦ pure ""
        | some tip ↦ if not (lt64 block tip) then pure "" else eta_to_tip tip block now node
      ])

  -- blockRateETA
  unfoldable pub block_rate_eta : ℕ → ℕ → Action String
  block_rate_eta block now = gets (λ w. w.node) >>= block_eta_of block now

  -- The end of estimateSyncETA.
  unfoldable pub or_block_rate : ℕ → ℕ → String → Action String
  or_block_rate block now eta = if not (str_eq eta "") then pure eta else block_rate_eta block now

  -- estimateSyncETA
  unfoldable pub estimate_sync_eta : F → ℕ → ℕ → Action String
  estimate_sync_eta progress block now =
      if tools.float.at_least progress (tools.float.decimal 100 0)
      then pure ""
      else progress_based_eta progress now >>= or_block_rate block now
