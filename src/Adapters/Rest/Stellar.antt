-- ===== src/Adapters/Rest/Stellar.antt =====
-- internal/adapters/stellar.go: the health check of Stellar nodes.
use Prim.Native.String.{◌++◌}
use chainplane.Prelude.{
  ℕ, String, true, none, some, List, [], ◌∷◌, ◌&&◌, not, str_eq, if◌then◌else◌,
}
use chainplane.Errors.{Result, ok, err, check_failed}
use chainplane.Adapters.Int64.{lt64, add64, is_positive}
use chainplane.Adapters.Status.{SyncStatus}
use chainplane.Adapters.Session.{Node, Query, pure, ◌>>=◌}
use chainplane.Adapters.Payloads.{StellarInfo, AdapterTools}
use chainplane.Adapters.Rpc.{is_timeout_text, busy, synced_at}
use chainplane.Adapters.Get.{Got, unanswered, http_get, decode_got}
use chainplane.Adapters.Rest.{report_of}

module _ {F : Type 0} (tools : AdapterTools F) where
  -- The part of the loop of the check of Stellar that a status line which matches decides.
  unfoldable pub catchup_status : ℕ → F → String × String → ℕ × F
  catchup_status highest progress found =
      let parsed = tools.texts.parse_int 10 found.0 in
      (
        (if parsed.1 then parsed.0 else highest),
        elim (tools.floats.float.parse found.1) as (λ _. F) [ none ↦ progress | some pct ↦ pct ],
      )

  -- The loop over the status lines, which the first match ends.
  unfoldable pub scan_catchup : ℕ → F → List String → ℕ × F
  scan_catchup highest progress [] = (highest, progress)
  scan_catchup highest progress (line ∷ rest) =
      let later = scan_catchup highest progress rest in
      elim (tools.texts.parse_catchup line) [
        | none ↦ later
        | some found ↦ catchup_status highest progress found
      ]

  -- The progress of Stellar where the heights say it.
  unfoldable pub stellar_progress : ℕ → ℕ → F → F
  stellar_progress current highest progress =
      if lt64 current highest && is_positive current
      then tools.floats.float.times
          (tools.floats.float.over (tools.floats.of_int64 current) (tools.floats.of_int64 highest))
          (tools.floats.float.decimal 100 0)
      else progress

  -- Stellar in a state that is neither synced nor joining.
  unfoldable pub stellar_catching_up : StellarInfo → SyncStatus F
  stellar_catching_up info =
      let (highest, progress) =
        scan_catchup info.ledger_num (tools.floats.float.decimal 0 0) info.status in
      record {
        is_syncing = true;
        current_block = info.ledger_num;
        highest_block = highest;
        peers = info.authenticated_count;
        progress = stellar_progress info.ledger_num highest progress;
        stall_exempt = not (lt64 1 info.ledger_num);
      }

  -- The end of the check of Stellar.
  unfoldable pub stellar_status : StellarInfo → SyncStatus F
  stellar_status info =
      if str_eq info.state "Synced!"
      then synced_at tools info.ledger_num info.authenticated_count
      else if str_eq info.state "Joining SCP"
      then record {
        is_syncing = true;
        current_block = info.ledger_num;
        highest_block = add64 info.ledger_num 1;
        peers = info.authenticated_count;
        progress = tools.floats.float.decimal 99 0;
        stall_exempt = true;
      }
      else stellar_catching_up info

  module _ (node : Node) (url : String) where
    -- HealthCheck of stellarAdapter
    unfoldable pub stellar_from_answer : Got → Query (Result (SyncStatus F))
    stellar_from_answer (unanswered cause _) = pure (
        if is_timeout_text tools.texts cause
        then ok (busy tools (tools.floats.float.decimal 50 0))
        else err check_failed)
    stellar_from_answer g = report_of stellar_status (decode_got tools.json.stellar_info g)

    unfoldable pub stellar_health_check : Query (Result (SyncStatus F))
    stellar_health_check = http_get node (url ++ "/info") >>= stellar_from_answer
