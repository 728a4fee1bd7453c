-- ===== src/Adapters/Rpc.antt =====
-- internal/adapters/rpc.go: the JSON-RPC transport of the health checks, its errors, and its retries.
use Prim.Native.String.{◌++◌}
use chainplane.Prelude.{
  ℕ, zero, suc, ◌+◌, ◌*◌, ◌/◌, ◌%◌, ◌^◌, String, Bool, true, false, none, some, ◌||◌, not,
  if◌then◌else◌,
}
use chainplane.Errors.{Result, ok}
use chainplane.Time.{second, positive_duration}
use chainplane.Adapters.Int64.{lt64, is_positive}
use chainplane.Adapters.Status.{SyncStatus}
use chainplane.Adapters.Session.{
  HttpAnswer, no_response, response, Node, Query, pure, ◌>>=◌, send, now,
}
use chainplane.Adapters.Payloads.{GoTexts, AdapterTools}

-- The errors of callRPC, with the texts of what they wrap.
pub data RpcError : Type 0 where
  not_built : (cause : String) → RpcError
  timed_out : (cause : String) → RpcError
  unavailable : (cause : String) → RpcError
  unread : (cause : String) → RpcError
  undecodable : (status : ℕ) → (body : String) → RpcError
  reported : (code : String) → (message : String) → RpcError

pub data RpcResult : Type 0 where
  answered : (result : String) → RpcResult
  failed : RpcError → RpcResult

module _ (texts : GoTexts) where
  -- err.Error()
  unfoldable pub error_text : RpcError → String
  error_text (not_built cause) = "create rpc request: " ++ cause
  error_text (timed_out cause) = "rpc: request timed out: " ++ cause
  error_text (unavailable cause) = "rpc: service unavailable: " ++ cause
  error_text (unread cause) = "read rpc response: " ++ cause
  error_text (undecodable status body) =
      "http "
      ++ texts.show status
      ++ ": "
      ++ texts.trim_space (texts.first_bytes 80 body)
      ++ ": "
      ++ texts.json_error body
  error_text (reported code message) = "rpc error " ++ code ++ ": " ++ message

  -- The texts that isTransientRPCError looks for.
  unfoldable pub is_transient_text : String → Bool
  is_transient_text s =
      texts.contains s "context deadline exceeded"
      || texts.contains s "deadline exceeded"
      || texts.contains s "work queue"
      || texts.contains s "503"
      || texts.contains s "500"
      || texts.contains s "service unavailable"
      || texts.contains s "-28"
      || texts.contains s "loading"

  -- isTransientRPCError, for an error that is not nil
  unfoldable pub is_transient_rpc_error : RpcError → Bool
  is_transient_rpc_error (timed_out _) = true
  is_transient_rpc_error (unavailable _) = true
  is_transient_rpc_error e = is_transient_text (texts.to_lower (error_text e))

  -- isContextTimeout, for the text of an error that wraps no ErrRPCTimeout
  unfoldable pub is_timeout_text : String → Bool
  is_timeout_text s =
      texts.contains s "context deadline exceeded"
      || texts.contains s "context canceled"
      || texts.contains s "deadline exceeded"

  -- isContextTimeout, for an error of callRPC
  unfoldable pub is_context_timeout : RpcError → Bool
  is_context_timeout (timed_out _) = true
  is_context_timeout e = is_timeout_text (error_text e)

  -- parseDecimalInt64
  abbrev pub parse_decimal_int64 : String → ℕ
  parse_decimal_int64 s = (texts.parse_int 10 s).0

module _ {F : Type 0} (tools : AdapterTools F) where
  -- The part of callRPC that follows the reading of the body.
  unfoldable pub open_response : ℕ → String → RpcResult
  open_response status body = elim (tools.json.rpc_response body) [
    | none ↦ failed (undecodable status body)
    | some r ↦ elim r.error [
      | none ↦ answered r.result
      | some (code, message) ↦ failed (reported code message)
    ]
  ]

  -- The part of callRPC that follows the request.
  unfoldable pub judge_answer : HttpAnswer × Bool → RpcResult
  judge_answer (no_response cause, true) = failed (timed_out cause)
  judge_answer (no_response cause, false) = failed (unavailable cause)
  judge_answer (response _ _ (some cause), _) = failed (unread cause)
  judge_answer (response status body none, _) = open_response status body

  -- progressFromBlocks
  unfoldable pub progress_from_blocks : ℕ → ℕ → F
  progress_from_blocks current highest =
      if not (is_positive highest) || not (is_positive current)
      then tools.floats.float.decimal 0 0
      else if not (lt64 current highest)
      then tools.floats.float.decimal 100 0
      else tools.floats.float.times
          (tools.floats.float.over (tools.floats.of_int64 current) (tools.floats.of_int64 highest))
          (tools.floats.float.decimal 100 0)

  -- The report of a node that syncs at an unknown height, with the block that stands for it.
  unfoldable pub syncing_at : ℕ → SyncStatus F
  syncing_at p = record {
    is_syncing = true;
    current_block = p;
    highest_block = p + 1;
    peers = 0;
    progress = tools.floats.float.decimal 0 0;
    stall_exempt = false;
  }

  -- SyncStatus{IsSyncing: true, StallExempt: true, Progress: …}
  unfoldable pub busy : F → SyncStatus F
  busy progress = record {
    is_syncing = true;
    current_block = 0;
    highest_block = 0;
    peers = 0;
    progress = progress;
    stall_exempt = true;
  }

  -- A report at a height that is the highest one.
  unfoldable pub synced_at : ℕ → ℕ → SyncStatus F
  synced_at block peers = record {
    is_syncing = false;
    current_block = block;
    highest_block = block;
    peers = peers;
    progress = tools.floats.float.decimal 100 0;
    stall_exempt = false;
  }

  module _ (node : Node) where
    -- callRPC
    unfoldable pub call_rpc : String → String → String → Query RpcResult
    call_rpc url method params s =
        if not (node.builds url)
        then (failed (not_built (tools.texts.build_error url)), s)
        else (send node
                (record { method = "POST"; url = url; body = tools.json.rpc_request method params })
              >>= λ answer. pure (judge_answer answer))
            s

    -- The wait ahead of another attempt, if the context is not done before.
    unfoldable pub wait_then : ℕ → RpcResult → Query RpcResult → Query RpcResult
    wait_then delay last rest s =
        if node.is_done_waiting s.requests
        then (last, s)
        else rest (record s { waited = s.waited + positive_duration delay })

    -- The part of a round of callRPCWithRetry that follows the call, before the last attempt.
    unfoldable pub or_retry : ℕ → Query RpcResult → RpcResult → Query RpcResult
    or_retry delay rest (answered result) = pure (answered result)
    or_retry delay rest (failed e) =
        if is_transient_rpc_error tools.texts e
        then wait_then delay (failed e) rest
        else pure (failed e)

    -- The loop of callRPCWithRetry, with the number of further attempts.
    unfoldable pub retry_from : String → String → String → ℕ → ℕ → Query RpcResult
    retry_from url method params delay zero = call_rpc url method params
    retry_from url method params delay (suc left) =
        let rest = retry_from url method params (delay * 2 % 2 ^ 64) left in
        call_rpc url method params >>= or_retry delay rest

    -- callRPCWithRetry
    unfoldable pub call_rpc_with_retry : String → String → String → ℕ → Query RpcResult
    call_rpc_with_retry url method params max_retries =
        retry_from url method params (2 * second) max_retries

    -- pseudoBlock
    unfoldable pub pseudo_block : Query ℕ
    pseudo_block = now node >>= λ t. pure (t / second % 2 ^ 19)

    -- syncingPseudo
    unfoldable pub syncing_pseudo : Query (SyncStatus F)
    syncing_pseudo = pseudo_block >>= λ p. pure (syncing_at p)

    -- `return syncingPseudo(), nil`
    abbrev pub report_pseudo : Query (Result (SyncStatus F))
    report_pseudo = syncing_pseudo >>= λ status. pure (ok status)
