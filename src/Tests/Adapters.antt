-- ===== src/Tests/Adapters.antt =====
-- Health checks of small nodes, whose answers are texts in a small notation.
use chainplane.Prelude.{
  ◌≡◌, ◌*◌, refl, ℕ, true, false, none, some, List, [], ◌∷◌, str_eq, if◌then◌else◌,
}
use chainplane.Time.{second}
use chainplane.Errors.{ok}
use chainplane.Adapters.Status.{SyncStatus}
use chainplane.Adapters.Session.{Node, no_response, response, send}
use chainplane.Adapters.Payloads.{GoTexts, NodeJson, GoFloat, AdapterTools, SyncStage}
use chainplane.Adapters.Rpc.{open_response, judge_answer, call_rpc, synced_at}
use chainplane.Adapters.Evm.{
  hex_to_int64, note_stage, scan_stages, evm_heights, says_synced, judge_sync, peers_of, block_of,
  evm_peer_count, evm_from_block, evm_from_sync, evm_health_check,
}
use chainplane.Adapters.Evm.Scan.{counted, IsRange}
use chainplane.Adapters.Evm.Stages.{evm_heights-IsRange}
use chainplane.Adapters.Utxo.{UtxoAdapter, utxo_health_check}
use chainplane.Adapters.Utxo.Budget.{utxo_health_check-Spends}
use chainplane.Adapters.Spending.{Spends}
use chainplane.Adapters.Checks.{health_check, solana}
use chainplane.Adapters.Down.{IsDown, IsUnsynced}
use chainplane.Adapters.Unreachable.{health_check-IsUnsynced}
use chainplane.Controller.HealthStatus.Outage.{no_requests}
use chainplane.Tests.Data.{count_marks}
use chainplane.Tests.Evaluator.{small_float}

abbrev small_texts : GoTexts
small_texts = record {
  contains = λ s part. str_eq s part;
  has_prefix = λ s prefix. false;
  trim_prefix = λ s prefix. s;
  trim_space = λ s. s;
  to_lower = λ s. s;
  first_bytes = λ n s. s;
  cut_at = λ s separator. none;
  fields = λ s. s ∷ [];
  lines = λ s. s ∷ [];
  show = λ n. "";
  parse_int = λ base s. (count_marks s, true);
  scan_hex = count_marks;
  scan_height_round_step = count_marks;
  scan_tron_block = λ s. some (count_marks s);
  parse_catchup = λ s. none;
  parse_time_nano = λ s. none;
  hostname = λ url. some url;
  at_port = λ url port. some url;
  build_error = λ url. "bad URL";
  json_error = λ body. "bad JSON";
}

-- The result of a response is its whole body.
abbrev small_json : NodeJson ℕ
small_json = record {
  rpc_request = λ method params. method;
  rpc_response = λ body. some (record { result = body; error = none });
  bool = λ body. if str_eq body "false" then some false else none;
  text = λ body. some body;
  int64 = λ body. some (count_marks body);
  int32 = λ body. some (count_marks body);
  eth_syncing = λ body. none;
  blockchain_info = λ body. none;
  cosmos_status = λ body. none;
  height_round_step = λ body. none;
  n_peers = λ body. none;
  beacon_syncing = λ body. none;
  system_health = λ body. none;
  sync_state = λ body. none;
  header_number = λ body. none;
  starknet_syncing = λ body. none;
  tipset_height = λ body. none;
  active_syncs = λ body. none;
  xrp_info = λ body. none;
  near_status = λ body. none;
  ledger_version = λ body. none;
  stellar_info = λ body. none;
  tron_node_info = λ body. none;
  result_text = λ body. none;
  avax_bootstrap_error = λ body. none;
  avax_peers = λ body. none;
}

abbrev small_floats : GoFloat ℕ
small_floats = record {
  float = small_float;
  of_int64 = λ n. n;
  to_int64 = λ x. x;
  scan = λ s. some (count_marks s);
  of_seconds = λ d. d;
}

abbrev pub adapter_tools : AdapterTools ℕ
adapter_tools = record { texts = small_texts; json = small_json; floats = small_floats }

abbrev ethereum_node : Node
ethereum_node = record {
  builds = λ url. true;
  answer = λ n r.
      response 200
        (if str_eq r.body "eth_syncing"
          then "false"
          else if str_eq r.body "eth_blockNumber"
          then "sssss"
          else "ss")
        none;
  is_done = λ n. false;
  is_done_waiting = λ n. false;
  now = λ n. 0;
}

abbrev pub down_node : Node
down_node = record ethereum_node { answer = λ n r. no_response "connection refused" }

pub down_node-IsDown : IsDown down_node
down_node-IsDown n r = ("connection refused", refl)

-- The small floats count in parts of ten thousand.
abbrev synced_report : SyncStatus ℕ
synced_report = record {
  is_syncing = false;
  current_block = 5;
  highest_block = 5;
  peers = 2;
  progress = 1000000;
  stall_exempt = false;
}

answers_synced :
    (evm_health_check adapter_tools ethereum_node "http://node" no_requests).0 ≡ ok synced_report
unfolding synced_at evm_health_check evm_from_sync evm_from_block evm_peer_count judge_sync
    says_synced peers_of block_of hex_to_int64 call_rpc judge_answer open_response send
answers_synced = refl

abbrev later_stages : List SyncStage
later_stages =
    record { name = "Execution"; block = "sss" }
    ∷ record { name = "BorHeimdall"; block = "s" }
    ∷ record { name = "Finish"; block = "" }
    ∷ []

evm_heights-IsRange_example :
    let heights =
      evm_heights small_texts
        (record {
          highest_block = "";
          stages = record { name = "Headers"; block = "sssss" } ∷ later_stages;
        })
        4 in
    IsRange heights.0 heights.1
      (counted small_texts (record { name = "Headers"; block = "sssss" } ∷ later_stages))
evm_heights-IsRange_example =
    evm_heights-IsRange small_texts "" (record { name = "Headers"; block = "sssss" }) later_stages 4

takes_the_range :
    evm_heights small_texts
      (record {
        highest_block = "";
        stages = record { name = "Headers"; block = "sssss" } ∷ later_stages;
      })
      4
    ≡ (3, 5)
unfolding evm_heights scan_stages note_stage hex_to_int64
takes_the_range = refl

abbrev bitcoin : UtxoAdapter
bitcoin = record { stall_policy = "ibd-exempt"; use_retry = true }

utxo_health_check-Spends_example :
    Spends 4 (6 * second) (utxo_health_check adapter_tools down_node "http://node" bitcoin)
utxo_health_check-Spends_example =
    utxo_health_check-Spends adapter_tools down_node "http://node" bitcoin

health_check-IsUnsynced_example :
    IsUnsynced (health_check adapter_tools down_node "http://node" solana no_requests).0
health_check-IsUnsynced_example =
    health_check-IsUnsynced adapter_tools down_node down_node-IsDown solana "http://node"
      no_requests
