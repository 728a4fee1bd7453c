-- ===== src/Adapters/Spending.antt =====
-- How many requests a health check sends, and how long it waits between them.
use chainplane.Prelude.{
  ◌≤◌, inl, inr, ℕ, zero, suc, ◌+◌, ◌*◌, ◌%◌, ◌^◌, String, Bool, true, false, arith, Bool-cases,
  if◌then◌else◌,
}
use chainplane.Time.{second, positive_duration}
use chainplane.Adapters.Session.{HttpRequest, Node, Session, Query, pure, ◌>>=◌, send}
use chainplane.Adapters.Payloads.{AdapterTools}
use chainplane.Adapters.Rpc.{
  RpcResult, answered, failed, call_rpc, is_transient_rpc_error, wait_then, or_retry, retry_from,
  call_rpc_with_retry,
}
use chainplane.Adapters.Get.{Got, http_request}

-- A query sends at most so many requests, and waits at most so long.
abbrev pub Spends : {A : Type 0} → ℕ → ℕ → Query A → Type 0
Spends n w q = (s : Session) → ((q s).1.requests ≤ s.requests + n) × ((q s).1.waited ≤ s.waited + w)

module _ {A : Type 0} where
  pub pure-Spends : (n w : ℕ) (a : A) → Spends n w (pure a)
  pure-Spends n w a s = (omega arith, omega arith)

  pub Spends-weaken :
      (n w n' w' : ℕ) (q : Query A) → n ≤ n' → w ≤ w' → Spends n w q → Spends n' w' q
  Spends-weaken n w n' w' q a b h s = (omega (arith, (h s).0), omega (arith, (h s).1))

  pub if-Spends :
      (n w : ℕ) (b : Bool) (x y : Query A)
      → Spends n w x
      → Spends n w y
      → Spends n w (if b then x else y)
  if-Spends n w true x y p q = p
  if-Spends n w false x y p q = q

module _ {A B : Type 0} (n w n' w' : ℕ) (q : Query A) (k : A → Query B) where
  pub then-Spends :
      Spends n w q → ((a : A) → Spends n' w' (k a)) → Spends (n + n') (w + w') (q >>= k)
  then-Spends h l s =
      let first = h s in
      let second = l (q s).0 (q s).1 in
      (omega (arith, first.0, second.0), omega (arith, first.1, second.1))

-- The longest time that callRPCWithRetry waits.
unfoldable pub longest_waits : ℕ → ℕ → ℕ
longest_waits delay zero = 0
longest_waits delay (suc left) = delay + longest_waits (delay * 2 % 2 ^ 64) left

module _ {F : Type 0} (tools : AdapterTools F) (node : Node) where
  pub call_rpc-Spends :
      (url method params : String) → Spends 1 0 (call_rpc tools node url method params)
  unfolding call_rpc send
  call_rpc-Spends url method params s = elim (Bool-cases (node.builds url)) [
    | inl built ↦ rw built (omega arith, omega arith)
    | inr bad ↦ rw bad (omega arith, omega arith)
  ]

  wait_then-Spends :
      (delay n w : ℕ) (last : RpcResult) (rest : Query RpcResult)
      → Spends n w rest
      → Spends n (delay + w) (wait_then tools node delay last rest)
  unfolding wait_then
  wait_then-Spends delay n w last rest h s = elim (Bool-cases (node.is_done_waiting s.requests)) [
    | inl done ↦ rw done (omega arith, omega arith)
    | inr waits ↦
        let later = h (record s { waited = s.waited + positive_duration delay }) in
        let shorter : positive_duration delay ≤ delay = ground arith in
        rw waits (omega (arith, later.0), omega (arith, later.1, shorter))
  ]

  or_retry-Spends :
      (delay n w : ℕ) (rest : Query RpcResult) (r : RpcResult)
      → Spends n w rest
      → Spends n (delay + w) (or_retry tools node delay rest r)
  unfolding or_retry
  or_retry-Spends delay n w rest (answered _) h s = (omega arith, omega arith)
  or_retry-Spends delay n w rest (failed e) h s =
      elim (Bool-cases (is_transient_rpc_error tools.texts e)) [
        | inl transient ↦ rw transient (wait_then-Spends delay n w (failed e) rest h s)
        | inr lasting ↦ rw lasting (omega arith, omega arith)
      ]

  retry_from-Spends :
      (url method params : String) (left delay : ℕ)
      → Spends
          (suc left)
          (longest_waits delay left)
          (retry_from tools node url method params delay left)
  unfolding retry_from longest_waits
  retry_from-Spends url method params zero delay s = call_rpc-Spends url method params s
  retry_from-Spends url method params (suc left) delay s =
      let rest = retry_from tools node url method params (delay * 2 % 2 ^ 64) left in
      let later = retry_from-Spends url method params left (delay * 2 % 2 ^ 64) in
      let both =
        then-Spends 1 0 (suc left) (delay + longest_waits (delay * 2 % 2 ^ 64) left)
          (call_rpc tools node url method params) (or_retry tools node delay rest)
          (call_rpc-Spends url method params)
          (λ (r : RpcResult). or_retry-Spends delay (suc left) _ rest r later) s in
      (omega (arith, both.0), omega (arith, both.1))

  -- callRPCWithRetry with two retries, which wait for two and for four seconds.
  pub call_rpc_with_retry-Spends :
      (url method params : String)
      → Spends 3 (6 * second) (call_rpc_with_retry tools node url method params 2)
  unfolding call_rpc_with_retry longest_waits
  call_rpc_with_retry-Spends url method params s =
      retry_from-Spends url method params 2 (2 * second) s

pub http_request-Spends : (node : Node) (r : HttpRequest) → Spends 1 0 (http_request node r)
unfolding http_request send
http_request-Spends node r s = elim (Bool-cases (node.builds r.url)) [
  | inl built ↦ rw built (omega arith, omega arith)
  | inr bad ↦ rw bad (omega arith, omega arith)
]

module _ {A : Type 0} (n w : ℕ) where
  -- A query that begins with a call, or with a plain request.
  pub after_call :
      {F : Type 0} (tools : AdapterTools F) (node : Node) (url method params : String)
      (k : RpcResult → Query A)
      → ((r : RpcResult) → Spends n w (k r))
      → Spends (suc n) w (call_rpc tools node url method params >>= k)
  after_call tools node url method params k h s =
      let both =
        then-Spends 1 0 n w (call_rpc tools node url method params) k
          (call_rpc-Spends tools node url method params) h s in
      (omega (arith, both.0), omega (arith, both.1))

  pub after_request :
      (node : Node) (r : HttpRequest) (k : Got → Query A)
      → ((g : Got) → Spends n w (k g))
      → Spends (suc n) w (http_request node r >>= k)
  after_request node r k h s =
      let both = then-Spends 1 0 n w (http_request node r) k (http_request-Spends node r) h s in
      (omega (arith, both.0), omega (arith, both.1))
