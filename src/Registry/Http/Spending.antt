-- ===== src/Registry/Http/Spending.antt =====
-- How many requests a run sends, and how long it waits.
use chainplane.Prelude.{
  ℕ, ◌+◌, ◌≤◌, ◌≡◌, refl, inl, inr, String, Bool, true, false, Option, arith, Option-cases,
  if◌then◌else◌,
}
use chainplane.Registry.Http.{
  Web, Request, HttpResponse, Session, Outcome, got, failed, Fetch, ◌>>=◌, proceed, do_request,
  decode_ok, request_json,
}

-- From one session to a later one at most so many requests are sent, and at most so long is waited;
-- the token stays.
pub record Spends (requests waited : ℕ) (s s' : Session) : Type 0 where
  pub sent : s'.requests ≤ s.requests + requests
  pub slept : s'.waited ≤ s.waited + waited
  pub kept : s'.token ≡ s.token

-- A run that sends no request and does not wait.
pub stays-Spends : {n t : ℕ} (s : Session) → Spends n t s s
stays-Spends s = record { sent = omega arith; slept = omega arith; kept = refl }

pub widen-Spends :
    {n t k u : ℕ} {s s' : Session} → n ≤ k → t ≤ u → Spends n t s s' → Spends k u s s'
widen-Spends l m h = record { sent = ground arith; slept = ground arith; kept = ground arith }

pub if-Spends :
    {A : Type 0} {n t : ℕ} (b : Bool) (m k : Fetch A) (s : Session)
    → Spends n t s (m s).1
    → Spends n t s (k s).1
    → Spends n t s ((if b then m else k) s).1
if-Spends true m k s h l = h
if-Spends false m k s h l = l

module _ {A B : Type 0} where
  pub bind-Spends :
      (m : Fetch A) (f : A → Fetch B) (n k t u : ℕ) (s : Session)
      → Spends n t s (m s).1
      → ((a : A) (s' : Session) → Spends k u s' (f a s').1)
      → Spends (n + k) (t + u) s ((m >>= f) s).1
  bind-Spends m f n k t u s first next = go (m s) first
    where
      go : (x : Outcome A × Session) → Spends n t s x.1 → Spends (n + k) (t + u) s (proceed f x).1
      go (got a, s') h =
          let later = next a s' in
          record { sent = ground arith; slept = ground arith; kept = ground arith }
      go (failed e, s') h = record {
        sent = ground arith;
        slept = ground arith;
        kept = ground arith;
      }

module _ (web : Web) where
  pub do_request-Spends : (r : Request) (s : Session) → Spends 1 0 s (do_request web r s).1
  unfolding do_request
  do_request-Spends r s = elim (Option-cases (web.answer s.requests r)) [
    | inl e ↦ record { sent = ground arith; slept = ground arith; kept = ground arith }
    | inr (p, e) ↦ record { sent = ground arith; slept = ground arith; kept = ground arith }
  ]

  pub decode_ok-Spends :
      {A : Type 0} (decode : String → Option A) (p : HttpResponse) (s : Session)
      → Spends 0 0 s (decode_ok web decode p s).1
  decode_ok-Spends decode p s = record {
    sent = ground arith;
    slept = ground arith;
    kept = ground arith;
  }

  pub request_json-Spends :
      {A : Type 0} (decode : String → Option A) (r : Request) (s : Session)
      → Spends 1 0 s (request_json web decode r s).1
  unfolding request_json
  request_json-Spends decode r s =
      let asked =
        bind-Spends (do_request web r) (decode_ok web decode) 1 0 0 0 s (do_request-Spends r s)
          (decode_ok-Spends decode) in
      record { sent = ground arith; slept = ground arith; kept = ground arith }
