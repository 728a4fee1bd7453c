-- ===== src/Registry/Http.antt =====
-- The requests of internal/registry: a method that sends requests is a function of the session. The
-- server, the context, the clock, and the packages for URLs, JSON, texts and regular expressions are
-- parameters. The texts of errors are left out.
pub mod Spending
use chainplane.Prelude.{
  ℕ, suc, ◌+◌, String, Bool, Option, none, some, List, ◌==◌, not, if◌then◌else◌,
}

pub record Request : Type 0 where
  pub method : String
  pub url : String
  pub headers : List (String × String)
  pub body : String

-- http.Response with Header.Get
pub record HttpResponse : Type 0 where
  pub status_code : ℕ
  pub header : String → String
  pub body : String

-- The surroundings of a request, where so many were sent before it: http.NewRequest for a URL,
-- client.Do, ctx.Err, a context that is done before a timer fires, and time.Now.
pub record Web : Type 0 where
  pub builds : String → Bool
  pub answer : ℕ → Request → Option HttpResponse
  pub is_done : ℕ → Bool
  pub is_done_waiting : ℕ → Bool
  pub now : ℕ → ℕ

-- What the clients keep and use up: the requests sent, the time waited, and the token of
-- dockerHubAuth, "" if there is none.
pub record Session : Type 0 where
  pub requests : ℕ
  pub waited : ℕ
  pub token : String

pub data RegistryError : Type 0 where
  not_built no_response undecodable no_token context_done bad_pattern : RegistryError
  bad_status : ℕ → RegistryError
  unsupported_registry : String → RegistryError

pub data Outcome (A : Type 0) : Type 0 where
  got : A → Outcome A
  failed : RegistryError → Outcome A

abbrev pub Fetch : Type 0 → Type 0
Fetch A = Session → Outcome A × Session

module _ {A : Type 0} where
  abbrev pub pure : A → Fetch A
  pure a s = (got a, s)

  abbrev pub fail : RegistryError → Fetch A
  fail e s = (failed e, s)

abbrev pub proceed : {A B : Type 0} → (A → Fetch B) → Outcome A × Session → Outcome B × Session
proceed f (got a, s) = f a s
proceed f (failed e, s) = (failed e, s)

infixl 5 ◌>>=◌
abbrev pub ◌>>=◌ : {A B : Type 0} → Fetch A → (A → Fetch B) → Fetch B
◌>>=◌ m f s = proceed f (m s)

module _ (web : Web) where
  -- `client.Do(req)`
  unfoldable pub do_request : Request → Fetch HttpResponse
  do_request r s =
      let sent = record s { requests = suc s.requests } in
      elim (web.answer s.requests r) [ none ↦ (failed no_response, sent) | some p ↦ (got p, sent) ]

  -- The check of the status, and the decoding of the body.
  abbrev pub decode_ok : {A : Type 0} → (String → Option A) → HttpResponse → Fetch A
  decode_ok decode p =
      if not (p.status_code == 200)
      then fail (bad_status p.status_code)
      else (elim (decode p.body) [ none ↦ fail undecodable | some a ↦ pure a ])

  -- http.NewRequestWithContext, client.Do, the check of the status, and the decoding of the body.
  unfoldable pub request_json : {A : Type 0} → (String → Option A) → Request → Fetch A
  request_json decode r s =
      if not (web.builds r.url)
      then (failed not_built, s)
      else (do_request r >>= decode_ok decode) s
