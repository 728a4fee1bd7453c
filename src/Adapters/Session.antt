-- ===== src/Adapters/Session.antt =====
-- The surroundings of a health check, and the requests that it sends.
use chainplane.Prelude.{ℕ, suc, String, Bool, Option}

pub record HttpRequest : Type 0 where
  pub method : String
  pub url : String
  pub body : String

-- client.Do: no response, with the text of the error, or the response, with the error of reading its body.
pub data HttpAnswer : Type 0 where
  no_response : String → HttpAnswer
  response : (status : ℕ) → (body : String) → (read_error : Option String) → HttpAnswer

-- The node and the context, where so many requests were sent before: http.NewRequest for a URL, client.Do,
-- ctx.Err behind it, a context that is done before a timer fires, and time.Now in nanoseconds.
pub record Node : Type 0 where
  pub builds : String → Bool
  pub answer : ℕ → HttpRequest → HttpAnswer
  pub is_done : ℕ → Bool
  pub is_done_waiting : ℕ → Bool
  pub now : ℕ → ℕ

-- The requests that were sent, and the time that was waited between them.
pub record Session : Type 0 where
  pub requests : ℕ
  pub waited : ℕ

abbrev pub Query : Type 0 → Type 0
Query A = Session → A × Session

abbrev pub pure : {A : Type 0} → A → Query A
pure a s = (a, s)

abbrev pub proceed : {A B : Type 0} → (A → Query B) → A × Session → B × Session
proceed f (a, s) = f a s

infixl 5 ◌>>=◌
abbrev pub ◌>>=◌ : {A B : Type 0} → Query A → (A → Query B) → Query B
◌>>=◌ m f s = proceed f (m s)

module _ (node : Node) where
  -- time.Now
  abbrev pub now : Query ℕ
  now s = (node.now s.requests, s)

  -- client.Do, and whether the context is done behind it
  unfoldable pub send : HttpRequest → Query (HttpAnswer × Bool)
  send r s =
      ((node.answer s.requests r, node.is_done s.requests), record s { requests = suc s.requests })
