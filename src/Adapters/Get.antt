-- ===== src/Adapters/Get.antt =====
-- The plain HTTP requests of the health checks: http.NewRequestWithContext, client.Do and io.ReadAll.
use chainplane.Prelude.{ℕ, String, Bool, Option, none, not, if◌then◌else◌}
use chainplane.Adapters.Session.{
  HttpRequest, HttpAnswer, no_response, response, Node, Query, pure, ◌>>=◌, send,
}

-- `got` has the text of an error of reading the body, of which only a part came then.
pub data Got : Type 0 where
  unbuilt : Got
  unanswered : (cause : String) → (is_done : Bool) → Got
  got : (status : ℕ) → (body : String) → (read_error : Option String) → Got

unfoldable pub got_of : HttpAnswer × Bool → Got
got_of (no_response cause, done) = unanswered cause done
got_of (response status body e, _) = got status body e

module _ (node : Node) where
  unfoldable pub http_request : HttpRequest → Query Got
  http_request r s =
      if not (node.builds r.url) then (unbuilt, s) else (send node r >>= λ a. pure (got_of a)) s

  abbrev pub http_get : String → Query Got
  http_get url = http_request (record { method = "GET"; url = url; body = "" })

-- `body, _ := io.ReadAll`, and the decoding of what was read
abbrev pub decode_got : {A : Type 0} → (String → Option A) → Got → Option A
decode_got decode unbuilt = none
decode_got decode (unanswered _ _) = none
decode_got decode (got _ body _) = decode body

-- The same where an error of reading the body counts.
abbrev pub decode_whole : {A : Type 0} → (String → Option A) → Got → Option A
decode_whole decode (got _ body none) = decode body
decode_whole decode _ = none
