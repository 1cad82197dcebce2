-- ===== src/Service/Api.antt =====
-- src/api.py: the three endpoints, over a Redis client and a registry of metrics.
use message_deduplication_id.Prelude.{ℕ, String, ◌≡◌, arith}
use message_deduplication_id.Prelude.Exec.{
  Exn, exception, base_exception, Exec, Result, ok, raised, pure, ◌>>=◌, ◌>>◌, try_except,
  exn_message,
}
use message_deduplication_id.Dedup.{Value, text, dict, field, empty}

-- A response without its headers; the content of `/metrics` is a text.
pub data Content : Type 0 where
  json : Value → Content
  plain : String → String → Content

pub record Response : Type 0 where
  pub status_code : ℕ
  pub content : Content

-- `aioredis.from_url(url, …)`, and `ping` and `close` of the client that it gives.
pub record Redis : Type 1 where
  pub State : Type 0
  pub Client : Type 0
  pub from_url : String → Exec State Client
  pub ping : Client → Exec State Unit
  pub close : Client → Exec State Unit

unfoldable pub health : Response
health = record { status_code = 200; content = json (dict (field "status" (text "ok") empty)) }

unfoldable pub ready_response : Response
ready_response = record {
  status_code = 200;
  content = json (dict (field "status" (text "ready") (field "redis" (text "ok") empty)));
}

unfoldable pub not_ready_response : Exn → Response
not_ready_response exc = record {
  status_code = 503;
  content =
      json
        (dict (field "status" (text "not_ready") (field "redis" (text (exn_message exc)) empty)));
}

module _ (R : Redis) where
  abbrev pub probe : String → Exec R.State Unit
  probe url = do client ← R.from_url url; R.ping client; R.close client

  unfoldable pub ready : String → Exec R.State Response
  ready url =
      try_except (probe url) (λ exc. pure (not_ready_response exc)) (λ _. pure ready_response)

-- `content_type` is CONTENT_TYPE_LATEST, and `latest` what generate_latest() gives.
unfoldable pub prometheus_metrics : String → String → Response
prometheus_metrics content_type latest = record {
  status_code = 200;
  content = plain content_type latest;
}

-- The answer of `/ready`, from the outcome of its calls.
abbrev pub answered : Result (Unit {0}) → Result Response
answered (ok _) = ok ready_response
answered (raised (exception name message)) = ok (not_ready_response (exception name message))
answered (raised (base_exception name message)) = raised (base_exception name message)

module _ (R : Redis) where
  -- The readiness probe answers 200 where the client was made, pinged and closed, and 503 with the
  -- text of the exception where one of these raised an Exception.
  pub ready-answered :
      (url : String) (s : R.State) → ready R url s ≡ (answered (probe R url s).0, (probe R url s).1)
  unfolding ready
  ready-answered url s = ground arith

  -- A client whose ping raises an Exception is not closed: the probe answers at once.
  pub ready_unclosed :
      (url name message : String) (client : R.Client) (s t u : R.State)
      → R.from_url url s ≡ (ok client, t)
      → R.ping client t ≡ (raised (exception name message), u)
      → ready R url s ≡ (ok (not_ready_response (exception name message)), u)
  unfolding ready
  ready_unclosed url name message client s t u made pinged = ground arith
