-- ===== src/Observability.antt =====
-- aquaops/observability/logging.py: `event_payload`. Latency buckets read floats and are left out.
use aquaops_copilot.Common.{ℕ, String, Option, none, some, List, [], ◌∷◌, ◌++◌}

pub data PayloadValue : Type 0 where
  text : String → PayloadValue
  number : ℕ → PayloadValue

abbrev pub Payload : Type 0
Payload = List (String × PayloadValue)

-- The optional keys, in the order of the dictionary display.
pub record Details : Type 0 where
  pub run_id : Option String
  pub data_version : Option String
  pub model_version : Option String
  pub tool_name : Option String
  pub latency_bucket : Option String
  pub error_class : Option String
  pub retry_count : Option ℕ

abbrev pub no_details : Details
no_details = record {
  run_id = none;
  data_version = none;
  model_version = none;
  tool_name = none;
  latency_bucket = none;
  error_class = none;
  retry_count = none;
}

abbrev present : String → Option String → Payload
present key none = []
present key (some value) = (key, text value) ∷ []

abbrev counted : Option ℕ → Payload
counted none = []
counted (some n) = ("retry_count", number n) ∷ []

unfoldable pub event_payload : String → String → Details → Payload
event_payload event request_id d =
    ("event", text event)
    ∷ ("request_id", text request_id)
    ∷ (present "run_id" d.run_id
        ++ (present "data_version" d.data_version
            ++ (present "model_version" d.model_version
                ++ (present "tool_name" d.tool_name
                    ++ (present "latency_bucket" d.latency_bucket
                        ++ (present "error_class" d.error_class ++ counted d.retry_count))))))
