-- ===== src/Dedup.antt =====
-- src/dedup/models.py, and the JSON-like values that the results are.
pub mod Lifecycle
pub mod Store
pub mod Races
pub mod Lockstep
pub mod Workers
pub mod Memory
pub mod Redis
use message_deduplication_id.Prelude.{ℕ, String, Bool, true, false, Option, ◌||◌}

-- The Python values that messages and results are made of. `int` is an integer from 0 on; `number`
-- is any other number, by its `str` and whether it is true as a condition. `opaque` is an object that
-- is none of the others, and that `json.dumps` refuses.
mutual
  pub data Value : Type 0 where
    null : Value
    bool : Bool → Value
    int : ℕ → Value
    number : String → Bool → Value
    text : String → Value
    list : Items → Value
    dict : Fields → Value
    opaque : ℕ → Value

  pub data Items : Type 0 where
    end : Items
    item : Value → Items → Items

  pub data Fields : Type 0 where
    empty : Fields
    field : String → Value → Fields → Fields

pub data StatusValue : Type 0 where
  processing completed failed skipped : StatusValue

pub record ProcessingStatus : Type 0 where
  pub message_id : String
  pub status : StatusValue
  pub attempts : ℕ
  pub result : Value
  pub error : Option String
  pub lease_expires_at : Option ℕ
  pub created_at : ℕ
  pub updated_at : ℕ

-- `status == StatusValue.PROCESSING`
abbrev pub is_processing : StatusValue → Bool
is_processing processing = true
is_processing _ = false

abbrev pub is_completed : StatusValue → Bool
is_completed completed = true
is_completed _ = false

abbrev pub is_failed_value : StatusValue → Bool
is_failed_value failed = true
is_failed_value _ = false

abbrev pub is_skipped_value : StatusValue → Bool
is_skipped_value skipped = true
is_skipped_value _ = false

abbrev pub is_terminal : ProcessingStatus → Bool
is_terminal r = is_completed r.status || is_skipped_value r.status

abbrev pub is_failed : ProcessingStatus → Bool
is_failed r = is_failed_value r.status

pub record DeduplicationConfig : Type 0 where
  pub ttl_seconds : ℕ
  pub max_retries : ℕ
  pub retry_backoff_ms : ℕ
  pub processing_timeout_seconds : ℕ
  pub retry_failed : Bool

abbrev pub default_config : DeduplicationConfig
default_config = record {
  ttl_seconds = 86400;
  max_retries = 3;
  retry_backoff_ms = 500;
  processing_timeout_seconds = 300;
  retry_failed = true;
}
