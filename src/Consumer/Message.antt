-- ===== src/Consumer/Message.antt =====
-- The records of Kafka, and `_extract_message_id`.
pub mod Laws
use message_deduplication_id.Prelude.{
  ℕ, String, Bool, true, false, not, ◌||◌, Option, none, some, List, [], ◌∷◌, ltb, ◌==◌,
  if◌then◌else◌,
}
use message_deduplication_id.Prelude.Exec.{Exn, exception, base_exception, Result, ok, raised}
use message_deduplication_id.Dedup.{
  Value, null, bool, int, number, text, list, dict, opaque, end, item, Fields, empty, field,
}

-- What the consumer takes from the standard library on byte strings.
pub record Codec : Type 1 where
  pub Bytes : Type 0
  -- `bool(value)`
  pub non_empty : Bytes → Bool
  -- `value.decode()` and `value.decode(errors="replace")`
  pub decode : Bytes → Result String
  pub decode_replace : Bytes → String
  pub loads : Bytes → Result Value
  -- the bytes themselves as a value, in `{"raw": record.value}`
  pub as_value : Bytes → Value
  -- `str(value)`
  pub str : Value → String

module _ (K : Codec) where
  pub record ConsumerRecord : Type 0 where
    pub topic : String
    pub partition : ℕ
    pub offset : ℕ
    pub key : Option K.Bytes
    pub value : Option K.Bytes
    pub headers : List (String × Option K.Bytes)

  -- `value` as a condition
  abbrev pub has_bytes : Option K.Bytes → Option K.Bytes
  has_bytes none = none
  has_bytes (some b) = if K.non_empty b then some b else none

-- A value as a condition: None, False, 0, "", [] and {} are false.
abbrev pub truthy : Value → Bool
truthy null = false
truthy (bool b) = b
truthy (int n) = ltb 0 n
truthy (number s nonzero) = nonzero
truthy (text t) = not (t == "")
truthy (list end) = false
truthy (list (item v vs)) = true
truthy (dict empty) = false
truthy (dict (field k v fs)) = true
truthy (opaque n) = true

-- payload.get(key): a missing key gives None. A key stands once in a dict.
unfoldable pub get_field : String → Fields → Value
get_field k empty = null
get_field k (field j v fs) = if k == j then v else get_field k fs

-- `a or b`
abbrev pub or_value : Value → Value → Value
or_value a b = if truthy a then a else b

module _ (K : Codec) where
  -- The loop over the headers: the first `X-Message-Id` that is not empty.
  unfoldable pub header_id : List (String × Option K.Bytes) → Option K.Bytes
  header_id [] = none
  header_id ((key, value) ∷ rest) =
      let later = header_id rest in
      if key == "X-Message-Id"
      then elim (has_bytes K value) [ some b ↦ some b | none ↦ later ]
      else later

  abbrev pub id_of : Value → Option String
  id_of mid = if truthy mid then some (K.str mid) else none

  -- payload.get("message_id") or payload.get("id"), where the payload is a dict
  unfoldable pub payload_id : Value → Option String
  payload_id (dict fs) = id_of (or_value (get_field "message_id" fs) (get_field "id" fs))
  payload_id _ = none

  -- except (json.JSONDecodeError, UnicodeDecodeError, TypeError): pass
  abbrev pub ignored : Exn → Bool
  ignored (exception name m) =
      name == "JSONDecodeError" || name == "UnicodeDecodeError" || name == "TypeError"
  ignored (base_exception name m) = false

  unfoldable pub body_id : Option K.Bytes → Result (Option String)
  unfolding payload_id
  body_id none = ok none
  body_id (some b) = elim (K.loads b) [
    | ok payload ↦ ok (payload_id payload)
    | raised e ↦ if ignored e then ok none else raised e
  ]

  -- An exception of `decode` on the header is not caught.
  unfoldable pub extract_message_id : ConsumerRecord K → Result (Option String)
  unfolding header_id body_id
  extract_message_id r = elim (header_id r.headers) [
    | some b ↦ elim (K.decode b) [ ok id ↦ ok (some id) | raised e ↦ raised e ]
    | none ↦ body_id (has_bytes K r.value)
  ]
