-- ===== src/Consumer/Message/Laws.antt =====
-- The message ids that `_extract_message_id` gives.
use message_deduplication_id.Prelude.{
  String, ◌≡◌, ◌≢◌, true, Option, none, some, List, [], ◌∷◌, arith, inl, inr, Bool-cases,
  Option-cases,
}
use message_deduplication_id.Prelude.Exec.{ok, Result-cases}
use message_deduplication_id.Dedup.{Value, dict}
use message_deduplication_id.Consumer.Message.{
  Codec, ConsumerRecord, has_bytes, truthy, get_field, or_value, header_id, payload_id, body_id,
  extract_message_id,
}

module _ (K : Codec) where
  -- Bytes that are not empty decode to a text that is not empty, and a value that is true as a
  -- condition has a text that is not empty.
  pub record Readable : Type 0 where
    pub decoded : (b : K.Bytes) (t : String) → K.non_empty b ≡ true → K.decode b ≡ ok t → t ≢ ""
    pub printed : (v : Value) → truthy v ≡ true → K.str v ≢ ""

  header_id-non_empty :
      (hs : List (String × Option K.Bytes)) (b : K.Bytes)
      → header_id K hs ≡ some b
      → K.non_empty b ≡ true
  unfolding header_id
  header_id-non_empty [] b h = absurd (cc)
  header_id-non_empty ((key, none) ∷ rest) b h = header_id-non_empty rest b (ground arith)
  header_id-non_empty ((key, some c) ∷ rest) b h =
      let later = header_id-non_empty rest b in ground arith

  payload_id-non_empty : (v : Value) (id : String) → Readable → payload_id K v ≡ some id → id ≢ ""
  unfolding payload_id
  payload_id-non_empty (dict fs) id h e =
      let v = or_value (get_field "message_id" fs) (get_field "id" fs) in
      elim (Bool-cases (truthy v)) [
        | inl yes_it_is ↦ λ empty_id. h.printed v yes_it_is (ground arith)
        | inr no_id ↦ absurd (ground arith)
      ]
  payload_id-non_empty _ id h e = absurd (ground arith)

  body_id-non_empty :
      (b : Option K.Bytes) (id : String) → Readable → body_id K b ≡ ok (some id) → id ≢ ""
  unfolding body_id
  body_id-non_empty none id h e = absurd (ground arith)
  body_id-non_empty (some b) id h e = elim (Result-cases (K.loads b)) [
    | inl (v, parsed) ↦ payload_id-non_empty v id h (ground arith)
    | inr (x, refused) ↦ absurd (ground arith)
  ]

  -- A message id is never the empty text: so `if message_id:` in the consumer is true exactly when
  -- there is an id.
  pub extract_message_id-non_empty :
      (r : ConsumerRecord K) (id : String)
      → Readable
      → extract_message_id K r ≡ ok (some id)
      → id ≢ ""
  unfolding extract_message_id
  extract_message_id-non_empty r id h e = elim (Option-cases (header_id K r.headers)) [
    | inl none_there ↦ body_id-non_empty (has_bytes K r.value) id h (ground arith)
    | inr (b, there) ↦ h.decoded b id (header_id-non_empty r.headers b there) (ground arith)
  ]
