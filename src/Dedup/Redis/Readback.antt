-- ===== src/Dedup/Redis/Readback.antt =====
-- What `get_status` of the Redis store reads back of a record that a script has written.
use mathlib.Core.Path.{subst}
use message_deduplication_id.Prelude.{
  ℕ, String, ◌≡◌, ◌∙◌, ap, true, none, some, arith, Option-cases, inl, inr, false,
}
use message_deduplication_id.Prelude.Exec.{ok}
use message_deduplication_id.Dedup.{
  Value, completed, is_processing, is_completed, ProcessingStatus, DeduplicationConfig,
}
use message_deduplication_id.Dedup.Redis.Protocol.{fine, Server, LuaRecord, IsLawful, exact_result}
use message_deduplication_id.Dedup.Redis.{
  redis_key, lua_update_status, mark_completed, get_status, to_status, update_record,
}
use message_deduplication_id.Dedup.Redis.Laws.{Spells, IsCleanRaw, run_update, update_record-exact}
use message_deduplication_id.Dedup.Redis.Refines.{Up, Storable, Spells-text, mark_completed-run}

-- A record once it is COMPLETED with a result at an instant.
abbrev pub as_completed : Value → ℕ → ProcessingStatus → ProcessingStatus
as_completed v now r = record r {
  status = completed;
  result = v;
  lease_expires_at = none;
  updated_at = now;
}

module _ (R : Server) (L : IsLawful R) (config : DeduplicationConfig) where
  get_status-written :
      (id : String) (r : LuaRecord) (s : R.State)
      → R.fault s ≡ fine
      → exact_result R r.result ≡ true
      → get_status R config id (R.set_keepttl (redis_key id) (R.encode r) s)
        ≡ (ok (some (to_status R config r)), R.set_keepttl (redis_key id) (R.encode r) s)
  unfolding get_status
  get_status-written id r s up x =
      let key = redis_key id in
      let w = L.set_keepttl_writes key (R.encode r) s in
      let g = L.get-set_keepttl key key (R.encode r) s in
      let d = L.decode-encode r x in
      let l = L.loads-decode (R.encode r) in let f = w.fault in ground arith

  pub record Found (id : String) (r : ProcessingStatus) (s : R.State) : Type 0 where
    pub raw : R.Raw
    pub stored_as : R.get (redis_key id) s ≡ some raw
    pub reads_as : to_status R config (R.decode raw) ≡ r

  pub get_status-Found :
      (id : String) (r : ProcessingStatus) (s : R.State)
      → R.fault s ≡ fine
      → (get_status R config id s).0 ≡ ok (some r)
      → Found id r s
  unfolding get_status
  get_status-Found id r s up h = elim (Option-cases (R.get (redis_key id) s)) [
    | inl e ↦ absurd (ground arith)
    | inr (raw, e) ↦
        let l = L.loads-decode raw in record { raw = raw; stored_as = e; reads_as = ground arith }
  ]

  -- The result in a record of which the script has `json`.
  result-Spells :
      (json : String) (v : Value) (rec : LuaRecord) (now : ℕ)
      → Spells R L config json v
      → is_processing rec.status ≡ true
      → (is_completed rec.status ≡ false → rec.result ≡ none)
      → to_status R config (update_record R config completed now json "" none rec)
        ≡ as_completed v now (to_status R config rec)
  unfolding update_record
  result-Spells json v rec now (inl (e, n)) p clean = ground arith
  result-Spells json v rec now (inr (ne, d)) p clean = ground arith

  update-written :
      (id json : String) (raw : R.Raw) (s : R.State)
      → R.get (redis_key id) s ≡ some raw
      → is_processing (R.decode raw).status ≡ true
      → (run_update R L config id completed json "" none s).1
        ≡ R.set_keepttl
            (redis_key id)
            (R.encode
              (update_record R config completed (R.client_clock s) json "" none (R.decode raw)))
            s
  unfolding lua_update_status
  update-written id json raw s e p = ground arith

  -- A PROCESSING record as `get_status` reads it, and the same record once `mark_completed` returned:
  -- it has the result that was given, with the id, the attempts, the error text and the creation date
  -- that it had, no lease, and the client's date of the update.
  pub get_status-mark_completed :
      (id : String) (v : Value) (r : ProcessingStatus) (s : R.State)
      → Up R L config s
      → Storable R L config v
      → (get_status R config id s).0 ≡ ok (some r)
      → is_processing r.status ≡ true
      → (get_status R config id (mark_completed R config id v s).1).0
        ≡ ok (some (as_completed v (R.client_clock s) r))
  get_status-mark_completed id v r s u (json, e, x) h p =
      let f = get_status-Found id r s u.answers h in
      let rec = R.decode f.raw in
      let new = update_record R config completed (R.client_clock s) json "" none rec in
      let spells = Spells-text R L config v json x e in
      let clean = subst (IsCleanRaw R L config) f.stored_as (u.clean id) in
      let running = ap (λ q. is_processing q.status) f.reads_as ∙ p in
      let same =
        ap (λ z. z.1) (mark_completed-run R L config id json v s u.answers e)
        ∙ update-written id json f.raw s f.stored_as running in
      ap (λ z. (get_status R config id z).0) same
      ∙ ap (λ z. z.0)
          (get_status-written id new s u.answers
            (update_record-exact R L config completed (R.client_clock s) json "" none f.raw))
      ∙ ap (λ z. ok (some z)) (result-Spells json v rec (R.client_clock s) spells running clean)
      ∙ ap (λ q. ok (some (as_completed v (R.client_clock s) q))) f.reads_as
