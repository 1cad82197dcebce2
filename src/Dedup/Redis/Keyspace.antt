-- ===== src/Dedup/Redis/Keyspace.antt =====
-- A server that keeps its keyspace in a dictionary, with the expiry of each key: it meets the laws
-- that the store relies on. Its codec writes the results that are texts, and refuses others.
use Prim.Native.String.{[], ◌∷◌}
use package.text.Mathlib.TextLemmas.{cons≢nil}
use message_deduplication_id.Prelude.{
  arith, ℕ, ◌+◌, ◌*◌, ◌/◌, ◌%◌, String, true, ◌≡◌, ◌≢◌, refl, ap, sym, ◌∙◌,
}
use message_deduplication_id.Prelude.Dict
use message_deduplication_id.Prelude.Dict.{Dict, get-put, get-remove}
use message_deduplication_id.Prelude.Exec.{exception, Result, ok, raised}
use message_deduplication_id.Dedup.{Value, null, text}
use message_deduplication_id.Dedup.Redis.Protocol.{Fault, Server, LuaRecord, IsLawful, exact_result}

pub record Keyspace : Type 0 where
  pub values : Dict LuaRecord
  pub expiries : Dict ℕ
  pub clock : ℕ
  pub link : Fault

abbrev pub clock_ms : Keyspace → ℕ
clock_ms s = s.clock / 1_000_000 * 1000 + s.clock % 1_000_000 / 1000

unfoldable pub set_px : String → LuaRecord → ℕ → Keyspace → Keyspace
set_px k v ttl s = record s {
  values = Dict.put s.values k v;
  expiries = Dict.put s.expiries k (clock_ms s + ttl);
}

unfoldable pub set_keepttl : String → LuaRecord → Keyspace → Keyspace
set_keepttl k v s = record s { values = Dict.put s.values k v }

unfoldable pub del : String → Keyspace → Keyspace
del k s = record s { values = Dict.remove s.values k; expiries = Dict.remove s.expiries k }

unfoldable pub dumps : Value → Result String
dumps (text t) = ok ("t" ∷ t)
dumps _ = raised (exception "TypeError" "Object is not JSON serializable")

unfoldable pub decode_value : String → Value
decode_value [] = null
decode_value (c ∷ t) = text t

abbrev pub keyspace : Server
keyspace = record {
  State = Keyspace;
  Raw = LuaRecord;
  fault = λ s. s.link;
  time = λ s. (s.clock / 1_000_000, s.clock % 1_000_000);
  client_clock = λ s. s.clock;
  get = λ k s. Dict.get s.values k;
  set_px = set_px;
  set_keepttl = set_keepttl;
  del = del;
  deadline = λ k s. Dict.get s.expiries k;
  encode = λ r. r;
  decode = λ r. r;
  loads = λ r. r;
  dumps = dumps;
  decode_value = decode_value;
  exact = λ v. true;
}

ok-injective : (s t : String) → ok s ≡ ok t → s ≡ t
ok-injective s t h = cc

dumps-ne-empty : (v : Value) (t : String) → dumps v ≡ ok t → t ≢ ""
unfolding dumps
dumps-ne-empty (text u) t h e = cons≢nil (ok-injective ("t" ∷ u) t h ∙ e)
dumps-ne-empty _ t h e = cc

decode_value-dumps : (v : Value) (t : String) → dumps v ≡ ok t → decode_value t ≡ v
unfolding dumps decode_value
decode_value-dumps (text u) t h = ap decode_value (sym (ok-injective ("t" ∷ u) t h))
decode_value-dumps _ t h = cc

kept_exact : (r : LuaRecord) → exact_result keyspace r.result ≡ true
kept_exact r = ground arith

pub keyspace-IsLawful : IsLawful keyspace
unfolding set_px set_keepttl del
keyspace-IsLawful = record {
  get-set_px = λ k j v ttl s _. get-put s.values k j v;
  get-set_keepttl = λ k j v s. get-put s.values k j v;
  get-del = λ k j s. get-remove s.values k j;
  deadline-set_px = λ k j v ttl s _. get-put s.expiries k j _;
  deadline-set_keepttl = λ k j v s. refl;
  set_px_writes = λ k v ttl s. record { fault = refl; time = refl };
  set_keepttl_writes = λ k v s. record { fault = refl; time = refl };
  del_writes = λ k s. record { fault = refl; time = refl };
  decode-encode = λ r _. refl;
  decode-exact = kept_exact;
  decode_value-exact = λ t. refl;
  loads-decode = λ r. refl;
  dumps-ne-empty = dumps-ne-empty;
  decode_value-dumps = λ v t _. decode_value-dumps v t;
}
