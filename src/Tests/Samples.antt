-- ===== src/Tests/Samples.antt =====
-- The principals, records, caches and devices of the tests.
use depthfusion.Authz.Roles.{read_own_records}
use depthfusion.Backends.{Backend, Attempt}
use depthfusion.Router.{ContextItem}
use depthfusion.Authz.Classification.{public, restricted}
use depthfusion.Authz.Engine.{Reads, Resource}
use depthfusion.Authz.Principals.{Principal}
use depthfusion.Offline.Purge.{PurgeEngine}
use depthfusion.Authz.Snapshot.{Body, Signing}
use depthfusion.Common.{nat_eq, none, if◌then◌else◌, Bool, some, [], ◌∷◌, true, List, String, ℕ}
use depthfusion.Authz.DecisionCache.{Entry, granted, CacheKey, PolicyDecision, DecisionCache}
use depthfusion.Common.Dict.{Dict}
use depthfusion.Offline.Lease.{Lease, Device}

abbrev pub principal : String → List String → Principal
principal id groups = record {
  principal_id = id;
  upn = id;
  display_name = id;
  groups = groups;
  device_id = none;
  access_token = none;
  id_token = none;
  expires_at = none;
}

abbrev pub alice : Principal
alice = principal "alice" ("member" ∷ "analyst" ∷ [])

abbrev pub root_user : Principal
root_user = principal "root" ("owner" ∷ [])

abbrev pub note : Resource
note = record { acl_allow = some ("alice" ∷ "bob" ∷ []); classification = some "internal" }

abbrev pub unlabelled_note : Resource
unlabelled_note = record { acl_allow = some ("alice" ∷ []); classification = none }

abbrev pub allowed_decision : PolicyDecision
allowed_decision = record {
  allow = true;
  reason = granted read_own_records;
  capability = some read_own_records;
}

abbrev pub cache_key : String → CacheKey
cache_key id = record {
  principal_id = id;
  groups = "member" ∷ [];
  capability = read_own_records;
  acl = id ∷ [];
  classification = "public";
}

abbrev pub empty_cache : DecisionCache
empty_cache = record { ttl = 60; max_size = 2; store = [] }

-- Full: the entry of `alice` expires before that of `bob`.
abbrev pub full_store : Dict CacheKey Entry
full_store =
    (cache_key "alice", (allowed_decision, 50)) ∷ (cache_key "bob", (allowed_decision, 90)) ∷ []

abbrev pub full_cache : DecisionCache
full_cache = record { ttl = 60; max_size = 2; store = full_store }

abbrev pub reads_at : ℕ → Reads
reads_at now = record { lookup_at = now; evict_at = now; stored_at = now; wall = now }

abbrev pub sample_hmac : String → Body → String
sample_hmac k b = if nat_eq b.version 0 then "first" else "later"

-- Some signing: a text for a key, and a hash that is never empty.
abbrev pub sample_signing : Signing
sample_signing = record { Key = String; hmac = sample_hmac; coerce_key = λ k. k }

abbrev pub sample_lease : Lease
sample_lease = record {
  record_id = "r1";
  classification = public;
  issued_at = 100;
  expires_at = 604900;
}

abbrev pub short_lease : Lease
short_lease = record {
  record_id = "r2";
  classification = restricted;
  issued_at = 100;
  expires_at = 86500;
}

abbrev pub sample_device : Device
sample_device = record {
  store = record { leases = ("r1", sample_lease) ∷ ("r2", short_lease) ∷ []; hwm = 90000 };
  wipes = [];
}

abbrev pub sample_engine : PurgeEngine
sample_engine = record { high_water_mark = 90000; device = sample_device }

abbrev pub item : String → String → ContextItem
item id hash = record {
  item_id = id;
  content = "text";
  source_agent = "agent";
  tags = "t" ∷ [];
  content_hash = some hash;
}

abbrev pub backend : String → Bool → Attempt ℕ → Backend ℕ
backend name healthy attempt = record { name = name; healthy = healthy; attempt = attempt }
