-- ===== src/Endpoints/Dictionary.antt =====
-- litecast/endpoints.py: what stands under the keys of the dictionary of an endpoint's metadata.
use litecast.Common.{
  Bool, true, Option, none, some, Text, codes, text_eq, pos, if◌then◌else◌, ◌≡◌, refl, arith,
}
use litecast.Protocol.Json.{
  Json, text, array, object, integer, Fields, field, done, find_field, all_keys,
}
use litecast.Endpoints.Types.{
  EndpointMetadata, optional, streaming, text_items, as_text, as_ucxx, to_dict,
}

-- The first value of two.
abbrev pub or_else : Option Json → Option Json → Option Json
or_else (some j) rest = some j
or_else none rest = rest

pub find_field-optional :
    (key name : Text) (value : Option Json) (fields : Fields)
    → find_field key (optional name value fields)
      ≡ (if text_eq name key then or_else value (find_field key fields) else find_field key fields)
unfolding optional find_field
find_field-optional key name none fields = ground arith
find_field-optional key name (some j) fields = ground arith

pub all_keys-optional :
    (test : Text → Bool) (name : Text) (value : Option Json) (fields : Fields)
    → test name ≡ true
    → all_keys test (optional name value fields) ≡ all_keys test fields
unfolding optional all_keys
all_keys-optional test name none fields h = refl
all_keys-optional test name (some j) fields h = rw h refl

pub or_else-none : (value : Option Json) → or_else value none ≡ value
or_else-none none = refl
or_else-none (some j) = refl

-- What a reader finds in the dictionary of some metadata.
pub record Entries (e : EndpointMetadata) : Type 0 where
  pub capabilities :
      find_field (codes "capabilities") (to_dict e)
      ≡ streaming e.schema (some (array (text_items e.capabilities)))
  pub http :
      find_field (codes "http") (to_dict e)
      ≡ some (object (field (codes "base_url") (text e.http_base_url) done))
  pub middle_id :
      find_field (codes "middle_id") (to_dict e) ≡ streaming e.schema (as_text e.middle_id)
  pub schema : find_field (codes "schema") (to_dict e) ≡ some (integer (pos e.schema))
  pub ucxx : find_field (codes "ucxx") (to_dict e) ≡ as_ucxx e.ucxx

pub to_dict-Entries : (e : EndpointMetadata) → Entries e
unfolding to_dict find_field text_eq
to_dict-Entries e = record {
  capabilities = simp (find_field-optional, or_else-none);
  http = simp (find_field-optional, or_else-none);
  middle_id = simp (find_field-optional, or_else-none);
  schema = simp (find_field-optional, or_else-none);
  ucxx = simp (find_field-optional, or_else-none);
}
