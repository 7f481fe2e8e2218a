-- ===== src/Endpoints/Types.antt =====
-- litecast/endpoints.py: `UCXXEndpoint`, `EndpointMetadata` and its dictionary. The keys of a
-- dictionary stand in their order, as `json.dumps` writes them.
use litecast.Common.{
  ℕ, Bool, List, [], ◌∷◌, Option, none, some, Text, pos, codes, leb, if◌then◌else◌,
}
use litecast.Protocol.Json.{
  Json, boolean, integer, text, array, object, Items, end, item, Fields, field, done,
}

-- `unicode_error` is that of `str.encode`, `value_error` any other `ValueError`.
pub data EndpointError : Type 0 where
  metadata_error : EndpointError
  unicode_error : EndpointError
  value_error : EndpointError

pub record UcxxEndpoint : Type 0 where
  pub host : Text
  pub port : ℕ
  pub interface : Option Text
  pub verified_rdma : Bool

pub record EndpointMetadata : Type 0 where
  pub http_base_url : Text
  pub ucxx : Option UcxxEndpoint
  pub schema : ℕ
  pub middle_id : Option Text
  pub capabilities : List Text

-- An entry that is left out where it has no value.
unfoldable pub optional : Text → Option Json → Fields → Fields
optional key none fields = fields
optional key (some value) fields = field key value fields

unfoldable pub text_items : List Text → Items
text_items [] = end
text_items (t ∷ ts) = item (text t) (text_items ts)

abbrev pub as_text : Option Text → Option Json
as_text none = none
as_text (some t) = some (text t)

unfoldable pub ucxx_fields : UcxxEndpoint → Fields
unfolding optional
ucxx_fields ucxx = field (codes "host") (text ucxx.host) (
    optional (codes "interface") (as_text ucxx.interface) (
      field (codes "port") (integer (pos ucxx.port))
        (field (codes "verified_rdma") (boolean ucxx.verified_rdma) done)))

abbrev pub as_ucxx : Option UcxxEndpoint → Option Json
as_ucxx none = none
as_ucxx (some ucxx) = some (object (ucxx_fields ucxx))

-- What schema 2 adds.
abbrev pub streaming : ℕ → Option Json → Option Json
streaming schema value = if leb 2 schema then value else none

unfoldable pub to_dict : EndpointMetadata → Fields
unfolding optional text_items ucxx_fields
to_dict metadata =
    optional (codes "capabilities")
      (streaming metadata.schema (some (array (text_items metadata.capabilities))))
      (field (codes "http") (object (field (codes "base_url") (text metadata.http_base_url) done)) (
        optional (codes "middle_id") (streaming metadata.schema (as_text metadata.middle_id)) (
          field (codes "schema") (integer (pos metadata.schema))
            (optional (codes "ucxx") (as_ucxx metadata.ucxx) done))))
