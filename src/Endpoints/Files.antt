-- ===== src/Endpoints/Files.antt =====
-- litecast/endpoints.py: the JSON that is written and read. `pairs` is `json.loads` of decoded
-- bytes with every object as the list of its pairs, which the hook turns into a dictionary.
use litecast.Common.{
  ℕ, Option, none, some, Bytes, length, leb, ltb, Outcome, ok, raise, ◌>>=◌, ◌>>◌, if◌then◌else◌,
}
use litecast.Protocol.Json.{Json, object}
use litecast.Endpoints.Types.{
  EndpointError, metadata_error, unicode_error, value_error, EndpointMetadata, to_dict,
}
use litecast.Endpoints.Parse.{Texts, max_json_size, parse_mapping, require, object_of, unique}

module _ (texts : Texts) (dumps_utf8 : Json → Option Bytes) where
  unfoldable pub serialize : EndpointMetadata → Outcome EndpointError Bytes
  unfolding require
  serialize metadata = do
    validated ← parse_mapping texts (to_dict metadata)
    elim (dumps_utf8 (object (to_dict validated))) [
      | none ↦ raise unicode_error
      | some encoded ↦ do require (leb (length encoded) max_json_size); ok encoded
    ]

module _ (texts : Texts) (pairs : Bytes → Option Json) where
  unfoldable pub parse_endpoint_metadata : Bytes → ℕ → Outcome EndpointError EndpointMetadata
  unfolding require object_of unique
  parse_endpoint_metadata raw max_size =
      if leb max_size 0
      then raise value_error
      else if ltb max_size (length raw)
      then raise metadata_error
      else elim (pairs raw) [
        | none ↦ raise metadata_error
        | some value ↦ do
          require (unique value)
          fields ← object_of (some value)
          parse_mapping texts fields
      ]
