-- ===== src/Endpoints/Tests.antt =====
-- A document about a middle, and the theorems about it.
use litecast.Common.{
  ◌≡◌, refl, false, none, some, [], ◌∷◌, pos, ◌==◌, codes, text_eq, is_empty, ok, raise,
}
use litecast.Protocol.Json.{
  object, array, text, integer, null, field, done, item, end, Fields, find_field, all_keys,
}
use litecast.Streaming.Members.{mem, rstrip_slash, no_duplicates}
use litecast.Transport.Wire.{all_present}
use litecast.Transport.Sessions.{has_nul}
use litecast.Endpoints.Types.{EndpointMetadata, metadata_error}
use litecast.Endpoints.Parse.{Texts, SplitUrl}
use litecast.Endpoints.Types.{optional, text_items, ucxx_fields, to_dict}
use litecast.Endpoints.Parse.{
  require, require_keys, has_key, object_of, natural_of, schema_of, any_space, is_given, port_of,
  verified_of, check_capability, string_of, texts_of, items_of, capabilities_of, check_url, is_null,
  maybe, check_schema, validate_text, text_of, validate_http_url, url_of, word_of, ucxx_entries,
  ucxx_of, parse_mapping, unique,
}
use litecast.Endpoints.Files.{serialize, parse_endpoint_metadata}
use litecast.Endpoints.RoundTrip.{parse_mapping-to_dict}
use litecast.Endpoints.Bounds.{IsBounded, parse_mapping-IsBounded}

program : Unit {0}
unfolding text_eq is_empty find_field all_keys mem rstrip_slash no_duplicates all_present has_nul
    optional text_items ucxx_fields to_dict require require_keys has_key object_of natural_of
    schema_of any_space is_given port_of verified_of check_capability string_of texts_of items_of
    capabilities_of check_url is_null maybe check_schema validate_text text_of validate_http_url
    url_of word_of ucxx_entries ucxx_of parse_mapping unique serialize parse_endpoint_metadata
program = tt

abbrev split : SplitUrl
split = record {
  scheme = codes "http";
  netloc = codes "m1";
  query = [];
  fragment = [];
  username = none;
  password = none;
}

abbrev simple : Texts
simple = record { encode = some; urlsplit = λ url. some split; is_space = λ c. c == 32 }

abbrev document : Fields
document = field (codes "schema") (integer (pos 2)) (
    field (codes "http") (object (field (codes "base_url") (text (codes "http://m1/")) done)) (
      field (codes "ucxx")
        (object (
          field (codes "host") (text (codes "10.0.0.1"))
            (field (codes "port") (integer (pos 13337)) (field (codes "interface") null done))))
        (field (codes "capabilities") (array (item (text (codes "shards")) end)) done)))

abbrev middle : EndpointMetadata
middle = record {
  http_base_url = codes "http://m1";
  ucxx =
      some
        (record { host = codes "10.0.0.1"; port = 13337; interface = none; verified_rdma = false });
  schema = 2;
  middle_id = none;
  capabilities = codes "shards" ∷ [];
}

run_document : parse_mapping simple document ≡ ok middle
unfolding program
run_document = refl

run_refused :
    (parse_mapping simple (field (codes "port") null document) ≡ raise metadata_error)
    × (parse_mapping simple (to_dict (record middle { schema = 3 })) ≡ raise metadata_error)
    × (parse_endpoint_metadata simple
          (λ raw. some (object (field (codes "schema") null document)))
          []
          9
        ≡ raise metadata_error)
unfolding program
run_refused = (refl, refl, refl)

parse_mapping-to_dict_example : parse_mapping simple (to_dict middle) ≡ ok middle
unfolding program
parse_mapping-to_dict_example = parse_mapping-to_dict simple document middle run_document refl

parse_mapping-IsBounded_example : IsBounded simple middle
parse_mapping-IsBounded_example = parse_mapping-IsBounded simple document middle run_document
