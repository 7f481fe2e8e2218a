-- ===== src/Endpoints/Parse.antt =====
-- litecast/endpoints.py: what a reader of discovery metadata accepts. `urlsplit`, the test for
-- white space and the JSON of the standard library are parameters.
use litecast.Common.{
  ℕ, Bool, true, false, not, ◌&&◌, ◌||◌, List, [], ◌∷◌, ◌++◌, Option, none, some, Text, Bytes, pos,
  ◌*◌, ◌==◌, leb, ltb, length, text_eq, is_empty, codes, Outcome, ok, raise, ◌>>=◌, ◌>>◌,
  if◌then◌else◌,
}
use litecast.Protocol.Json.{
  Json, null, boolean, integer, text, array, object, Items, end, item, Fields, field, done,
  find_field, all_keys,
}
use litecast.Streaming.Members.{mem, rstrip_slash, no_duplicates}
use litecast.Transport.Wire.{all_present}
use litecast.Transport.Sessions.{has_nul}
use litecast.Endpoints.Types.{
  EndpointError, metadata_error, unicode_error, value_error, UcxxEndpoint, EndpointMetadata,
}

-- What `urlsplit` finds in a URL.
pub record SplitUrl : Type 0 where
  pub scheme : Text
  pub netloc : Text
  pub query : Text
  pub fragment : Text
  pub username : Option Text
  pub password : Option Text

-- `str.encode`, `urlsplit`, which raises a `ValueError` on some texts, and `str.isspace` of a
-- character.
pub record Texts : Type 0 where
  pub encode : Text → Option Bytes
  pub urlsplit : Text → Option SplitUrl
  pub is_space : ℕ → Bool

abbrev pub max_url_size : ℕ
max_url_size = 4096

abbrev pub max_host_size : ℕ
max_host_size = 255

abbrev pub max_interface_size : ℕ
max_interface_size = 64

abbrev pub max_json_size : ℕ
max_json_size = 16 * 1024

unfoldable pub require : Bool → Outcome EndpointError (Unit {0})
require true = ok tt
require false = raise metadata_error

-- `_require_keys`
unfoldable pub require_keys : List Text → List Text → Fields → Outcome EndpointError (Unit {0})
unfolding require all_present all_keys mem
require_keys required others fields =
    require (all_present required fields && all_keys (λ key. mem key (required ++ others)) fields)

unfoldable pub has_key : Text → Fields → Bool
unfolding find_field
has_key key fields = elim (find_field key fields) [ none ↦ false | some _ ↦ true ]

unfoldable pub object_of : Option Json → Outcome EndpointError Fields
object_of (some (object fields)) = ok fields
object_of _ = raise metadata_error

-- An `int` that is no Boolean, where it is not negative.
unfoldable pub natural_of : Option Json → Outcome EndpointError ℕ
natural_of (some (integer (pos n))) = ok n
natural_of _ = raise metadata_error

unfoldable pub schema_of : Option Json → Outcome EndpointError ℕ
unfolding natural_of require
schema_of value = do n ← natural_of value; require ((n == 1) || (n == 2)); ok n

unfoldable pub any_space : (ℕ → Bool) → Text → Bool
any_space is_space [] = false
any_space is_space (c ∷ s) = is_space c || any_space is_space s

unfoldable pub is_given : Option Text → Bool
unfolding is_empty
is_given none = false
is_given (some t) = not (is_empty t)

unfoldable pub port_of : Option Json → Outcome EndpointError ℕ
unfolding natural_of require
port_of value = do n ← natural_of value; require (leb 1 n && leb n 65535); ok n

unfoldable pub verified_of : Option Json → Outcome EndpointError Bool
verified_of none = ok false
verified_of (some (boolean b)) = ok b
verified_of (some _) = raise metadata_error

-- Capabilities are texts of at most 64 characters, and distinct.
unfoldable pub check_capability : Text → Bool
unfolding is_empty
check_capability t = not (is_empty t) && leb (length t) 64

-- `isinstance(value, str)`
unfoldable pub string_of : Option Json → Outcome EndpointError Text
string_of (some (text t)) = ok t
string_of _ = raise metadata_error

unfoldable pub texts_of : Items → Outcome EndpointError (List Text)
unfolding string_of require check_capability
texts_of end = ok []
texts_of (item value items) = do
  t ← string_of (some value)
  require (check_capability t)
  ts ← texts_of items
  ok (t ∷ ts)

unfoldable pub items_of : Json → Outcome EndpointError Items
items_of (array items) = ok items
items_of _ = raise metadata_error

unfoldable pub capabilities_of : Option Json → Outcome EndpointError (List Text)
unfolding require no_duplicates items_of
capabilities_of none = ok []
capabilities_of (some value) = do
  items ← items_of value
  ts ← texts_of items
  require (no_duplicates ts)
  ok ts

-- The tests of `_validate_http_url` on the parts of a URL.
unfoldable pub check_url : SplitUrl → Bool
unfolding is_empty is_given text_eq
check_url url =
    (text_eq url.scheme (codes "http") || text_eq url.scheme (codes "https"))
    && (not (is_empty url.netloc)
        && (is_empty url.query
            && (is_empty url.fragment
                && (not (is_given url.username) && not (is_given url.password)))))

unfoldable pub is_null : Json → Bool
is_null null = true
is_null _ = false

-- A value that may be left out, or be null.
unfoldable pub maybe :
    (Option Json → Outcome EndpointError Text) → Option Json → Outcome EndpointError (Option Text)
unfolding is_null
maybe read none = ok none
maybe read (some value) = if is_null value then ok none else (do t ← read (some value); ok (some t))

-- Schema 1 has no streaming fields.
unfoldable pub check_schema : ℕ → Fields → Bool
unfolding has_key
check_schema schema value =
    not
      ((schema == 1) && (has_key (codes "middle_id") value || has_key (codes "capabilities") value))

module _ (texts : Texts) where
  -- `_validate_text` of a text.
  unfoldable pub validate_text : ℕ → Text → Outcome EndpointError (Unit {0})
  unfolding is_empty has_nul
  validate_text maximum t = if is_empty t then raise metadata_error else elim (texts.encode t) [
    | none ↦ raise unicode_error
    | some raw ↦ if ltb maximum (length raw) || has_nul t then raise metadata_error else ok tt
  ]

  unfoldable pub text_of : ℕ → Option Json → Outcome EndpointError Text
  unfolding validate_text string_of
  text_of maximum value = do t ← string_of value; validate_text maximum t; ok t

  -- `_validate_http_url` of a text.
  unfoldable pub validate_http_url : Text → Outcome EndpointError Text
  unfolding validate_text check_url require rstrip_slash
  validate_http_url url = do
    validate_text max_url_size url
    elim (texts.urlsplit url) [
      | none ↦ raise value_error
      | some parsed ↦ do require (check_url parsed); ok (rstrip_slash url)
    ]

  unfoldable pub url_of : Option Json → Outcome EndpointError Text
  unfolding validate_http_url string_of
  url_of value = do url ← string_of value; validate_http_url url

  -- A text without white space.
  unfoldable pub word_of : ℕ → Option Json → Outcome EndpointError Text
  unfolding text_of require any_space
  word_of maximum value = do
    word ← text_of maximum value
    require (not (any_space texts.is_space word))
    ok word

  unfoldable pub ucxx_entries : Fields → Outcome EndpointError UcxxEndpoint
  unfolding require_keys word_of port_of maybe verified_of
  ucxx_entries fields = do
    require_keys (codes "host" ∷ codes "port" ∷ []) (codes "interface" ∷ codes "verified_rdma" ∷ [])
        fields
    host ← word_of max_host_size (find_field (codes "host") fields)
    port ← port_of (find_field (codes "port") fields)
    interface ← maybe (word_of max_interface_size) (find_field (codes "interface") fields)
    verified ← verified_of (find_field (codes "verified_rdma") fields)
    ok (record { host = host; port = port; interface = interface; verified_rdma = verified })

  unfoldable pub ucxx_of : Option Json → Outcome EndpointError (Option UcxxEndpoint)
  unfolding ucxx_entries is_null object_of
  ucxx_of none = ok none
  ucxx_of (some value) =
      if is_null value
      then ok none
      else (do fields ← object_of (some value); ucxx ← ucxx_entries fields; ok (some ucxx))

  unfoldable pub parse_mapping : Fields → Outcome EndpointError EndpointMetadata
  unfolding require_keys schema_of check_schema require object_of url_of ucxx_of maybe text_of
      capabilities_of
  parse_mapping value = do
    require_keys (codes "schema" ∷ codes "http" ∷ [])
        (codes "ucxx" ∷ codes "middle_id" ∷ codes "capabilities" ∷ []) value
    schema ← schema_of (find_field (codes "schema") value)
    require (check_schema schema value)
    http ← object_of (find_field (codes "http") value)
    require_keys (codes "base_url" ∷ []) [] http
    url ← url_of (find_field (codes "base_url") http)
    ucxx ← ucxx_of (find_field (codes "ucxx") value)
    middle ← maybe (text_of max_url_size) (find_field (codes "middle_id") value)
    capabilities ← capabilities_of (find_field (codes "capabilities") value)
    ok (record {
      http_base_url = url;
      ucxx = ucxx;
      schema = schema;
      middle_id = middle;
      capabilities = capabilities;
    })

-- `_object_without_duplicates`, over a document whose objects are lists of pairs.
unfoldable mutual
  unfolding has_key

  pub unique : Json → Bool
  unique (array items) = unique_items items
  unique (object fields) = unique_fields fields
  unique _ = true

  unique_items : Items → Bool
  unique_items end = true
  unique_items (item value items) = unique value && unique_items items

  unique_fields : Fields → Bool
  unique_fields done = true
  unique_fields (field key value fields) =
      (unique value && not (has_key key fields)) && unique_fields fields
