-- ===== src/Endpoints/Bounds.antt =====
-- litecast/endpoints.py: what holds of metadata that a reader accepted.
use litecast.Common.{
  ◌<◌, ℕ, true, false, not, ◌≤◌, List, [], ◌∷◌, Option, none, some, Text, codes, length, is_empty,
  ok, ensures-bind, ensures-then, ensures_ok, Bool-cases, inl, inr, ◌⊎◌, ◌≡◌, refl, arith,
}
use litecast.Protocol.Json.{Json, Items, end, item, Fields, find_field}
use litecast.Streaming.Members.{no_duplicates}
use litecast.Endpoints.Types.{EndpointMetadata, UcxxEndpoint}
use litecast.Endpoints.Parse.{
  Texts, max_url_size, max_host_size, max_interface_size, require, require_keys, object_of,
  schema_of, any_space, port_of, verified_of, check_capability, string_of, texts_of, items_of,
  capabilities_of, validate_text, text_of, url_of, word_of, is_null, maybe, ucxx_entries, ucxx_of,
  check_schema, parse_mapping,
}
use litecast.Endpoints.Stable.{port_of-ok, require-ok, schema_of-ok}

unfoldable pub AllShort : List Text → Type 0
AllShort [] = Unit
AllShort (t ∷ ts) = (0 < length t) × (length t ≤ 64) × AllShort ts

check_capability-ok : (t : Text) → check_capability t ≡ true → (0 < length t) × (length t ≤ 64)
unfolding check_capability is_empty
check_capability-ok [] h = absurd (cc)
check_capability-ok (c ∷ t) h = (omega arith, ground arith)

texts_of-AllShort : (items : Items) (ts : List Text) → texts_of items ≡ ok ts → AllShort ts
unfolding texts_of AllShort check_capability is_empty
texts_of-AllShort end = λ ts. ensures_ok AllShort [] ts tt
texts_of-AllShort (item value items) = ensures-bind AllShort (string_of (some value)) _ λ t _.
    ensures-then AllShort (require (check_capability t)) _ λ fits.
      ensures-bind AllShort (texts_of items) _ λ rest later b.
        let bounds = check_capability-ok t (require-ok (check_capability t) fits) in
        ensures_ok AllShort (t ∷ rest) b (bounds.0, bounds.1, texts_of-AllShort items rest later)

unfoldable pub IsCapabilities : List Text → Type 0
IsCapabilities ts = AllShort ts × (no_duplicates ts ≡ true)

capabilities_of-IsCapabilities :
    (value : Option Json) (ts : List Text) → capabilities_of value ≡ ok ts → IsCapabilities ts
unfolding capabilities_of IsCapabilities AllShort no_duplicates
capabilities_of-IsCapabilities none = λ ts. ensures_ok IsCapabilities [] ts (tt, refl)
capabilities_of-IsCapabilities (some value) =
    ensures-bind IsCapabilities (items_of value) _ λ items _.
      ensures-bind IsCapabilities (texts_of items) _ λ ts read.
        ensures-then IsCapabilities (require (no_duplicates ts)) _ λ distinct b.
          ensures_ok IsCapabilities ts b
            (texts_of-AllShort items ts read, require-ok (no_duplicates ts) distinct)

module _ (texts : Texts) where
  -- A host is not empty and has no white space, a port is one of TCP.
  unfoldable pub IsAddress : UcxxEndpoint → Type 0
  IsAddress u =
      (0 < length u.host)
      × (any_space texts.is_space u.host ≡ false)
      × (1 ≤ u.port)
      × (u.port ≤ 65535)

  validate_text-length :
      (maximum : ℕ) (t : Text) → validate_text texts maximum t ≡ ok tt → 0 < length t
  unfolding validate_text is_empty
  validate_text-length maximum [] h = absurd (cc)
  validate_text-length maximum (c ∷ t) h = omega arith

  text_of-length :
      (maximum : ℕ) (value : Option Json) (t : Text)
      → text_of texts maximum value ≡ ok t
      → 0 < length t
  unfolding text_of
  text_of-length maximum value =
      let P : Text → Type 0 = λ t. 0 < length t in
      ensures-bind P (string_of value) _ λ t _.
        ensures-then P (validate_text texts maximum t) _
          λ valid b. ensures_ok P t b (validate_text-length maximum t valid)

  word_of-ok :
      (maximum : ℕ) (value : Option Json) (t : Text)
      → word_of texts maximum value ≡ ok t
      → (0 < length t) × (any_space texts.is_space t ≡ false)
  unfolding word_of text_of
  word_of-ok maximum value =
      let P : Text → Type 0 = λ t. (0 < length t) × (any_space texts.is_space t ≡ false) in
      ensures-bind P (text_of texts maximum value) _ λ t read.
        ensures-then P (require (not (any_space texts.is_space t))) _ λ compact b.
          ensures_ok P t b (
            text_of-length maximum value t read,
            ground (arith, require-ok (not (any_space texts.is_space t)) compact),
          )

  ucxx_entries-IsAddress :
      (fields : Fields) (u : UcxxEndpoint) → ucxx_entries texts fields ≡ ok u → IsAddress u
  unfolding ucxx_entries IsAddress
  ucxx_entries-IsAddress fields =
      let entry = λ (key : Text). find_field key fields in
      ensures-then IsAddress
        (require_keys (codes "host" ∷ codes "port" ∷ [])
          (codes "interface" ∷ codes "verified_rdma" ∷ []) fields)
        _
        λ _. ensures-bind IsAddress (word_of texts max_host_size (entry (codes "host"))) _ λ host h.
          ensures-bind IsAddress (port_of (entry (codes "port"))) _ λ port p.
            ensures-bind IsAddress
              (maybe (word_of texts max_interface_size) (entry (codes "interface"))) _
              λ interface _.
                ensures-bind IsAddress (verified_of (entry (codes "verified_rdma"))) _
                  λ verified _ b.
                    let word = word_of-ok max_host_size (entry (codes "host")) host h in
                    let number = port_of-ok (entry (codes "port")) port p in
                    ensures_ok IsAddress
                      (record {
                        host = host;
                        port = port;
                        interface = interface;
                        verified_rdma = verified;
                      })
                      b (word.0, word.1, number.0, number.1)

  unfoldable pub HasAddress : Option UcxxEndpoint → Type 0
  HasAddress none = Unit
  HasAddress (some u) = IsAddress u

  ucxx_of-HasAddress :
      (value : Option Json) (o : Option UcxxEndpoint) → ucxx_of texts value ≡ ok o → HasAddress o
  unfolding ucxx_of HasAddress
  ucxx_of-HasAddress none = λ o. ensures_ok HasAddress none o tt
  ucxx_of-HasAddress (some value) = elim (Bool-cases (is_null value)) [
    | inl null ↦ rw null (λ o. ensures_ok HasAddress none o tt)
    | inr given ↦ rw given (
        ensures-bind HasAddress (object_of (some value)) _ λ fields _.
          ensures-bind HasAddress (ucxx_entries texts fields) _
            λ u read b. ensures_ok HasAddress (some u) b (ucxx_entries-IsAddress fields u read))
  ]

  -- Metadata within the limits of its format.
  pub record IsBounded (e : EndpointMetadata) : Type 0 where
    pub known : (e.schema ≡ 1) ⊎ (e.schema ≡ 2)
    pub address : HasAddress e.ucxx
    pub capabilities : IsCapabilities e.capabilities

  -- Metadata that is read from any document has schema 1 or 2, if it has an address a host that is
  -- not empty and has no white space and a port from 1 to 65535, and distinct capabilities of 1 to
  -- 64 characters.
  pub parse_mapping-IsBounded :
      (value : Fields) (e : EndpointMetadata) → parse_mapping texts value ≡ ok e → IsBounded e
  unfolding parse_mapping
  parse_mapping-IsBounded value =
      let entry = λ (key : Text). find_field key value in
      ensures-then IsBounded
        (require_keys (codes "schema" ∷ codes "http" ∷ [])
          (codes "ucxx" ∷ codes "middle_id" ∷ codes "capabilities" ∷ []) value)
        _
        λ _. ensures-bind IsBounded (schema_of (entry (codes "schema"))) _ λ schema s.
          ensures-then IsBounded (require (check_schema schema value)) _ λ _.
            ensures-bind IsBounded (object_of (entry (codes "http"))) _ λ http _.
              ensures-then IsBounded (require_keys (codes "base_url" ∷ []) [] http) _ λ _.
                ensures-bind IsBounded (url_of texts (find_field (codes "base_url") http)) _
                  λ url _. ensures-bind IsBounded (ucxx_of texts (entry (codes "ucxx"))) _ λ ucxx u.
                    ensures-bind IsBounded
                      (maybe (text_of texts max_url_size) (entry (codes "middle_id"))) _
                      λ middle _.
                        ensures-bind IsBounded (capabilities_of (entry (codes "capabilities"))) _
                          λ capabilities c b.
                            ensures_ok IsBounded
                              (record {
                                http_base_url = url;
                                ucxx = ucxx;
                                schema = schema;
                                middle_id = middle;
                                capabilities = capabilities;
                              })
                              b
                              (record {
                                known = schema_of-ok (entry (codes "schema")) schema s;
                                address = ucxx_of-HasAddress (entry (codes "ucxx")) ucxx u;
                                capabilities =
                                    capabilities_of-IsCapabilities (entry (codes "capabilities"))
                                      capabilities c;
                              })
