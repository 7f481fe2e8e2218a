-- ===== src/Endpoints/RoundTrip.antt =====
-- litecast/endpoints.py: the dictionary of metadata that a reader accepted, read again.
use litecast.Common.{
  ℕ, true, false, List, [], ◌∷◌, Option, none, some, Text, pos, codes, text_eq, Outcome, ok,
  ensures-bind, ensures-then, ensures_ok, Option-cases, inl, inr, ◌⊎◌, ◌≡◌, refl, sym, ap, arith,
  ◌∙◌,
}
use litecast.Protocol.Json.{Json, array, integer, Fields, find_field, all_keys}
use litecast.Streaming.Members.{mem}
use litecast.Transport.Wire.{all_present}
use litecast.Endpoints.Types.{
  EndpointError, EndpointMetadata, streaming, text_items, as_text, as_ucxx, to_dict,
}
use litecast.Endpoints.Parse.{
  Texts, max_url_size, require, require_keys, has_key, object_of, natural_of, schema_of, string_of,
  capabilities_of, text_of, validate_http_url, url_of, maybe, ucxx_of, check_schema, parse_mapping,
}
use litecast.Endpoints.Stable.{
  require-ok, schema_of-ok, capabilities_of-stable, text_of-stable, maybe-stable, ucxx_of-stable,
}
use litecast.Endpoints.Dictionary.{find_field-optional, all_keys-optional, to_dict-Entries}

to_dict-keys :
    (e : EndpointMetadata)
    → require_keys
        (codes "schema" ∷ codes "http" ∷ [])
        (codes "ucxx" ∷ codes "middle_id" ∷ codes "capabilities" ∷ [])
        (to_dict e)
      ≡ ok tt
unfolding require_keys require all_present to_dict find_field all_keys mem text_eq
to_dict-keys e = simp (find_field-optional, all_keys-optional)

-- Under schema 1 the streaming fields are empty.
pub record IsLegacy (e : EndpointMetadata) : Type 0 where
  pub known : (e.schema ≡ 1) ⊎ (e.schema ≡ 2)
  pub no_middle : e.schema ≡ 1 → e.middle_id ≡ none
  pub no_capabilities : e.schema ≡ 1 → e.capabilities ≡ []

streaming_two : (n : ℕ) (value : Option Json) → n ≡ 2 → streaming n value ≡ value
streaming_two n value h = ground arith

streaming_one : (n : ℕ) (value : Option Json) → n ≡ 1 → streaming n value ≡ none
streaming_one n value h = ground arith

schema_of-stable : (n : ℕ) → (n ≡ 1) ⊎ (n ≡ 2) → schema_of (some (integer (pos n))) ≡ ok n
unfolding schema_of natural_of require
schema_of-stable n (inl one) = rw one refl
schema_of-stable n (inr two) = rw two refl

check_schema_absent :
    (n : ℕ) (fields : Fields)
    → has_key (codes "middle_id") fields ≡ false
    → has_key (codes "capabilities") fields ≡ false
    → check_schema n fields ≡ true
unfolding check_schema
check_schema_absent n fields m c = rw (check_schema, m, c) (ground arith)

check_schema-to_dict :
    (e : EndpointMetadata)
    → (e.schema ≡ 1) ⊎ (e.schema ≡ 2)
    → check_schema e.schema (to_dict e) ≡ true
unfolding check_schema has_key
check_schema-to_dict e (inl one) =
    let entries = to_dict-Entries e in
    let middle = entries.middle_id ∙ streaming_one e.schema (as_text e.middle_id) one in
    let capabilities =
      entries.capabilities
      ∙ streaming_one e.schema (some (array (text_items e.capabilities))) one in
    check_schema_absent e.schema (to_dict e) (rw (has_key, middle) refl)
      (rw (has_key, capabilities) refl)
check_schema-to_dict e (inr two) = ground arith

has_key-none :
    (key : Text) (fields : Fields) → has_key key fields ≡ false → find_field key fields ≡ none
unfolding has_key
has_key-none key fields h = elim (Option-cases (find_field key fields)) [
  | inl absent ↦ absent
  | inr (found, at_key) ↦ absurd (cc)
]

capabilities_read :
    (e : EndpointMetadata)
    → IsLegacy e
    → capabilities_of (some (array (text_items e.capabilities))) ≡ ok e.capabilities
    → capabilities_of (find_field (codes "capabilities") (to_dict e)) ≡ ok e.capabilities
unfolding capabilities_of
capabilities_read e legacy read = rw ((to_dict-Entries e).capabilities) (elim legacy.known [
  | inl one ↦
      rw
        (
          streaming_one e.schema (some (array (text_items e.capabilities))) one,
          legacy.no_capabilities one,
        )
        refl
  | inr two ↦ rw (streaming_two e.schema (some (array (text_items e.capabilities))) two) read
])

module _ (texts : Texts) where
  middle_read :
      (e : EndpointMetadata)
      → IsLegacy e
      → maybe (text_of texts max_url_size) (as_text e.middle_id) ≡ ok e.middle_id
      → maybe (text_of texts max_url_size) (find_field (codes "middle_id") (to_dict e))
        ≡ ok e.middle_id
  unfolding maybe
  middle_read e legacy read = rw ((to_dict-Entries e).middle_id) (elim legacy.known [
    | inl one ↦ rw (streaming_one e.schema (as_text e.middle_id) one, legacy.no_middle one) refl
    | inr two ↦ rw (streaming_two e.schema (as_text e.middle_id) two) read
  ])

  -- The streaming fields of what was read, from the test on the schema.
  check_schema-IsLegacy :
      (value : Fields) (e : EndpointMetadata)
      → (e.schema ≡ 1) ⊎ (e.schema ≡ 2)
      → check_schema e.schema value ≡ true
      → maybe (text_of texts max_url_size) (find_field (codes "middle_id") value) ≡ ok e.middle_id
      → capabilities_of (find_field (codes "capabilities") value) ≡ ok e.capabilities
      → IsLegacy e
  unfolding check_schema maybe capabilities_of
  check_schema-IsLegacy value e known valid middle capabilities = record {
    known = known;
    no_middle = λ one.
        let absent = has_key-none (codes "middle_id") value (ground arith) in
        let read : ◌≡◌ {A = Outcome EndpointError (Option Text)} (ok none) (ok e.middle_id) =
          sym (ap (λ (v : Option Json). maybe (text_of texts max_url_size) v) absent) ∙ middle in
        cc;
    no_capabilities = λ one.
        let absent = has_key-none (codes "capabilities") value (ground arith) in
        let read : ◌≡◌ {A = Outcome EndpointError (List Text)} (ok []) (ok e.capabilities) =
          sym (ap (λ (v : Option Json). capabilities_of v) absent) ∙ capabilities in
        cc;
  }

  -- Each part of some metadata is accepted as it is written.
  parts-parse :
      (e : EndpointMetadata)
      → IsLegacy e
      → validate_http_url texts e.http_base_url ≡ ok e.http_base_url
      → ucxx_of texts (as_ucxx e.ucxx) ≡ ok e.ucxx
      → maybe (text_of texts max_url_size) (as_text e.middle_id) ≡ ok e.middle_id
      → capabilities_of (some (array (text_items e.capabilities))) ≡ ok e.capabilities
      → parse_mapping texts (to_dict e) ≡ ok e
  unfolding parse_mapping object_of url_of string_of
  parts-parse e legacy url ucxx middle capabilities =
      let entries = to_dict-Entries e in
      rw
        (
          to_dict-keys e,
          entries.schema,
          schema_of-stable e.schema legacy.known,
          check_schema-to_dict e legacy.known,
          entries.http,
          object_of,
          url,
          entries.ucxx,
          ucxx,
          middle_read e legacy middle,
          capabilities_read e legacy capabilities,
        )
        refl

  -- Metadata that is read from any document is read from its own dictionary as it is, where its
  -- base URL is accepted as it is.
  pub parse_mapping-to_dict :
      (value : Fields) (e : EndpointMetadata)
      → parse_mapping texts value ≡ ok e
      → validate_http_url texts e.http_base_url ≡ ok e.http_base_url
      → parse_mapping texts (to_dict e) ≡ ok e
  unfolding parse_mapping
  parse_mapping-to_dict value =
      let P : EndpointMetadata → Type 0 = λ e.
        validate_http_url texts e.http_base_url ≡ ok e.http_base_url
        → parse_mapping texts (to_dict e) ≡ ok e in
      let entry = λ (key : Text). find_field key value in
      let middle_of = text_of texts max_url_size in
      ensures-then P
        (require_keys (codes "schema" ∷ codes "http" ∷ [])
          (codes "ucxx" ∷ codes "middle_id" ∷ codes "capabilities" ∷ []) value)
        _
        λ _. ensures-bind P (schema_of (entry (codes "schema"))) _ λ schema s.
          ensures-then P (require (check_schema schema value)) _ λ allowed.
            ensures-bind P (object_of (entry (codes "http"))) _ λ http _.
              ensures-then P (require_keys (codes "base_url" ∷ []) [] http) _ λ _.
                ensures-bind P (url_of texts (find_field (codes "base_url") http)) _ λ url _.
                  ensures-bind P (ucxx_of texts (entry (codes "ucxx"))) _ λ ucxx u.
                    ensures-bind P (maybe middle_of (entry (codes "middle_id"))) _ λ middle m.
                      ensures-bind P (capabilities_of (entry (codes "capabilities"))) _
                        λ capabilities c b.
                          let e : EndpointMetadata = record {
                            http_base_url = url;
                            ucxx = ucxx;
                            schema = schema;
                            middle_id = middle;
                            capabilities = capabilities;
                          } in
                          let legacy =
                            check_schema-IsLegacy value e
                              (schema_of-ok (entry (codes "schema")) schema s)
                              (require-ok (check_schema schema value) allowed) m c in
                          ensures_ok P e b (λ valid.
                            parts-parse e legacy valid
                              (ucxx_of-stable texts (entry (codes "ucxx")) ucxx u)
                              (maybe-stable texts middle_of (text_of-stable texts max_url_size)
                                (entry (codes "middle_id")) middle m)
                              (capabilities_of-stable (entry (codes "capabilities")) capabilities
                                c))
