-- ===== src/Endpoints/Stable.antt =====
-- litecast/endpoints.py: the values that a reader accepted, as they are written and read again.
use litecast.Common.{
  ℕ, Bool, true, false, not, ◌&&◌, ◌||◌, ◌≤◌, ◌==◌, leb, List, [], ◌∷◌, Option, none, some, Text,
  pos, codes, text_eq, Outcome, ok, ensures-bind, ensures-then, ensures_ok, Bool-cases, inl, inr,
  ◌⊎◌, ◌≡◌, refl, arith,
}
use litecast.Protocol.Json.{
  Json, text, array, integer, boolean, Items, end, item, Fields, find_field, all_keys,
}
use litecast.Streaming.Members.{mem, no_duplicates}
use litecast.Transport.Wire.{all_present}
use litecast.Endpoints.Types.{
  EndpointError, UcxxEndpoint, text_items, as_text, as_ucxx, ucxx_fields,
}
use litecast.Endpoints.Parse.{
  Texts, max_host_size, max_interface_size, require, require_keys, object_of, natural_of, schema_of,
  any_space, port_of, verified_of, check_capability, string_of, texts_of, items_of, capabilities_of,
  validate_text, text_of, word_of, is_null, maybe, ucxx_entries, ucxx_of,
}
use litecast.Endpoints.Dictionary.{find_field-optional, all_keys-optional, or_else-none}

pub require-ok : (b : Bool) → require b ≡ ok tt → b ≡ true
unfolding require
require-ok true h = refl
require-ok false h = cc

one_or_two : (n : ℕ) → ((n == 1) || (n == 2)) ≡ true → (n ≡ 1) ⊎ (n ≡ 2)
one_or_two n h = elim (Bool-cases (n == 1)) [
  | inl one ↦ inl (ground arith)
  | inr other ↦ inr (ground arith)
]

pub schema_of-ok : (value : Option Json) (n : ℕ) → schema_of value ≡ ok n → (n ≡ 1) ⊎ (n ≡ 2)
unfolding schema_of
schema_of-ok value =
    let P : ℕ → Type 0 = λ n. (n ≡ 1) ⊎ (n ≡ 2) in
    ensures-bind P (natural_of value) _ λ n _.
      ensures-then P (require ((n == 1) || (n == 2))) _
        λ known b. ensures_ok P n b (one_or_two n (require-ok ((n == 1) || (n == 2)) known))

pub port_of-ok : (value : Option Json) (n : ℕ) → port_of value ≡ ok n → (1 ≤ n) × (n ≤ 65535)
unfolding port_of
port_of-ok value =
    let P : ℕ → Type 0 = λ n. (1 ≤ n) × (n ≤ 65535) in
    ensures-bind P (natural_of value) _ λ n _.
      ensures-then P (require (leb 1 n && leb n 65535)) _
        λ within b. ensures_ok P n b (ground (arith, require-ok (leb 1 n && leb n 65535) within))

-- The texts of an array that is accepted.
pub texts_of-stable :
    (items : Items) (ts : List Text) → texts_of items ≡ ok ts → texts_of (text_items ts) ≡ ok ts
unfolding texts_of text_items string_of
texts_of-stable end =
    λ ts. ensures_ok (λ (ts : List Text). texts_of (text_items ts) ≡ ok ts) [] ts refl
texts_of-stable (item value items) =
    let P : List Text → Type 0 = λ ts. texts_of (text_items ts) ≡ ok ts in
    ensures-bind P (string_of (some value)) _ λ t _.
      ensures-then P (require (check_capability t)) _ λ fits.
        ensures-bind P (texts_of items) _ λ rest later b.
          ensures_ok P (t ∷ rest) b (rw (fits, texts_of-stable items rest later) refl)

pub capabilities_of-stable :
    (value : Option Json) (ts : List Text)
    → capabilities_of value ≡ ok ts
    → capabilities_of (some (array (text_items ts))) ≡ ok ts
unfolding capabilities_of items_of texts_of text_items
capabilities_of-stable none = λ ts.
    ensures_ok (λ (ts : List Text). capabilities_of (some (array (text_items ts))) ≡ ok ts) [] ts
      refl
capabilities_of-stable (some value) =
    let P : List Text → Type 0 = λ ts. capabilities_of (some (array (text_items ts))) ≡ ok ts in
    ensures-bind P (items_of value) _ λ items _. ensures-bind P (texts_of items) _ λ ts read.
      ensures-then P (require (no_duplicates ts)) _
        λ distinct b. ensures_ok P ts b (rw (texts_of-stable items ts read, distinct) refl)

module _ (texts : Texts) where
  pub text_of-stable :
      (maximum : ℕ) (value : Option Json) (t : Text)
      → text_of texts maximum value ≡ ok t
      → text_of texts maximum (some (text t)) ≡ ok t
  unfolding text_of string_of
  text_of-stable maximum value =
      let P : Text → Type 0 = λ t. text_of texts maximum (some (text t)) ≡ ok t in
      ensures-bind P (string_of value) _ λ t _.
        ensures-then P (validate_text texts maximum t) _ λ valid b. ensures_ok P t b (rw valid refl)

  pub word_of-stable :
      (maximum : ℕ) (value : Option Json) (t : Text)
      → word_of texts maximum value ≡ ok t
      → word_of texts maximum (some (text t)) ≡ ok t
  unfolding word_of
  word_of-stable maximum value =
      let P : Text → Type 0 = λ t. word_of texts maximum (some (text t)) ≡ ok t in
      ensures-bind P (text_of texts maximum value) _ λ t read.
        ensures-then P (require (not (any_space texts.is_space t))) _
          λ compact b. ensures_ok P t b (rw (text_of-stable maximum value t read, compact) refl)

  pub maybe-stable :
      (read : Option Json → Outcome EndpointError Text)
      → ((value : Option Json) (t : Text) → read value ≡ ok t → read (some (text t)) ≡ ok t)
      → (value : Option Json) (o : Option Text) → maybe read value ≡ ok o
      → maybe read (as_text o) ≡ ok o
  unfolding maybe is_null
  maybe-stable read stable none =
      λ o. ensures_ok (λ (o : Option Text). maybe read (as_text o) ≡ ok o) none o refl
  maybe-stable read stable (some value) = elim (Bool-cases (is_null value)) [
    | inl null ↦
        rw null
          (λ o h. ensures_ok (λ (o : Option Text). maybe read (as_text o) ≡ ok o) none o refl h)
    | inr given ↦ rw given (
        ensures-bind (λ (o : Option Text). maybe read (as_text o) ≡ ok o) (read (some value)) _
          λ t got b.
            ensures_ok (λ (o : Option Text). maybe read (as_text o) ≡ ok o) (some t) b
              (rw (stable (some value) t got) refl))
  ]

  -- The dictionary of an endpoint has the keys that are asked for, and what was put under them.
  ucxx_fields-keys :
      (u : UcxxEndpoint)
      → require_keys
          (codes "host" ∷ codes "port" ∷ [])
          (codes "interface" ∷ codes "verified_rdma" ∷ [])
          (ucxx_fields u)
        ≡ ok tt
  unfolding require_keys require all_present ucxx_fields find_field all_keys mem text_eq
  ucxx_fields-keys u = simp (find_field-optional, all_keys-optional)

  find_interface :
      (u : UcxxEndpoint) → find_field (codes "interface") (ucxx_fields u) ≡ as_text u.interface
  unfolding ucxx_fields find_field text_eq
  find_interface u = simp (find_field-optional, or_else-none)

  find_port :
      (u : UcxxEndpoint) → find_field (codes "port") (ucxx_fields u) ≡ some (integer (pos u.port))
  unfolding ucxx_fields find_field text_eq
  find_port u = simp (find_field-optional)

  find_verified :
      (u : UcxxEndpoint)
      → find_field (codes "verified_rdma") (ucxx_fields u) ≡ some (boolean u.verified_rdma)
  unfolding ucxx_fields find_field text_eq
  find_verified u = simp (find_field-optional)

  find_host : (u : UcxxEndpoint) → find_field (codes "host") (ucxx_fields u) ≡ some (text u.host)
  unfolding ucxx_fields find_field text_eq
  find_host u = refl

  port_of-stable :
      (value : Option Json) (n : ℕ) → port_of value ≡ ok n → port_of (some (integer (pos n))) ≡ ok n
  unfolding port_of natural_of
  port_of-stable value =
      let P : ℕ → Type 0 = λ n. port_of (some (integer (pos n))) ≡ ok n in
      ensures-bind P (natural_of value) _ λ n _.
        ensures-then P (require (leb 1 n && leb n 65535)) _
          λ within b. ensures_ok P n b (rw within refl)

  ucxx_entries-stable :
      (fields : Fields) (u : UcxxEndpoint)
      → ucxx_entries texts fields ≡ ok u
      → ucxx_entries texts (ucxx_fields u) ≡ ok u
  unfolding ucxx_entries verified_of
  ucxx_entries-stable fields =
      let P : UcxxEndpoint → Type 0 = λ u. ucxx_entries texts (ucxx_fields u) ≡ ok u in
      let entry = λ (key : Text). find_field key fields in
      let word = word_of texts max_interface_size in
      ensures-then P
        (require_keys (codes "host" ∷ codes "port" ∷ [])
          (codes "interface" ∷ codes "verified_rdma" ∷ []) fields)
        _
        λ _. ensures-bind P (word_of texts max_host_size (entry (codes "host"))) _ λ host h.
          ensures-bind P (port_of (entry (codes "port"))) _ λ port p.
            ensures-bind P (maybe word (entry (codes "interface"))) _ λ interface i.
              ensures-bind P (verified_of (entry (codes "verified_rdma"))) _ λ verified _ b.
                let u : UcxxEndpoint = record {
                  host = host;
                  port = port;
                  interface = interface;
                  verified_rdma = verified;
                } in
                ensures_ok P u b (
                  rw
                    (
                      ucxx_fields-keys u,
                      find_host u,
                      word_of-stable max_host_size (entry (codes "host")) host h,
                      find_port u,
                      port_of-stable (entry (codes "port")) port p,
                      find_interface u,
                      maybe-stable word (word_of-stable max_interface_size)
                          (entry (codes "interface")) interface i,
                      find_verified u,
                    )
                    refl)

  pub ucxx_of-stable :
      (value : Option Json) (o : Option UcxxEndpoint)
      → ucxx_of texts value ≡ ok o
      → ucxx_of texts (as_ucxx o) ≡ ok o
  unfolding ucxx_of is_null object_of
  ucxx_of-stable none =
      λ o. ensures_ok (λ (o : Option UcxxEndpoint). ucxx_of texts (as_ucxx o) ≡ ok o) none o refl
  ucxx_of-stable (some value) =
      let P : Option UcxxEndpoint → Type 0 = λ o. ucxx_of texts (as_ucxx o) ≡ ok o in
      elim (Bool-cases (is_null value)) [
        | inl null ↦ rw null (λ o. ensures_ok P none o refl)
        | inr given ↦ rw given (
            ensures-bind P (object_of (some value)) _ λ fields _.
              ensures-bind P (ucxx_entries texts fields) _
                λ u read b. ensures_ok P (some u) b (rw (ucxx_entries-stable fields u read) refl))
      ]
