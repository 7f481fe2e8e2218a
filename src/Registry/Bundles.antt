-- ===== src/Registry/Bundles.antt =====
-- litecast/registry/protocol.py: the bundles of adapters, and `Publication`. `json.loads` and the
-- SHA-256 digest are parameters; a file is the bytes that are read from it.
use litecast.Common.{
  all_chars, is_lower_hex, ℕ, ◌+◌, ◌*◌, Bool, true, false, not, ◌&&◌, ◌||◌, ◌++◌, Option, none,
  some, Text, Bytes, ℤ, pos, negsuc, length, ◌==◌, leb, ltb, text_eq, is_empty, codes, take, drop,
  slice, Outcome, ok, raise, ◌>>=◌, ◌>>◌,
}
use litecast.Protocol.Json.{Json, null, boolean, integer, real, text, array, object, find_field}
use litecast.Protocol.Words.{pack, unpack}

pub data RegistryError : Type 0 where
  value_error : RegistryError

abbrev pub Check : Type 0
Check = Outcome RegistryError (Unit {0})

unfoldable pub require : Bool → Check
require true = ok tt
require false = raise value_error

abbrev pub magic : Bytes
magic = codes "SC-LORA1"

abbrev pub max_config_bytes : ℕ
max_config_bytes = 1024 * 1024

is_alphanumeric : ℕ → Bool
is_alphanumeric c =
    (leb b'0' c && leb c b'9') || ((leb b'a' c && leb c b'z') || (leb b'A' c && leb c b'Z'))

-- `[a-zA-Z0-9_-]{1,80}`
unfoldable pub validate_run_id : Text → Outcome RegistryError Text
unfolding is_alphanumeric all_chars require
validate_run_id run_id = do
  require (all_chars (λ c. is_alphanumeric c || ((c == b'_') || (c == b'-'))) run_id)
  require (leb 1 (length run_id) && leb (length run_id) 80)
  ok run_id

unfoldable pub is_lora : Json → Bool
unfolding find_field text_eq
is_lora (object fields) = elim (find_field (codes "peft_type") fields) [
  | some (text s) ↦ text_eq s (codes "LORA")
  | _ ↦ false
]
is_lora null = false
is_lora (boolean b) = false
is_lora (integer i) = false
is_lora (real s) = false
is_lora (text s) = false
is_lora (array items) = false

module _ (loads : Bytes → Option Json) where
  unfoldable pub check_config : Bytes → Check
  check_config config = elim (loads config) [
    | none ↦ raise value_error
    | some value ↦ require (is_lora value)
  ]

  unfoldable pub split_adapter : Bytes → Outcome RegistryError (Bytes × Bytes)
  split_adapter bundle = do
    require (leb 16 (length bundle) && text_eq (take 8 bundle) magic)
    let size = unpack (slice 8 16 bundle)
    require ((ltb 0 size && leb size max_config_bytes) && ltb (16 + size) (length bundle))
    check_config (slice 16 (16 + size) bundle)
    ok (slice 16 (16 + size) bundle, drop (16 + size) bundle)

  unfoldable pub pack_adapter : Bytes → Bytes → ℕ → Outcome RegistryError Bytes
  pack_adapter config weights max_bytes = do
    require (leb (length config) max_config_bytes)
    require (leb (length magic + 8 + length config + length weights) max_bytes)
    let bundle = magic ++ (pack 8 (length config) ++ (config ++ weights))
    _ ← split_adapter bundle
    ok bundle

pub record Publication : Type 0 where
  pub run_id : Text
  pub base_model : Text
  pub step : ℤ
  pub digest : Text
  pub size : ℤ

is_natural : ℤ → Bool
is_natural (pos n) = true
is_natural (negsuc n) = false

exceeds : ℤ → ℕ → Bool
exceeds (pos n) bound = ltb bound n
exceeds (negsuc n) bound = false

-- `Publication(...)` with its `__post_init__`.
unfoldable pub new_publication : Publication → Outcome RegistryError Publication
unfolding is_lower_hex is_natural exceeds all_chars is_empty validate_run_id require
new_publication p = do
  _ ← validate_run_id p.run_id
  require (is_natural p.step)
  require (exceeds p.size 16)
  require (all_chars is_lower_hex p.digest && (length p.digest == 64))
  require (not (is_empty p.base_model))
  ok p

is_size : ℤ → ℕ → Bool
is_size (pos n) m = n == m
is_size (negsuc n) m = false

module _ (sha256 : Bytes → Text) (loads : Bytes → Option Json) where
  unfoldable pub verify : Publication → Bytes → Check
  unfolding is_size
  verify p bundle = do
    require (is_size p.size (length bundle) && text_eq (sha256 bundle) p.digest)
    _ ← split_adapter loads bundle
    ok tt
