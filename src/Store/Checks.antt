-- ===== src/Store/Checks.antt =====
-- litecast/store.py: the validation of arguments. Types are those that the signatures declare, so
-- the `isinstance` tests have no counterpart. `int(checksum, 16)` is modelled on ASCII text.
use litecast.Common.{
  ℕ, ◌+◌, ◌-◌, ◌/◌, Bool, true, false, ◌&&◌, ◌||◌, List, [], ◌∷◌, Option, none, some, Text, Bytes,
  ℤ, pos, negsuc, zero, suc, length, ◌==◌, leb, ltb, text_eq, is_empty, lower, Outcome, ok, raise,
  ◌>>=◌, ◌>>◌, if◌then◌else◌, not,
}
use litecast.Store.Types.{StoreError, value_error, version_too_large, VersionMetadata}

abbrev pub Check : Type 0
Check = Outcome StoreError (Unit {0})

unfoldable pub validate_name : Text → Check
unfolding is_empty
validate_name name = if is_empty name then raise value_error else ok tt

unfoldable pub validate_shard_size : ℤ → Outcome StoreError ℕ
validate_shard_size (negsuc _) = raise value_error
validate_shard_size (pos zero) = raise value_error
validate_shard_size (pos (suc n)) = ok (suc n)

any_other_length : ℕ → List Text → Bool
any_other_length n [] = false
any_other_length n (s ∷ ss) = not (length s == n) || any_other_length n ss

unfoldable pub validate_shard_checksums : List Text → ℕ → Outcome StoreError (List Text)
unfolding is_empty any_other_length
validate_shard_checksums checksums shard_count =
    if not (is_empty checksums) && not (length checksums == shard_count)
    then raise value_error
    else if any_other_length 64 checksums
    then raise value_error
    else ok checksums

is_space : ℕ → Bool
is_space c = (c == 32) || (leb 9 c && leb c 13)

is_hex : ℕ → Bool
is_hex c = (leb b'0' c && leb c b'9') || ((leb b'a' c && leb c b'f') || (leb b'A' c && leb c b'F'))

strip_left : Text → Text
unfolding is_space
strip_left [] = []
strip_left (c ∷ s) = if is_space c then strip_left s else c ∷ s

all_space : Text → Bool
unfolding is_space
all_space [] = true
all_space (c ∷ s) = is_space c && all_space s

-- Digits with single underscores between them, then white space; the flag tells that the last
-- character was a digit.
digits_from : Bool → Text → Bool
unfolding is_hex all_space
digits_from prev [] = prev
digits_from prev (c ∷ s) =
    let rest = digits_from (is_hex c) s in
    if is_hex c then rest else if c == b'_' then prev && rest else prev && all_space (c ∷ s)

after_sign : Text → Text
after_sign [] = []
after_sign (c ∷ s) = if (c == b'+') || (c == b'-') then s else c ∷ s

-- The prefix `0x`, and one underscore behind it.
after_prefix : Text → Text
after_prefix (z ∷ x ∷ u ∷ s) =
    if (z == b'0') && ((x == b'x') || (x == b'X'))
    then (if u == b'_' then s else u ∷ s)
    else z ∷ x ∷ u ∷ s
after_prefix s = s

-- `int(text, 16)` raises no `ValueError`.
unfoldable pub is_base16 : Text → Bool
unfolding digits_from after_prefix after_sign strip_left
is_base16 text = digits_from false (after_prefix (after_sign (strip_left text)))

unfoldable pub count_shards : ℕ → ℕ → ℕ
count_shards total_size shard_size =
    if total_size == 0 then 0 else (total_size + shard_size - 1) / shard_size

unfoldable pub complete_metadata : Text → ℕ → ℕ → Text → VersionMetadata
complete_metadata name data_size shard_size checksum = record {
  name = name;
  total_size = data_size;
  shard_size = shard_size;
  shard_count = count_shards data_size shard_size;
  checksum = checksum;
}

check_capacity : ℕ → ℕ → Check
check_capacity data_size capacity =
    if ltb capacity data_size then raise version_too_large else ok tt

-- `checksum.lower() != actual_checksum` where a checksum is given.
check_digest : Option Text → Text → Check
check_digest none actual = ok tt
check_digest (some checksum) actual =
    if text_eq (lower checksum) actual then ok tt else raise value_error

-- The part of `put` before the store changes, with `hexdigest` for `blake3`.
unfoldable pub check_put :
    (Bytes → Text)
    → ℕ
    → Text
    → Bytes
    → ℤ
    → Option Text
    → List Text
    → Outcome StoreError (VersionMetadata × List Text)
unfolding check_capacity check_digest validate_name validate_shard_size complete_metadata
check_put hexdigest capacity name content shard_size checksum shard_checksums = do
  validate_name name
  shard_size' ← validate_shard_size shard_size
  check_capacity (length content) capacity
  check_digest checksum (hexdigest content)
  let metadata = complete_metadata name (length content) shard_size' (hexdigest content)
  checksums ← validate_shard_checksums shard_checksums metadata.shard_count
  ok (metadata, checksums)

check_hex_digest : Text → Check
unfolding is_base16
check_hex_digest checksum =
    if is_base16 checksum && (length checksum == 64) then ok tt else raise value_error

-- The part of `put_verified` before the store changes.
unfoldable pub check_put_verified :
    ℕ → Text → Bytes → ℤ → Text → List Text → Outcome StoreError (VersionMetadata × List Text)
unfolding check_capacity check_hex_digest validate_name validate_shard_size complete_metadata lower
check_put_verified capacity name content shard_size checksum shard_checksums = do
  validate_name name
  shard_size' ← validate_shard_size shard_size
  check_hex_digest checksum
  check_capacity (length content) capacity
  let metadata = complete_metadata name (length content) shard_size' (lower checksum)
  checksums ← validate_shard_checksums shard_checksums metadata.shard_count
  ok (metadata, checksums)
