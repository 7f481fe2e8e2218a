-- ===== src/Registry/Tests.antt =====
-- A bundle of two small files, and the theorem about it. `loads` takes every file for the
-- configuration of a LoRA adapter.
use litecast.Common.{
  ◌≤◌, ◌≡◌, refl, [], ◌∷◌, ◌++◌, Option, some, Bytes, pos, length, codes, text_eq, is_empty, ok,
  raise, arith,
}
use litecast.Protocol.Json.{Json, text, object, field, done, find_field}
use litecast.Protocol.Words.{pack, unpack}
use litecast.Registry.Bundles.{
  value_error, require, validate_run_id, is_lora, check_config, split_adapter, pack_adapter,
  Publication, new_publication, verify,
}
use litecast.Registry.RoundTrip.{split_adapter-pack_adapter}

program : Unit {0}
unfolding text_eq is_empty find_field pack unpack require validate_run_id is_lora check_config
    split_adapter pack_adapter new_publication verify
program = tt

abbrev loads_lora : Bytes → Option Json
loads_lora raw = some (object (field (codes "peft_type") (text (codes "LORA")) done))

abbrev loads_other : Bytes → Option Json
loads_other raw = some (object (field (codes "peft_type") (text (codes "IA3")) done))

abbrev published : Publication
published = record {
  run_id = codes "run-1";
  base_model = codes "m";
  step = pos 3;
  digest = codes "d";
  size = pos 17;
}

run_bundles :
    (pack_adapter loads_lora (1 ∷ 2 ∷ []) (9 ∷ []) 19
      ≡ ok (codes "SC-LORA1" ++ (0 ∷ 0 ∷ 0 ∷ 0 ∷ 0 ∷ 0 ∷ 0 ∷ 2 ∷ 1 ∷ 2 ∷ 9 ∷ [])))
    × (pack_adapter loads_lora (1 ∷ 2 ∷ []) (9 ∷ []) 18 ≡ raise value_error)
    × (pack_adapter loads_lora (1 ∷ 2 ∷ []) [] 19 ≡ raise value_error)
    × (pack_adapter loads_other (1 ∷ 2 ∷ []) (9 ∷ []) 19 ≡ raise value_error)
    × (validate_run_id (codes "run 1") ≡ raise value_error)
    × (new_publication published ≡ raise value_error)
unfolding program
run_bundles = (refl, refl, refl, refl, refl, refl)

split_adapter-pack_adapter_example :
    (raw : Bytes) × (pack_adapter loads_lora (1 ∷ 2 ∷ []) (9 ∷ []) 30 ≡ ok raw)
    × (length raw ≤ 30)
    × (split_adapter loads_lora raw ≡ ok (1 ∷ 2 ∷ [], 9 ∷ []))
    × (verify
          (λ raw. raw)
          loads_lora
          (record published { size = pos (length raw); digest = raw })
          raw
        ≡ ok tt)
unfolding program
split_adapter-pack_adapter_example =
    split_adapter-pack_adapter (1 ∷ 2 ∷ []) (9 ∷ []) loads_lora (λ raw. raw) 30 published
      (omega arith) (omega arith) (omega arith) (omega arith) refl
