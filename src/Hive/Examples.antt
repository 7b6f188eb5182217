-- ===== src/Hive/Examples.antt =====
-- A stand-in for bincode in tests, which writes a snapshot of memory only.
use trytet.Prelude.{ℕ, ◌≡◌, sym, ap, Option, none, some, List, [], ◌∷◌}
use trytet.Hive.{SnapshotPayload, Bincode}

abbrev pub write : List ℕ → List ℕ → List ℕ → List ℕ → List ℕ → Option (List ℕ)
write memory [] [] [] [] = some memory
write memory _ _ _ _ = none

abbrev pub snapshot : List ℕ → SnapshotPayload
snapshot memory = record {
  memory_bytes = memory;
  wasm_bytes = [];
  fs_tarball = [];
  vector_idx = [];
  inference_state = [];
}

pub read-write :
    (m w f v i bytes : List ℕ)
    → write m w f v i ≡ some bytes
    → snapshot bytes ≡ record {
      memory_bytes = m;
      wasm_bytes = w;
      fs_tarball = f;
      vector_idx = v;
      inference_state = i;
    }
read-write m [] [] [] [] bytes h = ap (λ o. snapshot (elim o [ none ↦ [] | some x ↦ x ])) (sym h)
read-write m (x ∷ w) f v i bytes h = cc
read-write m [] (x ∷ f) v i bytes h = cc
read-write m [] [] (x ∷ v) i bytes h = cc
read-write m [] [] [] (x ∷ i) bytes h = cc

abbrev pub bincode : Bincode
bincode = record {
  serialize = λ p. write p.memory_bytes p.wasm_bytes p.fs_tarball p.vector_idx p.inference_state;
  deserialize = λ bytes. some (snapshot bytes);
  deserialize-serialize = λ p bytes h.
      ap some (
        read-write p.memory_bytes p.wasm_bytes p.fs_tarball p.vector_idx p.inference_state bytes h);
}
