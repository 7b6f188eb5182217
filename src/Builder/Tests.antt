-- ===== src/Builder/Tests.antt =====
-- Witnesses and tests of the builder, with libraries that write an artifact of the simplest manifest
-- as its Wasm, and one key.
use trytet.Prelude.{
  ℕ, zero, suc, ◌≡◌, refl, ap, arith, Bool, true, false, ◌&&◌, Option, none, some, List, [], ◌∷◌,
  ◌++◌, ◌==◌, bytes_eq, replicate, if◌then◌else◌,
}
use trytet.Engine.{AgentManifest}
use trytet.Builder.{TetArtifact, ArtifactReceipt, Libraries, Files, ok, assemble, verify_and_load}
use trytet.Builder.Signatures.{Holds, verify_and_load-assemble}

abbrev key_bytes : List ℕ
key_bytes = replicate 32 1

abbrev signature_bytes : List ℕ
signature_bytes = replicate 64 1

abbrev manifest_of : Option (List ℕ) → AgentManifest
manifest_of author = record {
  metadata = record { name = []; version = []; author_pubkey = author };
  constraints = record { max_memory_pages = 0; fuel_limit = 0; max_egress_bytes = 0 };
  permissions = record {
    can_egress = [];
    can_persist = false;
    can_teleport = false;
    is_genesis_factory = false;
    can_fork = false;
  };
}

abbrev artifact_of : List ℕ → TetArtifact
artifact_of wasm = record {
  manifest = manifest_of (some key_bytes);
  blueprint_wasm = wasm;
  vfs_zstd = [];
  signature = signature_bytes;
}

write :
    List ℕ
    → List ℕ
    → Option (List ℕ)
    → ℕ
    → ℕ
    → ℕ
    → List (List ℕ)
    → Bool
    → Bool
    → Bool
    → Bool
    → List ℕ
    → List ℕ
    → List ℕ
    → Option (List ℕ)
write [] [] (some a) zero zero zero [] false false false false w [] s =
    if a == key_bytes && s == signature_bytes then some w else none
write _ _ _ _ _ _ _ _ _ _ _ _ _ _ = none

read-write :
    (n v : List ℕ) (o : Option (List ℕ)) (p u e : ℕ) (c : List (List ℕ)) (b1 b2 b3 b4 : Bool)
    (w z s bytes : List ℕ)
    → write n v o p u e c b1 b2 b3 b4 w z s ≡ some bytes
    → artifact_of bytes ≡ record {
      manifest = record {
        metadata = record { name = n; version = v; author_pubkey = o };
        constraints = record { max_memory_pages = p; fuel_limit = u; max_egress_bytes = e };
        permissions = record {
          can_egress = c;
          can_persist = b1;
          can_teleport = b2;
          is_genesis_factory = b3;
          can_fork = b4;
        };
      };
      blueprint_wasm = w;
      vfs_zstd = z;
      signature = s;
    }
unfolding write
read-write [] [] (some a) zero zero zero [] false false false false w [] s bytes h =
    ground (arith, h, bytes_eq.beq_iff a key_bytes, bytes_eq.beq_iff s signature_bytes)
read-write (x ∷ n) v o p u e c b1 b2 b3 b4 w z s bytes h = cc
read-write [] (x ∷ v) o p u e c b1 b2 b3 b4 w z s bytes h = cc
read-write [] [] none p u e c b1 b2 b3 b4 w z s bytes h = cc
read-write [] [] (some a) (suc p) u e c b1 b2 b3 b4 w z s bytes h = cc
read-write [] [] (some a) zero (suc u) e c b1 b2 b3 b4 w z s bytes h = cc
read-write [] [] (some a) zero zero (suc e) c b1 b2 b3 b4 w z s bytes h = cc
read-write [] [] (some a) zero zero zero (x ∷ c) b1 b2 b3 b4 w z s bytes h = cc
read-write [] [] (some a) zero zero zero [] true b2 b3 b4 w z s bytes h = cc
read-write [] [] (some a) zero zero zero [] false true b3 b4 w z s bytes h = cc
read-write [] [] (some a) zero zero zero [] false false true b4 w z s bytes h = cc
read-write [] [] (some a) zero zero zero [] false false false true w z s bytes h = cc
read-write [] [] (some a) zero zero zero [] false false false false w (x ∷ z) s bytes h = cc

abbrev libraries : Libraries
unfolding write
libraries = record {
  SigningKey = ℕ;
  Key = ℕ;
  public_bytes = λ key. key_bytes;
  sign = λ key message. signature_bytes;
  key_of = λ bytes. some 7;
  verify = λ key message signature. true;
  encode = λ bytes. bytes;
  decode = λ digits. some digits;
  sha256 = λ bytes. bytes;
  encode_all = λ bytes. some bytes;
  toml = λ text. some (manifest_of (some (1 ∷ [])));
  serialize = λ a.
      write a.manifest.metadata.name a.manifest.metadata.version a.manifest.metadata.author_pubkey
        a.manifest.constraints.max_memory_pages a.manifest.constraints.fuel_limit
        a.manifest.constraints.max_egress_bytes a.manifest.permissions.can_egress
        a.manifest.permissions.can_persist a.manifest.permissions.can_teleport
        a.manifest.permissions.is_genesis_factory a.manifest.permissions.can_fork a.blueprint_wasm
        a.vfs_zstd a.signature;
  deserialize = λ bytes. some (artifact_of bytes);
  length-public_bytes = λ key. refl;
  length-sign = λ key message. refl;
  verify-sign = λ key message. (7, refl, refl);
  decode-encode = λ bytes. refl;
  deserialize-serialize = λ a bytes h. ap some (
      read-write a.manifest.metadata.name a.manifest.metadata.version
        a.manifest.metadata.author_pubkey a.manifest.constraints.max_memory_pages
        a.manifest.constraints.fuel_limit a.manifest.constraints.max_egress_bytes
        a.manifest.permissions.can_egress a.manifest.permissions.can_persist
        a.manifest.permissions.can_teleport a.manifest.permissions.is_genesis_factory
        a.manifest.permissions.can_fork a.blueprint_wasm a.vfs_zstd a.signature bytes h);
}

abbrev files : Files
files = record {
  manifest = some [];
  wasm = some (0 ∷ 97 ∷ 115 ∷ 109 ∷ []);
  vfs = some [];
  writes = true;
}

abbrev signing_key : libraries.SigningKey
unfolding libraries
signing_key = 3

abbrev receipt : ArtifactReceipt
receipt = record { hash = 0 ∷ 97 ∷ 115 ∷ 109 ∷ []; size_bytes = 4 }

verify_and_load-assemble_example :
    (a : TetArtifact) × (verify_and_load libraries (0 ∷ 97 ∷ 115 ∷ 109 ∷ []) ≡ ok a)
    × Holds libraries files signing_key a
    × (receipt.hash ≡ a.blueprint_wasm ++ a.vfs_zstd)
    × (receipt.size_bytes ≡ 4)
unfolding assemble write
verify_and_load-assemble_example =
    verify_and_load-assemble libraries files signing_key receipt (0 ∷ 97 ∷ 115 ∷ 109 ∷ []) refl
