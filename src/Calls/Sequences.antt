-- ===== src/Calls/Sequences.antt =====
-- src/sandbox/host_api/mod.rs: the calls that a guest can make, each as a value, and any number of them.
use trytet.Prelude.{ℕ, List, [], ◌∷◌, Option}
use trytet.Cartridge
use trytet.Cartridge.{Wasm}
use trytet.Engine.{MeshCallResponse}
use trytet.Market.{Prices, HiveMarket}
use trytet.Calls.{Call, return, ◌>>=◌, ◌>>◌, deduct_fuel}
use trytet.Calls.Payments.{Signing, pay, bill, withdraw, fork, reclaim}
use trytet.Calls.Network.{
  World, fetch, invoke, listen, request_migration, seek_equilibrium, suspend, predict_rounds,
}
use trytet.Calls.Models.{MemoryJson, ModelHost, remember, recall_call, model_load, model_predict}
use trytet.Memory.{Vectors, VectorVfs}
use trytet.Calls.Components.{invoke_component}

-- What a guest asks of its host, with what the host finds at that time.
pub data HostCall (wasm : Wasm) (prices : Prices) : Type 1 where
  pays bills : ℕ → ℕ → ℕ → ℕ → HostCall wasm prices
  withdraws forks : ℕ → ℕ → ℕ → HostCall wasm prices
  reclaims requests_migration : ℕ → ℕ → HostCall wasm prices
  listens : ℕ → ℕ → ℕ → ℕ → HostCall wasm prices
  fetches : World → ℕ → ℕ → ℕ → ℕ → ℕ → ℕ → ℕ → ℕ → HostCall wasm prices
  calls :
      Option MeshCallResponse → ℕ → ℕ → List ℕ → ℕ → ℕ → ℕ → ℕ → ℕ → ℕ → ℕ → HostCall wasm prices
  runs : Cartridge.Cache wasm → ℕ → ℕ → ℕ → ℕ → ℕ → ℕ → ℕ → ℕ → HostCall wasm prices
  seeks : HiveMarket prices → ℕ → HostCall wasm prices
  suspends : HostCall wasm prices
  predicts : List ℕ → HostCall wasm prices
  remembers :
      (vectors : Vectors)
      → MemoryJson vectors
      → VectorVfs vectors
      → ℕ
      → ℕ
      → ℕ
      → ℕ
      → HostCall wasm prices
  recalls :
      (vectors : Vectors)
      → MemoryJson vectors
      → VectorVfs vectors
      → ℕ
      → ℕ
      → ℕ
      → ℕ
      → HostCall wasm prices
  loads : ModelHost → ℕ → ℕ → ℕ → ℕ → HostCall wasm prices
  infers : ModelHost → ℕ → ℕ → ℕ → ℕ → HostCall wasm prices

module _ (signing : Signing) (wasm : Wasm) (prices : Prices) where
  unfoldable pub perform : HostCall wasm prices → Call ℕ
  unfolding pay bill withdraw fork reclaim request_migration listen fetch invoke invoke_component
      seek_equilibrium suspend predict_rounds remember recall_call model_load model_predict
  perform (pays now p l amount) = pay signing now p l amount
  perform (bills now p l amount) = bill signing p l amount
  perform (withdraws amount p l) = withdraw signing amount p l
  perform (forks amount p l) = fork signing amount p l
  perform (reclaims p l) = reclaim signing p l
  perform (requests_migration p l) = request_migration signing p l
  perform (listens p l q k) = listen signing p l q k
  perform (fetches world up ul mp ml bp bl op ol) = fetch signing world up ul mp ml bp bl op ol
  perform (calls reply us now source tp tl pp pl op ol f) =
      invoke signing reply us now source tp tl pp pl op ol f
  perform (runs cache us cp cl pp pl f op ol) =
      invoke_component signing wasm cache us cp cl pp pl f op ol
  perform (seeks market now) = seek_equilibrium prices market now
  perform suspends = suspend
  perform (predicts sleeps) = predict_rounds 0 sleeps
  perform (remembers vectors json vfs cp cl rp rl) = do
    (code, after) ← remember vectors json vfs cp cl rp rl
    return code
  perform (recalls vectors json vfs qp ql op ol) = recall_call vectors json vfs qp ql op ol
  perform (loads host ap al pp pl) = model_load signing host ap al pp pl
  perform (infers host rp rl op ol) = model_predict signing host rp rl op ol

  -- The guest's calls, one after the other until one traps, each after burning some fuel itself.
  unfoldable pub perform_all : List (ℕ × HostCall wasm prices) → Call ℕ
  unfolding perform deduct_fuel
  perform_all [] = return 0
  perform_all ((burnt, k) ∷ ks) = do deduct_fuel burnt; perform k; perform_all ks
