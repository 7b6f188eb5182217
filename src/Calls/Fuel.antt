-- ===== src/Calls/Fuel.antt =====
-- src/sandbox/host_api: no call leaves its caller with more fuel than it had.
use trytet.Prelude.{ℕ, arith, List, [], ◌∷◌}
use trytet.Calls.{Caller, deduct_fuel}
use trytet.Cartridge.{Wasm}
use trytet.Market.{Prices}
use trytet.Calls.Payments.{Signing}
use trytet.Calls.Sequences.{HostCall, perform, perform_all}
use trytet.Calls.Models.{remember}
use trytet.Calls.Burning.{Within, Burns, bind-Burns, bind-Burns, deduct_fuel-Burns}
use trytet.Calls.NetworkFuel.{
  bill-Burns, fetch-Burns, fork-Burns, invoke-Burns, invoke_component-Burns, listen-Burns,
  pay-Burns, predict_rounds-Burns, reclaim-Burns, request_migration-Burns, seek_equilibrium-Burns,
  suspend-Burns, withdraw-Burns,
}
use trytet.Calls.ModelFuel.{
  model_load-Burns, model_predict-Burns, recall_call-Burns, remember-Burns,
}

module _ (signing : Signing) (wasm : Wasm) (prices : Prices) where
  perform-Burns : (k : HostCall wasm prices) → Burns (perform signing wasm prices k)
  unfolding perform
  perform-Burns (HostCall.pays now p l amount) = pay-Burns signing now p l amount
  perform-Burns (HostCall.bills now p l amount) = bill-Burns signing p l amount
  perform-Burns (HostCall.withdraws amount p l) = withdraw-Burns signing p l amount
  perform-Burns (HostCall.forks amount p l) = fork-Burns signing p l amount
  perform-Burns (HostCall.reclaims p l) = reclaim-Burns signing p l
  perform-Burns (HostCall.requests_migration p l) = request_migration-Burns signing p l
  perform-Burns (HostCall.listens p l q k) = listen-Burns signing p l q k
  perform-Burns (HostCall.fetches world up ul mp ml bp bl op ol) =
      fetch-Burns signing world up ul mp ml bp bl op ol
  perform-Burns (HostCall.calls reply us now source tp tl pp pl op ol f) =
      invoke-Burns signing reply us now source tp tl pp pl op ol f
  perform-Burns (HostCall.runs cache us cp cl pp pl f op ol) =
      invoke_component-Burns signing wasm cache us cp cl pp pl f op ol
  perform-Burns (HostCall.seeks market now) = seek_equilibrium-Burns prices market now
  perform-Burns HostCall.suspends = suspend-Burns
  perform-Burns (HostCall.predicts sleeps) = predict_rounds-Burns 0 sleeps
  perform-Burns (HostCall.remembers vectors json vfs cp cl rp rl) =
      bind-Burns (remember vectors json vfs cp cl rp rl) _
        (remember-Burns vectors json vfs cp cl rp rl) λ a fuel c h. h
  perform-Burns (HostCall.recalls vectors json vfs qp ql op ol) =
      recall_call-Burns vectors json vfs qp ql op ol
  perform-Burns (HostCall.loads host ap al pp pl) = model_load-Burns signing host ap al pp pl
  perform-Burns (HostCall.infers host rp rl op ol) = model_predict-Burns signing host rp rl op ol

  perform_all-Burns :
      (ks : List (ℕ × HostCall wasm prices)) → Burns (perform_all signing wasm prices ks)
  unfolding perform_all
  perform_all-Burns [] = λ fuel c h. h
  perform_all-Burns ((burnt, k) ∷ ks) =
      bind-Burns (deduct_fuel burnt) _ (deduct_fuel-Burns burnt) λ _.
        bind-Burns (perform signing wasm prices k) _ (perform-Burns k) λ _. perform_all-Burns ks

  -- A guest that makes any host calls, in any order and with its own work between them, ends with at
  -- most the fuel that it began with, whatever the host finds and however the calls end.
  pub perform_all-Within :
      (ks : List (ℕ × HostCall wasm prices)) (c : Caller)
      → Within c.fuel (perform_all signing wasm prices ks c)
  perform_all-Within ks c = perform_all-Burns ks c.fuel c (omega arith)
