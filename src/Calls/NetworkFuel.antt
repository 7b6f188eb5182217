-- ===== src/Calls/NetworkFuel.antt =====
-- src/sandbox/host_api: the fuel of a guest over the calls that pay and that reach out of the sandbox.
use trytet.Prelude.{ℕ, ◌+◌, arith, List, [], ◌∷◌, Option}
use trytet.Calls.{return, get_memory, read_guest_bytes}
use trytet.Cartridge
use trytet.Cartridge.{Wasm}
use trytet.Engine.{MeshCallResponse}
use trytet.Market.{Prices, HiveMarket}
use trytet.Calls.Payments.{Signing, read_guest_str, pay, bill, withdraw, fork, reclaim}
use trytet.Calls.Network.{
  World, fetch, invoke, listen, request_migration, seek_equilibrium, suspend, predict_rounds,
  settle_call, deliver, record_bytes, or_500, enforce_egress_policy, charge_preflight_fuel,
  check_egress_quota,
}
use trytet.Calls.Components.{invoke_component}
use trytet.Calls.Burning.{
  Burns, bind-Burns, bind-Burns, if_Burns, get_memory-Burns, read_guest_bytes-Burns,
}

module _ (signing : Signing) where
  pub read_guest_str-Burns :
      (memory : List ℕ) (ptr len : ℕ) → Burns (read_guest_str signing memory ptr len)
  unfolding read_guest_str
  read_guest_str-Burns memory ptr len fuel c h =
      ground (arith, read_guest_bytes-Burns memory ptr len fuel c h)

  pub pay-Burns : (now p l amount : ℕ) → Burns (pay signing now p l amount)
  unfolding pay
  pay-Burns now p l amount fuel c h = ground arith

  pub bill-Burns : (p l amount : ℕ) → Burns (bill signing p l amount)
  unfolding bill
  bill-Burns p l amount fuel c h = ground arith

  pub withdraw-Burns : (p l amount : ℕ) → Burns (withdraw signing amount p l)
  unfolding withdraw
  withdraw-Burns p l amount fuel c h = ground arith

  pub fork-Burns : (p l amount : ℕ) → Burns (fork signing amount p l)
  unfolding fork
  fork-Burns p l amount fuel c h = ground arith

  pub reclaim-Burns : (p l : ℕ) → Burns (reclaim signing p l)
  unfolding reclaim
  reclaim-Burns p l fuel c h = ground arith

  pub listen-Burns : (p l q k : ℕ) → Burns (listen signing p l q k)
  unfolding listen
  listen-Burns p l q k fuel c h = ground arith

  pub request_migration-Burns : (p l : ℕ) → Burns (request_migration signing p l)
  unfolding request_migration
  request_migration-Burns p l fuel c h = ground arith

  pub settle_call-Burns : (p l : ℕ) (res : MeshCallResponse) → Burns (settle_call signing p l res)
  unfolding settle_call
  settle_call-Burns p l res fuel c h = ground arith

  pub invoke-Burns :
      (reply : Option MeshCallResponse) (us now : ℕ) (source : List ℕ) (tp tl pp pl op ol f : ℕ)
      → Burns (invoke signing reply us now source tp tl pp pl op ol f)
  unfolding invoke
  invoke-Burns reply us now source tp tl pp pl op ol f fuel c h = ground arith

  pub charge_preflight_fuel-Burns : (u m b : List ℕ) → Burns (charge_preflight_fuel u m b)
  unfolding charge_preflight_fuel
  charge_preflight_fuel-Burns u m b fuel c h = ground arith

  pub check_egress_quota-Burns : (u m b : List ℕ) → Burns (check_egress_quota u m b)
  unfolding check_egress_quota record_bytes
  check_egress_quota-Burns u m b fuel c h = h

  pub deliver-Burns :
      (world : World) (p l : ℕ) (r : ℕ × List ℕ) → Burns (deliver signing world p l r)
  unfolding deliver record_bytes
  deliver-Burns world p l (code, bytes) fuel c h = ground arith

  pub enforce_egress_policy-Burns :
      (world : World) (url : List ℕ) → Burns (enforce_egress_policy signing world url)
  unfolding enforce_egress_policy
  enforce_egress_policy-Burns world url fuel c h = ground arith

  pub fetch-Burns :
      (world : World) (up ul mp ml bp bl op ol : ℕ)
      → Burns (fetch signing world up ul mp ml bp bl op ol)
  unfolding fetch
  fetch-Burns world up ul mp ml bp bl op ol = bind-Burns get_memory _ get_memory-Burns λ memory.
      bind-Burns (read_guest_str signing memory up ul) _ (read_guest_str-Burns memory up ul) λ url.
        bind-Burns (read_guest_str signing memory mp ml) _ (read_guest_str-Burns memory mp ml)
          λ method.
            bind-Burns (read_guest_bytes memory bp bl) _ (read_guest_bytes-Burns memory bp bl)
              λ body.
                bind-Burns (enforce_egress_policy signing world url) _
                  (enforce_egress_policy-Burns world url)
                  λ _.
                    bind-Burns (charge_preflight_fuel url method body) _
                      (charge_preflight_fuel-Burns url method body)
                      λ _.
                        bind-Burns (check_egress_quota url method body) _
                          (check_egress_quota-Burns url method body)
                          λ within.
                            if_Burns within
                              (deliver signing world op ol (or_500 (world.resolve url method body)))
                              (return 8)
                              (deliver-Burns world op ol (or_500 (world.resolve url method body)))
                              (λ fuel c h. h)

  pub invoke_component-Burns :
      (wasm : Wasm) (cache : Cartridge.Cache wasm) (us cp cl pp pl f op ol : ℕ)
      → Burns (invoke_component signing wasm cache us cp cl pp pl f op ol)
  unfolding invoke_component
  invoke_component-Burns wasm cache us cp cl pp pl f op ol fuel c h = ground arith

pub seek_equilibrium-Burns :
    (prices : Prices) (market : HiveMarket prices) (now : ℕ)
    → Burns (seek_equilibrium prices market now)
unfolding seek_equilibrium
seek_equilibrium-Burns prices market now fuel c h = ground arith

pub suspend-Burns : Burns suspend
unfolding suspend
suspend-Burns fuel c h = h

pub predict_rounds-Burns : (elapsed : ℕ) (sleeps : List ℕ) → Burns (predict_rounds elapsed sleeps)
unfolding predict_rounds
predict_rounds-Burns elapsed [] fuel c h = h
predict_rounds-Burns elapsed (s ∷ sleeps) fuel c h =
    ground (arith, predict_rounds-Burns (elapsed + s) sleeps fuel c h)
