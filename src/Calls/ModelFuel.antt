-- ===== src/Calls/ModelFuel.antt =====
-- src/sandbox/host_api: the fuel of a guest over the calls to its memory and to models.
use trytet.Prelude.{ℕ, codes, length, ◌*◌, ◌+◌, arith, List, Option, none, some}
use trytet.Calls.{get_memory, read_guest_bytes, deduct_fuel}
use trytet.Calls.Payments.{Signing}
use trytet.Calls.Models.{
  MemoryJson, ModelHost, or_fail, or_panic, remember, recall_call, model_load, model_predict,
}
use trytet.Memory
use trytet.Memory.{Vectors, VectorVfs}
use trytet.Memory.Search.{recall}
use trytet.Calls.Burning.{
  Burns, bind-Burns, bind-Burns, get_memory-Burns, read_guest_bytes-Burns, answer-Burns,
  deduct_fuel-Burns,
}

pub or_fail-Burns {ℓ} : {A : Type ℓ} (message : List ℕ) (o : Option A) → Burns (or_fail message o)
or_fail-Burns message none fuel c h = h
or_fail-Burns message (some a) fuel c h = h

pub or_panic-Burns {ℓ} : {A : Type ℓ} (o : Option A) → Burns (or_panic o)
or_panic-Burns none fuel c h = tt
or_panic-Burns (some a) fuel c h = h

module _ (vectors : Vectors) (json : MemoryJson vectors) where
  pub remember-Burns :
      (vfs : VectorVfs vectors) (cp cl rp rl : ℕ) → Burns (remember vectors json vfs cp cl rp rl)
  unfolding remember
  remember-Burns vfs cp cl rp rl = bind-Burns get_memory _ get_memory-Burns λ memory.
      bind-Burns (read_guest_bytes memory cp cl) _ (read_guest_bytes-Burns memory cp cl) λ name.
        bind-Burns (read_guest_bytes memory rp rl) _ (read_guest_bytes-Burns memory rp rl) λ bytes.
          bind-Burns (or_fail (codes "Invalid UTF-8") (json.from_utf8 name)) _
            (or_fail-Burns (codes "Invalid UTF-8") (json.from_utf8 name))
            λ collection.
              bind-Burns (or_fail (codes "Invalid record JSON") (json.parse_record bytes)) _
                (or_fail-Burns (codes "Invalid record JSON") (json.parse_record bytes))
                λ r.
                  bind-Burns (deduct_fuel (500 + length r.vector * 5)) _
                    (deduct_fuel-Burns (500 + length r.vector * 5))
                    λ _.
                      bind-Burns (or_panic (Memory.remember vectors vfs collection r)) _
                        (or_panic-Burns (Memory.remember vectors vfs collection r))
                        λ after fuel c h. h

  pub recall_call-Burns :
      (vfs : VectorVfs vectors) (qp ql op ol : ℕ) → Burns (recall_call vectors json vfs qp ql op ol)
  unfolding recall_call
  recall_call-Burns vfs qp ql op ol = bind-Burns get_memory _ get_memory-Burns λ memory.
      bind-Burns (read_guest_bytes memory qp ql) _ (read_guest_bytes-Burns memory qp ql) λ bytes.
        bind-Burns (or_fail (codes "Invalid query JSON") (json.parse_query bytes)) _
          (or_fail-Burns (codes "Invalid query JSON") (json.parse_query bytes))
          λ query.
            bind-Burns (deduct_fuel (100 + length query.query_vector * 2)) _
              (deduct_fuel-Burns (100 + length query.query_vector * 2))
              λ _.
                bind-Burns
                  (or_fail (codes "Serialization error")
                    (json.print_results (recall vectors vfs query)))
                  _
                  (or_fail-Burns (codes "Serialization error")
                    (json.print_results (recall vectors vfs query)))
                  λ response. answer-Burns op ol response

module _ (signing : Signing) (host : ModelHost) where
  pub model_load-Burns : (ap al pp pl : ℕ) → Burns (model_load signing host ap al pp pl)
  unfolding model_load
  model_load-Burns ap al pp pl fuel c h = ground arith

  pub model_predict-Burns : (rp rl op ol : ℕ) → Burns (model_predict signing host rp rl op ol)
  unfolding model_predict
  model_predict-Burns rp rl op ol fuel c h = ground arith
