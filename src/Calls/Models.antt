-- ===== src/Calls/Models.antt =====
-- src/sandbox/host_api: memory_ops.rs and model_ops.rs, where a guest uses its vector memory and the
-- models of the host; with the prices of src/model_proxy.rs and src/inference.rs. JSON, the models
-- and `ceil` of a float are parameters. The memory is given and given back.
use trytet.Prelude.{
  ℕ, ◌+◌, ◌*◌, ◌/◌, Bool, Option, none, some, List, ltb, max, length, if◌then◌else◌, codes,
}
use trytet.Memory
use trytet.Memory.{Vectors, VectorRecord, SearchQuery, SearchResult, VectorVfs}
use trytet.Memory.Search.{recall}
use trytet.Calls.{
  returns, panic, Call, ◌>>=◌, ◌>>◌, return, fail, get_memory, read_guest_bytes, answer,
  deduct_fuel,
}
use trytet.Calls.Payments.{Signing, read_guest_str}

-- `serde_json` and `from_utf8` for what a guest's memory takes and gives.
pub record MemoryJson (vectors : Vectors) : Type 0 where
  pub from_utf8 : List ℕ → Option (List ℕ)
  pub parse_record : List ℕ → Option (VectorRecord vectors)
  pub parse_query : List ℕ → Option (SearchQuery vectors)
  pub print_results : List (SearchResult vectors) → Option (List ℕ)

abbrev pub or_fail {ℓ} : {A : Type ℓ} → List ℕ → Option A → Call A
or_fail message none = fail message
or_fail message (some a) = return a

abbrev pub or_panic {ℓ} : {A : Type ℓ} → Option A → Call A
or_panic none c = panic
or_panic (some a) c = returns a c

module _ (vectors : Vectors) (json : MemoryJson vectors) where
  open json use {from_utf8, parse_record, parse_query, print_results}

  unfoldable pub remember : VectorVfs vectors → ℕ → ℕ → ℕ → ℕ → Call (ℕ × VectorVfs vectors)
  unfolding get_memory read_guest_bytes deduct_fuel Memory.remember
  remember vfs collection_ptr collection_len record_ptr record_len = do
    memory ← get_memory
    collection_bytes ← read_guest_bytes memory collection_ptr collection_len
    record_bytes ← read_guest_bytes memory record_ptr record_len
    collection_name ← or_fail (codes "Invalid UTF-8") (from_utf8 collection_bytes)
    r ← or_fail (codes "Invalid record JSON") (parse_record record_bytes)
    deduct_fuel (500 + length r.vector * 5)
    after ← or_panic (Memory.remember vectors vfs collection_name r)
    return (0, after)

  unfoldable pub recall_call : VectorVfs vectors → ℕ → ℕ → ℕ → ℕ → Call ℕ
  unfolding get_memory read_guest_bytes deduct_fuel recall answer
  recall_call vfs query_ptr query_len out_ptr out_len_ptr = do
    memory ← get_memory
    query_bytes ← read_guest_bytes memory query_ptr query_len
    query ← or_fail (codes "Invalid query JSON") (parse_query query_bytes)
    deduct_fuel (100 + length query.query_vector * 2)
    response_json ← or_fail (codes "Serialization error") (print_results (recall vectors vfs query))
    answer out_ptr out_len_ptr response_json

-- The answer of a model with its tokens, as the proxy gives it; its text as JSON, if it can be
-- printed.
pub record ProxyResponse : Type 0 where
  pub input_tokens : ℕ
  pub output_tokens : ℕ
  pub json : Option (List ℕ)

pub record InferenceRequest : Type 0 where
  pub model_alias : List ℕ
  pub prompt : List ℕ

pub record ModelHost : Type 0 where
  pub load_model : List ℕ → List ℕ → Bool
  pub parse_request : List ℕ → Option InferenceRequest
  pub context_limit : List ℕ → ℕ
  -- `(n as f64 * 1.15).ceil()`
  pub with_margin : ℕ → ℕ
  pub predict : InferenceRequest → Option ProxyResponse

-- `ModelProxy::calculate_fuel` and `InferenceFuelCalculator::model_load_cost`
unfoldable pub calculate_fuel : ℕ → ℕ → ℕ
calculate_fuel input_tokens output_tokens = (input_tokens + output_tokens) * 30 + 5000

abbrev pub model_load_cost : ℕ
model_load_cost = 10000

-- `max(1, len.div_ceil(4))`
unfoldable pub estimated_tokens : List ℕ → ℕ
estimated_tokens prompt = max 1 ((length prompt + 3) / 4)

module _ (signing : Signing) (host : ModelHost) where
  open host use {load_model, parse_request, context_limit, with_margin, predict}

  unfoldable pub model_load : ℕ → ℕ → ℕ → ℕ → Call ℕ
  unfolding get_memory read_guest_str deduct_fuel
  model_load alias_ptr alias_len path_ptr path_len = do
    memory ← get_memory
    alias ← read_guest_str signing memory alias_ptr alias_len
    path ← read_guest_str signing memory path_ptr path_len
    deduct_fuel model_load_cost
    return (if load_model alias path then 0 else 3)

  abbrev pub deliver_json : ℕ → ℕ → Option (List ℕ) → Call ℕ
  deliver_json out_ptr out_len_ptr none = return 4
  deliver_json out_ptr out_len_ptr (some json) = answer out_ptr out_len_ptr json

  abbrev pub bill_prediction : ℕ → ℕ → Option ProxyResponse → Call ℕ
  bill_prediction out_ptr out_len_ptr none = return 4
  bill_prediction out_ptr out_len_ptr (some proxy_resp) = do
    deduct_fuel (calculate_fuel proxy_resp.input_tokens proxy_resp.output_tokens)
    deliver_json out_ptr out_len_ptr proxy_resp.json

  abbrev pub predict_request : ℕ → ℕ → Option InferenceRequest → Call ℕ
  predict_request out_ptr out_len_ptr none = return 3
  predict_request out_ptr out_len_ptr (some request) =
      if ltb (context_limit request.model_alias) (with_margin (estimated_tokens request.prompt))
      then return 7
      else bill_prediction out_ptr out_len_ptr (predict request)

  unfoldable pub model_predict : ℕ → ℕ → ℕ → ℕ → Call ℕ
  unfolding get_memory read_guest_bytes deduct_fuel answer calculate_fuel estimated_tokens
  model_predict request_ptr request_len out_ptr out_len_ptr = do
    memory ← get_memory
    request_bytes ← read_guest_bytes memory request_ptr request_len
    predict_request out_ptr out_len_ptr (parse_request request_bytes)
