-- ===== src/Context/Models.antt =====
-- src/api/context/models.rs. A text is its UTF-8 bytes.
use trytet.Prelude.{ℕ, Bool, true, false, List}
use trytet.Context.Floats.{Floats}

pub data BlockType : Type 0 where
  system user assistant tool_result : BlockType

pub data EvictionStrategy : Type 0 where
  fifo large_block_first hybrid : EvictionStrategy

pub data PruningReport : Type 0 where
  no_change : PruningReport
  pruned : ℕ → ℕ → PruningReport

pub data ContextError : Type 0 where
  system_prompt_too_large estimator_failure : ContextError

pub record InputContentBlock (floats : Floats) : Type 0 where
  pub block_type : BlockType
  pub content : List ℕ
  pub is_persistent : Bool
  pub importance_score : floats.F32
  pub block_length : ℕ

abbrev pub is_system : BlockType → Bool
is_system system = true
is_system _ = false

abbrev pub is_tool_result : BlockType → Bool
is_tool_result tool_result = true
is_tool_result _ = false

module _ (floats : Floats) where
  pub default_score : BlockType → floats.F32
  default_score system = floats.score_system
  default_score user = floats.score_user
  default_score assistant = floats.score_assistant
  default_score tool_result = floats.score_tool_result

  -- `InputContentBlock::new`
  pub new_block : BlockType → List ℕ → InputContentBlock floats
  unfolding default_score
  new_block kind content = record {
    block_type = kind;
    content = content;
    is_persistent = is_system kind;
    importance_score = default_score kind;
    block_length = 0;
  }
