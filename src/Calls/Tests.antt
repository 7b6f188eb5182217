-- ===== src/Calls/Tests.antt =====
-- Witnesses and tests of the host calls, with a signature that is the text that it signs.
use trytet.Prelude.{
  ℕ, ◌≡◌, refl, arith, true, false, none, some, List, [], ◌∷◌, codes, replicate, if◌then◌else◌,
  contains, nat_eq, bytes_beq, bytes_beq_iff, ltb, leb,
}
use trytet.Prelude.HashMap
use trytet.Economy.Examples.{plain_crypto}
use trytet.Economy.Registry
use trytet.Economy.Registry.{transfer, settle, record_nonce}
use trytet.Cartridge
use trytet.Cartridge.{Wasm, Outcome, CallResult, Val}
use trytet.Engine.{AgentManifest}
use trytet.Fortress
use trytet.Market.{Prices}
use trytet.Mesh
use trytet.Calls.{Caller}
use trytet.Calls.Payments.{Signing, transaction}
use trytet.Calls.Sequences.{HostCall, perform_all}
use trytet.Calls.Burning.{Within}
use trytet.Calls.Fuel.{perform_all-Within}
use trytet.Calls.Components.{settle_invoked}
use trytet.Calls.Charges.{Leaves, settle_invoked-Charges}
use trytet.Calls.Settlement.{Agrees, transfer-transaction}

-- A seed is 32 ones, and its own public key.
abbrev signing : Signing
signing = record {
  sha256 = λ alias. replicate 32 1;
  public_key = λ seed. replicate 32 1;
  sign = λ seed message. message;
  from_utf8_lossy = λ bytes. bytes;
}

plain-Agrees : Agrees signing plain_crypto
plain-Agrees = record {
  accepts = λ seed message. (replicate 32 1, message, refl, refl, same message);
}
  where
    same : (message : List ℕ) → bytes_beq message message ≡ true
    same message = (bytes_beq_iff message message).1 refl

transfer-transaction_example :
    transfer plain_crypto Registry.new (transaction signing (1 ∷ []) (2 ∷ []) 5 7) ≡ (
      if contains 7 Registry.new.used_nonces
      then (Registry.err Registry.replay_attack, Registry.new)
      else settle (record_nonce Registry.new 7) (transaction signing (1 ∷ []) (2 ∷ []) 5 7))
transfer-transaction_example =
    transfer-transaction signing plain_crypto plain-Agrees Registry.new (1 ∷ []) (2 ∷ []) 5 7

-- A runtime whose cartridges answer with their payload and leave 40 of their fuel.
abbrev wasm : Wasm
wasm = record {
  Component = List ℕ;
  Instance = List ℕ;
  compile = λ bytes. Outcome.done bytes;
  set_fuel = λ fuel. Outcome.done tt;
  host_api = Outcome.done tt;
  host_fetch = Outcome.done tt;
  instantiate = λ component fuel memory. Outcome.done component;
  interface_func = λ i. true;
  plain_func = λ i. false;
  call = λ i interface payload. (CallResult.returned (Val.string payload), 40);
  debug = λ v. [];
}

ltb_trans : (a b c : ℕ) → ltb a b ≡ true → ltb b c ≡ true → ltb a c ≡ true
ltb_trans a b c h k = ground arith

ltb_irrefl : (a : ℕ) → ltb a a ≡ false
ltb_irrefl a = ground arith

abbrev prices : Prices
prices = record {
  F32 = ℕ;
  le = leb;
  lt = ltb;
  buffered = λ p. p;
  escape = 500;
  scaled = λ mem cpu thermal. 100;
  lt-trans = ltb_trans;
  lt-irrefl = ltb_irrefl;
}

abbrev manifest : AgentManifest
manifest = record {
  metadata = record { name = codes "guest"; version = []; author_pubkey = none };
  constraints = record { max_memory_pages = 1; fuel_limit = 1000; max_egress_bytes = 0 };
  permissions = record {
    can_egress = [];
    can_persist = false;
    can_teleport = false;
    is_genesis_factory = false;
    can_fork = false;
  };
}

-- A guest of 16 bytes and 1000 fuel; its cartridge is the empty text.
abbrev guest : Caller
guest = record {
  memory = some (replicate 16 0);
  fuel = 1000;
  fuel_to_burn_from_parent = 0;
  call_stack_depth = 0;
  manifest = manifest;
  migration_requested = false;
  migration_target = none;
  egress_policy = none;
  tet_id = [];
  tenant_id = [];
  author_pubkey = [];
  max_egress_bytes = 0;
  quota_manager = Fortress.new;
  gateway = [];
  mesh = Mesh.new;
  channel_open = true;
  sent = [];
}

abbrev calls : List (ℕ × HostCall wasm prices)
calls =
    (10, HostCall.pays 1 0 2 300)
    ∷ (10, HostCall.runs (([], []) ∷ []) 5 0 0 0 0 100 0 8)
    ∷ (10, HostCall.forks 900 0 0)
    ∷ []

perform_all-Within_example : Within 1000 (perform_all signing wasm prices calls guest)
perform_all-Within_example = perform_all-Within signing wasm prices calls guest

-- 300 are paid away and 60 go to the cartridge; the child of 900 is refused.
fuel_left : Leaves 610 (perform_all signing wasm prices calls guest)
unfolding perform_all HashMap.lookup
fuel_left = refl

settle_invoked-Charges_example : Leaves 940 (
    settle_invoked 100 0 8
      (Cartridge.Invoked.ok [] (record { fuel_consumed = 60; duration_us = 5 }))
      (record guest { fuel = 900 }))
settle_invoked-Charges_example =
    settle_invoked-Charges 100 0 8
      (Cartridge.Invoked.ok [] (record { fuel_consumed = 60; duration_us = 5 }))
      (record guest { fuel = 900 }) (omega arith)
