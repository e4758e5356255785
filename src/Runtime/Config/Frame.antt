-- ===== src/Runtime/Config/Frame.antt =====
-- The configurations of the pallets of polkadot-sdk, runtime/src/configs/mod.rs.
use paseo_node.Base.{ℕ, ◌*◌, ◌/◌, Bool, false, u64_max}
use paseo_node.Runtime.Types.{Balance, BlockNumber, Moment}
use paseo_node.Runtime.Constants.{
  block_hash_count, minimum_period, max_authorities, existential_deposit, max_scheduled_per_block,
}
use paseo_node.Runtime.Pallets.{system, aura, balances}
use paseo_node.Runtime.Config.{Provider, the_pallet, no_provider, ensure_root, aura_account_finder}

-- `Weight`, its two parts
pub record Weight : Type 0 where
  pub ref_time : ℕ
  pub proof_size : ℕ

-- `NORMAL_DISPATCH_RATIO`, in percent
abbrev pub normal_dispatch_ratio : ℕ
normal_dispatch_ratio = 75

-- The bytes that are given to `BlockLength::builder`.
abbrev pub max_block_length : ℕ
max_block_length = 5 * 1024 * 1024

-- `DispatchClass` of frame_support
pub data DispatchClass : Type 0 where
  normal operational mandatory : DispatchClass

-- `RuntimeBlockLength` by class. The ratio is a `Perbill`, whose product with this length is whole.
abbrev pub max_length_of : DispatchClass → ℕ
max_length_of normal = normal_dispatch_ratio * max_block_length / 100
max_length_of operational = max_block_length
max_length_of mandatory = max_block_length

-- `second` is `WEIGHT_REF_TIME_PER_SECOND` of frame_support.
module _ (second : ℕ) where
  -- The expected weight that `RuntimeBlockWeights` is built of.
  abbrev pub expected_block_weight : Weight
  expected_block_weight = record { ref_time = 2 * second; proof_size = u64_max }

  abbrev pub maximum_scheduler_weight : Weight
  maximum_scheduler_weight = record { ref_time = second; proof_size = u64_max }

pub record SystemConfig : Type 0 where
  pub block_hash_count : BlockNumber
  pub ss58_prefix : ℕ
  pub max_consumers : ℕ
  pub on_set_code : Provider

abbrev pub system_config : SystemConfig
system_config = record {
  block_hash_count = block_hash_count;
  ss58_prefix = 42;
  max_consumers = 16;
  on_set_code = no_provider;
}

pub record TimestampConfig : Type 0 where
  pub on_timestamp_set : Provider
  pub minimum_period : Moment

abbrev pub timestamp_config : TimestampConfig
timestamp_config = record { on_timestamp_set = the_pallet aura; minimum_period = minimum_period }

pub record AuraConfig : Type 0 where
  pub disabled_validators : Provider
  pub max_authorities : ℕ
  pub allow_multiple_blocks_per_slot : Bool
  pub slot_duration : Moment

-- `minimum_period_times_two` is the type of pallet_aura, a function of the timestamp's period.
abbrev pub aura_config : (Moment → Moment) → AuraConfig
aura_config minimum_period_times_two = record {
  disabled_validators = no_provider;
  max_authorities = max_authorities;
  allow_multiple_blocks_per_slot = false;
  slot_duration = minimum_period_times_two timestamp_config.minimum_period;
}

pub record GrandpaConfig : Type 0 where
  pub max_authorities : ℕ
  pub max_nominators : ℕ
  pub max_set_id_session_entries : ℕ
  pub equivocation_report_system : Provider

abbrev pub grandpa_config : GrandpaConfig
grandpa_config = record {
  max_authorities = 32;
  max_nominators = 0;
  max_set_id_session_entries = 0;
  equivocation_report_system = no_provider;
}

pub record BalancesConfig : Type 0 where
  pub max_locks : ℕ
  pub max_reserves : Provider
  pub dust_removal : Provider
  pub existential_deposit : Balance
  pub account_store : Provider

abbrev pub balances_config : BalancesConfig
balances_config = record {
  max_locks = 50;
  max_reserves = no_provider;
  dust_removal = no_provider;
  existential_deposit = existential_deposit;
  account_store = the_pallet system;
}

abbrev fee_multiplier : ℕ
fee_multiplier = 1

-- `OnChargeTransaction` is `FungibleAdapter<Balances, ()>`: the currency and what takes the fees.
-- `WeightToFee` and `LengthToFee` are `IdentityFee`. `FeeMultiplierUpdate` leaves the multiplier at
-- `fee_multiplier`, in units of `Multiplier::one`.
pub record TransactionPaymentConfig : Type 0 where
  pub charged_currency : Provider
  pub on_unbalanced : Provider
  pub operational_fee_multiplier : ℕ
  pub fee_multiplier : ℕ

abbrev pub transaction_payment_config : TransactionPaymentConfig
transaction_payment_config = record {
  charged_currency = the_pallet balances;
  on_unbalanced = no_provider;
  operational_fee_multiplier = 5;
  fee_multiplier = fee_multiplier;
}

pub record SchedulerConfig : Type 0 where
  pub maximum_weight : Weight
  pub schedule_origin : Provider
  pub max_scheduled_per_block : ℕ
  pub preimages : Provider
  pub block_number_provider : Provider

abbrev pub scheduler_config : ℕ → SchedulerConfig
scheduler_config second = record {
  maximum_weight = maximum_scheduler_weight second;
  schedule_origin = ensure_root;
  max_scheduled_per_block = max_scheduled_per_block;
  preimages = no_provider;
  block_number_provider = the_pallet system;
}

pub record AuthorshipConfig : Type 0 where
  pub find_author : Provider
  pub event_handler : Provider

abbrev pub authorship_config : AuthorshipConfig
authorship_config = record { find_author = aura_account_finder; event_handler = no_provider }

pub record ProxyConfig : Type 0 where
  pub currency : Provider
  pub proxy_deposit_base : Balance
  pub proxy_deposit_factor : Balance
  pub max_proxies : ℕ
  pub max_pending : ℕ
  pub announcement_deposit_base : Balance
  pub announcement_deposit_factor : Balance
  pub block_number_provider : Provider

abbrev pub proxy_config : ProxyConfig
proxy_config = record {
  currency = the_pallet balances;
  proxy_deposit_base = 0;
  proxy_deposit_factor = 0;
  max_proxies = 32;
  max_pending = 32;
  announcement_deposit_base = 0;
  announcement_deposit_factor = 0;
  block_number_provider = the_pallet system;
}
