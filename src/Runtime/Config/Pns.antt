-- ===== src/Runtime/Config/Pns.antt =====
-- The configurations of the PNS pallets, runtime/src/configs/mod.rs.
use paseo_node.Base.{ℕ, Bytes, codes}
use paseo_node.Runtime.Types.{Balance, DomainHash, Moment}
use paseo_node.Runtime.Constants.{
  grace_period, offer_window, default_capacity, min_registration_duration,
  max_registration_duration, max_content_len, marketplace_listing_deposit,
  marketplace_listing_grace_period,
}
use paseo_node.Runtime.Pallets.{timestamp, balances, pns_price_oracle, pns_registry, pns_registrar}
use paseo_node.Runtime.Config.{
  Provider, the_pallet, ensure_root_as_account_id, pns_is_open, pns_ss58_updater,
  pns_origin_recorder, pns_record_cleaner, pns_custodian, pns_block_author, pns_registry_checker,
}

pub record NftConfig : Type 0 where
  pub max_class_metadata : ℕ
  pub max_token_metadata : ℕ

abbrev pub nft_config : NftConfig
nft_config = record { max_class_metadata = 0; max_token_metadata = 0 }

pub record PriceOracleConfig : Type 0 where
  pub currency : Provider
  pub exchange_rate : Provider
  pub manager_origin : Provider

abbrev pub price_oracle_config : PriceOracleConfig
price_oracle_config = record {
  currency = the_pallet balances;
  exchange_rate = the_pallet pns_price_oracle;
  manager_origin = ensure_root_as_account_id;
}

pub record RegistryConfig : Type 0 where
  pub registrar : Provider
  pub manager_origin : Provider
  pub ss58_updater : Provider
  pub record_cleaner : Provider
  pub origin_recorder : Provider

abbrev pub registry_config : RegistryConfig
registry_config = record {
  registrar = the_pallet pns_registrar;
  manager_origin = ensure_root_as_account_id;
  ss58_updater = pns_ss58_updater;
  record_cleaner = pns_record_cleaner;
  origin_recorder = pns_origin_recorder;
}

-- `base_node` is `pns_types::NATIVE_BASENODE` in what follows.
pub record RegistrarConfig : Type 0 where
  pub registry : Provider
  pub currency : Provider
  pub fungible : Provider
  pub now_provider : Provider
  pub grace_period : Moment
  pub default_capacity : ℕ
  pub base_node : DomainHash
  pub min_registration_duration : Moment
  pub max_registration_duration : Moment
  pub offer_window : Moment
  pub price_oracle : Provider
  pub manager_origin : Provider
  pub is_open : Provider
  pub official : Provider
  pub ss58_updater : Provider
  pub origin_recorder : Provider
  pub record_cleaner : Provider
  pub custodian : Provider
  pub block_author : Provider

abbrev pub registrar_config : DomainHash → RegistrarConfig
registrar_config native_basenode = record {
  registry = the_pallet pns_registry;
  currency = the_pallet balances;
  fungible = the_pallet balances;
  now_provider = the_pallet timestamp;
  grace_period = grace_period;
  default_capacity = default_capacity;
  base_node = native_basenode;
  min_registration_duration = min_registration_duration;
  max_registration_duration = max_registration_duration;
  offer_window = offer_window;
  price_oracle = the_pallet pns_price_oracle;
  manager_origin = ensure_root_as_account_id;
  is_open = pns_is_open;
  official = the_pallet pns_registry;
  ss58_updater = pns_ss58_updater;
  origin_recorder = pns_origin_recorder;
  record_cleaner = pns_record_cleaner;
  custodian = pns_custodian;
  block_author = pns_block_author;
}

pub record ResolversConfig : Type 0 where
  pub offchain_prefix : Bytes
  pub max_content_len : ℕ
  pub registry_checker : Provider

abbrev pub resolvers_config : ResolversConfig
resolvers_config = record {
  offchain_prefix = codes "pns/";
  max_content_len = max_content_len;
  registry_checker = pns_registry_checker;
}

pub record MarketplaceConfig : Type 0 where
  pub currency : Provider
  pub fungible : Provider
  pub listing_deposit : Balance
  pub listing_grace_period : Moment
  pub now_provider : Provider
  pub name_registry : Provider
  pub ss58_updater : Provider
  pub record_cleaner : Provider
  pub origin_recorder : Provider
  pub base_node : DomainHash

abbrev pub marketplace_config : DomainHash → MarketplaceConfig
marketplace_config native_basenode = record {
  currency = the_pallet balances;
  fungible = the_pallet balances;
  listing_deposit = marketplace_listing_deposit;
  listing_grace_period = marketplace_listing_grace_period;
  now_provider = the_pallet timestamp;
  name_registry = the_pallet pns_registrar;
  ss58_updater = pns_ss58_updater;
  record_cleaner = pns_record_cleaner;
  origin_recorder = pns_origin_recorder;
  base_node = native_basenode;
}
