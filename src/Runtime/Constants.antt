-- ===== src/Runtime/Constants.antt =====
-- The constants of runtime/src/lib.rs and the parameters of runtime/src/configs/mod.rs.
-- A cast to `u64` of a value below 2 ^ 32 keeps the value and is not written.
use paseo_node.Base.{ℕ, ◌+◌, ◌*◌, ◌/◌, replicate}
use paseo_node.Runtime.Types.{AccountId, Balance, BlockNumber, Moment}

-- Block times and units of lib.rs.
abbrev pub milli_secs_per_block : ℕ
milli_secs_per_block = 6000

abbrev pub slot_duration : ℕ
slot_duration = milli_secs_per_block

abbrev pub minutes : BlockNumber
minutes = 60_000 / milli_secs_per_block

abbrev pub hours : BlockNumber
hours = minutes * 60

abbrev pub days : BlockNumber
days = hours * 24

abbrev pub unit : Balance
unit = 1_000_000_000_000

abbrev pub milli_unit : Balance
milli_unit = 1_000_000_000

abbrev pub micro_unit : Balance
micro_unit = 1_000_000

abbrev pub existential_deposit : Balance
existential_deposit = milli_unit

-- System
abbrev pub block_hash_count : BlockNumber
block_hash_count = 2400

abbrev pub max_authorities : ℕ
max_authorities = 32

abbrev pub minimum_period : Moment
minimum_period = slot_duration / 2

-- PNS
abbrev pub grace_period : Moment
grace_period = 30 * days * milli_secs_per_block

abbrev pub offer_window : Moment
offer_window = 90 * days * milli_secs_per_block

abbrev pub default_capacity : ℕ
default_capacity = 10

abbrev pub min_registration_duration : Moment
min_registration_duration = 28 * days * milli_secs_per_block

abbrev pub max_registration_duration : Moment
max_registration_duration = 365 * days * milli_secs_per_block

abbrev pub max_content_len : ℕ
max_content_len = 1024

abbrev pub pns_custodian_account : AccountId
pns_custodian_account = replicate 32 0xFE

abbrev pub marketplace_listing_deposit : Balance
marketplace_listing_deposit = 10 * milli_unit

abbrev pub marketplace_listing_grace_period : Moment
marketplace_listing_grace_period = 7 * days * milli_secs_per_block

-- ZK-PKI
abbrev pub pki_inactive_purge_period : BlockNumber
pki_inactive_purge_period = 14_400 * 30

abbrev pub pki_contract_offer_ttl_blocks : BlockNumber
pki_contract_offer_ttl_blocks = 14_400

abbrev pub pki_max_root_ttl_blocks : BlockNumber
pki_max_root_ttl_blocks = 14_400 * 365 * 5

abbrev pub pki_max_issuers_per_root : ℕ
pki_max_issuers_per_root = 5

abbrev pub pki_challenge_window_blocks : BlockNumber
pki_challenge_window_blocks = 14_400 * 45

abbrev pub pki_cert_deposit : Balance
pki_cert_deposit = unit

abbrev pub pki_offer_deposit : Balance
pki_offer_deposit = unit / 10

abbrev pub pki_min_root_ttl_blocks : BlockNumber
pki_min_root_ttl_blocks = 14_400 * 90

abbrev pub pki_min_issuer_ttl_blocks : BlockNumber
pki_min_issuer_ttl_blocks = 14_400 * 30

abbrev pub pki_ttl_check_interval : BlockNumber
pki_ttl_check_interval = 14_400

abbrev pub pki_template_deposit : Balance
pki_template_deposit = 10 * unit

abbrev pub pki_max_templates_per_issuer : ℕ
pki_max_templates_per_issuer = 256

abbrev pub pki_protocol_fee_basis_points : ℕ
pki_protocol_fee_basis_points = 1_000

abbrev pub pki_block_creator_cap_basis_points : ℕ
pki_block_creator_cap_basis_points = 4_000

abbrev pub pki_deposit_basis_points : ℕ
pki_deposit_basis_points = 500

abbrev pub pki_min_deposit : Balance
pki_min_deposit = unit / 10

abbrev pub pki_mint_fee_pop : Balance
pki_mint_fee_pop = unit

abbrev pub pki_mint_fee_packed : Balance
pki_mint_fee_packed = unit + unit / 2

abbrev pub pki_mint_fee_none : Balance
pki_mint_fee_none = 2 * unit

abbrev pub pki_protocol_fee_recipient : AccountId
pki_protocol_fee_recipient = replicate 32 0

-- Secret Squirrel
abbrev pub ss_deposit_base : Balance
ss_deposit_base = 100 * milli_unit

abbrev pub ss_deposit_per_byte : Balance
ss_deposit_per_byte = milli_unit

abbrev pub ss_deposit_per_block : Balance
ss_deposit_per_block = milli_unit

abbrev pub ss_max_active_slots : ℕ
ss_max_active_slots = 10_000

-- Scheduler
abbrev pub max_scheduled_per_block : ℕ
max_scheduled_per_block = 50
