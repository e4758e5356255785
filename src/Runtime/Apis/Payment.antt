-- ===== src/Runtime/Apis/Payment.antt =====
-- TransactionPaymentApi and TransactionPaymentCallApi of runtime/src/apis.rs, which ask the pallet
-- of transaction payment. Both have the two queries on fees.
use paseo_node.Base.{ℕ}
use paseo_node.Runtime.Types.{Balance}
use paseo_node.Runtime.Config.Frame.{Weight}
use paseo_node.Runtime.Apis.Types.{ApiTypes, Pallets}

module _ {A : ApiTypes} (pallets : Pallets A) where
  abbrev pub query_info : A.Extrinsic → ℕ → A.State → A.DispatchInfo
  query_info uxt len s = pallets.query_info uxt len s

  abbrev pub query_fee_details : A.Extrinsic → ℕ → A.State → A.FeeDetails
  query_fee_details uxt len s = pallets.query_fee_details uxt len s

  abbrev pub query_call_info : A.RuntimeCall → ℕ → A.State → A.DispatchInfo
  query_call_info c len s = pallets.query_call_info c len s

  abbrev pub query_call_fee_details : A.RuntimeCall → ℕ → A.State → A.FeeDetails
  query_call_fee_details c len s = pallets.query_call_fee_details c len s

  abbrev pub query_weight_to_fee : Weight → A.State → Balance
  query_weight_to_fee weight s = pallets.weight_to_fee weight s

  abbrev pub query_length_to_fee : ℕ → A.State → Balance
  query_length_to_fee length s = pallets.length_to_fee length s
