-- ===== src/Node/PnsRpc/Threads/Names.antt =====
-- Names that the server of node/src/pns_rpc.rs looks up while it handles other requests, over a
-- client that runs the queries of runtime/src/apis.rs.
use mathlib.Core.Path.{subst}
use paseo_node.Base.{ℕ, [], ◌≤◌, ◌≡◌, some, Bytes, ok}
use paseo_node.Runtime.Types.{Hash}
use paseo_node.Runtime.Pns.{NameRecord, PnsTypes, Storage}
use paseo_node.Runtime.Pns.Laws.{IsResolved}
use paseo_node.Node.PnsRpc.{
  Client, stamp_name, pns_resolve_name, name_record, serve, Request, Response,
}
use paseo_node.Node.PnsRpc.Chain.{RunsRuntime, serve-IsResolved}
use paseo_node.Node.PnsRpc.Threads.{finished}
use paseo_node.Node.PnsRpc.Threads.System.{Handling, busy, System, Reach}
use paseo_node.Node.PnsRpc.Threads.Linear.{fresh, linearizable}

module _ {T : PnsTypes} (C : Client T) (storage_at : Hash → Storage T)
    (runs : RunsRuntime C storage_at) where
  -- Where a thread has finished a request, and with what.
  abbrev pub HasAnswered :
      System T.RecordType → ℕ → Handling T.RecordType → Request → Response → Type 0
  HasAnswered s i h req response =
      (s.thread i ≡ busy h) × (h.request ≡ req) × (h.rest ≡ finished (ok response))

  served_then :
      {s : System T.RecordType}
      → Reach C s
      → (i : ℕ) (h : Handling T.RecordType) (req : Request) (response : Response)
      → HasAnswered s i h req response
      → (n : ℕ) × (h.since ≤ n) × (n ≤ s.head) × ((serve C req (fresh C n [])).0 ≡ ok response)
  served_then steps i h req response (there, asked, done) =
      let (n, arrived, seen, answer, _) = linearizable C steps i h (ok response) there done in
      (n, arrived, seen, subst (λ r. (serve C r (fresh C n [])).0 ≡ ok response) asked answer)

  -- Where the client's calls run the queries of the runtime or fail, a record that
  -- `pns_resolveName` has answered to one of many requests is, but for the stamp, that of a name
  -- whose label's node resolves in the storage of the block in the stamp, and that block was the
  -- best one at some time between the request's arrival and now.
  pub found_while_best :
      {s : System T.RecordType}
      → Reach C s
      → (i : ℕ) (h : Handling T.RecordType) (name : Bytes) (r : NameRecord)
      → HasAnswered s i h (pns_resolve_name name) (name_record (some r))
      → (n : ℕ) × (h.since ≤ n)
        × (n ≤ s.head)
        × (l : T.Label × ℕ) × (r0 : NameRecord) × (T.new_with_len name ≡ some l)
        × IsResolved T (storage_at r.read_block_hash) (T.encode_with_node l.0 T.native_basenode) r0
        × (r ≡ stamp_name C (C.info n) r0)
  found_while_best steps i h name r answered =
      let (n, arrived, seen, served) = served_then steps i h _ _ answered in
      let (l, r0, named, resolved, stamped) =
        serve-IsResolved C storage_at runs name (fresh C n []) r served in
      (n, arrived, seen, l, r0, named, resolved, stamped)
