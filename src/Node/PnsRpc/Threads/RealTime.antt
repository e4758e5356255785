-- ===== src/Node/PnsRpc/Threads/RealTime.antt =====
-- Requests to the server of node/src/pns_rpc.rs of which one arrives when the other was answered.
use paseo_node.Base.{ℕ, ◌+◌, ◌≤◌, ◌≡◌, sym, some, [], arith, ok}
use mathlib.Core.Path.{subst}
use paseo_node.Runtime.Types.{BlockNumber, Hash}
use paseo_node.Runtime.Pns.{PnsTypes}
use paseo_node.Node.PnsRpc.{Client, Response}
use paseo_node.Node.PnsRpc.Laws.{read_at, serve-read_at}
use paseo_node.Node.PnsRpc.Threads.{finished}
use paseo_node.Node.PnsRpc.Threads.System.{
  Handling, Thread, idle, busy, System, Move, arrive, read, made, Steps, and_then, Reach,
}
use paseo_node.Node.PnsRpc.Threads.Linear.{fresh, linearizable}
use paseo_node.Node.PnsRpc.Threads.Keeps.{Steps-keep}

module _ {T : PnsTypes} (C : Client T) where
  abbrev After : ℕ → ℕ → Thread T.RecordType → Type 0
  After start head idle = start ≤ head
  After start head (busy h) = (start ≤ head) × (start ≤ h.since)

  Move-After :
      (start head : ℕ) (p q : Thread T.RecordType)
      → Move C head p q
      → After start head p
      → After start head q
  Move-After start head _ _ (arrive req) h = (h, h)
  Move-After start head _ _ read h = h
  Move-After start head _ _ made h = h

  later-After :
      (start head : ℕ) (p : Thread T.RecordType) → After start head p → After start (head + 1) p
  later-After start head idle h = omega arith
  later-After start head (busy h) (grown, since) = (omega arith, since)

  -- A request that arrives when another one has been answered is not answered from an older
  -- block: if the numbers of the best blocks do not fall, the block number in its answer is not
  -- below the one in the other answer.
  pub real_time :
      ((i j : ℕ) → i ≤ j → (C.info i).best_number ≤ (C.info j).best_number)
      → {s t : System T.RecordType} → Reach C s
      → Steps C s t
      → (i j : ℕ) (a b : Handling T.RecordType) (x y : Response) (m n : BlockNumber) (g h : Hash)
      → s.thread i ≡ busy a
      → a.rest ≡ finished (ok x)
      → read_at x ≡ some (m, g)
      → s.thread j ≡ idle
      → t.thread j ≡ busy b
      → b.rest ≡ finished (ok y)
      → read_at y ≡ some (n, h)
      → m ≤ n
  real_time advances {s} {t} reached steps i j a b x y m n g h at_i done_i read_i at_j there done_j
        read_j =
      let (k, _, seen, first, _) = linearizable C reached i a (ok x) at_i done_i in
      let (l, arrived, _, second, _) =
        linearizable C (and_then C reached steps) j b (ok y) there done_j in
      let (_, since) = subst (After s.head t.head) there (
        Steps-keep C (After s.head) (Move-After s.head) (later-After s.head) steps j
          (subst (After s.head s.head) (sym at_j) (omega arith))) in
      let (old, _) = serve-read_at C a.request (fresh C k []) x m g first read_i in
      let (new, _) = serve-read_at C b.request (fresh C l []) y n h second read_j in
      let up = advances k l (omega arith) in omega arith
