-- ===== src/Node/PnsRpc/Threads/Linear.antt =====
-- Requests that the server of node/src/pns_rpc.rs handles at the same time.
use paseo_node.Base.{ℕ, ◌+◌, ◌≤◌, ◌≡◌, ap, ◌∙◌, sym, inl, inr, ◌⊎◌, List, [], arith, Result}
use mathlib.Core.Path.{subst}
use paseo_node.Runtime.Pns.{PnsTypes}
use paseo_node.Node.PnsRpc.{ErrorObject, Call, Client, World, Response, serve}
use paseo_node.Node.PnsRpc.Threads.{finished}
use paseo_node.Node.PnsRpc.Threads.Runs.{run, run-program}
use paseo_node.Node.PnsRpc.Threads.Within.{Within, Within-suc, Within-reads, program-Within}
use paseo_node.Node.PnsRpc.Threads.System.{
  Handling, Thread, idle, busy, System, Move, arrive, read, made, Reach,
}
use paseo_node.Node.PnsRpc.Threads.Keeps.{Steps-keep}

module _ {T : PnsTypes} (C : Client T) where
  abbrev pub fresh : ℕ → List (Call T.RecordType) → World C
  fresh reads calls = record { reads = reads; calls = calls }

  -- Finishing the request at a block, from where it is, is serving it there.
  abbrev Finishes : Handling T.RecordType → (left n : ℕ) → Type 0
  Finishes h left n = run C h.rest (fresh left h.calls) ≡ serve C h.request (fresh n [])

  -- Before the read any block will do, after it the block that was read.
  abbrev Served : ℕ → Thread T.RecordType → Type 0
  Served head idle = Unit
  Served head (busy h) =
      (h.since ≤ head)
      × ((Within 1 1 h.rest × ((n : ℕ) → Finishes h n n))
          ⊎ (Within 0 1 h.rest × (n : ℕ) × (h.since ≤ n) × (n ≤ head) × Finishes h (n + 1) n))

  Move-Served :
      (head : ℕ) (p q : Thread T.RecordType) → Move C head p q → Served head p → Served head q
  unfolding run
  Move-Served head _ _ (arrive req) h =
      (omega arith, inl (program-Within C req, λ n. run-program C req (fresh n [])))
  Move-Served head _ _ read (since, inl (within, same)) =
      (since, inr (within (C.info head), head, since, omega arith, same head))
  Move-Served head _ _ read (since, inr (within, _, _, _, _)) = absurd within
  Move-Served head _ _ (made {p}) (since, inl (within, same)) =
      (since, inl (Within-suc 1 0 p within, same))
  Move-Served head _ _ (made {p}) (since, inr (within, n, arrived, seen, same)) =
      (since, inr (Within-suc 0 0 p within, n, arrived, seen, same))

  later-Served : (head : ℕ) (p : Thread T.RecordType) → Served head p → Served (head + 1) p
  later-Served head idle h = tt
  later-Served head (busy h) (since, inl unread) = (omega arith, inl unread)
  later-Served head (busy h) (since, inr (within, n, arrived, seen, same)) =
      (omega arith, inr (within, n, arrived, omega arith, same))

  Reach-Served : {s : System T.RecordType} → Reach C s → (i : ℕ) → Served s.head (s.thread i)
  Reach-Served steps i = Steps-keep C Served Move-Served later-Served steps i tt

  settled :
      (h : Handling T.RecordType) (r : Result Response ErrorObject) (left n : ℕ)
      → h.rest ≡ finished r
      → Finishes h left n
      → serve C h.request (fresh n []) ≡ (r, fresh left h.calls)
  unfolding run
  settled h r left n done same = sym same ∙ ap (λ p. run C p (fresh left h.calls)) done

  -- In a state that the server reaches, however the requests and the changes of the best block
  -- were interleaved, the answer to a finished request is the one that `serve` gives at a single
  -- block, which was the best one at some time between the request's arrival and now, and the
  -- runtime calls that it made are those that `serve` makes there.
  pub linearizable :
      {s : System T.RecordType}
      → Reach C s
      → (i : ℕ) (h : Handling T.RecordType) (r : Result Response ErrorObject) → s.thread i ≡ busy h
      → h.rest ≡ finished r
      → (n : ℕ) × (h.since ≤ n)
        × (n ≤ s.head)
        × ((serve C h.request (fresh n [])).0 ≡ r)
        × ((serve C h.request (fresh n [])).1.calls ≡ h.calls)
  linearizable {s} steps i h r there done =
      let (since, served) = subst (Served s.head) there (Reach-Served steps i) in
      elim served [
        | inl (_, same) ↦
            let e = settled h r s.head s.head done (same s.head) in
            (s.head, since, omega arith, ap (λ x. x.0) e, ap (λ x. x.1.calls) e)
        | inr (_, n, arrived, seen, same) ↦
            let e = settled h r (n + 1) n done same in
            (n, arrived, seen, ap (λ x. x.0) e, ap (λ x. x.1.calls) e)
      ]

  -- What a request has left to do: one read and one runtime call at most.
  pub Reach-Within :
      {s : System T.RecordType}
      → Reach C s
      → (i : ℕ) (h : Handling T.RecordType) → s.thread i ≡ busy h
      → Within 1 1 h.rest
  Reach-Within {s} steps i h there = elim (subst (Served s.head) there (Reach-Served steps i)).1 [
    | inl (within, _) ↦ within
    | inr (within, _, _, _, _) ↦ Within-reads 0 1 h.rest within
  ]
