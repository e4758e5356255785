-- ===== src/Node/PnsRpc/Threads/Keeps.antt =====
-- What the steps of the server of node/src/pns_rpc.rs keep of a thread.
use paseo_node.Base.{ℕ, ◌+◌, ◌≡◌, sym}
use mathlib.Core.Path.{subst}
use mathlib.Core.Logic.{ite}
use native.Mathlib.Decide.{ℕ_discrete}
use paseo_node.Runtime.Pns.{PnsTypes}
use paseo_node.Node.PnsRpc.{Client}
use paseo_node.Node.PnsRpc.Threads.System.{
  Thread, System, Move, best_changes, pick, Steps, none_yet, later,
}

module _ {T : PnsTypes} (C : Client T) where
  -- A property of a thread that its own moves and the changes of the best block keep.
  module _ (Q : ℕ → Thread T.RecordType → Type 0)
      (moves : (head : ℕ) (p q : Thread T.RecordType) → Move C head p q → Q head p → Q head q)
      (changes : (head : ℕ) (p : Thread T.RecordType) → Q head p → Q (head + 1) p) where
    chosen-keeps :
        {head i j : ℕ} (f : ℕ → Thread T.RecordType) {q : Thread T.RecordType} (d : Dec (i ≡ j))
        → Move C head (f i) q
        → Q head (f j)
        → Q head (ite d q (f j))
    chosen-keeps {head} f (yes same) move kept =
        moves head _ _ move (subst (λ k. Q head (f k)) (sym same) kept)
    chosen-keeps f (no other) move kept = kept

    pub Steps-keep :
        {s t : System T.RecordType}
        → Steps C s t
        → (j : ℕ) → Q s.head (s.thread j)
        → Q t.head (t.thread j)
    Steps-keep none_yet j kept = kept
    Steps-keep (later before best_changes) j kept = changes _ _ (Steps-keep before j kept)
    Steps-keep (later {t} before (pick i move)) j kept =
        chosen-keeps t.thread (ℕ_discrete i j) move (Steps-keep before j kept)
