-- ===== src/Node/PnsRpc/Threads/Progress.antt =====
-- A request to the server of node/src/pns_rpc.rs never waits for another.
use paseo_node.Base.{
  sym, ℕ, zero, suc, ◌+◌, ◌≤◌, ◌≡◌, refl, ◌∙◌, List, [], ◌∷◌, ◌++◌, arith, Result,
}
use mathlib.Core.Path.{subst}
use native.Mathlib.Decide.{ℕ_discrete}
use paseo_node.Runtime.Pns.{PnsTypes}
use paseo_node.Node.PnsRpc.{ErrorObject, Call, Client, Request, Response}
use paseo_node.Node.PnsRpc.Threads.{Program, finished, reads_info, calls_api}
use paseo_node.Node.PnsRpc.Threads.Within.{Within}
use paseo_node.Node.PnsRpc.Threads.Linear.{Reach-Within}
use paseo_node.Node.PnsRpc.Threads.System.{
  Handling, Thread, idle, busy, System, Move, arrive, read, made, Reach, Steps, none_yet, later,
  pick, and_then, after, own_move, handling, chosen, passed_over,
}

module _ {T : PnsTypes} (C : Client T) where
  -- So many moves of one thread, with nothing in between.
  pub data Turns (i : ℕ) : ℕ → System T.RecordType → System T.RecordType → Type 0 where
    no_turn : {s : System T.RecordType} → Turns i 0 s s
    turn :
        {s t : System T.RecordType} {n : ℕ} {p : Thread T.RecordType}
        → Move C s.head (s.thread i) p
        → Turns i n (after C s i p) t
        → Turns i (suc n) s t

  -- The request has its answer, by steps that change nothing but its thread.
  pub record Answered (i : ℕ) (req : Request) (s t : System T.RecordType) : Type 0 where
    pub steps : Steps C s t
    pub handled : Handling T.RecordType
    pub result : Result Response ErrorObject
    pub there : t.thread i ≡ busy handled
    pub done : handled.rest ≡ finished result
    pub same_request : handled.request ≡ req
    pub same_head : t.head ≡ s.head
    pub others : (j : ℕ) → ¬ (i ≡ j) → t.thread j ≡ s.thread j

  -- The request is answered after so many moves of its thread at most.
  abbrev pub AnswersWithin : ℕ → ℕ → Request → System T.RecordType → Type 0
  AnswersWithin m i req s =
      (n : ℕ) × (n ≤ m) × (t : System T.RecordType) × Turns i n s t × Answered i req s t

  turned :
      (m limit : ℕ) (s : System T.RecordType) (i : ℕ) (req : Request) (p q : Thread T.RecordType)
      → suc m ≤ limit
      → s.thread i ≡ p
      → Move C s.head p q
      → AnswersWithin m i req (after C s i q)
      → AnswersWithin limit i req s
  turned m limit s i req p q room there move (n, few, t, turns, answered) = (
    suc n,
    omega arith,
    t,
    turn (own_move C s i p q there move) turns,
    record {
      steps = and_then C (later none_yet (pick i (own_move C s i p q there move))) answered.steps;
      handled = answered.handled;
      result = answered.result;
      there = answered.there;
      done = answered.done;
      same_request = answered.same_request;
      same_head = answered.same_head;
      others = λ j other.
          answered.others j other ∙ passed_over i j q (s.thread j) (ℕ_discrete i j) other;
    },
  )

  finishes :
      (reads calls : ℕ) (s : System T.RecordType) (i : ℕ) (req : Request) (since : ℕ)
      (log : List (Call T.RecordType)) (p : Program T.RecordType Response)
      → s.thread i ≡ handling req since log p
      → Within reads calls p
      → AnswersWithin (reads + calls) i req s
  finishes reads calls s i req since log (finished r) there h = (
    0,
    omega arith,
    s,
    no_turn,
    record {
      steps = none_yet;
      handled = _;
      result = r;
      there = there;
      done = refl;
      same_request = refl;
      same_head = refl;
      others = λ j other. refl;
    },
  )
  finishes zero calls s i req since log (reads_info k) there h = absurd h
  finishes (suc reads) calls s i req since log (reads_info k) there h =
      let p = k (C.info s.head) in
      let q = handling req since log p in
      turned (reads + calls) _ s i req _ q (omega arith) there read (
        finishes reads calls _ i req since log p (chosen i q (s.thread i) (ℕ_discrete i i))
          (h (C.info s.head)))
  finishes reads zero s i req since log (calls_api c p) there h = absurd h
  finishes reads (suc calls) s i req since log (calls_api c p) there h =
      let q = handling req since (log ++ (c ∷ [])) p in
      turned (reads + calls) _ s i req _ q (omega arith) there made
        (finishes reads calls _ i req since _ p (chosen i q (s.thread i) (ℕ_discrete i i)) h)

  -- Steps from a state on, of which so many are moves of thread `i`.
  pub data Interleaved (i : ℕ) (s : System T.RecordType) : ℕ → System T.RecordType → Type 0 where
    no_step : Interleaved i s 0 s
    its_turn :
        {n : ℕ} {t : System T.RecordType} {q : Thread T.RecordType}
        → Interleaved i s n t
        → Move C t.head (t.thread i) q
        → Interleaved i s (n + 1) (after C t i q)
    other_turn :
        {n : ℕ} {t : System T.RecordType} {q : Thread T.RecordType}
        → Interleaved i s n t
        → (j : ℕ) → ¬ (j ≡ i)
        → Move C t.head (t.thread j) q
        → Interleaved i s n (after C t j q)
    change :
        {n : ℕ} {t : System T.RecordType}
        → Interleaved i s n t
        → Interleaved i s n (record t { head = t.head + 1 })

  -- A thread that has moved so often, and what it may still do.
  abbrev Left : ℕ → Request → Thread T.RecordType → Type 0
  Left n req idle = ⊥
  Left n req (busy h) =
      (h.request ≡ req)
      × (reads : ℕ) × (calls : ℕ) × Within reads calls h.rest
      × (n + (reads + calls) ≤ 2)

  Move-Left :
      (head n : ℕ) (req : Request) (p q : Thread T.RecordType)
      → Move C head p q
      → Left n req p
      → Left (n + 1) req q
  Move-Left head n req _ _ (arrive _) h = absurd h
  Move-Left head n req _ _ read (same, zero, calls, within, fits) = absurd within
  Move-Left head n req _ _ read (same, suc reads, calls, within, fits) =
      (same, reads, calls, within (C.info head), omega arith)
  Move-Left head n req _ _ made (same, reads, zero, within, fits) = absurd within
  Move-Left head n req _ _ made (same, reads, suc calls, within, fits) =
      (same, reads, calls, within, omega arith)

  Interleaved-Left :
      {i : ℕ} {s : System T.RecordType} (req : Request) {n : ℕ} {t : System T.RecordType}
      → Interleaved i s n t
      → Left 0 req (s.thread i)
      → Left n req (t.thread i)
  Interleaved-Left req no_step h = h
  Interleaved-Left {i} req (its_turn {n} {t} {q} before move) h =
      subst (Left (n + 1) req) (sym (chosen i q (t.thread i) (ℕ_discrete i i)))
        (Move-Left t.head n req _ q move (Interleaved-Left req before h))
  Interleaved-Left {i} req (other_turn {n} {t} {q} before j other move) h =
      subst (Left n req) (sym (passed_over j i q (t.thread i) (ℕ_discrete j i) other))
        (Interleaved-Left req before h)
  Interleaved-Left req (change before) h = Interleaved-Left req before h

  answers_left :
      (n : ℕ) (t : System T.RecordType) (i : ℕ) (req : Request) (p : Thread T.RecordType)
      → t.thread i ≡ p
      → Left n req p
      → (m : ℕ) × (n + m ≤ 2) × AnswersWithin m i req t
  answers_left n t i req idle there h = absurd h
  answers_left n t i req (busy h) there (same, reads, calls, within, fits) = (
    reads + calls,
    fits,
    subst (λ r. AnswersWithin (reads + calls) i r t) same
        (finishes reads calls t i h.request h.since h.calls h.rest there within),
  )

  -- A request that has arrived in a state that the server reaches is never held up: after any
  -- steps in which its own thread has made so many accesses to the client, these are two at most,
  -- and it gets its answer by as many further accesses of its own as are missing to two, at most,
  -- whatever the other threads are at: they need not move, the best block need not change, and they
  -- are left as they are.
  pub wait_free :
      {s : System T.RecordType}
      → Reach C s
      → (i : ℕ) (h : Handling T.RecordType) → s.thread i ≡ busy h
      → {n : ℕ} {t : System T.RecordType} → Interleaved i s n t
      → (m : ℕ) × (n + m ≤ 2) × AnswersWithin m i h.request t
  wait_free {s} steps i h there {n} {t} between = answers_left n t i h.request _ refl (
      Interleaved-Left h.request between (
        subst (Left 0 h.request) (sym there)
          (refl, 1, 1, Reach-Within C steps i h there, omega arith)))
