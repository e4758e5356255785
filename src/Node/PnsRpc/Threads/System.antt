-- ===== src/Node/PnsRpc/Threads/System.antt =====
-- The server of node/src/pns_rpc.rs as a system of steps: the best block changes, a request
-- arrives, or one of the threads makes its next access to the client.
use paseo_node.Base.{ℕ, ◌+◌, ◌≡◌, refl, sym, List, [], ◌∷◌, ◌++◌}
use mathlib.Core.Logic.{ite}
use mathlib.Core.Path.{subst}
use native.Mathlib.Decide.{ℕ_discrete}
use paseo_node.Runtime.Pns.{PnsTypes}
use paseo_node.Node.PnsRpc.{ChainInfo, Call, Client, Request, Response}
use paseo_node.Node.PnsRpc.Threads.{Program, reads_info, calls_api, program}

abbrev pub update {ℓ} : {A : Type ℓ} → (ℕ → A) → ℕ → A → ℕ → A
update f i a j = ite (ℕ_discrete i j) a (f j)

pub chosen : {A : Type 0} (i : ℕ) (a b : A) (d : Dec (i ≡ i)) → ite d a b ≡ a
chosen i a b (yes same) = refl
chosen i a b (no other) = absurd (other refl)

pub passed_over : {A : Type 0} (i j : ℕ) (a b : A) (d : Dec (i ≡ j)) → ¬ (i ≡ j) → ite d a b ≡ b
passed_over i j a b (yes same) other = absurd (other same)
passed_over i j a b (no _) other = refl

-- A request that is handled: the number of changes of the best block when it arrived, the runtime
-- calls made so far, and what is left to do.
pub record Handling (RecordType : Type 0) : Type 0 where
  pub request : Request
  pub since : ℕ
  pub calls : List (Call RecordType)
  pub rest : Program RecordType Response

pub data Thread (RecordType : Type 0) : Type 0 where
  idle : Thread RecordType
  busy : Handling RecordType → Thread RecordType

abbrev pub handling :
    {RecordType : Type 0}
    → Request
    → ℕ
    → List (Call RecordType)
    → Program RecordType Response
    → Thread RecordType
handling req since log p = busy (record { request = req; since = since; calls = log; rest = p })

-- `head` counts the changes of the best block; `info head` of the client is the best block. There
-- is a thread for each request, at an index that no other request has.
pub record System (RecordType : Type 0) : Type 0 where
  pub head : ℕ
  pub thread : ℕ → Thread RecordType

module _ {T : PnsTypes} (C : Client T) where
  pub data Move (head : ℕ) : Thread T.RecordType → Thread T.RecordType → Type 0 where
    arrive : (req : Request) → Move head idle (handling req head [] (program C req))
    read :
        {req : Request} {since : ℕ} {log : List (Call T.RecordType)}
        {k : ChainInfo → Program T.RecordType Response}
        → Move head
            (handling req since log (reads_info k))
            (handling req since log (k (C.info head)))
    made :
        {req : Request} {since : ℕ} {log : List (Call T.RecordType)} {c : Call T.RecordType}
        {p : Program T.RecordType Response}
        → Move head
            (handling req since log (calls_api c p))
            (handling req since (log ++ (c ∷ [])) p)

  -- The state when thread `i` has become `q`.
  abbrev pub after : System T.RecordType → ℕ → Thread T.RecordType → System T.RecordType
  after s i q = record s { thread = update s.thread i q }

  pub data Step (s : System T.RecordType) : System T.RecordType → Type 0 where
    best_changes : Step s (record s { head = s.head + 1 })
    pick : (i : ℕ) {t : Thread T.RecordType} → Move s.head (s.thread i) t → Step s (after s i t)

  -- The steps from one state to another, in any order.
  pub data Steps (s : System T.RecordType) : System T.RecordType → Type 0 where
    none_yet : Steps s s
    later : {t u : System T.RecordType} → Steps s t → Step t u → Steps s u

  abbrev pub init : System T.RecordType
  init = record { head = 0; thread = λ _. idle }

  -- The states of a server that has been started.
  abbrev pub Reach : System T.RecordType → Type 0
  Reach s = Steps init s

  pub and_then : {s t u : System T.RecordType} → Steps s t → Steps t u → Steps s u
  and_then before none_yet = before
  and_then before (later after step) = later (and_then before after) step

  pub own_move :
      (s : System T.RecordType) (i : ℕ) (p q : Thread T.RecordType)
      → s.thread i ≡ p
      → Move s.head p q
      → Move s.head (s.thread i) q
  own_move s i p q there move = subst (λ p. Move s.head p q) (sym there) move
