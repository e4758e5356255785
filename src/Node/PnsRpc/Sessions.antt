-- ===== src/Node/PnsRpc/Sessions.antt =====
-- Requests to the methods of node/src/pns_rpc.rs one after another, while the best block changes.
use paseo_node.Base.{
  ℕ, ◌+◌, ◌≤◌, ◌≡◌, refl, ap, sym, inl, inr, Option, none, some, List, [], ◌∷◌, arith, Result, ok,
  err, if◌then◌else◌, Bool-cases, All, All-map_of,
}
use mathlib.Core.Path.{subst}
use paseo_node.Runtime.Types.{BlockNumber, Hash}
use paseo_node.Runtime.Pns.{PnsTypes}
use paseo_node.Node.PnsRpc.{ErrorObject, Client, World, Request, Response, serve}
use paseo_node.Node.PnsRpc.Laws.{
  is_oversized, read_at, serve_oversized, serve_effects, serve-read_at,
}

abbrev pub Ascending : List ℕ → Type 0
Ascending [] = Unit
Ascending (n ∷ ns) = All (λ m. n ≤ m) ns × Ascending ns

-- The number of the requests that are within the limits.
abbrev pub within_limits : List Request → ℕ
within_limits [] = 0
within_limits (req ∷ reqs) = if is_oversized req then within_limits reqs else within_limits reqs + 1

-- The number of the block that an answer says it was read at, in front of others.
abbrev numbered : Option (BlockNumber × Hash) → List BlockNumber → List BlockNumber
numbered none ns = ns
numbered (some (n, h)) ns = n ∷ ns

abbrev stamp : Result Response ErrorObject → List BlockNumber → List BlockNumber
stamp (err e) ns = ns
stamp (ok response) ns = numbered (read_at response) ns

-- The block numbers in the answers, in the order of the requests.
abbrev pub stamps : List (Result Response ErrorObject) → List BlockNumber
stamps [] = []
stamps (r ∷ rs) = stamp r (stamps rs)

numbered-Ascending :
    (o : Option (BlockNumber × Hash)) (b : BlockNumber) (ns : List BlockNumber)
    → ((n : BlockNumber) (h : Hash) → o ≡ some (n, h) → n ≡ b)
    → All (λ n. b ≤ n) ns
    → Ascending ns
    → All (λ n. b ≤ n) (numbered o ns) × Ascending (numbered o ns)
numbered-Ascending none b ns own later sorted = (later, sorted)
numbered-Ascending (some (n, h)) b ns own later sorted =
    subst (λ m. All (λ k. b ≤ k) (m ∷ ns) × Ascending (m ∷ ns)) (sym (own n h refl))
      ((omega arith, later), (later, sorted))

stamp-Ascending :
    (r : Result Response ErrorObject) (b : BlockNumber) (ns : List BlockNumber)
    → ((response : Response) (n : BlockNumber) (h : Hash)
        → r ≡ ok response
        → read_at response ≡ some (n, h)
        → n ≡ b)
    → All (λ n. b ≤ n) ns
    → Ascending ns
    → All (λ n. b ≤ n) (stamp r ns) × Ascending (stamp r ns)
stamp-Ascending (err e) b ns own later sorted = (later, sorted)
stamp-Ascending (ok response) b ns own later sorted =
    numbered-Ascending (read_at response) b ns (λ n h. own response n h refl) later sorted

module _ {T : PnsTypes} (C : Client T) where
  -- The requests in turn, and the world that they leave.
  unfoldable pub session : List Request → World C → List (Result Response ErrorObject) × World C
  session [] w = ([], w)
  session (req ∷ reqs) w =
      let (r, after) = serve C req w in let (rs, last) = session reqs after in (r ∷ rs, last)

  serve-reads :
      (req : Request) (w : World C)
      → (serve C req w).1.reads ≡ (if is_oversized req then w.reads else w.reads + 1)
  serve-reads req w = elim (Bool-cases (is_oversized req)) [
    | inl over ↦
        let (e, _, same) = serve_oversized C req w over in rw over (ap (λ r. r.1.reads) same)
    | inr within ↦ rw within (ap (λ (v : World C). v.reads) (serve_effects C req w within).0)
  ]

  session-reads :
      (reqs : List Request) (w : World C) → (session reqs w).1.reads ≡ w.reads + within_limits reqs
  unfolding session
  session-reads [] w = omega arith
  session-reads (req ∷ reqs) w =
      let rest = session-reads reqs (serve C req w).1 in
      let first = serve-reads req w in ground arith

  -- However the best block changes, as long as its number does not fall, the block numbers in
  -- the answers to a session do not fall either, and none is below that of the block which was the
  -- best at the start. The session reads the best block once for each request within the limits.
  pub session-Ascending :
      ((i j : ℕ) → i ≤ j → (C.info i).best_number ≤ (C.info j).best_number)
      → (reqs : List Request) (w : World C)
      → All (λ n. (C.info w.reads).best_number ≤ n) (stamps (session reqs w).0)
        × Ascending (stamps (session reqs w).0)
        × ((session reqs w).1.reads ≡ w.reads + within_limits reqs)
  unfolding session
  session-Ascending advances [] w = (tt, tt, omega arith)
  session-Ascending advances (req ∷ reqs) w =
      let after = (serve C req w).1 in
      let (later, sorted, _) = session-Ascending advances reqs after in
      let grown : w.reads ≤ after.reads = let first = serve-reads req w in ground arith in
      let (all, ascending) =
        stamp-Ascending (serve C req w).0 (C.info w.reads).best_number
          (stamps (session reqs after).0)
          (λ response n h e at. (serve-read_at C req w response n h e at).0)
          (All-map_of _ _ (stamps (session reqs after).0)
            (λ n h. let up = advances w.reads after.reads grown in omega arith) later)
          sorted in
      (all, ascending, session-reads (req ∷ reqs) w)
