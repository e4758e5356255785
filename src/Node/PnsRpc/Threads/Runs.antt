-- ===== src/Node/PnsRpc/Threads/Runs.antt =====
-- A program that nothing interrupts is the method of node/src/pns_rpc.rs.
use paseo_node.Base.{
  ℕ, ◌+◌, ◌≡◌, refl, ap, ◌∙◌, true, false, List, [], ◌∷◌, ◌++◌, length, ltb, map, Result, ok, err,
  Bytes, Bool,
}
use paseo_node.Runtime.Pns.{PnsTypes}
use paseo_node.Runtime.Types.{DomainHash}
use Prim.Native.String.{String}
use paseo_node.Node.PnsRpc
use paseo_node.Node.PnsRpc.{
  ChainInfo, ErrorObject, Client, World, M, Call, next, Request, pns_get_info, pns_resolve_name,
  pns_lookup, pns_get_listing, pns_lookup_by_name, Response, name_record, records, listing, serve,
  to_record_type,
}
use paseo_node.Node.PnsRpc.Threads
use paseo_node.Node.PnsRpc.Threads.{
  Program, finished, reads_info, calls_api, program, bind, reject_if, return, runtime_call,
}

module _ {T : PnsTypes} (C : Client T) where
  -- The program from start to end, with nothing in between.
  unfoldable pub run :
      {R : Type 0} → Program T.RecordType R → World C → Result R ErrorObject × World C
  run (finished r) w = (r, w)
  run (reads_info k) w = run (k (C.info w.reads)) (record w { reads = w.reads + 1 })
  run (calls_api c p) w = run p (record w { calls = w.calls ++ (c ∷ []) })

  run-bind :
      {A B : Type 0} (p : Program T.RecordType A) (f : A → Program T.RecordType B) (w : World C)
      → run (bind p f) w ≡ next C (run p w) (λ a. run (f a))
  unfolding run bind
  run-bind (finished (ok a)) f w = refl
  run-bind (finished (err e)) f w = refl
  run-bind (reads_info k) f w = run-bind (k (C.info w.reads)) f _
  run-bind (calls_api c p) f w = run-bind p f _

  run-guarded :
      {A : Type 0} (b : Bool) (message : String) (p : Program T.RecordType A) (m : M C A)
      (w : World C)
      → run p w ≡ m w
      → run (bind (reject_if C b message) (λ u. p)) w
        ≡ next C (PnsRpc.reject_if C b message w) (λ u. m)
  unfolding run bind
  run-guarded true message p m w e = refl
  run-guarded false message p m w e = e

  run-query :
      {A B : Type 0} (c : Call T.RecordType) (r : Result A C.ApiError) (f : A → B) (w : World C)
      → run (bind (runtime_call C c r) (λ a. return C (f a))) w
        ≡ next C (PnsRpc.runtime_call C c r w) (λ a. PnsRpc.return C (f a))
  unfolding run bind
  run-query c (ok a) f w = refl
  run-query c (err e) f w = refl

  run-get_info :
      (node : DomainHash) (w : World C) → run (Threads.get_info C node) w ≡ PnsRpc.get_info C node w
  unfolding run bind Threads.get_info PnsRpc.get_info
  run-get_info node w =
      let chain = C.info w.reads in run-query _ (C.api_get_info chain.best_hash node) _ _

  run-resolve_name :
      (name : Bytes) (w : World C)
      → run (Threads.resolve_name C name) w ≡ PnsRpc.resolve_name C name w
  unfolding run bind Threads.resolve_name PnsRpc.resolve_name
  run-resolve_name name w =
      let chain = C.info w.reads in
      run-guarded (ltb 128 (length name)) _ _ _ w
        (run-query _ (C.api_resolve_name chain.best_hash name) _ _)

  run-lookup :
      (node : DomainHash) (codes : List ℕ) (w : World C)
      → run (Threads.lookup C node codes) w ≡ PnsRpc.lookup C node codes w
  unfolding run bind Threads.lookup PnsRpc.lookup
  run-lookup node codes w =
      let chain = C.info w.reads in
      run-guarded (ltb 50 (length codes)) _ _ _ w
        (run-query _ (C.api_lookup chain.best_hash node (map (to_record_type C) codes)) _ _)

  run-get_listing :
      (name : Bytes) (w : World C)
      → run (Threads.get_listing C name) w ≡ PnsRpc.get_listing C name w
  unfolding run bind Threads.get_listing PnsRpc.get_listing
  run-get_listing name w =
      let chain = C.info w.reads in
      run-guarded (ltb 128 (length name)) _ _ _ w
        (run-query _ (C.api_get_listing chain.best_hash name) _ _)

  run-lookup_by_name :
      (name : Bytes) (codes : List ℕ) (w : World C)
      → run (Threads.lookup_by_name C name codes) w ≡ PnsRpc.lookup_by_name C name codes w
  unfolding run bind Threads.lookup_by_name PnsRpc.lookup_by_name
  run-lookup_by_name name codes w =
      let chain = C.info w.reads in
      run-guarded (ltb 128 (length name)) _ _ _ w (
        run-guarded (ltb 50 (length codes)) _ _ _ w (
          run-query _ (C.api_lookup_by_name chain.best_hash name (map (to_record_type C) codes)) _
            _))

  run-answer :
      {A : Type 0} (f : A → Response) (p : Program T.RecordType A) (m : M C A) (w : World C)
      → run p w ≡ m w
      → run (bind p (λ a. return C (f a))) w ≡ next C (m w) (λ a. PnsRpc.return C (f a))
  unfolding run
  run-answer f p m w e = run-bind p _ w ∙ ap (λ r. next C r (λ a. PnsRpc.return C (f a))) e

  -- A program that nothing interrupts returns what `serve` returns, and leaves the world that
  -- `serve` leaves.
  pub run-program : (req : Request) (w : World C) → run (program C req) w ≡ serve C req w
  unfolding program serve
  run-program (pns_get_info node) w =
      run-answer name_record _ (PnsRpc.get_info C node) w (run-get_info node w)
  run-program (pns_resolve_name name) w =
      run-answer name_record _ (PnsRpc.resolve_name C name) w (run-resolve_name name w)
  run-program (pns_lookup node codes) w =
      run-answer records _ (PnsRpc.lookup C node codes) w (run-lookup node codes w)
  run-program (pns_get_listing name) w =
      run-answer listing _ (PnsRpc.get_listing C name) w (run-get_listing name w)
  run-program (pns_lookup_by_name name codes) w =
      run-answer records _ (PnsRpc.lookup_by_name C name codes) w (run-lookup_by_name name codes w)
