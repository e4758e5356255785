-- ===== src/Examples/Threads.antt =====
-- Requests for a name that are handled at the same time while the best block changes.
use paseo_node.Base.{
  ◌+◌, Bytes, ℕ, ◌≤◌, ◌≡◌, refl, List, [], ◌∷◌, codes, ok, some, none, Option, replicate,
}
use mathlib.Core.List.{foldl}
use native.Mathlib.Decide.{ℕ_discrete}
use paseo_node.Runtime.Pns
use paseo_node.Runtime.Pns.{NameRecord}
use paseo_node.Node.PnsRpc.{
  stamp_name, Request, pns_resolve_name, pns_get_listing, name_record, serve, Response, Call,
  resolve_name_at,
}
use paseo_node.Node.PnsRpc.Threads
use paseo_node.Node.PnsRpc.Threads.{Program, program, bind, finished, reads_info, calls_api}
use paseo_node.Node.PnsRpc.Threads.Names.{HasAnswered, found_while_best}
use paseo_node.Runtime.Pns.Laws.{IsResolved}
use paseo_node.Node.PnsRpc.Threads.System.{
  Handling, Thread, idle, busy, System, Move, arrive, read, made, best_changes, pick, none_yet,
  later, Steps, init,
}
use paseo_node.Node.PnsRpc.Threads.Linear.{linearizable}
use paseo_node.Node.PnsRpc.Threads.RealTime.{real_time}
use paseo_node.Node.PnsRpc.Threads.Progress.{
  AnswersWithin, Interleaved, no_step, its_turn, change, wait_free,
}
use paseo_node.Examples.Names.{toy}
use paseo_node.Examples.Rpc.{
  client, blocks, blocks_advance, sold_at_0, storage_at, client-RunsRuntime,
}

-- What happens next: a request arrives at a thread that is idle, a thread moves, or the best block
-- changes.
data Event : Type 0 where
  arrival : ℕ → Request → Event
  turn : ℕ → Event
  import : Event

record Run (s : System ℕ) : Type 0 where
  last : System ℕ
  open last use *
  steps : Steps client s last

next_access :
    (head : ℕ) (req : Request) (since : ℕ) (log : List (Call ℕ)) (p : Program ℕ Response)
    → Option (
        (q : Thread ℕ) × Move client head
          (busy (record { request = req; since = since; calls = log; rest = p }))
          q)
next_access head req since log (finished r) = none
next_access head req since log (reads_info k) = some (_, read)
next_access head req since log (calls_api c p) = some (_, made)

next_move : (head : ℕ) (p : Thread ℕ) → Option ((q : Thread ℕ) × Move client head p q)
unfolding next_access
next_move head idle = none
next_move head (busy h) = next_access head h.request h.since h.calls h.rest

start_move :
    (head : ℕ) (req : Request) (p : Thread ℕ) → Option ((q : Thread ℕ) × Move client head p q)
start_move head req idle = some (_, arrive req)
start_move head req (busy h) = none

moved :
    {s : System ℕ} (r : Run s) (i : ℕ)
    → Option ((q : Thread ℕ) × Move client r.head (r.thread i) q)
    → Run s
moved r i none = r
moved r i (some (q, move)) = record { last = _; steps = later r.steps (pick i move) }

happen : {s : System ℕ} → Run s → Event → Run s
unfolding moved next_move start_move
happen r (arrival i req) = moved r i (start_move r.head req (r.thread i))
happen r (turn i) = moved r i (next_move r.head (r.thread i))
happen r import = record { last = _; steps = later r.steps best_changes }

unfoldable schedule : (s : System ℕ) → List Event → Run s
unfolding happen
schedule s = foldl happen (record { last = _; steps = none_yet })

abbrev resolve : Request
resolve = pns_resolve_name (codes "sold")

-- The first request reads block 0, the best block changes, and it is answered.
abbrev answered : Run (init client)
answered = schedule _ (
    arrival 0 resolve
    ∷ turn 0
    ∷ arrival 1 (pns_get_listing (replicate 129 b'a'))
    ∷ import
    ∷ turn 0
    ∷ [])

-- What the first thread is left with: the record, read at block 0, and the call at its hash.
abbrev first_answer : Handling ℕ
first_answer = record {
  request = resolve;
  since = 0;
  calls = resolve_name_at (0 ∷ []) (codes "sold") ∷ [];
  rest = finished (ok (name_record (some sold_at_0)));
}

first_answered : answered.thread 0 ≡ busy first_answer
unfolding schedule program bind Threads.resolve_name Pns.resolve_name ℕ_discrete
first_answered = refl

linearizable_example :
    (n : ℕ) × (0 ≤ n)
    × (n ≤ answered.head)
    × ((serve client resolve (record { reads = n; calls = [] })).0
        ≡ ok (name_record (some sold_at_0)))
    × ((serve client resolve (record { reads = n; calls = [] })).1.calls ≡ first_answer.calls)
linearizable_example =
    linearizable client answered.steps 0 first_answer (ok (name_record (some sold_at_0)))
      first_answered refl

-- A third request, after the first was answered: it reads block 1.
abbrev answered_again : Run answered.last
answered_again = schedule _ (arrival 2 resolve ∷ turn 2 ∷ turn 2 ∷ [])

abbrev sold_at_1 : NameRecord
sold_at_1 = record sold_at_0 { read_block_number = 41; read_block_hash = 1 ∷ [] }

abbrev third_answer : Handling ℕ
third_answer = record {
  request = resolve;
  since = 1;
  calls = resolve_name_at (1 ∷ []) (codes "sold") ∷ [];
  rest = finished (ok (name_record (some sold_at_1)));
}

third_idle : answered.thread 2 ≡ idle
unfolding schedule program bind Threads.resolve_name Pns.resolve_name ℕ_discrete
third_idle = refl

third_answered : answered_again.thread 2 ≡ busy third_answer
unfolding schedule program bind Threads.resolve_name Pns.resolve_name ℕ_discrete
third_answered = refl

real_time_example : 40 ≤ 41
real_time_example =
    real_time client blocks_advance answered.steps answered_again.steps 0 2 first_answer
      third_answer (name_record (some sold_at_0)) (name_record (some sold_at_1)) 40 41 (0 ∷ [])
      (1 ∷ []) first_answered refl refl third_idle third_answered refl refl

-- The first request has just arrived.
abbrev arrived : Run (init client)
arrived = schedule _ (arrival 0 resolve ∷ [])

abbrev first_arrival : Handling ℕ
first_arrival = record { request = resolve; since = 0; calls = []; rest = program client resolve }

first_arrived : arrived.thread 0 ≡ busy first_arrival
unfolding schedule ℕ_discrete
first_arrived = refl

-- The best block changes, and it reads it.
has_read : (t : System ℕ) × Interleaved client 0 arrived.last 1 t
unfolding schedule program bind Threads.resolve_name ℕ_discrete
has_read = (_, its_turn (change no_step) read)

wait_free_example : (m : ℕ) × (1 + m ≤ 2) × AnswersWithin client m 0 resolve (has_read.0)
wait_free_example = wait_free client arrived.steps 0 first_arrival first_arrived has_read.1

first-HasAnswered :
    HasAnswered client storage_at client-RunsRuntime answered.last 0 first_answer resolve
      (name_record (some sold_at_0))
first-HasAnswered = (first_answered, refl, refl)

found_while_best_example :
    (n : ℕ) × (0 ≤ n)
    × (n ≤ answered.head)
    × (l : Bytes × ℕ) × (r0 : NameRecord) × (toy.new_with_len (codes "sold") ≡ some l)
    × IsResolved toy
        (storage_at sold_at_0.read_block_hash)
        (toy.encode_with_node l.0 toy.native_basenode)
        r0
    × (sold_at_0 ≡ stamp_name client (blocks n) r0)
found_while_best_example =
    found_while_best client storage_at client-RunsRuntime answered.steps 0 first_answer
      (codes "sold") sold_at_0 first-HasAnswered
