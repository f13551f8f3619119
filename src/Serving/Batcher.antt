-- ===== src/Serving/Batcher.antt =====
-- `BatcherProcess` of service.py: `board_prefills`, `board_decodes`, `board_flights` and the handling of one
-- message in `run`. The sets of pending requests are lists in the order in which they are
-- iterated. What a launched flight does is in Executor; here a flight is the list of its requests.
pub mod Loops
pub mod Flights
pub mod Strobes
pub mod Laws
pub mod Served
pub mod Allocated
use shark_platform.Prelude.{
  ℕ, zero, suc, ◌+◌, Bool, true, false, ◌&&◌, Option, none, some, List, [], ◌∷◌, ◌++◌, length, ltb,
  ◌==◌, if◌then◌else◌,
}
use shark_platform.Prelude.Exec.{
  Exec, Error, Result, ok, err, pure, raise, update, ◌>>=◌, ◌>>◌, cache_allocation_failure,
  assertion_error, attribute_error,
}
use shark_platform.Serving.Requests.{InferencePhase, prefill, decode}

-- What the batcher calls of a cache, whose allocations are numbered.
pub record CacheOps (S : Type 0) : Type 0 where
  pub acquire_pages_for_tokens : List ℕ → ℕ → Exec S ℕ
  pub extend_allocation : ℕ → List ℕ → ℕ → Exec S (Unit {0})
  pub release_pages : ℕ → S → S

-- A pending request; `rid` tells the objects apart.
pub record Pending : Type 0 where
  pub rid : ℕ
  pub phase : InferencePhase
  pub input_token_ids : List ℕ
  pub allocation : Option ℕ

pub data Message : Type 0 where
  exec_request : Pending → Message
  strobe_message : Message

-- The loop over the pending requests: who has boarded, who is left, and what it raised.
pub record Boarding (S : Type 0) : Type 0 where
  pub boarded : List Pending
  pub left : List Pending
  pub cache : S
  pub failure : Option Error

-- `killed` are the requests that are set done without an execution.
pub record Batcher (S : Type 0) : Type 0 where
  pub cache : S
  pub pending_prefills : List Pending
  pub pending_decodes : List Pending
  pub strobes : ℕ
  pub flights : List (List Pending)
  pub killed : List Pending

abbrev pub is_prefill : InferencePhase → Bool
is_prefill prefill = true
is_prefill decode = false

abbrev pub is_cache_failure : Error → Bool
is_cache_failure cache_allocation_failure = true
is_cache_failure _ = false

module _ {S : Type 0} where
  abbrev pub halt : List Pending → S → Option Error → Boarding S
  halt rs c failure = record { boarded = []; left = rs; cache = c; failure = failure }

  abbrev pub keep : Pending → Boarding S → Boarding S
  keep r b = record b { left = r ∷ b.left }

  abbrev pub board : Pending → Boarding S → Boarding S
  board r b = record b { boarded = r ∷ b.boarded }

module _ {S : Type 0} (ops : CacheOps S) where
  abbrev pub free_cache_pages : Pending → S → S
  free_cache_pages r c = elim r.allocation [ none ↦ c | some a ↦ ops.release_pages a c ]

  -- A refused prefill is left, with as much room as before.
  unfoldable pub prefill_one :
      Pending → List Pending → Result ℕ × S → (S → Boarding S) → (S → Boarding S) → Boarding S
  prefill_one r rs (ok a, c) again onward =
      board (record r { allocation = some a }) (onward (free_cache_pages r c))
  prefill_one r rs (err e, c) again onward =
      let passed = keep r (again c) in
      if is_cache_failure e then passed else halt (r ∷ rs) c (some e)

  -- `room` is `ideal_batch_size - len(exec_requests)`.
  unfoldable pub prefill_loop : ℕ → List Pending → S → Boarding S
  prefill_loop room [] c = halt [] c none
  prefill_loop zero (r ∷ rs) c =
      halt (r ∷ rs) c (if is_prefill r.phase then none else some assertion_error)
  prefill_loop (suc room) (r ∷ rs) c =
      let taken =
        prefill_one r rs (ops.acquire_pages_for_tokens r.input_token_ids 0 c)
          (prefill_loop (suc room) rs) (prefill_loop room rs) in
      if is_prefill r.phase then taken else halt (r ∷ rs) c (some assertion_error)

  unfoldable pub decode_one :
      Pending → List Pending → Result (Unit {0}) × S → (S → Boarding S) → Boarding S
  decode_one r rs (ok u, c) onward = board r (onward c)
  decode_one r rs (err e, c) onward = halt (r ∷ rs) c (some e)

  unfoldable pub extend_one : Pending → List Pending → Option ℕ → S → (S → Boarding S) → Boarding S
  extend_one r rs none c onward = halt (r ∷ rs) c (some attribute_error)
  extend_one r rs (some a) c onward =
      decode_one r rs (ops.extend_allocation a r.input_token_ids 1 c) onward

  unfoldable pub boarding_decodes : ℕ → List Pending → S → Boarding S
  boarding_decodes room [] c = halt [] c none
  boarding_decodes zero (r ∷ rs) c =
      halt (r ∷ rs) c (if is_prefill r.phase then some assertion_error else none)
  boarding_decodes (suc room) (r ∷ rs) c =
      let taken = extend_one r rs r.allocation c (boarding_decodes room rs) in
      if is_prefill r.phase then halt (r ∷ rs) c (some assertion_error) else taken

-- A flight is launched if anyone has boarded.
abbrev pub launch : List Pending → List (List Pending) → List (List Pending)
launch [] flights = flights
launch (r ∷ rs) flights = (r ∷ rs) ∷ flights

module _ {S : Type 0} where
  -- An exception leaves the loop before anyone is removed from the pending requests.
  unfoldable pub take_off_prefills : Boarding S → Exec (Batcher S) (Unit {0})
  take_off_prefills b s = elim b.failure [
    | none ↦ (
      ok tt,
      record s { cache = b.cache; pending_prefills = b.left; flights = launch b.boarded s.flights },
    )
    | some e ↦ (err e, record s { cache = b.cache; pending_prefills = b.boarded ++ b.left })
  ]

  unfoldable pub take_off_decodes : Boarding S → Exec (Batcher S) (Unit {0})
  take_off_decodes b s = elim b.failure [
    | none ↦ (
      ok tt,
      record s { cache = b.cache; pending_decodes = b.left; flights = launch b.boarded s.flights },
    )
    | some e ↦ (err e, record s { cache = b.cache; pending_decodes = b.boarded ++ b.left })
  ]

-- The pending prefills that did not board are set done.
abbrev pub kill_left : {S : Type 0} → Batcher S → Batcher S
kill_left s = record s { killed = s.pending_prefills ++ s.killed; pending_prefills = [] }

-- set.add
abbrev pub add_pending : Pending → List Pending → List Pending
add_pending r [] = r ∷ []
add_pending r (x ∷ xs) = if x.rid == r.rid then x ∷ xs else x ∷ add_pending r xs

-- What a message changes before the flights are boarded.
unfoldable pub receive : {S : Type 0} → Message → Batcher S → Batcher S
receive strobe_message s = record s { strobes = suc s.strobes }
receive (exec_request r) s =
    if is_prefill r.phase
    then record s { pending_prefills = add_pending r s.pending_prefills }
    else record s { pending_decodes = add_pending r s.pending_decodes }

module _ {S : Type 0} (ops : CacheOps S) where
  module _ (ideal_batch_size : ℕ) where
    -- With nothing pending the loop is empty and nothing is launched.
    unfoldable pub board_prefills : Exec (Batcher S) (Unit {0})
    board_prefills s =
        take_off_prefills (prefill_loop ops ideal_batch_size s.pending_prefills s.cache) s

    unfoldable pub board_decodes : Exec (Batcher S) (Unit {0})
    board_decodes s =
        take_off_decodes (boarding_decodes ops ideal_batch_size s.pending_decodes s.cache) s

    unfoldable pub flight : Exec (Batcher S) (Unit {0})
    unfolding ◌>>=◌
    flight s = (do board_prefills; board_decodes; update kill_left) (record s { strobes = 0 })

    unfoldable pub board_flights : Exec (Batcher S) (Unit {0})
    board_flights s =
        let waiting = length s.pending_prefills + length s.pending_decodes in
        if waiting == 0
        then pure tt s
        else if ltb waiting ideal_batch_size && ltb s.strobes 2
        then pure tt s
        else flight s

    -- One round of the loop in `run`.
    unfoldable pub handle : Message → Exec (Batcher S) (Unit {0})
    unfolding receive
    handle m s = board_flights (receive m s)
