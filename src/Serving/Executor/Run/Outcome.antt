-- ===== src/Serving/Executor/Run/Outcome.antt =====
-- How an executor ends: every request has the result of its own row, or every one is given up.
use shark_platform.Prelude.{
  ℕ, suc, ◌≡◌, refl, ap, ◌∙◌, Bool, true, false, List, [], ◌∷◌, map, inl, inr, if◌then◌else◌,
}
use shark_platform.Prelude.Exec.{
  Error, Exec, Result, ok, err, pure, continue, ◌>>=◌, ◌>>◌, Result-cases,
}
use shark_platform.Serving.Requests.{InferencePhase}
use shark_platform.Serving.Executor.{ExecArgs, prepare}
use shark_platform.Serving.Executor.Run.{
  ExecObject, ExecOps, answer, give_up, request_of, publish_all, view_of, logits_item,
  return_results, execute, free_cache_pages, give_up_all, handled, invoke_and_publish, run,
}

module _ {S L A : Type 0} (ops : ExecOps S L A) where
  abbrev pub release_all : List (ExecObject A) → S → S
  release_all [] c = c
  release_all (r ∷ rs) c = release_all rs (free_cache_pages ops r.allocation c)

  -- What the request of the row `i` gets: the view of this row, transferred if it is to be.
  pub data Answer (phase : InferencePhase) (logits : L) (i : ℕ) (r : ExecObject A) (a : A)
      : Type 0 where
    viewed :
        r.return_host_array ≡ false
        → view_of ops phase i logits r ≡ ok a
        → Answer phase logits i r a
    transferred :
        (b : A) (c : S)
        → r.return_host_array ≡ true
        → view_of ops phase i logits r ≡ ok b
        → (ops.transfer b c).0 ≡ ok a
        → Answer phase logits i r a

  -- The requests of the rows from `i` on, all answered.
  abbrev pub Answers : InferencePhase → L → ℕ → List (ExecObject A) → List (ExecObject A) → Type 0
  Answers phase logits i [] out = out ≡ []
  Answers phase logits i (r ∷ rs) out =
      (a : A) × (rest : List (ExecObject A)) × Answer phase logits i r a
      × (out ≡ answer a r ∷ rest)
      × Answers phase logits (suc i) rs rest

  give_up_all_lem :
      (rs : List (ExecObject A)) (c : S) → give_up_all ops rs c ≡ (map give_up rs, release_all rs c)
  unfolding give_up_all
  give_up_all_lem [] c = refl
  give_up_all_lem (r ∷ rs) c = rw (give_up_all_lem rs (free_cache_pages ops r.allocation c)) refl

  continue_ok :
      {B C : Type 0} (m : Result B) (rest : B → Exec S C) (c : S) (a : C)
      → (continue m rest c).0 ≡ ok a
      → (b : B) × (m ≡ ok b) × ((rest b c).0 ≡ ok a)
  continue_ok (ok b) rest c a e = (b, refl, e)
  continue_ok (err x) rest c a e = absurd (cc)

  by_destination :
      (phase : InferencePhase) (i : ℕ) (logits : L) (r : ExecObject A) (a b : A) (c : S)
      (host : Bool)
      → r.return_host_array ≡ host
      → view_of ops phase i logits r ≡ ok b
      → ((if host then ops.transfer b else pure b) c).0 ≡ ok a
      → Answer phase logits i r a
  by_destination phase i logits r a b c true host view e = transferred b c host view e
  by_destination phase i logits r a b c false device view e = viewed device (view ∙ e)

  logits_item-Answer :
      (phase : InferencePhase) (i : ℕ) (logits : L) (r : ExecObject A) (c : S) (a : A)
      → (logits_item ops phase i logits r c).0 ≡ ok a
      → Answer phase logits i r a
  unfolding logits_item
  logits_item-Answer phase i logits r c a e =
      let (b, view, moved) = continue_ok (view_of ops phase i logits r) _ c a e in
      by_destination phase i logits r a b c r.return_host_array refl view moved

  data Returned (phase : InferencePhase) (logits : L) (i : ℕ) (rs : List (ExecObject A))
      (out : Result (Unit {0}) × (List (ExecObject A) × S)) : Type 0 where
    returned : out.0 ≡ ok tt → Answers phase logits i rs out.1.0 → Returned phase logits i rs out
    broken :
        (e : Error)
        → out.0 ≡ err e
        → map give_up out.1.0 ≡ map give_up rs
        → ((d : S) → release_all out.1.0 d ≡ release_all rs d)
        → Returned phase logits i rs out

  return_results-Returned :
      (phase : InferencePhase) (logits : L) (i : ℕ) (rs : List (ExecObject A)) (c : S)
      → Returned phase logits i rs (return_results ops phase i logits rs c)
  unfolding return_results
  return_results-Returned phase logits i [] c = returned refl refl
  return_results-Returned phase logits i (r ∷ rs) c =
      elim (Result-cases (logits_item ops phase i logits r c).0) [
        | inr (e, bad) ↦ rw (bad, return_results) (broken e refl refl (λ d. refl))
        | inl (a, good) ↦
            let d : S = (logits_item ops phase i logits r c).1 in
            rw (good, return_results)
              (elim (return_results-Returned phase logits (suc i) rs d) [
                | returned end rest ↦
                    returned end (a, _, logits_item-Answer phase i logits r c a good, refl, rest)
                | broken e end same free ↦
                    broken e end (ap (◌∷◌ (give_up r)) same)
                      (λ u. free (free_cache_pages ops r.allocation u))
              ])
      ]

  give_up_cases :
      (rs : List (ExecObject A)) (out : Result (Unit {0}) × (List (ExecObject A) × S)) (e : Error)
      → out.0 ≡ err e
      → map give_up out.1.0 ≡ map give_up rs
      → ((d : S) → release_all out.1.0 d ≡ release_all rs d)
      → handled ops out ≡ (map give_up rs, release_all rs out.1.1)
  give_up_cases rs (ok u, (ss, d)) e h same free = absurd (cc)
  give_up_cases rs (err x, (ss, d)) e h same free = rw (give_up_all_lem ss d, same, free d) refl

  handled_ok :
      (out : Result (Unit {0}) × (List (ExecObject A) × S))
      → out.0 ≡ ok tt
      → handled ops out ≡ out.1
  handled_ok (ok u, state) h = refl
  handled_ok (err x, state) h = absurd (cc)

  invoked :
      (phase : InferencePhase) (args : ExecArgs) (rs : List (ExecObject A)) (c : S) (logits : L)
      → (invoke_and_publish ops phase args rs c).0 ≡ ok logits
      → (ops.invoke phase args c).0 ≡ ok logits
  unfolding invoke_and_publish ◌>>=◌
  invoked phase args rs c logits e =
      let (l, first, rest) =
        continue_ok (ops.invoke phase args c).0 (λ l. publish_all ops rs >> pure l) _ logits e in
      let (u, published, same) = continue_ok _ (λ u. pure l) _ logits rest in first ∙ same

  module _ (phase : InferencePhase) (seq_stride : ℕ) (entrypoints : List ℕ)
      (rs : List (ExecObject A)) (c : S) where
    -- Why requests are given up that were prepared, and the state of the cache then.
    pub data Raised (args : ExecArgs) (d : S) : Type 0 where
      running : (e : Error) → invoke_and_publish ops phase args rs c ≡ (err e, d) → Raised args d
      returning :
          (logits : L) (m : S) (e : Error)
          → invoke_and_publish ops phase args rs c ≡ (ok logits, m)
          → (return_results ops phase 0 logits rs m).0 ≡ err e
          → (return_results ops phase 0 logits rs m).1.1 ≡ d
          → Raised args d

    pub data RunOutcome (out : List (ExecObject A) × S) : Type 0 where
      all_answered :
          (args : ExecArgs) (logits : L)
          → prepare phase seq_stride entrypoints (map (request_of ops phase c) rs) ≡ ok args
          → (ops.invoke phase args c).0 ≡ ok logits
          → Answers phase logits 0 rs out.0
          → RunOutcome out
      unprepared :
          (e : Error)
          → prepare phase seq_stride entrypoints (map (request_of ops phase c) rs) ≡ err e
          → out ≡ (map give_up rs, release_all rs c)
          → RunOutcome out
      broken_off :
          (args : ExecArgs) (d : S)
          → prepare phase seq_stride entrypoints (map (request_of ops phase c) rs) ≡ ok args
          → Raised args d
          → out ≡ (map give_up rs, release_all rs d)
          → RunOutcome out

    ended :
        (args : ExecArgs) (logits : L) (d : S)
        → prepare phase seq_stride entrypoints (map (request_of ops phase c) rs) ≡ ok args
        → (invoke_and_publish ops phase args rs c).0 ≡ ok logits
        → (invoke_and_publish ops phase args rs c).1 ≡ d
        → RunOutcome (run ops phase seq_stride entrypoints rs c)
    unfolding run execute
    ended args logits d good fine state =
        let out = return_results ops phase 0 logits rs d in
        rw (good, execute, fine, state)
          (elim (return_results-Returned phase logits 0 rs d) [
            | returned end answers ↦
                all_answered args logits good (invoked phase args rs c logits fine)
                  (rw (handled_ok out end) answers)
            | broken e end same free ↦
                broken_off args out.1.1 good
                  (returning logits d e (λ i. (fine i, state i)) end refl)
                  (give_up_cases rs out e end same free)
          ])

    -- An executor answers every request or gives every one up. It gives them up where the preparation
    -- raises, before it touches the cache, or where a later call does; then no request has logits or an
    -- allocation any more, all are done, and what they had allocated is released, in their order. If it
    -- answers them, the preparation and the invocation have succeeded, and every request is done, keeps
    -- its allocation and has the view of its own row of the logits, transferred if it asks for it.
    pub run-RunOutcome : RunOutcome (run ops phase seq_stride entrypoints rs c)
    unfolding run execute
    run-RunOutcome =
        elim (Result-cases
          (prepare phase seq_stride entrypoints (map (request_of ops phase c) rs))) [
            | inr (e, bad) ↦ unprepared e bad (rw (bad, execute) (give_up_all_lem rs c))
            | inl (args, good) ↦
                let d : S = (invoke_and_publish ops phase args rs c).1 in
                elim (Result-cases (invoke_and_publish ops phase args rs c).0) [
                  | inr (e, bad) ↦
                      broken_off args d good (running e (λ i. (bad i, d)))
                        (rw (good, execute, bad) (give_up_all_lem rs d))
                  | inl (logits, fine) ↦ ended args logits d good fine refl
                ]
          ]
