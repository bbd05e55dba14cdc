-- ===== src/RunLog/Examples.antt =====
-- A turn that is sent twice, and one that ends after its conversation was deleted.
use latest_poseidon.Prelude.{◌≡◌, refl, codes, true, false, none, some, List, [], ◌∷◌, map}
use latest_poseidon.RunLog.{
  TurnRun, find_existing, start_turn, update_where, finalize, redact_turns_for_conversation,
}
use latest_poseidon.RunLog.Retries.{Act, starts, finalizes, redacts, act, run, start_turn-retried}

-- Another user starts with the same key in between.
abbrev meanwhile : List Act
meanwhile = starts "ben" "t3" none (some "k") none [] ∷ finalizes "ana" "t1" "ok" none none ∷ []

abbrev log : List TurnRun
log = run meanwhile (start_turn "ana" "t1" (some "c") (some "k") none [] []).1

start_turn-retried_example :
    start_turn "ana" "t2" (some "c") (some "k") none [] log
    ≡ (some (record { turn_run_id = "t1"; created = false }), log)
unfolding start_turn find_existing
start_turn-retried_example =
    start_turn-retried "ana" "k" "t1" "t2" (some "c") (some "c") none none [] [] []
      (record { turn_run_id = "t1"; created = true }) meanwhile refl

-- The conversation of a running turn is deleted, its turns are redacted, and the turn then ends: its answer
-- stays in the log.
answer_after_delete :
    map
      (λ r. r.answer_summary)
      (run
        (redacts "ana" "c" ∷ finalizes "ana" "t1" "ok" none (some (codes "42 tons")) ∷ [])
        (start_turn "ana" "t1" (some "c") (some "k") (some (codes "Volume?")) [] []).1)
    ≡ some (codes "42 tons") ∷ []
unfolding run act start_turn find_existing finalize redact_turns_for_conversation update_where
answer_after_delete = refl
