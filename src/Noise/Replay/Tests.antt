-- ===== src/Noise/Replay/Tests.antt =====
-- Runs of the replay window, and its theorems at concrete counters.
use vpn_cloude.Base.{◌≡◌, refl, true, false, [], ◌∷◌, arith}
use vpn_cloude.Noise.Replay.{
  new_replay_window, accept, accept_all, has_delta, mark_delta, advance, shift_bits, move_words,
}
use vpn_cloude.Noise.Replay.Log.{verdicts, contains, highest}
use vpn_cloude.Noise.Replay.Refine.{after_all, accept_all-verdicts, accept_once, accept_near}

-- Out of order, a replay, across a word boundary, and too old.
window_run :
    accept_all new_replay_window (100 ∷ 99 ∷ 99 ∷ 170 ∷ 100 ∷ 101 ∷ 4000 ∷ 1000 ∷ [])
    ≡ true ∷ true ∷ false ∷ true ∷ false ∷ true ∷ true ∷ false ∷ []
unfolding accept_all accept new_replay_window has_delta mark_delta advance shift_bits move_words
window_run = refl

accept_all-verdicts_example :
    accept_all new_replay_window (100 ∷ 99 ∷ 99 ∷ 170 ∷ 100 ∷ [])
    ≡ verdicts [] (100 ∷ 99 ∷ 99 ∷ 170 ∷ 100 ∷ [])
accept_all-verdicts_example = accept_all-verdicts (100 ∷ 99 ∷ 99 ∷ 170 ∷ 100 ∷ [])

accept_once_example : (accept (after_all new_replay_window (5 ∷ 9 ∷ 7 ∷ 90 ∷ [])) 9).0 ≡ false
accept_once_example = accept_once (5 ∷ []) (7 ∷ 90 ∷ []) 9 (unfold accept new_replay_window in refl)

accept_near_example : (accept (after_all new_replay_window (10 ∷ 300 ∷ [])) 77).0 ≡ true
accept_near_example =
    accept_near (10 ∷ 300 ∷ []) 77 (unfold contains in refl) (unfold highest in omega arith)
