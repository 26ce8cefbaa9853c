-- ===== src/Noise/Replay.antt =====
-- pkg/noise/replay.go: the sliding 2048-bit window of recently seen counters. The mutex makes each
-- method one step. Counters are `uint64` values; the code subtracts only a smaller from a larger
-- one, so no subtraction wraps. The bitmap is the array of 32 words, each below 2 ^ 64.
mod Bitmap
mod Shift
pub mod Log
pub mod Refine
mod Tests
use vpn_cloude.Base.{
  ℕ, zero, suc, ◌+◌, ◌-◌, ◌*◌, ◌/◌, ◌%◌, ◌^◌, Bool, true, false, not, List, [], ◌∷◌, ltb, leb, ◌==◌,
  if◌then◌else◌, get_or, set, replicate, bit_and, bit_or,
}

abbrev pub replay_window_bits : ℕ
replay_window_bits = 2048

abbrev pub replay_window_words : ℕ
replay_window_words = 32

pub record ReplayWindow : Type 0 where
  pub highest_seen : ℕ
  pub initialized : Bool
  pub bitmap : List ℕ

abbrev pub empty_bitmap : List ℕ
empty_bitmap = replicate replay_window_words 0

pub new_replay_window : ReplayWindow
new_replay_window = record { highest_seen = 0; initialized = false; bitmap = empty_bitmap }

-- `word` and `bit` of the source.
pub has_delta : List ℕ → ℕ → Bool
has_delta bitmap delta = not (bit_and (get_or bitmap (delta / 64) 0) (2 ^ (delta % 64)) == 0)

pub mark_delta : List ℕ → ℕ → List ℕ
mark_delta bitmap delta =
    set bitmap (delta / 64) (bit_or (get_or bitmap (delta / 64) 0) (2 ^ (delta % 64)))

-- The first loop of `advanceLocked`, from index `n - 1` down to 0, in place.
pub move_words : ℕ → ℕ → List ℕ → List ℕ
move_words word_shift zero bitmap = bitmap
move_words word_shift (suc i) bitmap =
    move_words word_shift i
      (set bitmap i (if leb word_shift i then get_or bitmap (i - word_shift) 0 else 0))

-- Its second loop. `<<` drops the bits above 64.
pub shift_bits : ℕ → ℕ → List ℕ → List ℕ
shift_bits bit_shift zero bitmap = bitmap
shift_bits bit_shift (suc i) bitmap =
    let carry = if ltb 0 i then get_or bitmap (i - 1) 0 / 2 ^ (64 - bit_shift) else 0 in
    shift_bits bit_shift i
      (set bitmap i (bit_or (get_or bitmap i 0 * 2 ^ bit_shift % 2 ^ 64) carry))

pub advance : List ℕ → ℕ → List ℕ
advance bitmap delta =
    if leb replay_window_bits delta
    then empty_bitmap
    else let word_shift = delta / 64 in
      let bit_shift = delta % 64 in
      let moved =
        if ltb 0 word_shift then move_words word_shift replay_window_words bitmap else bitmap in
      if ltb 0 bit_shift then shift_bits bit_shift replay_window_words moved else moved

accept_old : ReplayWindow → ℕ → Bool × ReplayWindow
accept_old window counter =
    let delta = window.highest_seen - counter in
    if leb replay_window_bits delta
    then (false, window)
    else if has_delta window.bitmap delta
    then (false, window)
    else (true, record window { bitmap = mark_delta window.bitmap delta })

pub accept : ReplayWindow → ℕ → Bool × ReplayWindow
unfolding accept_old
accept window counter =
    if not window.initialized
    then (
      true,
      record { highest_seen = counter; initialized = true; bitmap = mark_delta window.bitmap 0 },
    )
    else if ltb window.highest_seen counter
    then (
      true,
      record window {
        highest_seen = counter;
        bitmap = mark_delta (advance window.bitmap (counter - window.highest_seen)) 0;
      },
    )
    else accept_old window counter

-- The verdicts of a series of calls on one window.
pub accept_all : ReplayWindow → List ℕ → List Bool
accept_all window [] = []
accept_all window (counter ∷ rest) =
    let (fresh, window') = accept window counter in fresh ∷ accept_all window' rest
