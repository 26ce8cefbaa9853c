-- ===== src/Noise/Replay/Refine.antt =====
-- The bitmap window of pkg/noise/replay.go beside the log.
use vpn_cloude.Base.{
  ℕ, ◌+◌, ◌-◌, ◌≤◌, ◌<◌, max, ◌≡◌, refl, ◌∙◌, true, false, List, [], ◌∷◌, subst, sym, ap, ap₂, inl,
  inr, ◌++◌, Bool-cases, arith,
}
use vpn_cloude.Noise.Replay.{
  ReplayWindow, new_replay_window, accept, accept_all, mark_delta, advance,
}
use vpn_cloude.Noise.Replay.Bitmap.{
  marked, IsBitmap, empty-IsBitmap, marked-empty, has_delta-marked, mark_delta-IsBitmap,
  marked-mark_delta,
}
use vpn_cloude.Noise.Replay.Shift.{advance-IsBitmap, marked-advance}
use vpn_cloude.Noise.Replay.Log.{
  contains, contains-add_if, highest, is_empty, is_fresh, add_if, verdicts, contains-above,
}

-- The state after the counters of a log that is not empty.
record Tracks (window : ReplayWindow) (log : List ℕ) : Type 0 where
  started : window.initialized ≡ true
  top : window.highest_seen ≡ highest log
  sound : IsBitmap window.bitmap
  bits :
      (d : ℕ)
      → d < 2048
      → d ≤ window.highest_seen
      → marked window.bitmap d ≡ contains log (window.highest_seen - d)

abbrev Agrees : ReplayWindow → List ℕ → Type 0
Agrees window [] = window ≡ new_replay_window
Agrees window (c ∷ log) = Tracks window (c ∷ log)

first_accept : (c : ℕ) → (accept new_replay_window c).0 ≡ true
unfolding accept new_replay_window
first_accept c = refl

first-Tracks : (c : ℕ) → Tracks (accept new_replay_window c).1 (c ∷ [])
unfolding accept new_replay_window contains highest
first-Tracks c = record {
  started = refl;
  top = omega arith;
  sound = mark_delta-IsBitmap _ 0 empty-IsBitmap;
  bits = λ d h le. ground (arith, marked-mark_delta _ 0 d empty-IsBitmap, marked-empty d);
}

module _ (window : ReplayWindow) (log : List ℕ) (c : ℕ) (t : Tracks window log) where
  abbrev newer : ReplayWindow
  newer = record window {
    highest_seen = c;
    bitmap = mark_delta (advance window.bitmap (c - window.highest_seen)) 0;
  }

  newer-Tracks : window.highest_seen < c → Tracks newer (c ∷ log)
  unfolding contains highest
  newer-Tracks h =
      let b = advance window.bitmap (c - window.highest_seen) in
      let ok = advance-IsBitmap window.bitmap (c - window.highest_seen) t.sound in
      record {
        started = t.started;
        top = omega (arith, t.top);
        sound = mark_delta-IsBitmap b 0 ok;
        bits = λ d d_in le. ground (
          arith,
          marked-mark_delta b 0 d ok,
          marked-advance window.bitmap (c - window.highest_seen) d t.sound,
          t.bits (d - (c - window.highest_seen)),
          contains-above log (c - d),
          t.top,
        );
      }

  abbrev older : ReplayWindow
  older = record window { bitmap = mark_delta window.bitmap (window.highest_seen - c) }

  older-Tracks : c ≤ window.highest_seen → window.highest_seen - c < 2048 → Tracks older (c ∷ log)
  unfolding contains highest
  older-Tracks h k = record {
    started = t.started;
    top = omega (arith, t.top);
    sound = mark_delta-IsBitmap window.bitmap (window.highest_seen - c) t.sound;
    bits = λ d d_in le.
        ground
          (arith, marked-mark_delta window.bitmap (window.highest_seen - c) d t.sound, t.bits d);
  }

-- One call on a window that has seen something.
tracked_step :
    (window : ReplayWindow) (log : List ℕ) (c : ℕ)
    → is_empty log ≡ false
    → Tracks window log
    → let (fresh, window') = accept window c in
      (fresh ≡ is_fresh log c)
      × ((fresh ≡ true) → Tracks window' (c ∷ log))
      × ((fresh ≡ false) → window' ≡ window)
unfolding accept is_fresh
tracked_step window log c e t = ground (
  arith,
  t.started,
  t.top,
  t.bits (window.highest_seen - c),
  has_delta-marked window.bitmap (window.highest_seen - c),
  newer-Tracks window log c t,
  older-Tracks window log c t,
)

step-Agrees :
    (window : ReplayWindow) (log : List ℕ) (c : ℕ)
    → Agrees window log
    → let (fresh, window') = accept window c in
      (fresh ≡ is_fresh log c) × Agrees window' (add_if fresh c log)
step-Agrees window [] c e =
    subst
      (λ w. let (fresh, w') = accept w c in (fresh ≡ is_fresh [] c) × Agrees w' (add_if fresh c []))
      (sym e) (unfold is_fresh in rw (first_accept c) (refl, first-Tracks c))
step-Agrees window (x ∷ log) c t =
    let (same, taken, refused) = tracked_step window (x ∷ log) c refl t in
    (
      same,
      elim (Bool-cases (accept window c).0) [
        | inl yes' ↦ rw yes' (taken yes')
        | inr no' ↦ rw no' (subst (λ w. Tracks w (x ∷ log)) (sym (refused no')) t)
      ],
    )

-- The window after a series of calls, and the log that it then stands for.
abbrev pub after_all : ReplayWindow → List ℕ → ReplayWindow
after_all window [] = window
after_all window (c ∷ cs) = after_all (accept window c).1 cs

abbrev log_after : ReplayWindow → List ℕ → List ℕ → List ℕ
log_after window log [] = log
log_after window log (c ∷ cs) = log_after (accept window c).1 (add_if (accept window c).0 c log) cs

after_all-Agrees :
    (cs : List ℕ) (window : ReplayWindow) (log : List ℕ)
    → Agrees window log
    → Agrees (after_all window cs) (log_after window log cs)
after_all-Agrees [] window log a = a
after_all-Agrees (c ∷ cs) window log a =
    after_all-Agrees cs (accept window c).1 _ (step-Agrees window log c a).1

accept_all-Agrees :
    (cs : List ℕ) (window : ReplayWindow) (log : List ℕ)
    → Agrees window log
    → accept_all window cs ≡ verdicts log cs
unfolding accept_all verdicts
accept_all-Agrees [] window log a = refl
accept_all-Agrees (c ∷ cs) window log a =
    let (same, later) = step-Agrees window log c a in
    ap₂ ◌∷◌ same (
      accept_all-Agrees cs (accept window c).1 _ later
      ∙ ap (λ v. verdicts (add_if v c log) cs) same)

-- The verdicts of the bitmap window on any series of counters, from the empty window on, are those
-- of the log: a counter is accepted exactly if nothing was accepted before it, or it is above all
-- accepted ones, or it is less than 2048 below the highest and was not accepted before.
pub accept_all-verdicts : (cs : List ℕ) → accept_all new_replay_window cs ≡ verdicts [] cs
accept_all-verdicts cs = accept_all-Agrees cs new_replay_window [] refl

accept-is_fresh :
    (cs : List ℕ) (c : ℕ)
    → (accept (after_all new_replay_window cs) c).0 ≡ is_fresh (log_after new_replay_window [] cs) c
accept-is_fresh cs c = (step-Agrees _ _ c (after_all-Agrees cs new_replay_window [] refl)).0

contains-log_after :
    (cs : List ℕ) (window : ReplayWindow) (log : List ℕ) (c : ℕ)
    → contains log c ≡ true
    → contains (log_after window log cs) c ≡ true
contains-log_after [] window log c h = h
contains-log_after (x ∷ cs) window log c h =
    contains-log_after cs (accept window x).1 _ c (contains-add_if (accept window x).0 x log c h)

-- A counter in the log is refused.
is_fresh-contains : (log : List ℕ) (c : ℕ) → contains log c ≡ true → is_fresh log c ≡ false
unfolding is_fresh
is_fresh-contains [] c h = unfold contains in cc
is_fresh-contains (x ∷ log) c h = ground (arith, contains-above (x ∷ log) c)

after_all-append :
    (cs ds : List ℕ) (window : ReplayWindow)
    → after_all window (cs ++ ds) ≡ after_all (after_all window cs) ds
after_all-append [] ds window = refl
after_all-append (c ∷ cs) ds window = after_all-append cs ds (accept window c).1

-- No counter passes twice: once the window has accepted a counter, it refuses it for ever,
-- whatever came before it and whatever comes in between.
pub accept_once :
    (before between : List ℕ) (c : ℕ)
    → (accept (after_all new_replay_window before) c).0 ≡ true
    → (accept (after_all new_replay_window (before ++ c ∷ between)) c).0 ≡ false
accept_once before between c h =
    let w = after_all new_replay_window before in
    let log = log_after new_replay_window [] before in
    let agreed = after_all-Agrees before new_replay_window [] refl in
    let (same, later) = step-Agrees w log c agreed in
    let seen : contains (add_if (accept w c).0 c log) c ≡ true =
      rw h (unfold contains in ground arith) in
    let final = after_all-Agrees between (accept w c).1 (add_if (accept w c).0 c log) later in
    rw (after_all-append before (c ∷ between) new_replay_window) (
      (step-Agrees _ _ c final).0
      ∙ is_fresh-contains _ c (contains-log_after between (accept w c).1 _ c seen))

-- What the log holds was offered.
log_after_bounds :
    (cs : List ℕ) (window : ReplayWindow) (log : List ℕ) (c : ℕ)
    → (highest (log_after window log cs) ≤ max (highest log) (highest cs))
      × ((contains log c ≡ false)
          → (contains cs c ≡ false)
          → contains (log_after window log cs) c ≡ false)
unfolding contains highest
log_after_bounds [] window log c = (omega arith, λ h k. h)
log_after_bounds (x ∷ cs) window log c =
    let fresh = (accept window x).0 in
    ground (
      arith,
      log_after_bounds cs (accept window x).1 (x ∷ log) c,
      log_after_bounds cs (accept window x).1 log c,
    )

is_fresh_near :
    (log : List ℕ) (c : ℕ) → contains log c ≡ false → highest log < c + 2048 → is_fresh log c ≡ true
unfolding is_fresh
is_fresh_near log c h k = ground arith

-- No fresh counter is lost to reordering: a counter that was not offered before and is less than
-- 2048 below the highest one offered is accepted, whatever was offered and in whatever order.
pub accept_near :
    (cs : List ℕ) (c : ℕ)
    → contains cs c ≡ false
    → highest cs < c + 2048
    → (accept (after_all new_replay_window cs) c).0 ≡ true
accept_near cs c h k =
    let (top, apart) = log_after_bounds cs new_replay_window [] c in
    let start : highest [] ≡ 0 = unfold highest in refl in
    accept-is_fresh cs c
    ∙ is_fresh_near _ c (apart (unfold contains in refl) h) (omega (arith, start))
