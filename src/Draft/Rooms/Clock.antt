-- ===== src/Draft/Rooms/Clock.antt =====
-- The clock of a turn: tick of DraftRoomManager in
-- backend/src/services/draft/draftService.ts.
use native.Mathlib.Omega.{arith}
use fantasy_xi.Prelude.{ℕ, zero, suc, ◌+◌, ◌-◌, ◌≡◌, refl, ◌∙◌, ap, true, false, Option, none, leb}
use fantasy_xi.Draft.{Service, DraftError, is_in_progress}
use fantasy_xi.Draft.Rooms.{Manager, tick, ticked, after_second, auto_pick_current_turn}

abbrev pub with_seconds : ℕ → Manager → Manager
with_seconds n m = record m { remaining_seconds = n }

-- `n` ticks that nothing interrupts, and one more.
pub run_ticks : ℕ → ℕ → Manager → Service → Manager × Service × Option DraftError
run_ticks now zero m s = tick now m s
run_ticks now (suc n) m s = let next = tick now m s in run_ticks now n next.0 next.1

not_over : (k n : ℕ) → k ≡ n + 1 → leb k 0 ≡ false
not_over k n e = ground arith

second-waits :
    (now k n : ℕ) (m : Manager) (s : Service)
    → k ≡ n + 1
    → after_second now (with_seconds k m) s ≡ (with_seconds (n + 1) m, s, none)
second-waits now k n m s e = rw (not_over k n e) (ap (λ i. (with_seconds i m, s, none)) e)

tick-waits :
    (now n : ℕ) (m : Manager) (s : Service)
    → is_in_progress m.status ≡ true
    → tick now (with_seconds (n + 2) m) s ≡ (with_seconds (n + 1) m, s, none)
unfolding tick
tick-waits now n m s going = rw going (second-waits now (n + 2 - 1) n m s (omega arith))

tick-picks :
    (now : ℕ) (m : Manager) (s : Service)
    → is_in_progress m.status ≡ true
    → tick now (with_seconds 1 m) s
      ≡ ticked (with_seconds 0 m) s (auto_pick_current_turn now (with_seconds 0 m) s)
unfolding tick
tick-picks now m s going = rw going refl

-- A turn that nobody uses ends: in a draft that is in progress, as many ticks as there are seconds left
-- end in the automatic pick of the turn, with its result or its error, and the ticks before the last
-- one change nothing but the seconds.
pub run_ticks-auto_pick :
    (now n : ℕ) (m : Manager) (s : Service)
    → is_in_progress m.status ≡ true
    → run_ticks now n (with_seconds (n + 1) m) s
      ≡ ticked (with_seconds 0 m) s (auto_pick_current_turn now (with_seconds 0 m) s)
unfolding run_ticks
run_ticks-auto_pick now zero m s going = tick-picks now m s going
run_ticks-auto_pick now (suc n) m s going =
    let more : suc n + 1 ≡ n + 2 = omega arith in
    ap (λ k. run_ticks now n (tick now (with_seconds k m) s).0 (tick now (with_seconds k m) s).1)
      more
    ∙ ap (λ (t : Manager × Service × Option DraftError). run_ticks now n t.0 t.1)
        (tick-waits now n m s going)
    ∙ run_ticks-auto_pick now n m s going
