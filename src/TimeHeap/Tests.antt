-- ===== src/TimeHeap/Tests.antt =====
-- A heap of two timers: witnesses.
use tiny_web_server_learning.Prelude.{
  ℕ, suc, ◌+◌, ◌≡◌, refl, true, false, [], arith, leb, if◌then◌else◌,
}
use tiny_web_server_learning.TimeHeap.{
  Timers, TimeHeap, add_timer, adjust_timer, tick, parent_of, expire_of,
}
use tiny_web_server_learning.TimeHeap.Pending.{Sound, add_timer-Sound}
use tiny_web_server_learning.TimeHeap.Tick.{Later, tick-Later, adjust_timer-Sound}
use tiny_web_server_learning.TimeHeap.Weigh.{weigh}
use tiny_web_server_learning.TimeHeap.Same.{times, due_calls}
use tiny_web_server_learning.TimeHeap.Due.{tick-weigh, tick-calls}
use tiny_web_server_learning.TimeHeap.Kept.{one, tally, tally-tick}

-- Timer `p` expires at 10 + p and belongs to user p.
abbrev timers : Timers
timers = record {
  at = λ p. record { expire = 10 + p; cb_func = true; user_data = p };
  next = 3;
  deleted = [];
  timer_of = λ user. user;
  called = [];
}

-- Timers 0 and 1 are in the heap.
abbrev pair : TimeHeap
pair = record { array = λ i. i; capacity = 2; cur_size = 2; overrun = false }

pair-Sound : Sound timers pair
unfolding parent_of
pair-Sound = record {
  order = λ i p l. omega arith;
  known = λ i l. omega arith;
  room = omega arith;
  nonempty = omega arith;
  inside = refl;
}

add_timer-Sound_example :
    let g = add_timer timers 2 pair in
    Sound timers g
    × (g.cur_size ≡ 3)
    × ((p : ℕ) → tally p g.array g.cur_size ≡ tally p pair.array 2 + one p 2)
add_timer-Sound_example = add_timer-Sound timers pair 2 pair-Sound (omega arith)

tick-Later_example : Later 10 (tick 10 timers pair).0 (tick 10 timers pair).1
tick-Later_example = tick-Later 10 timers pair pair-Sound

adjust_timer-Sound_example :
    let (us, g) = adjust_timer 7 0 timers pair in
    Sound us g
    × (g.cur_size ≡ 3)
    × (us.at (us.timer_of 0) ≡ record { expire = 22; cb_func = true; user_data = 0 })
    × (us.timer_of 0 ≡ 3)
    × ((p : ℕ) → tally p g.array g.cur_size ≡ tally p pair.array 2 + one p 3)
    × ((us.at 0).cb_func ≡ false)
adjust_timer-Sound_example = adjust_timer-Sound 7 0 timers pair pair-Sound (omega arith)

tally-tick_example :
    let g = (tick 10 timers pair).1 in tally 1 g.array g.cur_size ≡ tally 1 pair.array 2
tally-tick_example = tally-tick 10 1 timers pair (omega arith)

tick-weigh_example :
    let (us, g) = tick 10 timers pair in
    (us.at ≡ timers.at)
    × (weigh (λ p. suc p) g.array g.cur_size
        ≡ weigh (λ p. if leb (expire_of timers p) 10 then 0 else suc p) pair.array 2)
tick-weigh_example = tick-weigh 10 (λ p. suc p) timers pair pair-Sound

tick-calls_example :
    times 0 (tick 10 timers pair).0.called
    ≡ times 0 timers.called + weigh (due_calls 10 timers.at 0) pair.array 2
tick-calls_example = tick-calls 10 0 timers pair pair-Sound
