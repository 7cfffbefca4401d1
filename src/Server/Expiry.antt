-- ===== src/Server/Expiry.antt =====
-- What the main loop of src/server_epoll.cpp does with the timers, for the user that it is done for
-- and for the others.
use tiny_web_server_learning.Prelude.{
  ℕ, zero, suc, ◌+◌, ◌*◌, ◌≤◌, ◌<◌, ◌≡◌, ◌≢◌, refl, sym, ◌∙◌, ap, true, false, some, arith, leb,
  ltb, ltb→lt, Bool-cases, inl, inr,
}
use tiny_web_server_learning.Http.Types.{HttpConn}
use tiny_web_server_learning.TimeHeap.{
  Timer, Timers, TimeHeap, set_at, set_timer, expire_of, add_timer, del_timer, adjust_timer, tick,
}
use tiny_web_server_learning.TimeHeap.Order.{same_or_not}
use tiny_web_server_learning.TimeHeap.Pending.{Sound, Sound-extend, add_timer-Sound}
use tiny_web_server_learning.TimeHeap.Tick.{set_timer-eq, set_timer-ne}
use tiny_web_server_learning.TimeHeap.Weigh.{weigh}
use tiny_web_server_learning.TimeHeap.Kept.{one, tally, tally-tick}
use tiny_web_server_learning.TimeHeap.Same.{times, due_calls}
use tiny_web_server_learning.TimeHeap.Due.{tick-SameTimers, tick-calls}
use tiny_web_server_learning.TimeHeap.Owned.{Owned, Owned-same, Owned-new}
use tiny_web_server_learning.Server.Accept.{new_timer}
use tiny_web_server_learning.Server.State.{timeslot}
use tiny_web_server_learning.Server.Watched.{Live, Spares, Grown, Grown-Live, Grown-Spares}

-- The timer of a new connection.
module _ (cur fd : ℕ) (ts : Timers) (h : TimeHeap) where
  abbrev fresh : Timer
  fresh = record { expire = cur + 3 * timeslot; cb_func = true; user_data = fd }

  new_timer-Grown : Grown ts (new_timer cur fd ts) h fresh fd
  unfolding new_timer
  new_timer-Grown = record { next = refl; here = set_timer-eq ts.at ts.next fresh; pointer = refl }

  pub new_timer-Sound :
      Sound ts h → Sound (new_timer cur fd ts) (add_timer (new_timer cur fd ts) ts.next h)
  unfolding new_timer
  new_timer-Sound s =
      (add_timer-Sound (new_timer cur fd ts) h ts.next
        (Sound-extend ts (new_timer cur fd ts) h s (omega arith)
          λ q l. ap (λ t. t.expire) (set_timer-ne ts.at ts.next fresh q (omega arith)))
        (omega arith)).0

  pub new_timer-Owned :
      Owned ts h → Owned (new_timer cur fd ts) (add_timer (new_timer cur fd ts) ts.next h)
  unfolding new_timer
  new_timer-Owned o = Owned-new ts (new_timer cur fd ts) h o refl refl

  pub new_timer-Live :
      (latest : ℕ) (c : HttpConn)
      → cur ≤ latest
      → c.sockfd ≡ some fd
      → Live latest fd c (new_timer cur fd ts) (add_timer (new_timer cur fd ts) ts.next h)
  new_timer-Live latest c early socket =
      Grown-Live ts (new_timer cur fd ts) h fresh fd latest c new_timer-Grown socket refl refl
        (omega arith)

  pub new_timer-Spares :
      (other : ℕ)
      → other ≢ fd
      → ts.timer_of other < ts.next
      → Spares other ts (new_timer cur fd ts) h (add_timer (new_timer cur fd ts) ts.next h)
  unfolding new_timer
  new_timer-Spares other ne made =
      Grown-Spares ts (new_timer cur fd ts) h fresh fd other new_timer-Grown ne
        (set_timer-ne ts.at ts.next fresh (ts.timer_of other) (omega arith))

-- The timer of a connection that has been active.
module _ (latest now fd : ℕ) (c : HttpConn) (ts : Timers) (h : TimeHeap)
    (l : Live latest fd c ts h) where
  abbrev p : ℕ
  p = ts.timer_of fd

  abbrev later : Timer
  later = record { expire = now + 15; cb_func = (ts.at p).cb_func; user_data = (ts.at p).user_data }

  abbrev off : Timers
  off = (adjust_timer now p ts h).0

  adjust_timer-Grown : Grown ts off h later fd
  unfolding adjust_timer del_timer
  adjust_timer-Grown = record {
    next = refl;
    here = set_timer-eq (set_timer ts.at p (record (ts.at p) { cb_func = false })) ts.next later;
    pointer = ap (λ u. set_at ts.timer_of u ts.next) l.owner;
  }

  adjust_timer-heap : (adjust_timer now p ts h).1 ≡ add_timer off ts.next h
  unfolding adjust_timer del_timer
  adjust_timer-heap = refl

  adjust_timer-deleted : off.deleted ≡ ts.deleted
  unfolding adjust_timer del_timer
  adjust_timer-deleted = refl

  pub adjust_timer-Live :
      (d : HttpConn)
      → now ≤ latest
      → d.sockfd ≡ c.sockfd
      → Live latest fd d off (adjust_timer now p ts h).1
  adjust_timer-Live d early same = rw adjust_timer-heap (
      Grown-Live ts off h later fd latest d adjust_timer-Grown (same ∙ l.socket) l.callback l.owner
        (omega arith))

  pub adjust_timer-Owned : Owned ts h → Owned off (adjust_timer now p ts h).1
  adjust_timer-Owned o =
      rw adjust_timer-heap (Owned-new ts off h o adjust_timer-Grown.next adjust_timer-deleted)

  adjust_timer-at : (q : ℕ) → q ≢ p → q < ts.next → off.at q ≡ ts.at q
  unfolding adjust_timer del_timer
  adjust_timer-at q away made =
      let dead : Timer = record (ts.at p) { cb_func = false } in
      set_timer-ne (set_timer ts.at p dead) ts.next later q (omega arith)
      ∙ set_timer-ne ts.at p dead q λ e. away (sym e)

  pub adjust_timer-Spares :
      (other : ℕ)
      → other ≢ fd
      → ts.timer_of other ≢ p
      → ts.timer_of other < ts.next
      → Spares other ts off h (adjust_timer now p ts h).1
  adjust_timer-Spares other ne away made = rw adjust_timer-heap (
      Grown-Spares ts off h later fd other adjust_timer-Grown ne
        (adjust_timer-at (ts.timer_of other) away made))

-- A timer that loses its callback.
module _ (timer : ℕ) (ts : Timers) (h : TimeHeap) where
  del_timer-expire : (q : ℕ) → expire_of (del_timer timer ts) q ≡ expire_of ts q
  unfolding del_timer
  del_timer-expire q =
      let dead : Timer = record (ts.at timer) { cb_func = false } in
      elim (same_or_not timer q) [
        | inl here ↦ rw⁻¹ here (ap (λ t. t.expire) (set_timer-eq ts.at timer dead))
        | inr away ↦ ap (λ t. t.expire) (set_timer-ne ts.at timer dead q away)
      ]

  pub del_timer-Sound : Sound ts h → Sound (del_timer timer ts) h
  unfolding del_timer
  del_timer-Sound s =
      Sound-extend ts (del_timer timer ts) h s (omega arith) λ q l. del_timer-expire q

  pub del_timer-Owned : Owned ts h → Owned (del_timer timer ts) h
  unfolding del_timer
  del_timer-Owned o = Owned-same ts (del_timer timer ts) h o refl refl

  pub del_timer-Spares :
      (other : ℕ) → ts.timer_of other ≢ timer → Spares other ts (del_timer timer ts) h h
  unfolding del_timer
  del_timer-Spares other away = record {
    pointer = refl;
    timer =
        set_timer-ne ts.at timer (record (ts.at timer) { cb_func = false }) (ts.timer_of other)
          λ e. away (sym e);
    in_heap = omega arith;
    more = omega arith;
  }

weigh-one : (w : ℕ → ℕ) (p : ℕ) (a : ℕ → ℕ) (n : ℕ) → 0 < tally p a n → w p ≤ weigh w a n
weigh-one w p a zero h = absurd (omega (arith, h))
weigh-one w p a (suc n) h = elim (same_or_not p (a n)) [
  | inl here ↦ let e : w p ≡ w (a n) = ap w here in omega (arith, e)
  | inr away ↦
      let none : one p (a n) ≡ 0 = ground arith in
      let rest = weigh-one w p a n (omega (arith, h, none)) in omega (arith, rest)
]

le→leb : (a b : ℕ) → a ≤ b → leb a b ≡ true
le→leb a b h = ground arith

not_later : (a b : ℕ) → ltb a b ≡ false → b ≤ a
not_later a b h = ground (arith, h)

itself : (p : ℕ) → one p p ≡ 1
itself p = ground arith

-- tick, for a live user.
module _ (latest cur fd : ℕ) (c : HttpConn) (ts : Timers) (h : TimeHeap) (s : Sound ts h)
    (l : Live latest fd c ts h) where
  -- A live user whose timer is due is called back.
  pub tick-due : expire_of ts (ts.timer_of fd) ≤ cur → 0 < times fd (tick cur ts h).0.called
  tick-due due =
      let p = ts.timer_of fd in
      let calls : due_calls cur ts.at fd p ≡ 1 =
        rw (le→leb (expire_of ts p) cur due, l.callback, l.owner) (itself fd) in
      let most = weigh-one (due_calls cur ts.at fd) p h.array h.cur_size l.pending in
      omega (arith, tick-calls cur fd ts h s, calls, most)

  -- One who is not called back stays live.
  pub tick-Spares :
      times fd (tick cur ts h).0.called ≡ 0 → Spares fd ts (tick cur ts h).0 h (tick cur ts h).1
  tick-Spares quiet =
      let p = ts.timer_of fd in
      let same = tick-SameTimers cur ts h s in
      let not_due : cur < expire_of ts p = elim (Bool-cases (ltb cur (expire_of ts p))) [
        | inl late ↦ ltb→lt cur (expire_of ts p) late
        | inr due ↦ absurd (omega (arith, quiet, tick-due (not_later cur (expire_of ts p) due)))
      ] in
      record {
        pointer = ap (λ m. m fd) same.timer_of;
        timer = ap (λ m. m p) same.at;
        in_heap = omega (arith, tally-tick cur p ts h not_due);
        more = omega (arith, same.next);
      }
