-- ===== src/TimeHeap/Weigh.antt =====
-- The operations on the heap move its entries and change none: what the entries weigh, by any
-- weights, before and after.
use tiny_web_server_learning.Prelude.{
  ℕ, zero, suc, ◌+◌, ◌-◌, ◌*◌, ◌≤◌, ◌<◌, ◌≡◌, ◌≢◌, refl, ◌∙◌, ap, Bool, true, false, arith, leb,
  ltb, ◌==◌, if◌then◌else◌, inl, inr, ltb→lt, lt→ltb,
}
use tiny_web_server_learning.TimeHeap.{
  Timers, TimeHeap, set_at, expire_of, parent_of, percolate_up, smaller_child, percolate_down,
  put_timer, copy_of, resize, pop_timer,
}
use tiny_web_server_learning.TimeHeap.Order.{parent_lt, set_at-eq, set_at-ne, same_or_not}
use tiny_web_server_learning.TimeHeap.Down.{smaller_child-Least}

-- The sum of the weights of the first `n` entries.
abbrev pub weigh : (ℕ → ℕ) → (ℕ → ℕ) → ℕ → ℕ
weigh w a zero = 0
weigh w a (suc n) = weigh w a n + w (a n)

pub copy_of-at : (a : ℕ → ℕ) (n i : ℕ) → i < n → copy_of a n i ≡ a i
copy_of-at a n i l = rw (lt→ltb i n l)

module _ (w : ℕ → ℕ) where
  pub weigh-out : (a : ℕ → ℕ) (n i v : ℕ) → n ≤ i → weigh w (set_at a i v) n ≡ weigh w a n
  weigh-out a zero i v out = refl
  weigh-out a (suc n) i v out =
      let rest = weigh-out a n i v (omega arith) in
      let here : w (set_at a i v n) ≡ w (a n) = ap w (set_at-ne a i v n (omega arith)) in
      omega (arith, rest, here)

  pub weigh-set :
      (a : ℕ → ℕ) (n i v : ℕ) → i < n → weigh w (set_at a i v) n + w (a i) ≡ weigh w a n + w v
  weigh-set a zero i v l = absurd (omega arith)
  weigh-set a (suc n) i v l = elim (same_or_not i n) [
    | inl here ↦
        let rest = weigh-out a n i v (omega arith) in
        let new : w (set_at a i v n) ≡ w v = ap w (set_at-eq a i v n here) in
        let old : w (a i) ≡ w (a n) = ap (λ j. w (a j)) here in omega (arith, rest, new, old)
    | inr away ↦
        let rest = weigh-set a n i v (omega arith) in
        let kept : w (set_at a i v n) ≡ w (a n) = ap w (set_at-ne a i v n away) in
        omega (arith, rest, kept)
  ]

  -- The hole moves from `h` to `c`.
  pub weigh-move :
      (a : ℕ → ℕ) (n h c v : ℕ)
      → h < n
      → c < n
      → h ≢ c
      → weigh w (set_at (set_at a h (a c)) c v) n ≡ weigh w (set_at a h v) n
  weigh-move a n h c v hl cl apart =
      let x = weigh-set (set_at a h (a c)) n c v cl in
      let y = weigh-set a n h (a c) hl in
      let z = weigh-set a n h v hl in
      let same : w (set_at a h (a c) c) ≡ w (a c) = ap w (set_at-ne a h (a c) c apart) in
      omega (arith, x, y, z, same)

  pub weigh-if :
      (n m : ℕ) (b : Bool) (x y : ℕ → ℕ)
      → (b ≡ true → weigh w x n ≡ m)
      → (b ≡ false → weigh w y n ≡ m)
      → weigh w (if b then x else y) n ≡ m
  weigh-if n m true x y h k = h refl
  weigh-if n m false x y h k = k refl

  pub weigh-percolate_up :
      (key : ℕ → ℕ) (k : ℕ) (a : ℕ → ℕ) (n hole timer : ℕ)
      → hole < n
      → weigh w (percolate_up k key a hole timer) n ≡ weigh w (set_at a hole timer) n
  unfolding percolate_up
  weigh-percolate_up key zero a n hole timer l = refl
  weigh-percolate_up key (suc k) a n hole timer l =
      let q = parent_of hole in
      weigh-if n _ (ltb 0 hole) _ _
        (λ inner.
          let less : q < hole = parent_lt hole (ltb→lt 0 hole inner) in
          weigh-if n _ (leb (key (a q)) (key timer)) _ _ (λ _. refl)
            λ _.
              weigh-percolate_up key k (set_at a hole (a q)) n q timer (omega (arith, less, l))
              ∙ weigh-move a n hole q timer l (omega (arith, less, l)) (omega (arith, less)))
        λ _. refl

  pub weigh-percolate_down :
      (key : ℕ → ℕ) (k : ℕ) (a : ℕ → ℕ) (n hole timer : ℕ)
      → hole < n
      → weigh w (percolate_down k key a n hole timer) n ≡ weigh w (set_at a hole timer) n
  unfolding percolate_down
  weigh-percolate_down key zero a n hole timer l = refl
  weigh-percolate_down key (suc k) a n hole timer l =
      let c = smaller_child key a n hole in
      weigh-if n _ (ltb (hole * 2 + 1) n) _ _
        (λ inner.
          let s = smaller_child-Least key a n hole (ltb→lt _ _ inner) in
          weigh-if n _ (ltb (key (a c)) (key timer)) _ _
            (λ _.
              weigh-percolate_down key k (set_at a hole (a c)) n c timer s.inside
              ∙ weigh-move a n hole c timer l s.inside (omega (arith, s.past)))
            λ _. refl)
        λ _. refl

  pub weigh-sink :
      (key a : ℕ → ℕ) (k n : ℕ)
      → weigh w (percolate_down k key (set_at a 0 (a n)) n 0 (set_at a 0 (a n) 0)) n + w (a 0)
        ≡ weigh w a (suc n)
  weigh-sink key a k zero = omega arith
  weigh-sink key a k (suc n) =
      let b = set_at a 0 (a (suc n)) in
      let down = weigh-percolate_down key k b (suc n) 0 (b 0) (omega arith) in
      let again = weigh-set b (suc n) 0 (b 0) (omega arith) in
      let first = weigh-set a (suc n) 0 (a (suc n)) (omega arith) in
      omega (arith, down, again, first)

  pub weigh-put_timer :
      (ts : Timers) (h : TimeHeap) (timer : ℕ)
      → weigh w (put_timer ts timer h).array (put_timer ts timer h).cur_size
        ≡ weigh w h.array h.cur_size + w timer
  unfolding put_timer
  weigh-put_timer ts h timer =
      let n = h.cur_size in
      let up = weigh-percolate_up (expire_of ts) (suc n) h.array (suc n) n timer (omega arith) in
      let out = weigh-out h.array n n timer (omega arith) in
      let new : w (set_at h.array n timer n) ≡ w timer = ap w (set_at-eq h.array n timer n refl) in
      omega (arith, up, out, new)

  weigh-copy : (a : ℕ → ℕ) (n m : ℕ) → n ≤ m → weigh w (copy_of a m) n ≡ weigh w a n
  weigh-copy a zero m l = refl
  weigh-copy a (suc n) m l =
      let rest = weigh-copy a n m (omega arith) in
      let here : w (copy_of a m n) ≡ w (a n) = ap w (copy_of-at a m n (omega arith)) in
      omega (arith, rest, here)

  pub weigh-resize :
      (h : TimeHeap) (b : Bool)
      → let g = if b then resize h else h in weigh w g.array g.cur_size ≡ weigh w h.array h.cur_size
  unfolding resize
  weigh-resize h true = weigh-copy h.array h.cur_size h.cur_size (omega arith)
  weigh-resize h false = refl

  pub weigh-pop_timer :
      (ts : Timers) (h : TimeHeap) (n : ℕ)
      → h.cur_size ≡ suc n
      → weigh w (pop_timer ts h).1.array (pop_timer ts h).1.cur_size + w (h.array 0)
          ≡ weigh w h.array (suc n)
        × ((pop_timer ts h).1.cur_size ≡ n)
        × ((pop_timer ts h).0.at ≡ ts.at)
  unfolding pop_timer
  weigh-pop_timer ts h n e =
      let some_left : (h.cur_size == 0) ≡ false = ground (arith, e) in
      let size : h.cur_size - 1 ≡ n = omega (arith, e) in
      rw (some_left, size) (weigh-sink (expire_of ts) h.array (suc n) n, refl, refl)
