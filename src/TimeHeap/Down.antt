-- ===== src/TimeHeap/Down.antt =====
-- The loop of pop_timer keeps the order of the heap.
use tiny_web_server_learning.Prelude.{
  ℕ, zero, suc, ◌+◌, ◌-◌, ◌*◌, ◌≤◌, ◌<◌, ◌≡◌, ◌≢◌, refl, ◌∙◌, sym, ap, Bool, true, false, ◌&&◌,
  arith, ltb, ◌⊎◌, inl, inr, Bool-cases, ltb→lt,
}
use tiny_web_server_learning.TimeHeap.{set_at, parent_of, smaller_child, percolate_down}
use tiny_web_server_learning.TimeHeap.Order.{
  parent_lt, children, parent_of-left, parent_of-right, set_at-eq, set_at-ne, same_or_not, Ordered,
  place-Ordered,
}

module _ (key : ℕ → ℕ) where
  -- `c` is the child of `hole` that expires first.
  pub record Least (a : ℕ → ℕ) (n hole c : ℕ) : Type 0 where
    pub inside : c < n
    pub up : parent_of c ≡ hole
    pub past : hole < c
    pub least : (i : ℕ) → 0 < i → i < n → parent_of i ≡ hole → key (a c) ≤ key (a i)

  pub smaller_child-Least :
      (a : ℕ → ℕ) (n hole : ℕ) → hole * 2 + 1 < n → Least a n hole (smaller_child key a n hole)
  unfolding smaller_child
  smaller_child-Least a n hole room =
      let l = hole * 2 + 1 in
      elim (Bool-cases (ltb l (n - 1) && ltb (key (a (l + 1))) (key (a l)))) [
        | inl right ↦
            let (inside, less) = both (ltb l (n - 1)) (ltb (key (a (l + 1))) (key (a l))) right in
            let lt : key (a (l + 1)) < key (a l) = ltb→lt _ _ less in
            rw right (record {
              inside = omega (arith, ltb→lt l (n - 1) inside);
              up = ap parent_of next ∙ parent_of-right hole;
              past = omega arith;
              least = λ i p q e.
                  of_two i (l + 1) (children i hole p e) (omega (arith, lt)) (omega arith);
            })
        | inr left ↦ rw left (record {
          inside = room;
          up = parent_of-left hole;
          past = omega arith;
          least = λ i p q e. of_left i (children i hole p e) q left;
        })
      ]
    where
      next : hole * 2 + 1 + 1 ≡ hole * 2 + 2
      next = omega arith

      both : (x y : Bool) → (x && y) ≡ true → (x ≡ true) × (y ≡ true)
      both true y h = (refl, h)
      both false y h = cc h

      of_two :
          (i c : ℕ)
          → (i ≡ hole * 2 + 1) ⊎ (i ≡ hole * 2 + 2)
          → key (a c) ≤ key (a (hole * 2 + 1))
          → key (a c) ≤ key (a (hole * 2 + 1 + 1))
          → key (a c) ≤ key (a i)
      of_two i c (inl e) x y = rw e x
      of_two i c (inr e) x y = rw (e, sym next) y

      of_left :
          (i : ℕ)
          → (i ≡ hole * 2 + 1) ⊎ (i ≡ hole * 2 + 2)
          → i < n
          → (ltb (hole * 2 + 1) (n - 1)
              && ltb (key (a (hole * 2 + 1 + 1))) (key (a (hole * 2 + 1))))
            ≡ false
          → key (a (hole * 2 + 1)) ≤ key (a i)
      of_left i (inl e) q left = rw e (omega arith)
      of_left i (inr e) q left =
          let later : key (a (hole * 2 + 1)) ≤ key (a (hole * 2 + 1 + 1)) = ground (arith, left) in
          rw (e, sym next) later

  -- The entries are in order but at the hole, into which `timer` is to go: the parent of the hole
  -- fits above `timer` and above the children.
  pub record Down (a : ℕ → ℕ) (n hole timer : ℕ) : Type 0 where
    pub others :
        (i : ℕ) → 0 < i → i < n → i ≢ hole → parent_of i ≢ hole → key (a (parent_of i)) ≤ key (a i)
    pub above : 0 < hole → key (a (parent_of hole)) ≤ key timer
    pub across :
        (i : ℕ)
        → 0 < i
        → i < n
        → 0 < hole
        → parent_of i ≡ hole
        → key (a (parent_of hole)) ≤ key (a i)

  -- The place is found when no child expires before `timer`.
  stop-Ordered :
      (a : ℕ → ℕ) (n hole timer : ℕ)
      → hole < n
      → Down a n hole timer
      → ((i : ℕ) → 0 < i → i < n → parent_of i ≡ hole → key timer ≤ key (a i))
      → Ordered key (set_at a hole timer) n
  stop-Ordered a n hole timer inside d fits =
      place-Ordered key a n hole timer
        (record { inside = inside; others = d.others; below = fits; across = d.across })
        (root_or_fits hole d.above)
    where
      root_or_fits :
          (h : ℕ)
          → (0 < h → key (a (parent_of h)) ≤ key timer)
          → (h ≡ 0) ⊎ (key (a (parent_of h)) ≤ key timer)
      root_or_fits zero f = inl refl
      root_or_fits (suc h) f = inr (f (omega arith))

  move-Down :
      (a : ℕ → ℕ) (n hole timer c : ℕ)
      → Down a n hole timer
      → Least a n hole c
      → key (a c) < key timer
      → Down (set_at a hole (a c)) n c timer
  move-Down a n hole timer c d s late = record {
    others = move_others;
    above = λ pos. rw (set_at-eq a hole (a c) (parent_of c) (sym s.up)) (omega arith);
    across = λ i p l pos e.
        let order =
          d.others i p l (omega (arith, parent_lt i p, e, s.past)) (omega (arith, e, s.past)) in
        let there : key (a (parent_of i)) ≡ key (a c) = ap (λ j. key (a j)) e in
        rw
          (
            set_at-eq a hole (a c) (parent_of c) (sym s.up),
            set_at-ne a hole (a c) i (omega (arith, parent_lt i p, e, s.past)),
          )
          (omega (arith, order, there));
  }
    where
      move_others :
          (i : ℕ)
          → 0 < i
          → i < n
          → i ≢ c
          → parent_of i ≢ c
          → key (set_at a hole (a c) (parent_of i)) ≤ key (set_at a hole (a c) i)
      move_others i p l ne np = elim (same_or_not hole i) [
        | inl here ↦
            let pos : 0 < hole = omega (arith, here, p) in
            rw
              (
                set_at-eq a hole (a c) i here,
                set_at-ne a hole (a c) (parent_of i) (omega (arith, parent_lt i p, here)),
                sym here,
              )
              (d.across c (omega (arith, s.past)) s.inside pos s.up)
        | inr away ↦ elim (same_or_not hole (parent_of i)) [
          | inl child ↦
              rw (set_at-ne a hole (a c) i away, set_at-eq a hole (a c) (parent_of i) child)
                (s.least i p l (sym child))
          | inr apart ↦
              rw (set_at-ne a hole (a c) i away, set_at-ne a hole (a c) (parent_of i) apart)
                (d.others i p l (omega arith) (omega arith))
        ]
      ]

  pub percolate_down-Ordered :
      (k : ℕ) (a : ℕ → ℕ) (n hole timer : ℕ)
      → n - hole < k
      → hole < n
      → Down a n hole timer
      → Ordered key (percolate_down k key a n hole timer) n
  unfolding percolate_down
  percolate_down-Ordered zero a n hole timer few inside d = absurd (omega arith)
  percolate_down-Ordered (suc k) a n hole timer few inside d =
      elim (Bool-cases (ltb (hole * 2 + 1) n)) [
        | inr leaf ↦
            let end : n ≤ hole * 2 + 1 = ground (arith, leaf) in
            rw leaf (
              stop-Ordered a n hole timer inside d
                λ i p l e. absurd (ground (arith, children i hole p e, end, l)))
        | inl inner ↦
            let c = smaller_child key a n hole in
            let s = smaller_child-Least a n hole (ltb→lt _ _ inner) in
            rw inner (elim (Bool-cases (ltb (key (a c)) (key timer))) [
              | inl late ↦ rw late (
                  percolate_down-Ordered k (set_at a hole (a c)) n c timer
                    (omega (arith, few, s.past, s.inside)) s.inside
                    (move-Down a n hole timer c d s (ltb→lt _ _ late)))
              | inr fits ↦
                  let first : key timer ≤ key (a c) = ground (arith, fits) in
                  rw fits (
                    stop-Ordered a n hole timer inside d
                      λ i p l e. let least = s.least i p l e in omega (arith, first, least))
            ])
      ]
