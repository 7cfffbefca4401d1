-- ===== src/TimeHeap/Order.antt =====
-- The order of the heap: no timer expires before its parent.
use tiny_web_server_learning.Prelude.{
  ℕ, zero, suc, ◌+◌, ◌*◌, ◌≤◌, ◌<◌, ◌≡◌, ◌≢◌, sym, ap, arith, leb, ltb, ◌⊎◌, inl, inr, Bool-cases,
  ltb→lt, leb→le,
}
use tiny_web_server_learning.TimeHeap.{set_at, parent_of, percolate_up}

pub parent_lt : (i : ℕ) → 0 < i → parent_of i < i
unfolding parent_of
parent_lt i h = omega arith

pub children : (i h : ℕ) → 0 < i → parent_of i ≡ h → (i ≡ h * 2 + 1) ⊎ (i ≡ h * 2 + 2)
unfolding parent_of
children i h pos e = omega arith

pub parent_of-left : (h : ℕ) → parent_of (h * 2 + 1) ≡ h
unfolding parent_of
parent_of-left h = omega arith

pub parent_of-right : (h : ℕ) → parent_of (h * 2 + 2) ≡ h
unfolding parent_of
parent_of-right h = omega arith

pub set_at-eq : (a : ℕ → ℕ) (h v j : ℕ) → h ≡ j → set_at a h v j ≡ v
set_at-eq a h v j e = ground arith

pub set_at-ne : (a : ℕ → ℕ) (h v j : ℕ) → h ≢ j → set_at a h v j ≡ a j
set_at-ne a h v j e = ground arith

pub same_or_not : (i j : ℕ) → (i ≡ j) ⊎ (i ≢ j)
same_or_not i j = omega arith

module _ (key : ℕ → ℕ) where
  -- The first `n` entries are in order.
  abbrev pub Ordered : (ℕ → ℕ) → ℕ → Type 0
  Ordered a n = (i : ℕ) → 0 < i → i < n → key (a (parent_of i)) ≤ key (a i)

  -- The entries are in order but at the hole, into which `timer` is to go: it fits above the
  -- children, and the parent of the hole fits there, too.
  pub record Up (a : ℕ → ℕ) (n hole timer : ℕ) : Type 0 where
    pub inside : hole < n
    pub others :
        (i : ℕ) → 0 < i → i < n → i ≢ hole → parent_of i ≢ hole → key (a (parent_of i)) ≤ key (a i)
    pub below : (i : ℕ) → 0 < i → i < n → parent_of i ≡ hole → key timer ≤ key (a i)
    pub across :
        (i : ℕ)
        → 0 < i
        → i < n
        → 0 < hole
        → parent_of i ≡ hole
        → key (a (parent_of hole)) ≤ key (a i)

  pub place-Ordered :
      (a : ℕ → ℕ) (n hole timer : ℕ)
      → Up a n hole timer
      → (hole ≡ 0) ⊎ (key (a (parent_of hole)) ≤ key timer)
      → Ordered (set_at a hole timer) n
  place-Ordered a n hole timer u fits i pos lt = elim (same_or_not hole i) [
    | inl here ↦
        let above : hole ≢ parent_of i = omega (arith, parent_lt i pos) in
        rw (set_at-eq a hole timer i here, set_at-ne a hole timer (parent_of i) above)
          (elim fits [ inl root ↦ absurd (omega arith) | inr fit ↦ rw⁻¹ here fit ])
    | inr away ↦ elim (same_or_not hole (parent_of i)) [
      | inl child ↦
          rw (set_at-ne a hole timer i away, set_at-eq a hole timer (parent_of i) child)
            (u.below i pos lt (sym child))
      | inr apart ↦
          rw (set_at-ne a hole timer i away, set_at-ne a hole timer (parent_of i) apart)
            (u.others i pos lt (omega arith) (omega arith))
    ]
  ]

  move-Up :
      (a : ℕ → ℕ) (n hole timer : ℕ)
      → Up a n hole timer
      → 0 < hole
      → key timer < key (a (parent_of hole))
      → Up (set_at a hole (a (parent_of hole))) n (parent_of hole) timer
  move-Up a n hole timer u pos late = record {
    inside = omega (arith, parent_lt hole pos, u.inside);
    others = λ i p l ne np. move_others i p l ne np;
    below = λ i p l e. move_below i p l e;
    across = λ i p l q e. move_across i p l q e;
  }
    where
      p0 : ℕ
      p0 = parent_of hole

      less : p0 < hole
      less = parent_lt hole pos

      move_others :
          (i : ℕ)
          → 0 < i
          → i < n
          → i ≢ p0
          → parent_of i ≢ p0
          → key (set_at a hole (a p0) (parent_of i)) ≤ key (set_at a hole (a p0) i)
      move_others i p l ne np = elim (same_or_not hole i) [
        | inl here ↦ absurd (np (ap parent_of (sym here)))
        | inr away ↦ elim (same_or_not hole (parent_of i)) [
          | inl child ↦
              rw (set_at-ne a hole (a p0) i away, set_at-eq a hole (a p0) (parent_of i) child)
                (u.across i p l pos (sym child))
          | inr apart ↦
              rw (set_at-ne a hole (a p0) i away, set_at-ne a hole (a p0) (parent_of i) apart)
                (u.others i p l (omega arith) (omega arith))
        ]
      ]

      under : (i : ℕ) → 0 < i → i < n → hole ≢ i → parent_of i ≡ p0 → key (a p0) ≤ key (a i)
      under i p l away e =
          let moved : key (a (parent_of i)) ≡ key (a p0) = ap (λ j. key (a j)) e in
          let order = u.others i p l (omega arith) (omega (arith, less, e)) in
          omega (arith, order, moved)

      move_below :
          (i : ℕ) → 0 < i → i < n → parent_of i ≡ p0 → key timer ≤ key (set_at a hole (a p0) i)
      move_below i p l e = elim (same_or_not hole i) [
        | inl here ↦ rw (set_at-eq a hole (a p0) i here) (omega arith)
        | inr away ↦
            let order = under i p l away e in
            rw (set_at-ne a hole (a p0) i away) (omega (arith, order, late))
      ]

      move_across :
          (i : ℕ)
          → 0 < i
          → i < n
          → 0 < p0
          → parent_of i ≡ p0
          → key (set_at a hole (a p0) (parent_of p0)) ≤ key (set_at a hole (a p0) i)
      move_across i p l q e =
          let above : parent_of p0 < p0 = parent_lt p0 q in
          let order =
            u.others p0 q (omega (arith, less, u.inside)) (omega (arith, less))
              (omega (arith, less, above)) in
          rw (set_at-ne a hole (a p0) (parent_of p0) (omega (arith, less, above)))
            (elim (same_or_not hole i) [
              | inl here ↦ rw (set_at-eq a hole (a p0) i here) order
              | inr away ↦
                  let low = under i p l away e in
                  rw (set_at-ne a hole (a p0) i away) (omega (arith, order, low))
            ])

  pub percolate_up-Ordered :
      (k : ℕ) (a : ℕ → ℕ) (n hole timer : ℕ)
      → hole < k
      → Up a n hole timer
      → Ordered (percolate_up k key a hole timer) n
  unfolding percolate_up
  percolate_up-Ordered zero a n hole timer few u = absurd (omega arith)
  percolate_up-Ordered (suc k) a n hole timer few u = elim (Bool-cases (ltb 0 hole)) [
    | inr root ↦ rw root (place-Ordered a n hole timer u (inl (ground (arith, root))))
    | inl inner ↦
        let pos : 0 < hole = ltb→lt 0 hole inner in
        rw inner (elim (Bool-cases (leb (key (a (parent_of hole))) (key timer))) [
          | inl fits ↦ rw fits (place-Ordered a n hole timer u (inr (leb→le _ _ fits)))
          | inr late ↦ rw late (
              percolate_up-Ordered k (set_at a hole (a (parent_of hole))) n (parent_of hole) timer
                (omega (arith, parent_lt hole pos, few))
                (move-Up a n hole timer u pos (ground (arith, late))))
        ])
  ]
