-- ===== src/Server/Keeps.antt =====
-- Each thing that the server of src/server_epoll.cpp does keeps its connections watched by live
-- timers.
use tiny_web_server_learning.Prelude.{
  ℕ, ◌≤◌, ◌≡◌, ◌≢◌, refl, sym, ◌∙◌, ap, Bool, true, false, List, [], ◌∷◌, Option, none, some, arith,
  ltb, ◌==◌, if◌then◌else◌, inl, inr,
}
use tiny_web_server_learning.Prelude.Int.{pos, ltb_ℤ}
use tiny_web_server_learning.Memory.Partial.{Allows, allows, faults, Allows-if}
use tiny_web_server_learning.Http.Types.{HttpConn}
use tiny_web_server_learning.Http.World.{World, epoll_add, epoll_del}
use tiny_web_server_learning.Http.World.Epoll.{watches}
use tiny_web_server_learning.Http.Conn.{init, init_parse_state, close_conn}
use tiny_web_server_learning.TimeHeap.Order.{same_or_not}
use tiny_web_server_learning.TimeHeap.Pending.{Sound}
use tiny_web_server_learning.TimeHeap.Tick.{adjust_timer-Sound}
use tiny_web_server_learning.TimeHeap.Owned.{Owned}
use tiny_web_server_learning.Server.State.{Server, set_conn, max_fd}
use tiny_web_server_learning.Server.Accept.{take_on, on_accept, on_signal, on_signals}
use tiny_web_server_learning.Server.Handle.{put_off, drop_conn}
use tiny_web_server_learning.Server.Watched.{Live, Live-Spares, Spares, Watched, apart}
use tiny_web_server_learning.Server.Expiry.{
  new_timer-Owned, adjust_timer-Owned, del_timer-Owned, new_timer-Sound, new_timer-Live,
  new_timer-Spares, adjust_timer-Live, adjust_timer-Spares, del_timer-Sound, del_timer-Spares,
}

pub set_conn-eq : (fd : ℕ) (c : HttpConn) (s : Server) → (set_conn fd c s).users fd ≡ c
set_conn-eq fd c s = ground arith

pub set_conn-ne :
    (fd g : ℕ) (c : HttpConn) (s : Server) → g ≢ fd → (set_conn fd c s).users g ≡ s.users g
set_conn-ne fd g c s ne = ground arith

watches-add : (g fd : ℕ) (s : List _) → g ≢ fd → watches g (epoll_add fd ∷ s) ≡ watches g s
watches-add g fd s ne = ground arith

pub watches-del :
    (g fd : ℕ) (s : List _) → g ≢ fd → watches g (epoll_del (some fd) ∷ s) ≡ watches g s
watches-del g fd s ne = ground arith

pub watches-del_itself : (fd : ℕ) (s : List _) → watches fd (epoll_del (some fd) ∷ s) ≡ false
watches-del_itself fd s = ground arith

pub true_not_false {ℓ} : {A : Type ℓ} {b : Bool} → b ≡ true → b ≡ false → A
true_not_false e f = cc

pub close_conn-live :
    (w : World) (c : HttpConn) (fd : ℕ)
    → c.sockfd ≡ some fd
    → ((close_conn w c).0.sockfd ≡ none)
      × ((close_conn w c).1.epoll ≡ epoll_del (some fd) ∷ w.epoll)
unfolding close_conn
close_conn-live w c fd e = rw e (refl, refl)

module _ (server_fd pipe_fd latest : ℕ) where
  -- What is done with the user of `fd` leaves the others alone.
  pub change-Watched :
      (fd : ℕ) (s t : Server)
      → Watched server_fd pipe_fd latest s
      → Sound t.timers t.timer_lst
      → Owned t.timers t.timer_lst
      → ((g : ℕ) → g ≢ fd → (t.users g).sockfd ≡ (s.users g).sockfd)
      → ((g : ℕ) → g ≢ fd → watches g t.world.epoll ≡ true → watches g s.world.epoll ≡ true)
      → ((g : ℕ)
          → g ≢ fd
          → Live latest g (s.users g) s.timers s.timer_lst
          → Spares g s.timers t.timers s.timer_lst t.timer_lst)
      → (fd ≢ server_fd
          → fd ≢ pipe_fd
          → watches fd t.world.epoll ≡ true
          → Live latest fd (t.users fd) t.timers t.timer_lst)
      → Watched server_fd pipe_fd latest t
  change-Watched fd s t w sound owned users calls spares itself = record {
    sound = sound;
    owned = owned;
    live = λ g ns np watched. elim (same_or_not g fd) [
      | inl here ↦ rw here (
          itself (λ e. ns (here ∙ e)) (λ e. np (here ∙ e))
            (ap (λ f. watches f t.world.epoll) (sym here) ∙ watched))
      | inr away ↦
          let l = w.live g ns np (calls g away watched) in
          Live-Spares latest g (s.users g) (t.users g) s.timers t.timers s.timer_lst t.timer_lst l
            (users g away) (spares g away l)
    ];
  }

  take_on-Watched :
      (cur connfd : ℕ) (s : Server)
      → cur ≤ latest
      → Watched server_fd pipe_fd latest s
      → Allows (Watched server_fd pipe_fd latest) (take_on cur connfd s)
  unfolding take_on init init_parse_state
  take_on-Watched cur connfd s early w =
      Allows-if (ltb connfd max_fd)
        (allows (
          change-Watched connfd s _ w (new_timer-Sound cur connfd s.timers s.timer_lst w.sound)
            (new_timer-Owned cur connfd s.timers s.timer_lst w.owned)
            (λ g ne. ap (λ c. c.sockfd) (set_conn-ne connfd g _ s ne))
            (λ g ne h. sym (watches-add g connfd s.world.epoll ne) ∙ h)
            (λ g ne l. new_timer-Spares cur connfd s.timers s.timer_lst g ne l.made)
            (λ ns np watched.
              rw (set_conn-eq connfd (init s.world (s.users connfd) connfd).0 s)
                (new_timer-Live cur connfd s.timers s.timer_lst latest _ early refl))))
        faults

  -- Where neither the users, nor the timers, nor the instance change.
  pub same-Watched :
      (s t : Server)
      → Watched server_fd pipe_fd latest s
      → t.users ≡ s.users
      → t.timers ≡ s.timers
      → t.timer_lst ≡ s.timer_lst
      → t.world.epoll ≡ s.world.epoll
      → Watched server_fd pipe_fd latest t
  same-Watched s t w users timers heap calls = record {
    sound = rw (timers, heap) w.sound;
    owned = rw (timers, heap) w.owned;
    live = λ g ns np watched.
        let l = w.live g ns np (ap (watches g) (sym calls) ∙ watched) in rw (users, timers, heap) l;
  }

  pub on_accept-Watched :
      (cur : ℕ) (o : Option ℕ) (s : Server)
      → cur ≤ latest
      → Watched server_fd pipe_fd latest s
      → Allows (Watched server_fd pipe_fd latest) (on_accept cur o s)
  unfolding on_accept
  on_accept-Watched cur none s early w = allows w
  on_accept-Watched cur (some connfd) s early w =
      Allows-if (ltb_ℤ s.world.user_count (pos max_fd)) (take_on-Watched cur connfd s early w)
        (allows (same-Watched s _ w refl refl refl refl))

  on_signal-Watched :
      (sig : ℕ) (s : Server)
      → Watched server_fd pipe_fd latest s
      → Watched server_fd pipe_fd latest (on_signal sig s)
  unfolding on_signal
  on_signal-Watched sig s w = Watched-if (sig == 14) (same-Watched s _ w refl refl refl refl) (
      Watched-if (sig == 15) (same-Watched s _ w refl refl refl refl)
        (Watched-if (sig == 2) (same-Watched s _ w refl refl refl refl) w))
    where
      Watched-if :
          {t u : Server} (b : Bool)
          → Watched server_fd pipe_fd latest t
          → Watched server_fd pipe_fd latest u
          → Watched server_fd pipe_fd latest (if b then t else u)
      Watched-if true p q = p
      Watched-if false p q = q

  pub on_signals-Watched :
      (sigs : List ℕ) (s : Server)
      → Watched server_fd pipe_fd latest s
      → Watched server_fd pipe_fd latest (on_signals sigs s)
  unfolding on_signals
  on_signals-Watched [] s w = w
  on_signals-Watched (sig ∷ rest) s w =
      on_signals-Watched rest (on_signal sig s) (on_signal-Watched sig s w)

  -- A connection that was read from or written to.
  module _ (fd : ℕ) (c : HttpConn) (v : World) (s : Server) (w : Watched server_fd pipe_fd latest s)
      (l : Live latest fd (s.users fd) s.timers s.timer_lst)
      (socket : c.sockfd ≡ (s.users fd).sockfd)
      (calls : (g : ℕ) → watches g v.epoll ≡ watches g s.world.epoll) where
    abbrev moved : Server
    moved = record (set_conn fd c s) { world = v }

    pub moved-Live : Live latest fd (moved.users fd) moved.timers moved.timer_lst
    moved-Live = record {
      socket = ap (λ d. d.sockfd) (set_conn-eq fd c s) ∙ socket ∙ l.socket;
      callback = l.callback;
      owner = l.owner;
      pending = l.pending;
      made = l.made;
      soon = l.soon;
    }

    pub moved-Watched : Watched server_fd pipe_fd latest moved
    moved-Watched =
        change-Watched fd s moved w w.sound w.owned
          (λ g ne. ap (λ d. d.sockfd) (set_conn-ne fd g c s ne)) (λ g ne h. sym (calls g) ∙ h)
          (λ g ne k. record {
            pointer = refl;
            timer = refl;
            in_heap = omega arith;
            more = omega arith;
          })
          (λ ns np watched. moved-Live)

  -- What follows it.
  module _ (fd : ℕ) (s : Server) (w : Watched server_fd pipe_fd latest s)
      (l : Live latest fd (s.users fd) s.timers s.timer_lst) where
    pub put_off-Watched :
        (now : ℕ) → now ≤ latest → Watched server_fd pipe_fd latest (put_off now fd s)
    unfolding put_off
    put_off-Watched now early =
        change-Watched fd s _ w
          (adjust_timer-Sound now (s.timers.timer_of fd) s.timers s.timer_lst w.sound l.made).0
          (adjust_timer-Owned latest now fd (s.users fd) s.timers s.timer_lst l w.owned)
          (λ g ne. refl) (λ g ne h. h)
          (λ g ne k.
            adjust_timer-Spares latest now fd (s.users fd) s.timers s.timer_lst l g ne
              (apart latest g fd (s.users g) (s.users fd) s.timers s.timer_lst k l ne) k.made)
          (λ ns np watched.
            adjust_timer-Live latest now fd (s.users fd) s.timers s.timer_lst l (s.users fd) early
              refl)

    pub drop_conn-Watched : Watched server_fd pipe_fd latest (drop_conn fd s)
    unfolding drop_conn
    drop_conn-Watched =
        let (none_left, shut) = close_conn-live s.world (s.users fd) fd l.socket in
        let closed = (close_conn s.world (s.users fd)).0 in
        change-Watched fd s _ w
          (del_timer-Sound (s.timers.timer_of fd) s.timers s.timer_lst w.sound)
          (del_timer-Owned (s.timers.timer_of fd) s.timers s.timer_lst w.owned)
          (λ g ne. ap (λ d. d.sockfd) (set_conn-ne fd g closed s ne))
          (λ g ne h. sym (watches-del g fd s.world.epoll ne) ∙ ap (watches g) (sym shut) ∙ h)
          (λ g ne k.
            del_timer-Spares (s.timers.timer_of fd) s.timers s.timer_lst g
              (apart latest g fd (s.users g) (s.users fd) s.timers s.timer_lst k l ne))
          (λ ns np watched.
            true_not_false watched (ap (watches fd) shut ∙ watches-del_itself fd s.world.epoll))
