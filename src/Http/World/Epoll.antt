-- ===== src/Http/World/Epoll.antt =====
-- Which descriptors are on the epoll instance, by the calls of epoll_ctl.
use tiny_web_server_learning.Prelude.{
  ℕ, Bool, true, false, List, [], ◌∷◌, none, some, ◌==◌, if◌then◌else◌,
}
use tiny_web_server_learning.Http.World.{
  EpollCall, epoll_add, epoll_mod_in, epoll_mod_out, epoll_del,
}

-- Is `fd` on the instance after these calls, newest first?
abbrev pub watches : ℕ → List EpollCall → Bool
watches fd [] = false
watches fd (epoll_add f ∷ s) = if fd == f then true else watches fd s
watches fd (epoll_del (some f) ∷ s) = if fd == f then false else watches fd s
watches fd (epoll_del none ∷ s) = watches fd s
watches fd (epoll_mod_in f ∷ s) = watches fd s
watches fd (epoll_mod_out f ∷ s) = watches fd s
