-- ===== src/Http/World.antt =====
-- What a connection shares with the rest of the program, and what it asks of the system.
pub mod Users
pub mod Epoll
use tiny_web_server_learning.Prelude.{ℕ, Bool, List, [], ◌∷◌, Option, none, some, if◌then◌else◌}
use tiny_web_server_learning.Prelude.Int.{ℤ}
use tiny_web_server_learning.CString.{same_bytes}
use tiny_web_server_learning.Http.Types.{FileStat}

-- The global map `users`: names and passwords.
abbrev pub Users : Type 0
Users = List (List ℕ × List ℕ)

unfoldable pub find_user : List ℕ → Users → Option (List ℕ)
find_user k [] = none
find_user k ((j, v) ∷ m) = if same_bytes j k then some v else find_user k m

-- users[k] = v
unfoldable pub set_user : List ℕ → List ℕ → Users → Users
set_user k v [] = (k, v) ∷ []
set_user k v ((j, w) ∷ m) = if same_bytes j k then (k, v) ∷ m else (j, w) ∷ set_user k v m

-- A call on the epoll instance, by its file descriptor; EPOLLIN or EPOLLOUT for a change. The
-- descriptor is none for -1.
pub data EpollCall : Type 0 where
  epoll_add : ℕ → EpollCall
  epoll_mod_in epoll_mod_out epoll_del : Option ℕ → EpollCall

-- `files` are the files written by fwrite, `queries` the INSERTs sent, each newest first; `epoll`
-- and `closed` are the calls of epoll_ctl and close, and `sent` the bytes that each call of writev has
-- handed to a socket, newest first.
pub record World : Type 0 where
  pub users : Users
  pub files : List (List ℕ × List ℕ)
  pub queries : List (List ℕ)
  pub epoll : List EpollCall
  pub closed : List ℕ
  pub sent : List (Option ℕ × List ℕ)
  pub user_count : ℤ

-- The system's answers: does fopen of a path for writing succeed, does the database accept an
-- INSERT after those before it, what stat says of a path, and the contents of a file that
-- can be opened and mapped.
pub record System : Type 0 where
  pub can_write : List ℕ → Bool
  pub insert_ok : List (List ℕ) → List ℕ → Bool
  pub stat : List ℕ → Option FileStat
  pub contents : List ℕ → Option (List ℕ)
