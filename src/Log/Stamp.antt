-- ===== src/Log/Stamp.antt =====
-- The stamp of a line of the log: the time and the level.
use tiny_web_server_learning.Prelude.{
  ℕ, suc, ◌+◌, ◌^◌, ◌≤◌, ◌<◌, ◌≡◌, refl, Bool, true, false, List, [], ◌∷◌, ◌++◌, arith, leb, leb→le,
  ◌==◌, if◌then◌else◌, length, length-append, codes,
}
use tiny_web_server_learning.Memory.Strings.{NoNul}
use tiny_web_server_learning.CString.{contains}
use tiny_web_server_learning.CString.Print.{
  decimal_before, padded, NoNul-append, NoNul-padded, NoNul-decimal_before, length-padded,
  length-decimal_before,
}
use tiny_web_server_learning.Log.State.{Tm}
use tiny_web_server_learning.Log.Write.{level_name, stamp}

-- A time of the calendar, before the year 10000.
pub record IsTime (tm : Tm) : Type 0 where
  pub year : tm.tm_year + 1900 < 10000
  pub month : tm.tm_mon < 12
  pub day : tm.tm_mday < 32
  pub hour : tm.tm_hour < 24
  pub minute : tm.tm_min < 60
  pub second : tm.tm_sec < 61
  pub usec : tm.tv_usec < 1000000

-- A string of at most `k` characters.
pub record Short (k : ℕ) (s : List ℕ) : Type 0 where
  pub few : length s ≤ k
  pub clean : NoNul s

pub clean_by : (s : List ℕ) → contains 0 s ≡ false → NoNul s
unfolding contains
clean_by [] e = tt
clean_by (c ∷ s) e = (λ z. ground (arith, e, z), clean_by s (ground (arith, e)))

Short-literal : (k : ℕ) (s : List ℕ) → leb (length s) k ≡ true → contains 0 s ≡ false → Short k s
Short-literal k s e f = record { few = leb→le (length s) k e; clean = clean_by s f }

Short-if : {k : ℕ} {s t : List ℕ} (b : Bool) → Short k s → Short k t → Short k (if b then s else t)
Short-if true h k = h
Short-if false h k = k

Short-append : {j k : ℕ} {s t : List ℕ} → Short j s → Short k t → Short (j + k) (s ++ t)
Short-append {j} {k} {s} {t} h g = record {
  few = omega (arith, length-append s t, h.few, g.few);
  clean = NoNul-append s t h.clean g.clean;
}

Short-mark : (c : ℕ) {k : ℕ} {s : List ℕ} → Short k s → Short (suc k) (suc c ∷ s)
Short-mark c h = record {
  few = omega (arith, h.few);
  clean = (λ e. absurd (omega (arith, e)), h.clean);
}

Short-padded : (k n : ℕ) → n < 10 ^ suc k → Short (suc k) (padded (suc k) n)
Short-padded k n h = record {
  few = omega (arith, length-padded k n h);
  clean = NoNul-padded (suc k) n;
}

Short-level_name : (level : ℕ) → Short 8 (level_name level)
unfolding level_name contains
Short-level_name level = Short-if (level == 0) (Short-literal 8 (codes "[debug]:") refl refl) (
    Short-if (level == 2) (Short-literal 8 (codes "[warn]:") refl refl) (
      Short-if (level == 3) (Short-literal 8 (codes "[error]:") refl refl)
        (Short-literal 8 (codes "[info]:") refl refl)))

pub Short-stamp : (tm : Tm) (level : ℕ) → IsTime tm → Short 36 (stamp tm level)
unfolding stamp contains
Short-stamp tm level h =
    let year : Short 4 (decimal_before 10 (tm.tm_year + 1900) []) = record {
      few = length-decimal_before 10 3 (tm.tm_year + 1900) [] (omega (arith, h.year));
      clean = NoNul-decimal_before 10 (tm.tm_year + 1900) [] tt;
    } in
    let end = Short-literal 1 (b' ' ∷ []) refl refl in
    let usec = Short-padded 5 tm.tv_usec (omega (arith, h.usec)) in
    let second = Short-padded 1 tm.tm_sec (omega (arith, h.second)) in
    let minute = Short-padded 1 tm.tm_min (omega (arith, h.minute)) in
    let hour = Short-padded 1 tm.tm_hour (omega (arith, h.hour)) in
    let day = Short-padded 1 tm.tm_mday (omega (arith, h.day)) in
    let month = Short-padded 1 (tm.tm_mon + 1) (omega (arith, h.month)) in
    let levels = Short-mark 31 (Short-append (Short-level_name level) end) in
    let seconds = Short-append second (Short-mark 45 (Short-append usec levels)) in
    let minutes = Short-append minute (Short-mark 57 seconds) in
    let hours = Short-append hour (Short-mark 57 minutes) in
    let days = Short-append day (Short-mark 31 hours) in
    Short-append year (Short-mark 44 (Short-append month (Short-mark 44 days)))

-- What write_log puts into the log for a call.
unfoldable pub line_of : Tm → ℕ → List ℕ → List ℕ
line_of tm level text = stamp tm level ++ (text ++ b'\n' ∷ [])

pub line_of-split :
    (tm : Tm) (level : ℕ) (text : List ℕ)
    → length (line_of tm level text) ≡ length (stamp tm level) + length text + 1
unfolding line_of
line_of-split tm level text =
    omega
      (arith, length-append (stamp tm level) (text ++ b'\n' ∷ []), length-append text (b'\n' ∷ []))
