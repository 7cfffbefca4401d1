-- ===== src/Log/Calls.antt =====
-- A program's calls of LOG_DEBUG to LOG_ERROR, one after the other.
use mathlib.Core.List.{append_assoc, append-nil}
use tiny_web_server_learning.Prelude.{
  ℕ, ◌<◌, ◌≡◌, refl, sym, ◌∙◌, ap, Bool, true, false, List, [], ◌∷◌, ◌++◌, map, length, take, All,
}
use tiny_web_server_learning.Memory.{Run, ok, ◌>>=◌, Returns, returns, Returns-bind, Returns-map}
use tiny_web_server_learning.Memory.Strings.{NoNul}
use tiny_web_server_learning.CString.{contains}
use tiny_web_server_learning.Log.State.{Tm, Log, new_log, date}
use tiny_web_server_learning.Log.Open.{init}
use tiny_web_server_learning.Log.Write.{log_at}
use tiny_web_server_learning.Log.Stamp.{IsTime, line_of}
use tiny_web_server_learning.Log.Rotate.{Ready, file_after}
use tiny_web_server_learning.Log.Files.{log_at-Logged}
use tiny_web_server_learning.Log.Start.{init-Started}

-- A call: when it is made, its level and what its format and arguments print.
pub record Call : Type 0 where
  pub tm : Tm
  pub level : ℕ
  pub text : List ℕ

abbrev pub call_line : Call → List ℕ
call_line c = line_of c.tm c.level c.text

unfoldable pub log_calls : (List ℕ → Bool) → List Call → Log → Run Log
log_calls can_open [] l = ok l
log_calls can_open (c ∷ cs) l =
    log_at can_open c.tm c.level c.text l >>= λ logged. log_calls can_open cs logged

-- A call whose line has room in a buffer of `size` bytes.
pub record IsCall (size : ℕ) (c : Call) : Type 0 where
  pub time : IsTime c.tm
  pub clean : NoNul c.text
  pub room : length (call_line c) < size

-- the lines in the files
abbrev pub lines : Log → List (List ℕ)
lines l = map (λ x. x.1) l.disk

map-append {ℓ κ} :
    {A : Type ℓ} {B : Type κ} (f : A → B) (s t : List A) → map f (s ++ t) ≡ map f s ++ map f t
map-append f [] t = refl
map-append f (x ∷ s) t = ap (◌∷◌ (f x)) (map-append f s t)

module _ (can_open : List ℕ → Bool) (opens : (p : List ℕ) → can_open p ≡ true) where
  log_calls-lines :
      (dir log name : List ℕ) (size : ℕ) (cs : List Call) (l : Log)
      → Ready dir log name l
      → l.is_async ≡ false
      → l.close_log ≡ 0
      → l.buf.size ≡ size
      → All (IsCall size) cs
      → Returns (λ m. lines m ≡ lines l ++ map call_line cs) (log_calls can_open cs l)
  unfolding log_calls
  log_calls-lines dir log name size [] l r sync on has calls = returns (sym (append-nil (lines l)))
  log_calls-lines dir log name size (c ∷ cs) l r sync on has (call, calls) =
      let line = call_line c in
      let after = file_after dir log c.tm name l in
      Returns-bind
        (log_at-Logged can_open opens dir log name c.tm c.level c.text l r sync on call.time
          call.clean (rw has call.room))
        λ m logged.
          let here : lines m ≡ lines l ++ line ∷ [] =
            ap (map (λ x. x.1)) logged.kept_line
            ∙ map-append (λ x. x.1) l.disk ((after, line) ∷ []) in
          Returns-map
            (log_calls-lines dir log after size cs m logged.ready (logged.same_async ∙ sync)
              (logged.same_close ∙ on) (logged.same_size ∙ has) calls)
            λ k rest.
              rest
              ∙ ap (λ s. s ++ map call_line cs) here
              ∙ append_assoc (lines l) (line ∷ []) (map call_line cs)

-- Where init has set up a log that writes on the spot, and every file can be opened, the files
-- hold the lines of all calls after it, in the order of the calls: over a change of the day or of
-- the part of a day, no line is lost, doubled or put out of order. Each line must have room in the
-- buffer.
pub init-log_calls :
    (can_open : List ℕ → Bool) (tm : Tm) (path log : List ℕ) (size split : ℕ) (cs : List Call)
    → ((p : List ℕ) → can_open p ≡ true)
    → contains b'/' log ≡ false
    → NoNul log
    → length log < 128
    → NoNul (path ++ b'/' ∷ [])
    → length (path ++ b'/' ∷ []) < 128
    → 0 < split
    → All (IsCall size) cs
    → Returns
        (λ l. lines l ≡ map call_line cs)
        (init can_open tm (path ++ b'/' ∷ log) 0 size split 0 new_log >>= λ (opened, l).
          log_calls can_open cs l)
init-log_calls can_open tm path log size split cs opens plain log_clean log_short dir_clean
      dir_short some_split calls =
    let dir = path ++ b'/' ∷ [] in
    Returns-bind
      (init-Started can_open tm path log 0 size split 0 opens plain log_clean log_short dir_clean
        dir_short some_split)
      λ (opened, l) (is_open, s).
        Returns-map
          (log_calls-lines can_open opens dir log (take 254 (dir ++ (date tm ++ log))) size cs l
            s.ready s.async s.closed s.same_size calls)
          λ k e. e ∙ ap (λ d. map (λ x. x.1) d ++ map call_line cs) s.nothing
