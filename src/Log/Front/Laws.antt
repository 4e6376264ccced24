-- ===== src/Log/Front/Laws.antt =====
-- What becomes of an exception of a `task`: the request, the entry that `queue` of src/ice/src/ice/log.cpp
-- makes of it, and the output of `print` for this entry, which is called where no sink is set.
use ice_coroutines.Base.{String, Option, none, some, [], ◌∷◌, false, ◌≡◌, refl, if◌then◌else◌}
use ice_coroutines.Error.{ErrorCode}
use ice_coroutines.Error.Throw.{Texts, Exception, system_error, exception, error_text}
use ice_coroutines.Terminal.Manager.{stderr, Ttys, is_tty}
use ice_coroutines.Terminal.Manager.Laws.{styled}
use ice_coroutines.Terminal.Manager.Texts.{texts}
use ice_coroutines.Log.{Level, Entry, get_level_string, entry_stream, print}
use ice_coroutines.Log.Front.{Request, error_plain, error, unhandled_exception}
use ice_coroutines.Log.Laws.{print_lem}

-- `entry`, from the formatted time and from what `std::fputs` writes of a text.
abbrev pub entry_of : String → (String → String) → Request → Entry
entry_of time up_to_null r = record {
  time = time;
  level = r.level;
  format = r.format;
  message_data = up_to_null r.message;
  message = r.message;
}

-- What is to be told of an exception.
abbrev pub report : Texts → Option Exception → String
report t (some (system_error ec what)) = error_text t ec what
report t (some (exception what)) = what
report t none = "unhandled exception"

module _ (t : Texts) where
  exception-request :
      (e : Option Exception)
      → unhandled_exception t e ≡ record { level = Level.error; format = 0; message = report t e }
  unfolding unhandled_exception
  exception-request (some (system_error ec what)) = refl
  exception-request (some (exception what)) = refl
  exception-request none = refl

  -- Where no sink is set, so that `print` gets the entry for an exception of a `task`, it writes one line to
  -- `stderr`: the time, the level `error` and the text of the exception, which for an `std::system_error` is
  -- that of `error(ec, what)` (up to its first null byte on a terminal); and a terminal has no attribute set
  -- afterwards.
  exception-printed :
      (ttys : Ttys) (time : String) (up_to_null : String → String) (e : Option Exception)
      → let entry = entry_of time up_to_null (unhandled_exception t e) in
        (entry_stream entry.level ≡ stderr)
        × (texts (print ttys entry)
            ≡ time
              ∷ " ["
              ∷ "error    "
              ∷ "] "
              ∷ (if is_tty ttys stderr then up_to_null (report t e) else report t e)
              ∷ "\n"
              ∷ [])
        × (styled false (print ttys entry) ≡ false)
  unfolding entry_stream get_level_string
  exception-printed ttys time up_to_null e =
      let printed = print_lem ttys (
        entry_of time up_to_null
          (record { level = Level.error; format = 0; message = report t e })) in
      rw (exception-request e) (refl, printed.0, printed.1)

  -- The line is that of `error(ec, what)`.
  pub exception-error :
      (ec : ErrorCode) (what : String)
      → unhandled_exception t (some (system_error ec what)) ≡ (error t (error_plain ec what)).0
  unfolding unhandled_exception error
  exception-error ec what = refl
