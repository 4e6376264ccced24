-- ===== src/Log/Front.antt =====
-- The overloads of `queue` in src/ice/include/ice/log.hpp, the functions for the levels over them, and how
-- a `task` of the log reports an exception. `fmt::format`, the names of the categories and the texts of
-- the codes are parameters.
pub mod Laws
use ice_coroutines.Base.{ℤ, String, Option, none, some, List, [], ◌∷◌, ◌≡◌, arith}
use ice_coroutines.Error.{ErrorCode}
use ice_coroutines.Error.Throw.{
  Arg, text, number, Texts, Exception, system_error, exception, error_text,
}
use ice_coroutines.Log.{Level}
use ice_coroutines.Terminal.Format.{Format}

-- What the innermost `queue(tp, level, format, message)` gets; the format without any bit is 0.
pub record Request : Type 0 where
  pub level : Level
  pub format : Format
  pub message : String

-- The arguments behind `tp` and `level` of each overload, in the order of the header.
pub data Call : Type 0 where
  whole : Format → String → Call
  formatted_in : Format → String → List Arg → Call
  plain : String → Call
  formatted : String → List Arg → Call
  error_formatted_in : ErrorCode → Format → String → List Arg → Call
  error_plain : ErrorCode → String → Call
  error_formatted : ErrorCode → String → List Arg → Call

module _ (t : Texts) where
  -- The request, and the number returned, `none` for `void`.
  unfoldable pub queue : Level → Call → Request × Option ℤ
  queue l (whole f m) = (record { level = l; format = f; message = m }, none)
  queue l (formatted_in f m args) =
      (record { level = l; format = f; message = t.format m args }, none)
  queue l (plain m) = (record { level = l; format = 0; message = m }, none)
  queue l (formatted m args) = (record { level = l; format = 0; message = t.format m args }, none)
  queue l (error_formatted_in ec f m args) =
      (record { level = l; format = f; message = error_text t ec (t.format m args) }, some ec.value)
  queue l (error_plain ec m) =
      (record { level = l; format = 0; message = error_text t ec m }, some ec.value)
  queue l (error_formatted ec m args) =
      (record { level = l; format = 0; message = error_text t ec (t.format m args) }, some ec.value)

  unfoldable pub emergency : Call → Request × Option ℤ
  unfolding queue
  emergency c = queue Level.emergency c

  unfoldable pub alert : Call → Request × Option ℤ
  unfolding queue
  alert c = queue Level.alert c

  unfoldable pub critical : Call → Request × Option ℤ
  unfolding queue
  critical c = queue Level.critical c

  unfoldable pub error : Call → Request × Option ℤ
  unfolding queue
  error c = queue Level.error c

  unfoldable pub warning : Call → Request × Option ℤ
  unfolding queue
  warning c = queue Level.warning c

  unfoldable pub notice : Call → Request × Option ℤ
  unfolding queue
  notice c = queue Level.notice c

  unfoldable pub info : Call → Request × Option ℤ
  unfolding queue
  info c = queue Level.info c

  unfoldable pub debug : Call → Request × Option ℤ
  unfolding queue
  debug c = queue Level.debug c

  unfoldable pub custom : Call → Request × Option ℤ
  unfolding queue
  custom c = queue Level.custom c

  -- What a `task` of the log makes of an exception; `none` is one of a type that it does not know.
  unfoldable pub unhandled_exception : Option Exception → Request
  unfolding error
  unhandled_exception (some (system_error ec what)) =
      (error (
        formatted "{} error {}: {} ({})"
          (text (t.category_name ec) ∷ number ec.value ∷ text what ∷ text (t.message ec) ∷ []))).0
  unhandled_exception (some (exception what)) = (error (plain what)).0
  unhandled_exception none = (error (plain "unhandled exception")).0
