-- ===== src/Error/Tests.antt =====
-- The error texts at concrete inputs.
use ice_coroutines.Base.{ℤ, pos, ◌≡◌, refl, codes, Bytes}
use ice_coroutines.Error.System.{
  StdErrc, system_message, resource_unavailable_try_again, operation_would_block, interrupted,
}
use ice_coroutines.Error.Native.{format}

-- Linux gives both enumerators for a call that would block the number 11.
abbrev linux : StdErrc → ℤ
linux resource_unavailable_try_again = pos 11
linux operation_would_block = pos 11
linux interrupted = pos 4
linux _ = pos 1000

would_block : system_message linux (pos 11) ≡ "operation would block"
unfolding system_message
would_block = refl

abbrev refused : Bytes
refused = codes "\r\nConnection refused. Try again.\r\n"

format-refused : format refused ≡ codes "connection refused"
unfolding format
format-refused = refl
