-- ===== src/Net/Tcp/Listen.antt =====
-- `listen` of src/ice/src/ice/net/tcp/socket.cpp, over what the system does for a size of the queue.
use ice_coroutines.Base.{ℕ, ◌-◌, ◌^◌, ◌<◌, ◌≤◌, ℤ, pos, negsuc, ltb, if◌then◌else◌, ◌≡◌, ◌≢◌, arith}
use ice_coroutines.Error.{ErrorCode}
use ice_coroutines.Net.Options.{int_max, to_int}
use ice_coroutines.Net.Socket.{Result, status}

-- The size that is asked for, from the backlog, where 0 stands for `SOMAXCONN`.
unfoldable pub listen_size : ℕ → ℕ → ℤ
unfolding to_int
listen_size somaxconn backlog = if ltb 0 backlog then to_int (pos backlog) else pos somaxconn

unfoldable pub listen : ℕ → (ℤ → Result) → ℕ → ErrorCode
unfolding listen_size status
listen somaxconn call backlog = status (call (listen_size somaxconn backlog))

-- A backlog up to the largest `int` is asked for as it is, and one from 2 ^ 31 up to 2 ^ 32 - 1 is
-- asked for as a negative number.
pub listen_size-wraps :
    (somaxconn backlog : ℕ)
    → (backlog ≢ 0 → backlog ≤ int_max → listen_size somaxconn backlog ≡ pos backlog)
      × (int_max < backlog
          → backlog < 2 ^ 32
          → listen_size somaxconn backlog ≡ negsuc (2 ^ 32 - backlog - 1))
unfolding listen_size
listen_size-wraps somaxconn backlog = (λ nz le. ground arith, λ large small. ground arith)
