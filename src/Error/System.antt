-- ===== src/Error/System.antt =====
-- The category `system` of src/ice/src/ice/error.cpp: a text for each enumerator of `std::errc`.
-- The enumerators' values belong to the platform, and are an argument of everything here.
pub mod Laws
use ice_coroutines.Base.{ℕ, ℤ, ◌==◌, String, List, [], ◌∷◌, ◌++◌, if◌then◌else◌}
use ice_coroutines.Error.Table.{first_text}

-- The members of `std::errc` that the category names.
pub data StdErrc : Type 0 where
  address_family_not_supported address_in_use address_not_available already_connected : StdErrc
  argument_list_too_long argument_out_of_domain bad_address bad_file_descriptor : StdErrc
  bad_message broken_pipe connection_aborted connection_already_in_progress : StdErrc
  connection_refused connection_reset cross_device_link destination_address_required : StdErrc
  device_or_resource_busy directory_not_empty executable_format_error file_exists : StdErrc
  file_too_large filename_too_long function_not_supported host_unreachable : StdErrc
  identifier_removed illegal_byte_sequence inappropriate_io_control_operation interrupted : StdErrc
  invalid_argument invalid_seek io_error is_a_directory message_size network_down : StdErrc
  network_reset network_unreachable no_buffer_space no_child_process no_link : StdErrc
  no_lock_available no_message_available no_message no_protocol_option no_space_on_device : StdErrc
  no_stream_resources no_such_device_or_address no_such_device no_such_file_or_directory : StdErrc
  no_such_process not_a_directory not_a_socket not_a_stream not_connected : StdErrc
  not_enough_memory not_supported operation_canceled operation_in_progress : StdErrc
  operation_not_permitted operation_not_supported operation_would_block owner_dead : StdErrc
  permission_denied protocol_error protocol_not_supported read_only_file_system : StdErrc
  resource_deadlock_would_occur resource_unavailable_try_again result_out_of_range : StdErrc
  state_not_recoverable stream_timeout text_file_busy timed_out : StdErrc
  too_many_files_open_in_system too_many_files_open too_many_links : StdErrc
  too_many_symbolic_link_levels value_too_large wrong_protocol_type : StdErrc

-- The tests of `message` in their order, up to `no_link`.
abbrev pub first_texts : List (StdErrc × String)
first_texts =
    (address_family_not_supported, "address family not supported")
    ∷ (address_in_use, "address in use")
    ∷ (address_not_available, "address not available")
    ∷ (already_connected, "already connected")
    ∷ (argument_list_too_long, "argument list too long")
    ∷ (argument_out_of_domain, "argument out of domain")
    ∷ (bad_address, "bad address")
    ∷ (bad_file_descriptor, "bad file descriptor")
    ∷ (bad_message, "bad message")
    ∷ (broken_pipe, "broken pipe")
    ∷ (connection_aborted, "connection aborted")
    ∷ (connection_already_in_progress, "connection already in progress")
    ∷ (connection_refused, "connection refused")
    ∷ (connection_reset, "connection reset")
    ∷ (cross_device_link, "cross device link")
    ∷ (destination_address_required, "destination address required")
    ∷ (device_or_resource_busy, "device or resource busy")
    ∷ (directory_not_empty, "directory not empty")
    ∷ (executable_format_error, "executable format error")
    ∷ (file_exists, "file exists")
    ∷ (file_too_large, "file too large")
    ∷ (filename_too_long, "filename too long")
    ∷ (function_not_supported, "function not supported")
    ∷ (host_unreachable, "host unreachable")
    ∷ (identifier_removed, "identifier removed")
    ∷ (illegal_byte_sequence, "illegal byte sequence")
    ∷ (inappropriate_io_control_operation, "inappropriate io control operation")
    ∷ (interrupted, "interrupted")
    ∷ (invalid_argument, "invalid argument")
    ∷ (invalid_seek, "invalid seek")
    ∷ (io_error, "io error")
    ∷ (is_a_directory, "is a directory")
    ∷ (message_size, "message size")
    ∷ (network_down, "network down")
    ∷ (network_reset, "network reset")
    ∷ (network_unreachable, "network unreachable")
    ∷ (no_buffer_space, "no buffer space")
    ∷ (no_child_process, "no child process")
    ∷ (no_link, "no link")
    ∷ []

-- The tests behind those.
abbrev pub later_texts : List (StdErrc × String)
later_texts =
    (no_lock_available, "no lock available")
    ∷ (no_message_available, "no message available")
    ∷ (no_message, "no message")
    ∷ (no_protocol_option, "no protocol option")
    ∷ (no_space_on_device, "no space on device")
    ∷ (no_stream_resources, "no stream resources")
    ∷ (no_such_device_or_address, "no such device or address")
    ∷ (no_such_device, "no such device")
    ∷ (no_such_file_or_directory, "no such file or directory")
    ∷ (no_such_process, "no such process")
    ∷ (not_a_directory, "not a directory")
    ∷ (not_a_socket, "not a socket")
    ∷ (not_a_stream, "not a stream")
    ∷ (not_connected, "not connected")
    ∷ (not_enough_memory, "not enough memory")
    ∷ (not_supported, "not supported")
    ∷ (operation_canceled, "operation canceled")
    ∷ (operation_in_progress, "operation in progress")
    ∷ (operation_not_permitted, "operation not permitted")
    ∷ (operation_not_supported, "operation not supported")
    ∷ (operation_would_block, "operation would block")
    ∷ (owner_dead, "owner dead")
    ∷ (permission_denied, "permission denied")
    ∷ (protocol_error, "protocol error")
    ∷ (protocol_not_supported, "protocol not supported")
    ∷ (read_only_file_system, "read only file system")
    ∷ (resource_deadlock_would_occur, "resource deadlock would occur")
    ∷ (resource_unavailable_try_again, "resource unavailable try again")
    ∷ (result_out_of_range, "result out of range")
    ∷ (state_not_recoverable, "state not recoverable")
    ∷ (stream_timeout, "stream timeout")
    ∷ (text_file_busy, "text file busy")
    ∷ (timed_out, "timed out")
    ∷ (too_many_files_open_in_system, "too many files open in system")
    ∷ (too_many_files_open, "too many files open")
    ∷ (too_many_links, "too many links")
    ∷ (too_many_symbolic_link_levels, "too many symbolic link levels")
    ∷ (value_too_large, "value too large")
    ∷ (wrong_protocol_type, "wrong protocol type")
    ∷ []

abbrev pub system_texts : List (StdErrc × String)
system_texts = first_texts ++ later_texts

-- `system_category::message`.
unfoldable pub system_message : (StdErrc → ℤ) → ℤ → String
unfolding first_text
system_message value ev = first_text value ev system_texts "unknown error"
