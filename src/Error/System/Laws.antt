-- ===== src/Error/System/Laws.antt =====
-- What the texts of the category `system` say of the error numbers.
use ice_coroutines.Base.{
  All, arith, equal, equal_sound, ◌&&◌, zero, suc, ℕ, ℤ, ◌==◌, ==_iff, ◌≡◌, ◌≢◌, refl, sym, ap, ◌∙◌,
  Bool, true, String, List, [], ◌∷◌, codes, Bytes, map, ◌⊎◌, inl, inr, if◌then◌else◌,
}
use ice_coroutines.Error.Table.{first_text_cases, has, has-present}
use ice_coroutines.Error.System.{
  StdErrc, system_texts, system_message, address_family_not_supported, address_in_use,
  address_not_available, already_connected, argument_list_too_long, argument_out_of_domain,
  bad_address, bad_file_descriptor, bad_message, broken_pipe, connection_aborted,
  connection_already_in_progress, connection_refused, connection_reset, cross_device_link,
  destination_address_required, device_or_resource_busy, directory_not_empty,
  executable_format_error, file_exists, file_too_large, filename_too_long, function_not_supported,
  host_unreachable, identifier_removed, illegal_byte_sequence, inappropriate_io_control_operation,
  interrupted, invalid_argument, invalid_seek, io_error, is_a_directory, message_size, network_down,
  network_reset, network_unreachable, no_buffer_space, no_child_process, no_link, no_lock_available,
  no_message_available, no_message, no_protocol_option, no_space_on_device, no_stream_resources,
  no_such_device_or_address, no_such_device, no_such_file_or_directory, no_such_process,
  not_a_directory, not_a_socket, not_a_stream, not_connected, not_enough_memory, not_supported,
  operation_canceled, operation_in_progress, operation_not_permitted, operation_not_supported,
  operation_would_block, owner_dead, permission_denied, protocol_error, protocol_not_supported,
  read_only_file_system, resource_deadlock_would_occur, resource_unavailable_try_again,
  result_out_of_range, state_not_recoverable, stream_timeout, text_file_busy, timed_out,
  too_many_files_open_in_system, too_many_files_open, too_many_links, too_many_symbolic_link_levels,
  value_too_large, wrong_protocol_type,
}

-- The enumerators as the standard spells them.
abbrev pub identifier : StdErrc → String
identifier address_family_not_supported = "address_family_not_supported"
identifier address_in_use = "address_in_use"
identifier address_not_available = "address_not_available"
identifier already_connected = "already_connected"
identifier argument_list_too_long = "argument_list_too_long"
identifier argument_out_of_domain = "argument_out_of_domain"
identifier bad_address = "bad_address"
identifier bad_file_descriptor = "bad_file_descriptor"
identifier bad_message = "bad_message"
identifier broken_pipe = "broken_pipe"
identifier connection_aborted = "connection_aborted"
identifier connection_already_in_progress = "connection_already_in_progress"
identifier connection_refused = "connection_refused"
identifier connection_reset = "connection_reset"
identifier cross_device_link = "cross_device_link"
identifier destination_address_required = "destination_address_required"
identifier device_or_resource_busy = "device_or_resource_busy"
identifier directory_not_empty = "directory_not_empty"
identifier executable_format_error = "executable_format_error"
identifier file_exists = "file_exists"
identifier file_too_large = "file_too_large"
identifier filename_too_long = "filename_too_long"
identifier function_not_supported = "function_not_supported"
identifier host_unreachable = "host_unreachable"
identifier identifier_removed = "identifier_removed"
identifier illegal_byte_sequence = "illegal_byte_sequence"
identifier inappropriate_io_control_operation = "inappropriate_io_control_operation"
identifier interrupted = "interrupted"
identifier invalid_argument = "invalid_argument"
identifier invalid_seek = "invalid_seek"
identifier io_error = "io_error"
identifier is_a_directory = "is_a_directory"
identifier message_size = "message_size"
identifier network_down = "network_down"
identifier network_reset = "network_reset"
identifier network_unreachable = "network_unreachable"
identifier no_buffer_space = "no_buffer_space"
identifier no_child_process = "no_child_process"
identifier no_link = "no_link"
identifier no_lock_available = "no_lock_available"
identifier no_message_available = "no_message_available"
identifier no_message = "no_message"
identifier no_protocol_option = "no_protocol_option"
identifier no_space_on_device = "no_space_on_device"
identifier no_stream_resources = "no_stream_resources"
identifier no_such_device_or_address = "no_such_device_or_address"
identifier no_such_device = "no_such_device"
identifier no_such_file_or_directory = "no_such_file_or_directory"
identifier no_such_process = "no_such_process"
identifier not_a_directory = "not_a_directory"
identifier not_a_socket = "not_a_socket"
identifier not_a_stream = "not_a_stream"
identifier not_connected = "not_connected"
identifier not_enough_memory = "not_enough_memory"
identifier not_supported = "not_supported"
identifier operation_canceled = "operation_canceled"
identifier operation_in_progress = "operation_in_progress"
identifier operation_not_permitted = "operation_not_permitted"
identifier operation_not_supported = "operation_not_supported"
identifier operation_would_block = "operation_would_block"
identifier owner_dead = "owner_dead"
identifier permission_denied = "permission_denied"
identifier protocol_error = "protocol_error"
identifier protocol_not_supported = "protocol_not_supported"
identifier read_only_file_system = "read_only_file_system"
identifier resource_deadlock_would_occur = "resource_deadlock_would_occur"
identifier resource_unavailable_try_again = "resource_unavailable_try_again"
identifier result_out_of_range = "result_out_of_range"
identifier state_not_recoverable = "state_not_recoverable"
identifier stream_timeout = "stream_timeout"
identifier text_file_busy = "text_file_busy"
identifier timed_out = "timed_out"
identifier too_many_files_open_in_system = "too_many_files_open_in_system"
identifier too_many_files_open = "too_many_files_open"
identifier too_many_links = "too_many_links"
identifier too_many_symbolic_link_levels = "too_many_symbolic_link_levels"
identifier value_too_large = "value_too_large"
identifier wrong_protocol_type = "wrong_protocol_type"

-- A number for each enumerator, by which they are told apart.
abbrev ordinal : StdErrc → ℕ
ordinal address_family_not_supported = 0
ordinal address_in_use = 1
ordinal address_not_available = 2
ordinal already_connected = 3
ordinal argument_list_too_long = 4
ordinal argument_out_of_domain = 5
ordinal bad_address = 6
ordinal bad_file_descriptor = 7
ordinal bad_message = 8
ordinal broken_pipe = 9
ordinal connection_aborted = 10
ordinal connection_already_in_progress = 11
ordinal connection_refused = 12
ordinal connection_reset = 13
ordinal cross_device_link = 14
ordinal destination_address_required = 15
ordinal device_or_resource_busy = 16
ordinal directory_not_empty = 17
ordinal executable_format_error = 18
ordinal file_exists = 19
ordinal file_too_large = 20
ordinal filename_too_long = 21
ordinal function_not_supported = 22
ordinal host_unreachable = 23
ordinal identifier_removed = 24
ordinal illegal_byte_sequence = 25
ordinal inappropriate_io_control_operation = 26
ordinal interrupted = 27
ordinal invalid_argument = 28
ordinal invalid_seek = 29
ordinal io_error = 30
ordinal is_a_directory = 31
ordinal message_size = 32
ordinal network_down = 33
ordinal network_reset = 34
ordinal network_unreachable = 35
ordinal no_buffer_space = 36
ordinal no_child_process = 37
ordinal no_link = 38
ordinal no_lock_available = 39
ordinal no_message_available = 40
ordinal no_message = 41
ordinal no_protocol_option = 42
ordinal no_space_on_device = 43
ordinal no_stream_resources = 44
ordinal no_such_device_or_address = 45
ordinal no_such_device = 46
ordinal no_such_file_or_directory = 47
ordinal no_such_process = 48
ordinal not_a_directory = 49
ordinal not_a_socket = 50
ordinal not_a_stream = 51
ordinal not_connected = 52
ordinal not_enough_memory = 53
ordinal not_supported = 54
ordinal operation_canceled = 55
ordinal operation_in_progress = 56
ordinal operation_not_permitted = 57
ordinal operation_not_supported = 58
ordinal operation_would_block = 59
ordinal owner_dead = 60
ordinal permission_denied = 61
ordinal protocol_error = 62
ordinal protocol_not_supported = 63
ordinal read_only_file_system = 64
ordinal resource_deadlock_would_occur = 65
ordinal resource_unavailable_try_again = 66
ordinal result_out_of_range = 67
ordinal state_not_recoverable = 68
ordinal stream_timeout = 69
ordinal text_file_busy = 70
ordinal timed_out = 71
ordinal too_many_files_open_in_system = 72
ordinal too_many_files_open = 73
ordinal too_many_links = 74
ordinal too_many_symbolic_link_levels = 75
ordinal value_too_large = 76
ordinal wrong_protocol_type = 77

abbrev pub spaced : Bytes → Bytes
spaced = map (λ c. if c == b'_' then b' ' else c)

abbrev Spells : StdErrc → String → Type 0
Spells e text = codes text ≡ spaced (codes (identifier e))

-- The entry at a position, or the first enumerator.
entry_at : ℕ → List (StdErrc × String) → StdErrc
entry_at n [] = address_family_not_supported
entry_at zero (p ∷ ps) = p.0
entry_at (suc n) (p ∷ ps) = entry_at n ps

entry_at-ordinal : (e : StdErrc) → entry_at (ordinal e) system_texts ≡ e
unfolding entry_at
entry_at-ordinal address_family_not_supported = refl
entry_at-ordinal _ = refl

abbrev same : StdErrc → StdErrc → Bool
same a b = ordinal a == ordinal b

same_sound : (a b : StdErrc) → same a b ≡ true → a ≡ b
same_sound a b h =
    sym (entry_at-ordinal a)
    ∙ ap (λ n. entry_at n system_texts) ((==_iff (ordinal a) (ordinal b)).0 h)
    ∙ entry_at-ordinal b

has-same : (a : StdErrc) → has (same a) system_texts ≡ true
unfolding has
has-same address_family_not_supported = refl
has-same _ = refl

-- Every text of a table spells its enumerator.
spelled : List (StdErrc × String) → Bool
unfolding equal
spelled [] = true
spelled ((e, text) ∷ ps) = equal (codes text) (spaced (codes (identifier e))) && spelled ps

spelled_sound : (ps : List (StdErrc × String)) → spelled ps ≡ true → All (λ p. Spells p.0 p.1) ps
unfolding spelled
spelled_sound [] h = tt
spelled_sound ((e, text) ∷ ps) h = (
  equal_sound (codes text) (spaced (codes (identifier e))) (ground arith),
  spelled_sound ps (ground arith),
)

spellings : All (λ p. Spells p.0 p.1) system_texts
unfolding spelled
spellings = spelled_sound system_texts refl

-- On every platform, the text for a number is the spelling of an enumerator of that number, with
-- spaces for underscores, or no enumerator has the number and the text is "unknown error".
pub system_message_cases :
    (value : StdErrc → ℤ) (ev : ℤ)
    → ((e : StdErrc) × (value e ≡ ev)
        × (codes (system_message value ev) ≡ spaced (codes (identifier e))))
      ⊎ (((e : StdErrc) → ev ≢ value e) × (system_message value ev ≡ "unknown error"))
unfolding system_message
system_message_cases value ev =
    elim (first_text_cases value Spells ev system_texts "unknown error" spellings) [
      | inl found ↦ inl found
      | inr (absent, last) ↦ inr (
        λ e. has-present value (same e) e ev system_texts (same_sound e) (has-same e) absent,
        last,
      )
    ]
