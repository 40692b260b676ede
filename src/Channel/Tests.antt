-- ===== src/Channel/Tests.antt =====
-- The events of a channel at concrete flags.
use rfcs.Common.{◌≡◌, true}
use rfcs.Channel.{none_event, Callbacks, Channel, read, init, handle_event}
use rfcs.Channel.Dispatch.{Ascends, called, handle_event-due, handle_event-Ascends}

abbrev all_set : Callbacks
all_set = record { has_read = true; has_write = true; has_close = true; has_error = true }

abbrev hung_up : Channel
hung_up = record (init 4) { revents = record none_event { pollhup = true; pollrdhup = true } }

handle_event-due_example : called read (handle_event true all_set hung_up) ≡ true
handle_event-due_example = handle_event-due true all_set hung_up read

handle_event-Ascends_example : Ascends 0 (handle_event true all_set hung_up)
handle_event-Ascends_example = handle_event-Ascends true all_set hung_up
