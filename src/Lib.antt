-- ===== src/Lib.antt =====
-- connman-ui, a front end for the network manager ConnMan. The library in lib/ stands between the GTK
-- front end in src/ and ConnMan: it reads ConnMan's D-Bus messages into its own state, tells the
-- front end of changes through callbacks, sends the front end's requests, and answers ConnMan's agent
-- calls. The development names the files by their paths in the repository.
--
-- Parts:
--   - lib/dbus.c and lib/cui-dbus.h, the readers and writers of D-Bus messages, which the other files
--     call. Dbus/Signature has map_basic_to_signature and map_array_to_signature, Dbus/Read the
--     cui_dbus_get_* functions and cui_dbus_foreach_dict_entry, Dbus/Append the cui_dbus_append_*
--     functions, where append_value is cui_dbus_append_basic. libdbus is not part of the repository:
--     Dbus/Libdbus has what the code uses of its iterators as a record, with the documented laws, and
--     a writer is the list of the calls that it makes of it, up to a read through NULL.
--     Dbus/Read/Laws, Dbus/Read/Arrays and Dbus/Append/Nesting compare the readers with the list of
--     the positions of a container, and the writers with the nesting that libdbus asks for.
--     cui_dbus_get_array is that of the usual 64-bit machines: an int of four bytes, a double and a
--     pointer of eight; what follows a write past the end of a block has the result `undefined`.
--   - lib/agent.c, which keeps the one request that waits for an answer. Agent/State has agent_if (none
--     for NULL) and the effects of the functions, Agent/Methods what ConnMan calls, Agent/Input
--     parse_input_request, Agent/Replies what the front end calls, Agent/Run any order of such calls.
--   - lib/technology.c. Technology/State has tech_if as a table by object path, the main loop, and the
--     calls that leave the file as a log, newest first. Technology/Property has property_update and
--     the timeouts, Technology/Update what messages change, Technology/Life how technologies come and
--     go, Technology/Setting the requests of the front end and their answers, Technology/Access the
--     callbacks and the getters. Technology/Notices, Technology/Calls and Technology/Pending are the proofs.
--   - lib/manager.c, which sends the requests of lib/technology.c and lib/service.c to ConnMan and hands the
--     answers and signals on to them. Manager/State has manager (none for NULL), Manager/Property its two
--     properties and their timeouts, Manager/Requests the calls and watches of the other files,
--     Manager/Life init and finalize, Manager/Run any order of such steps; Manager/Timeouts,
--     Manager/Tracking and Manager/Endings are the proofs.
--   - lib/service.c. Service/State has the heap of the services, with service_if pointing into it,
--     Service/Parse the parsers of the nested dictionaries, Service/Update update_service_property,
--     Service/Property the timeouts, Service/Life and Service/Listing how services come and go,
--     Service/Config and Service/Setting what is sent to ConnMan, Service/Access the getters;
--     Service/Paths, Service/Lists, Service/Listed, Service/Order, Service/Index, Service/Selected
--     and Service/Messages are the proofs. It asks lib/technology.c for the technologies, whose state
--     is an argument.
--   - lib/interface.c, in Connection: the two buses and the watch for ConnMan.
--   - src/settings.c, the dialog with the settings of a service. Settings/State has its static variables with
--     the services and the tray, Settings/Method the toggle buttons and their handlers, Settings/Show and
--     Settings/Parts what is shown, Settings/Edit what the user changes and the button OK sends,
--     Settings/Popup how it opens and closes and its callbacks; Settings/Texts, Settings/RoundTrip and
--     Settings/Confirm are the proofs.
--   - src/agent_dialogs.c, the dialogs for the agent. Dialogs/State has its variables with the agent of
--     lib/agent.c and the technologies, Dialogs/Show the callbacks that show a dialog, Dialogs/Reply the
--     buttons that answer, Dialogs/Tethering the tethering dialog; Dialogs/Answering is the proofs.
--   - src/gtktechnology.c and src/gtkservice.c, the items of a technology and of a service, in
--     Items/Technology and Items/Service.
--   - src/right-menu.c, the menu of the technologies. Menus/Right has its variables with the items and the
--     technologies, and any order of what happens to it as events; Menus/Shell has what the menus use of
--     GtkMenuShell as a record. Menus/Rows, Menus/Places and Menus/Steps are the proofs.
--   - src/left-menu.c, the menu of the services, in Menus/Left; Menus/Split, Menus/Adding and Menus/Filling
--     are the proofs.
--   - src/tray.c, src/theme.c and src/utils.c, in Ui/Tray, Ui/Theme and Ui/Utils. Ui/Gtk has what the code
--     uses of GTK as a record, with the documented laws of the texts of entries, Ui/Decimal the snprintf
--     and atoi of the C library.
--   - MainLoop has struct property_change of lib/connman-private.h, and GLib's timeouts as a record
--     of operations and laws.
--   - Common has the shared types, arrays and tables, Examples a concrete libdbus and a concrete main
--     loop that meet the laws, and runs of the code on them.
--
-- How the code is translated: a pointer to a technology is its object path, a pointer to a service
-- an address of the heap, and a pointer that may be NULL an Option. What libdbus, GLib or the
-- allocator may refuse is an argument (Answers, or a truth value). A message that is passed on, sent
-- or released is a number. A variable that a failed read leaves unwritten holds an arbitrary value,
-- which is an argument too. The error codes are a data type.
--
-- The book of lib/technology.c, of which the results speak: it is sound if each array to_update has
-- five slots, each slot that is not 0 names an attached timeout for just that property of that
-- technology, and each attached timeout that announces a change stands in the slot of its property.
--
-- Loops run on fuel, one more than the number of positions that are left: dbus_message_iter_next
-- lowers that number, so the fuel is enough. Numbers are unbounded but for the field counter of
-- cui_dbus_get_struct_entry, which wraps at 2^32, and the prefix that atoi reads, which wraps at
-- 2^8.
--
-- GTK emits the `toggled` signals of a call before it returns; the handlers run after that call, in the
-- order of the signals. A handler that is connected several times runs several times.
--
-- Not modelled: the start of the program in src/, menu_position_func and accumulate_menu_size of
-- src/left-menu.c, which place the left menu on the screen, cui_load_left_menu, cui_load_right_menu, cui_load_agent_dialogs, cui_load_trayicon and cui_trayicon_update_icon, which load, connect and
-- show widgets; gdbus/, a copy of another project's library, whose calls are effects; lib/utils.c,
-- which is empty. The contents of strings beyond their equality and their prefixes are not modelled
-- either, nor is freed memory but for the services and struct connman_interface.
pub mod Common
pub mod Dbus
pub mod Agent
pub mod MainLoop
pub mod Technology
pub mod Connection
pub mod Manager
pub mod Service
pub mod Ui
pub mod Settings
pub mod Dialogs
pub mod Items
pub mod Menus
mod Examples
