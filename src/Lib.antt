-- ===== src/Lib.antt =====
-- minipro: a driver for the Ninebot miniPRO over Bluetooth LE.
--
-- The program is a C++ application (src/, include/, test/) over a copy of the GATT client of BlueZ in C
-- (lib/bluez), which is built with it. The application composes packets and writes them to two handles
-- of the device; a thread runs the main loop of lib/bluez, whose GATT database holds the services that
-- discovery found and whose components keep their work in queues.
--
-- Files
--   Base          numbers, lists, bytes of words, signed words and `^`
--   MiniPro       src/minipro/minipro.cpp over LEClient::write_value of src/bluetooth/le_client.cpp
--     Packets     src/minipro/packet.cpp, drive.cpp, enter_ and exit_remote_control_mode.cpp
--     Session     main of test/minipro/t_minipro.cpp
--   Bluez.Address lib/bluez/bluetooth.c: device addresses
--   Bluez.Att     lib/bluez/att.c: the state of a bearer (Att), tables of opcodes (Opcodes), the calls of
--                 its users (Calls, Life), what is written and answered (Writer), what is received and the
--                 run of a bearer (Reader)
--   Bluez.GattClient   lib/bluez/gatt-client.c: long writes (LongWrite), long reads (LongRead), reads
--                 and writes in one PDU (Short), and a server as long writes rely on it (Server)
--   Bluez.GattHelpers  lib/bluez/gatt-helpers.c: results (GattHelpers), iterators (Iter), and what
--                 discoveries do with each response (Discover)
--   Bluez.Queue   lib/bluez/queue.c
--   Bluez.Uuid    lib/bluez/uuid.c, with uuid_to_le and le_to_uuid of lib/bluez/gatt-db.c
--   Bluez.GattDb  lib/bluez/gatt-db.c: services (GattDb), attributes (Attributes), their values
--                 and requests (Values), lookups and discovery (Lookup), those who are told of
--                 services (Notify)
--
-- How the models correspond to the code
--   A queue is a record in memory that is a function from addresses to entries; a run is a function from
--   memory to an optional result, none for a bad access or for a loop whose rounds are used up. Loops get
--   one round more than the queue counts entries. What the allocator returns is an argument. Reference
--   counts and the counter of entries wrap as `int` and `unsigned int` do. A callback with its user data
--   is a function; one that may change things acts on a world that is passed along.
--   A UUID is its tag with the value of that width. A local variable that the code leaves unset is an
--   argument where the result could depend on it.
--   In the GATT database the queue of services is the list of its values, a service is passed by value,
--   an attribute is a slot of its service where the source compares its pointer, and handles are numbers
--   whose conversion to `uint16_t` is written out. Memory is taken to be
--   available there, and the callbacks of attributes are pointers that are only stored.
--   An ATT bearer is a record with its queues as lists; callbacks are pointers, and its log lists what was
--   called and written. What happens to a bearer is a list of inputs: calls, the file becoming writable or
--   readable, timeouts, the loss of the link. What a callback does to the bearer in turn is a part of the
--   input, a list of calls. What io_send, timeout_add and the allocator return is a part of it too; the
--   signing of crypto.c, done by the kernel, is a function in the record. The loop over the handlers of a
--   PDU gets one round for each handler and for each call that a callback makes, and one more.
--   A discovery runs against a function that answers; it gets a number of rounds, and the theorems say
--   how many are enough.
--   A GATT client is its queue of long writes with those of their requests that the bearer has to answer;
--   an operation stands for the request that refers to it, and a function of the number of the call says
--   whether bt_att_send takes a request. The server of a long write keeps the parts that it gets until it
--   is told to write them; that of a long read answers with what fits in a PDU.
--   For MiniPro the GATT client is a parameter, a record of the two calls that write_value makes; the
--   hypothesis `Delivers` says that a write is carried out and, if a response was asked for, answered.
--   Bytes of words are in the order of a little-endian host.
--
-- Not modelled: the rest of the GATT client (gatt-client.c), HCI, the main loop, cryptography and the command line
-- client of lib/bluez; in att.c the debug callback, closing the file and the failures of bt_att_new; in
-- gatt-helpers.c the MTU exchange, the discovery of includes and the reference counts of requests; strings
-- of UUIDs; in gatt-db.c, gatt_db_find_by_type_value and the end of a database; the threads of LEClient
-- and Joystick; the units library, which is a copy. The getters of MiniPro return constants.
pub mod Base
pub mod Bluez
pub mod MiniPro
