-- ===== src/Lib.antt =====
-- The ESP32 firmware of the D3Net gateway: firmware/esp32_d3net/main.
--
-- A D3Net adapter joins up to 64 Daikin units to a Modbus RTU line. The firmware is the master of
-- that line: it discovers the units, polls their status, and carries out commands on them that
-- come in over HTTP.
--
-- Esp        the result codes of ESP-IDF
-- Codec      d3net_codec.c, the access to bits and fields of 16-bit registers:
--            d3net_bit_get is bit_get, d3net_uint_set is uint_set, and so on. An array is a list
--            of numbers below 2 ^ 16; a function with a dirty flag takes it and returns it.
-- Registers  d3net_codec.c, the blocks of registers: SystemStatus, Capability, Status, Holding and
--            UnitError have the functions d3net_system_*, d3net_cap_*, d3net_status_*,
--            d3net_holding_* and d3net_error_*.
-- Gateway    d3net_gateway.c. The root has the state and the access to the bus, Control the writes
--            to one unit (d3net_unit_*), Throttle the pauses between accesses,
--            Discovery the two loops over the units, UnitId the names.
-- Modbus     modbus_rtu.c: Crc the checksum, Frame the bytes of requests and answers, Master the
--            transfer (rtu_transceive) and the two functions on registers, Setup modbus_rtu_init,
--            SetupLaws and LineLaws what a line is that has been set up,
--            Bus the master as the bus of the gateway (rtu_read_registers and rtu_write_registers
--            of main.c).
-- Config     app_context.h and config_store.c: the configuration, and Store with load and save
--            (config_store_load, config_store_save).
-- TelnetLog  telnet_server.c, the ring of 128 log lines: logf is telnet_server_logf on a text that
--            vsnprintf has made, get_logs is telnet_server_get_logs. Clients is the table of
--            clients, which a round of telnet_accept_task fills, Listener that task as a whole.
-- Wifi       wifi_manager.c, each function under its name without wifi_manager_.
-- App        app_context.h. A Machine is the application's context, the static state of the other
--            files and the worlds of the platform; Tasks has a round of poll_task and of
--            telnet_status_task, Json the trees that are built with cJSON.
-- Web        web_server.c. The root has what the handlers share (recv_body, http_reply_json),
--            Registry the handlers of /api/registry, Hvac those of the units, Settings those of
--            the page, the state, the Wi-Fi, the log and the line, Ota the update, and Routes
--            web_server_start. handle_hvac_get is hvac_get, and so on.
--            Body is about a request's body in pieces, LogReader about a page that reads the log
--            (LogRange about the lines that it is given),
--            Registry.Listing about the list of units.
-- System     the program as a whole: Steps has its tasks and handlers as steps on one machine,
--            Invariant what each of them keeps; Pages, Handlers, Commands, Changes, Updates and
--            Rounds go through them. Start is app_main of main.c, Loaded and Ready what it has
--            set up, Program the steps from there on. Ledger counts the replies and the lock, Replies and Answers
--            go through the handlers with it; Serving is about commands in a reached state.
-- Tests      the theorems at concrete inputs, and runs of the model.
--
-- The gateway reaches the bus through two function pointers, which are Gateway.Bus.Transport here,
-- with the scheduler and the clock: a record of operations on a world of its own, with the laws
-- that the gateway relies on. Modbus.Uart is the same for the serial driver of ESP-IDF,
-- TelnetLog.Sockets for the sockets and Registers.Temperature.Float for the float arithmetic of C.
-- An App.Platform is all of what the program calls: beside these Config.Nvs for the key-value
-- store, Wifi.Radio for the driver of the radio and App.Server.Http for the HTTP server, cJSON, the
-- lock, the delays and the update over the air, and System.Start.Boot for the start of the flash
-- and mDNS. Its parts have worlds of their own.
-- Gateway.Device adds the registers of a device behind the bus, which no one else writes, and
-- Gateway.Answering.Answers a bus that answers every read and write; Modbus.Slave is such a device
-- at the level of the line, whose answers arrive before the wait of the master ends, and
-- Modbus.Answered makes the one of the other. Web.Body has a connection on which a body comes whole
-- (Stream) and an update whose writes succeed (Flash), TelnetLog.Listener the number of sockets
-- that are open (Descriptors). Modbus.SetupLaws.Driver has the settings of a port and the state of
-- the pins, and Gateway.Throttle.Times the times at which accesses start and how long a delay
-- lasts. What these laws say is what ESP-IDF, the operating system and a Modbus slave do; a theorem
-- that needs one takes it as an argument.
--
-- A function on one unit takes the gateway, the unit and the world as a Link and returns an error
-- and a Link. Times are 64-bit numbers, whose differences wrap (Registers.Holding.elapsed).
--
-- Bounds: an array of words has at most 4096 words, so that every bit position fits 16 bits; the
-- largest block has nine. The receiving loop of rtu_transceive runs on fuel, one more than the
-- bytes expected: a round that does not end the loop brings at least a byte. The other loops are
-- structural recursion, on the number of rounds left or along the array of units. The loops of
-- recv_body and of handle_ota_post run on fuel too, one more than the length of the body, since
-- each round brings a byte. The length of a body is a natural number, of which handle_ota_post keeps
-- what an int holds (Web.Ota.to_come).
--
-- A step of System.Steps is a whole handler or a whole round of a task. The handlers run one after
-- the other; a handler or a task holds the lock of the gateway while it uses it, and only handlers
-- write to the configuration and to the state of an update. The log is shared without a lock, and
-- its lines are in the order of the steps. A request that ends in an access through NULL
-- (handle_rtu_post without a field) has no result and is no step; after a restart the model goes on
-- with the machine as it is.
--
-- Not modelled: INDEX_HTML of web_server.c, which is a parameter; telnet_server_start, which only
-- starts two tasks; lines for the console (ESP_LOGI and the like); arguments that are NULL;
-- components/mdns, a library of another project; the Python code beside the firmware.
pub mod Base
pub mod Esp
pub mod Codec
pub mod Registers
pub mod Gateway
pub mod Modbus
pub mod App
pub mod Config
pub mod System
pub mod TelnetLog
pub mod Web
pub mod Wifi
pub mod Tests
