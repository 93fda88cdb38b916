-- ===== src/Lib.antt =====
-- A model of the core of stacx, a framework for MQTT-connected devices built from "leaves".
--
-- A leaf has a type, a name, registered commands and values, and a base topic. Messages reach it from
-- the broker through the pubsub leaf, or from other leaves that it taps; it answers by publishing to
-- the broker and to the leaves that tap it. Values that are marked so are kept in a preference store.
--
-- Prelude.antt: tests, lists, Arduino strings as lists of character codes (Text: indexOf is an Option,
--   substring, startsWith, replace), signed integers, decimal numbers as String and toInt write and
--   read them, and words as lists of bits.
-- Platform.antt: what comes from outside the repository, as parameters: the container SimpleMap with
--   its documented laws, and floating-point numbers. Platform.Example instantiates it.
-- Fault.antt: undefined behaviour of the code (a NULL value, an unterminated buffer, an access out of
--   bounds) as a result.
-- Words.antt: the words for Booleans (leaf.h: parseBool; accelerando_trace.h: TRUTH, ABILITY).
-- Storage.antt: abstract_storage.h, the table of preferences and its typed accessors; Storage.Messages
--   has its constructor, commands and messages.
-- Leaf.antt and its children: leaf.h.
--   Value (class Value), Prefs (getPref ... setDoublePref), Values (registerValue, loadValue, setValue,
--   getValue), State (the fields and registerCommand), Topic (makeBaseTopic, wants_topic), Command and
--   Help (the commands of mqtt_receive), Receive (mqtt_receive), Publish (mqtt_publish,
--   mqtt_subscribe).
-- Taps.antt and its children: leaf.h, the table of leaves: find, get_leaf, install_taps, tap, publish.
--   A leaf pointer is a position in the table.
-- Pubsub.antt and its children: abstract_pubsub.h. Address (the parsing of a topic in _mqtt_route),
--   Route (who is offered a message; the virtual methods of the leaves are parameters), Connection
--   (pubsubConnect, pubsubOnConnect, pubsubOnDisconnect, pubsubScheduleReconnect, loop; what they do is
--   returned as a list of effects, and nothing runs after a reboot), Messages (the transport's own
--   wants_topic and mqtt_receive) and SendQueue (_mqtt_queue_publish, flushSendQueue, and the choice of
--   _mqtt_publish in leaf_pubsub_mqtt_esp.h between sending and queueing; the FreeRTOS queue is a parameter with
--   its documented laws).
-- Ip.antt and its children: abstract_ip.h. Connection (ipConnect, ipDisconnect, ipOnConnect,
--   ipOnDisconnect, ipScheduleReconnect, loop), Clients (tcpConnect, tcpRelease; making a client is a
--   parameter), Status (ipStatus, timeSourceName) and Commands (commandHandler).
-- Extenders.antt and its children: the port extenders. ShiftRegister (leaf_pinextender_74595.h; the chip
--   is a parameter with its documented laws) Port (leaf_pinextender_pcf8574.h) and
--   Expander (leaf_pinextender_mcp23107.h); what the bus answers is a parameter.
-- Sensors.antt: PulseCounter (leaf_pulsecounter.h: pulse, reset and the interrupt routines).
-- Outputs.antt and its children: Lock (leaf_lock.h), Light (leaf_light.h), Outlet (leaf_outlet.h) and
--   Actuator (leaf_actuator.h). A lock or a light on an extender sends it messages, which
--   Lock.Extending delivers to the shift registers.
-- Core.antt and its children: stacx.h. Blink (post_error, helloUpdate, hello_on_blinking), Comms
--   (comms_state, idle_pattern, idle_color, set_identify) and History (post_error_history_update, _entry
--   and _reset; the device's part of one array).
--
-- State is passed explicitly: each operation returns the new leaf, table or world, and what it
-- publishes as a list. Logging, delays and the watchdog are left out. The code is that of an ESP32
-- build with USE_PREFS. Loops over tables are structural; the loop of install_taps has the length
-- of its text plus one as fuel, and each round shortens the text. Numbers from texts are held to
-- the range of a 32-bit long, as toInt does; flushSendQueue has one round for each waiting message
-- and each that it is asked to send, and one more, which is enough whenever it ends; the model gives none where
-- it goes on for ever; differences of millis() wrap at 2 ^ 32. The loop that pads the shift registers to whole
-- bytes has eight rounds, and ends at the next multiple of eight. A handler of a subclass returns what it does
-- itself, and whether the message goes on to the class Leaf.
--
-- Not modelled: the start-up and the main loop of stacx.h, the tasks and start-up of leaf.h, the commands of abstract_pubsub.h, the probes and
-- updates of abstract_ip.h, the modem and WiFi transports, the arithmetic of floats, and the other
-- leaves that drive hardware.
pub mod Prelude
pub mod Platform
pub mod Fault
pub mod Words
pub mod Storage
pub mod Leaf
pub mod Taps
pub mod Ip
pub mod Extenders
pub mod Sensors
pub mod Outputs
pub mod Core
pub mod Pubsub
