-- ===== src/Lib.antt =====
-- Libraries bundled with JEDGE, the laser tag controller: the ESP32 Arduino libraries under
-- "Essential Libraries" that its sketches are built on. The repository holds no sketch of its own.
--
-- Update models Essential Libraries/Update/src/Updater.cpp and Update.h. Update/State is the object
-- and its private methods (reset is _reset, abort_with is _abort, write_buffer with write_sector and
-- sector_done is _writeBuffer, verify_header is _verifyHeader), Update/Methods the public methods that
-- start and end an update, Update/Transfer the three ways to write, Update/UpdateError the error codes
-- and texts. Update/Esp is what the class calls and the repository does not hold: the flash and OTA
-- functions, the heap, the pins, the MD5 builder and the stream, each of which may change the device;
-- FlashLaws is the documented behaviour of the flash that theorems about its contents take as a
-- hypothesis. Update/Image says what an object holds of the image, Update/Sector, Flush, Writes,
-- Accepted and Written carry it through _writeBuffer and write, Begins and Ends and Installed start
-- and end it, Header is about the magic byte, Session puts the calls together, Digest, Stopped, Faults, EarlyEnd
-- and Silent are the error paths.
-- Sums of size_t are taken modulo 2^32. The loop of write has fuel one above the bytes in the buffer
-- and in the call, each round takes a sector's worth; writeStream and the template write take their
-- fuel as an argument, since how long they run is up to the stream. A progress callback acts on the
-- device and not on the object. The text output methods (printError, md5String, md5) are not modelled.
--
-- Eeprom models Essential Libraries/EEPROM/src/EEPROM.cpp and EEPROM.h. Eeprom/Store is the object, with
-- begin (its branches are truncate, expand with rewrite, and load), commit, end and the access to single
-- bytes; Eeprom/Values is readAll, writeAll, get, put and the methods named for a type, on the
-- little-endian bytes of Eeprom/Encoding; Eeprom/Strings is the strings and byte blocks. Eeprom/Nvs is
-- what the class calls: the non-volatile storage and malloc, with NvsLaws for its documented behaviour.
-- Eeprom/Access and Typed are about values, Persist and Reopen about the storage, StringRoundTrip about
-- strings. An out-of-range copy makes the list longer than the buffer, and memory past the buffer is a
-- parameter of the readers of strings. The search for a terminator has fuel two above the size, enough
-- while the 16-bit counter does not wrap. The float and double methods and convert are not modelled.
--
-- Ble models the data classes of Essential Libraries/BLE/src. Ble/Uuid is BLEUUID (from_text,
-- from_memory, to128, to_string, equals, from_string), with the digits in Ble/Hex; Ble/Advertised is
-- BLEAdvertisedDevice with its parser (parse_advertisement, parse_loop, read_record); Ble/Base64 is the
-- base 64 of GeneralUtils.cpp, whose groups of three bytes and four characters are patterns; a read in
-- front of a string is none. UuidText and
-- Base64RoundTrip are about texts; Ble/Record describes the format of advertisements, and Ble/Payload is
-- about the loop of the parser. A UUID keeps the field of its union that its length names; a write below
-- the array of 128 bits makes its list longer. Ble/EddystoneUrl and EddystoneTlm (with
-- BLEBeacon) are the beacons, BeaconData what they send and receive, UrlText what the codes of a URL stand
-- for, and UuidRefusals two kinds of text that BLEUUID does not read. Ble/Value and Characteristic are BLEValue and BLECharacteristic with
-- the events that read and write it (read_event, write_event, exec_write_event are the cases of
-- handleGATTServerEvent), Notify is notify and indicate. Gatts is what they call: ESP-IDF and the
-- callbacks, each of which may set the value, and the semaphore of the confirmations; a copy past the value or past a response is none.
-- ReadPacket and LongRead are about long reads by a client that reads on until a packet is not full,
-- LongWrite about prepared writes, Notified about the reports of a send. The advertisement parser has its
-- fuel as an argument: its 8-bit counter can wrap, so it need not end on every payload. Log output is not modelled.
--
-- BtSerial models Essential Libraries/BluetoothSerial/src/BluetoothSerial.cpp. BtSerial/Stack is what the
-- file calls (the classic Bluetooth stack, with StackLaws for its documented behaviour), the events and
-- the global variables; Events is esp_spp_cb (handle_event is its switch), Sending is write, read and the
-- task _spp_tx_task (a round is tx_packet on the queue, with tx_small and tx_large for its two branches)
-- with _spp_send_buffer; Pin is setPin with btSetPin and isReady. While the sending task waits, other
-- tasks run: the schedule says what they do in each wait. The loop of the task has fuel one above the
-- bytes that are left. A custom callback acts on the device and not on the variables. Link, Waits, Rounds
-- and Steps carry the invariant of the variables through every step; Stream says what bytes are under
-- way, Carried and CarriedRound follow them through a round for any relation that a send keeps, Delivery
-- and Lossless give two such relations; Received and Pins are about the receiving queue, a refused
-- connection and the pin. The discovery, connect, disconnect, flush, begin and end are not modelled.
--
-- Http models how a response's body is passed on: writeToStream and writeToStreamDataBlock, with
-- disconnect, connected and returnError, of Essential Libraries/HTTPClient/src/HTTPClient.cpp. Http/Net is
-- what they call, with NetLaws for the documented behaviour and Closes for a server that does not keep the
-- client waiting for ever. Http/Block is writeToStreamDataBlock (block_loop is its loop, pass_on the write
-- with its second try); Copied, Passed and Transfer are about a write, a round and the whole call.
-- Http/Chunks is writeToStream: chunk_len is the strtol of a chunk's header, chunk_loop the loop over the
-- chunks, drain the loop of disconnect. Polls, Streamed and Ended are about a block, the chunks and the
-- whole call. The loops have fuel above the number of polls that the server allows. The counts stay below
-- 2^31, where an int ends. What writeToStream leaves in _size, the headers and the parser of URLs are not
-- modelled.
--
-- WifiClient models the receiving side of Essential Libraries/WiFi/src/WiFiClient.cpp: RxBuffer is
-- WiFiClientRxBuffer (fill_buffer is fillBuffer; read with read_filled, read_slowly and read_loop; peek and
-- available), with the socket and the heap as the parameter Socket and their documented behaviour as
-- SocketLaws; Client is WiFiClient's read, peek, available, stop and flush, where a call through a null
-- pointer is a result of its own. Moves is about fillBuffer, Loops and Reads about read, Peeks about peek,
-- Faults about a client whose socket has failed or was closed. The loop of read has fuel above the number
-- of bytes asked for, since each round copies at least one. connect, write, connected and the options of
-- the socket are not modelled.
--
-- WifiMulti models Essential Libraries/WiFi/src/WiFiMulti.cpp. WifiMulti/ApList is addAP (add_ap) and run,
-- whose parts are keep_known, after_scan with best_of, and connect_best with wait; WifiMulti/Wifi is what
-- it calls: the WiFi object, millis and delay. Best is about the choice of a network, Waiting about the
-- end of run, Adding about the list. The result of a scan is an int8_t
-- (to_int8). The wait has fuel two above the time limit in milliseconds.
--
-- The other libraries are not modelled: most of them wrap calls of ESP-IDF, and Arduino_JSON, AsyncTCP
-- and ESPAsyncWebServer are copies of other projects.
pub mod Base
pub mod Ble
pub mod BtSerial
pub mod Eeprom
pub mod Http
pub mod Update
pub mod WifiClient
pub mod WifiMulti
