-- ===== src/Lib.antt =====
-- A model of the MQTT device client of the IoT Hub C SDK, and what is proved of it.
--
-- The client (services/common/mqtt_client) publishes, subscribes and reads packets over a network
-- connection; the packet codec (common/mqtt_packet) turns packets into bytes and back; the timers
-- (platform/os/Linux/HAL_Timer_linux.c) give deadlines. A call of the interface ends in a function of the
-- client, which serializes a packet, remembers it in a list of those that wait (common/utils), and sends it.
-- The main loop reads a packet into the read buffer and hands it to the handler of its type, checks the
-- lists for packets that waited too long, and keeps the connection alive or makes a new one. Firmware is
-- fetched by the OTA application (app/ota), which runs the downloader of common/utils over a COS download
-- (services/common/cos), which sends its requests with the HTTP client (services/common/http_client).
-- Messages are JSON, that common/utils scans.
--
-- Packet: common/mqtt_packet. Packet/Defs has the types, error codes and header bytes of
--   inc/mqtt_packet.h; Packet/Write and Packet/Serialize are src/mqtt_packet_serialize.c, Packet/Read and
--   Packet/Deserialize are src/mqtt_packet_deserialize.c. A writer appends to the bytes written so far; a
--   reader takes the bytes of the memory from the packet on. The other modules are proofs:
--   RemainingLength, Wire (the parts of a packet), RoundTrip, Acks, Suback, Connect, Subscribe.
-- Timer: platform/os/Linux/HAL_Timer_linux.c, over a reading of the clock in microseconds.
-- Client: services/common/mqtt_client. Client/State is inc/mqtt_client.h: QcloudIotClient is the record
--   Client. A function of the C code is a function of the state monad M with the same name, without the
--   prefixes _ and qcloud_iot_. Client/Topic, Client/RepeatBuf and Client/Publish are
--   src/mqtt_client_publish.c, Client/Handles, Client/WaitList and Client/Subscribe
--   src/mqtt_client_subscribe.c (with the list of published packets of the former), Client/PacketId and
--   Client/Common src/mqtt_client_common.c, Client/Connect src/mqtt_client_connect.c, Client/Read,
--   Client/Cycle and Client/Yield src/mqtt_client_yield.c; Client/Api is src/mqtt_client.c, with the
--   construction of a client in Client/Api/Construct. Their child modules hold the proofs: Client/Topic/Levels
--   has the levels of section 4.7 of the MQTT standard, and Client/RepeatBuf/Age the age of an identifier in
--   the ring. Client/Linked
--   and Client/Returns are what all operations keep and why the loops return, and Client/WaitList/Stored
--   relates a list of the client to the linked list that stores it.
-- Utils: common/utils. Utils/List is src/utils_list.c on the heap of nodes of Utils/List/Cells, with an entry
--   for each lock, unlock and free; Utils/List/Access, Chain, Ends, Pop, Unlink and Process are its proofs.
--   Utils/Downloader is src/utils_downloader.c, Utils/Json, with Utils/Json/Scan, the scanner of
--   src/utils_json.c. Utils/Strings has strchr and strstr of the C library.
-- Services: Services/Cos is services/common/cos/src/cos_download.c, Services/Http the URLs and requests of
--   services/common/http_client/src/http_client.c, with the reception of responses in Services/Http/Receive,
--   and Services/Ota services/common/ota/src/ota_mqtt.c, over the JSON scanner and the client's interface.
--   Services/Service is services/explorer/service_mqtt/src/sevice_mqtt.c: the services by their methods.
-- App: App/Ota is app/ota/ota_downloader.c, on the state of App/Ota/State; App/Ota/Files is
--   app/ota/ota_firmware_save.c on a disk of two files; App/Ota/Digest is what is assumed of MD5.
-- Prelude: what the parts share: Boolean tests, lists and integers over the native numbers, bytes.
--
-- The outside is the record Env: memory allocation, the network, the clock and random numbers, each
-- answer by the number of the call, so that a run is a function of it. What the client does to the
-- outside is the trace: packets written, events and messages given to the application, memory freed. What a
-- callback does is not modelled: it does not call back into the client. An entry for undefined behaviour
-- ends what the model says: nothing is known of the run after it.
--
-- Bounds and fuel. A uint32_t or uint16_t is a native number, with the wrap-around written out where the
-- value can reach it. The loop that writes a remaining length has fuel 5, as 2 ^ 31 has at most five
-- digits to the base 128. The loops that depend on the network and the clock have fuel and give nothing
-- when it runs out: discarding a packet needs at most 2 ^ 32 rounds, if each read that succeeds has a
-- byte, and a wait and the main loop need as many rounds as there are calls to the environment until
-- the clock passes the deadline. A traversal of the linked list needs more fuel than it has nodes, and a
-- download more than the size of its file. The search for a key in a text of n bytes has fuel n + 1, as each
-- of its rounds takes at least one byte.
--
-- Not modelled: mutexes of the client (an operation runs alone), the contents of freed memory, logging,
-- HTTP bodies in chunks and the connection of the HTTP client, the numbers in JSON values (sscanf), the
-- functions of cryptology, the system, template and file services, sockets, threads and TLS.
pub mod Prelude
pub mod Packet
pub mod Timer
pub mod Client
pub mod Utils
pub mod Services
pub mod App
