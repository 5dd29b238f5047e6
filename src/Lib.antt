-- ===== src/Lib.antt =====
-- The control firmware of a hot tub: an ESP32-S3 with a heater, a pump, sensors, and web and BLE clients.
--
-- Parts. The task of components/hot_tub_controller runs once a second: it copies the shared state,
-- filters the temperature, counts two timers down, and decides on heater and pump with a pre-run
-- of the pump before heating, a post-run after it, and a lockout after a manual stop; then it
-- writes its copy back. Clients change the same shared state through the commands of
-- components/json_service, which call its setters; every setter asks the persistence task to save
-- the settings to the non-volatile storage. components/wifi_manager connects to the network of the
-- stored credentials or serves a recovery access point, and tries new credentials before it stores
-- them. components/web_server serves the files of the web page and broadcasts the status to its
-- WebSocket clients. components/ble_service takes commands of a BLE client, which reach the Wi-Fi
-- manager and the updates of components/ota_manager over a secure connection only, and sends it
-- long messages in frames. components/app_watchdog gathers a feed from each registered task and
-- feeds the RTC watchdog when its quorum is met. At boot app_start of components/app_controller
-- starts the parts one after the other, and components/ota_manager counts the starts of a new
-- image in the storage of components/nvs_storage, which also keeps the Wi-Fi credentials.
--
-- Files, with the code that each models:
--   Base (Tests, Lists, Int, Text)  shared names, lists, signed integers and strings
--   Esp                             the result codes of ESP-IDF
--   Float (Ops, Fixed)              float and double as an interface, and an instance that runs
--   HotTub                          components/hot_tub_controller:
--     State                         include/hot_tub_globals.h, HotTubController_t and its enumerations
--     Persist                       src/hot_tub_controller_nvs.c, and the lock and the snapshots of
--                                   src/hot_tub_struct_io.c
--     StructIo                      src/hot_tub_struct_io.c, each setter and getter under its name
--                                   without hot_tub_controller_
--     Settings                      src/hot_tub_controller.c: verify_*, the temperature filter,
--                                   load_saved_settings
--     Control                       src/hot_tub_controller.c: hot_tub_controller_main_task; the stages
--                                   of a round have the numbers of the comments there, run_rounds and
--                                   control_cycle are its loop
--     Callbacks                     src/hot_tub_callbacks.c: Params, Getters, Setters, Table; Dispatch,
--                                   NoParam and Effects hold their lemmas
--     Stages, Safety, Heating, PostRun, Lockout, Bounds, Manual, Progress   lemmas on Control
--     Sensor                        src/hot_tub_ds18b20.c: opening, reading and releasing the sensor
--     Monitor, Polling              src/hot_tub_ds18b20.c and src/hot_tub_sim.c: the monitoring task,
--                                   its lemmas, and the simulation
--     Persistence                   lemmas on Persist, StructIo and Control together
--   Json                            components/json_service/src/json_service.c: Items is the interface
--                                   to cJSON, Registry the registry and the dispatcher, Rpc the reading
--                                   of a message with a lemma, Envelope and
--                                   Decimal the CRC32 envelope, Plain an instance of the interface
--                                   that runs
--   Watchdog                        components/app_watchdog/src/app_watchdog.c: Slots (the statics and
--                                   the masks), Ops (the operations), Report (the
--                                   status, with its lemmas), Calls (sequences of calls); Invariant, PreserveFeed,
--                                   Preserve, Starve, Fallback, Waiting and Rounds hold the
--                                   lemmas
--   Storage                         components/nvs_storage/src/nvs_storage.c: Driver (the interface to the
--                                   storage of ESP-IDF, open_storage), Credentials, BootFailures; Memory
--                                   is an instance that runs, RoundTrip and Restart hold the lemmas
--   Ota                             components/ota_manager/src/ota_manager.c: Boot has
--                                   ota_manager_note_boot and ota_manager_mark_app_ready, Rollback the
--                                   lemmas; Urls, Images, Update and Requests have the update, Complete
--                                   its lemmas
--   Wifi                            components/wifi_manager/src/wifi_manager.c: State (the statics),
--                                   Events (the event handler, the requests and the retry timer),
--                                   Attempts (process_sta_attempt, enter_ap_fallback), Trial and
--                                   Provision (the trial of credentials, its rollback, the fallback
--                                   retry), Start (wifi_manager_start), Steps (the worker task, and
--                                   the relation of the reachable states); Modes, Waits, Invariant,
--                                   Preserve, Reached, Rollback, Outcome, Exhaust and Recovery hold
--                                   the lemmas
--   WebServer                       components/web_server/src/web_server.c: Clients (the table of
--                                   WebSocket clients and its critical sections), Acts (the operations,
--                                   with the steps of other tasks between their critical sections),
--                                   Broadcast (web_server_broadcast_json, and sequences of calls),
--                                   Files (mount_littlefs, file_etag), Serve (send_file, ws_handler);
--                                   Table, Sound, Sends, Closed, Broadcasts, Stale,
--                                   Late and Etags hold the lemmas
--   Led                             components/rgb_led/src/rgb_led.c
--   App                             components/app_controller/src/app_controller.c: Start (app_start),
--                                   Boots the lemmas on its boots with the boot check
--   Ble                             components/ble_service/src/ble_service.c: Frames
--                                   (ble_service_send_chunked), Text (trim_in_place,
--                                   str_equals_ignore_case, the texts of the commands), Commands (the
--                                   JSON requests), Rx (rx_access_cb, the text commands, the ends of
--                                   what they start); Sizes, Reassemble and Secure hold the lemmas
--
-- How the code is read. A function that changes statics takes the state and returns it. A critical
-- section is one step, and whether a timed lock is had, and what a call of the platform answers,
-- are arguments. What other tasks do between two rounds is free: run_rounds takes the list of the
-- snapshots that the rounds read, and the worker of Wifi takes lists of the acts of other tasks
-- between its critical sections; an act is one step, also where it sends to the queue after its
-- critical section. control_cycle, and the operations of WebServer, take in the same way what
-- other tasks do between their steps. A C int is an integer without bounds, which the timers do
-- not need (both stay in 0 to 20 under the conditions of HotTub.Bounds). float and double have no
-- fixed format: a lemma on control flow holds for every interpretation of them, and the one law
-- that is used, on the cast to int, is a field of FloatLaws with an instance. A char array is the
-- list of its bytes. The feed masks are lists of eight bits. Every loop is over a list or a number
-- that is given, except that printing a number has ten digits as its fuel, which is enough for 32
-- bits.
--
-- Not modelled: the publishing of the status and the time component; app_main and the checks of
-- the memory; the advertising, the connections and the texts of the messages of the BLE service,
-- and its start; the start of the HTTP server with its list of URIs; the messages of an update as
-- JSON; the configuration records for the Wi-Fi driver; the text format of JSON and the failures
-- of its allocations; logging; the scheduling of the tasks beyond the steps above; the registers
-- of the watchdog timers.
pub mod Base
pub mod Esp
pub mod Float
pub mod HotTub
pub mod Watchdog
pub mod Json
pub mod Storage
pub mod Ota
pub mod Wifi
pub mod WebServer
pub mod Ble
pub mod Led
pub mod App
