-- ===== src/Lib.antt =====
-- bumper: a local replacement of the Ecovacs cloud. Robots and the mobile application log in to
-- it over HTTPS, and speak MQTT or XMPP through it.
--
-- Parts and files. The web service gives users tokens and codes (`bumper/web/auth_service.py`);
-- the MQTT broker's plugin (`bumper/mqtt/server.py`) and the XMPP server (`bumper/xmpp/xmpp.py`)
-- let clients in by these codes; all three keep what they know in the repositories of `bumper/db`,
-- which are tables of one TinyDB.
--   Base, Text, Value    shared helpers, Python's text operations, JSON values and dictionaries
--   Numbers              `to_int` of `bumper/utils/utils.py`, and the digits of a number
--   Settings             what is read of `bumper/utils/settings.py`
--   Models               `bumper/web/utils/models.py`: records, `as_dict`/`to_db`, `from_dict`
--   Models/CleanLog      `CleanLog` of the same file
--   Db/Rows, Db/Tiny     documents, and TinyDB as a parameter: `TinyDb` its operations,
--                        `Documented` what its documentation says of them
--   Db/Repo              `BaseRepo` of `bumper/db/base.py`
--   Db/Bots, Db/Clients, Db/Users, Db/Tokens
--                        the repositories `bumper/db/bots.py`, `clients.py`, `users.py`, `tokens.py`
--   Db/CleanLogs         `bumper/db/clean_logs.py`, and `bumper/mqtt/handle_atr.py`
--   Db/Meta, Db/Migration
--                        `bumper/db/db.py` and `bumper/db/migration.py`: the version of the database
--                        and its migration; Db/Migration/Flat what it makes of the old logs
--   Mqtt/ClientId, Mqtt/Auth, Mqtt/Presence
--                        `BumperMQTTServerPlugin` of `bumper/mqtt/server.py`: `authenticate`,
--                        `on_broker_client_connected`, `on_broker_client_disconnected`
--   Mqtt/Passwords       `_read_password_file` of the same class
--   Mqtt/Timezone        `_set_bot_timezone` of the same class
--   Mqtt/Server          `MQTTServer` of `bumper/mqtt/server.py`, and `_restart_mqtt_server` of
--                        `bumper/web/web_paths.py`
--   Mqtt/Forward         `ProxyClient._handle_messages` of `bumper/mqtt/proxy.py`, and
--                        `on_broker_message_received`
--   Mqtt/Command         `MQTTCommandModel` of `bumper/mqtt/helper_bot.py`
--   Mqtt/Helper          `MQTTHelperBot` and `CommandDto`; Mqtt/Helper/Send what the web service
--                        is answered
--   Xmpp/Element, Xmpp/Client, Xmpp/Login, Xmpp/Route, Xmpp/Dispatch
--                        `XMPPAsyncClient` of `bumper/xmpp/xmpp.py`, a handler each;
--                        Xmpp/Repair the text that is received
--   Xmpp/Server          `XMPPServer` and `XMPPServerProtocol`
--   Web/Response         `bumper/web/utils/response_helper.py`
--   Web/Auth, Web/Codes  `bumper/web/auth_service.py`: `login` and `_auth_any`, the codes
--   Web/SinglePaths      `bumper/web/single_paths.py`; Web/SinglePaths/Archive the certificates
--   Web/Server           `bumper/web/server.py`: the runners, and the proxy's decisions
--   Web/Oauth            `oauth_callback` of the same file, and its JSON web tokens
--   Web/Commands         `handle_commands` of `bumper/web/plugins/api/iot.py`
--   Web/Pages            `bumper/web/web_paths.py`: what the pages show, and the removals;
--                        Web/Pages/LogPage the page of clean logs
--   Web/Devices          `create_device_list` of `bumper/web/plugins/api/appsvr.py`;
--                        Web/Devices/QrCode the scan of a robot's code
--   Web/App              `_handle_app_do` of the same file; Web/App/Properties the properties of a
--                        device, Web/App/Queries what is answered from a query
--   Web/Plugins          handlers of `bumper/web/plugins/api/neng.py`, `pim/product.py`, `ecms.py`
--   Web/Users            `bumper/web/plugins/api/users.py`
--   Web/Homes            `bumper/web/plugins/api/homed.py`
--   Web/Account          `bumper/web/plugins/v1/private/user.py`
--   Resources            the readers of files of `bumper/utils/utils.py` and
--                        `bumper/web/static_api/__init__.py`
--   Certs                `bumper/utils/certs.py`: the names of the certificate; Certs/Generate the
--                        files that are made
--   Lifecycle            `bumper/__init__.py`: the start, the maintenance and the shutdown;
--                        Lifecycle/Off that nothing runs, and the stages of a shutdown;
--                        Lifecycle/Restart and Lifecycle/Status the restart of a service
--                        and the status of the servers, from `bumper/web/web_paths.py`
--   Examples             concrete stores, tests, and the theorems at concrete inputs
--
-- State and errors. A repository's operation takes its table and returns the table it leaves. A
-- handler that may raise is an `Exec` action: a state goes in, an optional result and the state
-- as far as it was written come out, so what was written before an exception stays written. An
-- XMPP connection is `Conn`: the client itself in its place among the others, the two tables, and
-- the texts sent so far. All functions are structurally recursive but for three on fuel: the
-- loop over the versions of a migration (`migrate_loop`), where two rounds are enough since the
-- version that is reached has no migration; the digits of a number (`digits_from`), of which a
-- number has at most as many as it counts, and one; and the loops that wait for a server
-- (`wait_while`), where a shutdown needs one round for a broker that settles by the next look.
--
-- Parameters. TinyDB, base64, the password hash, the resolver, the proxy's connection, the cache
-- of requests, that of commands, `json`, the XML serialiser, `uuid4`, SHA-256, PyJWT, aiohttp, the
-- broker of amqtt, `tarfile`, gzip and
-- cryptography are not part of the repository: they are arguments, with the
-- documented behaviour that a theorem uses as a hypothesis. Moments are numbers, and `Datetime` their ISO texts. A web request sees one moment
-- `now`.
--
-- A shutdown is given how the other tasks of the event loop end once they are cancelled, in the
-- order in which they do; the hook of a connection that ends, whether the proxy's own disconnect
-- returns; a connection's text, the parser. Where amqtt's calls return, its broker is in the state
-- that they are to lead to; whether they return is up to it.
--
-- Not modelled: log messages; the `name` attribute of XMPP clients; the waiting of the ping task;
-- letters beyond ASCII in `lower()`; floating-point values. A `userid` of a record is read as a
-- text, as its declared type says. Left out as glue over libraries, input and output, or fixed
-- answers: the routes, pages and plugins of `bumper/web` but for the files above, and logging.
-- Left out so far: the logging of requests
-- (`bumper/web/utils/middlewares.py`).
pub mod Base
pub mod Text
pub mod Value
pub mod Numbers
pub mod Settings
pub mod Models
pub mod Db
pub mod Mqtt
pub mod Xmpp
pub mod Resources
pub mod Web
pub mod Certs
pub mod Lifecycle
pub mod Examples
