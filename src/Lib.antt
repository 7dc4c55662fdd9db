-- ===== src/Lib.antt =====
-- Verification of the nginx monitoring module (src/*.c and src/ngx_http_monitoring.h).
--
-- The program keeps its counters in one shared memory zone. In the log phase every request that is
-- not for the module itself is accounted there: totals, histograms, the worker's counters, the
-- tables of top URLs, user agents and upstream peers. A timer collects samples into a ring of
-- history, and reads the system's metrics, in one worker at a time. A content handler answers the
-- paths below /monitor, behind access rules, basic auth, an API token and a rate limit: a page, JSON
-- documents, a text for Prometheus, and a stream of events with a timer for each client.
--
-- Files and the code they model:
--   State, State/Zero   the structures of src/ngx_http_monitoring.h, and the zeroed zone.
--   Metrics             latency_bucket, size_bucket, method_index and percentile of
--                       src/ngx_http_monitoring_shm.c.
--   Slots               the loop, the key and the choice of a slot that update_top and
--                       update_upstream_slot share; Top and Upstream are the two functions, each
--                       with its entry and its counters (src/ngx_http_monitoring_shm.c).
--   Account             account_request with update_status, update_worker, worker_slot and
--                       account_upstream (src/ngx_http_monitoring_shm.c).
--   History             init_shm (src/ngx_http_monitoring_shm.c), collect_history with its helpers
--                       (src/ngx_http_monitoring_collectors.c) and the order in which json_history
--                       visits the samples (src/ngx_http_monitoring_json.c).
--   Endpoint, Access, Auth, RateLimit, Exchange, Handler, Config
--                       match_endpoint; match_access; find_header, consttime_eq, check_api_token and
--                       check_basic_auth; check_rate_limit; plain_response, add_cors and preflight;
--                       the content and the log handler with authorize; and the configuration, all
--                       of src/ngx_http_monitoring_module.c.
--   Collect             src/ngx_http_monitoring_collectors.c: Libc, what it calls of the system, and
--                       read_file; System, the collectors of single numbers; Tables, those of
--                       interfaces, disks and file systems; Mounts, the fields of a line of mounts;
--                       Timer, init_collector, collect, and init_process and exit_process of
--                       src/ngx_http_monitoring_module.c. Timer/Lock is a step relation: several
--                       workers whose collections are interrupted between the lock, the reading of
--                       the metrics and the release, beside starts and exits, the log
--                       phase, the rate limit, event streams and reloads. Timer/Views, Gathers and
--                       Sampled follow the tables and the history through a collection.
--   Sse                 src/ngx_http_monitoring_sse.c, with the clients of a zone as a step relation
--                       in Sse/Clients.
--   Json                src/ngx_http_monitoring_json.c: the bounded writer; Json/Call, its calls as
--                       values; Json/Documents, Tables, Top and Requests, each function as the calls
--                       that it makes; Json/Send, the responses, with Steady and
--                       Given on which of the documents allocate. Json/Reads is a reader of JSON
--                       strings to compare with.
--   Format              the pieces of a formatted text.
--   Dashboard           send_dashboard of src/ngx_http_monitoring_dashboard.c.
--   Respond             the responses of the module filled into the content handler.
--   Http                what these read of nginx's requests and processes, and the functions of
--                       nginx that they call, as a record of parameters.
--   Prelude             lists, words and bytes over the native numbers.
--   Tests               the theorems at concrete inputs, and runs of the code.
--
-- Every counter is a 64-bit word and wraps around where the code does not stop it; a theorem that
-- needs a counter below its end says so. A loop over an array is structural recursion on the list of
-- its slots, or on the number of its rounds, so no fuel is used. Except for the collections, a
-- function that runs in several workers is modelled as one step: the interleavings within one, and the
-- lock of the zone, are not modelled. Doubles are a parameter, with the operations on them; so are
-- the digits of numbers, the files of the system with sscanf, and the text of the dashboard.
--
-- The format of control characters in JSON strings lacks a type letter, so nginx copies the NUL of its
-- end and reads on in memory: what it writes from there is a parameter.
--
-- Not modelled: the registration of directives, handlers and the zone with nginx
-- (src/ngx_http_monitoring_module.c), the logging of errors, and the dashboard's page, which is text
-- for a browser. A worker that dies with open event streams is not a step of Sse/Clients.
pub mod Prelude
pub mod Metrics
pub mod Slots
pub mod Top
pub mod Upstream
pub mod State
pub mod Http
pub mod Account
pub mod Endpoint
pub mod Access
pub mod Auth
pub mod RateLimit
pub mod Exchange
pub mod Handler
pub mod History
pub mod Config
pub mod Collect
pub mod Format
pub mod Sse
pub mod Json
pub mod Dashboard
pub mod Respond
pub mod Tests
