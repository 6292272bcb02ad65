-- ===== src/Lib.antt =====
-- The Vault AEAD secrets plugin: a plugin that encrypts and decrypts the fields of requests with
-- Google Tink keysets, which it keeps in its own config.
--
-- The parts and how they interact. A request arrives at a handler of path_aead.go or path_config.go
-- with a map of values, `data.Raw`. Every handler first refreshes the process-wide cache AEAD_CONFIG
-- from the storage of the secrets engine (getAeadConfig); the handlers of path_config.go change the
-- cache and put it back, and pass keysets on to a KV engine. The handlers of path_aead.go look for
-- the keyset of each field (GetEncryptionKey), directly or through aliases, and encrypt or decrypt
-- the fields concurrently.
--
-- Which file models which part:
-- - Prelude: bytes, lists, outcomes of Go calls (a result, a returned error, a panic).
-- - GoMap: Go's maps with string keys, and cmap.ConcurrentMap, as association lists in the order in
--   which a range loop meets the entries. Statements go through `get`, which hides the order.
-- - Text, Base64, Integers: what the code uses of strings, encoding/base64 and strconv.
-- - Value: interface{} values, how fmt prints them with %v and %s, and loops over maps of them.
-- - KeySet: KeySetStruct and its methods (aeadutils/aeadutils.go). Keys: the other functions of that
--   file on keysets, names and handles; Keys/Edit: UpdateKeyStatus and its three siblings.
-- - Lookup: GetEncryptionKey and getEncryptionKeyMultiple, with the depth of 5 that every caller uses
--   as the number of levels that are left. Pivot: PivotMap and PivotMapInt.
-- - Tink: what is taken from outside: Google Tink and the JSON form of keysets, as a record of
--   functions; `none` is a nil pointer or a returned error, and random bytes are arguments.
-- - Exec: code that changes a state and ends in an outcome; what was written before an error or a
--   panic stays written.
-- - Vault: the Vault client and Go's own encoding/json and Unicode tables, as records of functions;
--   Vault/Client, Secrets, Walk, Transit, KeyNames: kvutils/kvutils.go over it; Vault/Folders,
--   Wrapping: theorems about these.
-- - Kv: the options of the KV engine (resolveKvOptions, path_kv.go); the guards of saveToKV are in
--   Config/Write. Kv/Secret: the secrets of the engine and the list of keys to be synchronised;
--   Kv/Sink: saveToKV and saveToTransitKV, the implementation of the interface that the config takes;
--   Kv/Sync: readKV and the handlers pathReadKV, pathSyncKV and pathSyncTransitKV;
--   Kv/Restore: a save and a synchronisation together.
-- - Config: the state (`World`: the cache, the storage, the KV engine, the published telemetry) and
--   getAeadConfig; Config/Write: the handlers that write, overwrite, delete, read and import config
--   entries; Config/Manage: saveKeyToConfig, key creation and rotation; Config/Update: the four
--   handlers that update keysets.
-- - Aead: one field; Aead/Handlers: rows, columns and the four handlers of path_aead.go; Aead/Cells:
--   the cells of columns; Aead/Telemetry: publishTelemetry.
-- - Bq: the options, names and texts of BigQuery routines (bqutils/bqutils.go); Bq/Cloud: BigQuery and
--   KMS as a record of functions; Bq/Routine, Bq/Sync: the rest of that file; Bq/Handler:
--   pathBQKeySync (path_bqsync.go).
-- - Backend: the paths of backend.go with their operations and handlers, validateFields and pathInfo;
--   Backend/Serve: how a request reaches its handler. KvToBq: cmd/kv2bq/kv2bq.go.
-- - Examples: a toy Tink, a storage, a Vault and a cloud in memory, and the theorems at concrete inputs.
--
-- Bounds and recursion: every function is a structural recursion on its input, but the key lookup,
-- which recurses on the levels that are left, 5 as in the code, and the walk over the paths of a KV
-- engine, which recurses on the calls that the stack still holds (`Vault.stack`): a walk that uses
-- them up ends the program, as a stack overflow does, and one over a finite tree of folders does not
-- if the stack holds one call more than folders stand inside one another. Bytes are natural numbers; the
-- predicate IsBytes says that they are below 256.
--
-- Concurrency: the goroutines of one loop share only the config cache, which each of them sets to the
-- stored config; they are run one after the other, and the order in which their results arrive on the
-- channel is a parameter (`Env.deliver`), which may be any permutation (`IsFair`).
--
-- The goroutines of DoBQSync run after its loop, in an order that is a parameter (`Runtime.order`);
-- which of them read the options late is a parameter, too (`Runtime.late`), and so is the round in
-- which a goroutine of pathBQKeySync reads the loop's variable.
--
-- Not modelled: the insides of the Vault, BigQuery and KMS clients and of encoding/json, which are
-- parameters; KvGoDoHttp and KvCreateHttpClient (kvutils/kvutils.go), which are HTTP; the YAML file of
-- cmd/kv2bq; Factory and the help texts (backend.go); the plugin's main and the load generator
-- cmd/performance, which drives a running server with random data.
-- Log messages are left out.
pub mod Prelude
pub mod GoMap
pub mod Text
pub mod Value
pub mod Base64
pub mod Integers
pub mod KeySet
pub mod Tink
pub mod Keys
pub mod Lookup
pub mod Pivot
pub mod Exec
pub mod Vault
pub mod Kv
pub mod Config
pub mod Aead
pub mod Bq
pub mod Backend
pub mod KvToBq
mod Examples
