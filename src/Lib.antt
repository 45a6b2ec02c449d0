-- ===== src/Lib.antt =====
-- A verification library for rudder-go-kit, the Go utilities of the rudder projects. It models the
-- parts of the repository that keep state or compute on their own; most other packages are adapters
-- to clients, brokers and metrics backends.
--
-- Parts, by the file that models them and the file of the repository:
--   CacheTtl     cachettl/cachettl.go. `get`, `put`, `add`, `sweep` and `slice` are `Get`, `Put`,
--                `add`, the deferred loop of `Get` and `slice`. The ring of nodes is the list of its
--                nodes from the head to the tail. A `Get` reads the clock several times, and each
--                reading is an argument of its own. CacheTtl/Heap has the pointers `prev` and `next`
--                themselves, with `remove` and `add` as writes to them.
--   ResourceTtl  resourcettl/cache.go, over CacheTtl as the source is over cachettl. `checkout`,
--                `invalidate`, `checkin`, `on_evicted` are the functions of those names; the callback
--                of the ttl cache runs on the nodes that its `get` evicts.
--   Partmap      partmap/partitionmapping.go: `marshal`, `unmarshal` and the conversions between
--                indices and range starts. 32-bit and 16-bit conversions are remainders. Package
--                compress/gzip is the parameter `Gzip`.
--   Trie         trie/trie.go: `insert`, `get_matched_prefix_word`, `has_matched_prefix_words` over
--                lists of runes. `unicode.IsSpace` is a parameter.
--   Lcs          lcs/lcs.go: the table of `longestCommonSubsequence` and `Similarity`, whose float64
--                quotient is the pair of its numbers. `strings.Fields` is a parameter.
--   Locker       sync/prwlocker.go: goroutines as tickets, the steps under the mutex `l` and the
--                moments at which a partition's mutex lets a goroutine in. A schedule is a list of
--                such steps, so it ranges over all interleavings.
--   Limiter      sync/limiter.go over queue/priorityQueue.go: `wait` and `finish` are `wait` and `end`,
--                `end_execution`, `sleep` and `wake` the methods of an execution, `bump` the ticker
--                of a dynamic priority. Package container/heap is the parameter `Heap`, with the laws
--                in `KeepsItems`. A schedule is a list of steps of any executions.
--   IabParser    iabparser/iabparser.go: `parse_blacklist_line`, `parse_whitelist_line` and the scan of
--                the lines. Packages strings and time are the parameter `Texts`.
--   Config       config/config.go and the files beside it, in child modules: Types (the data), Env
--                (`ConfigKeyToEnv`, `bindEnv`), Access (lookup and registration, shared by the eight
--                types), Getters (the functions of config_int.go and its like), Notify (observers) and
--                Change (`checkConfigForChanges`, `flattenSettings`, `onConfigChange`, `Set`). Viper
--                and the standard library are the parameter `Go`; a `Reloadable` is an address in a
--                store. The functions of the package are these at the configuration `Default`.
--   Percentile   stats/metric/percentile.go: `observe` and `percentile` over the slices `times` and
--                `values` of the ring. Sorting and the arithmetic of float64 are the parameter `Floats`.
--   EagerGroup   sync/eagergroup.go: calls of `Go` as tasks; `go`, `acquire_at`, `give_up_at` are `Go`, the
--                steps up to `release_at` its goroutine, `wait` is `Wait`. A schedule is a list of steps.
--   Throttling   throttling/throttling.go and memory_gcra.go, over CacheTtl: `allow`, `gcra_limit` and
--                `get_limiter` for limiters in memory; package throttled is the parameter `Throttled`.
--   EtcdWatcher  etcdwatcher/etcdwatcher.go: `load_initial_data`, `watch`, `apply_txn_gate` and the two
--                entry points `load_and_watch` and `watch_all` (`Watch`). What etcd answers is an
--                argument, and what is sent to the channel is a list.
--   SingleSender async/single_sender.go, through which the watcher sends: a schedule is a list of steps of
--                goroutines that send, receive, leave and close.
--   Cdoc         cmd/cdoc/internal/engine, in child modules: Model (model/model.go), Directives, Expr,
--                Keys and Scan (scanner/scanner.go), Markdown (render/markdown.go, over Config for
--                the environment names), Engine (engine.go, model/warnings.go), with Types (the
--                data) and Strings (package strings). A file is its comments and its call
--                expressions; go/printer, the sorts and strconv are parameters. The walk over the
--                files, the type checker and the output are not modelled.
--   Logger       logger/config.go and the parts of logger/factory.go and logger/logger.go on levels:
--                `set_log_level`, `get_logging_level` with its cache, `new_config`. A logger is the
--                list of the names given to `Child`.
--   Cgroup       mem/internal/cgroup: `get_memory_limit`, `get_memory_usage`, `get_memory_rss` and the
--                files they read, which are the parameter `Host`.
--   Prelude      tests, lists, integers, and Go maps as association lists (Prelude/Maps),
--                elements by position (Prelude/Positions).
-- In each part the file itself has the definitions (in Config and Cdoc the children named above), its
-- children the theorems, and `Tests` the concrete inputs.
--
-- Numbers are natural numbers, with the remainders and signs of the source written out. Every
-- loop is a recursion on a list or on a count that is read first, but for the pointer loop of
-- CacheTtl/Heap, which takes fuel: more than the length of the ring is enough.
-- Keys, values and resources are arbitrary types; keys have a decidable equality. An ID made by
-- `uuid.NewString` is an argument of the checkout. Times are nanoseconds after Go's zero time.
--
-- Not modelled: the loading of a configuration and two calls of config at once, the metrics of the
-- limiter, the eviction loop of cachettl on pointers (the list of nodes stands for them), the type
-- switch that finds a resource's cleanup method, the interleaving of two calls of resourcettl, throttling by
-- Redis, and the packages that are not in the list above: adapters to clients and backends, wrappers
-- of the standard library, and the other small tools.
pub mod Prelude
pub mod CacheTtl
pub mod ResourceTtl
pub mod Partmap
pub mod Trie
pub mod Lcs
pub mod Locker
pub mod Limiter
pub mod IabParser
pub mod Config
pub mod Percentile
pub mod EagerGroup
pub mod Throttling
pub mod EtcdWatcher
pub mod SingleSender
pub mod Cdoc
pub mod Logger
pub mod Cgroup
