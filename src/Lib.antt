-- ===== src/Lib.antt =====
-- SHARK-Platform: serving and compiling machine-learning models. This development models the part of
-- the LLM server that owns the key-value cache of attention layers,
-- shortfin/python/shortfin_apps/llm/components/kvcache, and the path of a request through
-- messages.py, generate.py and service.py of shortfin/python/shortfin_apps/llm/components; the requests,
-- the batcher and the workers of the image server, shortfin/python/shortfin_apps/sd/components; the
-- tuner's search for the parameters of a dispatch, tuner/tuner; and the pack of a model's parameters in
-- sharktank/sharktank/types/theta.py, the packed integers of layout_utils.py beside it, the dispatch of
-- operators in sharktank/sharktank/ops, a helper of sharktank, and the bridge to the web server,
-- shortfin/python/shortfin/interop/fastapi.
--
-- The program's part and how its pieces interact. The server keeps the keys and values of tokens in
-- pages of fixed size. A pool (page_pool.py) owns the pages. A cache (base_attention_cache.py, or
-- trie_attention_cache.py where prompts share their prefixes) answers a request of the batcher for the
-- pages of a prompt with an allocation. An allocation is extended while tokens are generated,
-- publishes its complete pages for other prompts to share, and is released at the end. When the pool
-- is empty, the trie cache evicts the pages of unused leaves, the one used longest ago first. A
-- generation (generate.py) submits a prefill and then one decode request for each token; an executor
-- (service.py) turns the requests of a batch into padded arrays, runs the model and publishes pages.
-- The image server checks what a client sends (io_struct.py), makes a request for each image and tags
-- it with the phases it needs (messages.py); its batcher files requests with equal static parameters
-- into batches, each goes to an idle fiber, and an executor runs through the phases (service.py).
-- The tuner poses constraints on tile sizes and workgroups (dispatch_constraints.py) for a problem
-- (common.py), and a solver enumerates the solutions; of the candidates that are compiled to the same
-- bytes one is kept, and those that run fastest relative to the baseline are selected (libtuner.py).
-- Models take their tensors out of a `Theta`, a tree that is nested from names with dots in them, and
-- compute with operators: each is a `SignatureDispatcher` (ops/_registry.py) of overrides for the types
-- of its tensors, which a trampoline (ops/signatures.py) tries one after the other.
--
-- The files.
--   Prelude              names of the libraries, Boolean tests, lists, counts of occurrences,
--                        integers, Python's results and exceptions, ceiling division, dictionaries,
--                        sorting
--   KvCache/PagePool     `PageInfo`, `PagePool` of kvcache/page_pool.py. A page is its index in the
--                        pool's `attn_page_entries`; `PageTable` is the device array of one device
--     Acquire, Copy      what `acquire_free_pages`, `free_pages` and `copy_page` do
--   KvCache/BaseCache    `BasePagedAttentionCache` and its allocation, kvcache/base_attention_cache.py;
--                        a method of an allocation acts on the pair of the allocation and its cache
--     Allocation, Extension
--     Store              the same with all allocations handed out; `Kept` what every call keeps of them
--   KvCache/TrieNode     `RefCount` and `TrieNode` of kvcache/trie_attention_cache.py. Nodes are objects
--                        that point at each other: a store holds them, and a pointer is an index
--     Links, Weight      the trie is a tree whose edges agree with its nodes; which pages it holds
--   KvCache/Trie         `TriePagedAttentionCache`, its fields, `_match`
--     Blocks, Match      the blocks of a token list; the longest cached prefix
--   KvCache/TrieEviction `_evict_pages`
--     Effect, Leaf, Loop, Evict   one round, the loop, the whole
--   KvCache/TrieMethods  `acquire_pages_for_tokens`, `publish_pages_for_tokens`, `extend_allocation`,
--                        `release_pages`: the state is the cache with the list of all allocations
--     Held, Invariant, NewPages, Acquire, Release, Extend, Link, Publish, Run, Capacity,
--     Edits, Growth
--   Serving/Requests     `InferenceExecRequest` of messages.py
--   Serving/Executor     `InferenceExecutorProcess.run` of service.py up to the invocation: the entry
--                        point and the arrays. `Rows` and `Prepared` say what they hold; `Run` is the
--                        whole, with the results and the handler of exceptions, `Outcome` how it ends, and
--                        `Kept` what it keeps
--   Serving/Batcher      `BatcherProcess` of service.py over an interface of the caches: `Loops` for its
--                        two loops, `Flights` for `board_flights`, `Strobes` for the messages
--     Laws, Allocated    what it relies on in a cache, and what it keeps over such a cache: `Kept`
--     Served             what a request of a launched flight has
--   Serving/TrieServing  the batcher over the trie cache, in turns with the executors and generations
--                        that publish and release pages
--   Serving/TrieExecutor the executor over the trie cache, which publishes and releases pages
--   Serving/BaseServing  the batcher over the cache without sharing, likewise
--   Serving/Generate     `GenerateItemProcess.run` of generate.py
--   Serving/Responder    `FastAPIResponder` of shortfin/python/shortfin/interop/fastapi/__init__.py:
--                        `Protocol`
--   Serving/Client       `ClientGenerateBatchProcess` of generate.py over a responder: `Outcome`
--   Sd/Inputs            `GenerateReqInput` of sd/components/io_struct.py; `Checked`: its `post_init`
--   Sd/Requests          `InferenceExecRequest` of sd/components/messages.py; `Picked`: `from_batch`
--   Sd/Batcher           `BatcherProcess` of sd/components/service.py: `Batches` for `sort_batches`,
--                        `Flights` for `board_flights`
--   Sd/Executor          the phases that `InferenceExecutorProcess.run` performs, with `Phases`
--   Sd/Workers           fibers and workers of `GenerateService`
--   Tuner/Problem        the problem of a dispatch and its compatible intrinsics, tuner/common.py
--   Tuner/Constraints    `generate_constraints` of tuner/dispatch_constraints.py, with `Tiling`
--   Tuner/Solutions      `generate_solutions` and `getMMAAttr`: `Found`, `Intrinsic`
--   Tuner/Collisions     `find_collisions`, `collision_handler` and the end of `compile` of
--                        tuner/libtuner.py: `Firsts`
--   Tuner/Ranking        `benchmark` of tuner/libtuner.py over the results of the workers: `Speedups`,
--                        `Ranked`
--   Types/Names          names of parameters, their parts and what joins them
--   Types/Theta          `Theta` of sharktank/types/theta.py as a mutual type of values and dictionaries.
--                        `Paths`, `Nesting`, `Flat`: what is nested where; `Prefixes`, `Flattening`,
--                        `RoundTrip`: what `flatten` gives; `Lookup`; `Leaves`, `Selection`, `Pop`;
--                        `Transform`
--   Types/LayoutUtils    layout_utils.py of sharktank/types, on one row of a tensor. `Bytes`: tables for
--                        all bytes; `RoundTrip`: interleaving; `Promote`: 4 and 6-bit integers
--   Ops                  `SignatureDispatcher` of sharktank/sharktank/ops/_registry.py; `Exprs`: the
--                        expressions over types; `Ranking`: the order of the overrides; `Lookup`: the
--                        cache
--     Trampolines        of ops/signatures.py
--     Session            registrations and calls in any order, with `Refinement`
--   Utils                `longest_equal_range` of sharktank/sharktank/utils/misc.py, on numbers
--   Examples             the theorems at concrete pools, tries and prompts
--
-- State and errors. A method that can raise returns the pair of a result, `ok` or `err` with the
-- exception, and of the state, since what a method changed before it raised stays changed. A history
-- (TrieMethods/Run) is a sequence of method calls, each of which may return or raise. Its publications
-- are for unreleased allocations and for no fewer pages than before: the source tests neither.
-- Python's lists are values here, with one exception: after an extension or a publication the tokens of
-- an allocation are the list of the caller, which generate.py appends to. Histories and turns therefore
-- have steps that append a token to an allocation's list (`append_input_token`), at any time and to any
-- allocation. Examples/Findings runs what such steps, and evictions above a node in use, can lead to.
--
-- Orders. The pending requests of the LLM batcher, and the idle fibers of the image batcher, are sets in
-- the source, and are gone through or popped in an order that Python chooses. Here they are lists. The
-- theorems on one call hold for every state, so for every order of the lists it starts with; in the
-- sequences of TrieServing and BaseServing the pending lists may be put in any order between two calls,
-- and between the reception of a message and the boarding of flights. Within one call of the image
-- batcher a fiber may go back to the set: the order in which fibers are popped then is a parameter.
--
-- Bounds. Tokens, pages and sizes are natural numbers; reference counts are integers, as nothing in
-- `RefCount.decrement` keeps them from falling below zero. `math.ceil(a / b)` is the ceiling of the
-- exact quotient: the floating-point quotient agrees below 2 ^ 53. Times are natural multiples of a
-- small unit, or infinite, and their quotients are exact, where the floats round. A page size of 0 raises, as in
-- the source. Loops over blocks run on fuel that the length of the tokens bounds, and each round
-- takes a token at least. The eviction loop runs as often as pages may be evicted. The generator of
-- solutions has no end of its own: it is run for as many solutions as its caller takes. The variables
-- of the solver are natural numbers, which the constraints bound from below.
--
-- Parameters. `Runtime` holds what Python gives at run time: the clock of `time.monotonic`, read
-- once for each tick of the state, and the numbers that `id` gives to nodes, which break ties of the
-- heap through `__hash__`. The contents of device arrays come in from outside, as the page tables
-- that a pool starts with. `ExecOps` holds what an executor calls: the cache, the function of the
-- model, views of its logits and their transfer to the host. What it awaits may change the cache, as
-- other processes run meanwhile; that a generation whose request is answered changes the request
-- while its executor still answers others is not modelled. `Backend` holds what a client process
-- gets from the tokenizer and its generations: the sequence of tokens that they append, and what the
-- wait for them raises. The answers of the service to a generation are a function of the number of
-- the submission. The identifiers of `uuid`, what a phase of an image does on a device, and the
-- solver z3 are functions that come in as arguments; of the solver it is assumed that an answer
-- meets the constraints, and that it finds one where there is one. What torch raises when a tensor
-- is indexed by a name is an argument too. The attributes of intrinsics are those that the
-- compiler's bindings give. What an override of an operator makes of a call is a function of the
-- call, and `Ops.Runtime` holds the types of values and `issubclass`. The heap of `heapq` is a list
-- from which the least entry is taken.
--
-- Not modelled. The locks of the pool and of allocations: each method is one step. Loggers and
-- `__repr__`. The allocation of device memory in `PagePool.__init__`, and the asynchronous copy of
-- `copy_from`, which is complete when `copy_page` returns in the model. The other subsystems of the
-- repository: the batcher's queue and timer and the HTTP server of the LLM application, the
-- configuration and the device code of the Stable Diffusion application, the tensors themselves and
-- their archives, layers and the bodies of operators of sharktank, what the workers of the tuner
-- run, and the native runtime of shortfin.
pub mod Prelude
pub mod KvCache
pub mod Ops
pub mod Serving
pub mod Sd
pub mod Tuner
pub mod Types
pub mod Utils
pub mod Examples
