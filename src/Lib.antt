-- ===== src/Lib.antt =====
-- FastGraph, an in-memory key-value store and graph database that speaks the Redis protocol.
--
-- A client's bytes go through the connection handlers of src/net/server.cpp into the parser of
-- src/protocol/resp.cpp; the dispatcher of src/dispatch/dispatcher.cpp runs the command on the
-- engines and encodes the reply with src/protocol/encoder.cpp; the handlers write it back.
--
--   Memory/Arena: `Arena` of src/memory/arena.hpp. A pointer is an address, the buffer is at
--   what malloc returned, and sizes wrap at 2 ^ 64.
--   Memory/StringPool: `StringPool` of src/memory/string_pool.hpp, on the arena.
--   Memory/Slab: `SlabAllocator` of src/memory/slab.hpp. Memory/Pool: `PoolAllocator` of
--   src/memory/pool_allocator.hpp.
--   Protocol/Decimal: `atoi`, `std::to_string` and the cast to `int` as the protocol uses them.
--   Protocol/Encoder, Protocol/Resp: `RespEncoder` and `RespParser`. A text is the list of its bytes.
--   Graph/Dynamic: `DynamicGraph` of src/graph/dynamic_graph.cpp, with the weight as a parameter.
--   Graph/Search: `bfs_component` of src/graph/bfs.cpp and `dfs_component` of src/graph/dfs.cpp.
--   Graph/Engine: `GraphEngine` of src/graph/graph_engine.cpp, with the property index and the
--   compressed graph as parameters. A label is a null pointer where the pool was full.
--   Kv/Ttl: `TTLManager` of src/kv/ttl.cpp: Kv/Ttl/Index has the agreement of the heap with its
--   index, Kv/Ttl/Order the heap order. Kv/Engine: `KVEngine` of src/kv/kv_engine.cpp, with the hash
--   map as an interface, Kv/Engine's `MapOps`, whose laws stand in Kv/Engine/Visible. The clock is an
--   argument.
--   Kv/HashMap: `RobinHoodMap` of src/kv/hashmap.cpp; Kv/HashMap/Laws fills that interface.
--   Index/SkipList: `SkipList` of src/index/skiplist.cpp, with its nodes in a store that only grows;
--   Index/SkipList/Refinement has the sorted list that it implements. The scores and the random draws
--   are parameters. SortedSet: `SortedSetEngine` of src/sorted_set/sorted_set_engine.cpp, on it.
--   Dispatch: `Dispatcher` of src/dispatch/dispatcher.cpp. The engines are an interface,
--   Dispatch/Interface; an exception is a value, Dispatch/Exceptions.
--   Net/Server: `do_read`, `try_parse` and `do_write` of src/net/server.cpp on a `Conn` of
--   src/net/conn.hpp. What the socket returns is a list of results.
--   Prelude: lists, integers, keys and maps that the parts share. Tests: runs at concrete inputs.
--
-- Fuel: the traversals run on one round for each edge and two more; `parse_inline` on one for each
-- byte of the line; the loops on the expiry heap on its size, those of the hash map on its
-- capacity, those of the skip list on the number of its nodes; `try_parse` on a number that the caller
-- gives. `none` and `out_of_fuel` are results of their own. A bound is enough because each round uses
-- up an edge, a byte, an entry, a slot or a node.
--
-- The float test of the load of the hash map is exact below 2 ^ 24 entries, so that the theorems on
-- growing ask for that bound. A freed node of the skip list is not used again.
--
-- Integers of the C++ code are unbounded here where they hold ids, counters and times; sizes and
-- positions wrap, and in the parser what `find_crlf` and `atoi` return is cut to an `int`. A standard
-- map is an association list. Floating point and its conversions are parameters.
--
-- Not modelled: the reactor and the other system calls, the snapshots, the property index behind its
-- interface, the paths and cycles of the traversals, threads and the configuration.
pub mod Prelude
pub mod Memory
pub mod Protocol
pub mod Graph
pub mod Dispatch
pub mod Kv
pub mod Index
pub mod SortedSet
pub mod Net
pub mod Tests
