-- ===== src/Lib.antt =====
-- relativeQ, the "Relative Index Library" (include/librix.h): containers for shared memory, whose
-- heads and nodes hold 1-origin indices into an element array instead of pointers, 0 being nil.
--
-- include/rix/rix_queue.h: the five index-linked lists
--   Queue/Links.antt      the link words of the element array, and stores to them
--   Queue/Walk.antt       the FOREACH and FOREACH_SAFE loops
--   Queue/Chain.antt      chains of `next` links; Queue/Chain/Search.antt the search of REMOVE
--   Queue/Slist.antt      RIX_SLIST        Queue/List.antt     RIX_LIST
--   Queue/Stailq.antt     RIX_STAILQ       Queue/Tailq.antt    RIX_TAILQ
--   Queue/Circleq.antt    RIX_CIRCLEQ
-- A macro RIX_X_OP is the function `op` of Queue/X.antt, from the head and the links to the new
-- ones. A pointer to an element is its 1-origin index and NULL is 0, so that RIX_IDX_FROM_PTR and
-- RIX_PTR_FROM_IDX disappear. A dereference of NULL, undefined in C, reads and writes a cell 0
-- that no element has. The abstract view is the list of the elements, which the predicate `Holds`
-- of each kind ties to the head and the links.
--
-- Loops run on fuel; the theorems on them take fuel above the number of elements, and show that
-- this is enough.
--
-- include/rix/rix_hash32.h, rix_hash64.h and rix_hash_arch.h: the cuckoo hash tables over keys
--   Hash/Arch.antt           the dispatch record, the generic find, and a scan for the first hit
--   Hash/Arch/First.antt     a scan against a plain search of the sixteen slots
--   Hash/Arch/Generic.antt   the generic hashes and the find for two values, on fuel for the hashes
--   Hash/Cuckoo.antt         the buckets and `kickout`, over the scan, the invalid key and the other
--                            bucket of an entry (`Scheme`); Hash/Cuckoo/Walk.antt `walk`
--   Hash/Cuckoo/Valid.antt   the invariant, over what a node is to the table (`NodeInfo`)
--   Hash/Cuckoo/             Slots, Move, Frees, Kickout, Store, Clear, Nodes
--   Hash/KeyTable.antt       the functions that RIX_HASH32_GENERATE writes: name##_op is `op`
--   Hash/KeyTable/           Bounds, Find and Bulk, Insert, Remove, Init, and Client, what a caller
--                            sees of them
--   Hash/Table64.antt        RIX_HASH64_GENERATE, the same text with the handlers for 64-bit keys
-- The buckets are functions from the bucket and the slot; a node is its 1-origin index, NULL is 0,
-- and `node_key` gives the key field of a node. The find and hash handlers of the dispatch record
-- are parameters, since they are chosen at run time and use intrinsics: the find handler is taken
-- to agree with the generic one (`ArchLaws`), and of the hash nothing is needed. The depth of
-- `kickout` bounds its recursion in the source too. Prefetches have no effect on the state and are
-- left out; the callback of `walk` works on a state of its own; the number of entries is an
-- `unsigned` and wraps at 2^32. The generic hashes run on fuel, since their loop need not end.
--
-- include/rix/rix_hash_common.h, rix_hash_fp.h, rix_hash_slot.h and rix_hash_keyonly.h: the tables
-- that keep fingerprints and compare keys through the nodes
--   Hash/Fingerprint.antt            the lookups, `insert_hashed` and `remove_at`, which they share
--   Hash/Fingerprint/KeyOnly.antt    rix_hash_keyonly.h, a table of the kind of Hash/Cuckoo.antt
--   Hash/Fingerprint/Fields.antt     rix_hash_fp.h, and with `with_slot` rix_hash_slot.h: the state
--                                    is the buckets and `hash_field` and `slot_field` of the nodes
--   Hash/Fingerprint/SlotTable.antt  rix_hash_slot.h by its own names
--   Hash/Sizing.antt                 `rix_hash_nb_bk_hint`; a shift by k is a division by 2^k
--   Hash/Arch/Hits.antt              the loops over the bits of a hit mask, on fuel for 32 bits
--   Hash/Fingerprint/Laws.antt       what the tables rely on, and what a node is to them
--   Hash/Fingerprint/                Find, Duplicate, Search, Insert and Remove for the key-only
--                                    table; Marked, Place, Flip, Refine and Agree carry them over to the
--                                    other two; Unmark, RoundTrip, Reinsert and Zeroed
-- `hash_fn` and `cmp_fn` belong to the caller: `cmp_fn` is taken to be 0 for equal keys only, and
-- `hash_fn` to give two different buckets, as the comment on the hash handlers promises
-- (`FpLaws`). A local lookup context is not initialised in the source, and is an argument here.
--
-- include/rix/rix_tree.h: the red-black tree, its searches
--   Tree.antt          name##_RIX_RB_FIND and NFIND, on fuel, over the root and the child links and
--                      the result of `cmp` with the key; the parent link and the colour play no part
--   Tree/Search.antt   the shape that the links spell, and the list of its elements in order
--
-- samples/fcache: the flow cache, a slot hash table over a pool of entries with an SLIST of the
-- free ones, as src/fc_cache_generate.h writes it for each kind of key
--   FlowCache.antt             the records; `Store` is the table, the pool, the free list and the
--                              two sizes, `Cache` the rest of the struct around it
--   FlowCache/Entries.antt     allocation, eviction, init and flush of the storage, remove_idx
--   FlowCache/Timeout.antt     the adaptive timeout and the thresholds
--   FlowCache/Maintain.antt    the sweeps: maintain, maintain_step, maintain_step_ex
--   FlowCache/Pipeline.antt    the rounds and stages that the bulk operations share
--   FlowCache/Bulk.antt        find_bulk, findadd_bulk, add_bulk, del_bulk, del_idx_bulk
--   FlowCache/Handle.antt      init, walk, and the calls for one key of src/fc_dispatch.c
--   FlowCache/Invariant.antt   what the storage promises: every entry of the pool is in the table
--                              or free, in one place, and the counts agree
--   FlowCache/                 Moves, Lend and Change, what one step does to these promises; Scan,
--                              Evict, Relief and Sweep, evictions; Lookup, Batches, Runs, the stages
--                              of a batch; Fill, Fresh, FindAdd, AddBulk, FindBulk, DelBulk, Delete,
--                              Steps, Start, Bounds
--   Hash/Arch/Stale.antt       lookups through hits of a scan that is some stages old
-- `hash_fn` and `cmp_fn` are parameters as for the tables above (`FpLaws`). The contexts and the
-- hashes of a batch, which the source does not initialise, are arguments. The rounds of a pipeline
-- run on fuel, and nb_keys + 97 of it are enough (nb_keys + 33 with two stages), since each round
-- takes eight keys; up to 2^32 - 105 keys, no counter of the loop wraps. The chunks of maintain_step
-- need one fuel more than there are buckets. The callback of `walk` works on a state of its own.
-- RIX_ASSERT and prefetches are left out.
--
-- Not modelled: `walk` of the slot table; the other operations of the tree; of samples/fcache the
-- hash and the comparison of each kind of key, `insert_relief_hashed`, which nothing calls,
-- fc_cache_body.h, an older template that nothing includes, and the choice of a variant at run
-- time; tests and build files.
pub mod Base
pub mod Queue
mod Tests
pub mod Hash
pub mod Tree
pub mod FlowCache
