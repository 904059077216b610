-- ===== src/Lib.antt =====
-- krproject: a detection engine. Records are kept in an in-memory database, rules are expressions over
-- their fields and over aggregated data items, and a record is routed to the first group of rules that
-- matches it.
--
-- Base          shared names; signed integers and C's long; runs that may stop in a fault
-- Platform      krutils/kr_types.h: types and the value union; what the C library and the hash table
--               provide, as a record of operations: any implementation of them is allowed
-- Utils         krutils: containers and strings
--   Heap          nodes at addresses, and runs on them
--   KrList        kr_list.c, the doubly linked list
--                   Chain, Link: a list in the heap, and what the steps on pointers do to it;
--                   Around: the nodes of a list before and after one of them;
--                   Insert, Delete, MoveHead, Sorted, Copy, Dup, Release: the operations that change it;
--                   Find, Position, Ends: those that read it
--   KrQueue       kr_queue.c, a queue on that list
--   KrCache       kr_cache.c, a cache on that list
--                   Entries: what it holds; Evict: the oldest entries go; Use: looking up; Set
--   KrHashset     kr_hashset.c, sets that are made from a text
--                   Tokens: its pieces; Made: what is found in the set
--   KrDatetime    kr_datetime.c, leap years; MonthEnd: the last day of a month
--   KrString      kr_string.c: Trim; Env: the variables in a text; Letters: bytes, cases and the hash
-- Db            krdb/kr_db_kernel.c, with the insertion and the selection of kr_db.c: tables as rings of
--               records, and their indexes
--   Indexed       what an index promises; Ring: the slots of the last records; Holds: the records of a
--                 table; Room: the oldest one goes; Insert: one message; Latest: the last values of a
--                 list; Load: any number of messages
-- Message       krcoordi/kr_message.c: the messages of the coordinator
--   Decimal       printed numbers; RoundTrip: the header; Channel: messages over a connection
-- Calc          krcalc/kr_calc.h, kr_calc_tree.h, kr_calc_tree.c, kr_calc.c: expression trees
--   Traverse      kr_calc_tree_traverse
--   Check         kr_calc_tree_check; Check/Typing: the typing rules it decides
--   Relation      AND, OR, NOT; Truth: what they compute
--   Arithmetic    PLUS to MOD
--   Logic         comparisons, BL, NBL and MATCH, with kr_hashset_search and kr_regex_execute;
--                 Comparison, Negation: how they relate to their
--                 negations
--   Eval          kr_calc_tree_eval with the callbacks of the data items
--   Shape         what evaluation leaves as it is, and how it fails without an operand
--   Object        kr_calc.c: the calculator with its tree
--   Json          Parser: kr_calc_parser_json.c; Dumper: kr_calc_dumper_json.c; Members: the objects that
--                 are written and read; Fresh: trees as parsed; RoundTrip;
--                 Reads, OnlyReads: the tree that a JSON value means
--   Flex          kr_calc_dumper_flex.c
--   Sound         trees that hold what they promise (Nodes, Trees, Whole)
-- Engine        krengine/kr_engine_detect.c with krparam/kr_dym_rule.c and kr_dym_group.c
--   Sound         sound calculators, one rule; Rules: the list of rules; Groups: the engine;
--                 Build: building rules and groups from their definitions
-- Data          the records and the context that data items read (krdb/kr_db_kernel.h,
--               krdata/kr_context.h)
--   Aggregate     the switch on the method of krdata/kr_ddi_func.c
--   Dynamic       krdata/kr_ddi_func.c; Window: its refinement to a fold; Totals,
--                 Methods: the sum, the number, the least and the greatest of ints
--   Static        krdata/kr_sdi_func.c; Place, Locate: which record it finds
--   Access        krdata/kr_ddi.c, kr_sdi.c: computing and looking up an item; Cached: when the value
--                 that was computed is used again
--   History       krdata/kr_hdi.c, kr_hdi_func.c, kr_hdi_cache.c: items of past days and months; Compute;
--                 Cached: what the cache gives; Final: one look-up
--                 for a record
-- Tests         sample data, runs, and uses of the theorems
--
-- How the model corresponds to the code. A tree is a node with its children; kr_calc_tree_eval changes
-- the nodes in place, so its model returns the new tree. A failing function returns false for the C
-- result -1, with calc_status and a message in the calculator; a message is the format with what is
-- printed into it. A C expression without meaning (a null pointer, a foreign member of the union, an
-- undefined remainder, an overflow of a sum) is a fault, which stops the run. The callbacks of a
-- calculator are functions on the state that calc_param points to. Doubles, strings, regular expressions
-- and hash tables are those of Platform. Integers are unbounded where the code only stores and compares
-- them; the remainder of two ints, the sums of rules and data items and the differences of times are checked for
-- overflow. The
-- counts of fired rules and of records are natural numbers: they are at most the length of a list in
-- memory. Recursion is on the tree or on the list, except in the loops of kr_list.c, which follow
-- pointers in a heap: they have the length of the list and one more as fuel, and the fault `unfinished`
-- stands for running out of it. The theorems on them say that the operations return, so the fuel is
-- enough. There malloc is a parameter, which gives an address or NULL, and both are modelled.
--
-- In Db, the hash table of an index is a parameter with the laws that its theorems name, a list of records
-- is the list of their slots, and the theorems are on indexes without a field to sort by. In Message, a
-- connection is a parameter, of which the theorems ask that what is written is what is read.
-- The records of a table are slots, so the address of a slot, which the code computes with 32 bits, does
-- not wrap. In Calc/Json, cJSON is a parameter whose values the parser follows to the depth of its fuel;
-- RoundTrip says that fuel above the depth of the tree is enough for what the dumper made of it. The loops
-- of the dumpers start at a variable that is not set: a parameter for JSON, taken to be 0 in Calc/Flex. In
-- KrString, getenv is a parameter, and an access past the end of a buffer is a fault; a date in KrDatetime
-- is meant to have its eight bytes.
--
-- The filter of a data item is evaluated by kr_calc_eval in the same context. What the results on data
-- items ask of it is stated as Data/Window's Decider. Data/Access takes the records of a key as a list, with
-- the last record first.
--
-- Not modelled: logging, the failure of memory allocation outside of Utils (it is taken to succeed
-- there), the release of memory outside of kr_list.c, the generated parser, indexes that several tables
-- share, the grammar of expressions, skip lists, consistent hashing, the sums of dates, the
-- loading of parameters and of interfaces, the event loops of the
-- coordinator and the server, network and database access, and the libraries that the repository has copies of (GLib's hash
-- table and n-ary tree, cJSON).
pub mod Base
pub mod Platform
pub mod Utils
pub mod Db
pub mod Message
pub mod Calc
pub mod Engine
pub mod Data
pub mod Tests
