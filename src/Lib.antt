-- ===== src/Lib.antt =====
-- qbind lets C++ code work with the values of the KX library (q). This library models its core and
-- the client of the KX protocol in tools/connection.
--
-- The program's parts, and the files that model them:
--
--   TypeCode       include/qbind/type.h: the codes and names of the types, the structures, the C type
--                  under each type.
--   Object         what a KX pointer leads to, as a tree: null, atoms, vectors, mixed lists,
--                  dictionaries and the rest, with the reads of the fields t and n and of pointers.
--   Match          include/qbind/k.h: `inner_type`, and `is` and `is_with_info` on atoms, vectors and
--                  nested vectors. Match/Wrapper has `tuple_type_match` and `dictionary_type_match`;
--                  the lines that go on behind the first type of a tuple are never reached.
--                  The loop of `inner_type_impl`, which assigns the child to `k`, is `loop` and
--                  `entry`.
--   Equal          k.h: `equal`, `operator==` and `operator!=`.
--   Ownership      k.h: the class K as the owner of a counted object: constructors, assignments,
--                  destructor, `swap`, `use_count`, `operator bool` and `release`, as functions on a
--                  machine of numbered variables and a heap of counts. Ownership/Runs has the programs:
--                  any sequence of these, mixed with what other owners do.
--   Atom           include/qbind/atom.h, and `data()` of k.h: construction, conversion and assignment.
--   Append         k.h: `join_atom`, `join_lists` and `tuple_append`.
--   MemoryManager  include/qbind/memory_manager.h: constructor, destructor and `initialise`, and the
--                  threads that call them in any order.
--   Vector         include/qbind/vector.h: construction, element access, `empty`, `push_back`
--                  and `operator<=>`. Vector/Made has the objects that these leave,
--                  Vector/Iteration the iterators from `begin` to `end` and from `rbegin` to `rend`.
--   NestedVector   include/qbind/nested_vector.h: construction, `at`, `operator[]`, `push_back`.
--   Tuple          include/qbind/tuple.h: construction, `get` and `cat`. Tuple/Index has `index_of` of
--                  include/qbind/utils.h, which the compiler evaluates.
--   Dictionary     include/qbind/dictionary.h: construction, keys and values of every type,
--                  `find`, `count`, `contains`, `get` and `operator[]` with vectors for keys and
--                  values. Keys are compared by `==`: floating point numbers by their value, symbols
--                  by their characters, which are a parameter.
--   Iterator       include/qbind/iterator.h: the arithmetic and the comparison of positions.
--   Symbol         include/qbind/symbol.h: the comparisons and the assignment of SymbolReference, and
--                  SymbolPointer.
--   Converter      include/qbind/converter.h: `to_cpp` and `to_q`, on the machine of Ownership.
--   Export         include/qbind/function.h: what QBIND_FN_EXPORT generates, on the same machine: the
--                  arguments in some order of evaluation, the call, the result, and the `catch`.
--                  Export/Macros has the tokens that the macros for signature and call expand to,
--                  Export/Check the check of the parameter types that the compiler makes.
--   Ipc            tools/connection/main.cpp: byte order and the class Buffer.
--                  Ipc/Compress and Ipc/Decompress have `compress` and `decompress`, with their
--                  variables as records; Ipc/Connection the class SocketConnection (handshake, `send`,
--                  `send_async`, `send_impl`, `recv`); Ipc/Serializer the class Serializer.
--                  Ipc/Connection/Conversation has the calls one behind the other.
--                  Ipc/Compress/Format and Ipc/Connection/Format are how a peer reads a compressed
--                  payload and a message, after the comment on the class; they model no code here.
--                  The reader copies a run byte by byte, as `uncompress` of c.java does.
--                  Ipc/Serializer/Format is how a peer reads an object, in the same way.
--                  Ipc/Client has `main` behind its socket, and what the peer gets.
--                  Ipc/Os has the calls of the operating system, as a parameter, and `throw_errno`;
--                  Ipc/Socket the class Socket, and programs over sockets and their descriptors.
--   Base           Boolean tests, lists, signed integers and the outcomes of C++ calls.
--   Tests          the theorems at concrete inputs.
--
-- Vector, NestedVector and Dictionary hold a K and check it with `is_with_info` (Match) when they are
-- made; NestedVector appends through Append. A connection sends and receives buffers over a socket,
-- compresses what it sends, and decompresses what it receives.
--
-- Outcomes: a call returns, throws, terminates the program, or is undefined (a null dereference, an
-- access out of bounds, an overlapping `memcpy`, a missing `return`). An exception that leaves a
-- `noexcept` function terminates.
--
-- Parameters: the counting of the KX library (`r0`, `r1`), its creation of atoms (`ka`) and vectors
-- (`ktn`, `kp`, `kpn`), its appending functions (`ja`, `js`, `jv`, `jk`, with `ss`), `knk`, `krr` and
-- `xD`; the C++ function that is exported and the macros of Boost that write its signature; the
-- socket, which the connection takes as a template argument, and below the class Socket the calls of
-- the operating system; the byte order of the machine; what uninitialised memory holds. Allocation
-- always succeeds.
--
-- Bounds and fuel: `size_t` and bytes wrap around as written. The loop of `compress` has the bytes
-- of the input for fuel, since each round takes one or more, and that of `decompress` the bytes of
-- the output, since each round writes one or more (Ipc/Decompress/Rounds has that loop without
-- fuel). The loop of `throw_errno` has 64 rounds, and the size of its buffer doubles at most 54
-- times. Where fuel ran out the outcome would be undefined.
--
-- Not modelled: output, except that of exported functions and of symbols; template aliases; the
-- vendored KX headers; tools/connection/c.java; tests and the playground. Several members of the
-- templates do not compile when they are used; they are modelled as they are meant to be called. The
-- search of a dictionary in keys that are a nested vector or a tuple and its access to the values of a
-- tuple are left out, since what they are meant to do cannot be read off the templates.
pub mod Base
pub mod TypeCode
pub mod Object
pub mod Match
pub mod Equal
pub mod Ownership
pub mod MemoryManager
pub mod Vector
pub mod Append
pub mod Atom
pub mod NestedVector
pub mod Dictionary
pub mod Ipc
pub mod Symbol
pub mod Converter
pub mod Export
pub mod Iterator
pub mod Tuple
pub mod Tests
