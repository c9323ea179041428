-- ===== src/Lib.antt =====
-- protoScala, a dynamic Scala 3 dialect on the protoCore object kernel: a model of its C++ code.
--
-- The program: src/frontend turns a source into tokens (Lexer), adds the tokens of the offside rule
-- (Layout) and parses and desugars them; src/compiler compiles the tree to a bytecode module
-- (BytecodeModule, with the instruction set of Opcodes.h), with the order of a class's ancestors from
-- src/frontend/Linearizer.cpp; src/runtime executes modules and holds the actors, the futures and the
-- primitives; src/repl owns a session and its module table; src/umd resolves imports; src/dap is the
-- debug adapter.
--
-- What is modelled, and where:
-- - Frontend/Token: the token of src/frontend/Token.h and the names of its kinds.
-- - Frontend/Lexer: src/frontend/Lexer.cpp and src/frontend/UnicodeLetters.h, every function. Cursor is
--   where the lexer is: `source_` from `pos_` on, `pos_`, `line_` and `column_`, and `advance`. State is
--   the rest of the object, with computeLineIndents, make, error and pastBlankLine. Trivia is
--   skipTrivia; Words is lexIdentifierOrKeyword, lexOperator and lexBackquoted; Numbers is lexNumber;
--   Quoted is readEscape, lexChar and lexString; Holes and Interpolated are lexInterpolated; Next is
--   next, tokenizeAll, and tokenize of src/frontend/Layout.cpp; Letters is isSymbolLetter; Utf8 is
--   decodeUtf8 and appendUtf8; Chars has the classes of characters, the keywords and the reserved
--   operators. Progress, Lexed, Places, Indents, Source and the files named
--   Laws hold the proofs. An early `return error(...)` is a value of Scan; the cursor it carries is the
--   one at that time.
-- - Frontend/Layout: LayoutPass and applyLayout of src/frontend/Layout.cpp. State is the object and its
--   small steps, LineBreak is lineBreak, Pass is run; a pop of the last region or a read behind the
--   tokens is the outcome `fault`.
-- - Frontend/Ast: src/frontend/AST.h in Types and Tree, and src/frontend/AST.cpp: Slots is eachChildSlot
--   and releaseChildren, Destroy is destroyTree, Clone is cloneType, cloneSimpleExpr, clonePattern and
--   patternVariables, Rebase is rebase, Render and Dump are the functions behind dump. Forest,
--   RebaseLaws and RebasePlaces hold proofs. A list of children is a data type of its own beside the node.
-- - Frontend/Parser: of src/frontend/Parser.cpp, Operators is precedence and isRightAssociative, Cursor
--   is where the parser is in its tokens with peek, advance and fail, Prefix is parsePrefix, Infix is
--   parseInfix and parseInfixLoop, Interpolation is formatSpecLength and parseInterpolation. Chains says
--   what operands and operators in a row mean; Decisions, Sides, Grouping and Weave hold the proofs. parseSimple, and what parses a hole, are parameters.
-- - Frontend/Linearizer: linearize of src/frontend/Linearizer.cpp.
-- - Compiler/Opcodes: the enumeration of src/compiler/Opcodes.h and opName.
-- - Compiler/Bytecode: src/compiler/BytecodeModule.cpp. Code is emit, emitJump, patchJumpTo and
--   emitJumpBack, and the loop of disassemble that decodes; Handlers is the handler table; Pool is the
--   pool of constants with findOrAdd and the add functions; Frame is the parameter names, the
--   defaults and the slot names; Listing is escapeString.
-- - Compiler/TailRec: isStatementOnly, collectTail and collectReturns of src/compiler/CompileTailRec.cpp
--   in Sites; a pointer to a node in the set of sites is the path to it. Follow walks such a path and
--   says what it goes through.
-- - Repl: src/repl/ModuleTable.cpp, each operation a step under the mutex, and in Loading the order in
--   which loadModuleFile of src/repl/Session.cpp calls them, as steps of any number of threads.
-- - Umd: smalltalkSelector of src/umd/SmalltalkSelector.h and src/umd/Prefixes.h.
-- - Runtime/Actors: src/runtime/ActorScheduler.cpp. State is the actor with its ActorState and
--   nextMessage; Moves is send, resume, enqueue, dequeue, runTurn and finishTurn, a shared access at a
--   time, for any number of actors and of threads. Counts, Kept and Claims hold the proofs about `sched`,
--   Order those about what is delivered.
-- - Runtime/Futures: complete, addWaiter, onComplete and runContinuations of src/runtime/Futures.cpp, in
--   Moves, a shared access at a time; the other files hold the proofs.
-- - Runtime/ReadyStack: src/runtime/ReadyStack.h, the stack that holds the ready actors of a band. State is
--   its words, nodes and fields, Moves is push, pop, acquireNode, linkFront and unlinkFront, a shared access
--   at a time, for any number of threads; Nodes is the chunk and the place of a node. Kept is the invariant of an access; Owned,
--   Unlinks and Links hold the proofs about one access, and Linear, InChunks, Sizes and Progress those
--   about the stack. In Runtime/Actors a push and a pop of a ready stack are one step each.
-- - Support: parseFormatSpec of src/support/FormatSpec.cpp in FormatSpec; Decimals and FormatLaws hold the
--   proofs, with the text of a specifier.
-- - Common: strings as lists of bytes, lists indexed by native numbers, outcomes, and loops.
--
-- Bounds and fuel: a C++ loop whose turns consume a part of the source that is not one byte is `loop` of
-- Common/Loops, on fuel of one more than the bytes that are left; it returns none where the fuel runs
-- out, and every loop of the lexer is shown to return. destroyTree has fuel for each node of its tree,
-- and parseInfix two turns for each token. The binary search has fuel for ten probes. Code
-- words are taken modulo 2 ^ 32 where the source shifts; the offset of a backward jump wraps at 64 bits.
-- Lines, columns and positions are unbounded numbers here: the source's 32-bit counters of lines suffice
-- for a source of fewer than 2 ^ 31 lines. Doubles stand as their bit patterns. The
-- generation of a word of ReadyStack wraps at 2 ^ 32: OnTime of Runtime/ReadyStack/Moves says that no call
-- sleeps through so many changes, which is what the source relies on. Accesses to shared memory are
-- sequentially consistent in every model of threads.
--
-- Parameters: `strtod` of the C library, a function from the digits of a literal to a bit pattern; and, for
-- the part of the parser that is modelled, parseSimple, any function that ends and does not go back,
-- and what parses the text of a hole, any function.
--
-- Not modelled: the rest of the parser and the desugaring, the compiler proper, the C++ emitter, the
-- execution engine, the pool of workers, the primitives, the rest of the session and the
-- debugger. They work on values of protoCore, which is not in this repository, or need the scopes and the
-- grammar; src/dap uses a vendored JSON library. The manifest lists them one by one.
pub mod Common
pub mod Frontend
pub mod Compiler
pub mod Umd
pub mod Repl
pub mod Runtime
pub mod Support
