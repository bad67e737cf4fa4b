-- ===== src/Lib.antt =====
-- L: a small statically checked language. This development models the Python reference
-- implementation, mainly src/lang/core.py, whose parts call each other in this order: `Lexer` turns
-- the text into tokens, `Parser` turns tokens into nodes `N`, `Checker` fills in types and rejects
-- ill-formed programs, `Program` sorts and merges linked modules, and `Interpreter` runs the checked
-- functions. `scalar_value`, `wrap_int` and `cast_value` are the scalar semantics that the checker and
-- the interpreter share.
--
-- Files and code:
--   Base: shared names, lists, integers over the native numbers (Base.Int), results with errors
--   (Base.Results) and dictionaries as association lists (Base.Dict).
--   Types: `Ty`, `ConstArrayTy` and `int_info`. Types.Equality: `==` and `same_type`. Types.Subst:
--   `substitute`, `is_fully_bound`. Types.Infer: `unify`, whose errors are values; the dictionary that
--   the source mutates is passed on and returned.
--   Scalar: `wrap_int` (wrap_int), the integer operators of `scalar_value` (scalar_int, compare_int),
--   the interpreter's unary operators (negate_int, invert_int) and `cast_value` (cast_int for an
--   integer, cast_truncated for a float that `math.trunc` has cut).
--   Syntax: the nodes `N` of patterns, expressions, statements and declarations. The slot `ty` of an
--   expression is an argument of its node; spans are left out.
--   Parser: the class `Parser`. Parser.Tokens is its list of tokens; Parser.Monad has `t`, `take`, `maybe`
--   and the `try` of generic calls: a method takes the tokens from `self.i` on and returns its node with
--   the tokens behind it, or a LangError (lang), or the IndexError of a read behind the last token
--   (index_error). Parser.Types, Parser.Patterns, Parser.Operators, Parser.Exprs and Parser.Decls are its
--   methods; `comma_list` is written out where it is called. Parser.Types.Printed has the `__str__` of
--   types, in tokens. Error messages keep the words expected only.
--   Checker: `stmt_returns`, `block_returns`, `contains_break`, `stmt_diverges`, `block_diverges`, and
--   the part of `Checker.stmt` that follows `self.loop` (check_flow).
--   Checker.Operators: `req`, `binop`, `check_cast` and `fieldless_enum`, with `self.enums` as an argument;
--   Checker.Kinds and Checker.Sound set `binop` against `scalar_value` of Values.Operators.
--   Machine: the frames of `Interpreter`, its signals and `cond`. An exception that unwinds is a signal
--   beside the state (Signal), so `finally` and `except` are functions of outcomes. The state is the
--   list of frames, the last one first, and a heap. What statements ask of expressions (`eval`, `place`,
--   `match`, `scalar_op`, `copy_value`) is the record Machine.
--   Interp: `Interpreter.stmt` (exec), `block` (run_block), `call_user`.
--   Graph: the nodes, edges and steps of `CFGBuilder` of src/lang/analysis_cfg.py, whose lists and
--   counter are a record. Cfg: its methods `build`, `block` and `stmt`, which return the open ends with
--   the graph and the loop context that the source mutates.
--   Linker: `Program._toposort`, with its two dictionaries as the record Sorter. Linker.Names: the tables
--   of `Program.__init__`, `internal_name`, `_resolve_source_name`; Linker.Rewrite: `_ty`, `_expr`,
--   `_pattern`, `_stmt`; Linker.Merge: `_decl`, `_rewrite_merge`, which takes the sorted modules with
--   their declarations.
--   Lexer: `Lexer.lex` over code points; Lexer.Scan is one round of its main loop, Lexer.Cuts the
--   pieces it cuts off, Lexer.Chars the tests on characters. `str.isdigit` outside ASCII is the
--   parameter other_digit. Literal text holds no surrogates, which `encode` would refuse.
--   Keys: `KeyReader` of src/lang/term_keys.py; `select.select` and `os.read` are a list of arrivals.
--   Boundary: `HostBoundary` of src/hosts/host_boundary.py over hosts that can be rolled back, and of
--   src/hosts/linux_host.py the descriptors and children of `LinuxHost` that it rolls back, with the system
--   calls that end them. The other hosts are parameters.
--   Values: the values of `Interpreter`, its heap of structs, references and arrays, by address,
--   `copy_value`, `alloc_ref`, `alloc_array`. Values.Operators: `scalar_value`, `cast_value`, `fround` and
--   the prefix operators on values; Values.Match: `Interpreter.match`; Values.Eval: `get_local` and
--   `Interpreter.eval`, whose other forms are the parameter rest. Python's floats and the functions of
--   host modules are the record Platform.
--   Bytecode: src/lang/bytecode.py, the instructions and the state of `BCCompiler` with `emit`, `patch`,
--   scopes and loops; Bytecode.Names: the names it makes up and `parse_int_text`; Bytecode.Statements: the
--   branches of `BCCompiler.stmt`, by the code of the parts; Bytecode.Compile: `stmt`, `place`, `expr`,
--   `anon_fn`, `compile_fn`. Bytecode.Vm: the state of `BCVM`, locals and places; Bytecode.Step: one
--   instruction of its `loop`; Bytecode.Run: `loop` and `call`. A place is what its two functions close
--   over. A TrapSig is a fault, as is an error of Python itself (stuck).
--   Examples: runs of the code and instances of the theorems.
--
-- Fuel: exec and the functions beside it take fuel, one unit for each step into a statement, along a
-- block and around a loop, as programs of the language need not end; none is the answer of a run that
-- has not ended. lex_loop starts with the length of the text as its fuel, and toposort takes fuel as an
-- argument, with out_of_fuel as an error of its own in both. The parser's methods take one unit for each
-- call and each round of a loop; parse starts with eight units for each token and four more. The loop of
-- the virtual machine takes one unit for each instruction and each call, as programs need not end.
-- `copy_value` has a depth, which stands for Python's recursion limit.
--
-- Not modelled: spans and the texts of messages; in `Checker` the other typing rules of expressions and
-- statements, constants and exhaustiveness; `place` of `Interpreter`, and calls, fields, array and
-- struct literals in its `eval`; the arithmetic of floats; the sets of live objects; the metrics and
-- renderers of the analysis modules; the rest of src/hosts, and src/tools, which are system calls and
-- drivers; src/vm, which is C; the libraries and tools written in L.
pub mod Base
pub mod Types
pub mod Scalar
pub mod Lexer
pub mod Syntax
pub mod Parser
pub mod Checker
pub mod Machine
pub mod Interp
pub mod Graph
pub mod Cfg
pub mod Linker
pub mod Keys
pub mod Boundary
pub mod Values
pub mod Bytecode
pub mod Examples
