-- ===== src/Examples/Compiling.antt =====
-- Examples for the bytecode compiler and its machine.
use l.Base.{ℕ, ◌≡◌, refl, sym, ap, ◌∙◌, String, true, false, Option, none, some, List, [], ◌∷◌}
use l.Base.Int.{ℤ, pos}
use l.Base.Dict.{Dict, lookup}
use l.Base.Results.{ok_injective, ok, err}
use l.Types.{Ty, name_ty, int_info}
use l.Syntax.{Stmt, end, next, Expr, node, Form, lt, add, and_then, deref}
use l.Scalar.{scalar_int, compare_int, wrap_int, cast_int}
use l.Values.{Platform, stuck, Heap, Effect, int_v, bool_v, none_v, ref_v, copy_value}
use l.Values.Operators.{V, scalar_value, literal_value, compared, arithmetic}
use l.Values.Eval.{eval, get_local}
use l.Bytecode.{
  Ins, Checked, Compiler, emit, mark, patch, enter_scope, exit_scope, emit_unwind, break_jump,
}
use l.Bytecode.Names.{anon_name, parse_int_text}
use l.Bytecode.Statements.{lazy_binary, if_stmt, condition, scoped}
use l.Bytecode.Compile.{emit_fields, start_fn, expr, stmt}
use l.Bytecode.Vm.{Vm}
use l.Bytecode.Step.{Runtime}
use l.Bytecode.Nested.{nested, around, returning, expr-nested}
use l.Bytecode.Reach.{Gives}
use l.Bytecode.Simple.{Simple, YieldsBool, HasBools}
use l.Bytecode.Refines.{expr-Refines}
use l.Bytecode.Kept.{Same}
use l.Bytecode.Balance.{stmt-Same}

-- floats are rounded to integers
abbrev pub python : Platform
python = record {
  Float = ℤ;
  HostFn = Unit;
  float_of_text = λ s. pos 0;
  float_of_int = λ n. n;
  round_f32 = λ x. x;
  trunc = λ x. some x;
  f_neg = λ x. x;
  f_add = λ x y. x;
  f_sub = λ x y. x;
  f_mul = λ x y. x;
  f_div = λ x y. x;
  f_compare = λ c x y. true;
  f_zero = λ x. false;
  f_nan = pos 0;
  f_infinity = λ x y. pos 0;
}

abbrev runtime : Runtime python
runtime = record { variant = λ q t. none; host_member = λ q fs. err stuck; depth = 10 }

abbrev no_rest : Expr → List (Dict (V python)) → Effect (V python) (V python)
no_rest e fs h = err stuck

abbrev checked : Checked (V python)
checked = record { consts = []; funcs = []; imports = []; resolved_variant = λ e. none }

abbrev u8 : Option Ty
u8 = some (name_ty "u8")

abbrev bool_ty : Option Ty
bool_ty = some (name_ty "bool")

abbrev x : Expr
x = node u8 (Form.qname ("x" ∷ []))

abbrev number : String → Expr
number s = node u8 (Form.int s)

abbrev below : Expr → Expr → Expr
below l r = node bool_ty (Form.binary lt l r)

-- *r && x + 0xFA < 10
abbrev left : Expr
left =
    node bool_ty (Form.unary deref (node (some (Ty.ref (name_ty "bool"))) (Form.qname ("r" ∷ []))))

abbrev right : Expr
right = below (node u8 (Form.binary add x (number "0xFA"))) (number "10")

abbrev tested : Expr
tested = node bool_ty (Form.binary and_then left right)

abbrev one_ref : Heap (V python)
one_ref = record { structs = []; refs = bool_v true ∷ []; arrays = [] }

abbrev empty : Compiler (V python)
empty = record { code = []; loops = []; scope_depth = 1; seq = 0; anon = 0; done = [] }

abbrev with_x : List (Dict (V python))
with_x = (("x", int_v (pos 9)) ∷ ("r", ref_v 0) ∷ []) ∷ []

abbrev code : List (Ins (V python))
code =
    Ins.load "r"
    ∷ Ins.deref
    ∷ Ins.jump_if_false_keep (some 9)
    ∷ Ins.pop
    ∷ Ins.load "x"
    ∷ Ins.push_int 250 u8
    ∷ Ins.bin add u8
    ∷ Ins.push_int 10 u8
    ∷ Ins.bin lt u8
    ∷ []

abbrev compiled : Compiler (V python)
compiled = record empty { code = code }

abbrev start : Vm (V python)
start = record {
  code = code;
  ip = 0;
  scopes = with_x;
  stack = [];
  match_value = none_v;
  pending = none;
  heap = one_ref;
}

x-Simple : Simple python runtime no_rest checked with_x [] x
unfolding get_local lookup
x-Simple = Simple.local {n = "x"} ((int_v (pos 9), refl), refl, refl, refl, refl)

number-Simple :
    (s : String) (n : ℕ)
    → parse_int_text s ≡ some n
    → Simple python runtime no_rest checked with_x [] (number s)
number-Simple s n h = Simple.int_lit h

left-Simple : Simple python runtime no_rest checked with_x [] left
unfolding get_local lookup
left-Simple = Simple.dereference (Simple.local {n = "r"} ((ref_v 0, refl), refl, refl, refl, refl))

right-Simple : Simple python runtime no_rest checked with_x [] right
unfolding parse_int_text
right-Simple =
    Simple.strict tt (Simple.strict tt x-Simple (number-Simple "0xFA" 250 refl))
      (number-Simple "10" 10 refl)

left_value :
    eval python runtime.variant runtime.depth no_rest left with_x one_ref
    ≡ ok (bool_v true, one_ref)
unfolding eval get_local lookup copy_value
left_value = refl

right_value :
    (h : Heap (V python))
    → eval python runtime.variant runtime.depth no_rest right with_x h ≡ ok (bool_v true, h)
unfolding eval get_local lookup parse_int_text literal_value copy_value scalar_value compared
    arithmetic scalar_int compare_int int_info wrap_int cast_int
right_value h = refl

left-YieldsBool : YieldsBool python runtime no_rest checked with_x [] left one_ref
left-YieldsBool r e = (true, sym (ap (λ q. q.0) (ok_injective _ _ (sym left_value ∙ e))))

right-YieldsBool :
    (h : Heap (V python)) → YieldsBool python runtime no_rest checked with_x [] right h
right-YieldsBool h r e = (true, sym (ap (λ q. q.0) (ok_injective _ _ (sym (right_value h) ∙ e))))

tested-Simple : Simple python runtime no_rest checked with_x [] tested
tested-Simple = Simple.both left-Simple right-Simple

tested-HasBools : HasBools python runtime no_rest checked with_x [] tested-Simple one_ref
unfolding left-Simple right-Simple tested-Simple number-Simple x-Simple
tested-HasBools = (tt, left-YieldsBool, λ g e. (((tt, λ q k. tt), λ q k. tt), right-YieldsBool g))

tested-compiled : expr checked tested empty ≡ ok compiled
unfolding expr emit mark patch lazy_binary parse_int_text lookup emit_fields
tested-compiled = refl

expr-Refines_example :
    Gives python runtime code with_x none_v start [] 9
      (eval python runtime.variant runtime.depth no_rest tested with_x one_ref)
unfolding mark
expr-Refines_example =
    expr-Refines python runtime no_rest checked [] start empty compiled tested-Simple
      tested-HasBools tested-compiled refl (λ k low high. refl)

-- fn(x: u8) bool { return fn() unit { } }
abbrev params : List (String × Ty)
params = ("x", name_ty "u8") ∷ []

abbrev twice : Expr
twice = nested checked params [] (name_ty "bool") Ty.unit none none none end

abbrev twice_compiled : Compiler (V python)
twice_compiled = around params [] (name_ty "bool") Ty.unit empty (start_fn (start_fn empty))

twice-compiled : expr checked twice empty ≡ ok twice_compiled
unfolding expr
twice-compiled = refl

expr-nested_example :
    lookup (anon_name 0) twice_compiled.done
    ≡ some (returning (anon_name 0) params (name_ty "bool"))
expr-nested_example =
    expr-nested checked params [] (name_ty "bool") Ty.unit none none none end empty twice_compiled
      twice-compiled

-- inside a loop
abbrev in_loop : Compiler (V python)
in_loop = record empty {
  code = Ins.push_unit ∷ Ins.pop ∷ Ins.jump none ∷ [];
  loops = (record { break_depth = 1; cont_depth = 1; breaks = 2 ∷ []; conts = [] }) ∷ [];
}

-- if x < 7 { break; }
abbrev leaving : Stmt
leaving = Stmt.if_else (below x (number "7")) (next Stmt.break end) end

abbrev left_loop : Compiler (V python)
left_loop = record empty {
  code =
      Ins.push_unit
      ∷ Ins.pop
      ∷ Ins.jump none
      ∷ Ins.load "x"
      ∷ Ins.push_int 7 u8
      ∷ Ins.bin lt u8
      ∷ Ins.no_bindings
      ∷ Ins.jump_if_false (some 13)
      ∷ Ins.scope_enter_bindings
      ∷ Ins.unwind 1
      ∷ Ins.jump none
      ∷ Ins.scope_exit
      ∷ Ins.jump (some 16)
      ∷ Ins.drop_bindings
      ∷ Ins.scope_enter
      ∷ Ins.scope_exit
      ∷ [];
  loops = (record { break_depth = 1; cont_depth = 1; breaks = 10 ∷ 2 ∷ []; conts = [] }) ∷ [];
}

leaving-compiled : stmt checked leaving in_loop ≡ ok left_loop
unfolding stmt emit mark patch enter_scope exit_scope break_jump emit_unwind if_stmt scoped
    condition parse_int_text lookup emit_fields
leaving-compiled = refl

stmt-Same_example : Same (mark in_loop) in_loop left_loop
stmt-Same_example = stmt-Same checked leaving in_loop left_loop leaving-compiled
