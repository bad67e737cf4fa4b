-- ===== src/Bytecode.antt =====
-- src/lang/bytecode.py: the instructions, class `BCCompiler` with the state that it keeps, and its
-- operations on the code under construction.
pub mod Names
pub mod Statements
pub mod Compile
pub mod Vm
pub mod Step
pub mod Run
pub mod Fragment
pub mod Simple
pub mod Reach
pub mod Steps
pub mod Operands
pub mod Runs
pub mod Refines
pub mod Nested
pub mod Kept
pub mod Blocks
pub mod Rounds
pub mod ForIn
pub mod Arms
pub mod Steadily
pub mod Balance
use l.Base.{
  ℕ, suc, ◌-◌, String, Bool, true, false, Option, none, some, List, [], ◌∷◌, ◌++◌, ltb, ◌==◌,
  if◌then◌else◌, length, get_elem?, set,
}
use l.Base.Dict.{Dict}
use l.Base.Results.{Result, ok, err}
use l.Types.{Ty}
use l.Syntax.{Expr, Binary, Prefix, Pattern, Block}

-- One constructor for each opcode, with its operands. `PUSH` has three forms: a constant of the
-- program, True or False, and None. A jump that is not patched yet has the operand None.
module _ (V : Type 0) where
  pub data Ins : Type 0 where
    push_unit push_none : Ins
    push : V → Ins
    push_bool : Bool → Ins
    push_int : ℕ → Option Ty → Ins
    push_float : String → Option Ty → Ins
    make_bytes : List ℕ → Ins
    make_some make_repeat new : Ins
    make_array : ℕ → Ins
    make_struct : String → List String → Ins
    make_enum_zero : String → String → Ins
    make_enum : String → String → ℕ → Ins
    decl load local_place field_place value_field_place get_field : String → Ins
    index_place deref_place load_place store_place : Ins
    dup pop : Ins
    scope_enter scope_enter_bindings scope_exit : Ins
    unwind : ℕ → Ins
    no_bindings drop_bindings merge_bindings : Ins
    jump jump_if_false jump_if_false_keep jump_if_true_keep jump_if_no_match : Option ℕ → Ins
    len index deref : Ins
    local_inc_u64 : String → Ins
    unary : Prefix → Option Ty → Ins
    bin : Binary → Option Ty → Ins
    cast : Option Ty → Option Ty → Ins
    push_func : String → Ins
    call_named : String → ℕ → Ins
    call_value : ℕ → Ins
    host_member : List String → List String → Ins
    array_push array_pop array_splice : Ins
    save_match_value load_match_value clear_match_value : Ins
    try_pattern : Pattern → Option Ty → Ins
    pattern_to_bool trap_match trap ret : Ins

-- the parts of `FnInfo` that the compiler reads
pub record FnInfo : Type 0 where
  pub params : List (String × Ty)
  pub ret_ty : Ty
  pub body : Block

-- what the compiler asks of the checked module; `resolved_variant` is the attribute of that name,
-- which the checker leaves at a node, as the enum's name and the variant
pub record Checked (V : Type 0) : Type 0 where
  pub consts : Dict V
  pub funcs : Dict FnInfo
  pub imports : Dict (List String)
  pub resolved_variant : Expr → Option (String × String)

pub record BcFunc (V : Type 0) : Type 0 where
  pub param_names : List String
  pub code : List (Ins V)
  pub result : Ty

-- an entry of `self.loops`: breaks, conts, bd, cd
pub record BcLoop : Type 0 where
  pub breaks : List ℕ
  pub conts : List ℕ
  pub break_depth : ℕ
  pub cont_depth : ℕ

-- The function under construction, and what the whole compilation shares: `seq`, the number of
-- entries of `self.anon`, and `self.funcs`. The innermost loop comes first. A node of the syntax is
-- compiled once, so `self.anon` never has it already.
pub record Compiler (V : Type 0) : Type 0 where
  pub code : List (Ins V)
  pub loops : List BcLoop
  pub scope_depth : ℕ
  pub seq : ℕ
  pub anon : ℕ
  pub done : Dict (BcFunc V)

-- the errors that `BCCompiler` raises: LangError for a place or a callee, RuntimeError, IndexError
-- at `self.loops[-1]`, and ValueError at the text of a number
pub data CompileError : Type 0 where
  place_missing unnamed_callee bad_depth no_loop no_name bad_number : CompileError

abbrev pub Compiled : Type 0 → Type 0
Compiled V = Result CompileError (Compiler V)

module _ {V : Type 0} where
  unfoldable pub emit : Ins V → Compiler V → Compiler V
  emit i c = record c { code = c.code ++ (i ∷ []) }

  unfoldable pub mark : Compiler V → ℕ
  mark c = length c.code

  -- the instruction with its last operand replaced: only jumps are patched
  abbrev pub set_target : ℕ → Ins V → Ins V
  set_target t (Ins.jump o) = Ins.jump (some t)
  set_target t (Ins.jump_if_false o) = Ins.jump_if_false (some t)
  set_target t (Ins.jump_if_false_keep o) = Ins.jump_if_false_keep (some t)
  set_target t (Ins.jump_if_true_keep o) = Ins.jump_if_true_keep (some t)
  set_target t (Ins.jump_if_no_match o) = Ins.jump_if_no_match (some t)
  set_target t i = i

  abbrev pub patch_list : List (Ins V) → ℕ → ℕ → List (Ins V)
  patch_list code at target = elim (get_elem? code at) [
    | some i ↦ set code at (set_target target i)
    | none ↦ code
  ]

  unfoldable pub patch : ℕ → ℕ → Compiler V → Compiler V
  patch at target c = record c { code = patch_list c.code at target }

  -- for j in js: self.patch(j, target)
  unfoldable pub patch_all : List ℕ → ℕ → Compiler V → Compiler V
  patch_all [] target c = c
  patch_all (j ∷ js) target c = patch_all js target (patch j target c)

  unfoldable pub enter_scope : Bool → Compiler V → Compiler V
  unfolding emit
  enter_scope bindings c =
      let c' = emit (if bindings then Ins.scope_enter_bindings else Ins.scope_enter) c in
      record c' { scope_depth = suc c.scope_depth }

  unfoldable pub exit_scope : Compiler V → Compiler V
  unfolding emit
  exit_scope c = let c' = emit Ins.scope_exit c in record c' { scope_depth = c.scope_depth - 1 }

  unfoldable pub emit_unwind : ℕ → Compiler V → Compiled V
  unfolding emit
  emit_unwind target c =
      if ltb c.scope_depth target
      then err bad_depth
      else (if c.scope_depth == target
          then ok c
          else ok (emit (Ins.unwind (c.scope_depth - target)) c))

  -- self.loops.append((breaks, conts, bd, cd)) with two empty lists
  unfoldable pub push_loop : ℕ → ℕ → Compiler V → Compiler V
  push_loop bd cd c = record c {
    loops = record { breaks = []; conts = []; break_depth = bd; cont_depth = cd } ∷ c.loops;
  }

  -- self.loops.pop(), and the patches of the jumps that the loop has collected
  unfoldable pub close_loop : ℕ → ℕ → Compiler V → Compiled V
  unfolding patch_all
  close_loop end cont c = elim c.loops [
    | [] ↦ err no_loop
    | l ∷ ls ↦ ok (patch_all l.conts cont (patch_all l.breaks end (record c { loops = ls })))
  ]

  -- the scopes are unwound to the depth of the loop, and the jump is added to its breaks or conts
  unfoldable pub break_jump : Compiler V → Compiled V
  unfolding emit mark emit_unwind
  break_jump c = elim c.loops [
    | [] ↦ err no_loop
    | l ∷ ls ↦ elim (emit_unwind l.break_depth c) [
      | err e ↦ err e
      | ok c₁ ↦ ok (
          emit (Ins.jump none)
            (record c₁ { loops = record l { breaks = mark c₁ ∷ l.breaks } ∷ ls }))
    ]
  ]

  unfoldable pub continue_jump : Compiler V → Compiled V
  unfolding emit mark emit_unwind
  continue_jump c = elim c.loops [
    | [] ↦ err no_loop
    | l ∷ ls ↦ elim (emit_unwind l.cont_depth c) [
      | err e ↦ err e
      | ok c₁ ↦
          ok (
            emit (Ins.jump none)
              (record c₁ { loops = record l { conts = mark c₁ ∷ l.conts } ∷ ls }))
    ]
  ]
