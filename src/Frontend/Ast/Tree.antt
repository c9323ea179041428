-- ===== src/Frontend/Ast/Tree.antt =====
-- frontend/AST.h: the nodes. A node is its position and what its kind adds; a `NodePtr` that may be
-- null is a type of its own, and so is each vector of subtrees.
use proto_scala.Common.{ℕ, Bool, Option, List, Bytes}
use proto_scala.Frontend.Token.{SourcePos}
use proto_scala.Frontend.Ast.Types.{
  TypeTree, TypeTrees, ParamInfo, ValInfo, DefInfo, ImportInfo, TemplateInfo, TypeDefInfo,
  PatternKind, EnumeratorKind,
}

mutual
  pub data Node : Type 0 where
    node : (pos : SourcePos) (shape : Shape) → Node

  pub data NodePtr : Type 0 where
    null : NodePtr
    ptr : Node → NodePtr

  pub data Nodes : Type 0 where
    no_nodes : Nodes
    more_nodes : Node → Nodes → Nodes

  pub data Shape : Type 0 where
    int_lit : (value : ℕ) (fits_long : Bool) (digits : Bytes) (base : ℕ) → Shape
    float_lit : (value : ℕ) (text : Bytes) → Shape
    string_lit : (value : Bytes) → Shape
    char_lit : (value : ℕ) → Shape
    bool_lit : (value : Bool) → Shape
    null_lit unit_lit : Shape
    interp_string :
        (interpolator : Bytes) (literals : List Bytes) (args : Nodes) (specs : List Bytes) → Shape
    ident : (name : Bytes) → Shape
    select : (qualifier : Node) (name : Bytes) → Shape
    apply : (fn : Node) (args : Nodes) (block_arg double_widening : Bool) → Shape
    type_apply : (fn : Node) (types : TypeTrees) → Shape
    infix_op : (lhs : Node) (op : Bytes) (rhs : Node) → Shape
    prefix_op : (op : Bytes) (operand : Node) → Shape
    assign : (target value : Node) → Shape
    if_expr : (cond thenp : Node) (elsep : NodePtr) → Shape
    while_loop : (cond body : Node) → Shape
    return_expr : (value : NodePtr) → Shape
    block : (stats : Nodes) (value_discard : Bool) → Shape
    lambda : (params : Params) (body : Node) (owns_return from_curried_def : Bool) → Shape
    typed_expr : (expr : Node) (type : TypeTree) → Shape
    parens : (expr : Node) → Shape
    tuple_expr : (elems : Nodes) → Shape
    splice : (expr : Node) → Shape
    named_arg : (name : Bytes) (value : Node) → Shape
    val_def : (info : ValInfo) (rhs : NodePtr) (pat : PatternPtr) → Shape
    def_def : (info : DefInfo) (lists : ParamLists) (body : NodePtr) → Shape
    import_stat : (info : ImportInfo) → Shape
    template_def :
        (info : TemplateInfo) (params : Params) (parents : Parents) (body : Nodes)
        (cases : EnumCases)
        → Shape
    new_expr : (type : TypeTree) (args : Nodes) (has_args : Bool) → Shape
    match_expr : (scrutinee : Node) (cases : Cases) → Shape
    for_expr : (enums : Enumerators) (body : Node) (is_yield : Bool) → Shape
    try_expr : (body : Node) (cases : Cases) (finally_body : NodePtr) → Shape
    throw_expr : (value : Node) → Shape
    super_ref : (qualifier : Bytes) → Shape
    extension_def : (receiver_name : Bytes) (receiver_type : TypeTree) (members : Nodes) → Shape
    type_def : (info : TypeDefInfo) → Shape

  pub data Params : Type 0 where
    no_params : Params
    more_params : (info : ParamInfo) (default_value : NodePtr) → Params → Params

  pub data ParamLists : Type 0 where
    no_lists : ParamLists
    more_lists : Params → ParamLists → ParamLists

  pub data Parents : Type 0 where
    no_parents : Parents
    more_parents :
        (type : TypeTree) (args : Nodes) (has_args : Bool) (pos : SourcePos) → Parents → Parents

  pub data EnumCases : Type 0 where
    no_enum_cases : EnumCases
    more_enum_cases :
        (name : Bytes) (params : Params) (parent_args : Nodes) (has_parent_args has_parens : Bool)
        (pos : SourcePos)
        → EnumCases
        → EnumCases

  pub data Cases : Type 0 where
    no_cases : Cases
    more_cases : (pat : Pattern) (guard : NodePtr) (body : Node) (pos : SourcePos) → Cases → Cases

  pub data Pattern : Type 0 where
    pattern_of :
        (kind : PatternKind) (pos : SourcePos) (name : Bytes) (expr : NodePtr)
        (type : Option TypeTree) (args : Patterns)
        → Pattern

  pub data Patterns : Type 0 where
    no_patterns : Patterns
    more_patterns : Pattern → Patterns → Patterns

  pub data PatternPtr : Type 0 where
    no_pattern : PatternPtr
    the_pattern : Pattern → PatternPtr

  pub data Enumerators : Type 0 where
    no_enums : Enumerators
    more_enums :
        (kind : EnumeratorKind) (pat : PatternPtr) (expr : Node) (pos : SourcePos) (has_case : Bool)
        → Enumerators
        → Enumerators

abbrev pub position : Node → SourcePos
position (node pos shape) = pos
