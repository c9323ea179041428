-- ===== src/Frontend/Ast/Types.antt =====
-- frontend/AST.h: types, modifiers, and the parts of a definition that hold no subtree.
use proto_scala.Common.{Bool, Option, List, Bytes}
use proto_scala.Frontend.Token.{SourcePos}

pub data TypeKind : Type 0 where
  name applied function tuple by_name repeated wildcard infix_type builtin : TypeKind

mutual
  pub data TypeTree : Type 0 where
    type_tree : (kind : TypeKind) (name : Bytes) (args : TypeTrees) (pos : SourcePos) → TypeTree

  pub data TypeTrees : Type 0 where
    no_types : TypeTrees
    more_types : TypeTree → TypeTrees → TypeTrees

pub record Modifiers : Type 0 where
  pub is_private : Bool
  pub is_protected : Bool
  pub is_override : Bool
  pub is_abstract : Bool
  pub is_final : Bool
  pub is_sealed : Bool

-- A parameter without its default value.
pub record ParamInfo : Type 0 where
  pub name : Bytes
  pub type : Option TypeTree
  pub by_name : Bool
  pub repeated : Bool
  pub pos : SourcePos
  pub is_val : Bool
  pub is_var : Bool
  pub mods : Modifiers

-- A `ValDef` without its right-hand side and its pattern.
pub record ValInfo : Type 0 where
  pub name : Bytes
  pub is_var : Bool
  pub is_lazy : Bool
  pub mods : Modifiers
  pub type : Option TypeTree
  pub synthetic : Bool

-- A `DefDef` without its parameter lists and its body.
pub record DefInfo : Type 0 where
  pub name : Bytes
  pub annotations : List Bytes
  pub type_params : List Bytes
  pub result_type : Option TypeTree
  pub curried : Bool
  pub mods : Modifiers
  pub synthetic : Bool

pub record ImportSelector : Type 0 where
  pub name : Bytes
  pub alias : Bytes
  pub is_wildcard : Bool
  pub given : Bool
  pub pos : SourcePos

pub record ImportInfo : Type 0 where
  pub text : Bytes
  pub path : List Bytes
  pub selectors : List ImportSelector
  pub module_alias : Bytes

pub data TemplateKind : Type 0 where
  class_template trait object enum : TemplateKind

-- A `TemplateDef` without its parameters, parents, statements and enum cases.
pub record TemplateInfo : Type 0 where
  pub kind : TemplateKind
  pub is_case : Bool
  pub mods : Modifiers
  pub name : Bytes
  pub type_params : List Bytes
  pub has_param_clause : Bool
  pub self_name : Bytes
  pub synthetic : Bool
  pub enum_companion : Bool

pub record TypeDefInfo : Type 0 where
  pub name : Bytes
  pub type_params : List Bytes
  pub rhs : Option TypeTree
  pub mods : Modifiers

pub data PatternKind : Type 0 where
  wildcard var literal stable typed bind alt extractor tuple seq_wildcard : PatternKind

pub data EnumeratorKind : Type 0 where
  generator guard value : EnumeratorKind
