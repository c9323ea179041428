-- ===== src/Frontend/Ast/Dump.antt =====
-- frontend/AST.cpp: `render`, `renderPattern` and `dump`, the S-expression of a tree.
use proto_scala.Common.{Bool, true, false, if◌then◌else◌, List, [], ◌++◌, Bytes, codes}
use proto_scala.Frontend.Ast.Tree.{
  Node, node, NodePtr, null, ptr, Nodes, no_nodes, more_nodes, Shape, int_lit, float_lit,
  string_lit, char_lit, bool_lit, null_lit, unit_lit, interp_string, ident, select, apply,
  type_apply, infix_op, prefix_op, assign, if_expr, while_loop, return_expr, block, lambda,
  typed_expr, parens, tuple_expr, splice, named_arg, val_def, def_def, import_stat, template_def,
  new_expr, match_expr, for_expr, try_expr, throw_expr, super_ref, extension_def, type_def, Params,
  no_params, more_params, ParamLists, no_lists, more_lists, Parents, no_parents, more_parents,
  Cases, no_cases, more_cases, Pattern, pattern_of, Patterns, no_patterns, more_patterns,
  PatternPtr, no_pattern, the_pattern, Enumerators, no_enums, more_enums,
}
use proto_scala.Frontend.Ast.Types.{
  wildcard, var, literal, stable, typed, bind, alt, extractor, tuple, seq_wildcard,
}
use proto_scala.Frontend.Lexer.Utf8.{utf8}
use proto_scala.Frontend.Ast.Render.{
  escaped, sp, in_quotes, render_type, render_types, optional, param_head, render_mods,
  class_param_mods, typed_as, val_word, template_head, def_head, self_text, type_def_text,
  enumerator_word, super_text_of, seq_wildcard_text, type_of_pattern, spec_text, head_text,
  last_text, tail_texts, int_text,
}

abbrev pub some_list : ParamLists → Bool
some_list no_lists = false
some_list (more_lists ps ls) = true

abbrev pub some_parent : Parents → Bool
some_parent no_parents = false
some_parent (more_parents t args b p ps) = true

unfoldable mutual
  pub render : Node → Bytes
  render (node p s) = render_shape s

  -- A space and the subtree, for each subtree.
  pub render_children : Nodes → Bytes
  render_children no_nodes = []
  render_children (more_nodes n ns) = sp ++ (render n ++ render_children ns)

  -- A space and the subtree, or nothing.
  pub render_spaced : NodePtr → Bytes
  render_spaced null = []
  render_spaced (ptr n) = sp ++ render n

  pub render_ptr : NodePtr → Bytes
  render_ptr null = []
  render_ptr (ptr n) = render n

  pub render_default : NodePtr → Bytes
  render_default null = []
  render_default (ptr n) = codes " = " ++ render n

  -- The parameters of `renderParams`, between its brackets.
  pub render_params : Params → Bytes
  render_params no_params = []
  render_params (more_params i d no_params) = param_head i ++ render_default d
  render_params (more_params i d (more_params j e ps)) =
      param_head i ++ (render_default d ++ (sp ++ render_params (more_params j e ps)))

  pub render_class_params : Params → Bytes
  render_class_params no_params = []
  render_class_params (more_params i d no_params) =
      class_param_mods i ++ (param_head i ++ render_default d)
  render_class_params (more_params i d (more_params j e ps)) =
      class_param_mods i
      ++ (param_head i ++ (render_default d ++ (sp ++ render_class_params (more_params j e ps))))

  pub render_lists : ParamLists → Bytes
  render_lists no_lists = []
  render_lists (more_lists ps no_lists) = codes "(" ++ (render_params ps ++ codes ")")
  render_lists (more_lists ps (more_lists qs ls)) =
      codes "(" ++ (render_params ps ++ (codes ") " ++ render_lists (more_lists qs ls)))

  pub render_parents : Parents → Bytes
  render_parents no_parents = []
  render_parents (more_parents t args true p ps) =
      codes " (" ++ (render_type t ++ (render_children args ++ (codes ")" ++ render_parents ps)))
  render_parents (more_parents t args false p ps) = sp ++ (render_type t ++ render_parents ps)

  pub render_guard : NodePtr → Bytes
  render_guard null = []
  render_guard (ptr n) = codes " (if " ++ (render n ++ codes ")")

  pub render_finally : NodePtr → Bytes
  render_finally null = []
  render_finally (ptr n) = codes " (finally " ++ (render n ++ codes ")")

  pub render_cases : Cases → Bytes
  render_cases no_cases = []
  render_cases (more_cases pat guard body p cs) =
      codes " (case "
      ++ (render_pattern pat
          ++ (render_guard guard ++ (sp ++ (render body ++ (codes ")" ++ render_cases cs)))))

  pub render_enums : Enumerators → Bytes
  render_enums no_enums = []
  render_enums (more_enums k pat e p b es) =
      enumerator_word k
      ++ (render_pattern_spaced pat ++ (render e ++ (codes ")" ++ render_enums es)))

  pub render_pattern_spaced : PatternPtr → Bytes
  render_pattern_spaced no_pattern = []
  render_pattern_spaced (the_pattern p) = render_pattern p ++ sp

  -- The literals and the holes of an interpolated string.
  pub render_holes : List Bytes → Nodes → List Bytes → Bytes
  render_holes ls no_nodes specs = sp ++ (in_quotes (last_text ls) ++ codes ")")
  render_holes ls (more_nodes n ns) specs =
      sp
      ++ (in_quotes (head_text ls)
          ++ (sp
              ++ (render n
                  ++ (spec_text (head_text specs)
                      ++ render_holes (tail_texts ls) ns (tail_texts specs)))))

  pub render_shape : Shape → Bytes
  render_shape (int_lit v fits ds base) = codes "(int " ++ (int_text v fits ds ++ codes ")")
  render_shape (float_lit v text) = codes "(float " ++ (text ++ codes ")")
  render_shape (string_lit v) = codes "(str " ++ (in_quotes v ++ codes ")")
  render_shape (char_lit v) = codes "(char '" ++ (escaped (utf8 v) ++ codes "')")
  render_shape (bool_lit true) = codes "true"
  render_shape (bool_lit false) = codes "false"
  render_shape null_lit = codes "null"
  render_shape unit_lit = codes "()"
  render_shape (interp_string i ls args specs) =
      codes "(interp " ++ (i ++ render_holes ls args specs)
  render_shape (ident n) = n
  render_shape (select q n) = codes "(. " ++ (render q ++ (sp ++ (n ++ codes ")")))
  render_shape (apply fn args b w) =
      codes "(apply " ++ (render fn ++ (render_children args ++ codes ")"))
  render_shape (type_apply fn ts) =
      codes "(tapply " ++ (render fn ++ (render_types ts ++ codes ")"))
  render_shape (infix_op l op r) =
      codes "(infix " ++ (op ++ (sp ++ (render l ++ (sp ++ (render r ++ codes ")")))))
  render_shape (prefix_op op e) = codes "(prefix " ++ (op ++ (sp ++ (render e ++ codes ")")))
  render_shape (assign t v) = codes "(= " ++ (render t ++ (sp ++ (render v ++ codes ")")))
  render_shape (if_expr c t e) =
      codes "(if " ++ (render c ++ (sp ++ (render t ++ (render_spaced e ++ codes ")"))))
  render_shape (while_loop c b) = codes "(while " ++ (render c ++ (sp ++ (render b ++ codes ")")))
  render_shape (return_expr v) = codes "(return" ++ (render_spaced v ++ codes ")")
  render_shape (block stats d) = codes "(block" ++ (render_children stats ++ codes ")")
  render_shape (lambda ps body r c) =
      codes "(lambda (" ++ (render_params ps ++ (codes ") " ++ (render body ++ codes ")")))
  render_shape (typed_expr e t) =
      codes "(typed " ++ (render e ++ (sp ++ (render_type t ++ codes ")")))
  render_shape (parens e) = codes "(parens " ++ (render e ++ codes ")")
  render_shape (tuple_expr es) = codes "(tuple" ++ (render_children es ++ codes ")")
  render_shape (splice e) = codes "(splice " ++ (render e ++ codes ")")
  render_shape (named_arg n v) = codes "(named " ++ (n ++ (sp ++ (render v ++ codes ")")))
  render_shape (val_def i rhs no_pattern) =
      val_word i
      ++ (render_mods i.mods
          ++ (sp ++ (i.name ++ (typed_as i.type ++ (render_spaced rhs ++ codes ")")))))
  render_shape (val_def i rhs (the_pattern p)) =
      (if i.is_var then codes "(var-pat" else codes "(val-pat")
      ++ (render_mods i.mods ++ (sp ++ (render_pattern p ++ (sp ++ (render_ptr rhs ++ codes ")")))))
  render_shape (def_def i ls body) =
      def_head i
      ++ (optional (some_list ls) (codes " (" ++ (render_lists ls ++ codes ")"))
          ++ (typed_as i.result_type ++ (render_spaced body ++ codes ")")))
  render_shape (import_stat i) = codes "(import " ++ (i.text ++ codes ")")
  render_shape (template_def i ps parents body cs) =
      template_head i
      ++ (optional i.has_param_clause (codes " (" ++ (render_class_params ps ++ codes ")"))
          ++ (optional (some_parent parents)
                (codes " (extends" ++ (render_parents parents ++ codes ")"))
              ++ (self_text i.self_name
                  ++ (codes " (body" ++ (render_children body ++ codes "))")))))
  render_shape (new_expr t args b) =
      codes "(new " ++ (render_type t ++ (render_children args ++ codes ")"))
  render_shape (match_expr s cs) = codes "(match " ++ (render s ++ (render_cases cs ++ codes ")"))
  render_shape (for_expr es body y) =
      (if y then codes "(for-yield" else codes "(for-do")
      ++ (render_enums es ++ (sp ++ (render body ++ codes ")")))
  render_shape (try_expr b cs f) =
      codes "(try " ++ (render b ++ (render_cases cs ++ (render_finally f ++ codes ")")))
  render_shape (throw_expr v) = codes "(throw " ++ (render v ++ codes ")")
  render_shape (super_ref q) = super_text_of q
  render_shape (extension_def n t ms) =
      codes "(extension ("
      ++ (n ++ (codes " " ++ (render_type t ++ (codes ")" ++ (render_children ms ++ codes ")")))))
  render_shape (type_def i) = type_def_text i

  pub render_pattern : Pattern → Bytes
  render_pattern (pattern_of wildcard p n e t args) = codes "_"
  render_pattern (pattern_of var p n e t args) = n
  render_pattern (pattern_of literal p n e t args) = render_ptr e
  render_pattern (pattern_of stable p n e t args) = codes "(stable " ++ (render_ptr e ++ codes ")")
  render_pattern (pattern_of typed p n e t args) =
      codes "(: " ++ (front_pattern args ++ (sp ++ (type_of_pattern t ++ codes ")")))
  render_pattern (pattern_of bind p n e t args) =
      codes "(@ " ++ (n ++ (sp ++ (front_pattern args ++ codes ")")))
  render_pattern (pattern_of alt p n e t args) = codes "(|" ++ (render_patterns args ++ codes ")")
  render_pattern (pattern_of extractor p n e t args) =
      codes "(unapply " ++ (render_ptr e ++ (render_patterns args ++ codes ")"))
  render_pattern (pattern_of tuple p n e t args) =
      codes "(tuple-pat" ++ (render_patterns args ++ codes ")")
  render_pattern (pattern_of seq_wildcard p n e t args) = seq_wildcard_text n

  pub front_pattern : Patterns → Bytes
  front_pattern no_patterns = []
  front_pattern (more_patterns p ps) = render_pattern p

  pub render_patterns : Patterns → Bytes
  render_patterns no_patterns = []
  render_patterns (more_patterns p ps) = sp ++ (render_pattern p ++ render_patterns ps)

abbrev pub dump : Node → Bytes
dump n = render n

-- `dump` of a compilation unit, given as its statements.
unfoldable pub dump_unit : Nodes → Bytes
unfolding render_children
dump_unit stats = codes "(unit" ++ (render_children stats ++ codes ")")
