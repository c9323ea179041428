-- ===== src/Frontend/Ast/Render.antt =====
-- frontend/AST.cpp: the S-expression of types, and what a node renders that holds no subtree. What the
-- source appends is returned here. `front()` of no types is left undefined there, and is empty here.
use proto_scala.Common.{
  ℕ, Bool, true, false, not, ◌&&◌, ◌==◌, if◌then◌else◌, Option, none, some, List, [], ◌∷◌, ◌++◌,
  Bytes, codes, to_string_signed,
}
use proto_scala.Frontend.Ast.Types.{
  TypeTree, type_tree, TypeTrees, no_types, more_types, Modifiers, ParamInfo, ValInfo, DefInfo,
  TemplateKind, TemplateInfo, TypeDefInfo, EnumeratorKind,
}
use proto_scala.Frontend.Ast.Types.{
  name, applied, function, tuple, by_name, repeated, wildcard, infix_type, builtin, class_template,
  trait, object, enum, generator, guard,
}

-- `appendEscaped`
unfoldable pub escaped_char : ℕ → Bytes
escaped_char c =
    if c == 10
    then codes "\\n"
    else if c == 9
    then codes "\\t"
    else if c == 34
    then 92 ∷ 34 ∷ []
    else if c == 92
    then 92 ∷ 92 ∷ []
    else c ∷ []

unfoldable pub escaped : Bytes → Bytes
unfolding escaped_char
escaped [] = []
escaped (c ∷ cs) = escaped_char c ++ escaped cs

unfoldable pub sp : Bytes
sp = 32 ∷ []

pub in_quotes : Bytes → Bytes
unfolding escaped
in_quotes s = 34 ∷ (escaped s ++ 34 ∷ [])

-- `renderType`
mutual
  pub render_type : TypeTree → Bytes
  render_type (type_tree name n args pos) = n
  render_type (type_tree applied n args pos) =
      n ++ (codes "[" ++ (render_type_list args ++ codes "]"))
  render_type (type_tree function n args pos) =
      codes "(" ++ (render_init args ++ (codes ") => " ++ render_last args))
  render_type (type_tree tuple n args pos) = codes "(" ++ (render_type_list args ++ codes ")")
  render_type (type_tree by_name n args pos) = codes "=> " ++ render_front args
  render_type (type_tree repeated n args pos) = render_front args ++ codes "*"
  render_type (type_tree wildcard n args pos) = codes "?"
  render_type (type_tree builtin n args pos) = n
  render_type (type_tree infix_type n args pos) =
      render_front args ++ (codes " " ++ (n ++ (codes " " ++ render_second args)))

  -- `renderTypeList` of all types, and of all but the last.
  render_type_list : TypeTrees → Bytes
  render_type_list no_types = []
  render_type_list (more_types t no_types) = render_type t
  render_type_list (more_types t (more_types u ts)) =
      render_type t ++ (codes ", " ++ render_type_list (more_types u ts))

  render_init : TypeTrees → Bytes
  render_init no_types = []
  render_init (more_types t no_types) = []
  render_init (more_types t (more_types u no_types)) = render_type t
  render_init (more_types t (more_types u (more_types v ts))) =
      render_type t ++ (codes ", " ++ render_init (more_types u (more_types v ts)))

  render_last : TypeTrees → Bytes
  render_last no_types = []
  render_last (more_types t no_types) = render_type t
  render_last (more_types t (more_types u ts)) = render_last (more_types u ts)

  render_front : TypeTrees → Bytes
  render_front no_types = []
  render_front (more_types t ts) = render_type t

  render_second : TypeTrees → Bytes
  render_second no_types = []
  render_second (more_types t ts) = render_front ts

pub is_by_name : TypeTree → Bool
is_by_name (type_tree by_name n args pos) = true
is_by_name (type_tree k n args pos) = false

pub is_repeated : TypeTree → Bool
is_repeated (type_tree repeated n args pos) = true
is_repeated (type_tree k n args pos) = false

abbrev pub optional : Bool → Bytes → Bytes
optional true text = text
optional false text = []

-- The type of a parameter, each flag rendered once.
unfoldable pub param_type : ParamInfo → Option TypeTree → Bytes
unfolding render_type is_by_name is_repeated
param_type i none = []
param_type i (some t) =
    codes ":"
    ++ (optional (i.by_name && not (is_by_name t)) (codes "=> ")
        ++ (render_type t ++ optional (i.repeated && not (is_repeated t)) (codes "*")))

unfoldable pub param_head : ParamInfo → Bytes
unfolding param_type
param_head i = i.name ++ param_type i i.type

-- `renderMods`
pub render_mods : Modifiers → Bytes
render_mods m =
    optional m.is_private (codes " private")
    ++ (optional m.is_override (codes " override") ++ optional m.is_abstract (codes " abstract"))

-- What `renderClassParam` puts in front of a parameter.
pub class_param_mods : ParamInfo → Bytes
class_param_mods i =
    optional i.mods.is_private (codes "private ")
    ++ (optional i.is_val (codes "val ") ++ optional i.is_var (codes "var "))

pub typed_as : Option TypeTree → Bytes
unfolding render_type
typed_as none = []
typed_as (some t) = codes " : " ++ render_type t

-- Words with one space between any two.
pub spaced : List Bytes → Bytes
unfolding sp
spaced [] = []
spaced (w ∷ []) = w
spaced (w ∷ v ∷ ws) = w ++ (sp ++ spaced (v ∷ ws))

pub type_params_text : List Bytes → Bytes
unfolding spaced
type_params_text [] = []
type_params_text (w ∷ ws) = codes " [" ++ (spaced (w ∷ ws) ++ codes "]")

pub annotations_text : List Bytes → Bytes
annotations_text [] = []
annotations_text (w ∷ ws) = codes " @" ++ (w ++ annotations_text ws)

pub val_word : ValInfo → Bytes
val_word i =
    if i.is_lazy then codes "(lazy-val" else if i.is_var then codes "(var" else codes "(val"

pub template_word : TemplateInfo → TemplateKind → Bytes
template_word i class_template = if i.is_case then codes "case-class" else codes "class"
template_word i trait = codes "trait"
template_word i object = if i.is_case then codes "case-object" else codes "object"
template_word i enum = codes "enum"

pub template_head : TemplateInfo → Bytes
unfolding template_word type_params_text
template_head i =
    codes "("
    ++ (template_word i i.kind
        ++ (optional i.mods.is_abstract (codes " abstract")
            ++ (optional i.mods.is_final (codes " final")
                ++ (optional i.mods.is_sealed (codes " sealed")
                    ++ (codes " " ++ (i.name ++ type_params_text i.type_params))))))

pub def_head : DefInfo → Bytes
unfolding annotations_text render_mods type_params_text
def_head i =
    codes "(def"
    ++ (annotations_text i.annotations
        ++ (render_mods i.mods ++ (codes " " ++ (i.name ++ type_params_text i.type_params))))

pub self_text : Bytes → Bytes
self_text [] = []
self_text (c ∷ cs) = codes " (self " ++ ((c ∷ cs) ++ codes ")")

pub alias_text : Option TypeTree → Bytes
unfolding render_type
alias_text none = []
alias_text (some t) = codes " = " ++ render_type t

pub type_def_text : TypeDefInfo → Bytes
unfolding render_mods type_params_text alias_text
type_def_text i =
    codes "(type"
    ++ (render_mods i.mods
        ++ (codes " "
            ++ (i.name ++ (type_params_text i.type_params ++ (alias_text i.rhs ++ codes ")")))))

pub enumerator_word : EnumeratorKind → Bytes
enumerator_word generator = codes " (<- "
enumerator_word guard = codes " (if "
enumerator_word EnumeratorKind.value = codes " (= "

pub super_text_of : Bytes → Bytes
super_text_of [] = codes "super"
super_text_of (c ∷ cs) = codes "(super " ++ ((c ∷ cs) ++ codes ")")

pub seq_wildcard_text : Bytes → Bytes
seq_wildcard_text [] = codes "_*"
seq_wildcard_text (c ∷ cs) = codes "(_* " ++ ((c ∷ cs) ++ codes ")")

pub render_types : TypeTrees → Bytes
unfolding sp render_type
render_types no_types = []
render_types (more_types t ts) = sp ++ (render_type t ++ render_types ts)

pub type_of_pattern : Option TypeTree → Bytes
unfolding render_type
type_of_pattern none = []
type_of_pattern (some t) = render_type t

pub spec_text : Bytes → Bytes
spec_text [] = []
spec_text (c ∷ cs) = codes " \"" ++ ((c ∷ cs) ++ codes "\"")

-- The next literal of an interpolated string and its specifier, `x.literals[k]` and `x.specs[k]`.
abbrev pub head_text : List Bytes → Bytes
head_text [] = []
head_text (w ∷ ws) = w

-- `x.literals.back()`
abbrev pub last_text : List Bytes → Bytes
last_text [] = []
last_text (w ∷ []) = w
last_text (w ∷ v ∷ ws) = last_text (v ∷ ws)

abbrev pub tail_texts : List Bytes → List Bytes
tail_texts [] = []
tail_texts (w ∷ ws) = ws

pub int_text : ℕ → Bool → Bytes → Bytes
int_text v true ds = to_string_signed v
int_text v false ds = ds
